-- ===== src/Store/Replace/Fits.antt =====
-- Where the values of a replacement fit their columns, it goes through.
use mathlib.Core.List.{Memᴰ}
use wildfire.Base.{
  ℕ, suc, ◌+◌, ◌*◌, ◌≤◌, ◌≡◌, refl, ap, sym, ◌∙◌, ◌↔◌, inl, inr, String, ◌==◌, Bool, true, ◌&&◌,
  some, List, [], ◌∷◌, any, every, filter, not, length, includes, All, arith, Bool-cases,
  Option-cases, ok, some-injective,
}
use wildfire.Base.Any.{and_intro}
use wildfire.Base.Int.{pos, pos_part}
use wildfire.Store.{Store, PlaylistItemRecord, PlaylistRecord, ContentRecord}
use wildfire.Store.Playlists.{list_items}
use wildfire.Store.Items.{Rows, fits_int, fits_columns, index_of, place_from}
use wildfire.Store.Items.Assign.{UniqueItems, index_of-lt}
use wildfire.Store.Replace.{
  ItemWrite, existing, new, write_duration, known_ids, max_sequence, temporary_base, write_of,
  rewrite, new_rows, new_contents, change_fits, all_fit, keys_exist, replace_items_atomic,
}
use wildfire.Store.Replace.Writes.{Found, later-some, write_of-lt, write_of-existing}
use wildfire.Store.Replace.Atomic.{
  others, others_replaced, write_replacement-replaced, replace_items_atomic-done,
}
use wildfire.Store.Replace.Described.{IsWritten}
use wildfire.Store.Replace.Asked.{replaced_iff}

abbrev DurationFits : ItemWrite → Type 0
DurationFits w = fits_int (write_duration w) ≡ true

write_of-fits :
    (id : String) (items : List ItemWrite) {p : Found}
    → All DurationFits items
    → write_of id items ≡ some p
    → DurationFits p.1
unfolding write_of
write_of-fits id [] f h = absurd (cc h)
write_of-fits id (new c d l ∷ items) f h =
    let (q, g, e) = later-some (write_of id items) h in
    ap (λ (x : Found). fits_int (write_duration x.1)) (sym e) ∙ write_of-fits id items f.1 g
write_of-fits id (existing x d l ∷ items) f h = elim (Bool-cases (x == id)) [
  | inl same ↦
      ap (λ (x : Found). fits_int (write_duration x.1)) (sym (some-injective (rw same at h))) ∙ f.0
  | inr other ↦
      let (q, g, e) = later-some (write_of id items) (rw other at h) in
      ap (λ (x : Found). fits_int (write_duration x.1)) (sym e) ∙ write_of-fits id items f.1 g
]

every_of {ℓ} :
    {A : Type ℓ} (p : A → Bool) (xs : List A) → ((x : A) → p x ≡ true) → every p xs ≡ true
every_of p [] h = refl
every_of p (x ∷ xs) h = rw (h x) (every_of p xs h)

length-known : (old : Rows) (items : List ItemWrite) → length (known_ids old items) ≤ length items
length-known old [] = omega arith
length-known old (new c d l ∷ items) = omega (arith, length-known old items)
length-known old (existing id d l ∷ items) =
    elim (Bool-cases (any (λ (r : PlaylistItemRecord). r.id == id) old)) [
      | inl e ↦ rw e (omega (arith, length-known old items))
      | inr e ↦ rw e (omega (arith, length-known old items))
    ]

max_sequence-bound :
    (bound : ℕ) (rows : Rows)
    → All (λ (r : PlaylistItemRecord). pos_part r.sequence ≤ bound) rows
    → max_sequence rows ≤ bound
unfolding max_sequence
max_sequence-bound bound [] h = omega arith
max_sequence-bound bound (r ∷ rs) h = omega (arith, h.0, max_sequence-bound bound rs h.1)

fits_int-pos : (n : ℕ) → n ≤ 2147483647 → fits_int (pos n) ≡ true
fits_int-pos n h = ground (arith, h)

module _ (playlist : String) (uuid : ℕ → String) (old : Rows) (items : List ItemWrite) (bound : ℕ)
    (low : All (λ (r : PlaylistItemRecord). pos_part r.sequence ≤ bound) old)
    (room : bound + 2 * length items + length old + 1000 ≤ 2147483647)
    (durations : All DurationFits items) where
  moved_fits :
      (r : PlaylistItemRecord)
      → change_fits
          (λ r. fits_int r.sequence)
          (place_from (temporary_base old items) (known_ids old items))
          r
        ≡ true
  unfolding temporary_base
  moved_fits r = elim (Option-cases (index_of r.id (known_ids old items))) [
    | inl none_there ↦ rw (none_there, change_fits) refl
    | inr (i, there) ↦
        rw (there, change_fits)
          (fits_int-pos (temporary_base old items + i) (
            omega (
              arith,
              room,
              max_sequence-bound bound old low,
              length-known old items,
              index_of-lt r.id (known_ids old items) there,
            )))
  ]

  rewritten_fits : (r : PlaylistItemRecord) → change_fits fits_columns (rewrite old items) r ≡ true
  unfolding rewrite
  rewritten_fits r = elim (Bool-cases (includes (known_ids old items) r.id)) [
    | inr unknown ↦ rw (unknown, change_fits) refl
    | inl known ↦ elim (Option-cases (write_of r.id items)) [
      | inl none_there ↦ rw (known, change_fits) (rw (none_there, change_fits) refl)
      | inr (p, there) ↦
          let (d, l, w) = write_of-existing r.id items there in
          let same : p ≡ (p.0, existing r.id d l) =
            ap (λ (w : ItemWrite). let q : Found = (p.0, w) in q) w in
          let fits : fits_int d ≡ true =
            ap (λ x. fits_int (write_duration x)) (sym w)
            ∙ write_of-fits r.id items durations there in
          rw (known, change_fits)
            (rw (there ∙ ap (λ q. some q) same, change_fits)
              (and_intro (fits_int (pos (1 + p.0))) (fits_int d)
                (fits_int-pos (1 + p.0) (omega (arith, room, write_of-lt r.id items there))) fits))
    ]
  ]

  new_fits :
      (start : ℕ) (writes : List ItemWrite)
      → start + length writes ≤ length items
      → All DurationFits writes
      → every fits_columns (new_rows playlist uuid start writes) ≡ true
  unfolding new_rows
  new_fits start [] h f = refl
  new_fits start (existing id d l ∷ writes) h f = new_fits (suc start) writes (omega (arith, h)) f.1
  new_fits start (new c d l ∷ writes) h f =
      rw
        (
          fits_int-pos (1 + start) (omega (arith, h, room)),
          f.0,
          new_fits (suc start) writes (omega (arith, h)) f.1,
        )
        refl

  all_fit-true : all_fit playlist uuid old items ≡ true
  unfolding all_fit
  all_fit-true =
      rw
        (
          every_of _ old moved_fits,
          every_of _ old rewritten_fits,
          new_fits 0 items (omega arith) durations,
        )
        refl

keys_exist-true :
    (playlist : String) (items : List ItemWrite) (st : Store)
    → any (λ (p : PlaylistRecord). p.id == playlist) st.playlists ≡ true
    → All (λ id. any (λ (c : ContentRecord). c.id == id) st.contents ≡ true) (new_contents items)
    → keys_exist playlist items st ≡ true
unfolding keys_exist
keys_exist-true playlist items st there known = go (new_contents items) known
  where
    go :
        (ids : List String)
        → All (λ id. any (λ (c : ContentRecord). c.id == id) st.contents ≡ true) ids
        → every
            (λ id.
              any (λ (p : PlaylistRecord). p.id == playlist) st.playlists
              && any (λ (c : ContentRecord). c.id == id) st.contents)
            ids
          ≡ true
    go [] h = refl
    go (id ∷ ids) h = rw (there, h.0, go ids h.1) refl

-- Where the playlist and the contents of its new items exist, the durations fit 32 bits, and the
-- places leave room for the temporary ones below 2 ^ 31, a replacement of the items is not refused:
-- it answers with the items as the playlist then lists them. The rows of the playlist are then just
-- those that the list asks for: each old item that it keeps, at the first place that names it and
-- with the values given there, and each new item at its place. The rows of the other playlists are
-- as they were.
pub replace_items_atomic-IsWritten :
    (playlist : String) (uuid : ℕ → String) (items : List ItemWrite) (at : String) (st : Store)
    (bound : ℕ)
    → UniqueItems st.playlist_items
    → any (λ (p : PlaylistRecord). p.id == playlist) st.playlists ≡ true
    → All (λ id. any (λ (c : ContentRecord). c.id == id) st.contents ≡ true) (new_contents items)
    → All (λ w. fits_int (write_duration w) ≡ true) items
    → All (λ (r : PlaylistItemRecord). pos_part r.sequence ≤ bound) (list_items playlist st)
    → bound + 2 * length items + length (list_items playlist st) + 1000 ≤ 2147483647
    → ((replace_items_atomic playlist uuid items at st).0
        ≡ ok (list_items playlist (replace_items_atomic playlist uuid items at st).1))
      × ((r : PlaylistItemRecord)
          → r.playlist_id ≡ playlist
          → Memᴰ r (replace_items_atomic playlist uuid items at st).1.playlist_items
            ↔ IsWritten playlist uuid items st.playlist_items r)
      × (filter
            (λ r. not (r.playlist_id == playlist))
            (replace_items_atomic playlist uuid items at st).1.playlist_items
          ≡ filter (λ r. not (r.playlist_id == playlist)) st.playlist_items)
replace_items_atomic-IsWritten playlist uuid items at st bound u there known durations low room =
    let done =
      replace_items_atomic-done playlist items st uuid at
        (all_fit-true playlist uuid (list_items playlist st) items bound low room durations)
        (keys_exist-true playlist items st there known) in
    let (answer, is) = write_replacement-replaced playlist items st uuid at u in
    rw done (
      answer,
      (λ r mine. rw is (replaced_iff playlist items st uuid u r mine)),
      ap (others playlist items st) is ∙ others_replaced playlist items st uuid u,
    )
