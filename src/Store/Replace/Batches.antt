-- ===== src/Store/Replace/Batches.antt =====
-- The two batches of `replaceItemsAtomic` on the rows that are kept amount to one rewriting.
use mathlib.Core.Path.{fun_ext}
use mathlib.Core.Option
use wildfire.Base.{
  ℕ, ◌+◌, ◌≤◌, ◌<◌, ◌≡◌, refl, ap, sym, subst, List-cases, ◌∙◌, inl, inr, String, ◌==◌, Bool, true,
  false, Option, none, some, or_else, List, [], ◌∷◌, map, any, length, includes, All, arith,
  Bool-cases, Option-cases, eq_iff, some-injective, none≢some, if◌then◌else◌,
}
use wildfire.Base.Any.{any-of_filter}
use wildfire.Base.Int.{ℤ, pos, eq_ℤ, pos_part}
use wildfire.Store.{PlaylistItemRecord}
use wildfire.Store.Items.{Rows, applied, placed, update_each, index_of, place_from}
use wildfire.Store.Items.Assign.{
  Fits, UniqueItems, update_each-Fits, index_of-lt, index_of-injective, index_of-some,
}
use wildfire.Store.Items.Moved.{
  IsMember, placed-Fits, moved_free, moved-IsMember, UniqueItems-moved,
}
use wildfire.Store.Replace.{
  ItemWrite, existing, kept_ids, known_ids, max_sequence, temporary_base, write_of, rewrite,
  rewrite_kept,
}
use wildfire.Store.Replace.Writes.{
  Found, write_of-lt, write_of-existing, write_of-none, write_of-injective, values, values_stay,
  values_count, written-values,
}

module _ (playlist : String) (old : Rows) (items : List ItemWrite) where
  abbrev ks : List String
  ks = known_ids old items

  abbrev base : ℕ
  base = temporary_base old items

  abbrev found_for : String → Option Found
  found_for id = if includes ks id then write_of id items else none

  abbrev place_for : String → Option ℕ
  place_for id = Option.map (λ (p : Found). p.0) (found_for id)

  found_inv :
      (id : String) {p : Found}
      → found_for id ≡ some p
      → (includes ks id ≡ true) × (write_of id items ≡ some p)
  found_inv id h = elim (Bool-cases (includes ks id)) [
    | inl e ↦ (e, rw e at h)
    | inr e ↦ absurd (none≢some (rw e at h))
  ]

  place_inv :
      (id : String) {i : ℕ}
      → place_for id ≡ some i
      → (p : Found) × (found_for id ≡ some p) × (p.0 ≡ i)
  place_inv id h = elim (Option-cases (found_for id)) [
    | inl e ↦ absurd (none≢some (rw e at h))
    | inr (p, e) ↦ (p, e, some-injective (rw e at h))
  ]

  known_found : (id : String) → includes ks id ≡ true → (p : Found) × (found_for id ≡ some p)
  known_found id e = elim (Option-cases (write_of id items)) [
    | inl none_there ↦
        let kept =
          any-of_filter (λ k. k == id) (λ k. any (λ (r : PlaylistItemRecord). r.id == k) old)
            (kept_ids items) e in
        absurd (cc (kept, write_of-none id items none_there))
    | inr (p, there) ↦ (p, rw e there)
  ]

  place_bounded : (id : String) (i : ℕ) → place_for id ≡ some i → i < length items
  place_bounded id i h =
      let (p, e, is) = place_inv id h in omega (arith, write_of-lt id items (found_inv id e).1, is)

  place_injective : (a b : String) (i : ℕ) → place_for a ≡ some i → place_for b ≡ some i → a ≡ b
  place_injective a b i h k =
      let (p, e, is) = place_inv a h in
      let (q, f, js) = place_inv b k in
      write_of-injective a b items (found_inv a e).1 (found_inv b f).1 (is ∙ sym js)

  place_none : (id : String) → place_for id ≡ none → includes ks id ≡ false
  place_none id h = elim (Bool-cases (includes ks id)) [
    | inr e ↦ e
    | inl e ↦ let (p, f) = known_found id e in absurd (none≢some (sym (rw f at h)))
  ]

  abbrev write : PlaylistItemRecord → ℕ → PlaylistItemRecord
  write r i = values (write_of r.id items) i r

  rewrite-write :
      (r : PlaylistItemRecord) → rewrite old items r ≡ Option.map (write r) (place_for r.id)
  unfolding rewrite
  rewrite-write r = elim (Bool-cases (includes ks r.id)) [
    | inr e ↦ rw e refl
    | inl e ↦ rw e (elim (Option-cases (write_of r.id items)) [
      | inl h ↦ rw h refl
      | inr (p, h) ↦
          rw h (ap (λ x. some x) (written-values r.id items r h ∙ ap (λ o. values o p.0 r) (sym h)))
    ])
  ]

  -- An old item of the playlist stands no further than the greatest of them.
  abbrev pub IsBelow : PlaylistItemRecord → Type 0
  IsBelow r = r.playlist_id ≡ playlist → pos_part r.sequence ≤ max_sequence old

  first_free :
      (r : PlaylistItemRecord)
      → IsBelow r
      → r.playlist_id ≡ playlist
      → (i : ℕ) → i < length ks
      → eq_ℤ (pos (base + i)) r.sequence ≡ false
  unfolding temporary_base
  first_free r low is i h = let bound = low is in ground arith

  first-Fits :
      (rs : Rows)
      → All (IsMember playlist ks) rs
      → All IsBelow rs
      → All
          (Fits playlist
            (λ id. index_of id ks)
            (length ks)
            (λ id i h. index_of-lt id ks h)
            (λ a b i h k. index_of-injective a b ks {i = i} h k)
            base
            (λ r i. placed base i r)
            (λ r i. refl)
            (λ r i. refl))
          rs
  first-Fits [] m low = tt
  first-Fits (r ∷ rs) m low =
      (placed-Fits playlist ks base r m.0 (first_free r low.0), first-Fits rs m.1 low.1)

  second-Fits :
      (rs : Rows)
      → All (IsMember playlist ks) rs
      → All
          (Fits playlist place_for
            (length items)
            place_bounded
            place_injective
            1
            write
            (λ r i. values_stay (write_of r.id items) i r)
            (λ r i. values_count (write_of r.id items) i r))
          (map (applied (place_from base ks)) rs)
  unfolding temporary_base
  second-Fits [] m = tt
  second-Fits (r ∷ rs) m =
      let r' = applied (place_from base ks) r in
      let member = moved-IsMember playlist ks base r m.0 in
      (
        record {
          outside = λ h. sym member ∙ place_none r'.id h;
          inside = λ i h.
              let (p, e, is) = place_inv r'.id h in
              (eq_iff r'.playlist_id playlist).0 (sym member ∙ (found_inv r'.id e).0);
          apart = λ is i h. moved_free playlist ks base r m.0 is i (omega (arith, h));
        },
        second-Fits rs m.1,
      )

  -- What the second batch makes of a row that is kept, and of another.
  pub rewrite_known :
      (r : PlaylistItemRecord)
      → includes ks r.id ≡ true
      → (k : ℕ) × (d : ℤ) × (l : Option Bool) × (write_of r.id items ≡ some (k, existing r.id d l))
        × (applied (rewrite old items) r
            ≡ record r { sequence = pos (1 + k); duration = d; loop = or_else l r.loop })
  unfolding rewrite
  rewrite_known r known =
      let (p, e) = known_found r.id known in
      let (_, there) = found_inv r.id e in
      let (d, l, w) = write_of-existing r.id items there in
      let same : p ≡ (p.0, existing r.id d l) =
        ap (λ (w : ItemWrite). let q : Found = (p.0, w) in q) w in
      let at_place = there ∙ ap (λ q. some q) same in
      (p.0, d, l, at_place, rw (known, at_place) refl)

  pub rewrite_unknown :
      (r : PlaylistItemRecord) → includes ks r.id ≡ false → applied (rewrite old items) r ≡ r
  unfolding rewrite
  rewrite_unknown r e = rw e refl

  pub rewrite_stays :
      (r : PlaylistItemRecord) → (applied (rewrite old items) r).playlist_id ≡ r.playlist_id
  rewrite_stays r = elim (Bool-cases (includes ks r.id)) [
    | inl known ↦
        let (k, d, l, _, now) = rewrite_known r known in
        ap (λ (s : PlaylistItemRecord). s.playlist_id) now
    | inr unknown ↦ ap (λ (s : PlaylistItemRecord). s.playlist_id) (rewrite_unknown r unknown)
  ]

  -- The second batch forgets the first.
  rewritten_twice :
      (r : PlaylistItemRecord)
      → applied (rewrite old items) (applied (place_from base ks) r) ≡ applied (rewrite old items) r
  unfolding rewrite
  rewritten_twice r = elim (Option-cases (index_of r.id ks)) [
    | inl h ↦ ap (applied (rewrite old items)) (rw h refl)
    | inr (k, h) ↦
        let first : applied (place_from base ks) r ≡ placed base k r = rw h refl in
        let (p, e) = known_found r.id (index_of-some r.id ks {i = k} h) in
        let (known, there) = found_inv r.id e in
        let (d, l, w) = write_of-existing r.id items there in
        let same : p ≡ (p.0, existing r.id d l) =
          ap (λ (w : ItemWrite). let q : Found = (p.0, w) in q) w in
        ap (applied (rewrite old items)) first ∙ rw (known, there) (rw same refl)
  ]

  map_twice :
      (rs : Rows)
      → map (applied (rewrite old items)) (map (applied (place_from base ks)) rs)
        ≡ map (applied (rewrite old items)) rs
  map_twice [] = refl
  map_twice (r ∷ rs) = rw (rewritten_twice r, map_twice rs) refl

  rewrite_none : (rs : Rows) → ks ≡ [] → map (applied (rewrite old items)) rs ≡ rs
  unfolding rewrite
  rewrite_none [] e = refl
  rewrite_none (r ∷ rs) e = rw e (rw (rewrite_none rs e) refl)

  batches :
      (rs : Rows)
      → All (IsMember playlist ks) rs
      → All IsBelow rs
      → UniqueItems rs
      → (moved : Rows) × (update_each (place_from base ks) [] rs ≡ some moved)
        × (update_each (rewrite old items) [] moved ≡ some (map (applied (rewrite old items)) rs))
  batches rs m low u =
      let moved = map (applied (place_from base ks)) rs in
      let first =
        update_each-Fits playlist (λ id. index_of id ks) (length ks) (λ id i h. index_of-lt id ks h)
          (λ a b i h k. index_of-injective a b ks {i = i} h k) base (λ r i. placed base i r)
          (λ r i. refl) (λ r i. refl) rs (first-Fits rs m low) u in
      let second =
        update_each-Fits playlist place_for (length items) place_bounded place_injective 1 write
          (λ r i. values_stay (write_of r.id items) i r)
          (λ r i. values_count (write_of r.id items) i r) moved (second-Fits rs m)
          (UniqueItems-moved playlist ks base rs u) in
      let rule : rewrite old items ≡ (λ r. Option.map (write r) (place_for r.id)) =
        fun_ext rewrite-write in
      (
        moved,
        first,
        subst (λ g. update_each g [] moved ≡ some (map (applied g) moved)) (sym rule) second
            ∙ ap (λ x. some x) (map_twice rs),
      )

  -- The batches are not refused.
  pub rewrite_kept_lem :
      (rs : Rows)
      → All (IsMember playlist ks) rs
      → All IsBelow rs
      → UniqueItems rs
      → rewrite_kept old items rs ≡ some (map (applied (rewrite old items)) rs)
  unfolding rewrite_kept
  rewrite_kept_lem rs m low u = elim (List-cases ks) [
    | inl e ↦ rw (e, rewrite_kept) (ap (λ x. some x) (sym (rewrite_none rs e)))
    | inr (id, ids, e) ↦
        let (moved, first, second) = batches rs m low u in
        let first' : update_each (place_from base (id ∷ ids)) [] rs ≡ some moved =
          subst (λ known. update_each (place_from base known) [] rs ≡ some moved) e first in
        rw (e, rewrite_kept) (rw (first', rewrite_kept) second)
  ]
