-- ===== src/Store/Replace/Insertion.antt =====
-- The rows of the new items, and their insertion.
use mathlib.Core.List.{append_assoc, append-nil}
use wildfire.Base.{
  ℕ, suc, ◌+◌, ◌≡◌, refl, ap, sym, ◌∙◌, inl, inr, String, ◌==◌, Bool, true, false, some, List, [],
  ◌∷◌, ◌++◌, any, All, All-map, arith, Bool-cases, eq_iff, some-injective, none≢some,
}
use wildfire.Base.Any.{any-append, and_false_right, and_false_left}
use wildfire.Base.Int.{pos, eq_ℤ}
use wildfire.Store.{PlaylistItemRecord}
use wildfire.Store.Items.{Rows, conflicts}
use wildfire.Store.Replace.{ItemWrite, existing, new, write_of, new_row, new_rows, insert_each}
use wildfire.Store.Replace.Writes.{Found, later-some}

abbrev pub is_new_at : List ItemWrite → ℕ → Bool
is_new_at [] k = false
is_new_at (existing id d l ∷ items) ℕ.zero = false
is_new_at (new c d l ∷ items) ℕ.zero = true
is_new_at (i ∷ items) (suc k) = is_new_at items k

-- Where an item is kept, none is new.
pub write_of-is_new_at :
    (id : String) (items : List ItemWrite) {p : Found}
    → write_of id items ≡ some p
    → is_new_at items p.0 ≡ false
unfolding write_of
write_of-is_new_at id [] h = absurd (none≢some h)
write_of-is_new_at id (new c d l ∷ items) h =
    let (q, g, e) = later-some (write_of id items) h in
    rw (sym (ap (λ (p : Found). p.0) e)) (write_of-is_new_at id items g)
write_of-is_new_at id (existing x d l ∷ items) h = elim (Bool-cases (x == id)) [
  | inl same ↦ rw (sym (ap (λ (p : Found). p.0) (some-injective (rw same at h)))) refl
  | inr other ↦
      let (q, g, e) = later-some (write_of id items) (rw other at h) in
      rw (sym (ap (λ (p : Found). p.0) e)) (write_of-is_new_at id items g)
]

module _ (playlist : String) (uuid : ℕ → String) where
  -- A row stands at a place from `start` on at which an item is new.
  abbrev pub StandsAt : ℕ → List ItemWrite → PlaylistItemRecord → Type 0
  StandsAt start items r =
      (k : ℕ) × (r.sequence ≡ pos (1 + (start + k)))
      × (is_new_at items k ≡ true)
      × (r.playlist_id ≡ playlist)

  stands_later :
      (start : ℕ) (i : ItemWrite) (items : List ItemWrite) (rs : Rows)
      → All (StandsAt (suc start) items) rs
      → All (StandsAt start (i ∷ items)) rs
  stands_later start (existing id d l) items rs h =
      All-map (λ r s. (suc s.0, s.1 ∙ ap (λ n. pos n) (omega arith), s.2, s.3)) rs h
  stands_later start (new c d l) items rs h =
      All-map (λ r s. (suc s.0, s.1 ∙ ap (λ n. pos n) (omega arith), s.2, s.3)) rs h

  pub new_rows-StandsAt :
      (start : ℕ) (items : List ItemWrite)
      → All (StandsAt start items) (new_rows playlist uuid start items)
  unfolding new_rows
  new_rows-StandsAt start [] = tt
  new_rows-StandsAt start (existing id d l ∷ items) =
      stands_later start (existing id d l) items (new_rows playlist uuid (suc start) items)
        (new_rows-StandsAt (suc start) items)
  new_rows-StandsAt start (new c d l ∷ items) = (
    (0, ap (λ n. pos n) (omega arith), refl, refl),
    stands_later start (new c d l) items (new_rows playlist uuid (suc start) items)
        (new_rows-StandsAt (suc start) items),
  )

  -- A later row stands elsewhere.
  first_apart :
      (start : ℕ) (items : List ItemWrite) (r : PlaylistItemRecord) (rs : Rows)
      → r.sequence ≡ pos (1 + start)
      → All (StandsAt (suc start) items) rs
      → All (λ s. conflicts s r ≡ false) rs
  first_apart start items r rs e h =
      All-map
        (λ s k.
          and_false_right (s.playlist_id == r.playlist_id) (eq_ℤ s.sequence r.sequence)
            (rw (e, k.1) (ground arith)))
        rs h

abbrev AllApart : Rows → Type 0
AllApart [] = Unit
AllApart (r ∷ rs) = All (λ s. conflicts s r ≡ false) rs × AllApart rs

new_rows-AllApart :
    (playlist : String) (uuid : ℕ → String) (start : ℕ) (items : List ItemWrite)
    → AllApart (new_rows playlist uuid start items)
unfolding new_rows
new_rows-AllApart playlist uuid start [] = tt
new_rows-AllApart playlist uuid start (existing id d l ∷ items) =
    new_rows-AllApart playlist uuid (suc start) items
new_rows-AllApart playlist uuid start (new c d l ∷ items) = (
  first_apart playlist uuid start items (new_row playlist (uuid start) start c d l)
      (new_rows playlist uuid (suc start) items) refl
      (new_rows-StandsAt playlist uuid (suc start) items),
  new_rows-AllApart playlist uuid (suc start) items,
)

still_free :
    (r : PlaylistItemRecord) (rs rows : Rows)
    → All (λ n. any (conflicts n) rows ≡ false) rs
    → All (λ s. conflicts s r ≡ false) rs
    → All (λ n. any (conflicts n) (rows ++ r ∷ []) ≡ false) rs
still_free r [] rows h k = tt
still_free r (n ∷ ns) rows h k =
    (any-append (conflicts n) rows (r ∷ []) ∙ rw (h.0, k.0) refl, still_free r ns rows h.1 k.1)

insert_each-free :
    (rs rows : Rows)
    → All (λ n. any (conflicts n) rows ≡ false) rs
    → AllApart rs
    → insert_each rs rows ≡ some (rows ++ rs)
unfolding insert_each
insert_each-free [] rows h a = ap (λ x. some x) (sym (append-nil rows))
insert_each-free (r ∷ rs) rows h a =
    rw (h.0, insert_each)
      (insert_each-free rs (rows ++ r ∷ []) (still_free r rs rows h.1 a.0) a.1
        ∙ ap (λ x. some x) (append_assoc rows (r ∷ []) rs))

-- The new rows go in where those that are there stand at other places.
pub insert_new_rows :
    (playlist : String) (uuid : ℕ → String) (items : List ItemWrite) (rows : Rows)
    → All
        (λ r.
          r.playlist_id ≡ playlist
          → (k : ℕ) → is_new_at items k ≡ true
          → eq_ℤ (pos (1 + k)) r.sequence ≡ false)
        rows
    → insert_each (new_rows playlist uuid 0 items) rows
      ≡ some (rows ++ new_rows playlist uuid 0 items)
insert_new_rows playlist uuid items rows free =
    insert_each-free (new_rows playlist uuid 0 items) rows
      (All-map (λ n s. clear n s rows free) (new_rows playlist uuid 0 items)
        (new_rows-StandsAt playlist uuid 0 items))
      (new_rows-AllApart playlist uuid 0 items)
  where
    clear :
        (n : PlaylistItemRecord)
        → StandsAt playlist uuid 0 items n
        → (rs : Rows)
        → All
            (λ r.
              r.playlist_id ≡ playlist
              → (k : ℕ) → is_new_at items k ≡ true
              → eq_ℤ (pos (1 + k)) r.sequence ≡ false)
            rs
        → any (conflicts n) rs ≡ false
    clear n s [] f = refl
    clear n s (r ∷ rs) f = elim (Bool-cases (r.playlist_id == playlist)) [
      | inl mine ↦
          let apart = f.0 ((eq_iff r.playlist_id playlist).0 mine) s.0 s.2 in
          let place : n.sequence ≡ pos (1 + s.0) = s.1 ∙ ap (λ n. pos n) (omega arith) in
          rw
            (and_false_right (n.playlist_id == r.playlist_id) (eq_ℤ n.sequence r.sequence)
              (rw place apart))
            (clear n s rs f.1)
      | inr other ↦
          rw
            (and_false_left (n.playlist_id == r.playlist_id) (eq_ℤ n.sequence r.sequence) (
              ground
                (arith, s.3, eq_iff n.playlist_id r.playlist_id, eq_iff r.playlist_id playlist)))
            (clear n s rs f.1)
    ]
