-- ===== src/Playlists/Owed.antt =====
-- What the writes of a replacement give the rows that they keep, summed.
use mathlib.Core.Option
use wildfire.Base.{
  ℕ, ◌+◌, ◌≤◌, ◌≡◌, refl, ap, sym, subst, inl, inr, String, ◌==◌, Bool, true, false, Option, none,
  some, List, [], ◌∷◌, All, arith, Bool-cases, if◌then◌else◌, eq_iff, none≢some, some-injective,
}
use wildfire.Base.Int.{ℤ, pos_part}
use wildfire.Store.{PlaylistItemRecord}
use wildfire.Store.Items.{Rows}
use wildfire.Store.Items.Assign.{UniqueItems}
use wildfire.Store.Replace.{ItemWrite, existing, new, write_duration, write_of}
use wildfire.Store.Replace.Writes.{Found, later, later-some}
use wildfire.Playlists.{is_valid_duration}
use wildfire.Playlists.Totals.{total}

abbrev pub write_seconds : ItemWrite → ℕ
write_seconds i = pos_part (write_duration i)

abbrev pub IsValidWrite : ItemWrite → Type 0
IsValidWrite i = is_valid_duration (write_duration i) ≡ true

abbrev pub kept_seconds : List ItemWrite → ℕ
kept_seconds [] = 0
kept_seconds (existing id d l ∷ items) = pos_part d + kept_seconds items
kept_seconds (new c d l ∷ items) = kept_seconds items

abbrev pub new_seconds : List ItemWrite → ℕ
new_seconds [] = 0
new_seconds (existing id d l ∷ items) = new_seconds items
new_seconds (new c d l ∷ items) = pos_part d + new_seconds items

pub two_parts :
    (items : List ItemWrite) → kept_seconds items + new_seconds items ≡ total write_seconds items
two_parts [] = refl
two_parts (existing id d l ∷ items) = omega (arith, two_parts items)
two_parts (new c d l ∷ items) = omega (arith, two_parts items)

abbrev found_seconds : Option Found → ℕ
found_seconds none = 0
found_seconds (some p) = write_seconds p.1

-- What the write that keeps a row gives it.
abbrev pub owed : List ItemWrite → PlaylistItemRecord → ℕ
owed items r = found_seconds (write_of r.id items)

later_seconds : (o : Option Found) → found_seconds (Option.map later o) ≡ found_seconds o
later_seconds none = refl
later_seconds (some p) = refl

owed-nil : (r : PlaylistItemRecord) → owed [] r ≡ 0
unfolding write_of
owed-nil r = refl

owed-new :
    (c : String) (d : ℤ) (l : Option Bool) (items : List ItemWrite) (r : PlaylistItemRecord)
    → owed (new c d l ∷ items) r ≡ owed items r
unfolding write_of
owed-new c d l items r = later_seconds (write_of r.id items)

owed-existing :
    (x : String) (d : ℤ) (l : Option Bool) (items : List ItemWrite) (r : PlaylistItemRecord)
    → owed (existing x d l ∷ items) r ≡ (if x == r.id then pos_part d else owed items r)
unfolding write_of
owed-existing x d l items r = elim (Bool-cases (x == r.id)) [
  | inl h ↦ rw (h, write_of) refl
  | inr h ↦ rw (h, write_of) (later_seconds (write_of r.id items))
]

total-same :
    (v w : PlaylistItemRecord → ℕ) (rs : Rows)
    → ((r : PlaylistItemRecord) → v r ≡ w r)
    → total v rs ≡ total w rs
total-same v w [] h = refl
total-same v w (r ∷ rs) h = omega (arith, h r, total-same v w rs h)

-- With the ids a key, a write is given to one row at most.
once :
    (x : String) (n : ℕ) (w : PlaylistItemRecord → ℕ) (rs : Rows)
    → UniqueItems rs
    → total (λ r. if x == r.id then n else w r) rs ≤ n + total w rs
once x n w [] u = omega arith
once x n w (r ∷ rs) u = elim (Bool-cases (x == r.id)) [
  | inr h ↦ rw h (omega (arith, once x n w rs u.1))
  | inl h ↦ rw h (omega (arith, nowhere rs (rw (sym ((eq_iff x r.id).0 h)) at u.0)))
]
  where
    nowhere :
        (ss : Rows)
        → All (λ s. (x == s.id) ≡ false) ss
        → total (λ r. if x == r.id then n else w r) ss ≡ total w ss
    nowhere [] h = refl
    nowhere (s ∷ ss) h = rw (h.0) (omega (arith, nowhere ss h.1))

pub owed-total :
    (items : List ItemWrite) (rs : Rows)
    → UniqueItems rs
    → total (owed items) rs ≤ kept_seconds items
owed-total [] rs u = nothing rs
  where
    nothing : (ss : Rows) → total (owed []) ss ≤ 0
    nothing [] = omega arith
    nothing (s ∷ ss) = omega (arith, owed-nil s, nothing ss)
owed-total (new c d l ∷ items) rs u = omega (
  arith,
  total-same (owed (new c d l ∷ items)) (owed items) rs (owed-new c d l items),
  owed-total items rs u,
)
owed-total (existing x d l ∷ items) rs u = omega (
  arith,
  total-same (owed (existing x d l ∷ items)) (λ r. if x == r.id then pos_part d else owed items r)
      rs (owed-existing x d l items),
  once x (pos_part d) (owed items) rs u,
  owed-total items rs u,
)

pub write_of-valid :
    (id : String) (items : List ItemWrite) {p : Found}
    → All IsValidWrite items
    → write_of id items ≡ some p
    → IsValidWrite p.1
unfolding write_of
write_of-valid id [] v h = absurd (none≢some h)
write_of-valid id (new c d l ∷ items) v h =
    let (q, g, e) = later-some (write_of id items) h in
    subst IsValidWrite (ap (λ (p : Found). p.1) e) (write_of-valid id items v.1 g)
write_of-valid id (existing x d l ∷ items) v h = elim (Bool-cases (x == id)) [
  | inl same ↦ subst IsValidWrite (ap (λ (p : Found). p.1) (some-injective (rw same at h))) v.0
  | inr other ↦
      let (q, g, e) = later-some (write_of id items) (rw other at h) in
      subst IsValidWrite (ap (λ (p : Found). p.1) e) (write_of-valid id items v.1 g)
]
