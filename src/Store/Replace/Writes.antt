-- ===== src/Store/Replace/Writes.antt =====
-- The writes of a replacement, by the id of the item that each keeps.
use mathlib.Core.Option
use wildfire.Base.{
  ℕ, suc, ◌+◌, ◌<◌, ◌≡◌, refl, ap, sym, ◌∙◌, inl, inr, String, ◌==◌, Bool, true, false, Option,
  none, some, or_else, List, [], ◌∷◌, length, includes, arith, Bool-cases, eq_iff, some-injective,
  none≢some,
}
use wildfire.Base.Int.{ℤ, pos}
use wildfire.Store.{PlaylistItemRecord}
use wildfire.Store.Items.{placed}
use wildfire.Store.Replace.{ItemWrite, existing, new, kept_ids, write_of, written}

abbrev pub Found : Type 0
Found = ℕ × ItemWrite

abbrev pub later : Found → Found
later p = (suc p.0, p.1)

later-none : (o : Option Found) → Option.map later o ≡ none → o ≡ none
later-none none h = refl
later-none (some p) h = absurd (none≢some (sym h))

pub later-some :
    (o : Option Found) {p : Found}
    → Option.map later o ≡ some p
    → (q : Found) × (o ≡ some q) × (later q ≡ p)
later-some none h = absurd (none≢some h)
later-some (some q) h = (q, refl, some-injective h)

pub write_of-lt :
    (id : String) (items : List ItemWrite) {p : Found}
    → write_of id items ≡ some p
    → p.0 < length items
unfolding write_of
write_of-lt id [] h = absurd (none≢some h)
write_of-lt id (new c d l ∷ items) h =
    let (q, g, e) = later-some (write_of id items) h in
    omega (arith, write_of-lt id items g, ap (λ (p : Found). p.0) e)
write_of-lt id (existing x d l ∷ items) {p} h = elim (Bool-cases (x == id)) [
  | inl same ↦ omega (arith, ap (λ (p : Found). p.0) (some-injective (rw same at h)))
  | inr other ↦
      let (q, g, e) = later-some (write_of id items) (rw other at h) in
      omega (arith, write_of-lt id items g, ap (λ (p : Found). p.0) e)
]

-- What is found keeps the item of the id.
pub write_of-existing :
    (id : String) (items : List ItemWrite) {p : Found}
    → write_of id items ≡ some p
    → (d : ℤ) × (l : Option Bool) × (p.1 ≡ existing id d l)
unfolding write_of
write_of-existing id [] h = absurd (none≢some h)
write_of-existing id (new c d l ∷ items) h =
    let (q, g, e) = later-some (write_of id items) h in
    let (d', l', w) = write_of-existing id items g in (d', l', sym (ap (λ (p : Found). p.1) e) ∙ w)
write_of-existing id (existing x d l ∷ items) h = elim (Bool-cases (x == id)) [
  | inl same ↦ (
    d,
    l,
    sym (ap (λ (p : Found). p.1) (some-injective (rw same at h)))
        ∙ ap (λ y. existing y d l) ((eq_iff x id).0 same),
  )
  | inr other ↦
      let (q, g, e) = later-some (write_of id items) (rw other at h) in
      let (d', l', w) = write_of-existing id items g in
      (d', l', sym (ap (λ (p : Found). p.1) e) ∙ w)
]

pub write_of-none :
    (id : String) (items : List ItemWrite)
    → write_of id items ≡ none
    → includes (kept_ids items) id ≡ false
unfolding write_of
write_of-none id [] h = refl
write_of-none id (new c d l ∷ items) h = write_of-none id items (later-none (write_of id items) h)
write_of-none id (existing x d l ∷ items) h = elim (Bool-cases (x == id)) [
  | inl same ↦ absurd (none≢some (sym (rw same at h)))
  | inr other ↦ rw other (write_of-none id items (later-none (write_of id items) (rw other at h)))
]

pub write_of-some :
    (id : String) (items : List ItemWrite) {p : Found}
    → write_of id items ≡ some p
    → includes (kept_ids items) id ≡ true
unfolding write_of
write_of-some id [] h = absurd (none≢some h)
write_of-some id (new c d l ∷ items) h =
    let (q, g, e) = later-some (write_of id items) h in write_of-some id items g
write_of-some id (existing x d l ∷ items) h = elim (Bool-cases (x == id)) [
  | inl same ↦ rw same refl
  | inr other ↦
      let (q, g, e) = later-some (write_of id items) (rw other at h) in
      rw other (write_of-some id items g)
]

-- Two ids at one place are one.
pub write_of-injective :
    (a b : String) (items : List ItemWrite) {p q : Found}
    → write_of a items ≡ some p
    → write_of b items ≡ some q
    → p.0 ≡ q.0
    → a ≡ b
unfolding write_of
write_of-injective a b [] h k e = absurd (none≢some h)
write_of-injective a b (new c d l ∷ items) h k e =
    let (p', g, s) = later-some (write_of a items) h in
    let (q', g', s') = later-some (write_of b items) k in
    write_of-injective a b items g g'
      (omega (arith, e, ap (λ (p : Found). p.0) s, ap (λ (p : Found). p.0) s'))
write_of-injective a b (existing x d l ∷ items) h k e = elim (Bool-cases (x == a)) [
  | inl same ↦ elim (Bool-cases (x == b)) [
    | inl same' ↦ sym ((eq_iff x a).0 same) ∙ (eq_iff x b).0 same'
    | inr other' ↦
        let (q', _, s') = later-some (write_of b items) (rw other' at k) in
        let zero_there = ap (λ (p : Found). p.0) (some-injective (rw same at h)) in
        absurd (omega (arith, e, zero_there, ap (λ (p : Found). p.0) s'))
  ]
  | inr other ↦
      let (p', g, s) = later-some (write_of a items) (rw other at h) in
      elim (Bool-cases (x == b)) [
        | inl same' ↦
            let zero_there = ap (λ (p : Found). p.0) (some-injective (rw same' at k)) in
            absurd (omega (arith, e, zero_there, ap (λ (p : Found). p.0) s))
        | inr other' ↦
            let (q', g', s') = later-some (write_of b items) (rw other' at k) in
            write_of-injective a b items g g'
              (omega (arith, e, ap (λ (p : Found). p.0) s, ap (λ (p : Found). p.0) s'))
      ]
]

-- The values that the second batch gives, for every place.
abbrev pub values : Option Found → ℕ → PlaylistItemRecord → PlaylistItemRecord
values (some (k, existing id d l)) i r = record r {
  sequence = pos (1 + i);
  duration = d;
  loop = or_else l r.loop;
}
values (some (k, new c d l)) i r = placed 1 i r
values none i r = placed 1 i r

pub values_stay :
    (o : Option Found) (i : ℕ) (r : PlaylistItemRecord) → (values o i r).playlist_id ≡ r.playlist_id
values_stay (some (k, existing id d l)) i r = refl
values_stay (some (k, new c d l)) i r = refl
values_stay none i r = refl

pub values_count :
    (o : Option Found) (i : ℕ) (r : PlaylistItemRecord) → (values o i r).sequence ≡ pos (1 + i)
values_count (some (k, existing id d l)) i r = refl
values_count (some (k, new c d l)) i r = refl
values_count none i r = refl

pub written-values :
    (id : String) (items : List ItemWrite) (r : PlaylistItemRecord) {p : Found}
    → write_of id items ≡ some p
    → written p r ≡ values (some p) p.0 r
written-values id items r {p} h =
    let (d, l, w) = write_of-existing id items h in
    let same : p ≡ (p.0, existing id d l) =
      ap (λ (w : ItemWrite). let q : Found = (p.0, w) in q) w in
    rw same refl
