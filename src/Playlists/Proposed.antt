-- ===== src/Playlists/Proposed.antt =====
-- What the items that replace those of a playlist have been asked: they are within the budget.
use wildfire.Base.{
  ℕ, ◌≤◌, ◌≡◌, refl, ap, subst, ◌∙◌, inl, inr, String, Bool, true, false, Option, List, [], ◌∷◌,
  map, All, arith, Bool-cases, Option-cases, Result, ok, err, Result-cases, Error, guard,
  guard-eq-ok, check_each, >>=-eq-ok, distinct, ok-injective,
}
use wildfire.Base.Int.{pos, ◌+ℤ◌}
use wildfire.Store.{Store, ContentRecord}
use wildfire.Store.Playlists.{list_items}
use wildfire.Store.Items.{Rows}
use wildfire.Store.Replace.{ItemWrite, existing, new, write_duration, replace_items_atomic}
use wildfire.Playlists.{is_valid_duration, find_contents_scoped}
use wildfire.Playlists.Items.{within_total}
use wildfire.Playlists.Replacement.{
  content_of_write, with_loop, normalized, proposed_duration, plan_replace, finish_replace,
  replace_playlist_items,
}
use wildfire.Playlists.Totals.{total, add-pos, positive-pos}
use wildfire.Playlists.Budget.{IsWithinBudget}
use wildfire.Playlists.Effects.{effects-items}
use wildfire.Playlists.Owed.{write_seconds, IsValidWrite}
use wildfire.Playlists.Replaced.{AreFresh, replaced-IsWithinBudget}

pub check_each-All {ℓ} :
    {A : Type ℓ} (p : A → Bool) (e : Error) (xs : List A) {u : Unit {0}}
    → check_each (λ x. guard (p x) e) xs ≡ ok u
    → All (λ x. p x ≡ true) xs
unfolding check_each guard
check_each-All p e [] h = tt
check_each-All p e (x ∷ xs) h = elim (Bool-cases (p x)) [
  | inl t ↦ (t, check_each-All p e xs (rw (t, check_each) at h))
  | inr f ↦ cc (rw (f, check_each) at h)
]

proposed-seconds :
    (items : List ItemWrite)
    → All IsValidWrite items
    → proposed_duration items ≡ pos (total write_seconds items)
unfolding proposed_duration
proposed-seconds [] v = refl
proposed-seconds (i ∷ items) v =
    ap (λ d. write_duration i +ℤ d) (proposed-seconds items v.1)
    ∙ ap (λ d. d +ℤ pos (total write_seconds items)) (positive-pos (write_duration i) v.0)
    ∙ add-pos (write_seconds i) (total write_seconds items)

with_loop-duration :
    (looped : Bool) (i : ItemWrite) → write_duration (with_loop looped i) ≡ write_duration i
with_loop-duration looped (existing x d l) = refl
with_loop-duration looped (new c d l) = refl

normalized-duration :
    (old : Rows) (contents : List ContentRecord) (i : ItemWrite)
    → write_duration (normalized old contents i) ≡ write_duration i
unfolding normalized
normalized-duration old contents i = elim (Option-cases (content_of_write old contents i)) [
  | inl h ↦ rw (h, normalized) (with_loop-duration false i)
  | inr (c, h) ↦ rw (h, normalized) (with_loop-duration _ i)
]

normalized_all :
    (old : Rows) (contents : List ContentRecord) (items : List ItemWrite)
    → All IsValidWrite items
    → All IsValidWrite (map (normalized old contents) items)
      × (total write_seconds (map (normalized old contents) items) ≡ total write_seconds items)
normalized_all old contents [] v = (tt, refl)
normalized_all old contents (i ∷ items) v =
    let (valid, same) = normalized_all old contents items v.1 in
    (
      (rw (normalized-duration old contents i) v.0, valid),
      rw (normalized-duration old contents i) (omega (arith, same)),
    )

-- What is written has been asked for its durations.
plan_replace_sound :
    (owner : Option String) (playlist : String) (items : List ItemWrite) (st : Store)
    {writes : List ItemWrite}
    → plan_replace owner playlist items st ≡ ok writes
    → All IsValidWrite writes × (total write_seconds writes ≤ 60)
unfolding plan_replace
plan_replace_sound owner playlist items st h =
    let (_, _, h1) = >>=-eq-ok _ _ h in
    let (_, _, h2) = >>=-eq-ok _ _ h1 in
    let (_, valid, h3) = >>=-eq-ok _ _ h2 in
    let (_, fits, h4) = >>=-eq-ok _ _ h3 in
    let (ids, _, h5) = >>=-eq-ok _ _ h4 in
    let (_, _, h6) = >>=-eq-ok _ _ h5 in
    let (_, _, h7) = >>=-eq-ok _ _ h6 in
    let (_, _, h8) = >>=-eq-ok _ _ h7 in
    let (_, _, same) = >>=-eq-ok _ _ h8 in
    let v = check_each-All (λ i. is_valid_duration (write_duration i)) _ items valid in
    let (w, total_same) =
      normalized_all (list_items playlist st) (find_contents_scoped (distinct ids) owner st) items
        v in
    let bound = guard-eq-ok (within_total (proposed_duration items)) _ fits in
    let sum = rw (proposed-seconds items v) at bound in
    let is = ok-injective same in
    (
      subst (All IsValidWrite) is w,
      subst (λ ws. total write_seconds ws ≤ 60) is (rw total_same (ground arith)),
    )

pub replace_playlist_items-IsWithinBudget :
    (uuid : ℕ → String) (at : String) (owner : Option String) (playlist : String)
    (items : List ItemWrite) (st : Store)
    → IsWithinBudget st.playlist_items
    → AreFresh uuid st.playlist_items
    → IsWithinBudget (replace_playlist_items uuid at owner playlist items st).1.playlist_items
unfolding replace_playlist_items
replace_playlist_items-IsWithinBudget uuid at owner playlist items st inv fresh =
    elim (Result-cases (plan_replace owner playlist items st)) [
      | inl (e, h) ↦ rw (h, replace_playlist_items) inv
      | inr (writes, h) ↦
          let (v, bound) = plan_replace_sound owner playlist items st h in
          rw (h, replace_playlist_items)
            (finished (replace_items_atomic playlist uuid writes at st)
              (replaced-IsWithinBudget playlist uuid writes at st inv fresh v bound))
    ]
  where
    finished :
        (r : Result Rows × Store)
        → IsWithinBudget r.1.playlist_items
        → IsWithinBudget (finish_replace owner playlist r).1.playlist_items
    finished (err e, there) h = h
    finished (ok rows, there) h = rw (effects-items playlist "playlist_items_replaced" there) h
