-- ===== src/Playlists/Replaced.antt =====
-- A replacement of a playlist's items stays within the budget.
use wildfire.Base.{
  ℕ, suc, ◌≤◌, ◌<◌, ◌≡◌, ◌≢◌, refl, ap, sym, subst, ◌∙◌, inl, inr, String, ◌==◌, false, not, List,
  [], ◌∷◌, ◌++◌, map, filter, includes, All, All-map, All-filter, All-append, arith, Bool-cases,
  eq_iff, eq_refl,
}
use wildfire.Store.{Store, PlaylistItemRecord}
use wildfire.Store.Playlists.{list_items}
use wildfire.Store.Items.{Rows, applied}
use wildfire.Store.Items.Assign.{UniqueItems, UniqueItems-filter}
use wildfire.Store.Replace.{
  ItemWrite, existing, new, known_ids, rewrite, new_rows, replace_items_atomic,
}
use wildfire.Store.Replace.Batches.{rewrite_known, rewrite_unknown}
use wildfire.Store.Replace.Kept.{stays, kept_members}
use wildfire.Store.Items.Moved.{IsMember}
use wildfire.Store.Replace.Atomic.{replaced, others_replaced, replace_items_atomic-cases}
use wildfire.Playlists.Totals.{total, total-append, total_mono, total-map, counted, IsPositive}
use wildfire.Playlists.Budget.{IsWithinBudget}
use wildfire.Playlists.Owed.{
  write_seconds, IsValidWrite, kept_seconds, new_seconds, two_parts, owed, owed-total,
  write_of-valid,
}

UniqueItems-append :
    (rs ss : Rows)
    → UniqueItems rs
    → UniqueItems ss
    → All (λ s. All (λ r. (s.id == r.id) ≡ false) rs) ss
    → UniqueItems (rs ++ ss)
UniqueItems-append [] ss u v h = v
UniqueItems-append (r ∷ rs) ss u v h = (
  All-append (λ s. (r.id == s.id) ≡ false) rs ss u.0
      (All-map (λ s k. ground (arith, k.0, eq_iff s.id r.id, eq_iff r.id s.id)) ss h),
  UniqueItems-append rs ss u.1 v (All-map (λ s k. k.1) ss h),
)

-- The random ids are new, and differ.
pub record AreFresh (uuid : ℕ → String) (rows : Rows) : Type 0 where
  pub unused : (i : ℕ) → All (λ r. (uuid i == r.id) ≡ false) rows
  pub distinct_ids : (i j : ℕ) → i < j → (uuid i == uuid j) ≡ false

module _ (playlist : String) (items : List ItemWrite) (uuid : ℕ → String) where
  new_ids :
      (P : String → Type 0) (start : ℕ) (writes : List ItemWrite)
      → ((i : ℕ) → start ≤ i → P (uuid i))
      → All (λ r. P r.id) (new_rows playlist uuid start writes)
  unfolding new_rows
  new_ids P start [] h = tt
  new_ids P start (existing x d l ∷ writes) h =
      new_ids P (suc start) writes (λ i k. h i (omega (arith, k)))
  new_ids P start (new c d l ∷ writes) h =
      (h start (omega arith), new_ids P (suc start) writes (λ i k. h i (omega (arith, k))))

  new_rows-UniqueItems :
      (start : ℕ) (writes : List ItemWrite) {rows : Rows}
      → AreFresh uuid rows
      → UniqueItems (new_rows playlist uuid start writes)
  unfolding new_rows
  new_rows-UniqueItems start [] f = tt
  new_rows-UniqueItems start (existing x d l ∷ writes) f = new_rows-UniqueItems (suc start) writes f
  new_rows-UniqueItems start (new c d l ∷ writes) f = (
    new_ids (λ id. (uuid start == id) ≡ false) (suc start) writes
        (λ i k. f.distinct_ids start i (omega (arith, k))),
    new_rows-UniqueItems (suc start) writes f,
  )

  new_rows-IsPositive :
      (start : ℕ) (writes : List ItemWrite)
      → All IsValidWrite writes
      → All IsPositive (new_rows playlist uuid start writes)
  unfolding new_rows
  new_rows-IsPositive start [] v = tt
  new_rows-IsPositive start (existing x d l ∷ writes) v = new_rows-IsPositive (suc start) writes v.1
  new_rows-IsPositive start (new c d l ∷ writes) v =
      (v.0, new_rows-IsPositive (suc start) writes v.1)

  new_rows-seconds :
      (start : ℕ) (writes : List ItemWrite)
      → total (counted playlist) (new_rows playlist uuid start writes) ≡ new_seconds writes
  unfolding new_rows
  new_rows-seconds start [] = refl
  new_rows-seconds start (existing x d l ∷ writes) = new_rows-seconds (suc start) writes
  new_rows-seconds start (new c d l ∷ writes) =
      rw (eq_refl playlist) (omega (arith, new_rows-seconds (suc start) writes))

module _ (playlist : String) (items : List ItemWrite) (old : Rows) where
  abbrev kept_row : PlaylistItemRecord → PlaylistItemRecord
  kept_row r = applied (rewrite old items) r

  kept_row-id : (r : PlaylistItemRecord) → (kept_row r).id ≡ r.id
  kept_row-id r = elim (Bool-cases (includes (known_ids old items) r.id)) [
    | inl known ↦
        let (k, d, l, _, now) = rewrite_known playlist old items r known in
        ap (λ (s : PlaylistItemRecord). s.id) now
    | inr unknown ↦
        ap (λ (s : PlaylistItemRecord). s.id) (rewrite_unknown playlist old items r unknown)
  ]

  kept_row-IsPositive :
      (r : PlaylistItemRecord) → All IsValidWrite items → IsPositive r → IsPositive (kept_row r)
  kept_row-IsPositive r v p = elim (Bool-cases (includes (known_ids old items) r.id)) [
    | inl known ↦
        let (k, d, l, there, now) = rewrite_known playlist old items r known in
        rw now (write_of-valid r.id items v there)
    | inr unknown ↦ rw (rewrite_unknown playlist old items r unknown) p
  ]

  -- A row of the playlist counts what the write that keeps it gives.
  kept_row-counted :
      (r : PlaylistItemRecord)
      → IsMember playlist (known_ids old items) r
      → counted playlist (kept_row r) ≤ owed items r
  kept_row-counted r m = elim (Bool-cases (includes (known_ids old items) r.id)) [
    | inl known ↦
        let (k, d, l, there, now) = rewrite_known playlist old items r known in
        rw (there) (rw now (rw (sym m ∙ known) (omega arith)))
    | inr unknown ↦
        rw (rewrite_unknown playlist old items r unknown) (rw (sym m ∙ unknown) (omega arith))
  ]

  kept_rows-counted :
      (rs : Rows)
      → All (IsMember playlist (known_ids old items)) rs
      → UniqueItems rs
      → total (counted playlist) (map kept_row rs) ≤ kept_seconds items
  kept_rows-counted rs m u = omega (
    arith,
    total-map (counted playlist) kept_row rs,
    total_mono (λ r. counted playlist (kept_row r)) (owed items) rs
        (All-map (λ r h. kept_row-counted r h) rs m),
    owed-total items rs u,
  )

  kept_rows-IsPositive :
      (rs : Rows) → All IsValidWrite items → All IsPositive rs → All IsPositive (map kept_row rs)
  kept_rows-IsPositive [] v p = tt
  kept_rows-IsPositive (r ∷ rs) v p = (kept_row-IsPositive r v p.0, kept_rows-IsPositive rs v p.1)

  kept_ids-All :
      (P : String → Type 0) (rs : Rows) → All (λ r. P r.id) rs → All (λ r. P r.id) (map kept_row rs)
  kept_ids-All P [] h = tt
  kept_ids-All P (r ∷ rs) h = (subst P (sym (kept_row-id r)) h.0, kept_ids-All P rs h.1)

  kept_rows-UniqueItems : (rs : Rows) → UniqueItems rs → UniqueItems (map kept_row rs)
  kept_rows-UniqueItems [] u = tt
  kept_rows-UniqueItems (r ∷ rs) u = (
    kept_ids-All (λ id. ((kept_row r).id == id) ≡ false) rs (rw (kept_row-id r) u.0),
    kept_rows-UniqueItems rs u.1,
  )

-- The rows of the other playlists are all that counts for another.
others-counted :
    (playlist p : String) (rs : Rows)
    → playlist ≢ p
    → total (counted p) (filter (λ r. not (r.playlist_id == playlist)) rs) ≡ total (counted p) rs
others-counted playlist p [] d = refl
others-counted playlist p (r ∷ rs) d = elim (Bool-cases (r.playlist_id == playlist)) [
  | inl mine ↦ elim (Bool-cases (r.playlist_id == p)) [
    | inl too ↦
        absurd (d (sym ((eq_iff r.playlist_id playlist).0 mine) ∙ (eq_iff r.playlist_id p).0 too))
    | inr apart ↦ rw (mine) (rw apart (omega (arith, others-counted playlist p rs d)))
  ]
  | inr other ↦ rw other (omega (arith, others-counted playlist p rs d))
]

-- With valid durations that make 60 seconds at most, the replacement keeps the budget.
pub replaced-IsWithinBudget :
    (playlist : String) (uuid : ℕ → String) (items : List ItemWrite) (at : String) (st : Store)
    → IsWithinBudget st.playlist_items
    → AreFresh uuid st.playlist_items
    → All IsValidWrite items
    → total write_seconds items ≤ 60
    → IsWithinBudget (replace_items_atomic playlist uuid items at st).1.playlist_items
replaced-IsWithinBudget playlist uuid items at st inv fresh v bound =
    let old = list_items playlist st in
    let left = filter (stays playlist items st) st.playlist_items in
    let u = UniqueItems-filter (stays playlist items st) st.playlist_items inv.unique in
    let added = new_rows playlist uuid 0 items in
    let within : IsWithinBudget (replaced playlist items st uuid) = record {
      unique =
          UniqueItems-append (map (kept_row playlist items old) left) added
            (kept_rows-UniqueItems playlist items old left u)
            (new_rows-UniqueItems playlist items uuid 0 items fresh)
            (new_ids playlist items uuid
              (λ id. All (λ r. (id == r.id) ≡ false) (map (kept_row playlist items old) left)) 0
              items
              (λ i _.
                kept_ids-All playlist items old (λ id. (uuid i == id) ≡ false) left
                  (All-filter (λ (r : PlaylistItemRecord). (uuid i == r.id) ≡ false)
                    (stays playlist items st) st.playlist_items (fresh.unused i))));
      positive =
          All-append IsPositive (map (kept_row playlist items old) left) added
            (kept_rows-IsPositive playlist items old left v
              (All-filter IsPositive (stays playlist items st) st.playlist_items inv.positive))
            (new_rows-IsPositive playlist items uuid 0 items v);
      bounded = λ p. elim (Bool-cases (playlist == p)) [
        | inl mine ↦
            subst (λ q. total (counted q) (replaced playlist items st uuid) ≤ 60)
              ((eq_iff playlist p).0 mine)
              (omega (
                arith,
                total-append (counted playlist) (map (kept_row playlist items old) left) added,
                kept_rows-counted playlist items old left
                    (kept_members playlist items st inv.unique) u,
                new_rows-seconds playlist items uuid 0 items,
                two_parts items,
                bound,
              ))
        | inr other ↦
            let apart : playlist ≢ p = λ e. cc (other, (eq_iff playlist p).1 e) in
            let same = ap (total (counted p)) (others_replaced playlist items st uuid inv.unique) in
            omega (
              arith,
              same,
              others-counted playlist p (replaced playlist items st uuid) apart,
              others-counted playlist p st.playlist_items apart,
              inv.bounded p,
            )
      ];
    } in
    elim (replace_items_atomic-cases playlist items st uuid at inv.unique) [
      | inl same ↦ subst (λ (s : Store). IsWithinBudget s.playlist_items) (sym same) inv
      | inr (_, is) ↦ subst IsWithinBudget (sym is) within
    ]
