-- ===== src/Store/Replace/Kept.antt =====
-- The transaction of `replaceItemsAtomic` on the rows of a playlist: the unique index never refuses
-- it, and what it leaves.
use wildfire.Base.{
  ℕ, ◌+◌, ◌≤◌, ◌≡◌, refl, sym, ◌∙◌, inl, inr, String, ◌==◌, Bool, true, false, not, ◌&&◌, ◌||◌,
  some, List, [], ◌∷◌, ◌++◌, map, any, max, filter, includes, All, All-map, All-filter, arith,
  Bool-cases, eq_iff, eqb, eqb_iff, eq_refl, sort_by, insert_by,
}
use wildfire.Base.Any.{any-filter}
use wildfire.Base.Int.{pos, eq_ℤ, pos_part, ltb_ℤ}
use wildfire.Store.{Store, PlaylistItemRecord}
use wildfire.Store.Playlists.{list_items}
use wildfire.Store.Items.{Rows, applied}
use wildfire.Store.Items.Assign.{UniqueItems, UniqueItems-filter}
use wildfire.Store.Items.Moved.{IsMember, any_only}
use wildfire.Store.Items.Distinct.{any-sort_by}
use wildfire.Store.Replace.{
  ItemWrite, kept_ids, known_ids, max_sequence, rewrite, new_rows, replace_rows,
}
use wildfire.Store.Replace.Batches.{IsBelow, rewrite_kept_lem, rewrite_known, rewrite_unknown}
use wildfire.Store.Replace.Insertion.{is_new_at, write_of-is_new_at, insert_new_rows}

includes-filter :
    (p : String → Bool) (xs : List String) (k : String)
    → includes (filter p xs) k ≡ (p k && includes xs k)
includes-filter p [] k = ground arith
includes-filter p (x ∷ xs) k = elim (Bool-cases (x == k)) [
  | inl same ↦
      let e = (eq_iff x k).0 same in
      rw e (elim (Bool-cases (p k)) [
        | inl h ↦ rw (h, eq_refl k) refl
        | inr h ↦ rw (h, includes-filter p xs k) (rw h refl)
      ])
  | inr other ↦ elim (Bool-cases (p x)) [
    | inl h ↦ rw (h, other) (includes-filter p xs k)
    | inr h ↦ rw (h, other) (includes-filter p xs k)
  ]
]

any_named :
    (q : String → Bool) (rows : Rows) (k : String)
    → any (λ r. q r.id && r.id == k) rows ≡ (q k && any (λ r. r.id == k) rows)
any_named q [] k = ground arith
any_named q (r ∷ rs) k = elim (Bool-cases (r.id == k)) [
  | inl same ↦ rw ((eq_iff r.id k).0 same) (
      rw (eq_refl k) (elim (Bool-cases (q k)) [
        | inl h ↦ rw h refl
        | inr h ↦ rw (h, any_named q rs k) (rw h refl)
      ]))
  | inr other ↦ rw (other, any_named q rs k) (ground arith)
]

All-filtered {ℓ κ ι} :
    {A : Type ℓ} {P : A → Type κ} {Q : A → Type ι} (k : A → Bool) (xs : List A)
    → ((x : A) → P x → k x ≡ true → Q x)
    → All P xs
    → All Q (filter k xs)
All-filtered k [] f h = tt
All-filtered k (x ∷ xs) f h = elim (Bool-cases (k x)) [
  | inl e ↦ rw e (f x h.0 e, All-filtered k xs f h.1)
  | inr e ↦ rw e (All-filtered k xs f h.1)
]

module _ (playlist : String) (items : List ItemWrite) (st : Store) where
  abbrev old : Rows
  old = list_items playlist st

  -- The rows that are not deleted: those of the items that are kept, and the other playlists'.
  abbrev pub stays : PlaylistItemRecord → Bool
  stays r = not (
      any (λ (d : PlaylistItemRecord). d.id == r.id)
        (filter (λ (r : PlaylistItemRecord). not (includes (kept_ids items) r.id)) old))

  old_named :
      (k : String)
      → any (λ (r : PlaylistItemRecord). r.id == k) old
        ≡ any (λ i. i.playlist_id == playlist && i.id == k) st.playlist_items
  unfolding list_items
  old_named k =
      any-sort_by (λ i. i.id == k) _ (filter (λ i. i.playlist_id == playlist) st.playlist_items)
      ∙ any-filter (λ i. i.id == k) (λ i. i.playlist_id == playlist) st.playlist_items

  -- Whether a row is in the playlist shows in the list.
  abbrev pub IsListed : PlaylistItemRecord → Type 0
  IsListed r = any (λ (d : PlaylistItemRecord). d.id == r.id) old ≡ (r.playlist_id == playlist)

  pub all-IsListed : UniqueItems st.playlist_items → All IsListed st.playlist_items
  all-IsListed u =
      All-map (λ r e. old_named r.id ∙ e) st.playlist_items (any_only playlist st.playlist_items u)

  pub stays_iff :
      (r : PlaylistItemRecord)
      → IsListed r
      → stays r ≡ (includes (kept_ids items) r.id || not (r.playlist_id == playlist))
  stays_iff r h =
      let dropped =
        any-filter (λ (d : PlaylistItemRecord). d.id == r.id)
          (λ (d : PlaylistItemRecord). not (includes (kept_ids items) d.id)) old
        ∙ any_named (λ k. not (includes (kept_ids items) k)) old r.id in
      rw (dropped, h) (ground arith)

  pub stays-IsMember :
      (r : PlaylistItemRecord)
      → IsListed r
      → stays r ≡ true
      → IsMember playlist (known_ids old items) r
  stays-IsMember r h s =
      let test = sym (stays_iff r h) ∙ s in
      includes-filter (λ id. any (λ (d : PlaylistItemRecord). d.id == id) old) (kept_ids items) r.id
      ∙ rw h (ground arith)

  max_sequence-insert :
      (le : PlaylistItemRecord → PlaylistItemRecord → Bool) (x : PlaylistItemRecord) (xs : Rows)
      → max_sequence (insert_by le x xs) ≡ max (pos_part x.sequence) (max_sequence xs)
  unfolding max_sequence insert_by
  max_sequence-insert le x [] = refl
  max_sequence-insert le x (y ∷ ys) = ground (arith, max_sequence-insert le x ys)

  max_sequence-sort :
      (le : PlaylistItemRecord → PlaylistItemRecord → Bool) (xs : Rows)
      → max_sequence (sort_by le xs) ≡ max_sequence xs
  unfolding max_sequence sort_by
  max_sequence-sort le [] = refl
  max_sequence-sort le (x ∷ xs) =
      omega (arith, max_sequence-insert le x (sort_by le xs), max_sequence-sort le xs)

  max_sequence-cons :
      (r : PlaylistItemRecord) (rs : Rows)
      → max_sequence (r ∷ rs) ≡ max (pos_part r.sequence) (max_sequence rs)
  unfolding max_sequence
  max_sequence-cons r rs = refl

  mine_first :
      (r : PlaylistItemRecord) (rs : Rows)
      → r.playlist_id ≡ playlist
      → max_sequence (filter (λ i. i.playlist_id == playlist) (r ∷ rs))
        ≡ max (pos_part r.sequence) (max_sequence (filter (λ i. i.playlist_id == playlist) rs))
  mine_first r rs is =
      rw ((eq_iff r.playlist_id playlist).1 is)
        (max_sequence-cons r (filter (λ i. i.playlist_id == playlist) rs))

  filter_grows :
      (r : PlaylistItemRecord) (rs : Rows)
      → max_sequence (filter (λ i. i.playlist_id == playlist) rs)
        ≤ max_sequence (filter (λ i. i.playlist_id == playlist) (r ∷ rs))
  filter_grows r rs = elim (Bool-cases (r.playlist_id == playlist)) [
    | inl mine ↦ omega (arith, mine_first r rs ((eq_iff r.playlist_id playlist).0 mine))
    | inr other ↦ rw other (omega arith)
  ]

  below_filtered :
      (rows : Rows)
      → All
          (λ r.
            r.playlist_id ≡ playlist
            → pos_part r.sequence ≤ max_sequence (filter (λ i. i.playlist_id == playlist) rows))
          rows
  below_filtered [] = tt
  below_filtered (r ∷ rs) = (
    λ is. omega (arith, mine_first r rs is),
    All-map (λ s h is. omega (arith, h is, filter_grows r rs)) rs (below_filtered rs),
  )

  all-IsBelow : All (IsBelow playlist old items) st.playlist_items
  unfolding list_items
  all-IsBelow =
      All-map
        (λ r h is. omega (
          arith,
          h is,
          max_sequence-sort (λ a b. not (ltb_ℤ b.sequence a.sequence))
              (filter (λ i. i.playlist_id == playlist) st.playlist_items),
        ))
        st.playlist_items (below_filtered st.playlist_items)

  -- No item that is kept stands where one is new.
  kept_elsewhere :
      (r : PlaylistItemRecord)
      → IsMember playlist (known_ids old items) r
      → (applied (rewrite old items) r).playlist_id ≡ playlist
      → (k : ℕ) → is_new_at items k ≡ true
      → eq_ℤ (pos (1 + k)) (applied (rewrite old items) r).sequence ≡ false
  kept_elsewhere r m is k fresh = elim (Bool-cases (includes (known_ids old items) r.id)) [
    | inl known ↦
        let (j, d, l, there, now) = rewrite_known playlist old items r known in
        let old_place = write_of-is_new_at r.id items there in
        rw now (elim (Bool-cases (eqb k j)) [
          | inl same ↦ absurd (cc (fresh, rw (sym ((eqb_iff k j).0 same)) at old_place))
          | inr apart ↦ ground arith
        ])
    | inr unknown ↦
        let unchanged = rewrite_unknown playlist old items r unknown in
        let mine = (eq_iff r.playlist_id playlist).1 (rw unchanged at is) in
        absurd (cc (m, mine, unknown))
  ]

  all_elsewhere :
      (rs : Rows)
      → All (IsMember playlist (known_ids old items)) rs
      → All
          (λ r.
            r.playlist_id ≡ playlist
            → (k : ℕ) → is_new_at items k ≡ true
            → eq_ℤ (pos (1 + k)) r.sequence ≡ false)
          (map (applied (rewrite old items)) rs)
  all_elsewhere [] m = tt
  all_elsewhere (r ∷ rs) m = (kept_elsewhere r m.0, all_elsewhere rs m.1)

  -- The rows that stay, and how they are listed.
  pub kept_members :
      UniqueItems st.playlist_items
      → All (IsMember playlist (known_ids old items)) (filter stays st.playlist_items)
  kept_members u =
      All-filtered stays st.playlist_items (λ r h e. stays-IsMember r h e) (all-IsListed u)

  -- The index does not refuse the transaction: the other items of the playlist go, those that are kept stand at
  -- their places in the list with its values, and the new ones are added at theirs.
  pub replace_rows_lem :
      (uuid : ℕ → String)
      → UniqueItems st.playlist_items
      → replace_rows playlist old uuid items st.playlist_items
        ≡ some (
            map (applied (rewrite old items)) (filter stays st.playlist_items)
            ++ new_rows playlist uuid 0 items)
  unfolding replace_rows
  replace_rows_lem uuid u =
      let left = filter stays st.playlist_items in
      let members = kept_members u in
      let kept =
        rewrite_kept_lem playlist old items left members
          (All-filter (IsBelow playlist old items) stays st.playlist_items all-IsBelow)
          (UniqueItems-filter stays st.playlist_items u) in
      rw (kept, replace_rows)
        (insert_new_rows playlist uuid items (map (applied (rewrite old items)) left)
          (all_elsewhere left members))
