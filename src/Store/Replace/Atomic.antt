-- ===== src/Store/Replace/Atomic.antt =====
-- The whole of `replaceItemsAtomic`: the rows that it leaves, and those of the other playlists.
use mathlib.Core.List.{append-nil}
use wildfire.Store.Contents.{mark_content_used, refresh_content_unused_since}
use wildfire.Base.{
  ℕ, ◌≡◌, refl, ap, ◌⊎◌, ◌∙◌, inl, inr, String, ◌==◌, true, false, not, List, [], ◌∷◌, ◌++◌, map,
  filter, All, All-map, arith, Bool-cases, eq_iff, eq_refl, ok,
}
use wildfire.Base.Any.{filter-append, filter-none}
use wildfire.Store.{Store, PlaylistItemRecord}
use wildfire.Store.Playlists.{list_items}
use wildfire.Store.Items.{Rows, applied}
use wildfire.Store.Items.Assign.{UniqueItems}
use wildfire.Store.Items.Moved.{IsMember}
use wildfire.Store.Replace.{
  ItemWrite, known_ids, rewrite, new_rows, replace_items_atomic, write_replacement, all_fit,
  keys_exist,
}
use wildfire.Store.Replace.Batches.{rewrite_unknown, rewrite_stays}
use wildfire.Store.Replace.Insertion.{new_rows-StandsAt}
use wildfire.Store.Replace.Kept.{
  stays, stays_iff, stays-IsMember, IsListed, all-IsListed, replace_rows_lem,
}

module _ (playlist : String) (items : List ItemWrite) (st : Store) where
  abbrev pub others : Rows → Rows
  others rows = filter (λ r. not (r.playlist_id == playlist)) rows

  -- The rows that the replacement is to leave.
  abbrev pub replaced : (ℕ → String) → Rows
  replaced uuid =
      map (applied (rewrite (list_items playlist st) items))
        (filter (stays playlist items st) st.playlist_items)
      ++ new_rows playlist uuid 0 items

  kept_other :
      (r : PlaylistItemRecord)
      → IsMember playlist (known_ids (list_items playlist st) items) r
      → (r.playlist_id == playlist) ≡ false
      → applied (rewrite (list_items playlist st) items) r ≡ r
  kept_other r m other = rewrite_unknown playlist (list_items playlist st) items r (m ∙ other)

  others_kept :
      (rs : Rows)
      → All (IsListed playlist items st) rs
      → others (
          map
            (applied (rewrite (list_items playlist st) items))
            (filter (stays playlist items st) rs))
        ≡ others rs
  others_kept [] h = refl
  others_kept (r ∷ rs) h = elim (Bool-cases (stays playlist items st r)) [
    | inl s ↦
        let m = stays-IsMember playlist items st r h.0 s in
        elim (Bool-cases (r.playlist_id == playlist)) [
          | inl mine ↦
              let still = (eq_iff r.playlist_id playlist).0 mine in
              rw (s) (
                rw (rewrite_stays playlist (list_items playlist st) items r, mine)
                  (others_kept rs h.1))
          | inr other ↦ rw (s) (rw (kept_other r m other, other) (rw (others_kept rs h.1) refl))
        ]
    | inr s ↦
        let mine : (r.playlist_id == playlist) ≡ true =
          ground (arith, stays_iff playlist items st r h.0) in
        rw (s, mine) (others_kept rs h.1)
  ]

  -- The rows of the other playlists are untouched.
  pub others_replaced :
      (uuid : ℕ → String)
      → UniqueItems st.playlist_items
      → others (replaced uuid) ≡ others st.playlist_items
  others_replaced uuid u =
      filter-append (λ r. not (r.playlist_id == playlist)) _ (new_rows playlist uuid 0 items)
      ∙ rw
          (filter-none (λ (r : PlaylistItemRecord). not (r.playlist_id == playlist))
            (new_rows playlist uuid 0 items)
            (All-map (λ r s. rw (s.3, eq_refl playlist) refl) (new_rows playlist uuid 0 items)
              (new_rows-StandsAt playlist uuid 0 items)))
          (append-nil _ ∙ others_kept st.playlist_items (all-IsListed playlist items st u))

  -- Where it is not refused for a value or a key, the replacement goes through.
  pub write_replacement-replaced :
      (uuid : ℕ → String) (at : String)
      → UniqueItems st.playlist_items
      → ((write_replacement playlist uuid items at st).0
          ≡ ok (list_items playlist (write_replacement playlist uuid items at st).1))
        × ((write_replacement playlist uuid items at st).1.playlist_items ≡ replaced uuid)
  unfolding write_replacement refresh_content_unused_since mark_content_used
  write_replacement-replaced uuid at u =
      rw (replace_rows_lem playlist items st uuid u, write_replacement) (refl, refl)

  -- A replacement leaves the rows as they were, or as it is to leave them.
  pub replace_items_atomic-cases :
      (uuid : ℕ → String) (at : String)
      → UniqueItems st.playlist_items
      → ((replace_items_atomic playlist uuid items at st).1 ≡ st)
        ⊎ (((replace_items_atomic playlist uuid items at st).1
              ≡ (write_replacement playlist uuid items at st).1)
            × ((replace_items_atomic playlist uuid items at st).1.playlist_items ≡ replaced uuid))
  unfolding replace_items_atomic
  replace_items_atomic-cases uuid at u =
      elim (Bool-cases (all_fit playlist uuid (list_items playlist st) items)) [
        | inr wide ↦ inl (rw (wide, replace_items_atomic) refl)
        | inl fit ↦ elim (Bool-cases (keys_exist playlist items st)) [
          | inr lost ↦ inl (rw (fit, replace_items_atomic) (rw (lost, replace_items_atomic) refl))
          | inl there ↦
              rw (fit, replace_items_atomic)
                (rw (there, replace_items_atomic)
                  (inr (refl, (write_replacement-replaced uuid at u).1)))
        ]
      ]

  pub replace_items_atomic-done :
      (uuid : ℕ → String) (at : String)
      → all_fit playlist uuid (list_items playlist st) items ≡ true
      → keys_exist playlist items st ≡ true
      → replace_items_atomic playlist uuid items at st ≡ write_replacement playlist uuid items at st
  unfolding replace_items_atomic
  replace_items_atomic-done uuid at fit there =
      rw (fit, replace_items_atomic) (rw (there, replace_items_atomic) refl)

  -- The rows of the other playlists stay as they are in any case.
  pub replace_items_atomic-others :
      (uuid : ℕ → String) (at : String)
      → UniqueItems st.playlist_items
      → others (replace_items_atomic playlist uuid items at st).1.playlist_items
        ≡ others st.playlist_items
  replace_items_atomic-others uuid at u = elim (replace_items_atomic-cases uuid at u) [
    | inl same ↦ ap (λ (s : Store). others s.playlist_items) same
    | inr (_, is) ↦ ap others is ∙ others_replaced uuid u
  ]
