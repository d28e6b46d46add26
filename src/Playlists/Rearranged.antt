-- ===== src/Playlists/Rearranged.antt =====
-- What deleting and reordering items make of the rows: they stay within the budget.
use wildfire.Base.{
  ◌≡◌, refl, sym, subst, inl, inr, String, ◌==◌, Bool, true, false, not, ◌||◌, Option, some, List,
  [], filter, any, every, length, eqb, Bool-cases, Option-cases, Result, ok, err, Result-cases,
  none≢some, has_duplicates, includes,
}
use wildfire.Store.{Store, PlaylistItemRecord}
use wildfire.Store.Contents.{refresh_content_unused_since}
use wildfire.Store.Playlists.{list_items}
use wildfire.Store.Items.{
  Rows, place_from, find_item, update_each, delete_item, reorder_rows, reorder_items,
}
use wildfire.Store.Items.Batches.{update_each-applied}
use wildfire.Scheduling.Guards.{find_playlist_scoped}
use wildfire.Playlists.Items.{
  plan_delete, finish_delete, delete_playlist_item, finish_reorder, reorder_playlist_items,
}
use wildfire.Playlists.Budget.{IsWithinBudget, filtered-IsWithinBudget, moved-IsWithinBudget}
use wildfire.Playlists.Effects.{effects-items}

delete_item-items :
    (id at : String) (st : Store)
    → (delete_item id at st).1.playlist_items
      ≡ filter (λ (i : PlaylistItemRecord). not (i.id == id)) st.playlist_items
unfolding delete_item refresh_content_unused_since
delete_item-items id at st = elim (Option-cases (find_item id st)) [
  | inl h ↦ rw (h, delete_item) refl
  | inr (e, h) ↦
      rw (h, delete_item)
        (elim (Bool-cases (any (λ (i : PlaylistItemRecord). i.id == id) st.playlist_items)) [
          | inl k ↦ rw k refl
          | inr k ↦ rw k refl
        ])
]

pub delete_playlist_item-IsWithinBudget :
    (at playlist : String) (owner : Option String) (id : String) (st : Store)
    → IsWithinBudget st.playlist_items
    → IsWithinBudget (delete_playlist_item at playlist owner id st).1.playlist_items
unfolding delete_playlist_item
delete_playlist_item-IsWithinBudget at playlist owner id st inv =
    elim (Result-cases (plan_delete playlist owner id st)) [
      | inl (e, h) ↦ rw (h, delete_playlist_item) inv
      | inr (existing, h) ↦
          rw (h, delete_playlist_item)
            (finished existing (delete_item id at st) (
              rw (delete_item-items id at st)
                (filtered-IsWithinBudget (λ i. not (i.id == id)) st.playlist_items inv)))
    ]
  where
    finished :
        (existing : PlaylistItemRecord) (r : Bool × Store)
        → IsWithinBudget r.1.playlist_items
        → IsWithinBudget (finish_delete existing r).1.playlist_items
    finished existing (false, there) h = h
    finished existing (true, there) h =
        rw (effects-items existing.playlist_id "playlist_item_deleted" there) h

reorder_rows-IsWithinBudget :
    (ids : List String) (rows : Rows) {out : Rows}
    → reorder_rows ids rows ≡ some out
    → IsWithinBudget rows
    → IsWithinBudget out
unfolding reorder_rows
reorder_rows-IsWithinBudget ids rows e inv =
    elim (Option-cases (update_each (place_from 10001 ids) [] rows)) [
      | inl h ↦ absurd (none≢some (rw (h, reorder_rows) at e))
      | inr (moved, h) ↦
          let first = moved-IsWithinBudget ids 10001 rows inv in
          let second = rw (h, reorder_rows) at e in
          subst IsWithinBudget (sym (update_each-applied (place_from 1 ids) moved second)) (
            moved-IsWithinBudget ids 1 moved (
              subst IsWithinBudget (sym (update_each-applied (place_from 10001 ids) rows h)) first))
    ]

reorder_items-IsWithinBudget :
    (playlist : String) (ids : List String) (st : Store)
    → IsWithinBudget st.playlist_items
    → IsWithinBudget (reorder_items playlist ids st).1.playlist_items
unfolding reorder_items
reorder_items-IsWithinBudget playlist ids st inv =
    let size = length (list_items playlist st) in
    elim (Bool-cases (eqb size 0)) [
      | inl none_there ↦ rw none_there inv
      | inr some_there ↦
          elim (Bool-cases (
            not (eqb size (length ids))
            || has_duplicates ids
            || not
                (every (λ (i : PlaylistItemRecord). includes ids i.id) (list_items playlist st)))) [
                  | inl bad ↦ rw (some_there, bad) inv
                  | inr good ↦
                      rw (some_there, good)
                        (elim (Option-cases (reorder_rows ids st.playlist_items)) [
                          | inl h ↦ rw (h, reorder_items) inv
                          | inr (rows, h) ↦
                              rw (h, reorder_items)
                                (reorder_rows-IsWithinBudget ids st.playlist_items h inv)
                        ])
                ]
    ]

pub reorder_playlist_items-IsWithinBudget :
    (owner : Option String) (playlist : String) (ids : List String) (st : Store)
    → IsWithinBudget st.playlist_items
    → IsWithinBudget (reorder_playlist_items owner playlist ids st).1.playlist_items
unfolding reorder_playlist_items
reorder_playlist_items-IsWithinBudget owner playlist ids st inv =
    elim (Option-cases (find_playlist_scoped playlist owner st)) [
      | inl h ↦ rw (h, reorder_playlist_items) inv
      | inr (p, h) ↦
          rw (h, reorder_playlist_items)
            (finished (reorder_items playlist ids st)
              (reorder_items-IsWithinBudget playlist ids st inv))
    ]
  where
    finished :
        (r : Result Bool × Store)
        → IsWithinBudget r.1.playlist_items
        → IsWithinBudget (finish_reorder playlist r).1.playlist_items
    finished (err e, there) h = h
    finished (ok false, there) h = h
    finished (ok true, there) h = rw (effects-items playlist "playlist_items_reordered" there) h
