-- ===== src/Playlists/Reach.antt =====
-- The calls that write playlists and their items, as steps, and what every state that they reach keeps.
use wildfire.Base.{
  ℕ, ◌≡◌, sym, subst, String, Bool, Option, List, [], All, ◌==◌, true, false, arith,
}
use wildfire.Base.Int.{ℤ, pos, ltb_ℤ}
use wildfire.Store.{Store, PlaylistItemRecord}
use wildfire.Store.Playlists.{list_items}
use wildfire.Store.Replace.{ItemWrite}
use wildfire.Scheduling.Mutations.{Deps, Call}
use wildfire.Playlists.{base_duration}
use wildfire.Playlists.Items.{
  within_total, add_playlist_item, update_playlist_item, delete_playlist_item,
  reorder_playlist_items,
}
use wildfire.Playlists.Replacement.{replace_playlist_items, NewItem, create_playlist}
use wildfire.Playlists.Whole.{update_playlist, delete_playlist}
use wildfire.Playlists.Totals.{
  base_duration-seconds, list_items-IsPositive, listed_seconds, every_row,
}
use wildfire.Playlists.Budget.{IsWithinBudget}
use wildfire.Playlists.Changes.{add_playlist_item-IsWithinBudget}
use wildfire.Playlists.Updated.{update_playlist_item-IsWithinBudget}
use wildfire.Playlists.Rearranged.{
  delete_playlist_item-IsWithinBudget, reorder_playlist_items-IsWithinBudget,
}
use wildfire.Playlists.Replaced.{AreFresh}
use wildfire.Playlists.Written.{
  create_playlist-IsWithinBudget, update_playlist-items, delete_playlist-IsWithinBudget,
}
use wildfire.Playlists.Proposed.{replace_playlist_items-IsWithinBudget}

-- A call, answered or refused. Random ids are new.
pub data Step (st : Store) : Store → Type 0 where
  item_added :
      (uuid at : String) (owner : Option String) (playlist content_id : String)
      (sequence duration : ℤ) (loop : Option Bool)
      → All (λ (s : PlaylistItemRecord). (uuid == s.id) ≡ false) st.playlist_items
      → Step st (add_playlist_item uuid at owner playlist content_id sequence duration loop st).1
  item_updated :
      (playlist : String) (owner : Option String) (id : String) (sequence duration : Option ℤ)
      (loop : Option Bool)
      → Step st (update_playlist_item playlist owner id sequence duration loop st).1
  item_deleted :
      (at playlist : String) (owner : Option String) (id : String)
      → Step st (delete_playlist_item at playlist owner id st).1
  items_reordered :
      (owner : Option String) (playlist : String) (ids : List String)
      → Step st (reorder_playlist_items owner playlist ids st).1
  items_replaced :
      (uuid : ℕ → String) (at : String) (owner : Option String) (playlist : String)
      (items : List ItemWrite)
      → AreFresh uuid st.playlist_items
      → Step st (replace_playlist_items uuid at owner playlist items st).1
  created :
      (id : String) (uuid : ℕ → String) (at name : String) (description : Option String)
      (show_counter : Option Bool) (owner : String) (scope : Option String) (items : List NewItem)
      → AreFresh uuid st.playlist_items
      → Step st (create_playlist id uuid at name description show_counter owner scope items st).1
  updated :
      (at id : String) (owner name : Option String) (description : Option (Option String))
      (show_counter : Option Bool)
      → Step st (update_playlist at id owner name description show_counter st).1
  deleted :
      (deps : Deps) (call : Call) (id : String) (owner : Option String)
      → Step st (delete_playlist deps call id owner st).1

pub data Reach (st : Store) : Store → Type 0 where
  here : Reach st st
  next : {u v : Store} → Reach st u → Step u v → Reach st v

Step-IsWithinBudget :
    (st : Store) {st' : Store}
    → IsWithinBudget st.playlist_items
    → Step st st'
    → IsWithinBudget st'.playlist_items
Step-IsWithinBudget st inv
      (item_added uuid at owner playlist content_id sequence duration loop fresh) =
    add_playlist_item-IsWithinBudget uuid at owner playlist content_id sequence duration loop st inv
      fresh
Step-IsWithinBudget st inv (item_updated playlist owner id sequence duration loop) =
    update_playlist_item-IsWithinBudget playlist owner id sequence duration loop st inv
Step-IsWithinBudget st inv (item_deleted at playlist owner id) =
    delete_playlist_item-IsWithinBudget at playlist owner id st inv
Step-IsWithinBudget st inv (items_reordered owner playlist ids) =
    reorder_playlist_items-IsWithinBudget owner playlist ids st inv
Step-IsWithinBudget st inv (items_replaced uuid at owner playlist items fresh) =
    replace_playlist_items-IsWithinBudget uuid at owner playlist items st inv fresh
Step-IsWithinBudget st inv
      (created id uuid at name description show_counter owner scope items fresh) =
    create_playlist-IsWithinBudget id uuid at name description show_counter owner scope items st inv
      fresh
Step-IsWithinBudget st inv (updated at id owner name description show_counter) =
    subst IsWithinBudget (sym (update_playlist-items at id owner name description show_counter st))
      inv
Step-IsWithinBudget st inv (deleted deps call id owner) =
    delete_playlist-IsWithinBudget deps call id owner st inv

Reach-IsWithinBudget :
    (st : Store) {st' : Store}
    → IsWithinBudget st.playlist_items
    → Reach st st'
    → IsWithinBudget st'.playlist_items
Reach-IsWithinBudget st inv here = inv
Reach-IsWithinBudget st inv (next {u} r s) = Step-IsWithinBudget u (Reach-IsWithinBudget st inv r) s

-- From a store without items no series of calls, whatever it is asked and in whatever order, makes
-- a playlist whose items last more than 60 seconds, or an item that lasts none.
pub Reach-within_total :
    (st : Store) {st' : Store} (playlist : String)
    → st.playlist_items ≡ []
    → Reach st st'
    → (within_total (base_duration (list_items playlist st')) ≡ true)
      × All (λ (i : PlaylistItemRecord). ltb_ℤ (pos 0) i.duration ≡ true) (list_items playlist st')
Reach-within_total st {st'} playlist empty r =
    let inv =
      Reach-IsWithinBudget st
        (subst IsWithinBudget (sym empty)
          (record { unique = tt; positive = tt; bounded = λ p. omega arith }))
        r in
    let listed = list_items-IsPositive playlist st' inv.positive in
    let same = listed_seconds playlist (λ r. true) st' in
    let bound = inv.bounded playlist in
    (
      rw (base_duration-seconds (list_items playlist st') listed) (
          ground (
            arith,
            rw (every_row (list_items playlist st'), every_row st'.playlist_items) at same,
          )),
      listed,
    )
