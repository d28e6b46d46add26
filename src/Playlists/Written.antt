-- ===== src/Playlists/Written.antt =====
-- What the use cases on whole playlists make of the rows of items: they stay within the budget.
use wildfire.Base.{
  ℕ, ◌≡◌, refl, sym, subst, ◌∙◌, inl, inr, String, ◌==◌, Bool, true, false, not, ◌&&◌, Option, none,
  some, List, [], ◌∷◌, map, any, find, Bool-cases, Option-cases, Result, ok, err, Result-cases,
  guard, ◌>>◌, or_throw, length, ltb, opt_eq, truthy, some-injective, none≢some, validation,
  not_found,
}
use wildfire.Schedule.{ScheduleRecord}
use wildfire.Store.{Store, PlaylistRecord, UserRecord}
use wildfire.Store.Contents.{refresh_content_unused_since}
use wildfire.Store.Schedules.{delete_row, find_schedule, after_delete, content_of}
use wildfire.Store.Playlists.{
  owned_by, create_playlist_row, update_playlist_row, delete_playlist_row,
}
use wildfire.Store.Replace.{new}
use wildfire.Scheduling.Mutations.{Deps, Call}
use wildfire.Playlists.{ItemView}
use wildfire.Playlists.Replacement.{NewItem, compensated, finish_create, find_user, create_playlist}
use wildfire.Playlists.Whole.{
  finish_metadata, finish_update, update_playlist, plan_delete, delete_schedules, finish_delete,
  delete_playlist,
}
use wildfire.Playlists.Budget.{IsWithinBudget, filtered-IsWithinBudget}
use wildfire.Playlists.Effects.{publishes-items}
use wildfire.Playlists.Replaced.{AreFresh}
use wildfire.Playlists.Proposed.{replace_playlist_items-IsWithinBudget}

deleted-IsWithinBudget :
    (id : String) (owner : Option String) (st : Store) {done : Bool × Store}
    → delete_playlist_row id owner st ≡ some done
    → IsWithinBudget st.playlist_items
    → IsWithinBudget done.1.playlist_items
unfolding delete_playlist_row
deleted-IsWithinBudget id owner st {done} e inv =
    elim (Bool-cases
      (not (any (λ (p : PlaylistRecord). p.id == id && owned_by owner p) st.playlists))) [
        | inl missing ↦
            subst (λ (d : Bool × Store). IsWithinBudget d.1.playlist_items)
              (some-injective (rw missing at e)) inv
        | inr there ↦ elim (Bool-cases (any (λ s. opt_eq s.playlist_id (some id)) st.schedules)) [
          | inl named ↦ absurd (none≢some (rw (there, named) at e))
          | inr free ↦
              subst (λ (d : Bool × Store). IsWithinBudget d.1.playlist_items)
                (some-injective (rw (there, free) at e))
                (filtered-IsWithinBudget (λ i. not (i.playlist_id == id)) st.playlist_items inv)
        ]
      ]

pub create_playlist-IsWithinBudget :
    (id : String) (uuid : ℕ → String) (at name : String) (description : Option String)
    (show_counter : Option Bool) (owner : String) (scope : Option String) (items : List NewItem)
    (st : Store)
    → IsWithinBudget st.playlist_items
    → AreFresh uuid st.playlist_items
    → IsWithinBudget
        (create_playlist id uuid at name description show_counter owner scope items
          st).1.playlist_items
unfolding create_playlist create_playlist_row
create_playlist-IsWithinBudget id uuid at name description show_counter owner scope items st inv
      fresh =
    elim (Result-cases (
      guard (ltb 0 (length items)) (validation "Playlists must contain at least one item.")
      >> or_throw (find_user owner st) (not_found "User not found"))) [
        | inl (e, h) ↦ rw (h, create_playlist) inv
        | inr (user, h) ↦
            rw (h, create_playlist)
              (finished _ user _ (
                replace_playlist_items-IsWithinBudget uuid at scope id
                  (map (λ (i : NewItem). new i.content_id i.duration i.loop) items) _ inv fresh))
      ]
  where
    undone :
        (key : String) (there : Store)
        → IsWithinBudget there.playlist_items
        → IsWithinBudget (compensated key there).playlist_items
    undone key there h = elim (Option-cases (delete_playlist_row key none there)) [
      | inl k ↦ rw (k, compensated) h
      | inr (done, k) ↦ rw (k, compensated) (deleted-IsWithinBudget key none there k h)
    ]

    finished :
        (playlist : PlaylistRecord) (user : UserRecord) (r : Result (List ItemView) × Store)
        → IsWithinBudget r.1.playlist_items
        → IsWithinBudget (finish_create playlist user r).1.playlist_items
    finished playlist user (err e, there) h = undone playlist.id there h
    finished playlist user (ok views, there) h = h

update_playlist_row-items :
    (id : String) (owner name : Option String) (description : Option (Option String))
    (show_counter : Option Bool) (at : String) (st : Store)
    → (update_playlist_row id owner name description show_counter at st).1.playlist_items
      ≡ st.playlist_items
unfolding update_playlist_row
update_playlist_row-items id owner name description show_counter at st =
    elim (Option-cases
      (find (λ (p : PlaylistRecord). p.id == id && owned_by owner p) st.playlists)) [
        | inl h ↦ rw (h, update_playlist_row) refl
        | inr (p, h) ↦ rw (h, update_playlist_row) refl
      ]

pub update_playlist-items :
    (at id : String) (owner name : Option String) (description : Option (Option String))
    (show_counter : Option Bool) (st : Store)
    → (update_playlist at id owner name description show_counter st).1.playlist_items
      ≡ st.playlist_items
unfolding update_playlist
update_playlist-items at id owner name description show_counter st =
    finished (update_playlist_row id owner name description show_counter at st)
    ∙ update_playlist_row-items id owner name description show_counter at st
  where
    answered :
        (p : PlaylistRecord) (r : Result (Unit {0}) × Store)
        → (finish_metadata p r).1.playlist_items ≡ r.1.playlist_items
    answered p (err e, there) = refl
    answered p (ok u, there) = refl

    finished :
        (r : Option PlaylistRecord × Store)
        → (finish_update r).1.playlist_items ≡ r.1.playlist_items
    finished (none, there) = refl
    finished (some p, there) = answered p _ ∙ publishes-items p.id "playlist_metadata_updated" there

after_delete-items :
    (found : Option ScheduleRecord) (deleted : Bool) (at : String) (st : Store)
    → (after_delete found deleted at st).1.playlist_items ≡ st.playlist_items
unfolding refresh_content_unused_since
after_delete-items found false at st = refl
after_delete-items found true at st = elim (Option-cases (truthy (content_of found))) [
  | inl h ↦ rw (h, after_delete) refl
  | inr (id, h) ↦ rw (h, after_delete) refl
]

delete_row-items :
    (id at : String) (st : Store) → (delete_row id at st).1.playlist_items ≡ st.playlist_items
unfolding delete_row
delete_row-items id at st = elim (Result-cases (find_schedule id st)) [
  | inl (e, h) ↦ rw (h, delete_row) refl
  | inr (found, h) ↦ rw (h, delete_row) (after_delete-items found _ at _)
]

delete_schedules-items :
    (at : String) (schedules : List ScheduleRecord) (st : Store)
    → (delete_schedules at schedules st).1.playlist_items ≡ st.playlist_items
unfolding delete_schedules
delete_schedules-items at [] st = refl
delete_schedules-items at (s ∷ schedules) st = elim (Result-cases (delete_row s.id at st).0) [
  | inl (e, h) ↦ rw (h, delete_schedules) (delete_row-items s.id at st)
  | inr (true, h) ↦
      rw (h, delete_schedules) (delete_schedules-items at schedules _ ∙ delete_row-items s.id at st)
  | inr (false, h) ↦
      rw (h, delete_schedules) (delete_schedules-items at schedules _ ∙ delete_row-items s.id at st)
]

pub delete_playlist-IsWithinBudget :
    (deps : Deps) (call : Call) (id : String) (owner : Option String) (st : Store)
    → IsWithinBudget st.playlist_items
    → IsWithinBudget (delete_playlist deps call id owner st).1.playlist_items
unfolding delete_playlist
delete_playlist-IsWithinBudget deps call id owner st inv =
    elim (Result-cases (plan_delete deps call.now id owner st)) [
      | inl (e, h) ↦ rw (h, delete_playlist) inv
      | inr (schedules, h) ↦
          rw (h, delete_playlist)
            (finished (delete_schedules call.at schedules st)
              (subst IsWithinBudget (sym (delete_schedules-items call.at schedules st)) inv))
    ]
  where
    dropped :
        (there : Store)
        → IsWithinBudget there.playlist_items
        → IsWithinBudget (finish_delete id owner (ok tt, there)).1.playlist_items
    dropped there h = elim (Option-cases (delete_playlist_row id owner there)) [
      | inl k ↦ rw (k, finish_delete) h
      | inr ((true, after), k) ↦ rw (k, finish_delete) (deleted-IsWithinBudget id owner there k h)
      | inr ((false, after), k) ↦ rw (k, finish_delete) (deleted-IsWithinBudget id owner there k h)
    ]

    finished :
        (r : Result (Unit {0}) × Store)
        → IsWithinBudget r.1.playlist_items
        → IsWithinBudget (finish_delete id owner r).1.playlist_items
    finished (err e, there) h = h
    finished (ok u, there) h = dropped there h
