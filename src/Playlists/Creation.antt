-- ===== src/Playlists/Creation.antt =====
-- A creation that is refused, before or after its playlist is written, leaves the tables as they were.
use wildfire.Base.{
  ℕ, ◌≡◌, refl, ap, ◌∙◌, inl, inr, String, ◌==◌, Bool, true, false, not, ◌&&◌, Option, none, some,
  or_else, List, [], ◌∷◌, map, any, filter, length, ltb, All, Option-cases, Result, ok, err,
  Result-cases, Error, validation, not_found, guard, or_throw, ◌>>◌, opt_eq, eq_refl, distinct,
}
use wildfire.Schedule.{ScheduleRecord}
use wildfire.Store.{Store, PlaylistRecord, PlaylistItemRecord, ScheduleRow, UserRecord}
use wildfire.Store.Contents.{mark_content_used, refresh_content_unused_since}
use wildfire.Store.Schedules.{list_by_playlist}
use wildfire.Store.Playlists.{list_items, owned_by, create_playlist_row, delete_playlist_row}
use wildfire.Store.Items.{Rows}
use wildfire.Store.Items.Assign.{UniqueItems}
use wildfire.Store.Replace.{ItemWrite, new, replace_rows, write_replacement, replace_items_atomic}
use wildfire.Store.Replace.Atomic.{replace_items_atomic-cases, replace_items_atomic-others}
use wildfire.Playlists.{publish_each, publish_playlist_update_events, ItemView}
use wildfire.Playlists.Replacement.{
  plan_replace, finish_replace, replace_playlist_items, NewItem, compensated, finish_create,
  find_user, create_playlist,
}
use wildfire.Playlists.Effects.{effects-items}

-- The tables that a replacement does not write, and the rows that it leaves.
record IsFramed (playlist : String) (st there : Store) : Type 0 where
  pub playlists : there.playlists ≡ st.playlists
  pub schedules : there.schedules ≡ st.schedules
  pub others :
      filter (λ i. not (i.playlist_id == playlist)) there.playlist_items
      ≡ filter (λ i. not (i.playlist_id == playlist)) st.playlist_items

publish_each-frame :
    (reason : String) (displays : List String) (st : Store)
    → ((publish_each reason displays st).playlists ≡ st.playlists)
      × ((publish_each reason displays st).schedules ≡ st.schedules)
publish_each-frame reason [] st = (refl, refl)
publish_each-frame reason (d ∷ ds) st = publish_each-frame reason ds _

publishes-frame :
    (playlist reason : String) (st : Store)
    → ((publish_playlist_update_events playlist reason st).1.playlists ≡ st.playlists)
      × ((publish_playlist_update_events playlist reason st).1.schedules ≡ st.schedules)
unfolding publish_playlist_update_events
publishes-frame playlist reason st = elim (Result-cases (list_by_playlist playlist st)) [
  | inl (e, h) ↦ rw (h, publish_playlist_update_events) (refl, refl)
  | inr (schedules, h) ↦
      rw (h, publish_playlist_update_events)
        (publish_each-frame reason (distinct (map (λ (s : ScheduleRecord). s.display_id) schedules))
          st)
]

write_replacement-frame :
    (playlist : String) (uuid : ℕ → String) (items : List ItemWrite) (at : String) (st : Store)
    → ((write_replacement playlist uuid items at st).1.playlists ≡ st.playlists)
      × ((write_replacement playlist uuid items at st).1.schedules ≡ st.schedules)
unfolding write_replacement mark_content_used refresh_content_unused_since
write_replacement-frame playlist uuid items at st =
    elim (Option-cases
      (replace_rows playlist (list_items playlist st) uuid items st.playlist_items)) [
        | inl h ↦ rw (h, write_replacement) (refl, refl)
        | inr (rows, h) ↦ rw (h, write_replacement) (refl, refl)
      ]

replace_items_atomic-frame :
    (playlist : String) (uuid : ℕ → String) (items : List ItemWrite) (at : String) (st : Store)
    → UniqueItems st.playlist_items
    → ((replace_items_atomic playlist uuid items at st).1.playlists ≡ st.playlists)
      × ((replace_items_atomic playlist uuid items at st).1.schedules ≡ st.schedules)
replace_items_atomic-frame playlist uuid items at st u =
    elim (replace_items_atomic-cases playlist items st uuid at u) [
      | inl same ↦ (ap (λ (s : Store). s.playlists) same, ap (λ (s : Store). s.schedules) same)
      | inr (same, _) ↦
          let (p, s) = write_replacement-frame playlist uuid items at st in
          (ap (λ (s : Store). s.playlists) same ∙ p, ap (λ (s : Store). s.schedules) same ∙ s)
    ]

replace_playlist_items-IsFramed :
    (uuid : ℕ → String) (at : String) (owner : Option String) (playlist : String)
    (items : List ItemWrite) (st : Store)
    → UniqueItems st.playlist_items
    → IsFramed playlist st (replace_playlist_items uuid at owner playlist items st).1
unfolding replace_playlist_items
replace_playlist_items-IsFramed uuid at owner playlist items st u =
    elim (Result-cases (plan_replace owner playlist items st)) [
      | inl (e, h) ↦
          rw (h, replace_playlist_items)
            (record { playlists = refl; schedules = refl; others = refl })
      | inr (writes, h) ↦
          let (p, s) = replace_items_atomic-frame playlist uuid writes at st u in
          let o = replace_items_atomic-others playlist writes st uuid at u in
          rw (h, replace_playlist_items)
            (finished (replace_items_atomic playlist uuid writes at st)
              (record { playlists = p; schedules = s; others = o }))
    ]
  where
    finished :
        (r : Result Rows × Store)
        → IsFramed playlist st r.1
        → IsFramed playlist st (finish_replace owner playlist r).1
    finished (err e, there) f = f
    finished (ok rows, there) f =
        let (p, s) = publishes-frame playlist "playlist_items_replaced" there in
        record {
          playlists = p ∙ f.playlists;
          schedules = s ∙ f.schedules;
          others =
              ap (filter (λ i. not (i.playlist_id == playlist)))
                (effects-items playlist "playlist_items_replaced" there)
              ∙ f.others;
        }

-- The id is new: no row has it or names it.
pub record IsNewPlaylist (id : String) (st : Store) : Type 0 where
  pub unknown : All (λ (p : PlaylistRecord). (p.id == id) ≡ false) st.playlists
  pub itemless : All (λ (i : PlaylistItemRecord). (i.playlist_id == id) ≡ false) st.playlist_items
  pub unscheduled : any (λ (s : ScheduleRow). opt_eq s.playlist_id (some id)) st.schedules ≡ false

all_stay {ℓ} :
    {A : Type ℓ} (p : A → Bool) (xs : List A)
    → All (λ x. p x ≡ false) xs
    → filter (λ x. not (p x)) xs ≡ xs
all_stay p [] h = refl
all_stay p (x ∷ xs) h = rw (h.0) (ap (λ ys. x ∷ ys) (all_stay p xs h.1))

-- The deletion undoes the row and the items.
compensated-undoes :
    (created : PlaylistRecord) (st there : Store)
    → IsNewPlaylist created.id st
    → IsFramed created.id (record st { playlists = created ∷ st.playlists }) there
    → ((compensated created.id there).playlists ≡ st.playlists)
      × ((compensated created.id there).playlist_items ≡ st.playlist_items)
      × ((compensated created.id there).schedules ≡ st.schedules)
unfolding delete_playlist_row
compensated-undoes created st there fresh f =
    let named : any (λ (p : PlaylistRecord). p.id == created.id && owned_by none p) there.playlists
        ≡ true =
      rw (f.playlists) (rw (eq_refl created.id) refl) in
    let free : any (λ (s : ScheduleRow). opt_eq s.playlist_id (some created.id)) there.schedules
        ≡ false =
      rw (f.schedules) fresh.unscheduled in
    let row_gone : filter (λ (p : PlaylistRecord). not (p.id == created.id && owned_by none p))
          there.playlists
        ≡ st.playlists =
      rw (f.playlists) (rw (eq_refl created.id) (all_unowned st.playlists fresh.unknown)) in
    rw (named, compensated)
      (rw (free, compensated)
        (
          row_gone,
          f.others
              ∙ all_stay (λ (i : PlaylistItemRecord). i.playlist_id == created.id) st.playlist_items
                  fresh.itemless,
          f.schedules,
        ))
  where
    all_unowned :
        (ps : List PlaylistRecord)
        → All (λ (p : PlaylistRecord). (p.id == created.id) ≡ false) ps
        → filter (λ (p : PlaylistRecord). not (p.id == created.id && owned_by none p)) ps ≡ ps
    all_unowned [] h = refl
    all_unowned (p ∷ ps) h = rw (h.0) (ap (λ qs. p ∷ qs) (all_unowned ps h.1))

-- Where the creation of a playlist with a new id is refused, be it after its row and its items were
-- written, no row of it and none of its items is left, and the other rows are as they were.
pub create_playlist-refused :
    (id : String) (uuid : ℕ → String) (at name : String) (description : Option String)
    (show_counter : Option Bool) (owner : String) (scope : Option String) (items : List NewItem)
    (st : Store) {e : Error}
    → UniqueItems st.playlist_items
    → IsNewPlaylist id st
    → (create_playlist id uuid at name description show_counter owner scope items st).0 ≡ err e
    → ((create_playlist id uuid at name description show_counter owner scope items st).1.playlists
        ≡ st.playlists)
      × ((create_playlist id uuid at name description show_counter owner scope items
            st).1.playlist_items
          ≡ st.playlist_items)
      × ((create_playlist id uuid at name description show_counter owner scope items st).1.schedules
          ≡ st.schedules)
unfolding create_playlist create_playlist_row
create_playlist-refused id uuid at name description show_counter owner scope items st {e} u fresh
      k =
    elim (Result-cases (
      guard (ltb 0 (length items)) (validation "Playlists must contain at least one item.")
      >> or_throw (find_user owner st) (not_found "User not found"))) [
        | inl (f, h) ↦ rw (h, create_playlist) (refl, refl, refl)
        | inr (user, h) ↦
            let (created, before) =
              create_playlist_row id name description (or_else show_counter false) owner at st in
            let writes = map (λ (i : NewItem). new i.content_id i.duration i.loop) items in
            rw (h, create_playlist)
              (finished created user (replace_playlist_items uuid at scope id writes before) fresh
                (replace_playlist_items-IsFramed uuid at scope id writes before u)
                (rw (h, create_playlist) at k))
      ]
  where
    finished :
        (created : PlaylistRecord) (user : UserRecord) (r : Result (List ItemView) × Store)
        → IsNewPlaylist created.id st
        → IsFramed created.id (record st { playlists = created ∷ st.playlists }) r.1
        → (finish_create created user r).0 ≡ err e
        → ((finish_create created user r).1.playlists ≡ st.playlists)
          × ((finish_create created user r).1.playlist_items ≡ st.playlist_items)
          × ((finish_create created user r).1.schedules ≡ st.schedules)
    finished created user (err f, there) new_id framed h =
        compensated-undoes created st there new_id framed
    finished created user (ok views, there) new_id framed h = cc (h)
