-- ===== src/Scheduling/Invariant/Frames.antt =====
-- The upkeep of contents, playlists and events leaves the schedules' table alone.
use wildfire.Base.{
  distinct, ◌≡◌, refl, ◌∙◌, String, List, [], ◌∷◌, ◌++◌, Option, none, some, arith, Result, ok, err,
}
use wildfire.Schedule.{ScheduleRecord}
use wildfire.Store.{Store, PlaylistStatus, PlaylistRecord}
use wildfire.Store.Contents.{mark_content_used, refresh_content_unused_since}
use wildfire.Store.Playlists.{update_status}
use wildfire.Store.Schedules.{mark_target_used, refresh_replaced, after_update, content_of}
use wildfire.Scheduling.Reconcile.{set_status, reconcile_one, reconcile_loop, reconcile}
use wildfire.Scheduling.Mutations.{Deps, Call, release_playlist, run_reconcile}
use wildfire.Scheduling.Mutations.Create.{playlist_in_use}
use wildfire.Scheduling.Mutations.Delete.{after_removal}
use wildfire.Scheduling.Mutations.Update.{
  playlists_moved, leave_playlist, enter_playlist, move_playlist, present,
}

pub mark_content_used-schedules :
    (ids : List String) (at : String) (st : Store)
    → (mark_content_used ids at st).schedules ≡ st.schedules
unfolding mark_content_used
mark_content_used-schedules ids at st = refl

pub refresh-schedules :
    (ids : List String) (at : String) (st : Store)
    → (refresh_content_unused_since ids at st).schedules ≡ st.schedules
unfolding refresh_content_unused_since
refresh-schedules ids at st = refl

set_status-schedules :
    (id : String) (status : PlaylistStatus) (at : String) (st : Store)
    → (set_status id status at st).schedules ≡ st.schedules
unfolding set_status update_status
set_status-schedules id status at st = refl

reconcile_one-schedules :
    (date time at id : String) (st : Store)
    → (reconcile_one date time at id st).1.schedules ≡ st.schedules
unfolding reconcile_one
reconcile_one-schedules date time at id st = ground (
  arith,
  set_status-schedules id PlaylistStatus.draft at st,
  set_status-schedules id PlaylistStatus.in_use at st,
)

reconcile_loop-schedules :
    (date time at : String) (ids : List String) (st : Store)
    → (reconcile_loop date time at ids st).1.schedules ≡ st.schedules
unfolding reconcile_loop
reconcile_loop-schedules date time at [] st = refl
reconcile_loop-schedules date time at (id ∷ ids) st =
    reconcile_loop-schedules date time at ids (reconcile_one date time at id st).1
    ∙ reconcile_one-schedules date time at id st

pub run_reconcile-schedules :
    (deps : Deps) (call : Call) (ids : List String) (st : Store)
    → (run_reconcile deps call ids st).schedules ≡ st.schedules
unfolding run_reconcile reconcile
run_reconcile-schedules deps call ids st = reconcile_loop-schedules _ _ _ _ st

release_playlist-schedules :
    (id at : String) (st : Store) → (release_playlist id at st).schedules ≡ st.schedules
unfolding release_playlist
release_playlist-schedules id at st =
    ground (arith, set_status-schedules id PlaylistStatus.draft at st)

pub playlist_in_use-schedules :
    (deps : Deps) (call : Call) (p : Option PlaylistRecord) (st : Store)
    → (playlist_in_use deps call p st).schedules ≡ st.schedules
unfolding playlist_in_use
playlist_in_use-schedules deps call none st = refl
playlist_in_use-schedules deps call (some p) st = ground (
  arith,
  run_reconcile-schedules deps call (p.id ∷ []) st,
  set_status-schedules p.id PlaylistStatus.in_use call.at st,
)

pub after_removal-schedules :
    (deps : Deps) (call : Call) (p : Option String) (st : Store)
    → (after_removal deps call p st).schedules ≡ st.schedules
unfolding after_removal
after_removal-schedules deps call none st = refl
after_removal-schedules deps call (some id) st = ground (
  arith,
  run_reconcile-schedules deps call (id ∷ []) st,
  release_playlist-schedules id call.at st,
)

pub mark_target_used-schedules :
    (c : Option String) (at : String) (st : Store)
    → (mark_target_used c at st).schedules ≡ st.schedules
mark_target_used-schedules none at st = refl
mark_target_used-schedules (some c) at st =
    ground (arith, mark_content_used-schedules (c ∷ []) at st)

pub refresh_replaced-schedules :
    (before after : Option String) (at : String) (st : Store)
    → (refresh_replaced before after at st).schedules ≡ st.schedules
refresh_replaced-schedules none after at st = refl
refresh_replaced-schedules (some c) after at st = ground (arith, refresh-schedules (c ∷ []) at st)

leave_playlist-schedules :
    (call : Call) (before after : Option String) (st : Store)
    → (leave_playlist call before after st).schedules ≡ st.schedules
leave_playlist-schedules call none after st = refl
leave_playlist-schedules call (some id) after st =
    ground (arith, release_playlist-schedules id call.at st)

enter_playlist-schedules :
    (call : Call) (after : Option String) (st : Store)
    → (enter_playlist call after st).schedules ≡ st.schedules
enter_playlist-schedules call none st = refl
enter_playlist-schedules call (some id) st =
    ground (arith, set_status-schedules id PlaylistStatus.in_use call.at st)

move_playlist-schedules :
    (call : Call) (before after : Option String) (st : Store)
    → (move_playlist call before after st).schedules ≡ st.schedules
unfolding move_playlist
move_playlist-schedules call before after st =
    enter_playlist-schedules call after (leave_playlist call before after st)
    ∙ leave_playlist-schedules call before after st

pub playlists_moved-schedules :
    (deps : Deps) (call : Call) (before after : Option String) (st : Store)
    → (playlists_moved deps call before after st).schedules ≡ st.schedules
unfolding playlists_moved
playlists_moved-schedules deps call before after st = ground (
  arith,
  move_playlist-schedules call before after st,
  run_reconcile-schedules deps call (distinct (present before ++ present after)) st,
)

pub after_update-schedules :
    (existing : ScheduleRecord) (r : Result (Option ScheduleRecord)) (at : String) (st : Store)
    → (after_update existing r at st).1.schedules ≡ st.schedules
after_update-schedules existing (err e) at st = refl
after_update-schedules existing (ok u) at st =
    refresh_replaced-schedules existing.content_id (content_of u) at
      (mark_target_used (content_of u) at st)
    ∙ mark_target_used-schedules (content_of u) at st
