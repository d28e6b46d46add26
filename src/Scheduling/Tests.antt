-- ===== src/Scheduling/Tests.antt =====
-- Runs of the theorems on a display with two FLASH schedules that touch, and a playlist.
use wildfire.Base.{
  find, trim, ◌≡◌, ◌⊎◌, refl, true, false, not, String, ◌==◌, none, some, List, [], ◌∷◌, map,
  filter, differs, ok, err, Error, ◌>>=◌, units, units_lt, split_at, parse_int, skip_white, str_lt,
  is_white, if◌then◌else◌,
}
use wildfire.Base.Int.{◌+ℤ◌, scale}
use wildfire.Schedule.{
  ScheduleRecord, flash, is_valid_time, matches_time, is_valid_date, matches_date,
}
use wildfire.Store.{
  Store, Event, ScheduleRow, PlaylistStatus, ContentType, ContentStatus, schedule_updated,
}
use wildfire.Store.Schedules.{find_schedule}
use wildfire.Scheduling.{
  windows_conflict, has_date_range_overlap, has_time_range_overlap, to_daily_time_segments,
  parse_time_to_seconds, parse_seconds, segments, segments_overlap,
}
use wildfire.Scheduling.Invariant.Reach.{here, next, created, updated, deleted, Reach-IsConsistent}
use wildfire.Scheduling.Invariant.{IsConsistent, IsWellFormed, window_of}
use wildfire.Scheduling.Mutations.{Deps, Call, ScheduleView}
use wildfire.Scheduling.Mutations.Create.{CreateInput, create_schedule}
use wildfire.Scheduling.Mutations.Update.{UpdateInput, update_schedule}
use wildfire.Scheduling.Mutations.Delete.{delete_schedule}
use wildfire.Scheduling.Invariant.Create.{create_schedule_atomic}
use wildfire.Scheduling.Invariant.Updated.{given_row, update_schedule_rows}
use wildfire.Scheduling.Invariant.Delete.{delete_schedule_atomic}

abbrev row : String → String → String → ScheduleRow
row id start end = record {
  id = id;
  name = "Row";
  display_id = "d1";
  created_by = "u1";
  start_date = "2025-01-01";
  end_date = "2025-12-31";
  start_time = start;
  end_time = end;
  created_at = "2025";
  updated_at = "2025";
  playlist_id = none;
  content_id = some "c1";
}

abbrev pub early : ScheduleRow
early = row "s1" "08:00" "09:00"

abbrev pub late : ScheduleRow
late = row "s2" "09:00" "10:00"

abbrev pub store : Store
store = record {
  schedules = early ∷ late ∷ [];
  playlists =
      (record {
        id = "p1";
        name = "List";
        description = none;
        owner_id = "u1";
        status = PlaylistStatus.in_use;
        show_counter = false;
        created_at = "2025";
        updated_at = "2025";
        unused_since = none;
      })
      ∷ [];
  playlist_items = [];
  contents =
      (record {
        id = "c1";
        title = "Notice";
        type = ContentType.flash;
        status = ContentStatus.ready;
        owner_id = "u1";
        duration = none;
        flash_message = some "Hello";
        flash_tone = none;
        updated_at = "2025";
        unused_since = none;
      })
      ∷ [];
  displays = (record { id = "d1"; name = "Hall" }) ∷ [];
  users = [];
  emergency_slots = [];
  published = [];
}

abbrev pub deps : Deps
deps = record {
  intl = record {
    time_parts = λ _ _. [];
    date_parts = λ _ _. [];
    date_time_parts = λ _ _. [];
    locale_le = λ _ _. true;
  };
  newer = λ _ _. true;
  timezone = none;
  reconciles = true;
  has_users = false;
}

abbrev call : Call
call = record { now = 0; uuid = "s3"; at = "2025" }

row-IsWellFormed :
    (id start end : String)
    → is_valid_time start ≡ true
    → is_valid_time end ≡ true
    → str_lt start end ≡ true
    → IsWellFormed (row id start end)
unfolding is_valid_time matches_time is_valid_date matches_date units units_lt
row-IsWellFormed id start end a b c = record {
  start_valid = a;
  end_valid = b;
  forward = c;
  first_valid = refl;
  last_valid = refl;
  dates_forward = refl;
  target = differs "c1" "" refl;
}

pub early_and_late : windows_conflict (window_of early) (window_of late) ≡ ok false
unfolding is_valid_time matches_time is_valid_date matches_date units units_lt windows_conflict
    has_date_range_overlap has_time_range_overlap to_daily_time_segments parse_time_to_seconds
    parse_seconds split_at parse_int skip_white is_white segments segments_overlap ◌>>=◌ ◌+ℤ◌ scale
early_and_late = refl

pub store-IsConsistent : IsConsistent store
unfolding is_valid_time matches_time is_valid_date matches_date units units_lt
store-IsConsistent = record {
  well_formed = (
    row-IsWellFormed "s1" "08:00" "09:00" refl refl refl,
    (row-IsWellFormed "s2" "09:00" "10:00" refl refl refl, tt),
  );
  unique = ((refl, tt), (tt, tt));
  exclusive = ((early_and_late, tt), (tt, tt));
}

abbrev input : CreateInput
input = record {
  owner_id = some "u1";
  actor_is_admin = false;
  name = "New";
  kind = flash;
  playlist_id = none;
  content_id = some "c1";
  display_id = "d1";
  start_date = none;
  end_date = none;
  start_time = "10:00";
  end_time = "11:00";
}

create_schedule_atomic_example :
    ((e : Error) × (create_schedule deps call input store ≡ (err e, store)))
    ⊎ ((view : ScheduleView) × (r : ScheduleRow) × ((create_schedule deps call input store).0
          ≡ ok view)
        × ((create_schedule deps call input store).1.schedules ≡ r ∷ store.schedules)
        × (r.id ≡ "s3")
        × (r.name ≡ trim "New")
        × (r.display_id ≡ "d1")
        × (r.start_time ≡ "10:00")
        × (r.end_time ≡ "11:00"))
create_schedule_atomic_example = create_schedule_atomic deps call input store

abbrev change : UpdateInput
change = record {
  id = "s1";
  owner_id = none;
  name = none;
  kind = none;
  playlist_id = none;
  content_id = none;
  display_id = none;
  start_date = none;
  end_date = none;
  start_time = some "08:15";
  end_time = none;
}

update_schedule_rows_example :
    ((e : Error) × (update_schedule deps call change store ≡ (err e, store)))
    ⊎ ((row : ScheduleRow) × (view : ScheduleView) × (earlier : List Event) × (find
            (λ r. r.id == "s1")
            store.schedules
          ≡ some row)
        × ((update_schedule deps call change store).0 ≡ ok view)
        × ((update_schedule deps call change store).1.schedules
            ≡ map (λ r. if r.id == "s1" then given_row change "2025" row r else r) store.schedules)
        × ((update_schedule deps call change store).1.published
            ≡ schedule_updated row.display_id "schedule_updated" ∷ earlier))
update_schedule_rows_example = update_schedule_rows deps call change store

abbrev with_third : Store
with_third = (create_schedule deps call input store).1

abbrev changed : Store
changed = (update_schedule deps call change with_third).1

Reach-IsConsistent_example : IsConsistent (delete_schedule deps call "s2" none changed).1
Reach-IsConsistent_example = Reach-IsConsistent deps store store-IsConsistent (
    next (next (next here (created call input (refl, (refl, tt)))) (updated call change))
      (deleted call "s2" none))

delete_schedule_atomic_example :
    ((e : Error) × (delete_schedule deps call "s1" none store ≡ (err e, store)))
    ⊎ ((existing : ScheduleRecord) × (earlier : List Event) × (find_schedule "s1" store
          ≡ ok (some existing))
        × ((delete_schedule deps call "s1" none store).0 ≡ ok tt)
        × ((delete_schedule deps call "s1" none store).1.schedules
            ≡ filter (λ r. not (r.id == "s1")) store.schedules)
        × ((delete_schedule deps call "s1" none store).1.published
            ≡ schedule_updated existing.display_id "schedule_deleted" ∷ earlier))
delete_schedule_atomic_example = delete_schedule_atomic deps call "s1" none store
