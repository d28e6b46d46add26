-- ===== src/Store/Schedules.antt =====
-- infrastructure/db/repositories/schedule.repo.ts. `ORDER BY created_at DESC` is `sort_by` a
-- comparator that the caller gives: ties, and the resolution of a timestamp, are the database's.
use wildfire.Base.{
  ℕ, String, ◌==◌, Bool, true, false, not, ◌&&◌, ◌||◌, Option, none, some, List, [], ◌∷◌, map, find,
  filter, length, eqb, sort_by, opt_eq, truthy, str_lt, str_le, if◌then◌else◌, Result, ok, err,
  validation, fault, ◌>>=◌, ◌>>◌,
}
use wildfire.Schedule.{SchedulableKind, playlist, flash, ScheduleRecord}
use wildfire.Store.{Store, ScheduleRow}
use wildfire.Store.Contents.{mark_content_used, refresh_content_unused_since}

-- `resolveKind`: exactly one target is set.
unfoldable pub resolve_kind : Option String → Option String → Result SchedulableKind
resolve_kind (some _) none = ok playlist
resolve_kind none (some _) = ok flash
resolve_kind _ _ = err (validation "Invalid schedule target: expected exactly one target")

abbrev pub to_record : ScheduleRow → SchedulableKind → ScheduleRecord
to_record row kind = record {
  id = row.id;
  name = row.name;
  kind = some kind;
  playlist_id = row.playlist_id;
  content_id = row.content_id;
  display_id = row.display_id;
  created_by = some row.created_by;
  start_date = some row.start_date;
  end_date = some row.end_date;
  start_time = row.start_time;
  end_time = row.end_time;
  created_at = row.created_at;
  updated_at = row.updated_at;
}

unfoldable pub map_schedule_row : ScheduleRow → Result ScheduleRecord
map_schedule_row row = do
  kind ← resolve_kind row.playlist_id row.content_id
  ok (to_record row kind)

unfoldable pub map_schedule_rows : List ScheduleRow → Result (List ScheduleRecord)
map_schedule_rows [] = ok []
map_schedule_rows (row ∷ rows) = do ok ((← map_schedule_row row) ∷ (← map_schedule_rows rows))

unfoldable pub list_by_display :
    (ScheduleRow → ScheduleRow → Bool) → String → Store → Result (List ScheduleRecord)
list_by_display newer display_id st =
    map_schedule_rows (sort_by newer (filter (λ r. r.display_id == display_id) st.schedules))

unfoldable pub list_by_playlist : String → Store → Result (List ScheduleRecord)
list_by_playlist playlist_id st =
    map_schedule_rows (filter (λ r. opt_eq r.playlist_id (some playlist_id)) st.schedules)

unfoldable pub find_schedule : String → Store → Result (Option ScheduleRecord)
find_schedule id st = elim (find (λ r. r.id == id) st.schedules) [
  | none ↦ ok none
  | some row ↦ do found ← map_schedule_row row; ok (some found)
]

unfoldable pub assert_valid_target :
    SchedulableKind → Option String → Option String → Result (Unit {0})
assert_valid_target playlist (some _) none = ok tt
assert_valid_target playlist _ _ = err (validation "Playlist schedules require playlistId only")
assert_valid_target flash none (some _) = ok tt
assert_valid_target flash _ _ = err (validation "Flash schedules require contentId only")

-- The falsy test on the target inside the transaction: an exception there rolls it back.
unfoldable pub require_target : SchedulableKind → Option String → Option String → Result (Unit {0})
require_target playlist playlist_id content_id = elim (truthy playlist_id) [
  | none ↦ err (fault "playlistId required for PLAYLIST schedule")
  | some _ ↦ ok tt
]
require_target flash playlist_id content_id = elim (truthy content_id) [
  | none ↦ err (fault "contentId required for FLASH schedule")
  | some _ ↦ ok tt
]

-- The columns that `create` and `update` are given.
pub record ScheduleValues : Type 0 where
  pub name : String
  pub kind : SchedulableKind
  pub playlist_id : Option String
  pub content_id : Option String
  pub display_id : String
  pub start_date : String
  pub end_date : String
  pub start_time : String
  pub end_time : String

-- Only the target table of the kind gets a row.
abbrev pub playlist_target : ScheduleValues → Option String
playlist_target v = elim v.kind [ playlist ↦ v.playlist_id | flash ↦ none ]

abbrev pub content_target : ScheduleValues → Option String
content_target v = elim v.kind [ playlist ↦ none | flash ↦ v.content_id ]

abbrev pub new_row : String → String → String → ScheduleValues → ScheduleRow
new_row id created_by now v = record {
  id = id;
  name = v.name;
  display_id = v.display_id;
  created_by = created_by;
  start_date = v.start_date;
  end_date = v.end_date;
  start_time = v.start_time;
  end_time = v.end_time;
  created_at = now;
  updated_at = now;
  playlist_id = playlist_target v;
  content_id = content_target v;
}

abbrev pub mark_target_used : Option String → String → Store → Store
mark_target_used content_id now st = elim (truthy content_id) [
  | none ↦ st
  | some id ↦ mark_content_used (id ∷ []) now st
]

abbrev loaded : Result (Option ScheduleRecord) → Result ScheduleRecord
loaded (ok (some s)) = ok s
loaded (ok none) = err (fault "Failed to load created schedule")
loaded (err e) = err e

abbrev after_insert : Result ScheduleRecord → String → Store → Result ScheduleRecord × Store
after_insert (ok s) now st = (ok s, mark_target_used s.content_id now st)
after_insert (err e) now st = (err e, st)

-- `id` is the random UUID and `now` the time of the call.
unfoldable pub create_row :
    String → String → String → ScheduleValues → Store → Result ScheduleRecord × Store
create_row id created_by now v st =
    elim (assert_valid_target v.kind v.playlist_id v.content_id
      >> require_target v.kind v.playlist_id v.content_id) [
        | err e ↦ (err e, st)
        | ok _ ↦
            let st' : Store = record st {
              schedules = new_row id created_by now v ∷ st.schedules;
            } in
            after_insert (loaded (find_schedule id st')) now st'
      ]

abbrev pub update_row_values : ScheduleValues → String → ScheduleRow → ScheduleRow
update_row_values v now r = record r {
  name = v.name;
  display_id = v.display_id;
  start_date = v.start_date;
  end_date = v.end_date;
  start_time = v.start_time;
  end_time = v.end_time;
  updated_at = now;
  playlist_id = playlist_target v;
  content_id = content_target v;
}

-- Content that the schedule no longer shows may have become unused.
abbrev pub refresh_replaced : Option String → Option String → String → Store → Store
refresh_replaced before after now st = elim (truthy before) [
  | none ↦ st
  | some id ↦ if opt_eq before after then st else refresh_content_unused_since (id ∷ []) now st
]

abbrev pub content_of : Option ScheduleRecord → Option String
content_of none = none
content_of (some s) = s.content_id

abbrev pub after_update :
    ScheduleRecord
    → Result (Option ScheduleRecord)
    → String
    → Store
    → Result (Option ScheduleRecord) × Store
after_update existing (err e) now st = (err e, st)
after_update existing (ok updated) now st = (
  ok updated,
  refresh_replaced existing.content_id (content_of updated) now
      (mark_target_used (content_of updated) now st),
)

-- `update`, given all the columns, as its one caller gives them.
unfoldable pub update_row :
    String → String → ScheduleValues → Store → Result (Option ScheduleRecord) × Store
update_row id now v st = elim (find_schedule id st) [
  | err e ↦ (err e, st)
  | ok none ↦ (ok none, st)
  | ok (some existing) ↦
      elim (assert_valid_target v.kind v.playlist_id v.content_id
        >> require_target v.kind v.playlist_id v.content_id) [
          | err e ↦ (err e, st)
          | ok _ ↦
              let st' : Store = record st {
                schedules =
                    map (λ r. if r.id == id then update_row_values v now r else r) st.schedules;
              } in
              after_update existing (find_schedule id st') now st'
        ]
]

abbrev pub after_delete : Option ScheduleRecord → Bool → String → Store → Bool × Store
after_delete existing false now st = (false, st)
after_delete existing true now st = (
  true,
  elim (truthy (content_of existing)) [
    | none ↦ st
    | some id ↦ refresh_content_unused_since (id ∷ []) now st
  ],
)

-- The result says whether a row was deleted.
unfoldable pub delete_row : String → String → Store → Result Bool × Store
delete_row id now st = elim (find_schedule id st) [
  | err e ↦ (err e, st)
  | ok existing ↦
      let st' : Store = record st { schedules = filter (λ r. not (r.id == id)) st.schedules } in
      let deleted = not (eqb (length st'.schedules) (length st.schedules)) in
      let (answer, st'') = after_delete existing deleted now st' in (ok answer, st'')
]

unfoldable pub count_by_playlist : String → Store → ℕ
count_by_playlist playlist_id st =
    length (filter (λ r. opt_eq r.playlist_id (some playlist_id)) st.schedules)

-- `unfinishedAtOrAfterCondition`
abbrev pub unfinished_at : String → String → ScheduleRow → Bool
unfinished_at date time r = str_lt date r.end_date || r.end_date == date && str_le time r.end_time

unfoldable pub count_unfinished_by_playlist : String → String → String → Store → ℕ
count_unfinished_by_playlist playlist_id date time st = length (
    filter (λ r. opt_eq r.playlist_id (some playlist_id) && unfinished_at date time r) st.schedules)
