-- ===== src/Store.antt =====
-- The tables of infrastructure/db/schema that scheduling works on, as lists of rows, and the log
-- of published events. A statement of the repositories is a function of the tables.
pub mod Schedules
pub mod Contents
pub mod Playlists
pub mod Items
pub mod Replace
use wildfire.Base.{ℕ, String, Bool, Option, List}
use wildfire.Base.Int.{ℤ}

pub data PlaylistStatus : Type 0 where
  draft in_use : PlaylistStatus

pub data ContentType : Type 0 where
  image video flash text : ContentType

pub data ContentStatus : Type 0 where
  processing ready failed : ContentStatus

-- schedule.sql.ts: `schedules` joined with its two target tables, whose key is the schedule's id.
pub record ScheduleRow : Type 0 where
  pub id : String
  pub name : String
  pub display_id : String
  pub created_by : String
  pub start_date : String
  pub end_date : String
  pub start_time : String
  pub end_time : String
  pub created_at : String
  pub updated_at : String
  pub playlist_id : Option String
  pub content_id : Option String

pub record PlaylistRecord : Type 0 where
  pub id : String
  pub name : String
  pub description : Option String
  pub owner_id : String
  pub status : PlaylistStatus
  pub show_counter : Bool
  pub created_at : String
  pub updated_at : String
  pub unused_since : Option String

pub record PlaylistItemRecord : Type 0 where
  pub id : String
  pub playlist_id : String
  pub content_id : String
  pub sequence : ℤ
  pub duration : ℤ
  pub loop : Bool

pub record ContentRecord : Type 0 where
  pub id : String
  pub title : String
  pub type : ContentType
  pub status : ContentStatus
  pub owner_id : String
  pub duration : Option ℕ
  pub flash_message : Option String
  pub flash_tone : Option String
  pub updated_at : String
  pub unused_since : Option String

pub record DisplayRecord : Type 0 where
  pub id : String
  pub name : String

pub record UserRecord : Type 0 where
  pub id : String
  pub username : String
  pub name : String

pub data Event : Type 0 where
  -- To the displays' streams, with the display and the reason.
  schedule_updated playlist_updated : String → String → Event
  -- To the administrators' stream.
  playlist_status_changed : String → PlaylistStatus → Event

pub record Store : Type 0 where
  pub schedules : List ScheduleRow
  -- As `list` reads them, the latest first.
  pub playlists : List PlaylistRecord
  pub playlist_items : List PlaylistItemRecord
  pub contents : List ContentRecord
  pub displays : List DisplayRecord
  pub users : List UserRecord
  -- The content of each emergency slot.
  pub emergency_slots : List (Option String)
  -- What was published, the latest first.
  pub published : List Event

abbrev pub status_eq : PlaylistStatus → PlaylistStatus → Bool
status_eq draft draft = Bool.true
status_eq in_use in_use = Bool.true
status_eq _ _ = Bool.false

abbrev pub publish : Event → Store → Store
publish e st = record st { published = List.◌∷◌ e st.published }
