-- ===== src/Store/Playlists.antt =====
-- infrastructure/db/repositories/playlist.repo.ts: the playlists, and the list of a playlist's
-- items.
use wildfire.Base.{
  truthy, String, ◌==◌, ◌&&◌, Option, List, map, find, filter, if◌then◌else◌, some, none, or_else,
  sort_by, not, Bool, true, false, any, opt_eq, ◌∷◌,
}
use wildfire.Base.Int.{ltb_ℤ}
use wildfire.Store.{Store, PlaylistRecord, PlaylistItemRecord, PlaylistStatus, draft, in_use}

unfoldable pub find_playlist : String → Store → Option PlaylistRecord
find_playlist id st = find (λ p. p.id == id) st.playlists

unfoldable pub find_playlist_for_owner : String → String → Store → Option PlaylistRecord
find_playlist_for_owner id owner st = find (λ p. p.id == id && p.owner_id == owner) st.playlists

-- `status === "IN_USE" ? null : coalesce(unused_since, now())`
abbrev status_unused_since : PlaylistStatus → Option String → String → Option String
status_unused_since in_use since at = none
status_unused_since draft since at = some (or_else since at)

unfoldable pub update_status : String → PlaylistStatus → String → Store → Store
update_status id status at st = record st {
  playlists =
      map
        (λ p.
          if p.id == id
          then record p {
            status = status;
            unused_since = status_unused_since status p.unused_since at;
          }
          else p)
        st.playlists;
}

unfoldable pub list_items : String → Store → List PlaylistItemRecord
list_items playlist_id st =
    sort_by (λ a b. not (ltb_ℤ b.sequence a.sequence))
      (filter (λ i. i.playlist_id == playlist_id) st.playlist_items)

abbrev pub owned_by : Option String → PlaylistRecord → Bool
owned_by owner_id p = elim (truthy owner_id) [ none ↦ true | some owner ↦ p.owner_id == owner ]

unfoldable pub create_playlist_row :
    String → String → Option String → Bool → String → String → Store → PlaylistRecord × Store
create_playlist_row id name description show_counter owner_id at st =
    let created : PlaylistRecord = record {
      id = id;
      name = name;
      description = description;
      owner_id = owner_id;
      status = draft;
      show_counter = show_counter;
      created_at = at;
      updated_at = at;
      unused_since = some at;
    } in
    (created, record st { playlists = created ∷ st.playlists })

abbrev pub is_draft : PlaylistStatus → Bool
is_draft draft = true
is_draft in_use = false

-- What `updateInternal` writes; a description that is not given stays.
abbrev pub updated_row :
    Option String → Option (Option String) → Option Bool → String → PlaylistRecord → PlaylistRecord
updated_row name description show_counter at p = record p {
  name = or_else name p.name;
  description = or_else description p.description;
  show_counter = or_else show_counter p.show_counter;
  updated_at = at;
}

-- The answer is not read again: its `unusedSince` is not among its columns.
unfoldable pub update_playlist_row :
    String
    → Option String
    → Option String
    → Option (Option String)
    → Option Bool
    → String
    → Store
    → Option PlaylistRecord × Store
update_playlist_row id owner_id name description show_counter at st =
    elim (find (λ p. p.id == id && owned_by owner_id p) st.playlists) [
      | none ↦ (none, st)
      | some existing ↦
          let next = updated_row name description show_counter at existing in
          let write : PlaylistRecord → PlaylistRecord = λ p. record p {
            name = next.name;
            description = next.description;
            show_counter = next.show_counter;
            updated_at = at;
            unused_since = if is_draft existing.status then some at else none;
          } in
          (
            some next,
            record st {
              playlists =
                  map (λ p. if p.id == id && owned_by owner_id p then write p else p) st.playlists;
            },
          )
    ]

-- The items of a deleted playlist go with it. `none`: a schedule's target still names it, and the
-- foreign key refuses. The `bool` says whether a row was deleted.
unfoldable pub delete_playlist_row : String → Option String → Store → Option (Bool × Store)
delete_playlist_row id owner_id st =
    if not (any (λ p. p.id == id && owned_by owner_id p) st.playlists)
    then some (false, st)
    else if any (λ s. opt_eq s.playlist_id (some id)) st.schedules
    then none
    else some (
      true,
      record st {
        playlists = filter (λ p. not (p.id == id && owned_by owner_id p)) st.playlists;
        playlist_items = filter (λ i. not (i.playlist_id == id)) st.playlist_items;
      },
    )
