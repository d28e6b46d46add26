-- ===== src/Playlists/Items.antt =====
-- application/use-cases/playlists: add-playlist-item, update-playlist-item, delete-playlist-item and
-- reorder-playlist-items. Each has a part that reads and refuses, and one that writes.
use wildfire.Base.{
  String, ◌==◌, Bool, true, false, not, Option, none, some, List, any, find, filter, length, ltb,
  Result, ok, err, validation, not_found, guard, or_throw, ◌>>=◌, ◌>>◌,
}
use wildfire.Base.Int.{ℤ, ltb_ℤ, eq_ℤ, ◌+ℤ◌}
use wildfire.Store.{Store, ContentRecord, ContentStatus, PlaylistItemRecord}
use wildfire.Store.Playlists.{list_items}
use wildfire.Store.Items.{sequence_taken, add_item, update_item, delete_item, reorder_items}
use wildfire.Scheduling.Guards.{find_playlist_scoped, find_content_scoped}
use wildfire.Playlists.{
  is_valid_sequence, is_valid_duration, max_playlist_base_duration_seconds, total_too_long,
  base_duration, assert_playlist_eligible_content, resolve_playlist_item_loop,
  assert_playlist_item_duration_within_content, assert_loop_supported,
  run_playlist_post_mutation_effects, ItemView,
}

abbrev pub is_ready : ContentStatus → Bool
is_ready ContentStatus.ready = true
is_ready _ = false

abbrev pub within_total : ℤ → Bool
within_total total = not (ltb_ℤ max_playlist_base_duration_seconds total)

-- The content that may be added.
unfoldable pub plan_add :
    Option String → String → String → ℤ → ℤ → Option Bool → Store → Result ContentRecord
plan_add owner_id playlist_id content_id sequence duration loop st = do
  guard (is_valid_sequence sequence) (validation "Invalid sequence")
  guard (is_valid_duration duration) (validation "Invalid duration")
  _ ← or_throw (find_playlist_scoped playlist_id owner_id st) (not_found "Playlist not found")
  content ← or_throw (find_content_scoped content_id owner_id st) (not_found "Content not found")
  guard (is_ready content.status) (validation "Only ready content can be added to playlists.")
  assert_playlist_eligible_content content
  assert_playlist_item_duration_within_content content duration
  assert_loop_supported content loop
  guard (within_total (base_duration (list_items playlist_id st) +ℤ duration))
      (validation total_too_long)
  guard
      (not (any (λ (i : PlaylistItemRecord). eq_ℤ i.sequence sequence) (list_items playlist_id st)))
      (validation sequence_taken)
  ok content

abbrev pub finish_add :
    String → ContentRecord → Result PlaylistItemRecord × Store → Result ItemView × Store
finish_add playlist_id content (err e, st) = (err e, st)
finish_add playlist_id content (ok item, st) =
    (ok (item, content), run_playlist_post_mutation_effects playlist_id "playlist_item_added" st)

unfoldable pub add_playlist_item :
    (uuid at : String)
    → Option String
    → (playlist_id content_id : String) → ℤ
    → ℤ
    → Option Bool
    → Store
    → Result ItemView × Store
add_playlist_item uuid at owner_id playlist_id content_id sequence duration loop st =
    elim (plan_add owner_id playlist_id content_id sequence duration loop st) [
      | err e ↦ (err e, st)
      | ok content ↦ finish_add playlist_id content (
          add_item uuid playlist_id content_id sequence duration
            (resolve_playlist_item_loop content) at st)
    ]

-- `if (value !== undefined) check(value)`
abbrev pub where_given {ℓ} : {A : Type ℓ} → Option A → (A → Result (Unit {0})) → Result (Unit {0})
where_given none check = ok tt
where_given (some value) check = check value

abbrev pub others : String → List PlaylistItemRecord → List PlaylistItemRecord
others id items = filter (λ (i : PlaylistItemRecord). not (i.id == id)) items

-- The content of the item that may be changed. Its status is not asked again.
unfoldable pub plan_update :
    String
    → Option String
    → String
    → Option ℤ
    → Option ℤ
    → Option Bool
    → Store
    → Result ContentRecord
plan_update playlist_id owner_id id sequence duration loop st = do
  where_given sequence (λ s. guard (is_valid_sequence s) (validation "Invalid sequence"))
  where_given duration (λ d. guard (is_valid_duration d) (validation "Invalid duration"))
  _ ← or_throw (find_playlist_scoped playlist_id owner_id st) (not_found "Playlist not found")
  existing ←
      or_throw (find (λ (i : PlaylistItemRecord). i.id == id) (list_items playlist_id st))
        (not_found "Playlist item not found")
  content ←
      or_throw (find_content_scoped existing.content_id owner_id st) (not_found "Content not found")
  assert_loop_supported content loop
  where_given duration (λ d. assert_playlist_item_duration_within_content content d)
  where_given duration (λ d.
      guard (within_total (base_duration (others id (list_items playlist_id st)) +ℤ d))
        (validation total_too_long))
  ok content

abbrev pub finish_update :
    ContentRecord → Result (Option PlaylistItemRecord) × Store → Result ItemView × Store
finish_update content (err e, st) = (err e, st)
finish_update content (ok none, st) = (err (not_found "Playlist item not found"), st)
finish_update content (ok (some item), st) = (
  ok (item, content),
  run_playlist_post_mutation_effects item.playlist_id "playlist_item_updated" st,
)

unfoldable pub update_playlist_item :
    String
    → Option String
    → String
    → Option ℤ
    → Option ℤ
    → Option Bool
    → Store
    → Result ItemView × Store
update_playlist_item playlist_id owner_id id sequence duration loop st =
    elim (plan_update playlist_id owner_id id sequence duration loop st) [
      | err e ↦ (err e, st)
      | ok content ↦
          finish_update content
            (update_item id sequence duration (some (resolve_playlist_item_loop content)) st)
    ]

-- The item that may go: a playlist keeps one at least.
unfoldable pub plan_delete : String → Option String → String → Store → Result PlaylistItemRecord
plan_delete playlist_id owner_id id st = do
  _ ← or_throw (find_playlist_scoped playlist_id owner_id st) (not_found "Playlist not found")
  existing ←
      or_throw (find (λ (i : PlaylistItemRecord). i.id == id) (list_items playlist_id st))
        (not_found "Playlist item not found")
  guard (ltb 1 (length (list_items playlist_id st)))
      (validation "Playlists must contain at least one item.")
  ok existing

abbrev pub finish_delete : PlaylistItemRecord → Bool × Store → Result (Unit {0}) × Store
finish_delete existing (false, st) = (err (not_found "Playlist item not found"), st)
finish_delete existing (true, st) =
    (ok tt, run_playlist_post_mutation_effects existing.playlist_id "playlist_item_deleted" st)

unfoldable pub delete_playlist_item :
    String → String → Option String → String → Store → Result (Unit {0}) × Store
delete_playlist_item at playlist_id owner_id id st = elim (plan_delete playlist_id owner_id id st) [
  | err e ↦ (err e, st)
  | ok existing ↦ finish_delete existing (delete_item id at st)
]

abbrev pub finish_reorder : String → Result Bool × Store → Result (Unit {0}) × Store
finish_reorder playlist_id (err e, st) = (err e, st)
finish_reorder playlist_id (ok false, st) =
    (err (validation "Invalid playlist reorder payload"), st)
finish_reorder playlist_id (ok true, st) =
    (ok tt, run_playlist_post_mutation_effects playlist_id "playlist_items_reordered" st)

unfoldable pub reorder_playlist_items :
    Option String → String → List String → Store → Result (Unit {0}) × Store
reorder_playlist_items owner_id playlist_id ids st =
    elim (find_playlist_scoped playlist_id owner_id st) [
      | none ↦ (err (not_found "Playlist not found"), st)
      | some _ ↦ finish_reorder playlist_id (reorder_items playlist_id ids st)
    ]
