-- ===== src/Playlists/Replacement.antt =====
-- application/use-cases/playlists/replace-playlist-items.use-case.ts and create-playlist.use-case.ts.
-- Thumbnails, which the view of an item may name, are the storage's.
use wildfire.Base.{
  ℕ, String, ◌==◌, Bool, false, not, Option, none, some, List, [], ◌∷◌, map, any, find, length, ltb,
  includes, distinct, truthy, or_else, Result, ok, err, validation, not_found, guard, or_throw,
  check_each, ◌>>=◌, ◌>>◌,
}
use wildfire.Base.Int.{ℤ, pos, ◌+ℤ◌}
use wildfire.Store.{Store, ContentRecord, PlaylistItemRecord, PlaylistRecord, UserRecord}
use wildfire.Store.Playlists.{list_items, create_playlist_row, delete_playlist_row}
use wildfire.Store.Items.{Rows}
use wildfire.Store.Replace.{ItemWrite, existing, new, write_duration, replace_items_atomic}
use wildfire.Scheduling.Guards.{find_playlist_scoped}
use wildfire.Playlists.{
  is_valid_duration, total_too_long, base_duration, assert_playlist_eligible_content,
  resolve_playlist_item_loop, assert_playlist_item_duration_within_content, assert_loop_supported,
  find_contents_scoped, run_playlist_post_mutation_effects, ItemView,
}
use wildfire.Playlists.Items.{is_ready, within_total}

unfoldable pub proposed_duration : List ItemWrite → ℤ
proposed_duration [] = pos 0
proposed_duration (item ∷ items) = write_duration item +ℤ proposed_duration items

-- The contents that the items show. An item that is kept must be one of the playlist, named once.
unfoldable pub requested_contents : Rows → List String → List ItemWrite → Result (List String)
requested_contents old seen [] = ok []
requested_contents old seen (existing id duration loop ∷ items) = do
  guard (not (includes seen id)) (validation "Duplicate playlist item id")
  item ←
      or_throw (find (λ (i : PlaylistItemRecord). i.id == id) old)
        (validation "Invalid playlist item payload")
  rest ← requested_contents old (id ∷ seen) items
  ok (item.content_id ∷ rest)
requested_contents old seen (new content_id duration loop ∷ items) = do
  rest ← requested_contents old seen items
  ok (content_id ∷ rest)

abbrev pub content_by_id : List ContentRecord → String → Option ContentRecord
content_by_id contents id = find (λ (c : ContentRecord). c.id == id) contents

unfoldable pub require_ready : List ContentRecord → ItemWrite → Result (Unit {0})
require_ready contents (existing id duration loop) = ok tt
require_ready contents (new content_id duration loop) = do
  content ← or_throw (content_by_id contents content_id) (not_found "Content not found")
  guard (is_ready content.status) (validation "Only ready content can be added to playlists.")

abbrev content_id_of : Rows → ItemWrite → Option String
content_id_of old (existing id duration loop) =
    elim (find (λ (i : PlaylistItemRecord). i.id == id) old) [
      | none ↦ none
      | some item ↦ some item.content_id
    ]
content_id_of old (new content_id duration loop) = some content_id

-- The content of an item, where there is one.
unfoldable pub content_of_write : Rows → List ContentRecord → ItemWrite → Option ContentRecord
content_of_write old contents item = elim (truthy (content_id_of old item)) [
  | none ↦ none
  | some id ↦ content_by_id contents id
]

abbrev pub write_loop : ItemWrite → Option Bool
write_loop (existing id duration loop) = loop
write_loop (new content_id duration loop) = loop

unfoldable pub check_write : Rows → List ContentRecord → ItemWrite → Result (Unit {0})
check_write old contents item = elim (content_of_write old contents item) [
  | none ↦ ok tt
  | some content ↦
      assert_playlist_item_duration_within_content content (write_duration item)
      >> assert_loop_supported content (write_loop item)
]

abbrev pub with_loop : Bool → ItemWrite → ItemWrite
with_loop looped (existing id duration loop) = existing id duration (some looped)
with_loop looped (new content_id duration loop) = new content_id duration (some looped)

-- Whatever was asked, videos loop and nothing else does.
unfoldable pub normalized : Rows → List ContentRecord → ItemWrite → ItemWrite
normalized old contents item = elim (content_of_write old contents item) [
  | none ↦ with_loop false item
  | some content ↦ with_loop (resolve_playlist_item_loop content) item
]

-- The items to write.
unfoldable pub plan_replace :
    Option String → String → List ItemWrite → Store → Result (List ItemWrite)
plan_replace owner_id playlist_id items st = do
  guard (ltb 0 (length items)) (validation "Playlists must contain at least one item.")
  _ ← or_throw (find_playlist_scoped playlist_id owner_id st) (not_found "Playlist not found")
  check_each (λ i. guard (is_valid_duration (write_duration i)) (validation "Invalid duration"))
      items
  guard (within_total (proposed_duration items)) (validation total_too_long)
  ids ← requested_contents (list_items playlist_id st) [] items
  check_each
      (λ id.
        guard
          (any (λ (c : ContentRecord). c.id == id)
            (find_contents_scoped (distinct ids) owner_id st))
          (not_found "Content not found"))
      (distinct ids)
  check_each assert_playlist_eligible_content (find_contents_scoped (distinct ids) owner_id st)
  check_each (require_ready (find_contents_scoped (distinct ids) owner_id st)) items
  check_each
      (check_write (list_items playlist_id st) (find_contents_scoped (distinct ids) owner_id st))
      items
  ok (
      map (normalized (list_items playlist_id st) (find_contents_scoped (distinct ids) owner_id st))
        items)

unfoldable pub item_views : List ContentRecord → Rows → Result (List ItemView)
item_views contents [] = ok []
item_views contents (item ∷ items) = do
  content ← or_throw (content_by_id contents item.content_id) (not_found "Content not found")
  rest ← item_views contents items
  ok ((item, content) ∷ rest)

abbrev pub finish_replace :
    Option String → String → Result Rows × Store → Result (List ItemView) × Store
finish_replace owner_id playlist_id (err e, st) = (err e, st)
finish_replace owner_id playlist_id (ok replaced, st) =
    let after = run_playlist_post_mutation_effects playlist_id "playlist_items_replaced" st in
    (
      item_views
          (find_contents_scoped (distinct (map (λ (i : PlaylistItemRecord). i.content_id) replaced))
            owner_id after)
          replaced,
      after,
    )

unfoldable pub replace_playlist_items :
    (ℕ → String)
    → String
    → Option String
    → String
    → List ItemWrite
    → Store
    → Result (List ItemView) × Store
replace_playlist_items uuid at owner_id playlist_id items st =
    elim (plan_replace owner_id playlist_id items st) [
      | err e ↦ (err e, st)
      | ok writes ↦
          finish_replace owner_id playlist_id (replace_items_atomic playlist_id uuid writes at st)
    ]

pub record PlaylistView : Type 0 where
  pub playlist : PlaylistRecord
  pub owner : Option UserRecord
  pub items_count : ℕ
  pub total_duration : ℤ

pub record NewItem : Type 0 where
  pub content_id : String
  pub duration : ℤ
  pub loop : Option Bool

abbrev pub find_user : String → Store → Option UserRecord
find_user id st = find (λ (u : UserRecord). u.id == id) st.users

-- The playlist is deleted again, and a failure of that is dropped.
abbrev pub compensated : String → Store → Store
compensated id st = elim (delete_playlist_row id none st) [ none ↦ st | some done ↦ done.1 ]

abbrev pub finish_create :
    PlaylistRecord → UserRecord → Result (List ItemView) × Store → Result PlaylistView × Store
finish_create playlist owner (err e, st) = (err e, compensated playlist.id st)
finish_create playlist owner (ok items, st) = (
  ok (record {
    playlist = playlist;
    owner = some owner;
    items_count = length items;
    total_duration = base_duration (map (λ (v : ItemView). v.0) items);
  }),
  st,
)

-- `scope` is the owner whose contents may be shown.
unfoldable pub create_playlist :
    (id : String)
    → (ℕ → String)
    → (at name : String) → Option String
    → Option Bool
    → String
    → Option String
    → List NewItem
    → Store
    → Result PlaylistView × Store
create_playlist id uuid at name description show_counter owner_id scope items st =
    elim (guard (ltb 0 (length items)) (validation "Playlists must contain at least one item.")
      >> or_throw (find_user owner_id st) (not_found "User not found")) [
        | err e ↦ (err e, st)
        | ok owner ↦
            let (created, there) =
              create_playlist_row id name description (or_else show_counter false) owner_id at st in
            finish_create created owner (
              replace_playlist_items uuid at scope created.id
                (map (λ (i : NewItem). new i.content_id i.duration i.loop) items) there)
      ]
