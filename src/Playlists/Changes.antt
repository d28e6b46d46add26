-- ===== src/Playlists/Changes.antt =====
-- What the addition of an item makes of the rows: they stay within the budget.
use wildfire.Base.{
  err, Error, fault, validation, ◌⊎◌, ◌≡◌, refl, inl, inr, String, ◌==◌, Bool, true, false, Option,
  some, [], ◌∷◌, find, any, All, Bool-cases, ok, Result-cases, guard-eq-ok, >>=-eq-ok, none≢some,
}
use wildfire.Base.Int.{ℤ, ◌+ℤ◌}
use wildfire.Store.{Store, PlaylistItemRecord, ContentRecord}
use wildfire.Store.Contents.{mark_content_used}
use wildfire.Store.Playlists.{list_items}
use wildfire.Store.Items.{
  Rows, conflicts, fits_columns, keys_there, out_of_range, no_referenced_row, sequence_taken,
  add_item,
}
use wildfire.Playlists.{resolve_playlist_item_loop, is_valid_duration, base_duration}
use wildfire.Playlists.Items.{within_total, plan_add, add_playlist_item}
use wildfire.Playlists.Totals.{every_row}
use wildfire.Playlists.Budget.{IsWithinBudget, within_total-bound, added-IsWithinBudget}
use wildfire.Playlists.Effects.{effects-items}

-- What an addition has been asked.
plan_add_sound :
    (owner : Option String) (playlist content_id : String) (sequence duration : ℤ)
    (loop : Option Bool) (st : Store) {content : ContentRecord}
    → plan_add owner playlist content_id sequence duration loop st ≡ ok content
    → (is_valid_duration duration ≡ true)
      × (within_total (base_duration (list_items playlist st) +ℤ duration) ≡ true)
unfolding plan_add
plan_add_sound owner playlist content_id sequence duration loop st h =
    let (_, _, h1) = >>=-eq-ok _ _ h in
    let (_, valid, h2) = >>=-eq-ok _ _ h1 in
    let (_, _, h3) = >>=-eq-ok _ _ h2 in
    let (_, _, h4) = >>=-eq-ok _ _ h3 in
    let (_, _, h5) = >>=-eq-ok _ _ h4 in
    let (_, _, h6) = >>=-eq-ok _ _ h5 in
    let (_, _, h7) = >>=-eq-ok _ _ h6 in
    let (_, _, h8) = >>=-eq-ok _ _ h7 in
    let (_, fits, _) = >>=-eq-ok _ _ h8 in
    (
      guard-eq-ok (is_valid_duration duration) _ valid,
      guard-eq-ok (within_total (base_duration (list_items playlist st) +ℤ duration)) _ fits,
    )

pub found_any :
    (p : PlaylistItemRecord → Bool) (rs : Rows) {e : PlaylistItemRecord}
    → find p rs ≡ some e
    → any p rs ≡ true
found_any p [] h = absurd (none≢some h)
found_any p (r ∷ rs) h = elim (Bool-cases (p r)) [
  | inl e ↦ rw e refl
  | inr e ↦ rw e (found_any p rs (rw e at h))
]

-- An item is refused, by its values, the unique index or the foreign keys, or it is added.
pub add_item-cases :
    (item : PlaylistItemRecord) (at : String) (st : Store)
    → ((e : Error) × (add_item item.id item.playlist_id item.content_id item.sequence item.duration
            item.loop at st
          ≡ (err e, st)))
      ⊎ (add_item item.id item.playlist_id item.content_id item.sequence item.duration item.loop at
            st
          ≡ (
            ok item,
            mark_content_used
                (item.content_id ∷ [])
                at
                (record st { playlist_items = item ∷ st.playlist_items }),
          ))
unfolding add_item
add_item-cases item at st = elim (Bool-cases (fits_columns item)) [
  | inr wide ↦ inl (fault out_of_range, rw (wide, add_item) refl)
  | inl fit ↦ elim (Bool-cases (any (conflicts item) st.playlist_items)) [
    | inl taken ↦ inl (validation sequence_taken, rw (fit, add_item) (rw (taken, add_item) refl))
    | inr free ↦ elim (Bool-cases (keys_there item st)) [
      | inr lost ↦ inl (
        fault no_referenced_row,
        rw (fit, add_item) (rw (free, add_item) (rw (lost, add_item) refl)),
      )
      | inl there ↦ inr (rw (fit, add_item) (rw (free, add_item) (rw (there, add_item) refl)))
    ]
  ]
]

pub add_playlist_item-IsWithinBudget :
    (uuid at : String) (owner : Option String) (playlist content_id : String)
    (sequence duration : ℤ) (loop : Option Bool) (st : Store)
    → IsWithinBudget st.playlist_items
    → All (λ s. (uuid == s.id) ≡ false) st.playlist_items
    → IsWithinBudget
        (add_playlist_item uuid at owner playlist content_id sequence duration loop
          st).1.playlist_items
unfolding add_playlist_item add_item mark_content_used
add_playlist_item-IsWithinBudget uuid at owner playlist content_id sequence duration loop st inv
      fresh =
    elim (Result-cases (plan_add owner playlist content_id sequence duration loop st)) [
      | inl (e, h) ↦ rw (h, add_playlist_item) inv
      | inr (content, h) ↦
          let (valid, fits) =
            plan_add_sound owner playlist content_id sequence duration loop st h in
          let item : PlaylistItemRecord = record {
            id = uuid;
            playlist_id = playlist;
            content_id = content_id;
            sequence = sequence;
            duration = duration;
            loop = resolve_playlist_item_loop content;
          } in
          let bound =
            within_total-bound playlist (λ r. true) st duration inv.positive valid
              (rw (every_row (list_items playlist st)) fits) in
          elim (add_item-cases item at st) [
            | inl (f, refused) ↦ rw (h, add_playlist_item) (rw (refused, add_item) inv)
            | inr done ↦
                rw (h, add_playlist_item)
                  (rw (done, add_item)
                    (rw (effects-items playlist "playlist_item_added" _) (
                      added-IsWithinBudget item st.playlist_items inv fresh valid
                        (rw (every_row st.playlist_items) at bound))))
          ]
    ]
