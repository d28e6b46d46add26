-- ===== src/Playlists/Updated.antt =====
-- What the update of an item makes of the rows: they stay within the budget.
use wildfire.Base.{
  ◌+◌, ◌≤◌, ◌≡◌, refl, sym, ◌∙◌, inl, inr, String, ◌==◌, Bool, true, not, ◌&&◌, Option, none, some,
  or_else, [], ◌∷◌, map, find, filter, any, All-find, arith, Bool-cases, Option-cases,
  if◌then◌else◌, eq_iff, eq_refl, Result, ok, err, Result-cases, guard-eq-ok, >>=-eq-ok,
  or_throw-eq-ok, some-injective, none≢some, find_sound,
}
use wildfire.Base.Int.{ℤ, pos, ltb_ℤ, ◌+ℤ◌, pos_part}
use wildfire.Base.Any.{any-filter}
use wildfire.Store.{Store, PlaylistItemRecord, ContentRecord}
use wildfire.Store.Playlists.{list_items}
use wildfire.Store.Items.{
  Rows, applied, with_values, fits_columns, find_item, update_each, update_item,
}
use wildfire.Store.Items.Assign.{UniqueItems}
use wildfire.Store.Items.Batches.{update_each-applied}
use wildfire.Store.Items.Distinct.{any-sort_by}
use wildfire.Store.Items.Moved.{any_only}
use wildfire.Playlists.{resolve_playlist_item_loop, is_valid_duration, base_duration}
use wildfire.Playlists.Items.{
  within_total, others, where_given, plan_update, finish_update, update_playlist_item,
}
use wildfire.Playlists.Totals.{total, seconds, counted, IsPositive, one_changed}
use wildfire.Playlists.Budget.{IsWithinBudget, within_total-bound, changed-IsWithinBudget}
use wildfire.Playlists.Effects.{effects-items}
use wildfire.Playlists.Changes.{found_any}

where_given-some :
    (o : Option ℤ) (check : ℤ → Result (Unit {0})) {u : Unit {0}}
    → where_given o check ≡ ok u
    → (d : ℤ) → o ≡ some d
    → check d ≡ ok u
where_given-some none check h d e = absurd (none≢some e)
where_given-some (some x) check h d e = rw (sym (some-injective e)) h

-- What an update has been asked of the duration, and that its item is one of the playlist.
plan_update_sound :
    (playlist : String) (owner : Option String) (id : String) (sequence duration : Option ℤ)
    (loop : Option Bool) (st : Store) {content : ContentRecord}
    → plan_update playlist owner id sequence duration loop st ≡ ok content
    → (any (λ (i : PlaylistItemRecord). i.id == id) (list_items playlist st) ≡ true)
      × ((d : ℤ)
          → duration ≡ some d
          → (is_valid_duration d ≡ true)
            × (within_total (base_duration (others id (list_items playlist st)) +ℤ d) ≡ true))
unfolding plan_update
plan_update_sound playlist owner id sequence duration loop st h =
    let (_, _, h1) = >>=-eq-ok _ _ h in
    let (_, valid, h2) = >>=-eq-ok _ _ h1 in
    let (_, _, h3) = >>=-eq-ok _ _ h2 in
    let (there, found, h4) = >>=-eq-ok _ _ h3 in
    let (_, _, h5) = >>=-eq-ok _ _ h4 in
    let (_, _, h6) = >>=-eq-ok _ _ h5 in
    let (_, _, h7) = >>=-eq-ok _ _ h6 in
    let (_, fits, _) = >>=-eq-ok _ _ h7 in
    (
      found_any (λ (i : PlaylistItemRecord). i.id == id) (list_items playlist st)
          (or_throw-eq-ok _ _ found),
      λ d is. (
        guard-eq-ok (is_valid_duration d) _ (where_given-some duration _ valid d is),
        guard-eq-ok (within_total (base_duration (others id (list_items playlist st)) +ℤ d)) _
            (where_given-some duration _ fits d is),
      ),
    )

abbrev pub rewritten :
    String
    → Option ℤ
    → Option ℤ
    → Option Bool
    → PlaylistItemRecord
    → PlaylistItemRecord
    → Option PlaylistItemRecord
rewritten id sequence duration loop e i =
    if i.id == id then some (with_values sequence duration loop e i) else none

pub rewritten-applied :
    (id : String) (sequence duration : Option ℤ) (loop : Option Bool) (e : PlaylistItemRecord)
    (rs : Rows)
    → map (applied (rewritten id sequence duration loop e)) rs
      ≡ map (λ i. if i.id == id then with_values sequence duration loop e i else i) rs
rewritten-applied id sequence duration loop e [] = refl
rewritten-applied id sequence duration loop e (r ∷ rs) = elim (Bool-cases (r.id == id)) [
  | inl h ↦ rw (h, rewritten-applied id sequence duration loop e rs) refl
  | inr h ↦ rw (h, rewritten-applied id sequence duration loop e rs) refl
]

find_item-find :
    (id : String) (st : Store) {e : PlaylistItemRecord}
    → find_item id st ≡ some e
    → find (λ i. i.id == id) st.playlist_items ≡ some e
unfolding find_item
find_item-find id st h = h

-- The item that is read is the one of the playlist.
item_in :
    (playlist id : String) (st : Store) {e : PlaylistItemRecord}
    → UniqueItems st.playlist_items
    → any (λ (i : PlaylistItemRecord). i.id == id) (list_items playlist st) ≡ true
    → find_item id st ≡ some e
    → e.playlist_id ≡ playlist
unfolding list_items find_item
item_in playlist id st {e} u there found =
    let named =
      find_sound (λ (i : PlaylistItemRecord). i.id == id) st.playlist_items {x = e} found in
    let only =
      All-find
        (λ (r : PlaylistItemRecord).
          any (λ i. i.playlist_id == playlist && i.id == r.id) st.playlist_items
          ≡ (r.playlist_id == playlist))
        (λ i. i.id == id) st.playlist_items {x = e} (any_only playlist st.playlist_items u) found in
    let listed =
      sym (
        any-sort_by (λ i. i.id == id) _ (filter (λ i. i.playlist_id == playlist) st.playlist_items)
        ∙ any-filter (λ i. i.id == id) (λ i. i.playlist_id == playlist) st.playlist_items)
      ∙ there in
    (eq_iff e.playlist_id playlist).0 (sym only ∙ rw ((eq_iff e.id id).0 named) listed)

update_item-IsWithinBudget :
    (playlist id : String) (sequence duration : Option ℤ) (loop : Option Bool) (st : Store)
    → IsWithinBudget st.playlist_items
    → any (λ (i : PlaylistItemRecord). i.id == id) (list_items playlist st) ≡ true
    → ((d : ℤ)
        → duration ≡ some d
        → (is_valid_duration d ≡ true)
          × (within_total (base_duration (others id (list_items playlist st)) +ℤ d) ≡ true))
    → IsWithinBudget (update_item id sequence duration loop st).1.playlist_items
unfolding update_item
update_item-IsWithinBudget playlist id sequence duration loop st inv there asked =
    elim (Option-cases (find_item id st)) [
      | inl missing ↦ rw (missing, update_item) inv
      | inr (e, found) ↦ elim (Bool-cases (fits_columns (with_values sequence duration loop e e))) [
        | inr wide ↦ rw (found, update_item) (rw (wide, update_item) inv)
        | inl fit ↦
            elim (Option-cases
              (update_each (rewritten id sequence duration loop e) [] st.playlist_items)) [
                | inl taken ↦
                    rw (found, update_item) (rw (fit, update_item) (rw (taken, update_item) inv))
                | inr (rows, done) ↦
                    let is =
                      update_each-applied (rewritten id sequence duration loop e) st.playlist_items
                        done
                      ∙ rewritten-applied id sequence duration loop e st.playlist_items in
                    rw (found, update_item)
                      (rw (fit, update_item)
                        (rw (done, update_item)
                          (rw is (
                            changed-IsWithinBudget (with_values sequence duration loop e) id
                              (λ i. (refl, refl)) st.playlist_items inv (find_item-find id st found)
                              (λ i. positive e found) (bound e found)))))
              ]
      ]
    ]
  where
    positive :
        (e : PlaylistItemRecord)
        → find_item id st ≡ some e
        → ltb_ℤ (pos 0) (or_else duration e.duration) ≡ true
    positive e found = elim (Option-cases duration) [
      | inl none_given ↦ rw none_given (
          All-find IsPositive (λ i. i.id == id) st.playlist_items {x = e} inv.positive
            (find_item-find id st found))
      | inr (d, given) ↦ rw given (asked d given).0
    ]

    bound :
        (e : PlaylistItemRecord)
        → find_item id st ≡ some e
        → total (counted e.playlist_id) (filter (λ i. not (i.id == id)) st.playlist_items)
            + pos_part (or_else duration e.duration)
          ≤ 60
    bound e found = elim (Option-cases duration) [
      | inl none_given ↦
          let (_, filtered) =
            one_changed (counted e.playlist_id) (λ i. i) id st.playlist_items inv.unique
              (find_item-find id st found) in
          let own : counted e.playlist_id e ≡ seconds e = rw (eq_refl e.playlist_id) refl in
          rw none_given (omega (arith, filtered, own, inv.bounded e.playlist_id))
      | inr (d, given) ↦
          let (valid, fits) = asked d given in
          rw (given, item_in playlist id st inv.unique there found)
            (within_total-bound playlist (λ i. not (i.id == id)) st d inv.positive valid fits)
    ]

pub update_playlist_item-IsWithinBudget :
    (playlist : String) (owner : Option String) (id : String) (sequence duration : Option ℤ)
    (loop : Option Bool) (st : Store)
    → IsWithinBudget st.playlist_items
    → IsWithinBudget
        (update_playlist_item playlist owner id sequence duration loop st).1.playlist_items
unfolding update_playlist_item
update_playlist_item-IsWithinBudget playlist owner id sequence duration loop st inv =
    elim (Result-cases (plan_update playlist owner id sequence duration loop st)) [
      | inl (e, h) ↦ rw (h, update_playlist_item) inv
      | inr (content, h) ↦
          let (there, asked) = plan_update_sound playlist owner id sequence duration loop st h in
          rw (h, update_playlist_item)
            (finished content _ (
              update_item-IsWithinBudget playlist id sequence duration
                (some (resolve_playlist_item_loop content)) st inv there asked))
    ]
  where
    finished :
        (content : ContentRecord) (r : Result (Option PlaylistItemRecord) × Store)
        → IsWithinBudget r.1.playlist_items
        → IsWithinBudget (finish_update content r).1.playlist_items
    finished content (err e, there) h = h
    finished content (ok none, there) h = h
    finished content (ok (some item), there) h =
        rw (effects-items item.playlist_id "playlist_item_updated" there) h
