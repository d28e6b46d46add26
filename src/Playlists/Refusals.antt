-- ===== src/Playlists/Refusals.antt =====
-- A call on single items that is refused leaves the store as it was.
use wildfire.Base.{
  ◌≡◌, refl, ap, ◌∙◌, ◌⊎◌, ok-injective, inl, inr, String, ◌==◌, Bool, true, false, not, ◌||◌,
  Option, none, some, List, [], ◌∷◌, map, find, filter, any, every, length, eqb, arith, Bool-cases,
  Option-cases, if◌then◌else◌, Result, ok, err, Result-cases, Error, none≢some, has_duplicates,
  includes,
}
use wildfire.Base.Int.{ℤ}
use wildfire.Store.{Store, PlaylistItemRecord, ContentRecord}
use wildfire.Store.Playlists.{list_items}
use wildfire.Store.Items.{
  Rows, fits_columns, with_values, find_item, update_each, add_item, update_item, delete_item,
  reorder_rows, reorder_items,
}
use wildfire.Store.Items.Batches.{update_each-applied}
use wildfire.Scheduling.Guards.{find_playlist_scoped}
use wildfire.Playlists.{resolve_playlist_item_loop}
use wildfire.Playlists.Items.{
  plan_add, add_playlist_item, plan_update, finish_update, update_playlist_item, plan_delete,
  finish_delete, delete_playlist_item, finish_reorder, reorder_playlist_items,
}
use wildfire.Playlists.Changes.{add_item-cases}
use wildfire.Playlists.Updated.{rewritten, rewritten-applied}

pub data ItemCall : Type 0 where
  add :
      (uuid at : String)
      → Option String
      → (playlist content_id : String) → ℤ
      → ℤ
      → Option Bool
      → ItemCall
  update : String → Option String → String → Option ℤ → Option ℤ → Option Bool → ItemCall
  delete : (at playlist : String) → Option String → String → ItemCall
  reorder : Option String → String → List String → ItemCall

abbrev unit_of : {A : Type 0} → Result A × Store → Result (Unit {0}) × Store
unit_of (ok a, st) = (ok tt, st)
unit_of (err e, st) = (err e, st)

abbrev pub served : ItemCall → Store → Result (Unit {0}) × Store
served (add uuid at owner playlist content_id sequence duration loop) st =
    unit_of (add_playlist_item uuid at owner playlist content_id sequence duration loop st)
served (update playlist owner id sequence duration loop) st =
    unit_of (update_playlist_item playlist owner id sequence duration loop st)
served (delete at playlist owner id) st = delete_playlist_item at playlist owner id st
served (reorder owner playlist ids) st = reorder_playlist_items owner playlist ids st

abbrev Unchanged : {A : Type 0} → Store → Result A × Store → Type 0
Unchanged st r = (e : Error) → r.0 ≡ err e → r.1 ≡ st

unit_of-Unchanged :
    {A : Type 0} (st : Store) (r : Result A × Store) → Unchanged st r → Unchanged st (unit_of r)
unit_of-Unchanged st (ok a, there) h e k = cc (k)
unit_of-Unchanged st (err f, there) h e k = h f refl

add-Unchanged :
    (uuid at : String) (owner : Option String) (playlist content_id : String)
    (sequence duration : ℤ) (loop : Option Bool) (st : Store)
    → Unchanged st (add_playlist_item uuid at owner playlist content_id sequence duration loop st)
unfolding add_playlist_item add_item
add-Unchanged uuid at owner playlist content_id sequence duration loop st e k =
    elim (Result-cases (plan_add owner playlist content_id sequence duration loop st)) [
      | inl (f, h) ↦ rw (h, add_playlist_item) refl
      | inr (content, h) ↦
          let item : PlaylistItemRecord = record {
            id = uuid;
            playlist_id = playlist;
            content_id = content_id;
            sequence = sequence;
            duration = duration;
            loop = resolve_playlist_item_loop content;
          } in
          elim (add_item-cases item at st) [
            | inl (f, refused) ↦ rw (h, add_playlist_item) (rw (refused, add_item) refl)
            | inr done ↦ cc (rw (done, add_item) at (rw (h, add_playlist_item) at k))
          ]
    ]

still_found :
    (id : String) (sequence duration : Option ℤ) (loop : Option Bool) (e : PlaylistItemRecord)
    (rs : Rows) {x : PlaylistItemRecord}
    → find (λ (i : PlaylistItemRecord). i.id == id) rs ≡ some x
    → (y : PlaylistItemRecord) × (find
          (λ (i : PlaylistItemRecord). i.id == id)
          (map (λ i. if i.id == id then with_values sequence duration loop e i else i) rs)
        ≡ some y)
still_found id sequence duration loop e [] h = absurd (none≢some h)
still_found id sequence duration loop e (r ∷ rs) h = elim (Bool-cases (r.id == id)) [
  | inl same ↦ (with_values sequence duration loop e r, rw (same) (rw same refl))
  | inr other ↦
      let (y, there) = still_found id sequence duration loop e rs (rw other at h) in
      (y, rw (other) (rw other there))
]

-- What is updated is found again.
update_item-found :
    (id : String) (sequence duration : Option ℤ) (loop : Option Bool) (st : Store)
    → ((update_item id sequence duration loop st).1 ≡ st)
      ⊎ ((y : PlaylistItemRecord) × ((update_item id sequence duration loop st).0 ≡ ok (some y)))
unfolding update_item find_item
update_item-found id sequence duration loop st = elim (Option-cases (find_item id st)) [
  | inl missing ↦ inl (rw (missing, update_item) refl)
  | inr (e, found) ↦ elim (Bool-cases (fits_columns (with_values sequence duration loop e e))) [
    | inr wide ↦ inl (rw (found, update_item) (rw (wide, update_item) refl))
    | inl fit ↦
        elim (Option-cases
          (update_each (rewritten id sequence duration loop e) [] st.playlist_items)) [
            | inl taken ↦
                inl (rw (found, update_item) (rw (fit, update_item) (rw (taken, update_item) refl)))
            | inr (rows, done) ↦
                let is =
                  update_each-applied (rewritten id sequence duration loop e) st.playlist_items done
                  ∙ rewritten-applied id sequence duration loop e st.playlist_items in
                let (y, there) = still_found id sequence duration loop e st.playlist_items found in
                inr (
                  y,
                  rw (found, update_item)
                      (rw (fit, update_item)
                        (rw (done, update_item)
                          (ap ok (ap (find (λ (i : PlaylistItemRecord). i.id == id)) is ∙ there)))),
                )
          ]
  ]
]

update-Unchanged :
    (playlist : String) (owner : Option String) (id : String) (sequence duration : Option ℤ)
    (loop : Option Bool) (st : Store)
    → Unchanged st (update_playlist_item playlist owner id sequence duration loop st)
unfolding update_playlist_item
update-Unchanged playlist owner id sequence duration loop st e k =
    elim (Result-cases (plan_update playlist owner id sequence duration loop st)) [
      | inl (f, h) ↦ rw (h, update_playlist_item) refl
      | inr (content, h) ↦
          rw (h, update_playlist_item)
            (finished content
              (update_item id sequence duration (some (resolve_playlist_item_loop content)) st)
              (update_item-found id sequence duration (some (resolve_playlist_item_loop content))
                st)
              (rw (h, update_playlist_item) at k))
    ]
  where
    finished :
        (content : ContentRecord) (r : Result (Option PlaylistItemRecord) × Store)
        → ((r.1 ≡ st) ⊎ ((y : PlaylistItemRecord) × (r.0 ≡ ok (some y))))
        → (finish_update content r).0 ≡ err e
        → (finish_update content r).1 ≡ st
    finished content (err f, there) (inl same) h = same
    finished content (err f, there) (inr (y, found)) h = cc (found)
    finished content (ok none, there) (inl same) h = same
    finished content (ok none, there) (inr (y, found)) h = absurd (none≢some (ok-injective found))
    finished content (ok (some item), there) f h = cc (h)

nothing_named :
    (id : String) (rs : Rows)
    → any (λ (i : PlaylistItemRecord). i.id == id) rs ≡ false
    → filter (λ (i : PlaylistItemRecord). not (i.id == id)) rs ≡ rs
nothing_named id [] h = refl
nothing_named id (r ∷ rs) h = elim (Bool-cases (r.id == id)) [
  | inl same ↦ absurd (ground arith)
  | inr other ↦ rw other (ap (λ ss. r ∷ ss) (nothing_named id rs (rw other at h)))
]

delete_item-nothing :
    (id at : String) (st : Store) → (delete_item id at st).0 ≡ false → (delete_item id at st).1 ≡ st
unfolding delete_item
delete_item-nothing id at st none_there = elim (Option-cases (find_item id st)) [
  | inl h ↦ rw (h, delete_item) (rw (nothing_named id st.playlist_items none_there) refl)
  | inr (e, h) ↦
      rw (h, delete_item) (rw none_there (rw (nothing_named id st.playlist_items none_there) refl))
]

delete-Unchanged :
    (at playlist : String) (owner : Option String) (id : String) (st : Store)
    → Unchanged st (delete_playlist_item at playlist owner id st)
unfolding delete_playlist_item
delete-Unchanged at playlist owner id st e k =
    elim (Result-cases (plan_delete playlist owner id st)) [
      | inl (f, h) ↦ rw (h, delete_playlist_item) refl
      | inr (existing, h) ↦
          rw (h, delete_playlist_item)
            (finished existing (delete_item id at st) (delete_item-nothing id at st)
              (rw (h, delete_playlist_item) at k))
    ]
  where
    finished :
        (existing : PlaylistItemRecord) (r : Bool × Store)
        → (r.0 ≡ false → r.1 ≡ st)
        → (finish_delete existing r).0 ≡ err e
        → (finish_delete existing r).1 ≡ st
    finished existing (false, there) same h = same refl
    finished existing (true, there) same h = cc (h)

-- An answer that is not yes was given without a change.
reorder_items-taken_or_same :
    (playlist : String) (ids : List String) (st : Store)
    → ((reorder_items playlist ids st).1 ≡ st) ⊎ ((reorder_items playlist ids st).0 ≡ ok true)
unfolding reorder_items
reorder_items-taken_or_same playlist ids st =
    let size = length (list_items playlist st) in
    elim (Bool-cases (eqb size 0)) [
      | inl none_there ↦ inl (rw none_there refl)
      | inr some_there ↦
          elim (Bool-cases (
            not (eqb size (length ids))
            || has_duplicates ids
            || not
                (every (λ (i : PlaylistItemRecord). includes ids i.id) (list_items playlist st)))) [
                  | inl bad ↦ inl (rw (some_there, bad) refl)
                  | inr good ↦ elim (Option-cases (reorder_rows ids st.playlist_items)) [
                    | inl h ↦ inl (rw (some_there, good) (rw (h, reorder_items) refl))
                    | inr (rows, h) ↦ inr (rw (some_there, good) (rw (h, reorder_items) refl))
                  ]
                ]
    ]

reorder-Unchanged :
    (owner : Option String) (playlist : String) (ids : List String) (st : Store)
    → Unchanged st (reorder_playlist_items owner playlist ids st)
unfolding reorder_playlist_items
reorder-Unchanged owner playlist ids st e k =
    elim (Option-cases (find_playlist_scoped playlist owner st)) [
      | inl h ↦ rw (h, reorder_playlist_items) refl
      | inr (p, h) ↦
          rw (h, reorder_playlist_items)
            (finished (reorder_items playlist ids st) (reorder_items-taken_or_same playlist ids st)
              (rw (h, reorder_playlist_items) at k))
    ]
  where
    finished :
        (r : Result Bool × Store)
        → ((r.1 ≡ st) ⊎ (r.0 ≡ ok true))
        → (finish_reorder playlist r).0 ≡ err e
        → (finish_reorder playlist r).1 ≡ st
    finished (err f, there) (inl same) h = same
    finished (err f, there) (inr taken) h = cc (taken)
    finished (ok false, there) (inl same) h = same
    finished (ok false, there) (inr taken) h = absurd (cc (ok-injective taken))
    finished (ok true, there) f h = cc (h)

-- Where adding, updating, deleting or reordering items is refused, for whatever reason, nothing in
-- the store has changed and nothing was published.
pub refused-unchanged :
    (call : ItemCall) (st : Store) {e : Error}
    → (served call st).0 ≡ err e
    → (served call st).1 ≡ st
refused-unchanged (add uuid at owner playlist content_id sequence duration loop) st {e} h =
    unit_of-Unchanged st
      (add_playlist_item uuid at owner playlist content_id sequence duration loop st)
      (add-Unchanged uuid at owner playlist content_id sequence duration loop st) e h
refused-unchanged (update playlist owner id sequence duration loop) st {e} h =
    unit_of-Unchanged st (update_playlist_item playlist owner id sequence duration loop st)
      (update-Unchanged playlist owner id sequence duration loop st) e h
refused-unchanged (delete at playlist owner id) st {e} h =
    delete-Unchanged at playlist owner id st e h
refused-unchanged (reorder owner playlist ids) st {e} h =
    reorder-Unchanged owner playlist ids st e h
