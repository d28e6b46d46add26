-- ===== src/Playlists/Deletion.antt =====
-- Deleting a playlist: what is asked, and what is left of it.
use wildfire.Base.{
  ℕ, ◌≡◌, refl, ap, subst, suc, ◌∙◌, inl, inr, String, ◌==◌, Bool, true, false, not, ◌&&◌, Option,
  some, or_else, List, [], ◌∷◌, any, filter, length, eqb, All, arith, Bool-cases, Option-cases,
  eqb_iff, Result, ok, err, Result-cases, guard-eq-ok, >>=-eq-ok, ok-injective, some-injective,
  none≢some, opt_eq,
}
use wildfire.Base.Any.{any-filter}
use wildfire.Schedule.{ScheduleRecord}
use wildfire.Store.{Store, PlaylistRecord, PlaylistItemRecord, ScheduleRow}
use wildfire.Store.Schedules.{list_by_playlist}
use wildfire.Store.Playlists.{owned_by, delete_playlist_row}
use wildfire.Scheduling.{is_schedule_finished}
use wildfire.Scheduling.Guards.{format_date_time_in_timezone}
use wildfire.Scheduling.Mutations.{Deps, Call}
use wildfire.Playlists.Whole.{
  unfinished, plan_delete, delete_schedules, finish_delete, delete_playlist,
}

-- Nothing of the playlist is left, and nothing names it.
pub record IsGone (id : String) (owner : Option String) (st : Store) : Type 0 where
  pub no_playlist :
      any (λ (p : PlaylistRecord). p.id == id && owned_by owner p) st.playlists ≡ false
  pub no_item : any (λ (i : PlaylistItemRecord). i.playlist_id == id) st.playlist_items ≡ false
  pub no_schedule : any (λ (s : ScheduleRow). opt_eq s.playlist_id (some id)) st.schedules ≡ false

never {ℓ} : {A : Type ℓ} (p : A → Bool) (xs : List A) → any p (filter (λ x. not (p x)) xs) ≡ false
never p xs = any-filter p (λ x. not (p x)) xs ∙ clash xs
  where
    clash : (ys : List _) → any (λ x. not (p x) && p x) ys ≡ false
    clash [] = refl
    clash (y ∷ ys) = ground (arith, clash ys)

delete_playlist_row-IsGone :
    (id : String) (owner : Option String) (st : Store) {after : Store}
    → delete_playlist_row id owner st ≡ some (true, after)
    → IsGone id owner after
unfolding delete_playlist_row
delete_playlist_row-IsGone id owner st {after} e =
    elim (Bool-cases
      (not (any (λ (p : PlaylistRecord). p.id == id && owned_by owner p) st.playlists))) [
        | inl missing ↦
            absurd (cc (ap (λ (d : Bool × Store). d.0) (some-injective (rw missing at e))))
        | inr there ↦
            elim (Bool-cases
              (any (λ (s : ScheduleRow). opt_eq s.playlist_id (some id)) st.schedules)) [
                | inl named ↦ absurd (none≢some (rw (there, named) at e))
                | inr free ↦
                    subst (IsGone id owner)
                      (ap (λ (d : Bool × Store). d.1) (some-injective (rw (there, free) at e)))
                      (record {
                        no_playlist =
                            never (λ (p : PlaylistRecord). p.id == id && owned_by owner p)
                              st.playlists;
                        no_item =
                            never (λ (i : PlaylistItemRecord). i.playlist_id == id)
                              st.playlist_items;
                        no_schedule = free;
                      })
              ]
      ]

finish_delete-ok :
    (id : String) (owner : Option String) (there : Store) {u : Unit {0}}
    → (finish_delete id owner (ok tt, there)).0 ≡ ok u
    → IsGone id owner (finish_delete id owner (ok tt, there)).1
finish_delete-ok id owner there e = elim (Option-cases (delete_playlist_row id owner there)) [
  | inl k ↦ cc (rw (k, finish_delete) at e)
  | inr ((true, after), k) ↦ rw (k, finish_delete) (delete_playlist_row-IsGone id owner there k)
  | inr ((false, after), k) ↦ cc (rw (k, finish_delete) at e)
]

-- The schedules that an accepted deletion found, with the time by which they are finished.
abbrev pub AllFinished : Deps → ℕ → List ScheduleRecord → Type 0
AllFinished deps now schedules =
    let (date, time) = format_date_time_in_timezone deps.intl now (or_else deps.timezone "UTC") in
    All (λ (s : ScheduleRecord). is_schedule_finished s.end_date s.end_time date time ≡ true)
      schedules

none_unfinished :
    (date time : String) (schedules : List ScheduleRecord)
    → eqb (length (filter (unfinished date time) schedules)) 0 ≡ true
    → All
        (λ (s : ScheduleRecord). is_schedule_finished s.end_date s.end_time date time ≡ true)
        schedules
none_unfinished date time [] e = tt
none_unfinished date time (s ∷ ss) e =
    elim (Bool-cases (is_schedule_finished s.end_date s.end_time date time)) [
      | inl h ↦ (h, none_unfinished date time ss (rw h at e))
      | inr h ↦ absurd (
          omega
            (arith, (eqb_iff (length (filter (unfinished date time) (s ∷ ss))) 0).0 e, longer h))
    ]
  where
    longer :
        is_schedule_finished s.end_date s.end_time date time ≡ false
        → length (filter (unfinished date time) (s ∷ ss))
          ≡ suc (length (filter (unfinished date time) ss))
    longer h = rw h refl

plan_delete_sound :
    (deps : Deps) (now : ℕ) (id : String) (owner : Option String) (st : Store)
    {schedules : List ScheduleRecord}
    → plan_delete deps now id owner st ≡ ok schedules
    → (list_by_playlist id st ≡ ok schedules) × AllFinished deps now schedules
unfolding plan_delete
plan_delete_sound deps now id owner st h =
    let (_, _, h1) = >>=-eq-ok _ _ h in
    let (found, listed, h2) = >>=-eq-ok _ _ h1 in
    let (_, guarded, last) = >>=-eq-ok _ _ h2 in
    let (date, time) = format_date_time_in_timezone deps.intl now (or_else deps.timezone "UTC") in
    let finished =
      none_unfinished date time found
        (guard-eq-ok (eqb (length (filter (unfinished date time) found)) 0) _ guarded) in
    let is = ok-injective last in
    (listed ∙ ap (λ s. ok s) is, subst (AllFinished deps now) is finished)

-- A playlist is deleted only when all its schedules are finished, and then no row of it, none of
-- its items and no schedule of it is left.
pub delete_playlist-IsGone :
    (deps : Deps) (call : Call) (id : String) (owner : Option String) (st : Store) {u : Unit {0}}
    → (delete_playlist deps call id owner st).0 ≡ ok u
    → IsGone id owner (delete_playlist deps call id owner st).1
      × ((schedules : List ScheduleRecord) × (list_by_playlist id st ≡ ok schedules)
          × AllFinished deps call.now schedules)
unfolding delete_playlist
delete_playlist-IsGone deps call id owner st e =
    elim (Result-cases (plan_delete deps call.now id owner st)) [
      | inl (failed, h) ↦ cc (rw (h, delete_playlist) at e)
      | inr (schedules, h) ↦
          let done = delete_schedules call.at schedules st in
          let (listed, finished) = plan_delete_sound deps call.now id owner st h in
          (
            rw (h, delete_playlist) (gone done (rw (h, delete_playlist) at e)),
            (schedules, listed, finished),
          )
    ]
  where
    gone :
        (r : Result (Unit {0}) × Store)
        → (finish_delete id owner r).0 ≡ ok _
        → IsGone id owner (finish_delete id owner r).1
    gone (err f, there) k = cc (k)
    gone (ok v, there) k = finish_delete-ok id owner there k
