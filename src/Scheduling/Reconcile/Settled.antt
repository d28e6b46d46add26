-- ===== src/Scheduling/Reconcile/Settled.antt =====
-- What a run of the reconciliation leaves behind, and what a second run finds.
use wildfire.Base.{
  distinct, includes, ℕ, ◌≡◌, refl, ◌∙◌, inl, true, String, eq_refl, Option, none, some, List, [],
  ◌∷◌, map, All, arith, or_else,
}
use wildfire.Schedule.{Intl}
use wildfire.Store.{Store, PlaylistRecord, PlaylistStatus, draft, in_use}
use wildfire.Store.Playlists.{find_playlist, update_status}
use wildfire.Store.Schedules.{count_unfinished_by_playlist}
use wildfire.Scheduling.Reconcile.Due.{IsDue, next_status-IsDue, reconcile_loop-schedules}
use wildfire.Scheduling.Guards.{format_date_time_in_timezone}
use wildfire.Scheduling.Reconcile.{set_status, reconcile_one, reconcile_loop, reconcile}
use wildfire.Scheduling.Reconcile.Steps.{
  IsSettled, reconcile_loop-settles, reconcile_loop-idle, listed, includes-distinct,
}

-- The ids of the playlists stay as they are.
set_status-ids :
    (id : String) (status : PlaylistStatus) (at : String) (st : Store)
    → listed none (set_status id status at st) ≡ listed none st
unfolding set_status update_status
set_status-ids id status at st = go st.playlists
  where
    go :
        (ps : List PlaylistRecord)
        → map (λ p. p.id) (update_status id status at (record st { playlists = ps })).playlists
          ≡ map (λ p. p.id) ps
    go [] = refl
    go (p ∷ ps) = ground (arith, go ps)

reconcile_one-ids :
    (date time at id : String) (st : Store)
    → listed none (reconcile_one date time at id st).1 ≡ listed none st
unfolding reconcile_one
reconcile_one-ids date time at id st =
    ground (arith, set_status-ids id draft at st, set_status-ids id in_use at st)

reconcile_loop-ids :
    (date time at : String) (ids : List String) (st : Store)
    → listed none (reconcile_loop date time at ids st).1 ≡ listed none st
unfolding reconcile_loop
reconcile_loop-ids date time at [] st = refl
reconcile_loop-ids date time at (id ∷ ids) st =
    reconcile_loop-ids date time at ids (reconcile_one date time at id st).1
    ∙ reconcile_one-ids date time at id st

settled-IsDue :
    (date time at id : String) (ids : List String) (st : Store) {p : PlaylistRecord}
    → IsSettled date time (reconcile_loop date time at ids st).1 id
    → find_playlist id (reconcile_loop date time at ids st).1 ≡ some p
    → IsDue date time id st.schedules p.status
unfolding count_unfinished_by_playlist
settled-IsDue date time at id ids st {p} settled found =
    rw (settled p found, reconcile_loop-schedules date time at ids st)
      (next_status-IsDue date time id st.schedules)

-- After a run, each playlist that it was asked for, or each playlist where it was not given ids,
-- is in use where a schedule names it whose last day is to come, or is the local day with the end
-- not over, and a draft where there is no such schedule.
pub reconcile-IsDue :
    (intl : Intl) (timezone : Option String) (ids : Option (List String)) (now : ℕ) (at : String)
    (st : Store) (id : String) {p : PlaylistRecord}
    → includes (listed ids st) id ≡ true
    → find_playlist id (reconcile intl timezone ids now at st).1 ≡ some p
    → IsDue
        (format_date_time_in_timezone intl now (or_else timezone "UTC")).0
        (format_date_time_in_timezone intl now (or_else timezone "UTC")).1
        id
        st.schedules
        p.status
unfolding reconcile
reconcile-IsDue intl timezone none now at st id {p} h found =
    settled-IsDue _ _ at id (listed none st) st {p = p}
      (reconcile_loop-settles _ _ at (listed none st) id st (inl h)) found
reconcile-IsDue intl timezone (some ids) now at st id {p} h found =
    settled-IsDue _ _ at id (distinct ids) st {p = p}
      (reconcile_loop-settles _ _ at (distinct ids) id st (inl (includes-distinct ids id ∙ h)))
      found

All-of_includes :
    {P : String → Type 0} (ids : List String)
    → ((id : String) → includes ids id ≡ true → P id)
    → All P ids
All-of_includes [] h = tt
All-of_includes (id ∷ ids) h =
    (h id (rw (eq_refl id) refl), All-of_includes ids (λ x e. h x (ground (arith, e))))

-- A second run at the same time changes no status, publishes nothing and counts no update.
reconcile-again :
    (intl : Intl) (timezone : Option String) (ids : Option (List String)) (now : ℕ) (at : String)
    (st : Store)
    → reconcile intl timezone ids now at (reconcile intl timezone ids now at st).1
      ≡ (0, (reconcile intl timezone ids now at st).1)
unfolding reconcile
reconcile-again intl timezone none now at st =
    let (date, time) = format_date_time_in_timezone intl now (or_else timezone "UTC") in
    let st' = (reconcile_loop date time at (listed none st) st).1 in
    rw (reconcile_loop-ids date time at (listed none st) st) (
      reconcile_loop-idle date time at (listed none st) st' (
        All-of_includes (listed none st)
          (λ id h. reconcile_loop-settles date time at (listed none st) id st (inl h))))
reconcile-again intl timezone (some ids) now at st =
    let (date, time) = format_date_time_in_timezone intl now (or_else timezone "UTC") in
    reconcile_loop-idle date time at (distinct ids)
      (reconcile_loop date time at (distinct ids) st).1
      (All-of_includes (distinct ids)
        (λ id h. reconcile_loop-settles date time at (distinct ids) id st (inl h)))
