-- ===== src/Scheduling/Reconcile/Due.antt =====
-- The status that is due to a playlist, by the schedules' rows.
use wildfire.Base.{
  ℕ, suc, subst, ◌≡◌, refl, ap, sym, ◌∙◌, ◌⊎◌, inl, inr, true, false, ◌&&◌, String, eq_iff, Option,
  none, some, List, [], ◌∷◌, ◌++◌, length, filter, All, arith, Bool-cases, opt_eq, str_lt, str_le,
}
use wildfire.Store.{Store, ScheduleRow, PlaylistStatus, draft, in_use}
use wildfire.Store.Schedules.{unfinished_at}
use wildfire.Store.Playlists.{update_status}
use wildfire.Scheduling.Reconcile.{next_status, set_status, reconcile_one, reconcile_loop}

-- The last day is to come, or it is this day and the end is not over.
abbrev pub IsUnfinished : String → String → ScheduleRow → Type 0
IsUnfinished date time r =
    (str_lt date r.end_date ≡ true) ⊎ ((r.end_date ≡ date) × (str_le time r.end_time ≡ true))

-- No unfinished row names a draft; one names a playlist in use.
pub data IsDue (date time id : String) (rows : List ScheduleRow) : PlaylistStatus → Type 0 where
  unused :
      All (λ r. r.playlist_id ≡ some id → ¬ IsUnfinished date time r) rows
      → IsDue date time id rows draft
  used :
      (before : List ScheduleRow) (r : ScheduleRow) (after : List ScheduleRow)
      → rows ≡ before ++ r ∷ after
      → r.playlist_id ≡ some id
      → IsUnfinished date time r
      → IsDue date time id rows in_use

opt_eq_iff : (o : Option String) (x : String) → opt_eq o (some x) ≡ true → o ≡ some x
opt_eq_iff none x e = absurd (cc e)
opt_eq_iff (some y) x e = ap (λ z. some z) ((eq_iff y x).0 e)

opt_eq_self : (o : Option String) (x : String) → o ≡ some x → opt_eq o (some x) ≡ true
opt_eq_self o x e = rw e ((eq_iff x x).1 refl)

unfinished_at_iff :
    (date time : String) (r : ScheduleRow)
    → unfinished_at date time r ≡ true
    → IsUnfinished date time r
unfinished_at_iff date time r e = elim (Bool-cases (str_lt date r.end_date)) [
  | inl h ↦ inl h
  | inr h ↦ inr ((eq_iff r.end_date date).0 (ground arith), ground arith)
]

IsUnfinished-unfinished_at :
    (date time : String) (r : ScheduleRow)
    → IsUnfinished date time r
    → unfinished_at date time r ≡ true
IsUnfinished-unfinished_at date time r (inl h) = rw h refl
IsUnfinished-unfinished_at date time r (inr (d, t)) = ground (arith, eq_iff r.end_date date)

next_status-suc : (n : ℕ) → next_status (suc n) ≡ in_use
next_status-suc n = ground arith

pub next_status-IsDue :
    (date time id : String) (rows : List ScheduleRow)
    → IsDue date time id rows (
        next_status
          (length (filter (λ r. opt_eq r.playlist_id (some id) && unfinished_at date time r) rows)))
next_status-IsDue date time id [] = unused tt
next_status-IsDue date time id (r ∷ rows) =
    elim (Bool-cases (opt_eq r.playlist_id (some id) && unfinished_at date time r)) [
      | inl h ↦ rw h (
          subst (IsDue date time id (r ∷ rows)) (sym (next_status-suc _)) (
            used [] r rows refl (opt_eq_iff r.playlist_id id (ground arith))
              (unfinished_at_iff date time r (ground arith))))
      | inr h ↦ rw h (later h (next_status-IsDue date time id rows))
    ]
  where
    later :
        {s : PlaylistStatus}
        → (opt_eq r.playlist_id (some id) && unfinished_at date time r) ≡ false
        → IsDue date time id rows s
        → IsDue date time id (r ∷ rows) s
    later h (unused all) = unused (
      (λ named due.
          absurd (
            cc
              (h, opt_eq_self r.playlist_id id named, IsUnfinished-unfinished_at date time r due))),
      all,
    )
    later h (used before x after split named due) =
        used (r ∷ before) x after (ap (λ l. r ∷ l) split) named due

reconcile_one-schedules :
    (date time at id : String) (st : Store)
    → (reconcile_one date time at id st).1.schedules ≡ st.schedules
unfolding reconcile_one set_status update_status
reconcile_one-schedules date time at id st = ground arith

pub reconcile_loop-schedules :
    (date time at : String) (ids : List String) (st : Store)
    → (reconcile_loop date time at ids st).1.schedules ≡ st.schedules
unfolding reconcile_loop
reconcile_loop-schedules date time at [] st = refl
reconcile_loop-schedules date time at (id ∷ ids) st =
    reconcile_loop-schedules date time at ids (reconcile_one date time at id st).1
    ∙ reconcile_one-schedules date time at id st
