-- ===== src/Scheduling/Conflicts/Tests.antt =====
-- Runs of the theorems on windows, conflicts and the reconciliation.
use wildfire.Base.{
  distinct, ℕ, ◌<◌, ◌≡◌, ◌⊎◌, ◌↔◌, refl, true, false, none, some, [], ◌∷◌, arith, ok, units,
  units_lt,
}
use wildfire.Schedule.{
  flash, is_valid_time, matches_time, is_valid_date, matches_date, to_minutes, units_minutes,
  is_within_time_window, is_within_date_window, within_minutes,
}
use wildfire.Scheduling.{windows_conflict, has_date_range_overlap}
use wildfire.Scheduling.Guards.{format_date_time_in_timezone}
use wildfire.Store.{PlaylistStatus}
use wildfire.Store.Playlists.{find_playlist, update_status}
use wildfire.Store.Schedules.{count_unfinished_by_playlist}
use wildfire.Scheduling.Reconcile.{reconcile, reconcile_loop, reconcile_one, set_status}
use wildfire.Scheduling.Reconcile.Settled.{reconcile-IsDue}
use wildfire.Scheduling.Reconcile.Due.{IsDue}
use wildfire.Scheduling.Conflicts.{
  covers_second, windows_conflict_iff, flash_exclusive, touching_both_active,
}
use wildfire.Scheduling.Invariant.{window_of}
use wildfire.Scheduling.Tests.{early, late, store, deps, early_and_late}

windows_conflict_iff_example : (windows_conflict (window_of early) (window_of late) ≡ ok true) ↔ (
    ((window_of early).display_id ≡ (window_of late).display_id)
    × (flash ≡ flash)
    × (flash ≡ flash)
    × (has_date_range_overlap (window_of early) (window_of late) ≡ true)
    × ((t : ℕ) × (t < 86400)
        × (covers_second (window_of early) t ≡ true)
        × (covers_second (window_of late) t ≡ true)))
unfolding is_valid_time matches_time is_valid_date matches_date units units_lt
windows_conflict_iff_example =
    windows_conflict_iff (window_of early) (window_of late) (refl, refl) (refl, refl)

flash_exclusive_example :
    (to_minutes "09:00" ≡ to_minutes "09:00") ⊎ (to_minutes "09:00" ≡ to_minutes "10:00")
unfolding is_valid_time matches_time is_valid_date matches_date units units_lt to_minutes
    units_minutes within_minutes is_within_time_window is_within_date_window
flash_exclusive_example =
    flash_exclusive (window_of early) (window_of late) "2025-03-04" "09:00" (refl, refl)
      (refl, refl) refl refl refl early_and_late refl refl refl refl

touching_both_active_example :
    (windows_conflict (window_of early) (window_of late) ≡ ok false)
    × (is_within_time_window "09:00" "08:00" "09:00" ≡ true)
    × (is_within_time_window "09:00" "09:00" "10:00" ≡ true)
unfolding is_valid_time matches_time is_valid_date matches_date units units_lt to_minutes
    units_minutes
touching_both_active_example =
    touching_both_active (window_of early) (window_of late) "09:00" (refl, refl) (refl, refl) refl
      (omega arith) refl (omega arith) refl

reconcile-IsDue_example :
    IsDue
      (format_date_time_in_timezone deps.intl 0 "UTC").0
      (format_date_time_in_timezone deps.intl 0 "UTC").1
      "p1"
      store.schedules
      PlaylistStatus.draft
unfolding find_playlist reconcile reconcile_loop distinct reconcile_one count_unfinished_by_playlist
    set_status update_status
reconcile-IsDue_example =
    reconcile-IsDue deps.intl none (some ("p1" ∷ [])) 0 "2025" store "p1" refl refl
