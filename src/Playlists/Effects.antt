-- ===== src/Playlists/Effects.antt =====
-- `run-playlist-post-mutation-effects.ts`: the effects leave the tables alone.
use wildfire.Schedule.{ScheduleRecord}
use wildfire.Base.{distinct, ◌≡◌, refl, inl, inr, String, List, [], ◌∷◌, map, Result-cases}
use wildfire.Store.{Store}
use wildfire.Store.Schedules.{list_by_playlist}
use wildfire.Playlists.{
  publish_each, publish_playlist_update_events, run_playlist_post_mutation_effects,
}

publish_each-items :
    (reason : String) (displays : List String) (st : Store)
    → (publish_each reason displays st).playlist_items ≡ st.playlist_items
publish_each-items reason [] st = refl
publish_each-items reason (d ∷ ds) st = publish_each-items reason ds _

pub publishes-items :
    (playlist reason : String) (st : Store)
    → (publish_playlist_update_events playlist reason st).1.playlist_items ≡ st.playlist_items
unfolding publish_playlist_update_events
publishes-items playlist reason st = elim (Result-cases (list_by_playlist playlist st)) [
  | inl (e, h) ↦ rw (h, publish_playlist_update_events) refl
  | inr (schedules, h) ↦
      rw (h, publish_playlist_update_events)
        (publish_each-items reason (distinct (map (λ (s : ScheduleRecord). s.display_id) schedules))
          st)
]

-- The effects publish, and write to no table.
pub effects-items :
    (playlist reason : String) (st : Store)
    → (run_playlist_post_mutation_effects playlist reason st).playlist_items ≡ st.playlist_items
effects-items playlist reason st = publishes-items playlist reason st
