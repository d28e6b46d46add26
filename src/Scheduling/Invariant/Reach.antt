-- ===== src/Scheduling/Invariant/Reach.antt =====
-- The use cases on schedules as steps: what every table that they reach keeps.
use wildfire.Base.{◌≡◌, String, ◌==◌, false, Option, All}
use wildfire.Store.{Store, ScheduleRow}
use wildfire.Scheduling.Mutations.{Deps, Call}
use wildfire.Scheduling.Mutations.Create.{CreateInput, create_schedule}
use wildfire.Scheduling.Mutations.Update.{UpdateInput, update_schedule}
use wildfire.Scheduling.Mutations.Delete.{delete_schedule}
use wildfire.Scheduling.Invariant.{IsConsistent}
use wildfire.Scheduling.Invariant.Create.{create_schedule-IsConsistent}
use wildfire.Scheduling.Invariant.Update.{update_schedule-IsConsistent}
use wildfire.Scheduling.Invariant.Delete.{delete_schedule-IsConsistent}

-- A call, answered or refused, and the reconciliation in it. A new schedule's id is fresh.
pub data Step (deps : Deps) (st : Store) : Store → Type 0 where
  created :
      (call : Call) (input : CreateInput)
      → All (λ (r : ScheduleRow). (r.id == call.uuid) ≡ false) st.schedules
      → Step deps st (create_schedule deps call input st).1
  updated :
      (call : Call) (input : UpdateInput) → Step deps st (update_schedule deps call input st).1
  deleted :
      (call : Call) (id : String) (owner : Option String)
      → Step deps st (delete_schedule deps call id owner st).1

pub data Reach (deps : Deps) (st : Store) : Store → Type 0 where
  here : Reach deps st st
  next : {u v : Store} → Reach deps st u → Step deps u v → Reach deps st v

Step-IsConsistent :
    (deps : Deps) (st : Store) {st' : Store} → IsConsistent st → Step deps st st' → IsConsistent st'
Step-IsConsistent deps st inv (created call input fresh) =
    create_schedule-IsConsistent deps call input st inv fresh
Step-IsConsistent deps st inv (updated call input) =
    update_schedule-IsConsistent deps call input st inv
Step-IsConsistent deps st inv (deleted call id owner) =
    delete_schedule-IsConsistent deps call id owner st inv

-- From a consistent table, such as an empty one, every series of creations, updates and deletions,
-- each answered or refused, leads to a consistent table: rows well formed, their ids a key, and no
-- two rows in conflict.
pub Reach-IsConsistent :
    (deps : Deps) (st : Store) {st' : Store}
    → IsConsistent st
    → Reach deps st st'
    → IsConsistent st'
Reach-IsConsistent deps st inv here = inv
Reach-IsConsistent deps st inv (next {u} r s) =
    Step-IsConsistent deps u (Reach-IsConsistent deps st inv r) s
