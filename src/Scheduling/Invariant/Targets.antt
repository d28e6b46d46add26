-- ===== src/Scheduling/Invariant/Targets.antt =====
-- The target ids that the checks of create and update let through.
use wildfire.Base.{◌≡◌, ◌≢◌, String, eq_iff, Option, none, some, arith, ok, >>=-eq-ok}
use wildfire.Schedule.{SchedulableKind, playlist, flash}
use wildfire.Store.{Store, PlaylistRecord, ContentRecord}
use wildfire.Scheduling.Invariant.{HasTarget}
use wildfire.Scheduling.Mutations.{only_target, resolve_target, playlist_of, content_of}

-- What the resolved target says of the target ids: the kind's own is a text, the other is dropped.
only_target-ok :
    (t o : Option String) (m : String) {id : String}
    → only_target t o m ≡ ok id
    → (t ≡ some id) × (id ≢ "")
only_target-ok none o m h = cc
only_target-ok (some s) o m {id} h = ground (arith, eq_iff s "")

HasTarget-playlist :
    (p : Option String) {id : String} → (p ≡ some id) × (id ≢ "") → HasTarget p none
HasTarget-playlist p (e, n) = rw e n

HasTarget-flash : (c : Option String) {id : String} → (c ≡ some id) × (id ≢ "") → HasTarget none c
HasTarget-flash c (e, n) = rw e n

pub resolve_target-HasTarget :
    (kind : SchedulableKind) (p c scope : Option String) (s e : String) (st : Store)
    {found : Option PlaylistRecord × Option ContentRecord}
    → resolve_target kind p c scope s e st ≡ ok found
    → HasTarget (playlist_of kind p) (content_of kind c)
unfolding resolve_target
resolve_target-HasTarget playlist p c scope s e st h =
    HasTarget-playlist p (only_target-ok p c _ (>>=-eq-ok _ _ h).1)
resolve_target-HasTarget flash p c scope s e st h =
    HasTarget-flash c (only_target-ok c p _ (>>=-eq-ok _ _ h).1)

-- What a plan stands for.
