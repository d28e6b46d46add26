-- ===== src/Rbac/Permissions.antt =====
-- domain/rbac/permission.ts and permission-types.ts: a permission and its text.
use Prim.Native.Char.{code}
use wildfire.Base.{
  String, ◌==◌, Bool, ◌&&◌, if◌then◌else◌, eqb, Option, none, some, Result, ok, fault, ◌>>=◌,
  or_throw, List, [], ◌∷◌, find, truthy,
}
use wildfire.Schedule.{◌+++◌}

pub data PermissionResource : Type 0 where
  admin displays content playlists schedules users roles audit ai : PermissionResource

pub data PermissionAction : Type 0 where
  access read create update delete : PermissionAction

pub record Permission : Type 0 where
  pub resource : PermissionResource
  pub action : PermissionAction

abbrev pub resource_text : PermissionResource → String
resource_text admin = "admin"
resource_text displays = "displays"
resource_text content = "content"
resource_text playlists = "playlists"
resource_text schedules = "schedules"
resource_text users = "users"
resource_text roles = "roles"
resource_text audit = "audit"
resource_text ai = "ai"

abbrev pub action_text : PermissionAction → String
action_text access = "access"
action_text read = "read"
action_text create = "create"
action_text update = "update"
action_text delete = "delete"

abbrev valid_resources : List PermissionResource
valid_resources =
    admin ∷ displays ∷ content ∷ playlists ∷ schedules ∷ users ∷ roles ∷ audit ∷ ai ∷ []

abbrev valid_actions : List PermissionAction
valid_actions = access ∷ read ∷ create ∷ update ∷ delete ∷ []

-- What `split(":")` has first, and the text behind the colon, if there is one.
split_colon : String → String × Option String
split_colon String.[] = ("", none)
split_colon (String.◌∷◌ c s) =
    let (before, after) = split_colon s in
    if eqb (code c) b':' then ("", some s) else (String.◌∷◌ c before, after)

-- The first two parts of `split(":")`; what stands behind a second colon is dropped.
unfoldable pub two_parts : String → String × Option String
unfolding split_colon
two_parts value =
    let (first, rest) = split_colon value in
    elim rest [ none ↦ (first, none) | some after ↦ (first, some (split_colon after).0) ]

-- The messages end with the list of what is valid.
unfoldable pub parse_permission : String → Result Permission
unfolding two_parts
parse_permission value =
    let (resource_part, action_part) = two_parts value in
    do
      resource ←
          or_throw (truthy (some resource_part))
            (fault "Permission must be in resource:action format")
      action ← or_throw (truthy action_part) (fault "Permission must be in resource:action format")
      r ←
          or_throw (find (λ x. resource_text x == resource) valid_resources)
            (fault "Invalid permission resource")
      a ←
          or_throw (find (λ x. action_text x == action) valid_actions)
            (fault "Invalid permission action")
      ok (record { resource = r; action = a })

unfoldable pub matches : Permission → Permission → Bool
matches p required =
    resource_text p.resource == resource_text required.resource
    && action_text p.action == action_text required.action

abbrev pub permission_key : Permission → String
permission_key p = resource_text p.resource +++ ":" +++ action_text p.action
