-- ===== src/Auth.antt =====
-- Roles, the permission matrix and the request gates: backend/internal/auth/rbac.go and
-- backend/internal/auth/permission.go. A `Role`, a `Resource` and an `Action` are texts, as in
-- the source. Unauthenticated requests have no claims: `none`. A gate either hands the request on
-- or answers it, and its log line and the answer's body are left out.
pub mod Policy
pub mod Matrix
pub mod Rules
pub mod Groups
pub mod Tests
use cooker.Prelude.{
  String, Bool, true, false, ◌&&◌, ◌||◌, Option, none, some, List, [], ◌∷◌, ◌++◌, if◌then◌else◌,
  ◌=ₛ◌, has,
}
use cooker.Prelude.Dict.{lookup}
pub use Policy.*

-- `m[key] = roles`: the later row of a key replaces the earlier one.
unfoldable pub put_row : PolicyEntry → List PolicyEntry → List PolicyEntry
put_row e [] = e ∷ []
put_row e (f ∷ m) =
    if f.resource =ₛ e.resource && f.action =ₛ e.action then e ∷ m else f ∷ put_row e m

unfoldable pub put_rows : List PolicyEntry → List PolicyEntry → List PolicyEntry
unfolding put_row
put_rows [] m = m
put_rows (e ∷ es) m = put_rows es (put_row e m)

unfoldable pub policy_matrix : List PolicyEntry → List PolicyEntry
unfolding put_rows
policy_matrix es = put_rows es []

unfoldable pub find_row : String → String → List PolicyEntry → Option (List String)
find_row r a [] = none
find_row r a (e ∷ m) =
    if e.resource =ₛ r && e.action =ₛ a then some e.allowed_roles else find_row r a m

-- Whether one of the roles is allowed: the loop over `claims.Roles`.
unfoldable pub any_allowed : List String → List String → Bool
unfolding has
any_allowed [] allowed = false
any_allowed (r ∷ rs) allowed = has r allowed || any_allowed rs allowed

abbrev pub row_allows : List String → Option (List String) → Bool
row_allows roles none = false
row_allows roles (some allowed) = any_allowed roles allowed

-- `Permission`, over the rows of a policy; the source has `default_policy`.
unfoldable pub permission : List PolicyEntry → Option Claims → String → String → Bool
unfolding any_allowed policy_matrix find_row
permission es none r a = false
permission es (some c) r a = row_allows c.roles (find_row r a (policy_matrix es))

pub data Gate : Type 0 where
  next unauthorized forbidden : Gate

unfoldable pub require_permission : List PolicyEntry → String → String → Option Claims → Gate
unfolding permission
require_permission es r a none = unauthorized
require_permission es r a (some c) = if permission es (some c) r a then next else forbidden

-- The double loop of `RequireRole`.
unfoldable pub holds_one : List String → List String → Bool
unfolding has
holds_one [] roles = false
holds_one (r ∷ required) roles = has r roles || holds_one required roles

unfoldable pub require_role : List String → Option Claims → Gate
unfolding holds_one
require_role required none = unauthorized
require_role required (some c) = if holds_one required c.roles then next else forbidden

unfoldable pub non_empty : List String → List String
non_empty [] = []
non_empty (v ∷ vs) = let rest = non_empty vs in if v =ₛ "" then rest else v ∷ rest

unfoldable pub require_mfa : List String → Option Claims → Gate
unfolding any_allowed has non_empty
require_mfa [] c = next
require_mfa (v ∷ vs) none = unauthorized
require_mfa (v ∷ vs) (some c) =
    let allowed = non_empty (v ∷ vs) in
    if has c.acr allowed || any_allowed c.amr allowed then next else forbidden

unfoldable pub approver_role : List String → Bool
approver_role [] = false
approver_role (r ∷ rs) = r =ₛ role_admin || r =ₛ role_approver || approver_role rs

unfoldable pub can_approve_promotion : Option Claims → Bool
unfolding approver_role
can_approve_promotion none = false
can_approve_promotion (some c) = approver_role c.roles

unfoldable pub admin_role : List String → Bool
admin_role [] = false
admin_role (r ∷ rs) = r =ₛ role_admin || admin_role rs

unfoldable pub can_reveal_secret : Option Claims → Bool
unfolding admin_role
can_reveal_secret none = false
can_reveal_secret (some c) = admin_role c.roles

abbrev pub default_group_role_map : List (String × String)
default_group_role_map =
    ("cooker-admins", role_admin)
    ∷ ("cooker-operators", role_operator)
    ∷ ("cooker-approvers", role_approver)
    ∷ ("cooker-viewers", role_viewer)
    ∷ []

-- One turn of the loop: `seen` has the roles collected so far.
abbrev pub add_role : Option String → List String → List String
add_role none roles = roles
add_role (some role) roles = if has role roles then roles else roles ++ (role ∷ [])

unfoldable pub collect_roles : List String → List (String × String) → List String → List String
unfolding has lookup
collect_roles [] m roles = roles
collect_roles (g ∷ gs) m roles = collect_roles gs m (add_role (lookup g m) roles)

abbrev pub or_viewer : List String → List String
or_viewer [] = role_viewer ∷ []
or_viewer (r ∷ rs) = r ∷ rs

abbrev pub or_default : List (String × String) → List (String × String)
or_default [] = default_group_role_map
or_default (p ∷ m) = p ∷ m

unfoldable pub map_groups_to_roles_with : List String → List (String × String) → List String
unfolding collect_roles
map_groups_to_roles_with groups m = or_viewer (collect_roles groups (or_default m) [])

unfoldable pub map_groups_to_roles : List String → List String
unfolding map_groups_to_roles_with
map_groups_to_roles groups = map_groups_to_roles_with groups []
