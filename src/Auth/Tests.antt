-- ===== src/Auth/Tests.antt =====
-- Claims and groups, and what the checks say of them.
use cooker.Prelude.{String, true, some, List, [], ◌∷◌, ◌≡◌, ◌⊎◌, ◌↔◌, inl, inr, refl, sym, In, has}
use cooker.Auth.{
  Claims, default_policy, role_operator, role_viewer, resource_run, action_read, action_update,
  permission, map_groups_to_roles_with, or_default,
}
use cooker.Auth.Matrix.{permission_exact, last_row, Meets}
use cooker.Auth.Rules.{viewer_reads}
use cooker.Auth.Groups.{Maps, IsDistinct, map_groups_lem}

abbrev with_roles : List String → Claims
with_roles roles = record {
  subject = "u1";
  email = "u1@example.org";
  name = "U";
  groups = [];
  roles = roles;
  acr = "";
  amr = [];
}

permission_exact_example :
    (permission default_policy (some (with_roles (role_operator ∷ []))) resource_run action_update
      ≡ true)
    ↔ ((allowed : List String) × (last_row resource_run action_update default_policy ≡ some allowed)
        × Meets (role_operator ∷ []) allowed)
permission_exact_example =
    permission_exact default_policy (with_roles (role_operator ∷ [])) resource_run action_update

viewer_alone : (x : String) → In x (role_viewer ∷ []) → x ≡ role_viewer
viewer_alone x (inl e) = sym e
viewer_alone x (inr b) = absurd b

viewer_sees :
    permission default_policy (some (with_roles (role_viewer ∷ []))) resource_run "read" ≡ true
unfolding permission has
viewer_sees = refl

viewer_reads_example : "read" ≡ action_read
viewer_reads_example =
    viewer_reads (with_roles (role_viewer ∷ [])) resource_run "read" viewer_alone viewer_sees

abbrev groups : List String
groups = "cooker-operators" ∷ "staff" ∷ "cooker-operators" ∷ []

map_groups_lem_example :
    IsDistinct (map_groups_to_roles_with groups [])
    × ((x : String)
        → In x (map_groups_to_roles_with groups []) ↔ (
            Maps groups (or_default []) x
            ⊎ (((y : String) → ¬ Maps groups (or_default []) y) × (x ≡ role_viewer))))
map_groups_lem_example = map_groups_lem groups []
