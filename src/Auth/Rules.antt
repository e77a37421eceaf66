-- ===== src/Auth/Rules.antt =====
-- What the built-in policy grants, and the gates in front of the handlers (permission.go, rbac.go).
use cooker.Prelude.{
  String, true, false, ◌||◌, not, Option, none, some, List, [], ◌∷◌, ◌≡◌, inl, inr, ◌↔◌, refl, sym,
  ap, ◌∙◌, subst, arith, ◌=ₛ◌, =ₛ_eq, Bool-cases, In, has, has-In, In-has,
}
use text.Mathlib.TextEquality.{eq_iff}
use cooker.Auth.{
  Claims, next, forbidden, default_policy, role_admin, role_approver, role_viewer, action_read,
  action_reveal, action_approve, resource_secret, resource_promotion, any_allowed, row_allows,
  permission, holds_one, require_role, non_empty, require_mfa, approver_role, admin_role,
  can_approve_promotion, can_reveal_secret,
}
use cooker.Auth.Matrix.{
  permission_exact, last_row_sound, all_rows, any_allowed-Meets, Meets-any_allowed, Meets,
  find_row-policy_matrix,
}

-- Under the built-in policy an admin may do whatever anyone may do.
admin_superset :
    (c d : Claims) (r a : String)
    → In role_admin d.roles
    → permission default_policy (some c) r a ≡ true
    → permission default_policy (some d) r a ≡ true
unfolding has
admin_superset c d r a admin h =
    let (allowed, row, shared) = (permission_exact default_policy c r a).0 h in
    let (e, test, p, q, same) =
      last_row_sound (λ e. has role_admin e.allowed_roles) r a default_policy allowed listed row in
    (permission_exact default_policy d r a).1 (
      allowed,
      row,
      (
        role_admin,
        admin,
        subst (λ x. In role_admin x) same (has-In role_admin e.allowed_roles test),
      ),
    )
  where
    listed : all_rows (λ e. has role_admin e.allowed_roles) default_policy ≡ true
    listed = refl

-- Under the built-in policy a caller who holds no role but the viewer's may only read.
pub viewer_reads :
    (c : Claims) (r a : String)
    → ((x : String) → In x c.roles → x ≡ role_viewer)
    → permission default_policy (some c) r a ≡ true
    → a ≡ action_read
unfolding has
viewer_reads c r a only h =
    let (allowed, row, (x, held, named)) = (permission_exact default_policy c r a).0 h in
    let (e, test, p, q, same) =
      last_row_sound (λ e. e.action =ₛ action_read || not (has role_viewer e.allowed_roles)) r a
        default_policy allowed listed row in
    let viewer : In role_viewer e.allowed_roles =
      subst (λ k. In role_viewer k) (sym same) (subst (λ k. In k allowed) (only x held) named) in
    let there = In-has role_viewer e.allowed_roles viewer in
    sym q ∙ =ₛ_eq e.action action_read (ground arith)
  where
    listed :
        all_rows
          (λ e. e.action =ₛ action_read || not (has role_viewer e.allowed_roles))
          default_policy
        ≡ true
    listed = refl

admin_role-any : (rs : List String) → admin_role rs ≡ any_allowed rs (role_admin ∷ [])
unfolding admin_role any_allowed has
admin_role-any [] = refl
admin_role-any (r ∷ rs) =
    ground (arith, admin_role-any rs, eq_iff r role_admin, eq_iff role_admin r)

approver_role-any :
    (rs : List String) → approver_role rs ≡ any_allowed rs (role_admin ∷ role_approver ∷ [])
unfolding approver_role any_allowed has
approver_role-any [] = refl
approver_role-any (r ∷ rs) = ground (
  arith,
  approver_role-any rs,
  eq_iff r role_admin,
  eq_iff role_admin r,
  eq_iff r role_approver,
  eq_iff role_approver r,
)

-- The two role checks written by hand agree with the matrix: revealing a secret and approving a
-- promotion.
pub hand_written_checks :
    (o : Option Claims)
    → (can_reveal_secret o ≡ permission default_policy o resource_secret action_reveal)
      × (can_approve_promotion o ≡ permission default_policy o resource_promotion action_approve)
unfolding can_reveal_secret can_approve_promotion permission
hand_written_checks none = (refl, refl)
hand_written_checks (some c) = (
  admin_role-any c.roles
      ∙ sym (
          ap (row_allows c.roles)
            (find_row-policy_matrix resource_secret action_reveal default_policy)),
  approver_role-any c.roles
      ∙ sym (
          ap (row_allows c.roles)
            (find_row-policy_matrix resource_promotion action_approve default_policy)),
)

holds_one-any :
    (required roles : List String) → holds_one required roles ≡ any_allowed required roles
unfolding holds_one any_allowed
holds_one-any [] roles = refl
holds_one-any (r ∷ required) roles = ground (arith, holds_one-any required roles)

-- `RequireRole` hands a request on exactly if the caller holds one of the roles.
pub require_role_exact :
    (required : List String) (c : Claims)
    → (require_role required (some c) ≡ next) ↔ Meets required c.roles
unfolding require_role
require_role_exact required c = (there, back)
  where
    there : require_role required (some c) ≡ next → Meets required c.roles
    there h = elim (Bool-cases (holds_one required c.roles)) [
      | inl held ↦ any_allowed-Meets required c.roles (sym (holds_one-any required c.roles) ∙ held)
      | inr free ↦ absurd (let q = rw free at h in cc)
    ]

    back : Meets required c.roles → require_role required (some c) ≡ next
    back (x, p, q) = rw (holds_one-any required c.roles, Meets-any_allowed required c.roles x p q)

blank_absent : (vs : List String) → has "" (non_empty vs) ≡ false
unfolding has non_empty
blank_absent [] = refl
blank_absent (v ∷ vs) = ground (arith, blank_absent vs)

-- Where the step-up gate is configured, claims with a blank `acr` and no `amr`, which API tokens
-- carry, never pass it.
pub require_mfa_blank :
    (v : String) (vs : List String) (c : Claims)
    → c.acr ≡ ""
    → c.amr ≡ []
    → require_mfa (v ∷ vs) (some c) ≡ forbidden
unfolding require_mfa any_allowed
require_mfa_blank v vs c acr amr = rw (acr, amr, blank_absent (v ∷ vs))
