-- ===== src/Entitlements/Tests.antt =====
-- A license at two instants.
use cooker.Prelude.{true, false, some, [], ◌∷◌, ◌≡◌, ◌≢◌, ◌⊎◌, ◌↔◌, refl, In}
use cooker.Prelude.Int.{pos}
use cooker.Entitlements.{
  License, is_active, plan_free, plan_crew, plan_constellation, feature_oidc_mfa, has_feature,
  plan_features, named_plan, from_license,
}
use cooker.Entitlements.Plans.{has_feature_exact, plans_grow}

abbrev crew : License
crew = record {
  id = "l1";
  raw_token = "";
  plan = plan_crew;
  seats = pos 3;
  features = "beta" ∷ "" ∷ [];
  customer = "Acme";
  issued_at = 10;
  expires_at = some 100;
  installed_at = 12;
  installed_by_sub = "u1";
  installed_by_email = "u1@example.org";
}

lapsed : is_active (some crew) 100 ≡ false
unfolding is_active
lapsed = refl

has_feature_exact_example : (has_feature (from_license (some crew) 50) feature_oidc_mfa ≡ true) ↔ (
    (is_active (some crew) 50 ≡ true)
    × (In feature_oidc_mfa (plan_features (named_plan plan_crew))
        ⊎ (In feature_oidc_mfa ("beta" ∷ "" ∷ []) × (feature_oidc_mfa ≢ ""))))
has_feature_exact_example = has_feature_exact crew 50 feature_oidc_mfa

plans_grow_example :
    (In feature_oidc_mfa (plan_features plan_free) → In feature_oidc_mfa (plan_features plan_crew))
    × (In feature_oidc_mfa (plan_features plan_crew)
        → In feature_oidc_mfa (plan_features plan_constellation))
plans_grow_example = plans_grow feature_oidc_mfa
