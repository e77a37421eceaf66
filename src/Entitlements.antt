-- ===== src/Entitlements.antt =====
-- The features of an installation: backend/internal/entitlements/entitlements.go and
-- backend/internal/model/license.go. An instant counts nanoseconds since Go's zero Time.
pub mod Plans
pub mod Tests
use cooker.Prelude.{
  ℕ, String, Bool, true, false, not, Option, none, some, List, [], ◌∷◌, ◌++◌, if◌then◌else◌, ltb,
  ◌=ₛ◌, has,
}
use cooker.Prelude.Int.{ℤ, pos}

pub record License : Type 0 where
  pub id : String
  pub raw_token : String
  pub plan : String
  pub seats : ℤ
  pub features : List String
  pub customer : String
  pub issued_at : ℕ
  pub expires_at : Option ℕ
  pub installed_at : ℕ
  pub installed_by_sub : String
  pub installed_by_email : String

unfoldable pub is_expired : License → ℕ → Bool
is_expired l now = elim l.expires_at [ none ↦ false | some t ↦ not (ltb now t) ]

-- A nil license is `none`.
unfoldable pub is_active : Option License → ℕ → Bool
unfolding is_expired
is_active none now = false
is_active (some l) now = not (is_expired l now)

abbrev pub plan_free : String
plan_free = "free"

abbrev pub plan_crew : String
plan_crew = "crew"

abbrev pub plan_constellation : String
plan_constellation = "constellation"

abbrev pub feature_multi_replica : String
feature_multi_replica = "multi_replica"

abbrev pub feature_oidc_mfa : String
feature_oidc_mfa = "oidc_mfa"

abbrev pub feature_managed_secrets : String
feature_managed_secrets = "managed_secrets"

abbrev pub feature_sso_group_map : String
feature_sso_group_map = "sso_group_map"

abbrev pub feature_audit_otlp : String
feature_audit_otlp = "audit_otlp"

abbrev pub feature_air_gapped : String
feature_air_gapped = "air_gapped"

pub record Entitlements : Type 0 where
  pub plan : String
  pub seats : ℤ
  pub features : List String

unfoldable pub has_feature : Entitlements → String → Bool
has_feature e f = has f e.features

-- A plan that the table does not name has no features.
unfoldable pub plan_features : String → List String
plan_features p =
    if p =ₛ plan_crew
    then feature_multi_replica ∷ feature_oidc_mfa ∷ feature_managed_secrets ∷ feature_audit_otlp
      ∷ []
    else if p =ₛ plan_constellation
    then feature_multi_replica ∷ feature_oidc_mfa ∷ feature_managed_secrets ∷ feature_audit_otlp
      ∷ feature_sso_group_map ∷ feature_air_gapped ∷ []
    else []

-- The second loop of `featureSet`.
unfoldable pub add_features : List String → List String → List String
add_features [] out = out
add_features (f ∷ fs) out = add_features fs (if f =ₛ "" then out else out ++ (f ∷ []))

unfoldable pub feature_set : String → List String → List String
unfolding plan_features add_features
feature_set plan extra = add_features extra (plan_features plan)

unfoldable pub free : Entitlements
unfolding feature_set
free = record { plan = plan_free; seats = pos 1; features = feature_set plan_free [] }

abbrev pub named_plan : String → String
named_plan p = if p =ₛ "" then plan_free else p

abbrev pub granted : License → Entitlements
granted l = record {
  plan = named_plan l.plan;
  seats = l.seats;
  features = feature_set (named_plan l.plan) l.features;
}

unfoldable pub from_license : Option License → ℕ → Entitlements
unfolding is_active feature_set free
from_license none now = free
from_license (some l) now = if is_active (some l) now then granted l else free
