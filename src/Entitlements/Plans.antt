-- ===== src/Entitlements/Plans.antt =====
-- What a license unlocks (entitlements.go, license.go).
use cooker.Prelude.{
  ℕ, ◌<◌, String, true, false, not, Option, none, some, List, [], ◌∷◌, ◌++◌, ◌≡◌, ◌≢◌, ◌⊎◌, ◌↔◌,
  inl, inr, refl, sym, ◌∙◌, arith, ltb, ◌=ₛ◌, Bool-cases, Option-cases, some_inj, some-ne-none,
  has-In, In-has, In, In-append_left, In-append_right, In-append_cases,
}
use text.Mathlib.TextEquality.{eq_iff}
use cooker.Entitlements.{
  License, is_expired, is_active, plan_free, plan_crew, plan_constellation, has_feature,
  plan_features, add_features, feature_set, free, named_plan, from_license,
}

In-add_features :
    (fs out : List String) (f : String)
    → In f (add_features fs out) ↔ (In f out ⊎ (In f fs × (f ≢ "")))
unfolding add_features
In-add_features [] out f = (λ m. inl m, elim [ inl m ↦ m | inr (b, n) ↦ absurd b ])
In-add_features (g ∷ fs) out f = elim (Bool-cases (g =ₛ "")) [
  | inl blank ↦
      let (there, back) = In-add_features fs out f in
      rw blank (
        λ m. skip (there m),
        elim [
          | inl m ↦ back (inl m)
          | inr (inl e, n) ↦ absurd (n (sym e ∙ (eq_iff g "").0 blank))
          | inr (inr m, n) ↦ back (inr (m, n))
        ],
      )
  | inr word ↦
      let (there, back) = In-add_features fs (out ++ (g ∷ [])) f in
      let named : g ≢ "" = λ q. absurd (let z = (eq_iff g "").1 q in cc) in
      rw word (
        λ m. split named (there m),
        elim [
          | inl m ↦ back (inl (In-append_left f out (g ∷ []) m))
          | inr (inl e, n) ↦ back (inl (In-append_right f out (g ∷ []) (inl e)))
          | inr (inr m, n) ↦ back (inr (m, n))
        ],
      )
]
  where
    skip : In f out ⊎ (In f fs × (f ≢ "")) → In f out ⊎ (In f (g ∷ fs) × (f ≢ ""))
    skip (inl m) = inl m
    skip (inr (m, n)) = inr (inr m, n)

    split :
        g ≢ ""
        → In f (out ++ (g ∷ [])) ⊎ (In f fs × (f ≢ ""))
        → In f out ⊎ (In f (g ∷ fs) × (f ≢ ""))
    split named (inr (m, n)) = inr (inr m, n)
    split named (inl m) = elim (In-append_cases f out (g ∷ []) m) [
      | inl l ↦ inl l
      | inr (inl e) ↦ inr (inl e, λ q. named (e ∙ q))
      | inr (inr b) ↦ absurd b
    ]

-- A license that no longer counts, and none at all, leave exactly the free tier's entitlements.
pub from_license_inactive :
    (o : Option License) (now : ℕ) → is_active o now ≡ false → from_license o now ≡ free
unfolding from_license
from_license_inactive none now h = refl
from_license_inactive (some l) now h = rw h

-- A feature is unlocked exactly if a license counts and the feature is of its plan or one of the
-- named features that the license adds. The empty plan counts as the free one.
pub has_feature_exact :
    (l : License) (now : ℕ) (f : String)
    → (has_feature (from_license (some l) now) f ≡ true) ↔ (
        (is_active (some l) now ≡ true)
        × (In f (plan_features (named_plan l.plan)) ⊎ (In f l.features × (f ≢ ""))))
unfolding from_license has_feature free feature_set
has_feature_exact l now f = elim (Bool-cases (is_active (some l) now)) [
  | inl active ↦
      let (there, back) = In-add_features l.features (plan_features (named_plan l.plan)) f in
      rw active (λ h. (refl, there (has-In f _ h)), λ (a, m). In-has f _ (back m))
  | inr lapsed ↦ rw lapsed (
    λ h. absurd (no_free (has-In f (add_features [] (plan_features plan_free)) h)),
    λ (a, m). absurd (cc),
  )
]
  where
    no_free : In f (add_features [] (plan_features plan_free)) → ⊥
    no_free b = b

-- A license counts at an instant exactly if it does not expire or expires later.
pub is_active_exact :
    (l : License) (now : ℕ)
    → (is_active (some l) now ≡ true) ↔ ((t : ℕ) → l.expires_at ≡ some t → now < t)
unfolding is_active is_expired
is_active_exact l now = elim (Option-cases l.expires_at) [
  | inl forever ↦ (λ h t e. absurd (some-ne-none e forever), λ h. rw forever)
  | inr (u, ends) ↦
      (λ h t e. later u ends t e (rw ends at h), λ h. let soon = h u ends in rw ends (ground arith))
]
  where
    later :
        (u : ℕ)
        → l.expires_at ≡ some u
        → (t : ℕ) → l.expires_at ≡ some t
        → not (not (ltb now u)) ≡ true
        → now < t
    later u ends t e h =
        let same : u ≡ t = some_inj (sym ends ∙ e) in
        let soon : now < u = ground arith in omega arith

-- Each plan has the features of the one below it.
pub plans_grow :
    (f : String)
    → (In f (plan_features plan_free) → In f (plan_features plan_crew))
      × (In f (plan_features plan_crew) → In f (plan_features plan_constellation))
unfolding plan_features
plans_grow f = (λ b. absurd b, λ m. ground arith)
