-- ===== src/Canary/Split.antt =====
-- What the configuration of a rollout comes to: its defaults (backend/internal/model/canary.go) and
-- its pods (backend/internal/deploy/deployer/weighted.go).
use cooker.Prelude.{
  ℕ, ◌+◌, ◌-◌, ◌*◌, ◌/◌, ◌≤◌, ◌<◌, String, Bool, true, false, ◌&&◌, ◌||◌, Option, none, some, ◌≡◌,
  ◌⊎◌, inl, inr, refl, sym, ap, subst, ◌∙◌, Bool-cases, arith, leb, ◌==◌, ◌=ₛ◌, =ₛ_eq,
  if◌then◌else◌,
}
use cooker.Prelude.Int.{ℤ, pos, negsuc, ltb_ℤ}
use cooker.Canary.{is_unset}
use cooker.Canary.Config.{
  CanaryConfig, is_canary, normalize, validate, clamp, pool_of, split_replicas,
}

split_zero : (pool : ℤ) (w : ℕ) → w ≡ 0 → split_replicas (pos w) pool ≡ (0, pool_of pool)
split_zero pool w z = let t : (w == 0) ≡ true = ground (arith, z) in rw t refl

split_full : (pool : ℤ) (w : ℕ) → 100 ≤ w → split_replicas (pos w) pool ≡ (pool_of pool, 0)
split_full pool w le =
    let t : (w == 0) ≡ false = ground (arith, le) in
    let u : leb 100 w ≡ true = ground (arith, le) in rw (t, u) refl

abbrev rounded : ℕ → ℕ → ℕ
rounded w n = (w * n + 50) / 100

split_part :
    (pool : ℤ) (w : ℕ)
    → 1 ≤ w
    → w < 100
    → split_replicas (pos w) pool ≡ (
      clamp (rounded w (pool_of pool)) (pool_of pool),
      pool_of pool - clamp (rounded w (pool_of pool)) (pool_of pool),
    )
split_part pool w le lt =
    let t : (w == 0) ≡ false = ground (arith, le) in
    let u : leb 100 w ≡ false = ground (arith, lt) in rw (t, u) refl

clamp_lem : (x n : ℕ) → 1 ≤ n → (clamp x n ≤ n - 1) × (2 ≤ n → 1 ≤ clamp x n)
clamp_lem x n le = (ground (arith, le), λ two. ground (arith, two))

pool_pos : (pool : ℤ) → 1 ≤ pool_of pool
pool_pos (pos n) = ground arith
pool_pos (negsuc n) = omega arith

-- What a weight makes of a pool of pods.
pub record IsDivided (w pool : ℤ) : Type 0 where
  pub whole : (split_replicas w pool).0 + (split_replicas w pool).1 ≡ pool_of pool
  pub both :
      ltb_ℤ (pos 0) w ≡ true
      → ltb_ℤ w (pos 100) ≡ true
      → 2 ≤ pool_of pool
      → (1 ≤ (split_replicas w pool).0) × (1 ≤ (split_replicas w pool).1)
  pub single : ltb_ℤ w (pos 100) ≡ true → pool_of pool ≡ 1 → split_replicas w pool ≡ (0, 1)

-- The pods of the two sides make the whole pool, whatever the weight. While the weight is between 1
-- and 99 and the pool has two pods or more, each side has at least one; but in a pool of one pod
-- the canary has none for any weight below 100.
pub split_replicas-IsDivided : (w pool : ℤ) → IsDivided w pool
split_replicas-IsDivided (negsuc w) pool = record {
  whole = omega arith;
  both = λ p q two. absurd (ground (arith, p));
  single = λ q one. rw one refl;
}
split_replicas-IsDivided (pos w) pool =
    let n = pool_of pool in
    let x = rounded w n in
    let positive = pool_pos pool in
    let bound = clamp_lem x n positive in
    elim (range w) [
      | inl z ↦
          let e = split_zero pool w z in
          record {
            whole = rw e (omega arith);
            both = λ p q two. absurd (ground (arith, z, p));
            single = λ q one. e ∙ rw one refl;
          }
      | inr (inl (le, lt)) ↦
          let e = split_part pool w le lt in
          record {
            whole = rw e (omega (arith, bound.0, positive));
            both = λ p q two. rw e (bound.1 two, omega (arith, bound.0, two));
            single = λ q one. e ∙ rw one (small (rounded w 1));
          }
      | inr (inr full) ↦
          let e = split_full pool w full in
          record {
            whole = rw e (omega arith);
            both = λ p q two. absurd (ground (arith, full, q));
            single = λ q one. absurd (ground (arith, full, q));
          }
    ]
  where
    range : (a : ℕ) → (a ≡ 0) ⊎ (((1 ≤ a) × (a < 100)) ⊎ (100 ≤ a))
    range a = ground arith

    small : (y : ℕ) → ◌≡◌ {A = ℕ × ℕ} (clamp y 1, 1 - clamp y 1) (0, 1)
    small y = let z : clamp y 1 ≡ 0 = ground arith in rw z refl

-- What `Normalize` gives.
pub record IsNormal (c : CanaryConfig) : Type 0 where
  pub stable : normalize (normalize c) ≡ normalize c
  pub weighted :
      is_canary c ≡ true
      → validate (normalize c) ≡ none
      → (ltb_ℤ (pos 0) (normalize c).weight ≡ true) × (ltb_ℤ (normalize c).weight (pos 100) ≡ true)
  pub rolling : is_canary c ≡ false → is_canary (normalize c) ≡ false

normalize_canary :
    (c : CanaryConfig)
    → is_canary c ≡ true
    → normalize c ≡ record {
      strategy = "canary";
      weight = if is_unset c.weight then pos 10 else c.weight;
      auto_promote = c.auto_promote;
      health_window_seconds =
          if c.auto_promote && ltb_ℤ c.health_window_seconds (pos 1)
          then pos 300
          else c.health_window_seconds;
    }
normalize_canary c h = let e = =ₛ_eq c.strategy "canary" h in rw e refl

weight_again :
    (w : ℤ)
    → (if is_unset (if is_unset w then pos 10 else w)
        then pos 10
        else (if is_unset w then pos 10 else w))
      ≡ (if is_unset w then pos 10 else w)
weight_again (pos n) = ground arith
weight_again (negsuc n) = refl

window_again :
    (a : Bool) (w : ℤ)
    → (if a && ltb_ℤ (if a && ltb_ℤ w (pos 1) then pos 300 else w) (pos 1)
        then pos 300
        else (if a && ltb_ℤ w (pos 1) then pos 300 else w))
      ≡ (if a && ltb_ℤ w (pos 1) then pos 300 else w)
window_again a (pos n) = ground arith
window_again a (negsuc n) = ground arith

abbrev plain : String → CanaryConfig
plain s = record {
  strategy = s;
  weight = pos 0;
  auto_promote = false;
  health_window_seconds = pos 0;
}

normalize_rolling :
    (c : CanaryConfig) (s : String)
    → (if c.strategy =ₛ "" then "rolling" else c.strategy) ≡ s
    → (s =ₛ "canary") ≡ false
    → normalize c ≡ plain s
normalize_rolling c s e h = rw (e, h) refl

-- The strategy of an app that does not opt into canaries.
other_strategy :
    (s : String)
    → (s =ₛ "canary") ≡ false
    → (((if s =ₛ "" then "rolling" else s) =ₛ "canary") ≡ false)
      × (((if s =ₛ "" then "rolling" else s) =ₛ "") ≡ false)
other_strategy s h = elim (Bool-cases (s =ₛ "")) [ inl e ↦ rw e (refl, refl) | inr e ↦ rw e (h, e) ]

in_range :
    (x : ℤ) (f : String) (o : Option String)
    → (if ltb_ℤ x (pos 1) || ltb_ℤ (pos 99) x then some f else o) ≡ none
    → (ltb_ℤ (pos 0) x ≡ true) × (ltb_ℤ x (pos 100) ≡ true)
in_range (pos n) f o h = (ground (arith, h), ground (arith, h))
in_range (negsuc n) f o h =
    let low : ltb_ℤ (negsuc n) (pos 1) ≡ true = ground arith in
    let refused : some f ≡ none = rw low at h in absurd (cc)

-- `Normalize` is idempotent; a normal canary configuration that `Validate` accepts has a weight
-- from 1 to 99; and a configuration that is no canary does not become one.
pub normalize-IsNormal : (c : CanaryConfig) → IsNormal c
normalize-IsNormal c = elim (Bool-cases (is_canary c)) [
  | inl h ↦
      let e = normalize_canary c h in
      record {
        stable =
            rw (normalize_canary c h) (
              rw (weight_again c.weight, window_again c.auto_promote c.health_window_seconds) refl);
        weighted = λ y v.
            subst (λ d. (ltb_ℤ (pos 0) d.weight ≡ true) × (ltb_ℤ d.weight (pos 100) ≡ true)) (sym e)
              (in_range (if is_unset c.weight then pos 10 else c.weight) "canaryWeight" _
                (subst (λ d. validate d ≡ none) e v));
        rolling = λ n. absurd (cc);
      }
  | inr h ↦
      let (other, named) = other_strategy c.strategy h in
      let s = if c.strategy =ₛ "" then "rolling" else c.strategy in
      let e = normalize_rolling c s refl other in
      record {
        stable = ap normalize e ∙ normalize_rolling (plain s) s (rw named refl) other ∙ sym e;
        weighted = λ y v. absurd (cc);
        rolling = λ n. subst (λ d. is_canary d ≡ false) (sym e) other;
      }
]
