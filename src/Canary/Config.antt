-- ===== src/Canary/Config.antt =====
-- The canary configuration of an app (backend/internal/model/canary.go) and the split of a pool of
-- replicas by weight (backend/internal/deploy/deployer/weighted.go).
use cooker.Prelude.{
  ℕ, ◌+◌, ◌-◌, ◌*◌, ◌/◌, String, Bool, false, ◌&&◌, ◌||◌, Option, none, some, ltb, leb, ◌==◌, ◌=ₛ◌,
  if◌then◌else◌,
}
use cooker.Prelude.Int.{ℤ, pos, negsuc, ltb_ℤ}
use cooker.Canary.{is_unset}

pub record CanaryConfig : Type 0 where
  pub strategy : String
  pub weight : ℤ
  pub auto_promote : Bool
  pub health_window_seconds : ℤ

-- `IsCanary`.
abbrev pub is_canary : CanaryConfig → Bool
is_canary c = c.strategy =ₛ "canary"

-- `Normalize`.
abbrev pub normalize : CanaryConfig → CanaryConfig
normalize c =
    let strategy = if c.strategy =ₛ "" then "rolling" else c.strategy in
    if strategy =ₛ "canary"
    then record {
      strategy = strategy;
      weight = if is_unset c.weight then pos 10 else c.weight;
      auto_promote = c.auto_promote;
      health_window_seconds =
          if c.auto_promote && ltb_ℤ c.health_window_seconds (pos 1)
          then pos 300
          else c.health_window_seconds;
    }
    else record {
      strategy = strategy;
      weight = pos 0;
      auto_promote = false;
      health_window_seconds = pos 0;
    }

-- `Validate`: the field that is refused, if one is.
abbrev pub validate : CanaryConfig → Option String
validate c =
    if (c.strategy =ₛ "") || (c.strategy =ₛ "rolling")
    then none
    else if c.strategy =ₛ "canary"
    then (if ltb_ℤ c.weight (pos 1) || ltb_ℤ (pos 99) c.weight
        then some "canaryWeight"
        else if c.auto_promote && ltb_ℤ c.health_window_seconds (pos 0)
        then some "canaryHealthWindowSeconds"
        else none)
    else some "deployStrategy"

-- `splitReplicas` for a positive pool: the canary's pods and the stable ones.
abbrev pub clamp : ℕ → ℕ → ℕ
clamp n pool =
    let raised = if ltb n 1 then 1 else n in if ltb (pool - 1) raised then pool - 1 else raised

abbrev pub pool_of : ℤ → ℕ
pool_of (pos n) = if n == 0 then 4 else n
pool_of (negsuc n) = 4

-- `splitReplicas`.
abbrev pub split_replicas : ℤ → ℤ → ℕ × ℕ
split_replicas (negsuc w) pool = (0, pool_of pool)
split_replicas (pos w) pool =
    let n = pool_of pool in
    let canary = clamp ((w * n + 50) / 100) n in
    if w == 0 then (0, n) else if leb 100 w then (n, 0) else (canary, n - canary)
