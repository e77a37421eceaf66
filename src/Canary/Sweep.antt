-- ===== src/Canary/Sweep.antt =====
-- The automatic end of rollouts, `SweepAutoPromote` (backend/internal/service/canary.go). One time
-- stands for the calls of the clock in one sweep.
use cooker.Prelude.{
  String, Bool, false, ◌&&◌, not, Option, none, some, List, [], ◌∷◌, if◌then◌else◌,
}
use Prim.Native.String.{◌++◌ as append}
use cooker.Prelude.Int.{ℤ, pos, ◌+ℤ◌, ◌-ℤ◌}
use cooker.Canary.{
  aborted, AppCanary, before, Claim, not_found, lost, won, claim_terminal, update,
  delete_stale_pending, list_progressing,
}
use cooker.Canary.Service.{
  App, WeightedRequest, SplitError, World, AppAnswer, app_found, app_gone, app_unreadable, written,
  promote, abort,
}

-- The readiness probe of the canary's own pods with its detail, or the app's prober with its
-- message, or neither.
pub data Health : Type 0 where
  healthy : Health
  failed_health : Health
  other_health : String → Health

pub data Readiness : Type 0 where
  ready : String → Readiness
  not_ready : String → Readiness
  probe_error : String → Readiness

pub data Prober : Type 0 where
  canary_prober : (App → Readiness) → Prober
  app_prober : (App → Health × String) → Prober
  no_prober : Prober

pub data Decision : Type 0 where
  wait : Decision
  promote_it : Decision
  roll_back : Decision

-- Past the hard deadline of 30 minutes.
abbrev pub past_deadline : ℤ → AppCanary → Bool
past_deadline now c = before (c.started_at +ℤ pos 1800000000000) now

abbrev pub late : ℤ → AppCanary → (over early : String) → Decision × String
late now c over early = if past_deadline now c then (roll_back, over) else (wait, early)

abbrev pub by_readiness : ℤ → AppCanary → Readiness → Decision × String
by_readiness now c (probe_error e) =
    late now c (append "canary readiness unknown past deadline: " e)
      (append "canary readiness inconclusive: " e)
by_readiness now c (ready detail) = (promote_it, append "canary workload: " detail)
by_readiness now c (not_ready detail) =
    late now c (append "canary workload not ready past deadline: " detail)
      (append "canary workload not ready yet: " detail)

abbrev pub by_health : ℤ → AppCanary → Health × String → Decision × String
by_health now c (healthy, msg) = (promote_it, msg)
by_health now c (failed_health, msg) = (roll_back, msg)
by_health now c (other_health health, msg) =
    late now c (append "health " (append health (append " past deadline: " msg)))
      (append "health " (append health (append ": " msg)))

-- `decide`.
abbrev pub decide : Prober → ℤ → App → AppCanary → Decision × String
decide (canary_prober probe) now app c = by_readiness now c (probe app)
decide (app_prober probe) now app c = by_health now c (probe app)
decide no_prober now app c = (promote_it, "no probe wired; assuming healthy")

module _ (now : ℤ) (deploy : WeightedRequest → Option SplitError) (apps : String → AppAnswer)
    (prober : Prober) where
  abbrev pub act_on : Decision × String → AppCanary → World → World
  act_on (wait, msg) c w = w
  act_on (promote_it, msg) c w = (promote now deploy apps c.app_id w).1
  act_on (roll_back, msg) c w = (abort now deploy apps c.app_id (append "auto-rollback: " msg) w).1

  -- `evaluate`.
  abbrev pub evaluate : App → AppCanary → World → World
  evaluate app c w = act_on (decide prober now app c) c w

  abbrev pub reaped : AppCanary → World → Claim → World
  reaped c w not_found = w
  reaped c w lost = w
  reaped c w (won m) =
      written
        (update now
          (record c {
            status = aborted;
            message = "app deleted during canary";
            resolved_at = some now;
          })
          m)
        (record w { canaries = m })

  -- `reapAppGone`.
  abbrev pub reap_app_gone : AppCanary → World → World
  reap_app_gone c w = reaped c w (claim_terminal now c.id aborted w.canaries)

  -- Auto-promotion is due.
  abbrev pub is_due : AppCanary → Bool
  is_due c = c.auto_promote && window_over c.promote_after
    where
      window_over : Option ℤ → Bool
      window_over none = false
      window_over (some t) = not (before now t)

  abbrev pub sweep_one : AppAnswer → AppCanary → World → World
  sweep_one app_gone c w = reap_app_gone c w
  sweep_one app_unreadable c w = w
  sweep_one (app_found app) c w = if is_due c then evaluate app c w else w

  unfoldable pub sweep_all : List AppCanary → World → World
  sweep_all [] w = w
  sweep_all (c ∷ cs) w = sweep_all cs (sweep_one (apps c.app_id) c w)

  -- `SweepAutoPromote` with a weighted deployer: pending rows of an hour ago are removed first.
  unfoldable pub sweep_auto_promote : World → World
  sweep_auto_promote w =
      let (removed, m) = delete_stale_pending (now -ℤ pos 3600000000000) w.canaries in
      sweep_all (list_progressing m) (record w { canaries = m })
