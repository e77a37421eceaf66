-- ===== src/Canary/History.antt =====
-- Sequences of calls of the canary service (backend/internal/service/canary.go).
use cooker.Prelude.{
  ◌+◌, String, true, false, Option, none, some, List, [], ◌≡◌, refl, sym, ap, ◌∙◌, arith, ◌=ₛ◌,
  =ₛ_refl,
}
use cooker.Prelude.Int.{ℤ}
use cooker.Prelude.Dict.{lookup, insert}
use cooker.Canary.{progressing, AppCanary, canary_active, create, slot_taken, update}
use cooker.Canary.Config.{is_canary, normalize}
use cooker.Canary.Slots.{slot, taken, slot_of, IsSound, taken-insert}
use cooker.Canary.Service.{
  App, WeightedRequest, SplitError, World, refused, canary_in_flight, AppDeploy, AppAnswer, promote,
  abort, revert_claim,
}
use cooker.Canary.Start.{BuildAnswer, start}
use cooker.Canary.Sweep.{Prober, sweep_auto_promote}
use cooker.Canary.Kept.{promote-IsSound, abort-IsSound}
use cooker.Canary.Calls.{start-IsSound}
use cooker.Canary.Sweeps.{sweep_auto_promote-IsSound}

-- The states that the calls of the service lead to from no rollouts, whatever the builder, the
-- cluster, the probe and the apps' store answer.
pub data Reachable : World → Type 0 where
  fresh : Reachable (record { canaries = []; requests = []; notices = [] })
  by_start :
      (now live : ℤ) (percent : ℤ → String) (build : App → String → BuildAnswer)
      (deploy : WeightedRequest → Option SplitError) (id : String) (app : App) (run_id : String)
      (deploys : List AppDeploy) {w : World}
      → Reachable w
      → Reachable (start now live percent build deploy id app run_id deploys w).1
  by_promote :
      (now : ℤ) (deploy : WeightedRequest → Option SplitError) (apps : String → AppAnswer)
      (app_id : String) {w : World}
      → Reachable w
      → Reachable (promote now deploy apps app_id w).1
  by_abort :
      (now : ℤ) (deploy : WeightedRequest → Option SplitError) (apps : String → AppAnswer)
      (app_id reason : String) {w : World}
      → Reachable w
      → Reachable (abort now deploy apps app_id reason w).1
  by_sweep :
      (now : ℤ) (deploy : WeightedRequest → Option SplitError) (apps : String → AppAnswer)
      (prober : Prober) {w : World}
      → Reachable w
      → Reachable (sweep_auto_promote now deploy apps prober w)

-- After any sequence of starts, promotions, aborts and sweeps, each one run to its end before the
-- next, every row stands under its identifier, once, and no app has two rollouts that are pending
-- or progressing.
pub Reachable-IsSound : (w : World) → Reachable w → IsSound w.canaries
Reachable-IsSound w fresh = record { keyed = tt; named = tt; single = λ app. omega arith }
Reachable-IsSound w (by_start now live percent build deploy id app run_id deploys {w = v} r) =
    start-IsSound now live percent build deploy id app run_id deploys v (Reachable-IsSound v r)
Reachable-IsSound w (by_promote now deploy apps app_id {w = v} r) =
    promote-IsSound now deploy apps app_id v (Reachable-IsSound v r)
Reachable-IsSound w (by_abort now deploy apps app_id reason {w = v} r) =
    abort-IsSound now deploy apps app_id reason v (Reachable-IsSound v r)
Reachable-IsSound w (by_sweep now deploy apps prober {w = v} r) =
    sweep_auto_promote-IsSound now deploy apps prober v (Reachable-IsSound v r)

-- A start for an app whose slot is held is refused as in flight; nothing is built, written or sent
-- to the cluster.
pub start-busy :
    (now live : ℤ) (percent : ℤ → String) (build : App → String → BuildAnswer)
    (deploy : WeightedRequest → Option SplitError) (id : String) (app : App) (run_id : String)
    (deploys : List AppDeploy) (w : World)
    → is_canary (normalize app.canary) ≡ true
    → (app.target_kind =ₛ "kubernetes") ≡ true
    → slot_taken app.id w.canaries ≡ true
    → start now live percent build deploy id app run_id deploys w ≡ (refused canary_in_flight, w)
unfolding start create
start-busy now live percent build deploy id app run_id deploys w opted kind busy =
    rw (opted, kind, busy) refl

-- When another rollout of the app has taken the slot between a won claim and the refusal of the
-- cluster, giving the claim back makes two rollouts hold the slot: the in-memory update has no
-- guard.
pub revert_claim-doubles :
    (now : ℤ) (c old : AppCanary) (w : World)
    → lookup c.id w.canaries ≡ some old
    → canary_active old.status ≡ false
    → taken c.app_id w.canaries ≡ 1
    → taken c.app_id (revert_claim now c w).canaries ≡ 2
unfolding update
revert_claim-doubles now c old w found over one =
    let row = record c { status = progressing; resolved_at = none; updated_at = now } in
    let t = taken-insert c.app_id c.id row w.canaries in
    let own = =ₛ_refl c.app_id in
    let t2 : taken c.app_id (insert c.id row w.canaries) + slot c.app_id old
        ≡ taken c.app_id w.canaries + slot c.app_id row =
      ap (λ o. taken c.app_id (insert c.id row w.canaries) + slot_of c.app_id o) (sym found) ∙ t in
    rw found (ground (arith, t2, own, over, one))
