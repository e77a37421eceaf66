-- ===== src/Canary/Start.antt =====
-- `Start` (backend/internal/service/canary.go). The time at which the split is live, the text of a
-- percentage and the answers of the builder and the cluster are parameters.
use cooker.Prelude.{String, true, not, Option, none, some, List, ◌=ₛ◌, if◌then◌else◌}
use Prim.Native.String.{◌++◌ as append}
use cooker.Prelude.Int.{ℤ, pos, ◌+ℤ◌, ◌*ℤ◌}
use cooker.Canary.{pending, progressing, AppCanary, Canaries, create, update}
use cooker.Canary.Config.{is_canary, normalize}
use cooker.Canary.Service.{
  App, WeightedRequest, SplitError, split_unsupported, split_error, World, CanaryError,
  not_configured, canary_unsupported, canary_in_flight, build_error, canary_split_error,
  row_not_found, Reply, replied, refused, AppDeploy, split_message, app_prefix_request, send,
  fail_pending, stable_image_for,
}

-- What the image builder answers.
pub data BuildAnswer : Type 0 where
  built : String → BuildAnswer
  build_failed : String → BuildAnswer

module _ (now : ℤ) (live : ℤ) (percent : ℤ → String) (build : App → String → BuildAnswer)
    (deploy : WeightedRequest → Option SplitError) where
  -- The row that `Start` reserves the slot with.
  abbrev pub reserved : String → App → String → AppCanary
  reserved id app run_id =
      let cfg = normalize app.canary in
      record {
        id = id;
        app_id = app.id;
        run_id = run_id;
        stable_image = "";
        canary_image = "";
        weight = cfg.weight;
        status = pending;
        auto_promote = cfg.auto_promote;
        health_window_seconds = cfg.health_window_seconds;
        healthy = true;
        message = "starting canary";
        promote_after = none;
        started_at = now;
        updated_at = pos 0;
        resolved_at = none;
      }

  -- The row once the split is live, `live` being the time of that.
  abbrev pub live_row : AppCanary → AppCanary
  live_row c = record c {
    status = progressing;
    message = append "canary at " (percent c.weight);
    promote_after =
        if c.auto_promote then some (live +ℤ (c.health_window_seconds *ℤ pos 1000000000)) else none;
  }

  abbrev pub split_answer : SplitError → CanaryError
  split_answer split_unsupported = canary_unsupported
  split_answer (split_error e) = canary_split_error e

  abbrev pub live_saved : World → Option (AppCanary × Canaries) → Reply × World
  live_saved w none = (refused row_not_found, w)
  live_saved w (some (stored, m)) = (replied stored, record w { canaries = m })

  abbrev pub establish : App → AppCanary → World → Option SplitError → Reply × World
  establish app c w (some e) = (
    refused (split_answer e),
    fail_pending live c (append "establish split: " (split_message e)) w,
  )
  establish app c w none = live_saved w (update live (live_row c) w.canaries)

  abbrev pub with_images : AppCanary → (stable built_image : String) → AppCanary
  with_images c stable built_image = record c {
    stable_image = if stable =ₛ "" then built_image else stable;
    canary_image = built_image;
  }

  abbrev pub build_and_split : App → AppCanary → String → World → BuildAnswer → Reply × World
  build_and_split app c stable w (build_failed e) =
      (refused (build_error e), fail_pending live c (append "build image: " e) w)
  build_and_split app c stable w (built image) =
      let row = with_images c stable image in
      let r = app_prefix_request app row row.weight in establish app row (send r w) (deploy r)

  abbrev pub after_reserve :
      App → String → List AppDeploy → World → Option (AppCanary × Canaries) → Reply × World
  after_reserve app run_id deploys w none = (refused canary_in_flight, w)
  after_reserve app run_id deploys w (some (c, m)) =
      build_and_split app c (stable_image_for app.id deploys m) (record w { canaries = m })
        (build app run_id)

  -- `Start` with a weighted deployer; `id` is the identifier of the new row.
  unfoldable pub start : (id : String) → App → String → List AppDeploy → World → Reply × World
  start id app run_id deploys w =
      if not (is_canary (normalize app.canary))
      then (refused not_configured, w)
      else if not (app.target_kind =ₛ "kubernetes")
      then (refused canary_unsupported, w)
      else after_reserve app run_id deploys w (create now (reserved id app run_id) w.canaries)
