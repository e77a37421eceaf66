-- ===== src/Canary/Tests.antt =====
-- The theorems on rollouts at one app (backend/internal/service/canary.go).
use cooker.Prelude.{String, true, Option, none, some, [], ◌∷◌, ◌≡◌, refl}
use cooker.Prelude.Int.{ℤ, pos}
use cooker.Prelude.Dict.{lookup}
use cooker.Canary.{CanaryStatus, pending, progressing, promoted, AppCanary, Canaries}
use cooker.Canary.Config.{split_replicas}
use cooker.Canary.Split.{IsDivided, split_replicas-IsDivided}
use cooker.Canary.Service.{App, WeightedRequest, SplitError, split_error, World, revert_claim}
use cooker.Canary.Start.{BuildAnswer, built, start}
use cooker.Canary.Slots.{IsSound, taken}
use cooker.Canary.History.{fresh, by_start, Reachable-IsSound, revert_claim-doubles}
use cooker.Canary.Shifts.{Verdict, decide-Verified}
use cooker.Canary.Sweep.{probe_error, canary_prober, decide}

abbrev shop : App
shop = record {
  id = "shop";
  target_kind = "kubernetes";
  namespace = "prod";
  name = "cooker-shop";
  canary = record {
    strategy = "canary";
    weight = pos 0;
    auto_promote = true;
    health_window_seconds = pos 60;
  };
}

abbrev row : String → CanaryStatus → AppCanary
row id status = record {
  id = id;
  app_id = "shop";
  run_id = "run";
  stable_image = "shop:1";
  canary_image = "shop:2";
  weight = pos 10;
  status = status;
  auto_promote = true;
  health_window_seconds = pos 60;
  healthy = true;
  message = "";
  promote_after = none;
  started_at = pos 5;
  updated_at = pos 5;
  resolved_at = none;
}

abbrev world : Canaries → World
world m = record { canaries = m; requests = []; notices = [] }

abbrev percent : ℤ → String
percent n = "10%"

abbrev build : App → String → BuildAnswer
build app run = built "shop:2"

abbrev accept : WeightedRequest → Option SplitError
accept r = none

abbrev refuse : WeightedRequest → Option SplitError
refuse r = some (split_error "no such deployment")

split_replicas-IsDivided_example : IsDivided (pos 10) (pos 4)
split_replicas-IsDivided_example = split_replicas-IsDivided (pos 10) (pos 4)

split_of_four : split_replicas (pos 10) (pos 4) ≡ (1, 3)
split_of_four = refl

Reachable-IsSound_example :
    IsSound
      (start
        (pos 5)
        (pos 9)
        percent
        build
        accept
        "c1"
        shop
        "run"
        []
        (record { canaries = []; requests = []; notices = [] })).1.canaries
Reachable-IsSound_example =
    Reachable-IsSound
      (start (pos 5) (pos 9) percent build accept "c1" shop "run" []
        (record { canaries = []; requests = []; notices = [] })).1
      (by_start (pos 5) (pos 9) percent build accept "c1" shop "run" [] fresh)

decide-Verified_example :
    let p = canary_prober (λ app. probe_error "timeout") in
    Verdict p (pos 7) shop (row "c1" progressing) (decide p (pos 7) shop (row "c1" progressing)).0
decide-Verified_example =
    decide-Verified (canary_prober (λ app. probe_error "timeout")) (pos 7) shop
      (row "c1" progressing)

-- A promotion has claimed "c1", and "c2" has been started since.
abbrev claimed_rows : Canaries
claimed_rows = ("c1", row "c1" promoted) ∷ ("c2", row "c2" pending) ∷ []

revert_claim-doubles_example :
    taken "shop" (revert_claim (pos 7) (row "c1" progressing) (world claimed_rows)).canaries ≡ 2
unfolding lookup
revert_claim-doubles_example =
    revert_claim-doubles (pos 7) (row "c1" progressing) (row "c1" promoted) (world claimed_rows)
      refl refl refl
