-- ===== src/Canary/Service.antt =====
-- The canary service (backend/internal/service/canary.go) over the in-memory store. The builder, the
-- cluster, the readiness probe, the apps' store and the identifier of a new row are parameters; what
-- is sent to the cluster and to the notifier is kept in order. Logs are left out.
use cooker.Prelude.{
  String, Bool, true, false, ◌||◌, not, Option, none, some, List, [], ◌∷◌, ◌++◌, ◌=ₛ◌,
  if◌then◌else◌,
}
use Prim.Native.String.{◌++◌ as append}
use cooker.Prelude.Int.{ℤ, pos}
use cooker.Prelude.Dict.{lookup}
use cooker.Canary.{
  progressing, promoted, aborted, canary_failed, AppCanary, Canaries, before, get_active, Claim,
  not_found, lost, won, claim_terminal, update, latest_promoted,
}
use cooker.Canary.Config.{CanaryConfig}

-- The fields of an app that the service reads; `name` stands for what `AppPrefix` gives, the prefix
-- of the target or the sanitized name.
pub record App : Type 0 where
  pub id : String
  pub target_kind : String
  pub namespace : String
  pub name : String
  pub canary : CanaryConfig

-- `deployer.WeightedRequest`.
pub record WeightedRequest : Type 0 where
  pub namespace : String
  pub name : String
  pub stable_image : String
  pub canary_image : String
  pub weight : ℤ

pub data SplitError : Type 0 where
  split_unsupported : SplitError
  split_error : String → SplitError

-- What `NotifyCanary` is told: the event, the row and the reason.
pub record Notice : Type 0 where
  pub event : String
  pub row : AppCanary
  pub reason : String

pub record World : Type 0 where
  pub canaries : Canaries
  pub requests : List WeightedRequest
  pub notices : List Notice

pub data CanaryError : Type 0 where
  not_configured : CanaryError
  canary_unsupported : CanaryError
  canary_in_flight : CanaryError
  no_active_canary : CanaryError
  app_error : CanaryError
  build_error : String → CanaryError
  canary_split_error : String → CanaryError
  row_not_found : CanaryError

pub data Reply : Type 0 where
  replied : AppCanary → Reply
  refused : CanaryError → Reply

-- A row of the history of deploys, the newest first.
pub record AppDeploy : Type 0 where
  pub succeeded : Bool
  pub image_ref : String
  pub created_at : ℤ

-- `s.apps.Get`.
pub data AppAnswer : Type 0 where
  app_found : App → AppAnswer
  app_gone : AppAnswer
  app_unreadable : AppAnswer

abbrev pub split_message : SplitError → String
split_message split_unsupported = "unsupported"
split_message (split_error e) = e

abbrev pub app_prefix_request : App → AppCanary → ℤ → WeightedRequest
app_prefix_request app c weight = record {
  namespace = app.namespace;
  name = app.name;
  stable_image = c.stable_image;
  canary_image = c.canary_image;
  weight = weight;
}

abbrev pub notify : String → AppCanary → String → World → World
notify event c reason w = record w {
  notices = w.notices ++ ((record { event = event; row = c; reason = reason }) ∷ []);
}

abbrev pub send : WeightedRequest → World → World
send r w = record w { requests = w.requests ++ (r ∷ []) }

-- The rows after an `Update` whose error is only logged.
abbrev pub written : Option (AppCanary × Canaries) → World → World
written none w = w
written (some (c, m)) w = record w { canaries = m }

-- `revertClaim`.
abbrev pub revert_claim : ℤ → AppCanary → World → World
revert_claim now c w =
    written (update now (record c { status = progressing; resolved_at = none }) w.canaries) w

abbrev pub failed_row : ℤ → AppCanary → String → AppCanary
failed_row now c reason = record c {
  status = canary_failed;
  weight = pos 0;
  healthy = false;
  message = append "failed to establish canary: " reason;
  promote_after = none;
  resolved_at = some now;
}

-- `failPending`.
abbrev pub fail_pending : ℤ → AppCanary → String → World → World
fail_pending now c reason w =
    notify "canary.failed" (failed_row now c reason) reason
      (written (update now (failed_row now c reason) w.canaries) w)

-- The image of the newest successful deploy of one image, if it is later than `at`.
unfoldable pub deployed_image : List AppDeploy → String → ℤ → String
deployed_image [] img at = img
deployed_image (d ∷ ds) img at =
    let others = deployed_image ds img at in
    if not d.succeeded || (d.image_ref =ₛ "")
    then others
    else if before at d.created_at
    then d.image_ref
    else img

abbrev pub promoted_image : Option AppCanary → String × ℤ
promoted_image none = ("", pos 0)
promoted_image (some c) =
    if c.canary_image =ₛ "" then ("", pos 0) else (c.canary_image, or_zero c.resolved_at)
  where
    or_zero : Option ℤ → ℤ
    or_zero none = pos 0
    or_zero (some t) = t

-- `stableImageFor`, with the last ten deploys.
abbrev pub stable_image_for : String → List AppDeploy → Canaries → String
stable_image_for app deploys m =
    let (img, at) = promoted_image (latest_promoted app none m) in deployed_image deploys img at

module _ (now : ℤ) (deploy : WeightedRequest → Option SplitError) where
  -- The answer of the last `Update`.
  abbrev pub saved : (event reason : String) → World → Option (AppCanary × Canaries) → Reply × World
  saved event reason w none = (refused row_not_found, w)
  saved event reason w (some (stored, m)) =
      (replied stored, notify event stored reason (record w { canaries = m }))

  -- The end of `Promote` and of `Abort`, after the claim is won: the cluster is told, and the row
  -- is written, or given back when the cluster refuses.
  abbrev pub told :
      AppCanary
      → (done : AppCanary) → (event reason : String) → World
      → Option SplitError
      → Reply × World
  told c done event reason w (some e) =
      (refused (canary_split_error (split_message e)), revert_claim now c w)
  told c done event reason w none = saved event reason w (update now done w.canaries)

  abbrev pub reply_row : Option AppCanary → Reply
  reply_row none = refused row_not_found
  reply_row (some c) = replied c

  -- What `Promote` and `Abort` do after the claim.
  abbrev pub claimed :
      App
      → AppCanary
      → (done : AppCanary) → (weight : ℤ) → (event reason : String) → World
      → Claim
      → Reply × World
  claimed app c done weight event reason w not_found = (refused row_not_found, w)
  claimed app c done weight event reason w lost = (reply_row (lookup c.id w.canaries), w)
  claimed app c done weight event reason w (won m) =
      let r = app_prefix_request app c weight in
      told c done event reason (send r (record w { canaries = m })) (deploy r)

  abbrev pub promoted_row : AppCanary → AppCanary
  promoted_row c = record c {
    status = promoted;
    weight = pos 100;
    healthy = true;
    message = "promoted to 100%";
    promote_after = none;
    resolved_at = some now;
  }

  abbrev pub aborted_row : AppCanary → String → AppCanary
  aborted_row c reason = record c {
    status = aborted;
    weight = pos 0;
    message = if reason =ₛ "" then "aborted by operator" else reason;
    promote_after = none;
    resolved_at = some now;
  }

  -- `Promote` and `Abort` from the claim on, for the row that they have read.
  unfoldable pub promote_from : App → AppCanary → World → Reply × World
  promote_from app c w =
      claimed app c (promoted_row c) (pos 100) "canary.promoted" "" w
        (claim_terminal now c.id promoted w.canaries)

  unfoldable pub abort_from : App → AppCanary → String → World → Reply × World
  abort_from app c reason w =
      claimed app c (aborted_row c reason) (pos 0) "canary.aborted" (aborted_row c reason).message w
        (claim_terminal now c.id aborted w.canaries)

  module _ (apps : String → AppAnswer) where
    -- `loadActive`, and what is done with the row.
    abbrev pub with_app : AppAnswer → World → (App → Reply × World) → Reply × World
    with_app (app_found app) w act = act app
    with_app app_gone w act = (refused app_error, w)
    with_app app_unreadable w act = (refused app_error, w)

    abbrev pub with_active :
        String → Option AppCanary → World → (App → AppCanary → Reply × World) → Reply × World
    with_active app_id none w act = (refused no_active_canary, w)
    with_active app_id (some c) w act = with_app (apps app_id) w (λ app. act app c)

    -- `Promote`.
    unfoldable pub promote : String → World → Reply × World
    promote app_id w =
        with_active app_id (get_active app_id w.canaries) w (λ app c. promote_from app c w)

    -- `Abort`.
    unfoldable pub abort : String → String → World → Reply × World
    abort app_id reason w =
        with_active app_id (get_active app_id w.canaries) w (λ app c. abort_from app c reason w)

-- `Status`.
abbrev pub status : String → World → Reply
status app_id w = active_or_none (get_active app_id w.canaries)
  where
    active_or_none : Option AppCanary → Reply
    active_or_none none = refused no_active_canary
    active_or_none (some c) = replied c
