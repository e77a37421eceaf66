-- ===== src/Canary.antt =====
-- Canary rollouts: the configuration (backend/internal/model/canary.go) and the in-memory store of
-- their rows (backend/internal/store/memory/appcanary.go). Each operation of the store runs under
-- its lock, so it is one step. Times are numbers, 0 is the zero time; a nil time is none.
pub mod Config
pub mod Split
pub mod Service
pub mod Start
pub mod Slots
pub mod Kept
pub mod Calls
pub mod Sweeps
pub mod History
pub mod Shifts
pub mod Sweep
pub mod Tests
use cooker.Prelude.{
  ℕ, suc, ◌+◌, String, Bool, true, false, ◌&&◌, ◌||◌, not, Option, none, some, List, [], ◌∷◌, ◌++◌,
  ltb, ◌==◌, ◌=ₛ◌, if◌then◌else◌,
}
use cooker.Prelude.Int.{ℤ, pos, negsuc, ltb_ℤ}
use cooker.Prelude.Dict.{lookup, insert}

-- `CanaryStatus`.
pub data CanaryStatus : Type 0 where
  pending : CanaryStatus
  progressing : CanaryStatus
  promoted : CanaryStatus
  aborted : CanaryStatus
  canary_failed : CanaryStatus

abbrev pub is_terminal : CanaryStatus → Bool
is_terminal pending = false
is_terminal progressing = false
is_terminal promoted = true
is_terminal aborted = true
is_terminal canary_failed = true

abbrev pub is_progressing : CanaryStatus → Bool
is_progressing progressing = true
is_progressing pending = false
is_progressing promoted = false
is_progressing aborted = false
is_progressing canary_failed = false

abbrev pub is_pending : CanaryStatus → Bool
is_pending pending = true
is_pending progressing = false
is_pending promoted = false
is_pending aborted = false
is_pending canary_failed = false

abbrev pub is_promoted : CanaryStatus → Bool
is_promoted promoted = true
is_promoted pending = false
is_promoted progressing = false
is_promoted aborted = false
is_promoted canary_failed = false

-- `canaryActive`.
abbrev pub canary_active : CanaryStatus → Bool
canary_active s = is_pending s || is_progressing s

pub record AppCanary : Type 0 where
  pub id : String
  pub app_id : String
  pub run_id : String
  pub stable_image : String
  pub canary_image : String
  pub weight : ℤ
  pub status : CanaryStatus
  pub auto_promote : Bool
  pub health_window_seconds : ℤ
  pub healthy : Bool
  pub message : String
  pub promote_after : Option ℤ
  pub started_at : ℤ
  pub updated_at : ℤ
  pub resolved_at : Option ℤ

abbrev pub Canaries : Type 0
Canaries = List (String × AppCanary)

-- A row holds the slot of the app.
abbrev pub holds_slot : String → AppCanary → Bool
holds_slot app c = (c.app_id =ₛ app) && canary_active c.status

unfoldable pub slot_taken : String → Canaries → Bool
slot_taken app [] = false
slot_taken app ((id, c) ∷ m) = holds_slot app c || slot_taken app m

abbrev pub is_unset : ℤ → Bool
is_unset (pos n) = n == 0
is_unset (negsuc n) = false

-- The row that `Create` stores.
abbrev pub new_row : ℤ → AppCanary → AppCanary
new_row now c =
    let started = if is_unset c.started_at then now else c.started_at in
    record c { started_at = started; updated_at = started }

-- `Create`: the row as it is stored, and the rows; none is `ErrConflict`.
unfoldable pub create : ℤ → AppCanary → Canaries → Option (AppCanary × Canaries)
create now c m =
    if canary_active c.status && slot_taken c.app_id m
    then none
    else some (new_row now c, insert c.id (new_row now c) m)

-- `GetActive`.
unfoldable pub get_active : String → Canaries → Option AppCanary
get_active app [] = none
get_active app ((id, c) ∷ m) =
    if (c.app_id =ₛ app) && is_progressing c.status then some c else get_active app m

abbrev pub count_one : ℕ × Canaries → ℕ × Canaries
count_one (n, m) = (suc n, m)

abbrev pub keep_row : String → AppCanary → ℕ × Canaries → ℕ × Canaries
keep_row id c (n, m) = (n, (id, c) ∷ m)

-- The answer of `ClaimTerminal`; not_found is `ErrNotFound`.
pub data Claim : Type 0 where
  not_found : Claim
  lost : Claim
  won : Canaries → Claim

abbrev pub claim_row : ℤ → String → CanaryStatus → Canaries → Option AppCanary → Claim
claim_row now id to m none = not_found
claim_row now id to m (some c) =
    if is_progressing c.status
    then won (insert id (record c { status = to; updated_at = now }) m)
    else lost

-- `ClaimTerminal`.
unfoldable pub claim_terminal : ℤ → String → CanaryStatus → Canaries → Claim
claim_terminal now id to m = claim_row now id to m (lookup id m)

abbrev pub update_row : ℤ → AppCanary → Canaries → Option AppCanary → Option (AppCanary × Canaries)
update_row now c m none = none
update_row now c m (some old) =
    let stored = record c { updated_at = now } in some (stored, insert c.id stored m)

-- `Update`: the row as it is stored, and the rows; none is `ErrNotFound`.
unfoldable pub update : ℤ → AppCanary → Canaries → Option (AppCanary × Canaries)
update now c m = update_row now c m (lookup c.id m)

abbrev pub before : ℤ → ℤ → Bool
before a b = ltb_ℤ a b

-- `DeleteStalePending`: the number of rows removed and the others.
unfoldable pub delete_stale_pending : (older_than : ℤ) → Canaries → ℕ × Canaries
delete_stale_pending older_than [] = (0, [])
delete_stale_pending older_than ((id, c) ∷ m) =
    let rest = delete_stale_pending older_than m in
    if is_pending c.status && before c.started_at older_than
    then count_one rest
    else keep_row id c rest

-- The later of two promoted rows.
abbrev pub later_promoted : Option AppCanary → AppCanary → ℤ → Option AppCanary
later_promoted none c at = some c
later_promoted (some latest) c at = by_time latest.resolved_at
  where
    by_time : Option ℤ → Option AppCanary
    by_time none = some c
    by_time (some t) = if before t at then some c else some latest

abbrev pub newer : String → Option AppCanary → AppCanary → Option ℤ → Option AppCanary
newer app latest c none = latest
newer app latest c (some at) =
    if (c.app_id =ₛ app) && is_promoted c.status then later_promoted latest c at else latest

-- `LatestPromoted`; `latest` is the best row so far.
unfoldable pub latest_promoted : String → (latest : Option AppCanary) → Canaries → Option AppCanary
latest_promoted app latest [] = latest
latest_promoted app latest ((id, c) ∷ m) = latest_promoted app (newer app latest c c.resolved_at) m

-- `ListProgressing`: the earliest first.
unfoldable pub insert_by_start : AppCanary → List AppCanary → List AppCanary
insert_by_start c [] = c ∷ []
insert_by_start c (d ∷ ds) =
    let others = insert_by_start c ds in
    if before d.started_at c.started_at then d ∷ others else c ∷ d ∷ ds

unfoldable pub list_progressing : Canaries → List AppCanary
list_progressing [] = []
list_progressing ((id, c) ∷ m) =
    let others = list_progressing m in
    if is_progressing c.status then insert_by_start c others else others
