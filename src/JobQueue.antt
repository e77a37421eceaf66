-- ===== src/JobQueue.antt =====
-- backend/internal/jobqueue: the job record, the in-memory Store (jobqueue.go, memory.go).
-- `m.jobs` is an association list; the order of its pairs is the order of a `range` loop. An
-- instant is a number of nanoseconds since Go's zero Time, so that 0 is what `IsZero` finds and
-- `Before` is `<`. Each operation runs under `m.mu`, so it is one step; the clock reading that
-- it makes is the argument `now`, and the id that `newID` would give is the argument `fresh`.
-- `Attempts` is a plain number: it stays below `MaxAttempts`, which is an `int`.
pub mod Backoff
pub mod Claims
pub mod Drain
pub mod Exclusive
pub mod Invariant
pub mod Ownership
pub mod Pick
pub mod Retention
pub mod Trace
pub mod Worker
pub mod Tests
use cooker.Prelude.{
  ℕ, suc, ◌+◌, String, Bool, true, false, ◌&&◌, ◌||◌, not, Option, none, some, List, [], ◌∷◌, ◌≡◌,
  if◌then◌else◌, ltb, leb, ◌=ₛ◌,
}
use cooker.Prelude.Int.{ℤ, pos, negsuc}
use cooker.Prelude.Dict.{lookup, insert, delete}

pub data Status : Type 0 where
  pending running succeeded failed cancelled : Status

unfoldable pub is_terminal : Status → Bool
is_terminal succeeded = true
is_terminal failed = true
is_terminal cancelled = true
is_terminal _ = false

abbrev pub is_pending : Status → Bool
is_pending pending = true
is_pending _ = false

abbrev pub is_running : Status → Bool
is_running running = true
is_running _ = false

pub record Job : Type 0 where
  pub id : String
  pub kind : String
  pub payload : String
  pub status : Status
  pub attempts : ℕ
  pub max_attempts : ℕ
  pub run_at : ℕ
  pub locked_by : String
  pub locked_at : Option ℕ
  pub started_at : Option ℕ
  pub finished_at : Option ℕ
  pub last_error : String
  pub concurrency_key : String
  pub created_at : ℕ
  pub updated_at : ℕ

pub record EnqueueOptions : Type 0 where
  pub run_at : ℕ
  pub max_attempts : ℤ
  pub concurrency_key : String
  pub id : String

pub data Failure : Type 0 where
  empty_kind : Failure
  duplicate_id : String → Failure
  not_found : Failure
  not_locked : Failure

abbrev pub Jobs : Type 0
Jobs = List (String × Job)

-- `maxAttempts <= 0` becomes 1.
unfoldable pub default_attempts : ℤ → ℕ
default_attempts (pos n) = if leb n 0 then 1 else n
default_attempts (negsuc n) = 1

pub data Enqueued : Type 0 where
  queued : Job → Enqueued
  refused : Failure → Enqueued

abbrev pub text_or : Option String → String → String
text_or none d = d
text_or (some s) d = s

-- The row that `Enqueue` builds before it takes the lock.
unfoldable pub new_job : ℕ → String → String → Option String → EnqueueOptions → Job
unfolding default_attempts
new_job now fresh kind payload opts = record {
  id = if opts.id =ₛ "" then fresh else opts.id;
  kind = kind;
  payload = text_or payload "{}";
  status = pending;
  attempts = 0;
  max_attempts = default_attempts opts.max_attempts;
  run_at = if leb opts.run_at 0 then now else opts.run_at;
  locked_by = "";
  locked_at = none;
  started_at = none;
  finished_at = none;
  last_error = "";
  concurrency_key = opts.concurrency_key;
  created_at = now;
  updated_at = now;
}

abbrev store_new : Option Job → Job → Jobs → Jobs × Enqueued
store_new (some old) j jobs = (jobs, refused (duplicate_id j.id))
store_new none j jobs = (insert j.id j jobs, queued j)

unfoldable pub enqueue :
    ℕ → String → String → Option String → EnqueueOptions → Jobs → Jobs × Enqueued
enqueue now fresh kind payload opts jobs =
    let j = new_job now fresh kind payload opts in
    if kind =ₛ "" then (jobs, refused empty_kind) else store_new (lookup j.id jobs) j jobs

abbrev pub contains : List String → String → Bool
contains [] s = false
contains (x ∷ xs) s = x =ₛ s || contains xs s

-- `toSet`: the empty text is never an element.
unfoldable pub to_set : List String → List String
to_set [] = []
to_set (x ∷ xs) = let rest = to_set xs in if x =ₛ "" then rest else x ∷ rest

abbrev holds_key : Job → Bool
holds_key j = is_running j.status && not (j.concurrency_key =ₛ "")

unfoldable pub running_keys : Jobs → List String
running_keys [] = []
running_keys ((id, j) ∷ jobs) =
    let rest = running_keys jobs in if holds_key j then j.concurrency_key ∷ rest else rest

abbrev pub is_empty {ℓ} : {A : Type ℓ} → List A → Bool
is_empty [] = true
is_empty (x ∷ xs) = false

-- The four `continue` tests of the second loop of `Dequeue`, passed.
unfoldable pub is_ready : ℕ → List String → List String → Job → Bool
is_ready now kind_filter keys j =
    is_pending j.status
    && not (ltb now j.run_at)
    && not (not (is_empty kind_filter) && not (contains kind_filter j.kind))
    && not (not (j.concurrency_key =ₛ "") && contains keys j.concurrency_key)

unfoldable pub candidates : ℕ → List String → List String → Jobs → Jobs
candidates now kind_filter keys [] = []
candidates now kind_filter keys ((id, j) ∷ jobs) =
    let rest = candidates now kind_filter keys jobs in
    if is_ready now kind_filter keys j then (id, j) ∷ rest else rest

abbrev sooner : String × Job → Option (String × Job) → String × Job
sooner (i, j) none = (i, j)
sooner (i, j) (some (k, l)) = if ltb l.run_at j.run_at then (k, l) else (i, j)

-- The head of the candidates after `sort.Slice` by `RunAt`. The sort is not stable: which of
-- two jobs with one `RunAt` comes first is as open as the order of the list.
unfoldable pub earliest : Jobs → Option (String × Job)
earliest [] = none
earliest (c ∷ cs) = some (sooner c (earliest cs))

unfoldable pub claimed : ℕ → String → Job → Job
claimed now worker j = record j {
  status = running;
  locked_by = worker;
  locked_at = some now;
  started_at = some now;
  attempts = j.attempts + 1;
  updated_at = now;
}

abbrev pub claim : ℕ → String → Option (String × Job) → Jobs → Jobs × Option Job
claim now worker none jobs = (jobs, none)
claim now worker (some (id, j)) jobs =
    let picked = claimed now worker j in (insert id picked jobs, some picked)

unfoldable pub dequeue : ℕ → String → List String → Jobs → Jobs × Option Job
unfolding candidates is_ready running_keys to_set earliest claimed
dequeue now worker kinds jobs =
    let ready = candidates now (to_set kinds) (running_keys jobs) jobs in
    claim now worker (earliest ready) jobs

-- The guard that `Complete`, `Fail` and `Reschedule` share: the job exists, runs, and is the
-- caller's. `settle` is what the operation writes.
abbrev pub if_owned : String → String → (Job → Job) → Option Job → Jobs → Jobs × Option Failure
if_owned worker id settle none jobs = (jobs, some not_found)
if_owned worker id settle (some j) jobs =
    if not (j.locked_by =ₛ worker) || not (is_running j.status)
    then (jobs, some not_locked)
    else (insert id (settle j) jobs, none)

unfoldable pub completed : ℕ → Job → Job
completed now j = record j {
  status = succeeded;
  finished_at = some now;
  locked_by = "";
  updated_at = now;
}

unfoldable pub complete : ℕ → String → String → Jobs → Jobs × Option Failure
unfolding completed
complete now worker id jobs = if_owned worker id (completed now) (lookup id jobs) jobs

unfoldable pub failed_job : ℕ → String → Job → Job
failed_job now error j = record j {
  status = failed;
  finished_at = some now;
  last_error = error;
  locked_by = "";
  updated_at = now;
}

unfoldable pub fail : ℕ → String → String → String → Jobs → Jobs × Option Failure
unfolding failed_job
fail now worker id error jobs = if_owned worker id (failed_job now error) (lookup id jobs) jobs

unfoldable pub rescheduled : ℕ → ℕ → String → Job → Job
unfolding failed_job
rescheduled now next_run_at error j =
    if leb j.max_attempts j.attempts then failed_job now error j else record j {
      status = pending;
      run_at = next_run_at;
      last_error = error;
      locked_by = "";
      locked_at = none;
      started_at = none;
      updated_at = now;
    }

unfoldable pub reschedule : ℕ → String → String → ℕ → String → Jobs → Jobs × Option Failure
unfolding rescheduled
reschedule now worker id next_run_at error jobs =
    if_owned worker id (rescheduled now next_run_at error) (lookup id jobs) jobs

abbrev found : Option Job → Enqueued
found none = refused not_found
found (some j) = queued j

unfoldable pub get : String → Jobs → Enqueued
get id jobs = found (lookup id jobs)

abbrev same_status : Status → Status → Bool
same_status pending pending = true
same_status running running = true
same_status succeeded succeeded = true
same_status failed failed = true
same_status cancelled cancelled = true
same_status _ _ = false

-- The entry of `Stats` for one status; a status that no job has reads 0, as in Go's map.
unfoldable pub stats : Jobs → Status → ℕ
stats [] s = 0
stats ((id, j) ∷ jobs) s =
    let rest = stats jobs s in if same_status j.status s then suc rest else rest

abbrev pub finish_time : Job → ℕ
finish_time j = elim j.finished_at [ none ↦ j.updated_at | some t ↦ t ]

-- `DeleteOlderThan` removes a terminal job whose finish lies before the cutoff.
unfoldable pub is_expired : ℕ → Job → Bool
unfolding is_terminal
is_expired cutoff j = is_terminal j.status && ltb (finish_time j) cutoff

-- The loop over the map; the second part is the count `n`.
unfoldable pub delete_older_than : ℕ → Jobs → Jobs × ℕ
unfolding is_expired
delete_older_than cutoff [] = ([], 0)
delete_older_than cutoff ((id, j) ∷ jobs) =
    let (kept, n) = delete_older_than cutoff jobs in
    if is_expired cutoff j then (kept, suc n) else ((id, j) ∷ kept, n)
