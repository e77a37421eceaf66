-- ===== src/JobQueue/Tests.antt =====
-- Runs of the queue on concrete stores.
use cooker.Prelude.{
  ℕ, ◌+◌, ◌*◌, ◌^◌, ◌≤◌, ◌<◌, String, none, some, List, [], ◌∷◌, ◌≡◌, ◌⊎◌, ◌-◌, ◌/◌, refl, arith,
  ne_=ₛ, length,
}
use Prim.Native.Nat.{min}
use cooker.Prelude.Int.{pos}
use cooker.Prelude.Dict.{lookup, insert, Keyed}
use cooker.JobQueue.{
  Job, Jobs, EnqueueOptions, not_locked, pending, running, succeeded, failed, cancelled,
  is_terminal, new_job, enqueue, dequeue, complete, fail, reschedule, delete_older_than,
}
use cooker.JobQueue.Invariant.{JobOk, RowsOk}
use cooker.JobQueue.Trace.{Call, enqueue_call, dequeue_call, run, run_exclusive, run-JobOk}
use cooker.JobQueue.Exclusive.{running_with}
use cooker.JobQueue.Pick.{Claimed, dequeue-Claimed}
use cooker.JobQueue.Ownership.{Owns, settle_error_unchanged, reschedule-Owns}
use cooker.JobQueue.Retention.{delete_older_than_sweep}
use cooker.JobQueue.Worker.{Registry, handler_error, drain}
use cooker.JobQueue.Drain.{budget, IsDrained, drain_total}
use cooker.JobQueue.Backoff.{ExponentialBackoff, next_delay, next_delay_lem, next_delay_wraps}

abbrev keyed : String → EnqueueOptions
keyed id = record { run_at = 0; max_attempts = pos 2; concurrency_key = "db"; id = id }

abbrev waiting_job : Job
waiting_job = record {
  id = "a";
  kind = "build";
  payload = "{}";
  status = pending;
  attempts = 0;
  max_attempts = 2;
  run_at = 1;
  locked_by = "";
  locked_at = none;
  started_at = none;
  finished_at = none;
  last_error = "";
  concurrency_key = "db";
  created_at = 1;
  updated_at = 1;
}

abbrev running_job : Job
running_job = record waiting_job {
  status = running;
  locked_by = "w1";
  locked_at = some 5;
  started_at = some 5;
  attempts = 1;
  updated_at = 5;
}

abbrev finished_job : Job
finished_job = record running_job {
  status = succeeded;
  locked_by = "";
  finished_at = some 7;
  updated_at = 7;
}

abbrev waiting : Jobs
waiting = ("a", waiting_job) ∷ []

abbrev busy : Jobs
busy = ("a", running_job) ∷ []

abbrev over : Jobs
over = ("a", finished_job) ∷ []

-- Two jobs of one key, and two workers.
abbrev calls : List Call
calls =
    enqueue_call 1 "x" "build" none (keyed "a")
    ∷ enqueue_call 2 "y" "build" none (keyed "b")
    ∷ dequeue_call 5 "w1" []
    ∷ dequeue_call 6 "w2" ("build" ∷ [])
    ∷ []

abbrev backoff : ℕ → ℕ
backoff n = n * 10

abbrev registry : Registry
registry = ("build", λ j. handler_error "no disk") ∷ []

abbrev quote : String → String
quote s = s

abbrev clock : ℕ → ℕ × ℕ × ℕ
clock n = (20, 21, 22)

run_exclusive_example : running_with "db" (run calls []) ≤ 1
run_exclusive_example = run_exclusive calls "db" (ne_=ₛ refl)

calls_row : lookup "a" (run calls []) ≡ some running_job
unfolding run enqueue dequeue lookup insert new_job
calls_row = refl

run-JobOk_example : JobOk "a" running_job
run-JobOk_example = run-JobOk calls "a" calls_row

waiting-Keyed : Keyed waiting
unfolding lookup
waiting-Keyed = (refl, tt)

claims_it : (dequeue 5 "w1" [] waiting).1 ≡ some running_job
unfolding dequeue
claims_it = refl

dequeue-Claimed_example : Claimed 5 "w1" [] waiting (dequeue 5 "w1" [] waiting).0 running_job
dequeue-Claimed_example = dequeue-Claimed 5 "w1" [] waiting running_job waiting-Keyed claims_it

idle_pick : (dequeue 6 "w2" [] busy).1 ≡ none
unfolding dequeue
idle_pick = refl

owned : Owns "w1" "a" busy running_job
unfolding lookup
owned = record { stored = refl; locked = refl; runs = refl }

reschedule-Owns_example :
    let (after, err) = reschedule 6 "w1" "a" 30 "no disk" busy in
    (k : Job) × (err ≡ none)
    × (after ≡ insert "a" k busy)
    × (k.last_error ≡ "no disk")
    × (k.attempts ≡ 1)
    × (k.max_attempts ≡ 2)
    × (1 < 2 → (k.status ≡ pending) × (k.run_at ≡ 30))
    × (2 ≤ 1 → (k.status ≡ failed) × (k.finished_at ≡ some 6))
reschedule-Owns_example = reschedule-Owns 6 "w1" "a" 30 "no disk" busy running_job owned

settle_error_unchanged_example :
    ((complete 7 "w2" "a" busy).1 ≡ some not_locked → (complete 7 "w2" "a" busy).0 ≡ busy)
    × ((fail 7 "w2" "a" "late" busy).1 ≡ some not_locked → (fail 7 "w2" "a" "late" busy).0 ≡ busy)
    × ((reschedule 7 "w2" "a" 9 "late" busy).1 ≡ some not_locked
        → (reschedule 7 "w2" "a" 9 "late" busy).0 ≡ busy)
settle_error_unchanged_example = settle_error_unchanged 7 "w2" "a" "late" 9 busy not_locked

completes : (complete 7 "w1" "a" busy).1 ≡ none
unfolding complete lookup
completes = refl

waiting_ok : JobOk "a" waiting_job
unfolding is_terminal
waiting_ok = ground arith

waiting_rows : RowsOk waiting
unfolding lookup
waiting_rows = record { unique = (refl, tt); rows = (waiting_ok, tt) }

waiting_budget : budget waiting < 3
waiting_budget = omega arith

drain_total_example :
    (i : ℕ) × (after : Jobs) × (i < 3)
    × (drain quote 3 clock backoff registry "w1" waiting ≡ some ((clock i).0, after))
    × IsDrained quote backoff registry "w1" (clock i) after
drain_total_example =
    drain_total quote backoff registry "w1" 3 clock waiting waiting_rows waiting_budget

over-Keyed : Keyed over
unfolding lookup
over-Keyed = (refl, tt)

over_row : lookup "a" over ≡ some finished_job
unfolding lookup
over_row = refl

delete_older_than_sweep_example :
    let (after, n) = delete_older_than 9 over in
    ((succeeded ≡ pending) ⊎ (succeeded ≡ running) → lookup "a" after ≡ some finished_job)
    × (9 ≤ 7 → lookup "a" after ≡ some finished_job)
    × ((succeeded ≡ succeeded) ⊎ (succeeded ≡ failed) ⊎ (succeeded ≡ cancelled)
        → 7 < 9
        → lookup "a" after ≡ none)
    × (length after + n ≡ 1)
delete_older_than_sweep_example =
    delete_older_than_sweep 9 "a" over finished_job over-Keyed over_row

next_delay_lem_example :
    (j : ℕ) × (next_delay
        (record { base = pos 1_000_000_000; max_delay = pos 300_000_000_000 })
        (pos 4)
        (some 77)
      ≡ pos (min (1_000_000_000 * 2 ^ min (4 - 1) 30) 300_000_000_000 + j))
    × (j ≤ 1_000_000_000 / 2)
next_delay_lem_example =
    next_delay_lem 1_000_000_000 300_000_000_000 4 (some 77) (omega arith) (omega arith)
      (omega arith) (omega arith) (omega arith)

next_delay_wraps_example :
    let e : ExponentialBackoff = record {
      base = pos (2 ^ 34 + 3);
      max_delay = pos 300_000_000_000;
    } in
    (next_delay e (pos 31) none ≡ pos (3 * 2 ^ 30)) × (3 * 2 ^ 30 < 2 ^ 34 + 3)
next_delay_wraps_example =
    next_delay_wraps 3 300_000_000_000 31 (omega arith) (omega arith) (omega arith) (omega arith)
