-- ===== src/JobQueue/Trace.antt =====
-- Any sequence of calls of the store's operations, by any workers and at any clock readings.
use cooker.Prelude.{ℕ, ◌≤◌, String, Option, some, List, [], ◌∷◌, ◌≡◌, ◌≢◌, arith}
use cooker.Prelude.Dict.{lookup}
use cooker.Prelude.Dict.Entries.{Entries-lookup}
use cooker.JobQueue.{
  Job, Jobs, EnqueueOptions, enqueue, dequeue, complete, fail, reschedule, delete_older_than,
}
use cooker.JobQueue.Invariant.{
  JobOk, RowsOk, enqueue-RowsOk, dequeue-RowsOk, complete-RowsOk, fail-RowsOk, reschedule-RowsOk,
  delete_older_than-RowsOk,
}
use cooker.JobQueue.Exclusive.{
  running_with, IsExclusive, enqueue-IsExclusive, dequeue-IsExclusive, complete-IsExclusive,
  fail-IsExclusive, reschedule-IsExclusive, delete_older_than-IsExclusive,
}

pub data Call : Type 0 where
  enqueue_call : ℕ → String → String → Option String → EnqueueOptions → Call
  dequeue_call : ℕ → String → List String → Call
  complete_call : ℕ → String → String → Call
  fail_call : ℕ → String → String → String → Call
  reschedule_call : ℕ → String → String → ℕ → String → Call
  delete_call : ℕ → Call

unfoldable pub apply : Call → Jobs → Jobs
apply (enqueue_call now fresh kind payload opts) jobs = (enqueue now fresh kind payload opts jobs).0
apply (dequeue_call now worker kinds) jobs = (dequeue now worker kinds jobs).0
apply (complete_call now worker id) jobs = (complete now worker id jobs).0
apply (fail_call now worker id error) jobs = (fail now worker id error jobs).0
apply (reschedule_call now worker id next error) jobs = (reschedule now worker id next error jobs).0
apply (delete_call cutoff) jobs = (delete_older_than cutoff jobs).0

unfoldable pub run : List Call → Jobs → Jobs
unfolding apply
run [] jobs = jobs
run (c ∷ cs) jobs = run cs (apply c jobs)

-- The rows are in order and every concurrency key has at most one running job.
pub record StoreOk (jobs : Jobs) : Type 0 where
  pub rows_ok : RowsOk jobs
  pub exclusive : IsExclusive jobs

apply-StoreOk : (c : Call) (jobs : Jobs) → StoreOk jobs → StoreOk (apply c jobs)
unfolding apply
apply-StoreOk (enqueue_call now fresh kind payload opts) jobs h = record {
  rows_ok = enqueue-RowsOk now fresh kind payload opts jobs h.rows_ok;
  exclusive = enqueue-IsExclusive now fresh kind payload opts jobs h.exclusive;
}
apply-StoreOk (dequeue_call now worker kinds) jobs h = record {
  rows_ok = dequeue-RowsOk now worker kinds jobs h.rows_ok;
  exclusive = dequeue-IsExclusive now worker kinds jobs h.rows_ok h.exclusive;
}
apply-StoreOk (complete_call now worker id) jobs h = record {
  rows_ok = complete-RowsOk now worker id jobs h.rows_ok;
  exclusive = complete-IsExclusive now worker id jobs h.exclusive;
}
apply-StoreOk (fail_call now worker id error) jobs h = record {
  rows_ok = fail-RowsOk now worker id error jobs h.rows_ok;
  exclusive = fail-IsExclusive now worker id error jobs h.exclusive;
}
apply-StoreOk (reschedule_call now worker id next error) jobs h = record {
  rows_ok = reschedule-RowsOk now worker id next error jobs h.rows_ok;
  exclusive = reschedule-IsExclusive now worker id next error jobs h.exclusive;
}
apply-StoreOk (delete_call cutoff) jobs h = record {
  rows_ok = delete_older_than-RowsOk cutoff jobs h.rows_ok;
  exclusive = delete_older_than-IsExclusive cutoff jobs h.exclusive;
}

pub run-StoreOk : (cs : List Call) (jobs : Jobs) → StoreOk jobs → StoreOk (run cs jobs)
unfolding run
run-StoreOk [] jobs h = h
run-StoreOk (c ∷ cs) jobs h = run-StoreOk cs (apply c jobs) (apply-StoreOk c jobs h)

empty-StoreOk : StoreOk []
empty-StoreOk = record {
  rows_ok = record { unique = tt; rows = tt };
  exclusive = λ key ne. omega arith;
}

-- Starting from the empty store, after any sequence of calls a concurrency key other than the
-- empty text has at most one running job.
pub run_exclusive : (cs : List Call) (key : String) → key ≢ "" → running_with key (run cs []) ≤ 1
run_exclusive cs = (run-StoreOk cs [] empty-StoreOk).exclusive

-- Starting from the empty store, after any sequence of calls every row is in order: its id is
-- its key, it has made at most `MaxAttempts` attempts and fewer while it is pending, only a
-- running job is locked, and a terminal job has its finish time.
pub run-JobOk :
    (cs : List Call) (id : String) {j : Job} → lookup id (run cs []) ≡ some j → JobOk id j
run-JobOk cs id e =
    Entries-lookup JobOk id (run cs []) (run-StoreOk cs [] empty-StoreOk).rows_ok.rows e
