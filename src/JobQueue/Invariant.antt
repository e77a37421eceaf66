-- ===== src/JobQueue/Invariant.antt =====
-- What holds of every row of the store between two calls, and that each operation of memory.go
-- keeps it.
use cooker.Prelude.{
  ℕ, ◌≤◌, ◌<◌, String, Bool, true, false, Option, none, some, List, [], ◌∷◌, ◌≡◌, inl, inr, refl,
  arith, Bool-cases, Option-cases,
}
use cooker.Prelude.Int.{ℤ}
use cooker.Prelude.Dict.{lookup, insert, Keyed, insert-Keyed}
use cooker.Prelude.Dict.Entries.{Entries, Entries-insert, Entries-lookup}
use cooker.JobQueue.{
  Job, Jobs, EnqueueOptions, is_pending, is_running, is_terminal, default_attempts, new_job,
  enqueue, claimed, dequeue, if_owned, completed, complete, failed_job, fail, rescheduled,
  reschedule, is_expired, delete_older_than,
}
use cooker.JobQueue.Pick.{dequeue-Claimed, dequeue_idle}

abbrev is_some {ℓ} : {A : Type ℓ} → Option A → Bool
is_some none = false
is_some (some a) = true

pub record JobOk (key : String) (j : Job) : Type 0 where
  pub named : j.id ≡ key
  pub bounded : j.attempts ≤ j.max_attempts
  -- A waiting job has an attempt left, so that a claim cannot pass the limit.
  pub startable : is_pending j.status ≡ true → j.attempts < j.max_attempts
  -- Only a running job is locked.
  pub unlocked : is_running j.status ≡ false → j.locked_by ≡ ""
  pub stamped : is_running j.status ≡ true → is_some j.locked_at ≡ true
  pub started : is_running j.status ≡ true → is_some j.started_at ≡ true
  pub finished : is_terminal j.status ≡ true → is_some j.finished_at ≡ true

new_job-JobOk :
    (now : ℕ) (fresh kind : String) (payload : Option String) (opts : EnqueueOptions)
    → let j = new_job now fresh kind payload opts in JobOk j.id j
unfolding new_job is_terminal
new_job-JobOk now fresh kind payload opts = ground (arith, positive opts.max_attempts)
  where
    positive : (m : ℤ) → 0 < default_attempts m
    positive m = ground arith

claimed-JobOk :
    (now : ℕ) (worker key : String) (j : Job)
    → JobOk key j
    → is_pending j.status ≡ true
    → JobOk key (claimed now worker j)
unfolding claimed is_terminal
claimed-JobOk now worker key j h p = ground arith

completed-JobOk :
    (now : ℕ) (key : String) (j : Job)
    → JobOk key j
    → is_running j.status ≡ true
    → JobOk key (completed now j)
unfolding completed is_terminal
completed-JobOk now key j h r = ground arith

failed_job-JobOk :
    (now : ℕ) (error key : String) (j : Job)
    → JobOk key j
    → is_running j.status ≡ true
    → JobOk key (failed_job now error j)
unfolding failed_job is_terminal
failed_job-JobOk now error key j h r = ground arith

rescheduled-JobOk :
    (now next_run_at : ℕ) (error key : String) (j : Job)
    → JobOk key j
    → is_running j.status ≡ true
    → JobOk key (rescheduled now next_run_at error j)
unfolding rescheduled is_terminal
rescheduled-JobOk now next_run_at error key j h r = ground arith

-- The rows of the store: each key once, and each row in order.
pub record RowsOk (jobs : Jobs) : Type 0 where
  pub unique : Keyed jobs
  pub rows : Entries JobOk jobs

insert-RowsOk :
    (key : String) (j : Job) (jobs : Jobs) → JobOk key j → RowsOk jobs → RowsOk (insert key j jobs)
insert-RowsOk key j jobs ok h = record {
  unique = insert-Keyed key j jobs h.unique;
  rows = Entries-insert JobOk key j jobs ok h.rows;
}

pub enqueue-RowsOk :
    (now : ℕ) (fresh kind : String) (payload : Option String) (opts : EnqueueOptions) (jobs : Jobs)
    → RowsOk jobs
    → RowsOk (enqueue now fresh kind payload opts jobs).0
unfolding enqueue
enqueue-RowsOk now fresh kind payload opts jobs h =
    let j = new_job now fresh kind payload opts in
    ground (arith, insert-RowsOk j.id j jobs (new_job-JobOk now fresh kind payload opts) h)

pub dequeue-RowsOk :
    (now : ℕ) (worker : String) (kinds : List String) (jobs : Jobs)
    → RowsOk jobs
    → RowsOk (dequeue now worker kinds jobs).0
dequeue-RowsOk now worker kinds jobs h = elim (Option-cases (dequeue now worker kinds jobs).1) [
  | inl e ↦ rw (dequeue_idle now worker kinds jobs e).0 h
  | inr (p, e) ↦
      let c = dequeue-Claimed now worker kinds jobs p h.unique e in
      let ok = Entries-lookup JobOk c.key jobs h.rows c.stored in
      rw (c.written, c.picked)
        (insert-RowsOk c.key (claimed now worker c.before) jobs
          (claimed-JobOk now worker c.key c.before ok (rw c.claimable.waiting refl)) h)
]

if_owned-RowsOk :
    (worker key : String) (settle : Job → Job) (jobs : Jobs)
    → ((j : Job) → JobOk key j → is_running j.status ≡ true → JobOk key (settle j))
    → RowsOk jobs
    → RowsOk (if_owned worker key settle (lookup key jobs) jobs).0
if_owned-RowsOk worker key settle jobs f h = elim (Option-cases (lookup key jobs)) [
  | inl e ↦ rw e h
  | inr (j, e) ↦ rw e (go j (Entries-lookup JobOk key jobs h.rows e))
]
  where
    go : (j : Job) → JobOk key j → RowsOk (if_owned worker key settle (some j) jobs).0
    go j ok = elim (Bool-cases (is_running j.status)) [
      | inl r ↦ ground (arith, insert-RowsOk key (settle j) jobs (f j ok r) h)
      | inr r ↦ ground arith
    ]

pub complete-RowsOk :
    (now : ℕ) (worker id : String) (jobs : Jobs)
    → RowsOk jobs
    → RowsOk (complete now worker id jobs).0
unfolding complete
complete-RowsOk now worker id jobs =
    if_owned-RowsOk worker id (completed now) jobs (completed-JobOk now id)

pub fail-RowsOk :
    (now : ℕ) (worker id error : String) (jobs : Jobs)
    → RowsOk jobs
    → RowsOk (fail now worker id error jobs).0
unfolding fail
fail-RowsOk now worker id error jobs =
    if_owned-RowsOk worker id (failed_job now error) jobs (failed_job-JobOk now error id)

pub reschedule-RowsOk :
    (now : ℕ) (worker id : String) (next_run_at : ℕ) (error : String) (jobs : Jobs)
    → RowsOk jobs
    → RowsOk (reschedule now worker id next_run_at error jobs).0
unfolding reschedule
reschedule-RowsOk now worker id next_run_at error jobs =
    if_owned-RowsOk worker id (rescheduled now next_run_at error) jobs
      (rescheduled-JobOk now next_run_at error id)

delete_older_than-absent :
    (cutoff : ℕ) (key : String) (jobs : Jobs)
    → lookup key jobs ≡ none
    → lookup key (delete_older_than cutoff jobs).0 ≡ none
unfolding delete_older_than lookup
delete_older_than-absent cutoff key [] h = refl
delete_older_than-absent cutoff key ((i, j) ∷ jobs) h =
    ground (arith, delete_older_than-absent cutoff key jobs)

pub delete_older_than-RowsOk :
    (cutoff : ℕ) (jobs : Jobs) → RowsOk jobs → RowsOk (delete_older_than cutoff jobs).0
unfolding delete_older_than
delete_older_than-RowsOk cutoff [] h = h
delete_older_than-RowsOk cutoff ((i, j) ∷ jobs) h =
    let rest =
      delete_older_than-RowsOk cutoff jobs (record { unique = h.unique.1; rows = h.rows.1 }) in
    elim (Bool-cases (is_expired cutoff j)) [
      | inl e ↦ rw e rest
      | inr e ↦ rw e (record {
        unique = (delete_older_than-absent cutoff i jobs h.unique.0, rest.unique);
        rows = (h.rows.0, rest.rows);
      })
    ]
