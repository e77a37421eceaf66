-- ===== src/JobQueue/Ownership.antt =====
-- Who may end a job, and what the row holds afterwards (memory.go, `Complete`, `Fail`,
-- `Reschedule`).
use cooker.Prelude.{
  ℕ, ◌≤◌, ◌<◌, String, Option, none, some, ◌≡◌, ◌⊎◌, inl, inr, refl, arith, =ₛ_refl, Option-cases,
}
use cooker.Prelude.Dict.{lookup, insert, lookup-insert}
use text.Mathlib.TextEquality.{eq_iff}
use cooker.JobQueue.{
  pending, running, failed, Job, Jobs, Failure, not_locked, if_owned, completed, complete,
  failed_job, fail, rescheduled, reschedule,
}

-- The stored job runs, and this worker claimed it.
pub record Owns (worker id : String) (jobs : Jobs) (j : Job) : Type 0 where
  pub stored : lookup id jobs ≡ some j
  pub locked : j.locked_by ≡ worker
  pub runs : j.status ≡ running

module _ (worker id : String) (settle : Job → Job) (jobs : Jobs) where
  abbrev outcome : Jobs × Option Failure
  outcome = if_owned worker id settle (lookup id jobs) jobs

  if_owned-error : {f : Failure} → outcome.1 ≡ some f → outcome.0 ≡ jobs
  if_owned-error e = elim (Option-cases (lookup id jobs)) [
    | inl absent ↦ rw absent refl
    | inr (j, there) ↦ rw there (go j (rw there at e))
  ]
    where
      go :
          (j : Job) {f : Failure}
          → (if_owned worker id settle (some j) jobs).1 ≡ some f
          → (if_owned worker id settle (some j) jobs).0 ≡ jobs
      go j e = ground arith

  if_owned-success :
      outcome.1 ≡ none → (j : Job) × Owns worker id jobs j × (outcome.0 ≡ insert id (settle j) jobs)
  if_owned-success e = elim (Option-cases (lookup id jobs)) [
    | inl absent ↦ absurd (let h = rw absent at e in cc)
    | inr (j, there) ↦
        let (locked, runs, written) = go j (rw there at e) in
        (j, record { stored = there; locked = locked; runs = runs }, rw there written)
  ]
    where
      go :
          (j : Job)
          → (if_owned worker id settle (some j) jobs).1 ≡ none
          → (j.locked_by ≡ worker)
            × (j.status ≡ running)
            × ((if_owned worker id settle (some j) jobs).0 ≡ insert id (settle j) jobs)
      go j e = (
        ground (arith, eq_iff j.locked_by worker),
        ground (arith, eq_iff j.locked_by worker),
        ground (arith, eq_iff j.locked_by worker),
      )

  if_owned-Owns : (j : Job) → Owns worker id jobs j → outcome ≡ (insert id (settle j) jobs, none)
  if_owned-Owns j o = rw o.stored (ground (arith, eq_iff j.locked_by worker, o.locked, o.runs))

-- An operation that fails leaves the store as it was: `Complete`, `Fail` and `Reschedule`, on
-- each of their errors.
pub settle_error_unchanged :
    (now : ℕ) (worker id error : String) (next_run_at : ℕ) (jobs : Jobs) (f : Failure)
    → ((complete now worker id jobs).1 ≡ some f → (complete now worker id jobs).0 ≡ jobs)
      × ((fail now worker id error jobs).1 ≡ some f → (fail now worker id error jobs).0 ≡ jobs)
      × ((reschedule now worker id next_run_at error jobs).1 ≡ some f
          → (reschedule now worker id next_run_at error jobs).0 ≡ jobs)
unfolding complete fail reschedule
settle_error_unchanged now worker id error next_run_at jobs f = (
  λ e. if_owned-error worker id (completed now) jobs e,
  λ e. if_owned-error worker id (failed_job now error) jobs e,
  λ e. if_owned-error worker id (rescheduled now next_run_at error) jobs e,
)

-- `Complete`, `Fail` and `Reschedule` succeed only for the worker that holds the running job.
pub settle-Owns :
    (now : ℕ) (worker id error : String) (next_run_at : ℕ) (jobs : Jobs)
    → ((complete now worker id jobs).1 ≡ none)
      ⊎ ((fail now worker id error jobs).1 ≡ none)
      ⊎ ((reschedule now worker id next_run_at error jobs).1 ≡ none)
    → (j : Job) × Owns worker id jobs j
unfolding complete fail reschedule
settle-Owns now worker id error next_run_at jobs (inl e) =
    let (j, o, w) = if_owned-success worker id (completed now) jobs e in (j, o)
settle-Owns now worker id error next_run_at jobs (inr (inl e)) =
    let (j, o, w) = if_owned-success worker id (failed_job now error) jobs e in (j, o)
settle-Owns now worker id error next_run_at jobs (inr (inr e)) =
    let (j, o, w) = if_owned-success worker id (rescheduled now next_run_at error) jobs e in (j, o)

-- The holder's `Complete` succeeds, and only its row changes.
pub complete-Owns :
    (now : ℕ) (worker id : String) (jobs : Jobs) (j : Job)
    → Owns worker id jobs j
    → complete now worker id jobs ≡ (insert id (completed now j) jobs, none)
unfolding complete
complete-Owns now worker id jobs = if_owned-Owns worker id (completed now) jobs

-- The holder's `Reschedule` succeeds; a job with an attempt left waits again until `nextRunAt`
-- with its attempts as they were, and one without is failed for good.
pub reschedule-Owns :
    (now : ℕ) (worker id : String) (next_run_at : ℕ) (error : String) (jobs : Jobs) (j : Job)
    → Owns worker id jobs j
    → let (after, err) = reschedule now worker id next_run_at error jobs in
      (k : Job) × (err ≡ none)
      × (after ≡ insert id k jobs)
      × (k.last_error ≡ error)
      × (k.attempts ≡ j.attempts)
      × (k.max_attempts ≡ j.max_attempts)
      × (j.attempts < j.max_attempts → (k.status ≡ pending) × (k.run_at ≡ next_run_at))
      × (j.max_attempts ≤ j.attempts → (k.status ≡ failed) × (k.finished_at ≡ some now))
unfolding reschedule rescheduled failed_job
reschedule-Owns now worker id next_run_at error jobs j o =
    let done = if_owned-Owns worker id (rescheduled now next_run_at error) jobs j o in
    (
      rescheduled now next_run_at error j,
      rw done refl,
      rw done refl,
      ground arith,
      ground arith,
      ground arith,
      λ h. ground arith,
      λ h. ground arith,
    )

-- A job that was completed is not ended again: a second `Complete`, by whichever worker, finds
-- it not locked and changes nothing.
pub complete_twice :
    (now later : ℕ) (worker other id : String) (jobs : Jobs)
    → (complete now worker id jobs).1 ≡ none
    → let after = (complete now worker id jobs).0 in
      complete later other id after ≡ (after, some not_locked)
unfolding complete completed
complete_twice now later worker other id jobs e =
    let (j, o, w) = if_owned-success worker id (completed now) jobs e in
    rw (w, lookup-insert id id (completed now j) jobs, =ₛ_refl id) (ground arith)
