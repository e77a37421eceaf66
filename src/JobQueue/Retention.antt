-- ===== src/JobQueue/Retention.antt =====
-- The retention sweep and the counts (memory.go, `DeleteOlderThan`, `Stats`).
use cooker.Prelude.{
  ℕ, ◌+◌, ◌≤◌, ◌<◌, String, Option, none, some, [], ◌∷◌, ◌≡◌, ◌⊎◌, inl, inr, refl, arith,
  if◌then◌else◌, Bool-cases, length,
}
use cooker.Prelude.Dict.{lookup, Keyed}
use text.Mathlib.TextEquality.{eq_iff}
use cooker.JobQueue.{
  pending, running, succeeded, failed, cancelled, Job, Jobs, finish_time, is_expired,
  delete_older_than, stats,
}

abbrev keep : ℕ → Option Job → Option Job
keep cutoff none = none
keep cutoff (some j) = if is_expired cutoff j then none else some j

delete-absent :
    (cutoff : ℕ) (id : String) (jobs : Jobs)
    → lookup id jobs ≡ none
    → lookup id (delete_older_than cutoff jobs).0 ≡ none
unfolding delete_older_than lookup
delete-absent cutoff id [] h = refl
delete-absent cutoff id ((i, j) ∷ jobs) h = ground (arith, delete-absent cutoff id jobs)

lookup-delete_older_than :
    (cutoff : ℕ) (id : String) (jobs : Jobs)
    → Keyed jobs
    → lookup id (delete_older_than cutoff jobs).0 ≡ keep cutoff (lookup id jobs)
unfolding delete_older_than lookup
lookup-delete_older_than cutoff id [] h = refl
lookup-delete_older_than cutoff id ((i, j) ∷ jobs) h = ground (
  arith,
  eq_iff i id,
  delete-absent cutoff i jobs h.0,
  lookup-delete_older_than cutoff id jobs h.1,
)

length-delete :
    (cutoff : ℕ) (jobs : Jobs)
    → length (delete_older_than cutoff jobs).0 + (delete_older_than cutoff jobs).1 ≡ length jobs
unfolding delete_older_than
length-delete cutoff [] = omega arith
length-delete cutoff ((i, j) ∷ jobs) = elim (Bool-cases (is_expired cutoff j)) [
  | inl e ↦ rw e (omega (arith, length-delete cutoff jobs))
  | inr e ↦ rw e (omega (arith, length-delete cutoff jobs))
]

-- `DeleteOlderThan` leaves every pending and every running job, and every job that finished at
-- or after the cutoff; it removes each terminal job that finished before it; and the number it
-- returns is the number of rows that are gone.
pub delete_older_than_sweep :
    (cutoff : ℕ) (id : String) (jobs : Jobs) (j : Job)
    → Keyed jobs
    → lookup id jobs ≡ some j
    → let (after, n) = delete_older_than cutoff jobs in
      ((j.status ≡ pending) ⊎ (j.status ≡ running) → lookup id after ≡ some j)
      × (cutoff ≤ finish_time j → lookup id after ≡ some j)
      × ((j.status ≡ succeeded) ⊎ (j.status ≡ failed) ⊎ (j.status ≡ cancelled)
          → finish_time j < cutoff
          → lookup id after ≡ none)
      × (length after + n ≡ length jobs)
unfolding is_expired
delete_older_than_sweep cutoff id jobs j h e =
    let row = lookup-delete_older_than cutoff id jobs h in
    (
      λ s. rw (row, e) (ground arith),
      λ s. rw (row, e) (ground arith),
      λ s lt. rw (row, e) (ground arith),
      length-delete cutoff jobs,
    )

-- The counts of `Stats` over the five statuses add up to the number of rows.
pub stats_total :
    (jobs : Jobs)
    → stats jobs pending
        + stats jobs running
        + stats jobs succeeded
        + stats jobs failed
        + stats jobs cancelled
      ≡ length jobs
unfolding stats
stats_total [] = omega arith
stats_total ((i, j) ∷ jobs) = ground (arith, stats_total jobs)
