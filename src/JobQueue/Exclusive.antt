-- ===== src/JobQueue/Exclusive.antt =====
-- A concurrency key has at most one running job (jobqueue.go, package comment; memory.go).
use cooker.Prelude.{
  ℕ, ◌≤◌, String, false, ◌&&◌, Option, some, List, [], ◌∷◌, ◌≡◌, ◌≢◌, inl, inr, refl, sym, ◌∙◌,
  arith, if◌then◌else◌, ◌=ₛ◌, =ₛ_eq, Bool-cases, Option-cases, In,
}
use cooker.Prelude.Dict.{lookup, insert}
use cooker.Prelude.Dict.Measure.{total, total-insert}
use text.Mathlib.TextEquality.{eq_iff}
use cooker.JobQueue.{
  running, Job, Jobs, EnqueueOptions, is_running, new_job, enqueue, claimed, dequeue, if_owned,
  completed, complete, failed_job, fail, rescheduled, reschedule, is_expired, delete_older_than,
}
use cooker.JobQueue.Pick.{dequeue-Claimed, dequeue_idle}
use cooker.JobQueue.Invariant.{RowsOk}

abbrev occupies : String → Job → ℕ
occupies key j = if is_running j.status && (j.concurrency_key =ₛ key) then 1 else 0

-- How many running jobs have the key.
abbrev pub running_with : String → Jobs → ℕ
running_with key = total (λ id. occupies key)

abbrev pub IsExclusive : Jobs → Type 0
IsExclusive jobs = (key : String) → key ≢ "" → running_with key jobs ≤ 1

-- Writing a job that does not run opens no second slot.
insert-IsExclusive :
    (id : String) (j : Job) (jobs : Jobs)
    → is_running j.status ≡ false
    → IsExclusive jobs
    → IsExclusive (insert id j jobs)
insert-IsExclusive id j jobs idle h key ne =
    let none_new : occupies key j ≡ 0 = rw idle in
    omega (arith, total-insert (λ i. occupies key) id j jobs, h key ne)

free-running_with :
    (key : String) (jobs : Jobs)
    → ((i : String) (l : Job) → In (i, l) jobs → l.status ≡ running → l.concurrency_key ≢ key)
    → running_with key jobs ≡ 0
free-running_with key [] h = refl
free-running_with key ((i, l) ∷ jobs) h =
    let rest = free-running_with key jobs (λ k m n. h k m (inr n)) in
    let first = h i l (inl refl) in ground (arith, eq_iff l.concurrency_key key)

new_job_idle :
    (now : ℕ) (fresh kind : String) (payload : Option String) (opts : EnqueueOptions)
    → is_running (new_job now fresh kind payload opts).status ≡ false
unfolding new_job
new_job_idle now fresh kind payload opts = refl

pub enqueue-IsExclusive :
    (now : ℕ) (fresh kind : String) (payload : Option String) (opts : EnqueueOptions) (jobs : Jobs)
    → IsExclusive jobs
    → IsExclusive (enqueue now fresh kind payload opts jobs).0
unfolding enqueue
enqueue-IsExclusive now fresh kind payload opts jobs h key ne =
    let j = new_job now fresh kind payload opts in
    ground (
      arith,
      h key ne,
      insert-IsExclusive j.id j jobs (new_job_idle now fresh kind payload opts) h key ne,
    )

occupies_le_one : (key : String) (j : Job) → occupies key j ≤ 1
occupies_le_one key j = ground arith

-- Claiming a job whose key no running job holds leaves the key with one holder.
claimed-running_with :
    (now : ℕ) (worker id key : String) (j : Job) (jobs : Jobs)
    → running_with key jobs ≤ 1
    → ((i : String) (l : Job)
        → In (i, l) jobs
        → l.status ≡ running
        → j.concurrency_key ≡ key
        → l.concurrency_key ≢ key)
    → running_with key (insert id (claimed now worker j) jobs) ≤ 1
unfolding claimed
claimed-running_with now worker id key j jobs h free =
    let p = claimed now worker j in
    let sum = total-insert (λ i. occupies key) id p jobs in
    elim (Bool-cases (j.concurrency_key =ₛ key)) [
      | inl e ↦
          let nobody =
            free-running_with key jobs (λ i l m r. free i l m r (=ₛ_eq j.concurrency_key key e)) in
          omega (arith, sum, nobody, occupies_le_one key p)
      | inr e ↦ let other : occupies key p ≡ 0 = rw e in omega (arith, sum, other, h)
    ]

pub dequeue-IsExclusive :
    (now : ℕ) (worker : String) (kinds : List String) (jobs : Jobs)
    → RowsOk jobs
    → IsExclusive jobs
    → IsExclusive (dequeue now worker kinds jobs).0
dequeue-IsExclusive now worker kinds jobs ok h key ne =
    elim (Option-cases (dequeue now worker kinds jobs).1) [
      | inl e ↦ rw (dequeue_idle now worker kinds jobs e).0 (h key ne)
      | inr (p, e) ↦
          let c = dequeue-Claimed now worker kinds jobs p ok.unique e in
          rw (c.written, c.picked)
            (claimed-running_with now worker c.key key c.before jobs (h key ne)
              λ i l m r same q. c.claimable.free (λ z. ne (sym same ∙ z)) i l m r (q ∙ sym same))
    ]

if_owned-IsExclusive :
    (worker id : String) (settle : Job → Job) (jobs : Jobs)
    → ((j : Job) → is_running (settle j).status ≡ false)
    → IsExclusive jobs
    → IsExclusive (if_owned worker id settle (lookup id jobs) jobs).0
if_owned-IsExclusive worker id settle jobs f h = elim (Option-cases (lookup id jobs)) [
  | inl e ↦ rw e h
  | inr (j, e) ↦ rw e (go j)
]
  where
    go : (j : Job) → IsExclusive (if_owned worker id settle (some j) jobs).0
    go j key ne = ground (arith, insert-IsExclusive id (settle j) jobs (f j) h key ne, h key ne)

pub complete-IsExclusive :
    (now : ℕ) (worker id : String) (jobs : Jobs)
    → IsExclusive jobs
    → IsExclusive (complete now worker id jobs).0
unfolding complete
complete-IsExclusive now worker id jobs =
    if_owned-IsExclusive worker id (completed now) jobs (λ j. refl)

pub fail-IsExclusive :
    (now : ℕ) (worker id error : String) (jobs : Jobs)
    → IsExclusive jobs
    → IsExclusive (fail now worker id error jobs).0
unfolding fail
fail-IsExclusive now worker id error jobs =
    if_owned-IsExclusive worker id (failed_job now error) jobs (λ j. refl)

rescheduled_idle :
    (now next_run_at : ℕ) (error : String) (j : Job)
    → is_running (rescheduled now next_run_at error j).status ≡ false
unfolding rescheduled
rescheduled_idle now next_run_at error j = ground arith

pub reschedule-IsExclusive :
    (now : ℕ) (worker id : String) (next_run_at : ℕ) (error : String) (jobs : Jobs)
    → IsExclusive jobs
    → IsExclusive (reschedule now worker id next_run_at error jobs).0
unfolding reschedule
reschedule-IsExclusive now worker id next_run_at error jobs =
    if_owned-IsExclusive worker id (rescheduled now next_run_at error) jobs
      (rescheduled_idle now next_run_at error)

running_with-delete :
    (cutoff : ℕ) (key : String) (jobs : Jobs)
    → running_with key (delete_older_than cutoff jobs).0 ≤ running_with key jobs
unfolding delete_older_than
running_with-delete cutoff key [] = omega arith
running_with-delete cutoff key ((i, j) ∷ jobs) = elim (Bool-cases (is_expired cutoff j)) [
  | inl e ↦ rw e (omega (arith, running_with-delete cutoff key jobs))
  | inr e ↦ rw e (omega (arith, running_with-delete cutoff key jobs))
]

pub delete_older_than-IsExclusive :
    (cutoff : ℕ) (jobs : Jobs) → IsExclusive jobs → IsExclusive (delete_older_than cutoff jobs).0
delete_older_than-IsExclusive cutoff jobs h key ne =
    omega (arith, running_with-delete cutoff key jobs, h key ne)
