-- ===== src/JobQueue/Drain.antt =====
-- What one round of a worker does to the job that it claimed, and that the rounds come to an
-- end (worker.go, `handle`, `run`).
use cooker.Prelude.{
  ℕ, zero, suc, ◌+◌, ◌-◌, ◌≤◌, ◌<◌, String, Bool, true, false, Option, none, some, List, ◌≡◌, ◌≢◌,
  inl, inr, refl, ap, sym, ◌∙◌, subst, arith, if◌then◌else◌, =ₛ_refl, Bool-cases, Option-cases, In,
}
use cooker.Prelude.Dict.{lookup, insert, lookup-insert}
use cooker.Prelude.Dict.Measure.{total, held, total-insert, held-le-total}
use cooker.Prelude.Dict.Entries.{Entries-lookup}
use native.Mathlib.Decide.{dec_lt}
use cooker.JobQueue.{
  pending, succeeded, failed, Job, Jobs, is_pending, claimed, completed, rescheduled, dequeue,
}
use cooker.JobQueue.Pick.{Claimed, dequeue-Claimed, dequeue_idle}
use cooker.JobQueue.Claims.{IsClaimable}
use cooker.JobQueue.Invariant.{JobOk, RowsOk, dequeue-RowsOk, complete-RowsOk, reschedule-RowsOk}
use cooker.JobQueue.Ownership.{Owns, complete-Owns, reschedule-Owns}
use cooker.JobQueue.Worker.{
  Registry, handler_err, dispatch, handle, kinds, work, settle, drain, handle_claimed,
}

-- The attempts that the waiting jobs have left.
abbrev left : String → Job → ℕ
left id j = if is_pending j.status then j.max_attempts - j.attempts else 0

abbrev pub budget : Jobs → ℕ
budget = total left

-- What becomes of the claimed job `j` when its handler ends with `err`.
pub record Outcome (next : ℕ) (err : Option String) (j k : Job) : Type 0 where
  pub done : err ≡ none → k.status ≡ succeeded
  pub again :
      err ≢ none
      → j.attempts < j.max_attempts
      → (k.status ≡ pending)
        × (k.run_at ≡ next)
        × (k.attempts ≡ j.attempts)
        × (k.max_attempts ≡ j.max_attempts)
  pub spent : err ≢ none → j.max_attempts ≤ j.attempts → k.status ≡ failed

module _ (quote : String → String) (backoff : ℕ → ℕ) (r : Registry) (worker : String) where
  abbrev error_of : Job → Option String
  error_of j = handler_err quote (dispatch quote r j)

  pub handle-Outcome :
      (now later : ℕ) (j : Job) (jobs : Jobs)
      → Owns worker j.id jobs j
      → (k : Job) × (handle quote now later backoff r worker j jobs ≡ insert j.id k jobs)
        × Outcome (later + backoff j.attempts) (handler_err quote (dispatch quote r j)) j k
  unfolding handle completed rescheduled
  handle-Outcome now later j jobs o = elim (Option-cases (error_of j)) [
    | inl e ↦ (
      completed now j,
      rw e (ap (λ s. s.0) (complete-Owns now worker j.id jobs j o)),
      record { done = λ q. refl; again = λ ne. absurd (ne e); spent = λ ne. absurd (ne e) },
    )
    | inr (msg, e) ↦
        let next = later + backoff j.attempts in
        let (k, same_err, same, why, tries, cap, again, spent) =
          reschedule-Owns now worker j.id next msg jobs j o in
        (
          k,
          rw e same,
          record {
            done = λ q. absurd (cc);
            again = λ ne lt. ((again lt).0, (again lt).1, tries, cap);
            spent = λ ne le. (spent le).0;
          },
        )
  ]

  Outcome-left :
      (next : ℕ) (err : Option String) (j k : Job)
      → Outcome next err j k
      → left j.id k ≤ j.max_attempts - j.attempts
  Outcome-left next err j k h = elim (Option-cases err) [
    | inl e ↦ rw (h.done e) (omega arith)
    | inr (msg, e) ↦ elim (dec_lt j.attempts j.max_attempts) [
      | yes lt ↦ let (s, n, a, m) = h.again (λ q. absurd (cc)) lt in rw (s, a, m) (omega arith)
      | no ge ↦ rw (h.spent (λ q. absurd (cc)) (omega arith)) (omega arith)
    ]
  ]

  claimed-Owns :
      (now : ℕ) (key : String) (j : Job) (jobs : Jobs)
      → let p = claimed now worker j in Owns worker key (insert key p jobs) p
  unfolding claimed
  claimed-Owns now key j jobs = record {
    stored = rw (lookup-insert key key (claimed now worker j) jobs, =ₛ_refl key);
    locked = refl;
    runs = refl;
  }

  -- Writing back the outcome of a job that was claimed: the attempt is used up.
  budget-claim :
      (now : ℕ) (key : String) (j k : Job) (jobs : Jobs)
      → lookup key jobs ≡ some j
      → JobOk key j
      → j.status ≡ pending
      → left key k ≤ j.max_attempts - suc j.attempts
      → budget (insert key k (insert key (claimed now worker j) jobs)) < budget jobs
  unfolding claimed
  budget-claim now key j k jobs e ok p small =
      let c = claimed now worker j in
      let first = total-insert left key c jobs in
      let second = total-insert left key k (insert key c jobs) in
      let was : held left key (lookup key jobs) ≡ j.max_attempts - j.attempts = rw e (rw p refl) in
      let now_held : held left key (lookup key (insert key c jobs)) ≡ 0 =
        rw (lookup-insert key key c jobs, =ₛ_refl key) refl in
      let has_one : j.attempts < j.max_attempts = ok.startable (rw p refl) in
      omega (arith, first, second, was, now_held, small, has_one, held-le-total left key jobs)

  settle-RowsOk :
      (now later : ℕ) (j : Job) (err : Option String) (jobs : Jobs)
      → RowsOk jobs
      → RowsOk (settle quote now later backoff worker j err jobs)
  settle-RowsOk now later j none jobs h = complete-RowsOk now worker j.id jobs h
  settle-RowsOk now later j (some e) jobs h =
      reschedule-RowsOk now worker j.id (later + backoff j.attempts) e jobs h

  handled-RowsOk :
      (now later : ℕ) (j : Job) (jobs : Jobs)
      → RowsOk jobs
      → RowsOk (handle quote now later backoff r worker j jobs)
  unfolding handle
  handled-RowsOk now later j jobs h = settle-RowsOk now later j (error_of j) jobs h

  claimed-budget :
      (start now later : ℕ) (key : String) (j : Job) (jobs : Jobs)
      → lookup key jobs ≡ some j
      → JobOk key j
      → j.status ≡ pending
      → let p = claimed start worker j in
        budget (handle quote now later backoff r worker p (insert key p jobs)) < budget jobs
  unfolding claimed
  claimed-budget start now later key j jobs e ok waits =
      let p = claimed start worker j in
      let owner : Owns worker p.id (insert key p jobs) p =
        subst (λ s. Owns worker s (insert key p jobs) p) (sym ok.named)
          (claimed-Owns start key j jobs) in
      let (k, same, out) = handle-Outcome now later p (insert key p jobs) owner in
      let small =
        Outcome-left (later + backoff p.attempts) (handler_err quote (dispatch quote r p)) p k
          out in
      rw same (
        subst (λ s. budget (insert s k (insert key p jobs)) < budget jobs) (sym ok.named)
          (budget-claim start key j k jobs e ok waits (omega (arith, small))))

  handled-budget :
      {start : ℕ} {kinds : List String} {after : Jobs} (now later : ℕ) (jobs : Jobs) (p : Job)
      → RowsOk jobs
      → Claimed start worker kinds jobs after p
      → budget (handle quote now later backoff r worker p after) < budget jobs
  handled-budget {start} now later jobs p h c =
      rw (c.written, c.picked)
        (claimed-budget start now later c.key c.before jobs c.stored
          (Entries-lookup JobOk c.key jobs h.rows c.stored) c.claimable.waiting)

  module _ (start now later : ℕ) where
    abbrev view : Jobs × Option Job → Jobs × Bool
    view = handle_claimed quote now later backoff r worker

    view-some :
        (d : Jobs × Option Job) (p : Job)
        → d.1 ≡ some p
        → view d ≡ (handle quote now later backoff r worker p d.0, true)
    view-some (jobs, none) p e = absurd (cc)
    view-some (jobs, some j) p e = let same : j ≡ p = cc in rw same

    view-none : (d : Jobs × Option Job) → d.1 ≡ none → view d ≡ (d.0, false)
    view-none (jobs, none) e = refl
    view-none (jobs, some j) e = absurd (cc)

    abbrev after_work : Jobs → Jobs × Bool
    after_work jobs = work quote start now later backoff r worker jobs

    abbrev pick : Jobs → Jobs × Option Job
    pick jobs = dequeue start worker (kinds r) jobs

    work-view : (jobs : Jobs) → after_work jobs ≡ view (pick jobs)
    unfolding work
    work-view jobs = refl

    -- A round in which the worker claims a job uses up one of the attempts left in the store.
    work-budget :
        (jobs : Jobs)
        → RowsOk jobs
        → (after_work jobs).1 ≡ true
        → RowsOk (after_work jobs).0 × (budget (after_work jobs).0 < budget jobs)
    work-budget jobs h e = elim (Option-cases (pick jobs).1) [
      | inl idle ↦ absurd (let q = rw (work-view jobs, view-none (pick jobs) idle) at e in cc)
      | inr (p, picked) ↦
          rw (work-view jobs, view-some (pick jobs) p picked)
            (
              handled-RowsOk now later p (pick jobs).0
                  (dequeue-RowsOk start worker (kinds r) jobs h),
              handled-budget now later jobs p h
                  (dequeue-Claimed start worker (kinds r) jobs p h.unique picked),
            )
    ]

    work_idle : (jobs : Jobs) → (after_work jobs).1 ≡ false → (pick jobs).1 ≡ none
    work_idle jobs e = elim (Option-cases (pick jobs).1) [
      | inl idle ↦ idle
      | inr (p, picked) ↦
          absurd (let q = rw (work-view jobs, view-some (pick jobs) p picked) at e in cc)
    ]

  abbrev round : ℕ × ℕ × ℕ → Jobs → Jobs × Bool
  round t jobs = work quote t.0 t.1 t.2 backoff r worker jobs

  drain_busy :
      (n : ℕ) (clock : ℕ → ℕ × ℕ × ℕ) (jobs : Jobs)
      → (round (clock n) jobs).1 ≡ true
      → drain quote (suc n) clock backoff r worker jobs
        ≡ drain quote n clock backoff r worker (round (clock n) jobs).0
  unfolding drain
  drain_busy n clock jobs e = rw e

  drain_idle :
      (n : ℕ) (clock : ℕ → ℕ × ℕ × ℕ) (jobs : Jobs)
      → (round (clock n) jobs).1 ≡ false
      → drain quote (suc n) clock backoff r worker jobs
        ≡ some ((clock n).0, (round (clock n) jobs).0)
  unfolding drain
  drain_idle n clock jobs e = rw e

  -- The store on which the worker goes to sleep: no job of its kinds is claimable at the readings
  -- `t` of its last round, and that round leaves the store as it is.
  pub record IsDrained (t : ℕ × ℕ × ℕ) (jobs : Jobs) : Type 0 where
    pub rows_ok : RowsOk jobs
    pub idle : round t jobs ≡ (jobs, false)
    pub nothing : (i : String) (l : Job) → In (i, l) jobs → ¬ IsClaimable t.0 (kinds r) jobs l

  idle-IsDrained :
      (t : ℕ × ℕ × ℕ) (jobs : Jobs)
      → RowsOk jobs
      → (round t jobs).1 ≡ false
      → IsDrained t (round t jobs).0
  idle-IsDrained (start, now, later) jobs h e =
      let none_left = work_idle start now later jobs e in
      let (same, nothing) = dequeue_idle start worker (kinds r) jobs none_left in
      rw
        (
          work-view start now later jobs,
          view-none start now later (pick start now later jobs) none_left,
          same,
        )
        (record {
          rows_ok = h;
          idle =
              work-view start now later jobs
              ∙ view-none start now later (pick start now later jobs) none_left
              ∙ ap (λ m. (m, false)) same;
          nothing = nothing;
        })

  -- While no other worker takes jobs or adds any, a worker that may go on for more rounds than
  -- there are attempts left in the store comes to a round in which it finds no work, whatever
  -- the handlers do and the clock says. That round leaves the store as it is, and at the reading
  -- of the clock with which it asked for a job no job of the worker's kinds is claimable.
  pub drain_total :
      (n : ℕ) (clock : ℕ → ℕ × ℕ × ℕ) (jobs : Jobs)
      → RowsOk jobs
      → budget jobs < n
      → (i : ℕ) × (after : Jobs) × (i < n)
        × (drain quote n clock backoff r worker jobs ≡ some ((clock i).0, after))
        × IsDrained (clock i) after
  drain_total zero clock jobs h lt = absurd (omega arith)
  drain_total (suc n) clock jobs h lt = elim (Bool-cases (round (clock n) jobs).1) [
    | inl busy ↦
        let (ok, less) = work-budget (clock n).0 (clock n).1 (clock n).2 jobs h busy in
        let (i, after, lt, done, end) =
          drain_total n clock (round (clock n) jobs).0 ok (omega arith) in
        (i, after, omega (arith, lt), drain_busy n clock jobs busy ∙ done, end)
    | inr idle ↦ (
      n,
      (round (clock n) jobs).0,
      omega arith,
      drain_idle n clock jobs idle,
      idle-IsDrained (clock n) jobs h idle,
    )
  ]
