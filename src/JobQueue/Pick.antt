-- ===== src/JobQueue/Pick.antt =====
-- The job that `Dequeue` hands out, and when it hands out none (memory.go, `Dequeue`).
use cooker.Prelude.{
  ℕ, ◌≤◌, String, true, none, some, List, [], ◌∷◌, ◌≡◌, ◌⊎◌, inl, inr, refl, ap, sym, subst, arith,
  ltb, Bool-cases, Option-cases, In,
}
use cooker.Prelude.Dict.{lookup, insert, Keyed}
use cooker.Prelude.Dict.Entries.{lookup_of_In}
use cooker.JobQueue.{
  Job, Jobs, to_set, running_keys, is_ready, candidates, sooner, earliest, claimed, claim, dequeue,
}
use cooker.JobQueue.Claims.{IsClaimable, ready→IsClaimable, IsClaimable→ready}

module _ (now : ℕ) (filter keys : List String) where
  candidates-In :
      (jobs : Jobs) (c : String × Job)
      → In c (candidates now filter keys jobs)
      → In c jobs × (is_ready now filter keys c.1 ≡ true)
  unfolding candidates
  candidates-In [] c m = absurd m
  candidates-In ((i, j) ∷ jobs) c m = elim (Bool-cases (is_ready now filter keys j)) [
    | inl e ↦ head e (rw e at m) (candidates-In jobs c)
    | inr e ↦ let (p, q) = candidates-In jobs c (rw e at m) in (inr p, q)
  ]
    where
      head :
          is_ready now filter keys j ≡ true
          → In c ((i, j) ∷ candidates now filter keys jobs)
          → (In c (candidates now filter keys jobs)
              → In c jobs × (is_ready now filter keys c.1 ≡ true))
          → In c ((i, j) ∷ jobs) × (is_ready now filter keys c.1 ≡ true)
      head e (inl q) f = (inl q, rw (← q) e)
      head e (inr n) f = let (p, r) = f n in (inr p, r)

  In-candidates :
      (jobs : Jobs) (c : String × Job)
      → In c jobs
      → is_ready now filter keys c.1 ≡ true
      → In c (candidates now filter keys jobs)
  unfolding candidates
  In-candidates [] c m r = absurd m
  In-candidates ((i, j) ∷ jobs) c (inl e) r =
      let same : j ≡ c.1 = ap (λ p. p.1) e in
      let fits : is_ready now filter keys j ≡ true = rw same r in rw fits (inl e)
  In-candidates ((i, j) ∷ jobs) c (inr m) r = elim (Bool-cases (is_ready now filter keys j)) [
    | inl e ↦ rw e (inr (In-candidates jobs c m r))
    | inr e ↦ rw e (In-candidates jobs c m r)
  ]

-- The head after the sort stands in the list, and no element is due before it.
abbrev IsEarliest : Jobs → String × Job → Type 0
IsEarliest cs c = In c cs × ((d : String × Job) → In d cs → c.1.run_at ≤ d.1.run_at)

sooner_cases :
    (c t : String × Job)
    → (sooner c (some t) ≡ t) × (t.1.run_at ≤ c.1.run_at)
      ⊎ (sooner c (some t) ≡ c) × (c.1.run_at ≤ t.1.run_at)
sooner_cases (i, j) (k, l) = elim (Bool-cases (ltb l.run_at j.run_at)) [
  | inl e ↦ inl (rw e refl, ground arith)
  | inr e ↦ inr (rw e refl, ground arith)
]

-- A lower bound of the tail that the head does not undercut bounds the whole list.
bound_cons :
    (n : ℕ) (c : String × Job) (cs : Jobs)
    → n ≤ c.1.run_at
    → ((d : String × Job) → In d cs → n ≤ d.1.run_at)
    → (d : String × Job) → In d (c ∷ cs)
    → n ≤ d.1.run_at
bound_cons n c cs h f d (inl e) = rw (← e) h
bound_cons n c cs h f d (inr m) = f d m

sooner-IsEarliest :
    (c t : String × Job) (cs : Jobs) → IsEarliest cs t → IsEarliest (c ∷ cs) (sooner c (some t))
sooner-IsEarliest c t cs (m, least) = elim (sooner_cases c t) [
  | inl (e, le) ↦ subst (IsEarliest (c ∷ cs)) (sym e) (inr m, bound_cons t.1.run_at c cs le least)
  | inr (e, le) ↦
      subst (IsEarliest (c ∷ cs)) (sym e)
        (inl refl, bound_cons c.1.run_at c cs (omega arith) λ d p. omega (arith, least d p))
]

earliest_lem : (cs : Jobs) (c : String × Job) → earliest cs ≡ some c → IsEarliest cs c
unfolding earliest
earliest_lem [] c e = absurd (cc)
earliest_lem (d ∷ []) c e =
    let same : d ≡ c = cc in
    subst (IsEarliest (d ∷ [])) same
      (inl refl, bound_cons d.1.run_at d [] (omega arith) (λ f m. absurd m))
earliest_lem (d ∷ f ∷ cs) c e =
    let same : sooner d (earliest (f ∷ cs)) ≡ c = cc in
    subst (IsEarliest (d ∷ f ∷ cs)) same
      (sooner-IsEarliest d (sooner f (earliest cs)) (f ∷ cs) (earliest_lem (f ∷ cs) _ refl))

earliest-none : (cs : Jobs) → earliest cs ≡ none → cs ≡ []
unfolding earliest
earliest-none [] e = refl
earliest-none (d ∷ cs) e = absurd (cc)

-- What a successful `Dequeue` did: it took a claimable job, none of the claimable jobs was due
-- before it, and the store has the job marked as running for this worker and nothing else new.
pub record Claimed (now : ℕ) (worker : String) (kinds : List String) (jobs after : Jobs) (p : Job)
    : Type 0 where
  pub key : String
  pub before : Job
  pub stored : lookup key jobs ≡ some before
  pub claimable : IsClaimable now kinds jobs before
  pub first :
      (i : String) (l : Job)
      → In (i, l) jobs
      → IsClaimable now kinds jobs l
      → before.run_at ≤ l.run_at
  pub picked : p ≡ claimed now worker before
  pub written : after ≡ insert key p jobs

module _ (now : ℕ) (worker : String) (kinds : List String) (jobs : Jobs) where
  abbrev ready_jobs : Jobs
  ready_jobs = candidates now (to_set kinds) (running_keys jobs) jobs

  dequeue_eq : dequeue now worker kinds jobs ≡ claim now worker (earliest ready_jobs) jobs
  unfolding dequeue
  dequeue_eq = refl

  -- `Dequeue` hands out a job that is pending, due, of an accepted kind and whose concurrency
  -- key no running job holds; no other such job has an earlier run time; and it writes just that
  -- job back, running and locked by the worker with one more attempt.
  pub dequeue-Claimed :
      (p : Job)
      → Keyed jobs
      → (dequeue now worker kinds jobs).1 ≡ some p
      → Claimed now worker kinds jobs (dequeue now worker kinds jobs).0 p
  dequeue-Claimed p unique e = elim (Option-cases (earliest ready_jobs)) [
    | inl nothing ↦ absurd (let h = rw (dequeue_eq, nothing) at e in cc)
    | inr ((i, j), pick) ↦
        let (m, least) = earliest_lem ready_jobs (i, j) pick in
        let (stands, fits) = candidates-In now (to_set kinds) (running_keys jobs) jobs (i, j) m in
        let taken : some (claimed now worker j) ≡ some p = rw (dequeue_eq, pick) at e in
        let picked : p ≡ claimed now worker j = cc in
        record {
          key = i;
          before = j;
          stored = lookup_of_In i j jobs unique stands;
          claimable = ready→IsClaimable now kinds jobs j fits;
          first = λ k l n c.
              least (k, l)
                (In-candidates now (to_set kinds) (running_keys jobs) jobs (k, l) n
                  (IsClaimable→ready now kinds jobs l c));
          picked = picked;
          written = rw (dequeue_eq, pick, picked) refl;
        }
  ]

  -- `Dequeue` hands out nothing only if no job is claimable, and then it changes nothing.
  pub dequeue_idle :
      (dequeue now worker kinds jobs).1 ≡ none
      → ((dequeue now worker kinds jobs).0 ≡ jobs)
        × ((i : String) (l : Job) → In (i, l) jobs → ¬ IsClaimable now kinds jobs l)
  dequeue_idle e = elim (Option-cases (earliest ready_jobs)) [
    | inl nothing ↦
        (rw (dequeue_eq, nothing), λ i l m c. never i l m c (earliest-none ready_jobs nothing))
    | inr ((i, j), pick) ↦ absurd (let h = rw (dequeue_eq, pick) at e in cc)
  ]
    where
      never :
          (i : String) (l : Job)
          → In (i, l) jobs
          → IsClaimable now kinds jobs l
          → ready_jobs ≡ []
          → ⊥
      never i l m c empty =
          let there =
            In-candidates now (to_set kinds) (running_keys jobs) jobs (i, l) m
              (IsClaimable→ready now kinds jobs l c) in
          rw empty at there
