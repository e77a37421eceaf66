-- ===== src/JobQueue/Claims.antt =====
-- What `Dequeue` picks, against a description of the jobs that may be claimed which does not
-- mention its loops (memory.go, `Dequeue`).
use cooker.Prelude.{
  ℕ, ◌≤◌, String, Bool, true, false, not, ◌&&◌, List, [], ◌∷◌, ◌≡◌, ◌≢◌, ◌⊎◌, inl, inr, refl, ap,
  sym, ◌∙◌, arith, ◌=ₛ◌, =ₛ_eq, eq_=ₛ, Bool-cases, In,
}
use text.Mathlib.TextEquality.{eq_iff}
use cooker.JobQueue.{
  pending, running, Job, Jobs, contains, to_set, holds_key, running_keys, is_empty, is_ready,
}

-- A job that a worker may start now.
pub record IsClaimable (now : ℕ) (kinds : List String) (jobs : Jobs) (j : Job) : Type 0 where
  pub waiting : j.status ≡ pending
  pub due : j.run_at ≤ now
  -- The filter names no kind at all, or it names this one.
  pub accepted : ((x : String) → In x kinds → x ≡ "") ⊎ (In j.kind kinds × (j.kind ≢ ""))
  -- No running job has this job's concurrency key.
  pub free :
      j.concurrency_key ≢ ""
      → (i : String) (l : Job) → In (i, l) jobs
      → l.status ≡ running
      → l.concurrency_key ≢ j.concurrency_key

contains→In : (xs : List String) (s : String) → contains xs s ≡ true → In s xs
contains→In [] s h = cc
contains→In (x ∷ xs) s h = elim (Bool-cases (x =ₛ s)) [
  | inl e ↦ inl (=ₛ_eq x s e)
  | inr e ↦ inr (contains→In xs s (rw e at h))
]

In→contains : (xs : List String) (s : String) → In s xs → contains xs s ≡ true
In→contains [] s m = absurd m
In→contains (x ∷ xs) s (inl e) = rw (eq_=ₛ x s e)
In→contains (x ∷ xs) s (inr m) = ground (arith, In→contains xs s m)

In-to_set : (xs : List String) (s : String) → In s (to_set xs) → In s xs × (s ≢ "")
unfolding to_set
In-to_set [] s m = absurd m
In-to_set (x ∷ xs) s m = ground (arith, eq_iff x "", In-to_set xs s)

to_set-In : (xs : List String) (s : String) → s ≢ "" → In s xs → In s (to_set xs)
unfolding to_set
to_set-In [] s ne m = absurd m
to_set-In (x ∷ xs) s ne m = ground (arith, eq_iff x "", to_set-In xs s ne)

running_keys-In :
    (jobs : Jobs) (i : String) (l : Job)
    → In (i, l) jobs
    → l.status ≡ running
    → l.concurrency_key ≢ ""
    → In l.concurrency_key (running_keys jobs)
unfolding running_keys
running_keys-In [] i l m r ne = absurd m
running_keys-In ((j, k) ∷ jobs) i l (inl e) r ne =
    let same : k ≡ l = ap (λ p. p.1) e in rw same (ground (arith, eq_iff l.concurrency_key ""))
running_keys-In ((j, k) ∷ jobs) i l (inr m) r ne = ground (arith, running_keys-In jobs i l m r ne)

-- A running job that holds the key.
abbrev Runner : Jobs → String → Type 0
Runner jobs s =
    (i : String) × (l : Job) × In (i, l) jobs × (l.status ≡ running) × (l.concurrency_key ≡ s)

Runner-there : (c : String × Job) (jobs : Jobs) (s : String) → Runner jobs s → Runner (c ∷ jobs) s
Runner-there c jobs s (i, l, p, r, q) = (i, l, inr p, r, q)

holds_key-running : (k : Job) → holds_key k ≡ true → k.status ≡ running
holds_key-running k h = ground arith

In-running_keys : (jobs : Jobs) (s : String) → In s (running_keys jobs) → Runner jobs s
unfolding running_keys
In-running_keys [] s m = absurd m
In-running_keys ((j, k) ∷ jobs) s m = elim (Bool-cases (holds_key k)) [
  | inl e ↦ elim (split (rw e at m)) [
    | inl q ↦ (j, k, inl refl, holds_key-running k e, q)
    | inr n ↦ Runner-there (j, k) jobs s (In-running_keys jobs s n)
  ]
  | inr e ↦ Runner-there (j, k) jobs s (In-running_keys jobs s (rw e at m))
]
  where
    split :
        In s (k.concurrency_key ∷ running_keys jobs)
        → (k.concurrency_key ≡ s) ⊎ In s (running_keys jobs)
    split n = n

ne_of_test : (s t : String) → (s =ₛ t) ≡ false → s ≢ t
ne_of_test s t h e = let hit = eq_=ₛ s t e in cc

not_empty : {A : Type 0} (a : A) (xs : List A) → In a xs → is_empty xs ≡ false
not_empty a [] m = absurd m
not_empty a (x ∷ xs) m = refl

to_set_blank :
    (kinds : List String) → is_empty (to_set kinds) ≡ true → (x : String) → In x kinds → x ≡ ""
to_set_blank kinds h x m = elim (Bool-cases (x =ₛ "")) [
  | inl e ↦ =ₛ_eq x "" e
  | inr e ↦
      let full = not_empty x (to_set kinds) (to_set-In kinds x (ne_of_test x "" e) m) in absurd (cc)
]

blank-to_set :
    (kinds : List String) → ((x : String) → In x kinds → x ≡ "") → is_empty (to_set kinds) ≡ true
blank-to_set kinds h = elim (Bool-cases (is_empty (to_set kinds))) [
  | inl e ↦ e
  | inr e ↦
      absurd (full (to_set kinds) e (λ x m. (In-to_set kinds x m).1 (h x (In-to_set kinds x m).0)))
]
  where
    full : (xs : List String) → is_empty xs ≡ false → ((x : String) → In x xs → ⊥) → ⊥
    full [] q f = cc
    full (x ∷ xs) q f = f x (inl refl)

-- The filter of `toSet` lets a kind through exactly if `kinds` names none, or names this one.
abbrev kind_passes : List String → String → Bool
kind_passes kinds kind = not (not (is_empty (to_set kinds)) && not (contains (to_set kinds) kind))

abbrev Accepts : List String → String → Type 0
Accepts kinds kind = ((x : String) → In x kinds → x ≡ "") ⊎ (In kind kinds × (kind ≢ ""))

passes→Accepts :
    (kinds : List String) (kind : String) → kind_passes kinds kind ≡ true → Accepts kinds kind
passes→Accepts kinds kind h = elim (Bool-cases (is_empty (to_set kinds))) [
  | inl e ↦ inl (to_set_blank kinds e)
  | inr e ↦ inr (In-to_set kinds kind (contains→In (to_set kinds) kind (ground arith)))
]

Accepts→passes :
    (kinds : List String) (kind : String) → Accepts kinds kind → kind_passes kinds kind ≡ true
Accepts→passes kinds kind (inl h) = rw (blank-to_set kinds h)
Accepts→passes kinds kind (inr (m, ne)) =
    let found = In→contains (to_set kinds) kind (to_set-In kinds kind ne m) in ground arith

-- No running job has the key.
abbrev IsFree : Jobs → String → Type 0
IsFree jobs key =
    key ≢ ""
    → (i : String) (l : Job) → In (i, l) jobs
    → l.status ≡ running
    → l.concurrency_key ≢ key

abbrev key_passes : Jobs → String → Bool
key_passes jobs key = not (not (key =ₛ "") && contains (running_keys jobs) key)

passes→IsFree : (jobs : Jobs) (key : String) → key_passes jobs key ≡ true → IsFree jobs key
passes→IsFree jobs key h ne i l m r e =
    let member : In key (running_keys jobs) =
      rw (← e) (running_keys-In jobs i l m r (λ q. ne (sym e ∙ q))) in
    let hit = In→contains (running_keys jobs) key member in absurd (ground (arith, eq_iff key ""))

IsFree→passes : (jobs : Jobs) (key : String) → IsFree jobs key → key_passes jobs key ≡ true
IsFree→passes jobs key h = elim (Bool-cases (key =ₛ "")) [
  | inl e ↦ rw e
  | inr e ↦ elim (Bool-cases (contains (running_keys jobs) key)) [
    | inl c ↦
        let (i, l, m, r, q) = In-running_keys jobs key (contains→In (running_keys jobs) key c) in
        absurd (h (ne_of_test key "" e) i l m r q)
    | inr c ↦ rw (e, c)
  ]
]

module _ (now : ℕ) (kinds : List String) (jobs : Jobs) where
  abbrev pub ready : Job → Bool
  ready = is_ready now (to_set kinds) (running_keys jobs)

  pub ready→IsClaimable : (j : Job) → ready j ≡ true → IsClaimable now kinds jobs j
  unfolding is_ready
  ready→IsClaimable j h = record {
    waiting = ground arith;
    due = ground arith;
    accepted = passes→Accepts kinds j.kind (ground arith);
    free = passes→IsFree jobs j.concurrency_key (ground arith);
  }

  pub IsClaimable→ready : (j : Job) → IsClaimable now kinds jobs j → ready j ≡ true
  unfolding is_ready
  IsClaimable→ready j c =
      let kind_ok = Accepts→passes kinds j.kind c.accepted in
      let key_ok = IsFree→passes jobs j.concurrency_key c.free in ground (arith, c.waiting, c.due)
