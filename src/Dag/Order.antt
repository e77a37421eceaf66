-- ===== src/Dag/Order.antt =====
-- The rounds of `TopologicalSort` together (backend/pkg/dagrunner/dag.go): what they keep, and that
-- as many rounds as there are nodes are enough.
use cooker.Prelude.{
  ℕ, suc, ◌+◌, ◌≤◌, String, true, false, ◌&&◌, Option, none, some, List, [], ◌∷◌, ◌++◌, length,
  length-append, All, ◌≡◌, inl, inr, refl, ap, subst, ◌∙◌, arith, ◌=ₛ◌, =ₛ_eq, =ₛ_refl, Bool-cases,
  leb, ◌==◌, if◌then◌else◌, has, count, count-append, count-eq-zero,
}
use cooker.Prelude.Int.{pos}
use cooker.Prelude.Dict.{lookup, Keyed}
use cooker.Dag.{Nodes, keys, or_nil, int_at, list_at, is_some, Pass, relax, visit}
use cooker.Dag.Linking.{count-keys, when}
use cooker.Dag.Passes.{relax_lem}

-- How many of the dependencies are not done.
abbrev pub left : List String → List String → ℕ
left done [] = 0
left done (dep ∷ deps) = (if leb 1 (count dep done) then 0 else 1) + left done deps

pub left-congr :
    (p q ds : List String) → ((x : String) → count x p ≡ count x q) → left p ds ≡ left q ds
left-congr p q [] h = refl
left-congr p q (d ∷ ds) h = let a = h d in let b = left-congr p q ds h in ground (arith, a, b)

pub left-nil : (ds : List String) → left [] ds ≡ length ds
left-nil [] = refl
left-nil (d ∷ ds) = omega (arith, left-nil ds)

left-cons :
    (v : String) (p ds : List String) → count v p ≡ 0 → left (v ∷ p) ds + count v ds ≡ left p ds
left-cons v p [] h = refl
left-cons v p (d ∷ ds) h = elim (Bool-cases (v =ₛ d)) [
  | inl e ↦
      subst (λ u. left (v ∷ p) (u ∷ ds) + count v (u ∷ ds) ≡ left p (u ∷ ds)) (=ₛ_eq v d e)
        (rw (=ₛ_refl v, h) (omega (arith, left-cons v p ds h)))
  | inr e ↦ other e (flip e) (left-cons v p ds h)
]
  where
    flip : (v =ₛ d) ≡ false → (d =ₛ v) ≡ false
    flip e = elim (Bool-cases (d =ₛ v)) [
      | inl s ↦
          let same = =ₛ_eq d v s in
          let hit = subst (λ u. (v =ₛ u) ≡ false) same e in let also = =ₛ_refl v in absurd (cc)
      | inr s ↦ s
    ]

    other :
        (v =ₛ d) ≡ false
        → (d =ₛ v) ≡ false
        → left (v ∷ p) ds + count v ds ≡ left p ds
        → left (v ∷ p) (d ∷ ds) + count v (d ∷ ds) ≡ left p (d ∷ ds)
    other e f r = rw (e, f) (ground (arith, r))

pub left-zero : (p ds : List String) → left p ds ≡ 0 → All (λ dep. has dep p ≡ true) ds
left-zero p [] h = tt
left-zero p (d ∷ ds) h =
    let z = count-eq-zero d p in (ground (arith, h, z), left-zero p ds (ground (arith, h)))

abbrev pub deps_of : Nodes → String → List String
deps_of nodes x = list_at x nodes

abbrev pub times : Nodes → String → ℕ
times nodes x = count x (keys nodes)

pub times-le : (nodes : Nodes) → Keyed nodes → (x : String) → times nodes x ≤ 1
times-le nodes k x = let e = count-keys x nodes k in ground (arith, e)

-- Only a node has dependencies.
pub times-eq :
    (nodes : Nodes)
    → Keyed nodes
    → (v x : String) → 1 ≤ count v (deps_of nodes x)
    → times nodes x ≡ 1
times-eq nodes k v x h = count-keys x nodes k ∙ there (lookup x nodes) h
  where
    there : (o : Option (List String)) → 1 ≤ count v (or_nil o) → when (is_some o) 1 ≡ 1
    there none h = absurd (omega arith)
    there (some ds) h = refl

module _ (nodes : Nodes) (keyed : Keyed nodes) (adj : List (String × List String))
    (edges : (v x : String) → count x (list_at v adj) ≡ count v (deps_of nodes x)) where
  -- The state when the names of `done` are visited and those of `cur` are left of the level.
  pub record Reached (done cur : List String) (p : Pass) : Type 0 where
    pub degree : (x : String) → int_at x p.degrees ≡ pos (left done (deps_of nodes x))
    pub queued :
        (x : String)
        → count x done + count x cur + count x p.next_queue
          ≡ when (left done (deps_of nodes x) == 0) (times nodes x)
    pub counter : p.visited ≡ length done

  step_sum :
      (a b l m t n e : ℕ)
      → t ≤ 1
      → (1 ≤ e → t ≡ 1)
      → m + e ≡ l
      → a + b + n ≡ when (l == 0) t
      → a + b + (n + when (leb 1 e && (m == 0)) 1) ≡ when (m == 0) t
  step_sum a b l m t n e le one s h = ground (arith, one)

  node_done :
      (v : String) (done cur : List String) (p : Pass)
      → Reached done (v ∷ cur) p
      → Reached (v ∷ done) cur (relax (list_at v adj) (record p { visited = suc p.visited }))
  node_done v done cur p h =
      let absent : count v done ≡ 0 =
        let q = h.queued v in
        let t = times-le nodes keyed v in let s = =ₛ_refl v in ground (arith, q, t, s) in
      let now : String → ℕ = λ x. left (v ∷ done) (deps_of nodes x) in
      let before = λ (x : String). left-cons v done (deps_of nodes x) absent in
      let r =
        relax_lem (list_at v adj) now (λ x. count x p.next_queue) (suc p.visited)
          (record p { visited = suc p.visited })
          (record {
            degree = λ x. h.degree x ∙ ap pos (omega (arith, before x, edges v x));
            queued = λ x. refl;
            counter = refl;
          }) in
      record {
        degree = r.degree;
        queued = λ x.
            rw (r.queued x, edges v x)
              (swap (when (v =ₛ x) 1) (count x done) (count x cur) (_)
                ∙ step_sum (count x done) (when (v =ₛ x) 1 + count x cur)
                    (left done (deps_of nodes x)) (now x) (times nodes x) (count x p.next_queue)
                    (count v (deps_of nodes x)) (times-le nodes keyed x) (times-eq nodes keyed v x)
                    (before x) (h.queued x));
        counter = r.counter ∙ ap suc h.counter;
      }
    where
      swap : (w a b n : ℕ) → w + a + b + n ≡ a + (w + b) + n
      swap w a b n = omega arith

  -- The names of a level, each put before those that are done.
  abbrev pub onto : List String → List String → List String
  onto [] done = done
  onto (v ∷ vs) done = onto vs (v ∷ done)

  count-onto :
      (x : String) (cur done : List String) → count x (onto cur done) ≡ count x cur + count x done
  count-onto x [] done = omega arith
  count-onto x (v ∷ cur) done = omega (arith, count-onto x cur (v ∷ done))

  pub length-onto : (cur done : List String) → length (onto cur done) ≡ length cur + length done
  length-onto [] done = omega arith
  length-onto (v ∷ cur) done = omega (arith, length-onto cur (v ∷ done))

  pub level_done :
      (cur done : List String) (p : Pass)
      → Reached done cur p
      → Reached (onto cur done) [] (visit adj cur p)
  unfolding visit
  level_done [] done p h = h
  level_done (v ∷ cur) done p h =
      level_done cur (v ∷ done) (relax (list_at v adj) (record p { visited = suc p.visited }))
        (node_done v done cur p h)

  -- The next round starts where a level ends.
  pub next_round :
      (cur done : List String) (p : Pass)
      → Reached (onto cur done) [] p
      → Reached
          (cur ++ done)
          p.next_queue
          (record { degrees = p.degrees; next_queue = []; visited = p.visited })
  next_round cur done p h =
      let same = λ (x : String). count-onto x cur done ∙ flip (count-append x cur done) in
      let lefts = λ (x : String). left-congr (onto cur done) (cur ++ done) (deps_of nodes x) same in
      record {
        degree = λ x. h.degree x ∙ ap pos (lefts x);
        queued = λ x. shift (times nodes x) (count x p.next_queue) (same x) (lefts x) (h.queued x);
        counter = h.counter ∙ omega (arith, length-onto cur done, length-append cur done);
      }
    where
      flip : {a b : ℕ} → a ≡ b → b ≡ a
      flip p = cc

      shift :
          {a b l m : ℕ} (t n : ℕ)
          → a ≡ b
          → l ≡ m
          → a + 0 + n ≡ when (l == 0) t
          → b + n + 0 ≡ when (m == 0) t
      shift t n e f h = rw (← e, ← f) (omega (arith, h))
