-- ===== src/Dag/Levels.antt =====
-- What `TopologicalSort` answers (backend/pkg/dagrunner/dag.go).
use cooker.Prelude.{
  ℕ, zero, suc, ◌+◌, ◌≤◌, ◌<◌, String, Bool, true, some, List, [], ◌∷◌, length, ◌≡◌, inl, inr, refl,
  ap, ◌∙◌, arith, ◌==◌, ◌=ₛ◌, =ₛ_eq, =ₛ_refl, if◌then◌else◌, Bool-cases, has, count,
  length-le_of_count, count-eq_of_length,
}
use cooker.Prelude.Int.{ℤ, pos}
use cooker.Prelude.Dict.{Keyed}
use cooker.Dag.{
  Nodes, keys, int_at, is_zero, Links, linked, Pass, ready, levels, has_cycle, sort_linked,
}
use cooker.Dag.Linking.{when, Known, count-keys}
use cooker.Dag.Tables.{Tabled}
use cooker.Dag.Order.{left, left-nil, deps_of, times, times-le}
use cooker.Dag.Rounds.{flatten, Layered, length-keys, Walked, walk_lem}

count-ready :
    (x : String) (d : List (String × ℤ)) (ids : List String)
    → count x (ready d ids) ≡ when (is_zero (int_at x d)) (count x ids)
unfolding ready
count-ready x d [] = ground arith
count-ready x d (id ∷ ids) = elim (Bool-cases (id =ₛ x)) [
  | inl e ↦
      let s = =ₛ_eq id x e in
      let r = count-ready x d ids in
      elim (Bool-cases (is_zero (int_at x d))) [
        | inl z ↦ rw (s, z) (omega (arith, rw z at r))
        | inr z ↦ rw (s, z) (rw z at r)
      ]
  | inr e ↦
      let r = count-ready x d ids in
      elim (Bool-cases (is_zero (int_at id d))) [
        | inl z ↦ rw (z, e) (ground (arith, r))
        | inr z ↦ rw (z, e) (ground (arith, r))
      ]
]

-- A numbering of the names in which a node stands above its dependencies.
abbrev pub Ranked : Nodes → (String → ℕ) → Type 0
Ranked nodes rank = (x dep : String) → has dep (deps_of nodes x) ≡ true → rank dep < rank x

-- Every dependency is a node.
abbrev pub IsClosed : Nodes → Type 0
IsClosed nodes = (x : String) → Known nodes (deps_of nodes x)

-- Every node stands in the levels once, after its dependencies.
pub record IsOrder (nodes : Nodes) (found : List (List String)) : Type 0 where
  pub once : (x : String) → count x (flatten found) ≡ count x (keys nodes)
  pub layered : Layered nodes [] found

module _ (range : List String → List String)
    (same : (x : String) (xs : List String) → count x (range xs) ≡ count x xs) where
  abbrev first_queue : Links → List String
  first_queue l = ready l.in_degree (range (keys l.in_degree))

  abbrev first_pass : Links → Pass
  first_pass l = record { degrees = l.in_degree; next_queue = []; visited = 0 }

  pub rounds :
      (nodes : Nodes) (k : Keyed nodes) (l : Links) (t : Tabled nodes l)
      → Walked nodes k l.adj t.counted.edges (length nodes) [] (first_queue l) (first_pass l)
  rounds nodes k l t =
      walk_lem nodes k l.adj t.counted.edges (length nodes) [] (first_queue l) (first_pass l)
        (record {
          degree = λ x. t.counted.degree x ∙ ap pos (flip (left-nil (deps_of nodes x)));
          queued = λ x. begin x;
          counter = refl;
        })
        refl (omega arith)
    where
      flip : {a b : ℕ} → a ≡ b → b ≡ a
      flip p = cc

      begin :
          (x : String)
          → 0 + count x (first_queue l) + 0 ≡ when (left [] (deps_of nodes x) == 0) (times nodes x)
      begin x =
          rw
            (
              count-ready x l.in_degree (range (keys l.in_degree)),
              t.counted.degree x,
              same x (keys l.in_degree),
              t.names x,
              left-nil (deps_of nodes x),
            )
            (omega arith)

  pub answer :
      (nodes : Nodes) (k : Keyed nodes) (l : Links) (t : Tabled nodes l)
      (w : Walked nodes k l.adj t.counted.edges (length nodes) [] (first_queue l) (first_pass l))
      (test : Bool)
      → (length w.all == length nodes) ≡ test
      → sort_linked range nodes (linked l) ≡ some (if test then levels w.found else has_cycle)
  answer nodes k l t w test e = rw (w.ends, e) refl

  -- The names that are visited when every node is.
  pub complete :
      (nodes : Nodes) (k : Keyed nodes) (l : Links) (t : Tabled nodes l)
      (w : Walked nodes k l.adj t.counted.edges (length nodes) [] (first_queue l) (first_pass l))
      → length nodes ≤ length w.all
      → IsOrder nodes w.found
  complete nodes k l t w le = record {
    once = λ x.
        let some_of = le_times x in
        let all_of =
          count-eq_of_length w.all (keys nodes) le_times (omega (arith, le, length-keys nodes)) x in
        let v = w.visited x in omega (arith, some_of, all_of, v);
    layered = w.layered;
  }
    where
      le_times : (x : String) → count x w.all ≤ count x (keys nodes)
      le_times x = let o = w.only x in ground (arith, o)

  -- With a ranking, every node is visited.
  left-none :
      (done ds : List String)
      → ((dep : String) → has dep ds ≡ true → count dep done ≡ 1)
      → left done ds ≡ 0
  unfolding has
  left-none done [] h = refl
  left-none done (d ∷ ds) h =
      let here = h d (here_of d ds) in
      let rest = left-none done ds (λ x m. h x (later_of x d ds m)) in ground (arith, here, rest)
    where
      here_of : (d : String) (ds : List String) → has d (d ∷ ds) ≡ true
      here_of d ds = rw (=ₛ_refl d) refl

      later_of : (x d : String) (ds : List String) → has x ds ≡ true → has x (d ∷ ds) ≡ true
      later_of x d ds m = ground (arith, m)

  climb :
      (nodes : Nodes) (k : Keyed nodes) (closed : IsClosed nodes) (all : List String)
      → ((x : String) → count x all ≡ when (left all (deps_of nodes x) == 0) (times nodes x))
      → (rank : String → ℕ) → Ranked nodes rank
      → (n : ℕ) (x : String) → rank x < n
      → times nodes x ≡ 1
      → count x all ≡ 1
  climb nodes k closed all only rank up zero x lt one = absurd (omega arith)
  climb nodes k closed all only rank up (suc n) x lt one =
      let none_left = left-none all (deps_of nodes x) (λ dep m.
        climb nodes k closed all only rank up n dep
          (let less = up x dep m in omega (arith, less, lt))
          (count-keys dep nodes k ∙ ap (λ b. when b 1) (closed x dep m))) in
      only x ∙ rw (none_left, one) refl

  pub every_visited :
      (nodes : Nodes) (k : Keyed nodes) (closed : IsClosed nodes) (all : List String)
      → ((x : String) → count x all ≡ when (left all (deps_of nodes x) == 0) (times nodes x))
      → (rank : String → ℕ) → Ranked nodes rank
      → length nodes ≤ length all
  every_visited nodes k closed all only rank up =
      let le = length-le_of_count (keys nodes) all (λ x.
        let one = climb nodes k closed all only rank up (suc (rank x)) x (omega arith) in
        let most = times-le nodes k x in ground (arith, one, most)) in
      omega (arith, le, length-keys nodes)

  pub at_most :
      (nodes : Nodes) (k : Keyed nodes) (l : Links) (t : Tabled nodes l)
      (w : Walked nodes k l.adj t.counted.edges (length nodes) [] (first_queue l) (first_pass l))
      → length w.all ≤ length nodes
  at_most nodes k l t w =
      let le = length-le_of_count w.all (keys nodes) (λ x. let o = w.only x in ground (arith, o)) in
      omega (arith, le, length-keys nodes)
