-- ===== src/Dag/Rounds.antt =====
-- All the rounds of `TopologicalSort` (backend/pkg/dagrunner/dag.go): as many as there are nodes are
-- enough, and each level only needs names of earlier ones.
use cooker.Prelude.{
  ℕ, zero, suc, ◌+◌, ◌≤◌, String, true, some, List, [], ◌∷◌, ◌++◌, length, length-append, All,
  In→All, ◌≡◌, refl, ap, ◌∙◌, arith, ◌==◌, has, In-has, count, count-append, one-le-count,
  length-le_of_count,
}
use cooker.Prelude.Dict.{Keyed}
use cooker.Dag.{Nodes, keys, list_at, Pass, visit, walk, with_level}
use cooker.Dag.Linking.{when}
use cooker.Dag.Order.{left, left-zero, deps_of, times, Reached, level_done, next_round}

-- The names of the levels, in their order.
abbrev pub flatten : List (List String) → List String
flatten [] = []
flatten (level ∷ levels) = level ++ flatten levels

-- Every dependency of the names of a level is done when the level starts.
abbrev pub Layered : Nodes → (done : List String) → List (List String) → Type 0
Layered nodes done [] = Unit
Layered nodes done (level ∷ levels) =
    All (λ v. All (λ dep. has dep done ≡ true) (deps_of nodes v)) level
    × Layered nodes (level ++ done) levels

pub length-keys : {V : Type 0} (m : List (String × V)) → length (keys m) ≡ length m
length-keys [] = refl
length-keys ((k, v) ∷ m) = ap suc (length-keys m)

module _ (nodes : Nodes) (keyed : Keyed nodes) (adj : List (String × List String))
    (edges : (v x : String) → count x (list_at v adj) ≡ count v (deps_of nodes x)) where
  -- How the rounds end: `all` are the visited names.
  pub record Walked (rounds : ℕ) (done cur : List String) (p : Pass) : Type 0 where
    pub found : List (List String)
    pub all : List String
    pub ends : walk rounds adj cur p.degrees p.visited ≡ some (found, length all)
    pub layered : Layered nodes done found
    pub visited : (x : String) → count x all ≡ count x done + count x (flatten found)
    pub only : (x : String) → count x all ≡ when (left all (deps_of nodes x) == 0) (times nodes x)

  bounded :
      (done cur : List String) (p : Pass)
      → Reached nodes keyed adj edges done cur p
      → length done + length cur ≤ length nodes
  bounded done cur p h =
      let le =
        length-le_of_count (done ++ cur) (keys nodes)
          (λ x. let q = h.queued x in let c = count-append x done cur in ground (arith, q, c)) in
      omega (arith, le, length-append done cur, length-keys nodes)

  level_free :
      (done cur : List String) (p : Pass)
      → Reached nodes keyed adj edges done cur p
      → All (λ v. All (λ dep. has dep done ≡ true) (deps_of nodes v)) cur
  level_free done cur p h =
      In→All (λ v. All (λ dep. has dep done ≡ true) (deps_of nodes v)) cur
        (λ v m. left-zero done (deps_of nodes v) (
          let one = one-le-count v cur (In-has v cur m) in
          let q = h.queued v in ground (arith, one, q)))

  pub walk_lem :
      (rounds : ℕ) (done cur : List String) (p : Pass)
      → Reached nodes keyed adj edges done cur p
      → p.next_queue ≡ []
      → length nodes ≤ rounds + length done
      → Walked rounds done cur p
  unfolding walk
  walk_lem rounds done [] p h e le = record {
    found = [];
    all = done;
    ends = ap (λ n. some ([], n)) h.counter;
    layered = tt;
    visited = λ x. omega arith;
    only =
        λ x. let q = h.queued x in ended (count x done) (count x p.next_queue) (ap (count x) e) q;
  }
    where
      ended : {w : ℕ} (a n : ℕ) → n ≡ 0 → a + 0 + n ≡ w → a ≡ w
      ended a n z q = omega arith
  walk_lem zero done (v ∷ cur) p h e le = absurd (omega (arith, bounded done (v ∷ cur) p h))
  walk_lem (suc rounds) done (v ∷ cur) p h e le =
      let level = v ∷ cur in
      let clean = record p { next_queue = [] } in
      let p2 = visit adj level clean in
      let h2 = level_done nodes keyed adj edges level done clean (cleaned h) in
      let r =
        walk_lem rounds (level ++ done) p2.next_queue
          (record { degrees = p2.degrees; next_queue = []; visited = p2.visited })
          (next_round nodes keyed adj edges level done p2 h2) refl
          (omega (arith, le, length-append level done)) in
      record {
        found = level ∷ r.found;
        all = r.all;
        ends = ap (with_level level) r.ends;
        layered = (level_free done level p h, r.layered);
        visited = λ x.
            r.visited x
            ∙ omega (arith, count-append x level done, count-append x level (flatten r.found));
        only = r.only;
      }
    where
      cleaned :
          Reached nodes keyed adj edges done (v ∷ cur) p
          → Reached nodes keyed adj edges done (v ∷ cur) (record p { next_queue = [] })
      cleaned g = record {
        degree = g.degree;
        queued =
            λ x. let q = g.queued x in plain (count x done) (count x (v ∷ cur)) (ap (count x) e) q;
        counter = g.counter;
      }
        where
          plain : {n w : ℕ} (a b : ℕ) → n ≡ 0 → a + b + n ≡ w → a + b + 0 ≡ w
          plain a b z q = omega arith
