-- ===== src/Dag/Ranks.antt =====
-- The levels that `TopologicalSort` finds, as a numbering of the nodes (backend/pkg/dagrunner/dag.go).
use cooker.Prelude.{
  ℕ, suc, ◌<◌, String, true, ◌||◌, List, [], ◌∷◌, ◌++◌, All, All-In, ◌≡◌, ◌⊎◌, inl, inr, refl,
  arith, Bool-cases, if◌then◌else◌, has, has-In, count-eq-zero,
}
use cooker.Prelude.Dict.{Keyed}
use cooker.Dag.{Nodes}
use cooker.Dag.Order.{deps_of, times-eq}
use cooker.Dag.Rounds.{flatten, Layered}
use cooker.Dag.Levels.{Ranked, IsOrder}
use cooker.Prelude.{one-le-count}

-- The level in which a name stands.
abbrev pub level_of : String → List (List String) → ℕ
level_of x [] = 0
level_of x (level ∷ others) = if has x level then 0 else suc (level_of x others)

pub has-append : (x : String) (a b : List String) → has x (a ++ b) ≡ (has x a || has x b)
unfolding has
has-append x [] b = refl
has-append x (y ∷ a) b = ground (arith, has-append x a b)

module _ (nodes : Nodes) (x dep : String) (needs : has dep (deps_of nodes x) ≡ true) where
  level-less :
      (done : List String) (ls : List (List String))
      → Layered nodes done ls
      → has x (flatten ls) ≡ true
      → (has dep done ≡ true) ⊎ (level_of dep ls < level_of x ls)
  unfolding has
  level-less done [] h m = absurd (cc)
  level-less done (level ∷ others) h m = elim (Bool-cases (has x level)) [
    | inl here ↦ inl (
        All-In (λ d. has d done ≡ true) (deps_of nodes x)
          (All-In (λ v. All (λ d. has d done ≡ true) (deps_of nodes v)) level h.0
            (has-In x level here))
          (has-In dep (deps_of nodes x) needs))
    | inr later ↦
        let rest : has x (flatten others) ≡ true =
          let s = has-append x level (flatten others) in ground (arith, m, s, later) in
        elim (level-less (level ++ done) others h.1 rest) [
          | inl before ↦ elim (Bool-cases (has dep level)) [
            | inl same ↦ inr (rw (same, later) (omega arith))
            | inr apart ↦
                inl (let s = has-append dep level done in ground (arith, s, before, apart))
          ]
          | inr less ↦ inr (rw later (ground (arith, less)))
        ]
  ]

-- The levels number the nodes so that each stands above its dependencies.
pub level_of-Ranked :
    (nodes : Nodes) (found : List (List String))
    → Keyed nodes
    → IsOrder nodes found
    → Ranked nodes (λ x. level_of x found)
unfolding has
level_of-Ranked nodes found k o x dep m =
    let one = times-eq nodes k dep x (one-le-count dep (deps_of nodes x) m) in
    let there : has x (flatten found) ≡ true =
      let c = o.once x in let z = count-eq-zero x (flatten found) in ground (arith, one, c, z) in
    elim (level-less nodes x dep m [] found o.layered there) [
      | inl early ↦ absurd (cc)
      | inr less ↦ less
    ]
