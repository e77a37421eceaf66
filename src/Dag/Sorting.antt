-- ===== src/Dag/Sorting.antt =====
-- `TopologicalSort` and `Validate` (backend/pkg/dagrunner/dag.go).
use cooker.Prelude.{
  ℕ, String, true, false, Option, some, some_inj, List, length, ◌≡◌, ◌↔◌, inl, inr, ap, subst, ◌∙◌,
  arith, ◌==◌, Bool-cases, count,
}
use cooker.Prelude.Dict.{Keyed}
use cooker.Dag.{Nodes, Sorted, levels, unknown_node, has_cycle, topological_sort, sort_linked}
use cooker.Dag.Linking.{Unknown}
use cooker.Dag.Tables.{tables_lem}
use cooker.Dag.Order.{deps_of}
use cooker.Dag.Levels.{Ranked, IsClosed, IsOrder, rounds, answer, complete, every_visited, at_most}
use cooker.Dag.Ranks.{level_of, level_of-Ranked}

abbrev pub HasUnknown : Nodes → String → String → Type 0
HasUnknown nodes id dep = Unknown nodes (deps_of nodes id) dep

-- A dependency that is not a node.
abbrev pub SomeUnknown : Nodes → Type 0
SomeUnknown nodes = (id dep : String) × HasUnknown nodes id dep

abbrev pub SomeRanking : Nodes → Type 0
SomeRanking nodes = (rank : String → ℕ) × Ranked nodes rank

-- What the answer says of the graph.
abbrev pub Right : Nodes → Sorted → Type 0
Right nodes (levels found) = IsClosed nodes × IsOrder nodes found
Right nodes (unknown_node id dep) = HasUnknown nodes id dep
Right nodes has_cycle = IsClosed nodes × ¬ (SomeRanking nodes)

module _ (range : List String → List String)
    (same : (x : String) (xs : List String) → count x (range xs) ≡ count x xs) where
  -- For a map of nodes, whatever the order in which its keys are met, the sort answers within as
  -- many rounds as there are nodes, and the answer is right: levels are given when every
  -- dependency is a node, hold each node once and put it after all its dependencies; an unknown
  -- node is one that the named node depends on and that is no node; and a cycle is told when every
  -- dependency is a node and no numbering puts each node above its dependencies.
  pub topological_sort-Right :
      (nodes : Nodes)
      → Keyed nodes
      → (sorted : Sorted) × (topological_sort range nodes ≡ some sorted) × Right nodes sorted
  unfolding topological_sort
  topological_sort-Right nodes k = elim (tables_lem nodes k) [
    | inr (id, dep, u, e) ↦ (unknown_node id dep, ap (sort_linked range nodes) e, u)
    | inl (l, e, closed, t) ↦
        let w = rounds range same nodes k l t in
        elim (Bool-cases (length w.all == length nodes)) [
          | inl all ↦ (
            levels w.found,
            ap (sort_linked range nodes) e ∙ answer range same nodes k l t w true all,
            (closed, complete range same nodes k l t w (ground (arith, all))),
          )
          | inr part ↦ (
            has_cycle,
            ap (sort_linked range nodes) e ∙ answer range same nodes k l t w false part,
            (
              closed,
              λ (rank, up).
                  let le = every_visited range same nodes k closed w.all w.only rank up in
                  let most = at_most range same nodes k l t w in
                  absurd (ground (arith, part, le, most)),
            ),
          )
        ]
  ]

  pub sort_answers :
      (nodes : Nodes) (a : Sorted)
      → topological_sort range nodes ≡ some a
      → Keyed nodes
      → Right nodes a
  sort_answers nodes a e k =
      let (b, f, right) = topological_sort-Right nodes k in
      subst (Right nodes) (some_inj (flip f ∙ e)) right
    where
      flip : {x y : Option Sorted} → x ≡ y → y ≡ x
      flip p = cc

  -- For a map of nodes whose dependencies all are nodes, the sort finds levels just when some
  -- numbering puts each node above its dependencies, so just when the graph has no cycle.
  pub levels-iff-Ranked :
      (nodes : Nodes)
      → Keyed nodes
      → IsClosed nodes
      → ((found : List (List String)) × (topological_sort range nodes ≡ some (levels found)))
        ↔ SomeRanking nodes
  levels-iff-Ranked nodes k closed = (
    λ (found, e). (
      (λ x. level_of x found),
      level_of-Ranked nodes found k (sort_answers nodes (levels found) e k).1,
    ),
    λ ranking. ranked (topological_sort-Right nodes k) ranking,
  )
    where
      ranked :
          (sorted : Sorted) × (topological_sort range nodes ≡ some sorted) × Right nodes sorted
          → SomeRanking nodes
          → (found : List (List String)) × (topological_sort range nodes ≡ some (levels found))
      ranked (levels found, e, right) ranking = (found, e)
      ranked (unknown_node id dep, e, right) ranking =
          let known = closed id dep right.0 in let unknown = right.1 in absurd (cc)
      ranked (has_cycle, e, right) ranking = absurd (right.1 ranking)
