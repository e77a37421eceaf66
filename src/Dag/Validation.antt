-- ===== src/Dag/Validation.antt =====
-- `Validate` (backend/pkg/dagrunner/dag.go).
use cooker.Prelude.{
  String, true, false, some, List, [], ◌∷◌, ◌++◌, ◌≡◌, ◌⊎◌, ◌↔◌, inl, inr, refl, ap, subst, arith,
  ◌=ₛ◌, =ₛ_eq, =ₛ_refl, Bool-cases, has, count, In, In-append_left, In-append_right,
  In-append_cases,
}
use cooker.Prelude.Dict.{lookup, Keyed}
use cooker.Dag.{
  Nodes, list_at, is_some, Sorted, levels, unknown_node, has_cycle, Problem, unknown_dependency,
  not_sorted, missing, all_missing, sort_problem, with_sort_problem, topological_sort, validate,
}
use cooker.Dag.Linking.{Unknown}
use cooker.Dag.Tables.{Unknown-later}
use cooker.Dag.Sorting.{HasUnknown, Right, topological_sort-Right}

module _ (all : Nodes) (i d : String) where
  abbrev Reported : List Problem → Type 0
  Reported = In (unknown_dependency i d)

  node_of : Problem → String
  node_of (unknown_dependency node dep) = node
  node_of (not_sorted e) = ""

  dep_of : Problem → String
  dep_of (unknown_dependency node dep) = dep
  dep_of (not_sorted e) = ""

  pub missing_sound :
      (id : String) (deps : List String)
      → Reported (missing all id deps)
      → (id ≡ i) × Unknown all deps d
  unfolding missing has node_of dep_of
  missing_sound id [] m = absurd m
  missing_sound id (dep ∷ deps) m = elim (Bool-cases (is_some (lookup dep all))) [
    | inl e ↦ let (s, u) = missing_sound id deps (rw e at m) in (s, (later u.0, u.1))
    | inr e ↦ here e (missing_sound id deps) (rw e at m)
  ]
    where
      later : has d deps ≡ true → has d (dep ∷ deps) ≡ true
      later u = ground (arith, u)

      here :
          is_some (lookup dep all) ≡ false
          → (Reported (missing all id deps) → (id ≡ i) × Unknown all deps d)
          → (unknown_dependency id dep ≡ unknown_dependency i d) ⊎ Reported (missing all id deps)
          → (id ≡ i) × Unknown all (dep ∷ deps) d
      here e others (inl s) =
          let same : dep ≡ d = ap dep_of s in
          (
            ap node_of s,
            (rw (same, =ₛ_refl d) refl, subst (λ x. is_some (lookup x all) ≡ false) same e),
          )
      here e others (inr r) = let (s, u) = others r in (s, (later u.0, u.1))

  missing_complete : (deps : List String) → Unknown all deps d → Reported (missing all i deps)
  unfolding missing has
  missing_complete [] u = let m = u.0 in absurd (cc)
  missing_complete (dep ∷ deps) u = elim (Bool-cases (dep =ₛ d)) [
    | inl e ↦
        let same = =ₛ_eq dep d e in
        let gone : is_some (lookup dep all) ≡ false = rw same u.1 in
        rw gone (inl (ap (unknown_dependency i) same))
    | inr e ↦
        let rest = missing_complete deps (rw e at u.0, u.1) in
        elim (Bool-cases (is_some (lookup dep all))) [ inl t ↦ rw t rest | inr t ↦ rw t (inr rest) ]
  ]

  all_missing_sound :
      (left : Nodes) → Keyed left → Reported (all_missing all left) → Unknown all (list_at i left) d
  unfolding all_missing lookup
  all_missing_sound [] k m = absurd m
  all_missing_sound ((id, deps) ∷ rest) k m =
      elim (In-append_cases (unknown_dependency i d) (missing all id deps) (all_missing all rest)
        m) [
          | inl here ↦ let (s, u) = missing_sound id deps here in rw (s, =ₛ_refl i) u
          | inr later ↦ Unknown-later all id deps rest k.0 i d (all_missing_sound rest k.1 later)
        ]

  all_missing_complete :
      (left : Nodes) → Unknown all (list_at i left) d → Reported (all_missing all left)
  unfolding all_missing lookup has
  all_missing_complete [] u = let m = u.0 in absurd (cc)
  all_missing_complete ((id, deps) ∷ rest) u = elim (Bool-cases (id =ₛ i)) [
    | inl e ↦
        In-append_left (unknown_dependency i d) (missing all id deps) (all_missing all rest)
          (rw (=ₛ_eq id i e) (missing_complete deps (rw e at u)))
    | inr e ↦
        In-append_right (unknown_dependency i d) (missing all id deps) (all_missing all rest)
          (all_missing_complete rest (rw e at u))
  ]

  -- The error of the sort is no report of a dependency.
  sort-Reported :
      (found : List Problem) (sorted : Sorted)
      → Reported (found ++ sort_problem sorted)
      → Reported found
  unfolding node_of
  sort-Reported found sorted m =
      elim (In-append_cases (unknown_dependency i d) found (sort_problem sorted) m) [
        | inl here ↦ here
        | inr there ↦ absurd (never sorted there)
      ]
    where
      is_report : Problem → Type 0
      is_report (unknown_dependency a b) = Unit
      is_report (not_sorted e) = ⊥

      never : (a : Sorted) → Reported (sort_problem a) → ⊥
      never (levels x) n = absurd n
      never (unknown_node x y) (inl e) = cc
      never (unknown_node x y) (inr n) = absurd n
      never has_cycle (inl e) = cc
      never has_cycle (inr n) = absurd n

-- With no report there is no problem.
missing-nil :
    (all : Nodes) (id : String) (deps : List String)
    → ((dep : String) → In (unknown_dependency id dep) (missing all id deps) → ⊥)
    → missing all id deps ≡ []
unfolding missing
missing-nil all id [] h = refl
missing-nil all id (dep ∷ deps) h = elim (Bool-cases (is_some (lookup dep all))) [
  | inl e ↦ rw e (missing-nil all id deps (λ d m. h d (rw e m)))
  | inr e ↦ absurd (h dep (rw e (inl refl)))
]

all_missing-nil :
    (all left : Nodes)
    → ((id dep : String) → In (unknown_dependency id dep) (all_missing all left) → ⊥)
    → all_missing all left ≡ []
unfolding all_missing
all_missing-nil all [] h = refl
all_missing-nil all ((id, deps) ∷ rest) h =
    let first = missing-nil all id deps (λ d m.
      h id d (
        In-append_left (unknown_dependency id d) (missing all id deps) (all_missing all rest) m)) in
    rw first (
      all_missing-nil all rest (λ i d m.
        h i d (
          In-append_right (unknown_dependency i d) (missing all id deps) (all_missing all rest) m)))

not_nil : (p : Problem) (ps : List Problem) → ps ++ (p ∷ []) ≡ [] → ⊥
not_nil p [] e = cc
not_nil p (x ∷ ps) e = cc

module _ (range : List String → List String)
    (same : (x : String) (xs : List String) → count x (range xs) ≡ count x xs) where
  abbrev pub HasLevels : Nodes → Type 0
  HasLevels nodes =
      (found : List (List String)) × (topological_sort range nodes ≡ some (levels found))

  clean-HasLevels :
      (nodes : Nodes) (sorted : Sorted)
      → Keyed nodes
      → topological_sort range nodes ≡ some sorted
      → Right nodes sorted
      → (all_missing nodes nodes ++ sort_problem sorted ≡ []) ↔ HasLevels nodes
  clean-HasLevels nodes (levels found) k e right = (
    λ z. (found, e),
    λ h.
        let none_missing = all_missing-nil nodes nodes (λ id dep m.
          let u = all_missing_sound nodes id dep nodes k m in
          let known = right.0 id dep u.0 in let unknown = u.1 in absurd (cc)) in
        rw none_missing refl,
  )
  clean-HasLevels nodes (unknown_node id dep) k e right =
      (λ z. absurd (not_nil _ (all_missing nodes nodes) z), λ (found, f). absurd (cc))
  clean-HasLevels nodes has_cycle k e right =
      (λ z. absurd (not_nil _ (all_missing nodes nodes) z), λ (found, f). absurd (cc))

  -- What is said of the answer of `Validate`.
  pub record Judged (nodes : Nodes) : Type 0 where
    pub problems : List Problem
    pub ends : validate range nodes ≡ some problems
    pub reports :
        (id dep : String) → In (unknown_dependency id dep) problems ↔ HasUnknown nodes id dep
    pub clean : (problems ≡ []) ↔ HasLevels nodes

  -- `Validate` of a map of nodes ends, whatever the order in which keys are met. It reports a
  -- dependency as unknown just when the named node has it and it is no node, and it reports nothing
  -- just when `TopologicalSort` finds levels.
  pub validate-Judged : (nodes : Nodes) → Keyed nodes → Judged nodes
  unfolding validate
  validate-Judged nodes k =
      let (sorted, e, right) = topological_sort-Right range same nodes k in
      record {
        problems = all_missing nodes nodes ++ sort_problem sorted;
        ends = ap (with_sort_problem (all_missing nodes nodes)) e;
        reports = λ id dep. (
          λ m.
              all_missing_sound nodes id dep nodes k
                (sort-Reported nodes id dep (all_missing nodes nodes) sorted m),
          λ u.
              In-append_left (unknown_dependency id dep) (all_missing nodes nodes)
                (sort_problem sorted) (all_missing_complete nodes id dep nodes u),
        );
        clean = clean-HasLevels nodes sorted k e right;
      }
