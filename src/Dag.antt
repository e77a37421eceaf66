-- ===== src/Dag.antt =====
-- The dependency graph of a pipeline and its order by levels (backend/pkg/dagrunner/dag.go).
-- `d.Nodes` is a map from a node's name to its dependencies; `inDegree` and `adj` are maps too, and
-- reading a name that one of them lacks gives 0 or the empty list.
pub mod Linking
pub mod Tables
pub mod Passes
pub mod Order
pub mod Rounds
pub mod Levels
pub mod Ranks
pub mod Sorting
pub mod Validation
pub mod Runner
pub mod Tests
use cooker.Prelude.{
  ℕ, zero, suc, ◌+◌, String, Bool, true, false, Option, none, some, List, [], ◌∷◌, ◌++◌, length,
  ◌==◌, if◌then◌else◌,
}
use cooker.Prelude.Int.{ℤ, pos, negsuc, ◌+ℤ◌, ◌-ℤ◌}
use cooker.Prelude.Dict.{lookup, insert}

abbrev pub Nodes : Type 0
Nodes = List (String × List String)

-- `AddNode`.
unfoldable pub add_node : String → List String → Nodes → Nodes
add_node id deps nodes = insert id deps nodes

abbrev pub keys : {V : Type 0} → List (String × V) → List String
keys [] = []
keys ((k, v) ∷ rest) = k ∷ keys rest

-- What reading a map of integers, and a map of lists, gives.
abbrev pub or_zero : Option ℤ → ℤ
or_zero none = pos 0
or_zero (some n) = n

abbrev pub or_nil : Option (List String) → List String
or_nil none = []
or_nil (some xs) = xs

abbrev pub int_at : String → List (String × ℤ) → ℤ
int_at x d = or_zero (lookup x d)

abbrev pub list_at : String → List (String × List String) → List String
list_at x d = or_nil (lookup x d)

abbrev pub is_zero : ℤ → Bool
is_zero (pos n) = n == 0
is_zero (negsuc n) = false

abbrev pub is_some : {A : Type 0} → Option A → Bool
is_some none = false
is_some (some a) = true

-- `inDegree` and `adj`.
pub record Links : Type 0 where
  pub in_degree : List (String × ℤ)
  pub adj : List (String × List String)

pub data Linked : Type 0 where
  linked : Links → Linked
  unlinked : String → String → Linked

-- The loop that sets the degree of every node to 0.
unfoldable pub zero_degrees : Nodes → List (String × ℤ) → List (String × ℤ)
zero_degrees [] degrees = degrees
zero_degrees ((id, deps) ∷ rest) degrees = zero_degrees rest (insert id (pos 0) degrees)

-- One dependency of a node.
abbrev pub add_link : String → String → Links → Links
add_link id dep l = record {
  in_degree = insert id (int_at id l.in_degree +ℤ pos 1) l.in_degree;
  adj = insert dep (list_at dep l.adj ++ (id ∷ [])) l.adj;
}

-- The loop over the dependencies of one node.
unfoldable pub link : Nodes → String → List String → Links → Linked
link nodes id [] l = linked l
link nodes id (dep ∷ deps) l =
    let others = link nodes id deps (add_link id dep l) in
    if is_some (lookup dep nodes) then others else unlinked id dep

-- The loop over the nodes.
unfoldable pub link_all : (all : Nodes) (left : Nodes) → Links → Linked
link_all all [] l = linked l
link_all all ((id, deps) ∷ rest) l = elim (link all id deps l) [
  | linked more ↦ link_all all rest more
  | unlinked node dep ↦ unlinked node dep
]

-- The nodes of degree 0, in the order in which they are met.
unfoldable pub ready : List (String × ℤ) → List String → List String
ready degrees [] = []
ready degrees (id ∷ ids) =
    let others = ready degrees ids in if is_zero (int_at id degrees) then id ∷ others else others

-- What the rounds change: the degrees, `nextQueue` and `visited`.
pub record Pass : Type 0 where
  pub degrees : List (String × ℤ)
  pub next_queue : List String
  pub visited : ℕ

-- One edge out of a node that is done.
abbrev pub lower : String → Pass → Pass
lower next p =
    let degree = int_at next p.degrees -ℤ pos 1 in
    record p {
      degrees = insert next degree p.degrees;
      next_queue = if is_zero degree then p.next_queue ++ (next ∷ []) else p.next_queue;
    }

-- The edges out of a node.
unfoldable pub relax : List String → Pass → Pass
relax [] p = p
relax (next ∷ others) p = relax others (lower next p)

-- The nodes of a level.
unfoldable pub visit : List (String × List String) → List String → Pass → Pass
visit adj [] p = p
visit adj (id ∷ ids) p =
    visit adj ids (relax (list_at id adj) (record p { visited = suc p.visited }))

abbrev pub with_level :
    List String → Option (List (List String) × ℕ) → Option (List (List String) × ℕ)
with_level level none = none
with_level level (some (levels, visited)) = some (level ∷ levels, visited)

-- The rounds: the levels and the number of visited nodes, none when the rounds given are too few.
unfoldable pub walk :
    ℕ
    → List (String × List String)
    → List String
    → List (String × ℤ)
    → ℕ
    → Option (List (List String) × ℕ)
walk rounds adj [] degrees visited = some ([], visited)
walk zero adj (id ∷ ids) degrees visited = none
walk (suc rounds) adj (id ∷ ids) degrees visited =
    let p =
      visit adj (id ∷ ids) (record { degrees = degrees; next_queue = []; visited = visited }) in
    with_level (id ∷ ids) (walk rounds adj p.next_queue p.degrees p.visited)

pub data Sorted : Type 0 where
  levels : List (List String) → Sorted
  unknown_node : String → String → Sorted
  has_cycle : Sorted

-- The count of the visited nodes tells a cycle.
abbrev pub all_visited : ℕ → Option (List (List String) × ℕ) → Option Sorted
all_visited n none = none
all_visited n (some (found, visited)) = some (if visited == n then levels found else has_cycle)

pub data Problem : Type 0 where
  unknown_dependency : String → String → Problem
  not_sorted : Sorted → Problem

-- The dependencies of one node that `Validate` reports.
unfoldable pub missing : Nodes → String → List String → List Problem
missing nodes id [] = []
missing nodes id (dep ∷ deps) =
    let others = missing nodes id deps in
    if is_some (lookup dep nodes) then others else unknown_dependency id dep ∷ others

unfoldable pub all_missing : (all : Nodes) (left : Nodes) → List Problem
all_missing all [] = []
all_missing all ((id, deps) ∷ rest) = missing all id deps ++ all_missing all rest

-- The error of the sort, if there is one.
abbrev pub sort_problem : Sorted → List Problem
sort_problem (levels found) = []
sort_problem (unknown_node id dep) = not_sorted (unknown_node id dep) ∷ []
sort_problem has_cycle = not_sorted has_cycle ∷ []

abbrev pub with_sort_problem : List Problem → Option Sorted → Option (List Problem)
with_sort_problem found none = none
with_sort_problem found (some sorted) = some (found ++ sort_problem sorted)

-- The order in which a loop meets the keys of a map is a parameter.
module _ (range : List String → List String) where
  abbrev pub sort_linked : Nodes → Linked → Option Sorted
  sort_linked nodes (unlinked id dep) = some (unknown_node id dep)
  sort_linked nodes (linked l) =
      all_visited (length nodes)
        (walk (length nodes) l.adj (ready l.in_degree (range (keys l.in_degree))) l.in_degree 0)

  -- `TopologicalSort`.
  unfoldable pub topological_sort : Nodes → Option Sorted
  topological_sort nodes =
      sort_linked nodes
        (link_all nodes nodes (record { in_degree = zero_degrees nodes []; adj = [] }))

  -- `Validate`.
  unfoldable pub validate : Nodes → Option (List Problem)
  validate nodes = with_sort_problem (all_missing nodes nodes) (topological_sort nodes)
