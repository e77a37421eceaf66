-- ===== src/Dag/Tests.antt =====
-- The theorems on graphs at a pipeline of three stages (backend/pkg/dagrunner).
use cooker.Prelude.{
  ℕ, String, Bool, true, false, Option, some, List, [], ◌∷◌, ◌≡◌, ◌↔◌, refl, arith, ◌=ₛ◌,
  if◌then◌else◌, has, count,
}
use cooker.Prelude.Dict.{lookup, insert, Keyed}
use cooker.Prelude.Int.{◌+ℤ◌, ◌-ℤ◌}
use cooker.Dag.{
  Nodes, Sorted, levels, has_cycle, topological_sort, link_all, link, walk, ready, zero_degrees,
  visit, relax,
}
use cooker.Dag.Levels.{IsClosed}
use cooker.Dag.Sorting.{SomeRanking, Right, topological_sort-Right, levels-iff-Ranked}
use cooker.Dag.Validation.{Judged, validate-Judged}
use cooker.Dag.Runner.{Outcome, RunError, Board, Event, start, finish, run}
use cooker.Dag.Runner.Schedule.{starts, finishes, IsSchedule, Ordered}
use cooker.Dag.Runner.Updates.{run-Ordered}
use cooker.Dag.Runner.Results.{is_none, run-error}

-- `deploy` needs `test` and `build`, `test` needs `build`.
abbrev stages : Nodes
stages = ("deploy", "test" ∷ "build" ∷ []) ∷ ("build", []) ∷ ("test", "build" ∷ []) ∷ []

abbrev circle : Nodes
circle = ("a", "b" ∷ []) ∷ ("b", "a" ∷ []) ∷ []

abbrev in_turn : List String → List String
in_turn xs = xs

abbrev kept : (x : String) (xs : List String) → count x (in_turn xs) ≡ count x xs
kept x xs = refl

abbrev stages-Keyed : Keyed stages
unfolding lookup
stages-Keyed = (refl, (refl, (refl, tt)))

sort_stages :
    topological_sort in_turn stages
    ≡ some (levels (("build" ∷ []) ∷ ("test" ∷ []) ∷ ("deploy" ∷ []) ∷ []))
unfolding topological_sort link_all link lookup walk ready insert zero_degrees ◌+ℤ◌ visit relax ◌-ℤ◌
sort_stages = refl

sort_circle : topological_sort in_turn circle ≡ some has_cycle
unfolding topological_sort link_all link lookup walk ready insert zero_degrees ◌+ℤ◌
sort_circle = refl

topological_sort-Right_example :
    (sorted : Sorted) × (topological_sort in_turn stages ≡ some sorted) × Right stages sorted
topological_sort-Right_example = topological_sort-Right in_turn kept stages stages-Keyed

stages-IsClosed : IsClosed stages
unfolding lookup has
stages-IsClosed x dep m = ground (arith, m)

levels-iff-Ranked_example :
    ((found : List (List String)) × (topological_sort in_turn stages ≡ some (levels found)))
    ↔ SomeRanking stages
levels-iff-Ranked_example = levels-iff-Ranked in_turn kept stages stages-Keyed stages-IsClosed

stages-ranking : SomeRanking stages
stages-ranking =
    (levels-iff-Ranked in_turn kept stages stages-Keyed stages-IsClosed).0 (_, sort_stages)

validate-Judged_example : Judged in_turn kept stages
validate-Judged_example = validate-Judged in_turn kept stages stages-Keyed

-- The goroutines of a level one after the other.
abbrev one_by_one : List String → List Event
one_by_one [] = []
one_by_one (x ∷ xs) = start x ∷ finish x ∷ one_by_one xs

one_by_one-IsSchedule : (level : List String) → IsSchedule level (one_by_one level)
one_by_one-IsSchedule level = record { all_start = first level; all_finish = last level }
  where
    first : (xs : List String) (x : String) → count x (starts (one_by_one xs)) ≡ count x xs
    first [] x = refl
    first (y ∷ ys) x = omega (arith, first ys x)

    last : (xs : List String) (x : String) → count x (finishes (one_by_one xs)) ≡ count x xs
    last [] x = refl
    last (y ∷ ys) x = omega (arith, last ys x)

abbrev tests_fail : String → Outcome
tests_fail x = if x =ₛ "test" then Outcome.failed "exit status 1" else Outcome.succeeded

abbrev never : ℕ → Bool
never n = false

run-Ordered_example :
    (error : Option RunError) × (b : Board) × (run tests_fail true never one_by_one in_turn stages
      ≡ some (error, b))
    × Ordered stages [] b.updates
run-Ordered_example =
    run-Ordered stages tests_fail true never one_by_one one_by_one-IsSchedule in_turn kept
      stages-Keyed

run-error_example :
    (error : Option RunError) × (b : Board) × (run tests_fail false never one_by_one in_turn stages
      ≡ some (error, b))
    × (is_none error ≡ false)
run-error_example =
    run-error tests_fail false one_by_one one_by_one-IsSchedule in_turn kept stages stages-Keyed
      stages-IsClosed stages-ranking
