-- ===== src/Dag/Runner.antt =====
-- The execution of a graph's nodes level by level (backend/pkg/dagrunner/runner.go).
--
-- The task function, the moments at which the context is found cancelled and the interleaving of the
-- goroutines of a level are parameters. A goroutine is two events: it starts, which reports
-- `running`, and it ends, which reports the final status and may fail.
pub mod Schedule
pub mod Updates
pub mod Results
use cooker.Prelude.{
  ℕ, suc, ◌+◌, String, Bool, true, false, Option, none, some, List, [], ◌∷◌, ◌++◌, if◌then◌else◌,
}
use cooker.Prelude.Dict.{insert}
use cooker.Dag.{Nodes, Sorted, levels, unknown_node, has_cycle, topological_sort, keys}

-- How the goroutine of a node ends: what the task function returns, a panic, or the end of the
-- context while the goroutine waits for a slot of the semaphore.
pub data Outcome : Type 0 where
  succeeded : Outcome
  skipped : Outcome
  failed : String → Outcome
  panicked : String → Outcome
  no_slot : Outcome

pub data RunError : Type 0 where
  invalid_dag : Sorted → RunError
  context_error : RunError
  task_error : String → RunError
  node_failed : String → String → RunError
  node_panic : String → String → RunError

-- `StatusUpdate`.
pub record Update : Type 0 where
  pub node_id : String
  pub status : String
  pub error : Option RunError

-- `r.statuses`, the updates sent so far, and what `errCh`, of capacity 1, holds.
pub record Board : Type 0 where
  pub statuses : List (String × String)
  pub updates : List Update
  pub err_ch : Option RunError

-- `emitStatus`.
abbrev pub emit_status : String → String → Option RunError → Board → Board
emit_status id status error b = record b {
  statuses = insert id status b.statuses;
  updates = b.updates ++ ((record { node_id = id; status = status; error = error }) ∷ []);
}

-- The send that is dropped when the channel is full.
abbrev pub or_else : Option RunError → RunError → Option RunError
or_else none e = some e
or_else (some held) e = some held

abbrev pub fail : RunError → Board → Board
fail e b = record b { err_ch = or_else b.err_ch e }

pub data Event : Type 0 where
  start : String → Event
  finish : String → Event

abbrev pub started : String → Outcome → Board → Board
started id no_slot b = b
started id succeeded b = emit_status id "running" none b
started id skipped b = emit_status id "running" none b
started id (failed e) b = emit_status id "running" none b
started id (panicked m) b = emit_status id "running" none b

abbrev pub finished : String → Outcome → Board → Board
finished id succeeded b = emit_status id "success" none b
finished id skipped b = emit_status id "skipped" none b
finished id (failed e) b = fail (node_failed id e) (emit_status id "failed" (some (task_error e)) b)
finished id (panicked m) b =
    fail (node_panic id m) (emit_status id "failed" (some (node_panic id m)) b)
finished id no_slot b = fail context_error (emit_status id "failed" (some context_error) b)

-- `NewRunnerBounded`: every node waits.
unfoldable pub pending : List String → List (String × String) → List (String × String)
pending [] statuses = statuses
pending (id ∷ ids) statuses = pending ids (insert id "pending" statuses)

abbrev pub new_board : List String → Board
new_board ids = record { statuses = pending ids []; updates = []; err_ch = none }

-- The error that is returned when there may be an earlier one.
abbrev pub first_of : Option RunError → RunError → RunError
first_of none e = e
first_of (some first) e = first

module _ (task : String → Outcome) where
  abbrev pub happen : Event → Board → Board
  happen (start id) b = started id (task id) b
  happen (finish id) b = finished id (task id) b

  unfoldable pub run_events : List Event → Board → Board
  run_events [] b = b
  run_events (e ∷ es) b = run_events es (happen e b)

  module _ (continue_on_error : Bool) (cancelled : ℕ → Bool)
      (interleave : List String → List Event) where
    -- The end of a level: `rest` goes on with the levels that are left, given the first error.
    abbrev pub barrier :
        Option RunError
        → (first : Option RunError) → Board
        → (Option RunError → Option RunError × Board)
        → Option RunError × Board
    barrier none first b rest = rest first
    barrier (some e) first b rest =
        if continue_on_error then rest (some (first_of first e)) else (some e, b)

    -- The loop over the levels: the error that `Run` returns, and the board.
    unfoldable pub run_levels :
        ℕ → List (List String) → (first : Option RunError) → Board → Option RunError × Board
    run_levels n [] first b = (first, b)
    run_levels n (level ∷ others) first b =
        let after = run_events (interleave level) b in
        let drained = record after { err_ch = none } in
        let rest = λ (f : Option RunError). run_levels (suc n) others f drained in
        if cancelled n
        then (some (first_of first context_error), b)
        else barrier after.err_ch first drained rest

    abbrev pub run_sorted : List String → Option Sorted → Option (Option RunError × Board)
    run_sorted ids none = none
    run_sorted ids (some (levels found)) = some (run_levels 0 found none (new_board ids))
    run_sorted ids (some (unknown_node id dep)) =
        some (some (invalid_dag (unknown_node id dep)), new_board ids)
    run_sorted ids (some has_cycle) = some (some (invalid_dag has_cycle), new_board ids)

    -- `NewRunnerBounded` and `Run`: the error, and the board at the end.
    unfoldable pub run :
        (range : List String → List String) → Nodes → Option (Option RunError × Board)
    run range nodes = run_sorted (keys nodes) (topological_sort range nodes)
