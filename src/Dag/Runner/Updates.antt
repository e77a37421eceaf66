-- ===== src/Dag/Runner/Updates.antt =====
-- The updates of a whole run (backend/pkg/dagrunner/runner.go).
use cooker.Prelude.{
  ℕ, suc, String, Bool, true, false, ◌||◌, Option, none, some, List, [], ◌∷◌, ◌++◌, All, All-In,
  ◌≡◌, refl, ap, ◌∙◌, arith, =ₛ_refl, Bool-cases, inl, inr, if◌then◌else◌, has, has-In, count,
  count-eq-zero, one-le-count,
}
use cooker.Prelude.Dict.{Keyed}
use cooker.Dag.{Nodes, keys, Sorted, levels, unknown_node, has_cycle, topological_sort}
use cooker.Dag.Sorting.{Right, topological_sort-Right}
use cooker.Dag.Order.{deps_of}
use cooker.Dag.Rounds.{Layered}
use cooker.Dag.Ranks.{has-append}
use cooker.Dag.Runner.{
  Outcome, RunError, Board, Event, start, finish, first_of, new_board, started, finished,
  run_events, barrier, run_levels, run_sorted, run,
}
use cooker.Dag.Runner.Schedule.{starts, finishes, IsSchedule, Ordered, Told, runs, ends}

module _ (nodes : Nodes) where
  module _ (task : String → Outcome) where
    abbrev ended_by : List Event → List String → List String
    ended_by [] done = done
    ended_by (start x ∷ es) done = ended_by es done
    ended_by (finish x ∷ es) done = ended_by es (x ∷ done)

    has-ended_by :
        (y : String) (es : List Event) (done : List String)
        → has y (ended_by es done) ≡ (has y (finishes es) || has y done)
    unfolding has
    has-ended_by y [] done = refl
    has-ended_by y (start x ∷ es) done = has-ended_by y es done
    has-ended_by y (finish x ∷ es) done = let r = has-ended_by y es (x ∷ done) in ground (arith, r)

    Needs : List String → List Event → Type 0
    Needs done es =
        (x : String)
        → has x (starts es) ≡ true
        → (dep : String) → has dep (deps_of nodes x) ≡ true
        → has dep done ≡ true

    run_events-Told :
        (es : List Event) (done : List String) (b : Board)
        → Needs done es
        → Told nodes done b
        → Told nodes (ended_by es done) (run_events task es b)
    unfolding run_events Needs has
    run_events-Told [] done b f t = t
    run_events-Told (start x ∷ es) done b f t =
        run_events-Told es done (started x (task x) b) (λ y m. f y (ground (arith, m)))
          (runs nodes task x done b (f x (rw (=ₛ_refl x) refl)) t)
    run_events-Told (finish x ∷ es) done b f t =
        run_events-Told es (x ∷ done) (finished x (task x) b)
          (λ y m dep n. let before = f y m dep n in ground (arith, before))
          (ends nodes task x done b t)

    module _ (continue_on_error : Bool) (cancelled : ℕ → Bool)
        (interleave : List String → List Event)
        (schedule : (level : List String) → IsSchedule level (interleave level)) where
      -- What holds of the board after a level and however the run goes on holds at the end.
      barrier-pred :
          (e first : Option RunError) (b : Board) (rest : Option RunError → Option RunError × Board)
          → Ordered nodes [] b.updates
          → ((f : Option RunError) → Ordered nodes [] (rest f).1.updates)
          → Ordered nodes []
              (barrier task continue_on_error cancelled interleave e first b rest).1.updates
      barrier-pred none first b rest o r = r first
      barrier-pred (some e) first b rest o r = by_mode continue_on_error
        where
          by_mode :
              (c : Bool)
              → Ordered nodes []
                  (if c then rest (some (first_of first e)) else (some e, b)).1.updates
          by_mode true = r (some (first_of first e))
          by_mode false = o

      has-of-count :
          (x : String) (a b : List String)
          → ((y : String) → count y a ≡ count y b)
          → has x a ≡ true
          → has x b ≡ true
      has-of-count x a b same m =
          let one = one-le-count x a m in
          let s = same x in let z = count-eq-zero x b in ground (arith, one, s, z)

      level_deps :
          (level done : List String)
          → All (λ v. All (λ dep. has dep done ≡ true) (deps_of nodes v)) level
          → Needs done (interleave level)
      unfolding Needs
      level_deps level done h x m dep n =
          let there =
            has-of-count x (starts (interleave level)) level (schedule level).all_start m in
          All-In (λ d. has d done ≡ true) (deps_of nodes x)
            (All-In (λ v. All (λ d. has d done ≡ true) (deps_of nodes v)) level h
              (has-In x level there))
            (has-In dep (deps_of nodes x) n)

      after_level :
          (level done : List String) (b : Board)
          → Told nodes (ended_by (interleave level) done) b
          → Told nodes (level ++ done) b
      after_level level done b t = record {
        ordered = t.ordered;
        told = λ x m. t.told x (has-ended_by x (interleave level) done ∙ covered x m);
      }
        where
          covered :
              (x : String)
              → has x (level ++ done) ≡ true
              → (has x (finishes (interleave level)) || has x done) ≡ true
          covered x m =
              let s = has-append x level done in
              let f =
                has-of-count x level (finishes (interleave level))
                  (λ y. flip ((schedule level).all_finish y)) in
              ground (arith, s, m, f)
            where
              flip : {a b : ℕ} → a ≡ b → b ≡ a
              flip p = cc

      run_levels-Ordered :
          (n : ℕ) (ls : List (List String)) (first : Option RunError) (done : List String)
          (b : Board)
          → Layered nodes done ls
          → Told nodes done b
          → Ordered nodes []
              (run_levels task continue_on_error cancelled interleave n ls first b).1.updates
      unfolding run_levels
      run_levels-Ordered n [] first done b h t = t.ordered
      run_levels-Ordered n (level ∷ others) first done b h t = elim (Bool-cases (cancelled n)) [
        | inl stop ↦ rw stop t.ordered
        | inr go ↦
            let after = run_events task (interleave level) b in
            let told =
              after_level level done after
                (run_events-Told (interleave level) done b (level_deps level done h.0) t) in
            let drained = record after { err_ch = none } in
            let rest = λ (f : Option RunError).
              run_levels-Ordered (suc n) others f (level ++ done) drained h.1
                (record { ordered = told.ordered; told = told.told }) in
            rw go (
              barrier-pred after.err_ch first drained
                (λ f.
                  run_levels task continue_on_error cancelled interleave (suc n) others f drained)
                told.ordered rest)
      ]

      -- Whatever the order in which the map's keys are met and the goroutines of a level start and
      -- end, whatever the task function answers and whenever the context ends: in the updates that
      -- a run of a map of nodes sends, no node is reported to run before the final reports of all
      -- its dependencies. The run also ends.
      pub run-Ordered :
          (range : List String → List String)
          (same : (x : String) (xs : List String) → count x (range xs) ≡ count x xs)
          → Keyed nodes
          → (error : Option RunError) × (b : Board) × (run task continue_on_error cancelled
                interleave range nodes
              ≡ some (error, b))
            × Ordered nodes [] b.updates
      unfolding run
      run-Ordered range same k =
          let (sorted, e, right) = topological_sort-Right range same nodes k in
          by_answer sorted e right
        where
          by_answer :
              (sorted : Sorted)
              → topological_sort range nodes ≡ some sorted
              → Right nodes sorted
              → (error : Option RunError) × (b : Board) × (run_sorted task continue_on_error
                    cancelled interleave
                    (keys nodes)
                    (topological_sort range nodes)
                  ≡ some (error, b))
                × Ordered nodes [] b.updates
          by_answer (levels found) e right = (
            _,
            _,
            ap (run_sorted task continue_on_error cancelled interleave (keys nodes)) e,
            run_levels-Ordered 0 found none [] (new_board (keys nodes)) right.1.layered
                (record { ordered = tt; told = λ x m. m }),
          )
          by_answer (unknown_node id dep) e right =
              (_, _, ap (run_sorted task continue_on_error cancelled interleave (keys nodes)) e, tt)
          by_answer has_cycle e right =
              (_, _, ap (run_sorted task continue_on_error cancelled interleave (keys nodes)) e, tt)
