-- ===== src/Dag/Runner/Results.antt =====
-- The error that `Run` returns (backend/pkg/dagrunner/runner.go).
use cooker.Prelude.{
  ℕ, suc, String, Bool, true, false, ◌&&◌, Option, none, some, List, [], ◌∷◌, ◌++◌, ◌≡◌, refl, ap,
  subst, ◌∙◌, arith, ◌=ₛ◌, =ₛ_eq, =ₛ_refl, Bool-cases, inl, inr, if◌then◌else◌, has, count,
  count-eq-zero, one-le-count,
}
use cooker.Prelude.Dict.{Keyed}
use cooker.Dag.{Nodes, keys, levels}
use cooker.Dag.Sorting.{levels-iff-Ranked, sort_answers, SomeRanking}
use cooker.Dag.Levels.{IsClosed}
use cooker.Dag.Rounds.{flatten}
use cooker.Dag.Runner.{
  Outcome, RunError, Board, Event, start, finish, or_else, first_of, new_board, started, finished,
  run_events, barrier, run_levels, run_sorted, run,
}
use cooker.Dag.Runner.Schedule.{finishes, IsSchedule}

abbrev pub is_ok : Outcome → Bool
is_ok Outcome.succeeded = true
is_ok Outcome.skipped = true
is_ok (Outcome.failed e) = false
is_ok (Outcome.panicked m) = false
is_ok Outcome.no_slot = false

abbrev pub is_none : {A : Type 0} → Option A → Bool
is_none none = true
is_none (some a) = false

module _ (task : String → Outcome) where
  -- No node of the list fails.
  abbrev pub all_ok : List String → Bool
  all_ok [] = true
  all_ok (x ∷ xs) = is_ok (task x) && all_ok xs

  all_ok-append : (xs ys : List String) → all_ok (xs ++ ys) ≡ (all_ok xs && all_ok ys)
  all_ok-append [] ys = refl
  all_ok-append (x ∷ xs) ys = let r = all_ok-append xs ys in ground (arith, r)

  ok_of_has :
      (x : String) (xs : List String) → has x xs ≡ true → all_ok xs ≡ true → is_ok (task x) ≡ true
  unfolding has
  ok_of_has x [] m h = absurd (cc)
  ok_of_has x (y ∷ ys) m h = elim (Bool-cases (y =ₛ x)) [
    | inl e ↦ subst (λ z. is_ok (task z) ≡ true) (=ₛ_eq y x e) (ground (arith, h))
    | inr e ↦ ok_of_has x ys (rw e at m) (ground (arith, h))
  ]

  all_ok_of :
      (xs : List String)
      → ((x : String) → has x xs ≡ true → is_ok (task x) ≡ true)
      → all_ok xs ≡ true
  unfolding has
  all_ok_of [] h = refl
  all_ok_of (x ∷ xs) h =
      let here = h x (rw (=ₛ_refl x) refl) in
      let rest = all_ok_of xs (λ y m. h y (ground (arith, m))) in ground (arith, here, rest)

  all_ok-half :
      (xs ys : List String)
      → ((x : String) → count x xs ≡ count x ys)
      → all_ok ys ≡ true
      → all_ok xs ≡ true
  all_ok-half xs ys same h = all_ok_of xs (λ x m.
      ok_of_has x ys
        (let one = one-le-count x xs m in
          let s = same x in let z = count-eq-zero x ys in ground (arith, one, s, z))
        h)

  -- Names that stand equally often in two lists: no name of the one fails just when none of the
  -- other does.
  all_ok-congr :
      (xs ys : List String) → ((x : String) → count x xs ≡ count x ys) → all_ok xs ≡ all_ok ys
  all_ok-congr xs ys same =
      let a = all_ok-half xs ys same in
      let b = all_ok-half ys xs (λ x. flip (same x)) in ground (arith, a, b)
    where
      flip : {a b : ℕ} → a ≡ b → b ≡ a
      flip p = cc

  full : (o : Option RunError) (e : RunError) → is_none (or_else o e) ≡ (is_none o && false)
  full none e = refl
  full (some f) e = refl

  -- What the end of a node leaves in the channel.
  finished-err :
      (x : String) (o : Outcome) (b : Board)
      → is_none (finished x o b).err_ch ≡ (is_none b.err_ch && is_ok o)
  finished-err x Outcome.succeeded b = ground arith
  finished-err x Outcome.skipped b = ground arith
  finished-err x (Outcome.failed e) b = full b.err_ch (RunError.node_failed x e)
  finished-err x (Outcome.panicked m) b = full b.err_ch (RunError.node_panic x m)
  finished-err x Outcome.no_slot b = full b.err_ch RunError.context_error

  started-err : (x : String) (o : Outcome) (b : Board) → (started x o b).err_ch ≡ b.err_ch
  started-err x Outcome.succeeded b = refl
  started-err x Outcome.skipped b = refl
  started-err x (Outcome.failed e) b = refl
  started-err x (Outcome.panicked m) b = refl
  started-err x Outcome.no_slot b = refl

  run_events-err :
      (es : List Event) (b : Board)
      → is_none (run_events task es b).err_ch ≡ (is_none b.err_ch && all_ok (finishes es))
  unfolding run_events
  run_events-err [] b = ground arith
  run_events-err (start x ∷ es) b =
      run_events-err es (started x (task x) b)
      ∙ ap (λ e. is_none e && all_ok (finishes es)) (started-err x (task x) b)
  run_events-err (finish x ∷ es) b =
      let r = run_events-err es (finished x (task x) b) in
      let f = finished-err x (task x) b in ground (arith, r, f)

  module _ (continue_on_error : Bool) (interleave : List String → List Event)
      (schedule : (level : List String) → IsSchedule level (interleave level)) where
    abbrev never : ℕ → Bool
    never n = false

    barrier-err :
        (e first : Option RunError) (b : Board) (rest : Option RunError → Option RunError × Board)
        (after : Bool)
        → ((f : Option RunError) → is_none (rest f).0 ≡ (is_none f && after))
        → is_none (barrier task continue_on_error never interleave e first b rest).0
          ≡ (is_none first && is_none e && after)
    barrier-err none first b rest after h = h first ∙ ground arith
    barrier-err (some e) first b rest after h = by_mode continue_on_error
      where
        by_mode :
            (c : Bool)
            → is_none (if c then rest (some (first_of first e)) else (some e, b)).0
              ≡ (is_none first && false && after)
        by_mode true = h (some (first_of first e)) ∙ ground arith
        by_mode false = ground arith

    run_levels-err :
        (n : ℕ) (ls : List (List String)) (first : Option RunError) (b : Board)
        → b.err_ch ≡ none
        → is_none (run_levels task continue_on_error never interleave n ls first b).0
          ≡ (is_none first && all_ok (flatten ls))
    unfolding run_levels
    run_levels-err n [] first b z = ground arith
    run_levels-err n (level ∷ others) first b z =
        let after = run_events task (interleave level) b in
        let drained = record after { err_ch = none } in
        let r =
          barrier-err after.err_ch first drained
            (λ f. run_levels task continue_on_error never interleave (suc n) others f drained)
            (all_ok (flatten others)) (λ f. run_levels-err (suc n) others f drained refl) in
        let e = run_events-err (interleave level) b in
        let c = all_ok-congr (finishes (interleave level)) level (schedule level).all_finish in
        let s = all_ok-append level (flatten others) in
        r
        ∙ sum (is_none first) (all_ok (flatten others))
            (e ∙ ap (λ o. is_none o && all_ok (finishes (interleave level))) z) c s
      where
        sum :
            {a b c d : Bool} (f e : Bool)
            → a ≡ (true && b)
            → b ≡ c
            → d ≡ (c && e)
            → (f && a && e) ≡ (f && d)
        sum f e p q r = ground (arith, p, q, r)

    -- A run of a map of nodes whose dependencies all are nodes and form no cycle, in which the
    -- context is not ended between levels, ends in both modes whatever the orders; it returns no
    -- error just when the task of no node fails, panics or finds the context ended.
    pub run-error :
        (range : List String → List String)
        (same : (x : String) (xs : List String) → count x (range xs) ≡ count x xs) (nodes : Nodes)
        → Keyed nodes
        → IsClosed nodes
        → SomeRanking nodes
        → (error : Option RunError) × (b : Board) × (run task continue_on_error never interleave
              range nodes
            ≡ some (error, b))
          × (is_none error ≡ all_ok (keys nodes))
    unfolding run
    run-error range same nodes k closed ranking =
        let (found, e) = (levels-iff-Ranked range same nodes k closed).1 ranking in
        let order = (sort_answers range same nodes (levels found) e k).1 in
        (
          _,
          _,
          ap (run_sorted task continue_on_error never interleave (keys nodes)) e,
          run_levels-err 0 found none (new_board (keys nodes)) refl
              ∙ all_ok-congr (flatten found) (keys nodes) order.once,
        )
