-- ===== src/Dag/Runner/Schedule.antt =====
-- The order of the updates that `Run` sends (backend/pkg/dagrunner/runner.go).
use cooker.Prelude.{
  String, Bool, true, false, ◌||◌, Option, none, some, List, [], ◌∷◌, ◌++◌, ◌≡◌, refl, subst, arith,
  ◌=ₛ◌, Bool-cases, inl, inr, if◌then◌else◌, has, count,
}
use cooker.Dag.{Nodes}
use cooker.Dag.Order.{deps_of}
use cooker.Dag.Runner.{Outcome, RunError, Update, Board, Event, start, finish, started, finished}

abbrev pub starts : List Event → List String
starts [] = []
starts (start id ∷ es) = id ∷ starts es
starts (finish id ∷ es) = starts es

abbrev pub finishes : List Event → List String
finishes [] = []
finishes (start id ∷ es) = finishes es
finishes (finish id ∷ es) = id ∷ finishes es

-- The events of a level: each of its goroutines starts and ends, in whatever order.
pub record IsSchedule (level : List String) (es : List Event) : Type 0 where
  pub all_start : (x : String) → count x (starts es) ≡ count x level
  pub all_finish : (x : String) → count x (finishes es) ≡ count x level

abbrev is_running : Update → Bool
is_running u = u.status =ₛ "running"

-- The nodes whose goroutines have ended.
abbrev pub note : Update → List String → List String
note u ended = if u.status =ₛ "running" then ended else u.node_id ∷ ended

abbrev pub notes : List Update → List String → List String
notes [] ended = ended
notes (u ∷ us) ended = notes us (note u ended)

-- A node that is reported to run has no dependency whose goroutine has not ended.
abbrev pub IsFree : Nodes → List String → Update → Type 0
IsFree nodes ended u =
    (u.status =ₛ "running") ≡ true
    → (dep : String) → has dep (deps_of nodes u.node_id) ≡ true
    → has dep ended ≡ true

-- Each node of the updates is reported to run after the ends of all its dependencies.
abbrev pub Ordered : Nodes → (ended : List String) → List Update → Type 0
Ordered nodes ended [] = Unit
Ordered nodes ended (u ∷ us) = IsFree nodes ended u × Ordered nodes (note u ended) us

module _ (nodes : Nodes) where
  Ordered-snoc :
      (ended : List String) (us : List Update) (u : Update)
      → Ordered nodes ended us
      → IsFree nodes (notes us ended) u
      → Ordered nodes ended (us ++ (u ∷ []))
  Ordered-snoc ended [] u o f = (f, tt)
  Ordered-snoc ended (v ∷ us) u o f = (o.0, Ordered-snoc (note v ended) us u o.1 f)

  notes-snoc :
      (ended : List String) (us : List Update) (u : Update)
      → notes (us ++ (u ∷ [])) ended ≡ note u (notes us ended)
  notes-snoc ended [] u = refl
  notes-snoc ended (v ∷ us) u = notes-snoc (note v ended) us u

  -- The updates so far are ordered, and tell that the given nodes have ended.
  pub record Told (done : List String) (b : Board) : Type 0 where
    pub ordered : Ordered nodes [] b.updates
    pub told : (x : String) → has x done ≡ true → has x (notes b.updates []) ≡ true

  module _ (task : String → Outcome) where
    pub runs :
        (x : String) (done : List String) (b : Board)
        → ((dep : String) → has dep (deps_of nodes x) ≡ true → has dep done ≡ true)
        → Told done b
        → Told done (started x (task x) b)
    runs x done b f t = by_outcome (task x)
      where
        told_running : Told done (record b {
          updates = b.updates ++ ((record { node_id = x; status = "running"; error = none }) ∷ []);
        })
        told_running = record {
          ordered =
              Ordered-snoc [] b.updates (record { node_id = x; status = "running"; error = none })
                t.ordered (λ r dep m. t.told dep (f dep m));
          told = λ y m.
              rw
                (notes-snoc [] b.updates (record { node_id = x; status = "running"; error = none }))
                (t.told y m);
        }

        by_outcome : (o : Outcome) → Told done (started x o b)
        by_outcome Outcome.no_slot = t
        by_outcome Outcome.succeeded = record {
          ordered = told_running.ordered;
          told = told_running.told;
        }
        by_outcome Outcome.skipped = record {
          ordered = told_running.ordered;
          told = told_running.told;
        }
        by_outcome (Outcome.failed e) = record {
          ordered = told_running.ordered;
          told = told_running.told;
        }
        by_outcome (Outcome.panicked m) = record {
          ordered = told_running.ordered;
          told = told_running.told;
        }

    -- The final report of a node, whatever its status.
    reported :
        (x : String) (done : List String) (b : Board) (u : Update)
        → u.node_id ≡ x
        → (u.status =ₛ "running") ≡ false
        → Told done b
        → Ordered nodes [] (b.updates ++ (u ∷ []))
          × ((y : String)
              → has y (x ∷ done) ≡ true
              → has y (notes (b.updates ++ (u ∷ [])) []) ≡ true)
    unfolding has
    reported x done b u named final t = (
      Ordered-snoc [] b.updates u t.ordered (λ r. absurd (cc)),
      λ y m.
          rw (notes-snoc [] b.updates u, final)
            (elim (Bool-cases (u.node_id =ₛ y)) [
              | inl e ↦ rw e refl
              | inr e ↦ rw e (t.told y (rest y e m))
            ]),
    )
      where
        rest :
            (y : String)
            → (u.node_id =ₛ y) ≡ false
            → ((x =ₛ y) || has y done) ≡ true
            → has y done ≡ true
        rest y e m = let apart = subst (λ z. (z =ₛ y) ≡ false) named e in ground (arith, apart, m)

    pub ends :
        (x : String) (done : List String) (b : Board)
        → Told done b
        → Told (x ∷ done) (finished x (task x) b)
    ends x done b t = by_outcome (task x)
      where
        report :
            (status : String) (e : Option RunError)
            → (status =ₛ "running") ≡ false
            → Ordered nodes []
                (b.updates ++ ((record { node_id = x; status = status; error = e }) ∷ []))
              × ((y : String)
                  → has y (x ∷ done) ≡ true
                  → has y (
                      notes
                        (b.updates ++ ((record { node_id = x; status = status; error = e }) ∷ []))
                        [])
                    ≡ true)
        report status e final =
            reported x done b (record { node_id = x; status = status; error = e }) refl final t

        by_outcome : (o : Outcome) → Told (x ∷ done) (finished x o b)
        by_outcome Outcome.succeeded =
            let (o, n) = report "success" none refl in record { ordered = o; told = n }
        by_outcome Outcome.skipped =
            let (o, n) = report "skipped" none refl in record { ordered = o; told = n }
        by_outcome (Outcome.failed e) =
            let (o, n) = report "failed" (some (RunError.task_error e)) refl in
            record { ordered = o; told = n }
        by_outcome (Outcome.panicked m) =
            let (o, n) = report "failed" (some (RunError.node_panic x m)) refl in
            record { ordered = o; told = n }
        by_outcome Outcome.no_slot =
            let (o, n) = report "failed" (some RunError.context_error) refl in
            record { ordered = o; told = n }
