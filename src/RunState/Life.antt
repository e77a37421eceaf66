-- ===== src/RunState/Life.antt =====
-- The life of a run and of a stage: what any sequence of events can do to a status (run.go,
-- stage.go). A caller that meets an error keeps the status, as transition.go asks of it.
use cooker.Prelude.{
  ℕ, suc, ◌≤◌, Bool, true, false, Option, none, some, List, [], ◌∷◌, ◌≡◌, ◌⊎◌, inl, inr, refl, sym,
  arith, if◌then◌else◌, ◌=ₛ◌, =ₛ_eq, ne_=ₛ, Bool-cases,
}
use text.Mathlib.TextEquality.{eq_iff}
use cooker.RunState.{
  State, Event, RunStatus, Builder, Machine, Transitioned, changed, rejected, is_terminal,
  run_edges, stage_edges, run_builder, stage_builder, transition_with, can_transition_with,
  state_pending, state_running, state_succeeded, state_failed, state_cancelled, state_skipped,
  event_start, event_succeed, event_fail, event_cancel, event_skip, new_builder, allow_all,
}
use cooker.RunState.Transitions.{
  find_edge, is_some, IsDistinct, outcome, by_table, allow_all-IsDistinct, transition_lem,
}

-- The status after the call: on an error the caller keeps what it had.
abbrev pub status_of : Transitioned → RunStatus
status_of (changed t) = t
status_of (rejected s) = s

-- How many status changes are still possible.
abbrev pub steps_left : RunStatus → ℕ
steps_left s = if s =ₛ state_pending then 2 else if s =ₛ state_running then 1 else 0

terminal_cases :
    (s : RunStatus)
    → is_terminal s ≡ true
    → (s ≡ state_succeeded) ⊎ (s ≡ state_failed) ⊎ (s ≡ state_cancelled) ⊎ (s ≡ state_skipped)
unfolding is_terminal
terminal_cases s h = ground (
  arith,
  eq_iff s state_succeeded,
  eq_iff s state_failed,
  eq_iff s state_cancelled,
  eq_iff s state_skipped,
)

table_terminal :
    (s : RunStatus) (e : Event)
    → is_terminal s ≡ true
    → (find_edge run_edges s e ≡ none) × (find_edge stage_edges s e ≡ none)
table_terminal s e h = elim (terminal_cases s h) [
  | inl q ↦ rw q (refl, refl)
  | inr (inl q) ↦ rw q (refl, refl)
  | inr (inr (inl q)) ↦ rw q (refl, refl)
  | inr (inr (inr q)) ↦ rw q (refl, refl)
]

-- Only a waiting or a running status has entries.
start_cases :
    (s : RunStatus) (e : Event)
    → (s ≡ state_pending)
      ⊎ (s ≡ state_running)
      ⊎ (find_edge run_edges s e ≡ none) × (find_edge stage_edges s e ≡ none)
start_cases s e = elim (Bool-cases (state_pending =ₛ s)) [
  | inl p ↦ inl (sym (=ₛ_eq state_pending s p))
  | inr p ↦ elim (Bool-cases (state_running =ₛ s)) [
    | inl r ↦ inr (inl (sym (=ₛ_eq state_running s r)))
    | inr r ↦ inr (inr (rw (p, r) refl, rw (p, r) refl))
  ]
]

-- Taking the entry, if there is one, uses up a possible change.
abbrev Advances : RunStatus → Option State → Type 0
Advances s none = Unit
Advances s (some t) = suc (steps_left t) ≤ steps_left s

Advances-if :
    (b : Bool) (s t : RunStatus) (o : Option State)
    → Advances s (some t)
    → Advances s o
    → Advances s (if b then some t else o)
Advances-if true s t o h k = h
Advances-if false s t o h k = k

edges_advance :
    (s : RunStatus) (e : Event)
    → Advances s (find_edge run_edges s e) × Advances s (find_edge stage_edges s e)
edges_advance s e = elim (start_cases s e) [
  | inl q ↦ rw q (
    Advances-if (event_start =ₛ e) state_pending _ _ (omega arith)
        (Advances-if (event_cancel =ₛ e) state_pending _ _ (omega arith) tt),
    Advances-if (event_start =ₛ e) state_pending _ _ (omega arith) (
        Advances-if (event_cancel =ₛ e) state_pending _ _ (omega arith)
          (Advances-if (event_skip =ₛ e) state_pending _ _ (omega arith) tt)),
  )
  | inr (inl q) ↦ rw q (
    Advances-if (event_succeed =ₛ e) state_running _ _ (omega arith) (
        Advances-if (event_fail =ₛ e) state_running _ _ (omega arith)
          (Advances-if (event_cancel =ₛ e) state_running _ _ (omega arith) tt)),
    Advances-if (event_succeed =ₛ e) state_running _ _ (omega arith) (
        Advances-if (event_fail =ₛ e) state_running _ _ (omega arith)
          (Advances-if (event_cancel =ₛ e) state_running _ _ (omega arith) tt)),
  )
  | inr (inr (r, t)) ↦ rw (r, t) (tt, tt)
]

-- The builders of the package variables exist: no `Allow` panics.
run_builder_lem : run_builder ≡ some (record { table = run_edges; name = "run" })
unfolding run_builder
run_builder_lem = refl

stage_builder_lem : stage_builder ≡ some (record { table = stage_edges; name = "stage" })
unfolding stage_builder
stage_builder_lem = refl

-- A record of calls of `TransitionRun` or `TransitionStage`: the status afterwards and how many
-- of the calls changed it.
abbrev pub count_change : Transitioned → ℕ → ℕ
count_change (changed t) n = suc n
count_change (rejected s) n = n

unfoldable pub walk : Machine → Builder → List Event → RunStatus → RunStatus × ℕ
walk m b [] s = (s, 0)
walk m b (e ∷ es) s =
    let r = transition_with m b s e in
    let rest = walk m b es (status_of r) in (rest.0, count_change r rest.1)

abbrev pub run_table : Builder
run_table = record { table = run_edges; name = "run" }

abbrev pub stage_table : Builder
stage_table = record { table = stage_edges; name = "stage" }

run-IsDistinct : IsDistinct run_edges
unfolding allow_all new_builder
run-IsDistinct = allow_all-IsDistinct run_edges (new_builder "run") run_table tt refl

stage-IsDistinct : IsDistinct stage_edges
unfolding allow_all new_builder
stage-IsDistinct = allow_all-IsDistinct stage_edges (new_builder "stage") stage_table tt refl

module _ (m : Machine) where
  run_lem :
      (s : RunStatus) (e : Event)
      → (transition_with m run_table s e ≡ by_table run_edges s e)
        × (can_transition_with m run_table s e ≡ is_some (find_edge run_edges s e))
  run_lem s e =
      transition_lem m run_table s e run-IsDistinct
        (ne_=ₛ refl, (ne_=ₛ refl, (ne_=ₛ refl, (ne_=ₛ refl, (ne_=ₛ refl, tt)))))

  stage_lem :
      (s : RunStatus) (e : Event)
      → (transition_with m stage_table s e ≡ by_table stage_edges s e)
        × (can_transition_with m stage_table s e ≡ is_some (find_edge stage_edges s e))
  stage_lem s e =
      transition_lem m stage_table s e stage-IsDistinct
        (ne_=ₛ refl, (ne_=ₛ refl, (ne_=ₛ refl, (ne_=ₛ refl, (ne_=ₛ refl, (ne_=ₛ refl, tt))))))

  -- A terminal status is final: `TransitionRun` and `TransitionStage` reject every event and
  -- give the status back, and `CanTransitionRun` says so.
  pub terminal_rejects :
      (s : RunStatus) (e : Event)
      → is_terminal s ≡ true
      → (transition_with m run_table s e ≡ rejected s)
        × (can_transition_with m run_table s e ≡ false)
        × (transition_with m stage_table s e ≡ rejected s)
  terminal_rejects s e h =
      let (r, t) = table_terminal s e h in
      let (a, b) = run_lem s e in let (c, d) = stage_lem s e in (rw (a, r), rw (b, r), rw (c, t))

  count_le :
      (s : RunStatus) (o : Option State) (n : ℕ)
      → Advances s o
      → n ≤ steps_left (status_of (outcome s o))
      → count_change (outcome s o) n ≤ steps_left s
  count_le s none n h k = k
  count_le s (some t) n h k = omega arith

  -- Whatever events arrive, a run's status changes at most twice, a stage's too, and not more
  -- often than its status still allows.
  pub walk_changes :
      (es : List Event) (s : RunStatus)
      → ((walk m run_table es s).1 ≤ steps_left s) × ((walk m stage_table es s).1 ≤ steps_left s)
  unfolding walk
  walk_changes [] s = (omega arith, omega arith)
  walk_changes (e ∷ es) s =
      let (adv_run, adv_stage) = edges_advance s e in
      (
        rw (run_lem s e).0 (
            count_le s (find_edge run_edges s e) _ adv_run
              (walk_changes es (status_of (by_table run_edges s e))).0),
        rw (stage_lem s e).0 (
            count_le s (find_edge stage_edges s e) _ adv_stage
              (walk_changes es (status_of (by_table stage_edges s e))).1),
      )
