-- ===== src/RunState/Tests.antt =====
-- A transition library in which the laws of `Machine` hold, and runs over it.
use cooker.Prelude.{
  ◌≤◌, true, false, ◌&&◌, Option, none, some, List, [], ◌∷◌, ◌≡◌, ◌≢◌, inl, inr, refl, arith,
  if◌then◌else◌, ◌=ₛ◌, =ₛ_eq, ne_=ₛ, Bool-cases, Option-cases, has, has-In, In-has,
}
use text.Mathlib.TextEquality.{eq_iff}
use cooker.RunState.{
  State, Event, Builder, EventDesc, Fired, moved, invalid_event, other_error, Declares, Refused,
  Machine, run_edges, event_start, event_succeed, event_cancel, state_pending, state_running,
  state_failed, is_terminal, transition_with, can_transition_with, allow_all, new_builder,
}
use cooker.RunState.Transitions.{
  find_edge, is_some, by_table, IsDistinct, HasNoLoop, allow_all-IsDistinct, transition_lem,
}
use cooker.RunState.Life.{run_table, stage_table, steps_left, walk, walk_changes}

-- The destination of the first descriptor with the name and the source.
unfoldable find_dst : List EventDesc → State → Event → Option State
find_dst [] s e = none
find_dst (d ∷ ds) s e = if d.name =ₛ e && has s d.src then some d.dst else find_dst ds s e

find_dst-Declares :
    (ds : List EventDesc) (s : State) (e : Event) (t : State)
    → find_dst ds s e ≡ some t
    → Declares ds s e t
unfolding find_dst
find_dst-Declares [] s e t h = absurd (cc)
find_dst-Declares (d ∷ ds) s e t h =
    ground (arith, eq_iff d.name e, has-In s d.src, find_dst-Declares ds s e t)

absent-Declares :
    (ds : List EventDesc) (s : State) (e : Event) (t : State)
    → find_dst ds s e ≡ none
    → ¬ Declares ds s e t
unfolding find_dst
absent-Declares [] s e t h k = k
absent-Declares (d ∷ ds) s e t h k =
    ground (arith, eq_iff d.name e, In-has s d.src, absent-Declares ds s e t)

abbrev fire_to : State → Option State → Fired
fire_to s none = invalid_event
fire_to s (some t) = if t =ₛ s then other_error "no transition" else moved t

first_match-fire :
    (ds : List EventDesc) (s : State) (e : Event) (t : State)
    → Declares ds s e t
    → ((u : State) → Declares ds s e u → u ≡ t)
    → t ≢ s
    → (fire_to s (find_dst ds s e) ≡ moved t) × (is_some (find_dst ds s e) ≡ true)
first_match-fire ds s e t d only ne = elim (Option-cases (find_dst ds s e)) [
  | inl absent ↦ absurd (absent-Declares ds s e t absent d)
  | inr (u, found) ↦
      let same = only u (find_dst-Declares ds s e u found) in
      rw (found, same)
        (elim (Bool-cases (t =ₛ s)) [
          | inl loop ↦ absurd (ne (=ₛ_eq t s loop))
          | inr apart ↦ (rw apart refl, refl)
        ])
]

no_match-fire :
    (ds : List EventDesc) (s : State) (e : Event)
    → ((t : State) → ¬ Declares ds s e t)
    → Refused (fire_to s (find_dst ds s e)) × (is_some (find_dst ds s e) ≡ false)
no_match-fire ds s e nothing = elim (Option-cases (find_dst ds s e)) [
  | inl absent ↦ rw absent (inl refl, refl)
  | inr (u, found) ↦ absurd (nothing u (find_dst-Declares ds s e u found))
]

abbrev first_match : Machine
first_match = record {
  fire = λ ds s e. fire_to s (find_dst ds s e);
  can_fire = λ ds s e. is_some (find_dst ds s e);
  declared = first_match-fire;
  undeclared = no_match-fire;
}

abbrev run_rows : Builder
run_rows = record { table = run_edges; name = "run" }

no_rows : IsDistinct (new_builder "run").table
unfolding new_builder
no_rows = tt

built : allow_all run_edges (new_builder "run") ≡ some run_rows
unfolding allow_all new_builder
built = refl

no_loops : HasNoLoop run_rows.table
no_loops = (ne_=ₛ refl, (ne_=ₛ refl, (ne_=ₛ refl, (ne_=ₛ refl, (ne_=ₛ refl, tt)))))

transition_lem_example :
    (transition_with first_match run_rows state_running event_succeed
      ≡ by_table run_rows.table state_running event_succeed)
    × (can_transition_with first_match run_rows state_running event_succeed
        ≡ is_some (find_edge run_rows.table state_running event_succeed))
transition_lem_example =
    transition_lem first_match run_rows state_running event_succeed
      (allow_all-IsDistinct run_edges (new_builder "run") run_rows no_rows built) no_loops

failed_terminal : is_terminal state_failed ≡ true
unfolding is_terminal
failed_terminal = refl

abbrev noise : List Event
noise = event_succeed ∷ event_start ∷ event_start ∷ event_cancel ∷ event_succeed ∷ []

walk_changes_example :
    ((walk first_match run_table noise state_pending).1 ≤ steps_left state_pending)
    × ((walk first_match stage_table noise state_pending).1 ≤ steps_left state_pending)
walk_changes_example = walk_changes first_match noise state_pending
