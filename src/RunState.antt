-- ===== src/RunState.antt =====
-- backend/internal/runstate: the state machines of runs and stages (fsm.go, run.go, stage.go,
-- transition.go). A `State`, an `Event` and a `model.RunStatus` are texts, as in the source,
-- where the conversions between them are casts. The transition library looplab/fsm is not part
-- of the repository: what `Apply` and `Can` use of it is the parameter `Machine`.
pub mod Groups
pub mod Transitions
pub mod Life
pub mod Tests
use cooker.Prelude.{
  String, Bool, true, false, ◌&&◌, ◌||◌, Option, none, some, List, [], ◌∷◌, ◌++◌, ◌≡◌, ◌≢◌, ◌⊎◌,
  if◌then◌else◌, ◌=ₛ◌, In, map,
}

abbrev pub State : Type 0
State = String

abbrev pub Event : Type 0
Event = String

abbrev pub RunStatus : Type 0
RunStatus = String

abbrev pub state_pending : State
state_pending = "pending"

abbrev pub state_running : State
state_running = "running"

abbrev pub state_succeeded : State
state_succeeded = "success"

abbrev pub state_failed : State
state_failed = "failed"

abbrev pub state_cancelled : State
state_cancelled = "cancelled"

abbrev pub state_skipped : State
state_skipped = "skipped"

abbrev pub event_start : Event
event_start = "start"

abbrev pub event_succeed : Event
event_succeed = "succeed"

abbrev pub event_fail : Event
event_fail = "fail"

abbrev pub event_cancel : Event
event_cancel = "cancel"

abbrev pub event_skip : Event
event_skip = "skip"

unfoldable pub is_terminal : State → Bool
is_terminal s =
    s =ₛ state_succeeded || s =ₛ state_failed || s =ₛ state_cancelled || s =ₛ state_skipped

pub record Transition : Type 0 where
  pub from : State
  pub event : Event
  pub to : State

-- An element of `[]loopfsm.EventDesc`.
pub record EventDesc : Type 0 where
  pub name : String
  pub src : List String
  pub dst : String

-- The table keeps its entries in the order of some `range`; Go leaves the order open.
pub record Builder : Type 0 where
  pub table : List Transition
  pub name : String

pub record Fsm : Type 0 where
  pub current : State
  pub events : List EventDesc
  pub names : String

unfoldable pub new_builder : String → Builder
new_builder name = record { table = []; name = name }

unfoldable pub has_key : State → Event → List Transition → Bool
has_key s e [] = false
has_key s e (t ∷ ts) = (t.from =ₛ s && t.event =ₛ e) || has_key s e ts

-- `none` is the panic on a duplicate key.
unfoldable pub allow : Transition → Builder → Option Builder
unfolding has_key
allow t b =
    if has_key t.from t.event b.table then none else some (record b { table = b.table ++ (t ∷ []) })

-- The chain of `Allow` calls of a package variable.
unfoldable pub allow_all : List Transition → Builder → Option Builder
unfolding allow
allow_all [] b = some b
allow_all (t ∷ ts) b = elim (allow t b) [ none ↦ none | some c ↦ allow_all ts c ]

-- `groups[gk] = append(groups[gk], string(k.from))`.
unfoldable pub add_source : Transition → List EventDesc → List EventDesc
add_source t [] = record { name = t.event; src = t.from ∷ []; dst = t.to } ∷ []
add_source t (d ∷ ds) =
    if d.name =ₛ t.event && d.dst =ₛ t.to
    then record d { src = d.src ++ (t.from ∷ []) } ∷ ds
    else d ∷ add_source t ds

unfoldable pub group : List Transition → List EventDesc → List EventDesc
unfolding add_source
group [] ds = ds
group (t ∷ ts) ds = group ts (add_source t ds)

unfoldable pub events : Builder → List EventDesc
unfolding group
events b = group b.table []

unfoldable pub build : Builder → State → Fsm
unfolding events
build b initial = record { current = initial; events = events b; names = b.name }

-- What an attempt to fire an event comes to in looplab/fsm.
pub data Fired : Type 0 where
  moved : State → Fired
  invalid_event : Fired
  unknown_event : Fired
  other_error : String → Fired

-- Some event descriptor allows the edge.
abbrev pub Declares : List EventDesc → State → Event → State → Type 0
Declares [] s e t = ⊥
Declares (d ∷ ds) s e t = (d.name ≡ e) × In s d.src × (d.dst ≡ t) ⊎ Declares ds s e t

abbrev pub Refused : Fired → Type 0
Refused r = (r ≡ invalid_event) ⊎ (r ≡ unknown_event)

-- looplab/fsm: a fresh machine in a state, asked to fire an event. The laws are its documented
-- behaviour on descriptors that name one destination for each event and source.
pub record Machine : Type 0 where
  pub fire : List EventDesc → State → Event → Fired
  pub can_fire : List EventDesc → State → Event → Bool
  pub declared :
      (ds : List EventDesc) (s : State) (e : Event) (t : State)
      → Declares ds s e t
      → ((u : State) → Declares ds s e u → u ≡ t)
      → t ≢ s
      → (fire ds s e ≡ moved t) × (can_fire ds s e ≡ true)
  pub undeclared :
      (ds : List EventDesc) (s : State) (e : Event)
      → ((t : State) → ¬ Declares ds s e t)
      → Refused (fire ds s e) × (can_fire ds s e ≡ false)

pub data Applied : Type 0 where
  applied : Fsm → Applied
  invalid_transition : Fsm → Applied
  failed_apply : Fsm → String → Applied

pub data Transitioned : Type 0 where
  changed : RunStatus → Transitioned
  rejected : RunStatus → Transitioned

-- `runBuilder` and `stageBuilder`: the edges that are allowed.
abbrev pub run_edges : List Transition
run_edges =
    record { from = state_pending; event = event_start; to = state_running }
    ∷ record { from = state_pending; event = event_cancel; to = state_cancelled }
    ∷ record { from = state_running; event = event_succeed; to = state_succeeded }
    ∷ record { from = state_running; event = event_fail; to = state_failed }
    ∷ record { from = state_running; event = event_cancel; to = state_cancelled }
    ∷ []

abbrev pub stage_edges : List Transition
stage_edges =
    record { from = state_pending; event = event_start; to = state_running }
    ∷ record { from = state_pending; event = event_cancel; to = state_cancelled }
    ∷ record { from = state_pending; event = event_skip; to = state_skipped }
    ∷ record { from = state_running; event = event_succeed; to = state_succeeded }
    ∷ record { from = state_running; event = event_fail; to = state_failed }
    ∷ record { from = state_running; event = event_cancel; to = state_cancelled }
    ∷ []

unfoldable pub run_builder : Option Builder
unfolding allow_all new_builder
run_builder = allow_all run_edges (new_builder "run")

unfoldable pub stage_builder : Option Builder
unfolding allow_all new_builder
stage_builder = allow_all stage_edges (new_builder "stage")

unfoldable pub state_from_run_status : RunStatus → State
state_from_run_status s = s

unfoldable pub run_status_from_state : State → RunStatus
run_status_from_state s = s

module _ (m : Machine) where
  unfoldable pub can : Fsm → Event → Bool
  can f e = m.can_fire f.events f.current e

  abbrev after_fire : Fsm → Fired → Applied
  after_fire f (moved t) = applied (record f { current = t })
  after_fire f invalid_event = invalid_transition f
  after_fire f unknown_event = invalid_transition f
  after_fire f (other_error err) = failed_apply f err

  unfoldable pub apply : Fsm → Event → Applied
  apply f e = after_fire f (m.fire f.events f.current e)

  abbrev status_after : RunStatus → Applied → Transitioned
  status_after current (applied f) = changed (run_status_from_state f.current)
  status_after current (invalid_transition f) = rejected current
  status_after current (failed_apply f err) = rejected current

  -- `TransitionRun` and `TransitionStage`, over the builder of their package variable.
  unfoldable pub transition_with : Builder → RunStatus → Event → Transitioned
  unfolding apply build state_from_run_status run_status_from_state
  transition_with b current e =
      status_after current (apply (build b (state_from_run_status current)) e)

  unfoldable pub can_transition_with : Builder → RunStatus → Event → Bool
  unfolding can build state_from_run_status
  can_transition_with b current e = can (build b (state_from_run_status current)) e
