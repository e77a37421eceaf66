-- ===== src/RunState/Transitions.antt =====
-- `TransitionRun`, `TransitionStage` and `CanTransitionRun` against a look-up in the table, for
-- every table that `Allow` accepts (fsm.go, transition.go).
use cooker.Prelude.{
  Bool, true, false, ◌&&◌, ◌||◌, Option, none, some, List, [], ◌∷◌, ◌++◌, ◌≡◌, ◌≢◌, inl, inr, refl,
  ap, sym, ◌∙◌, subst, arith, if◌then◌else◌, ◌=ₛ◌, Bool-cases, Option-cases, some_inj, some-ne-none,
}
use text.Mathlib.TextEquality.{eq_iff}
use cooker.RunState.{
  State, Event, RunStatus, Transition, Builder, Machine, Declares, has_key, allow, allow_all,
  events, transition_with, can_transition_with, Transitioned, changed, rejected,
}
use cooker.RunState.Groups.{HasEdge, events-Declares}

-- The entry of the table for a state and an event.
abbrev pub find_edge : List Transition → State → Event → Option State
find_edge [] s e = none
find_edge (t ∷ ts) s e = if t.from =ₛ s && t.event =ₛ e then some t.to else find_edge ts s e

-- No state and event have two entries.
abbrev pub IsDistinct : List Transition → Type 0
IsDistinct [] = Unit
IsDistinct (t ∷ ts) = (has_key t.from t.event ts ≡ false) × IsDistinct ts

-- No entry leads back to its own state.
abbrev pub HasNoLoop : List Transition → Type 0
HasNoLoop [] = Unit
HasNoLoop (t ∷ ts) = (t.to ≢ t.from) × HasNoLoop ts

has_key-snoc :
    (s : State) (e : Event) (ts : List Transition) (t : Transition)
    → has_key s e (ts ++ (t ∷ [])) ≡ (has_key s e ts || (t.from =ₛ s && t.event =ₛ e))
unfolding has_key
has_key-snoc s e [] t = ground arith
has_key-snoc s e (x ∷ ts) t = ground (arith, has_key-snoc s e ts t)

snoc-IsDistinct :
    (ts : List Transition) (t : Transition)
    → IsDistinct ts
    → has_key t.from t.event ts ≡ false
    → IsDistinct (ts ++ (t ∷ []))
unfolding has_key
snoc-IsDistinct [] t h new = (refl, tt)
snoc-IsDistinct (x ∷ ts) t h new = (
  ground (
    arith,
    has_key-snoc x.from x.event ts t,
    eq_iff x.from t.from,
    eq_iff t.from x.from,
    eq_iff x.event t.event,
    eq_iff t.event x.event,
  ),
  snoc-IsDistinct ts t h.1 (ground arith),
)

allow-IsDistinct :
    (t : Transition) (b c : Builder) → IsDistinct b.table → allow t b ≡ some c → IsDistinct c.table
unfolding allow
allow-IsDistinct t b c h e = elim (Bool-cases (has_key t.from t.event b.table)) [
  | inl dup ↦ absurd (let q = rw dup at e in cc)
  | inr new ↦
      let same : some (record b { table = b.table ++ (t ∷ []) }) ≡ some c = rw new at e in
      let table : b.table ++ (t ∷ []) ≡ c.table = ap (λ x. x.table) (some_inj same) in
      rw (← table) (snoc-IsDistinct b.table t h new)
]

-- Every table that a chain of `Allow` calls builds has one entry for a state and an event.
pub allow_all-IsDistinct :
    (ts : List Transition) (b c : Builder)
    → IsDistinct b.table
    → allow_all ts b ≡ some c
    → IsDistinct c.table
unfolding allow_all
allow_all-IsDistinct [] b c h e = subst (λ x. IsDistinct x.table) (some_inj e) h
allow_all-IsDistinct (t ∷ ts) b c h e = elim (Option-cases (allow t b)) [
  | inl dup ↦ absurd (let q = rw (dup, allow_all) at e in cc)
  | inr (d, fits) ↦
      allow_all-IsDistinct ts d c (allow-IsDistinct t b d h fits) (rw (fits, allow_all) at e)
]

find_edge-HasEdge :
    (ts : List Transition) (s : State) (e : Event) (u : State)
    → find_edge ts s e ≡ some u
    → HasEdge ts s e u
find_edge-HasEdge [] s e u h = absurd (cc)
find_edge-HasEdge (t ∷ ts) s e u h =
    ground (arith, eq_iff t.from s, eq_iff t.event e, find_edge-HasEdge ts s e u)

absent-HasEdge :
    (ts : List Transition) (s : State) (e : Event) (u : State)
    → has_key s e ts ≡ false
    → ¬ HasEdge ts s e u
unfolding has_key
absent-HasEdge [] s e u h k = absurd k
absent-HasEdge (t ∷ ts) s e u h k =
    ground (arith, eq_iff t.from s, eq_iff t.event e, absent-HasEdge ts s e u)

HasEdge-find_edge :
    (ts : List Transition) (s : State) (e : Event) (u : State)
    → IsDistinct ts
    → HasEdge ts s e u
    → find_edge ts s e ≡ some u
HasEdge-find_edge [] s e u h k = absurd k
HasEdge-find_edge (t ∷ ts) s e u h (inl (f, n, o)) =
    ground (arith, eq_iff t.from s, eq_iff t.event e)
HasEdge-find_edge (t ∷ ts) s e u h (inr k) =
    let rest = HasEdge-find_edge ts s e u h.1 k in
    let other = absent-HasEdge ts t.from t.event u h.0 in
    elim (Bool-cases (t.from =ₛ s && t.event =ₛ e)) [
      | inl hit ↦ absurd (other (moved_key hit k))
      | inr miss ↦ rw miss rest
    ]
  where
    moved_key :
        (t.from =ₛ s && t.event =ₛ e) ≡ true → HasEdge ts s e u → HasEdge ts t.from t.event u
    moved_key hit k =
        let f : t.from ≡ s = ground (arith, eq_iff t.from s) in
        let n : t.event ≡ e = ground (arith, eq_iff t.event e) in rw (f, n) k

HasNoLoop-HasEdge :
    (ts : List Transition) (s : State) (e : Event) (u : State)
    → HasNoLoop ts
    → HasEdge ts s e u
    → u ≢ s
HasNoLoop-HasEdge [] s e u h k = absurd k
HasNoLoop-HasEdge (t ∷ ts) s e u h (inl (f, n, o)) = λ q. h.0 (o ∙ q ∙ sym f)
HasNoLoop-HasEdge (t ∷ ts) s e u h (inr k) = HasNoLoop-HasEdge ts s e u h.1 k

abbrev pub outcome : RunStatus → Option State → Transitioned
outcome s none = rejected s
outcome s (some t) = changed t

-- What a status becomes, by the table alone.
abbrev pub by_table : List Transition → RunStatus → Event → Transitioned
by_table ts s e = outcome s (find_edge ts s e)

abbrev pub is_some {ℓ} : {A : Type ℓ} → Option A → Bool
is_some none = false
is_some (some a) = true

module _ (m : Machine) (b : Builder) (s : RunStatus) (e : Event) (unique : IsDistinct b.table)
    (no_loop : HasNoLoop b.table) where
  abbrev Fires : Type 0
  Fires =
      (transition_with m b s e ≡ by_table b.table s e)
      × (can_transition_with m b s e ≡ is_some (find_edge b.table s e))

  fires_refused : ((u : State) → ¬ Declares (events b) s e u) → find_edge b.table s e ≡ none → Fires
  unfolding transition_with can_transition_with
  fires_refused nothing absent =
      let (r, c) = m.undeclared (events b) s e nothing in
      elim r [ inl x ↦ (rw (x, absent), rw (c, absent)) | inr x ↦ (rw (x, absent), rw (c, absent)) ]

  fires_moved : (u : State) → find_edge b.table s e ≡ some u → Fires
  unfolding transition_with can_transition_with
  fires_moved u found =
      let edge = find_edge-HasEdge b.table s e u found in
      let (f, c) =
        m.declared (events b) s e u ((events-Declares s e u b).1 edge)
          (λ v d.
            some_inj (
              sym (HasEdge-find_edge b.table s e v unique ((events-Declares s e v b).0 d)) ∙ found))
          (HasNoLoop-HasEdge b.table s e u no_loop edge) in
      (rw (f, found), rw (c, found))

  -- Over a table that `Allow` built and that has no loops, `TransitionRun` and `TransitionStage`
  -- change a status exactly as the table's entry says and leave it with an error where there is
  -- none, and `CanTransitionRun` tells which of the two happens.
  pub transition_lem : Fires
  transition_lem = elim (Option-cases (find_edge b.table s e)) [
    | inl absent ↦
        fires_refused
          (λ u d.
            some-ne-none (HasEdge-find_edge b.table s e u unique ((events-Declares s e u b).0 d))
              absent)
          absent
    | inr (u, found) ↦ fires_moved u found
  ]
