-- ===== src/RunState/Groups.antt =====
-- The event descriptors that `events` builds declare exactly the edges of the table (fsm.go).
use cooker.Prelude.{
  true, ◌&&◌, List, [], ◌∷◌, ◌++◌, ◌≡◌, ◌⊎◌, ◌↔◌, inl, inr, arith, ◌=ₛ◌, Bool-cases, In-append_left,
  In-append_right, In-append_cases,
}
use text.Mathlib.TextEquality.{eq_iff}
use cooker.RunState.{
  State, Event, Transition, EventDesc, Builder, add_source, group, events, Declares,
}

-- The table has the edge.
abbrev pub HasEdge : List Transition → State → Event → State → Type 0
HasEdge [] s e u = ⊥
HasEdge (t ∷ ts) s e u = (t.from ≡ s) × (t.event ≡ e) × (t.to ≡ u) ⊎ HasEdge ts s e u

module _ (t : Transition) (s : State) (e : Event) (u : State) where
  abbrev IsEdge : Type 0
  IsEdge = (t.from ≡ s) × (t.event ≡ e) × (t.to ≡ u)

  add_source-Declares :
      (ds : List EventDesc) → IsEdge ⊎ Declares ds s e u → Declares (add_source t ds) s e u
  unfolding add_source
  add_source-Declares [] (inl (f, n, o)) = inl (n, inl f, o)
  add_source-Declares [] (inr h) = absurd h
  add_source-Declares (d ∷ ds) h = elim (Bool-cases (d.name =ₛ t.event && d.dst =ₛ t.to)) [
    | inl hit ↦ rw hit (merged hit h)
    | inr miss ↦ rw miss (apart h (add_source-Declares ds))
  ]
    where
      merged :
          (d.name =ₛ t.event && d.dst =ₛ t.to) ≡ true
          → IsEdge ⊎ Declares (d ∷ ds) s e u
          → Declares (record d { src = d.src ++ (t.from ∷ []) } ∷ ds) s e u
      merged hit (inl (f, n, o)) = inl (
        ground (arith, eq_iff d.name t.event),
        In-append_right s d.src (t.from ∷ []) (inl f),
        ground (arith, eq_iff d.dst t.to),
      )
      merged hit (inr (inl (n, p, q))) = inl (n, In-append_left s d.src (t.from ∷ []) p, q)
      merged hit (inr (inr k)) = inr k

      apart :
          IsEdge ⊎ Declares (d ∷ ds) s e u
          → (IsEdge ⊎ Declares ds s e u → Declares (add_source t ds) s e u)
          → Declares (d ∷ add_source t ds) s e u
      apart (inl edge) f = inr (f (inl edge))
      apart (inr (inl k)) f = inl k
      apart (inr (inr k)) f = inr (f (inr k))

  Declares-add_source :
      (ds : List EventDesc) → Declares (add_source t ds) s e u → IsEdge ⊎ Declares ds s e u
  unfolding add_source
  Declares-add_source [] (inl (n, inl f, o)) = inl (f, n, o)
  Declares-add_source [] (inl (n, inr k, o)) = absurd k
  Declares-add_source [] (inr h) = absurd h
  Declares-add_source (d ∷ ds) h = elim (Bool-cases (d.name =ₛ t.event && d.dst =ₛ t.to)) [
    | inl hit ↦ merged hit (rw hit at h)
    | inr miss ↦ apart (rw miss at h) (Declares-add_source ds)
  ]
    where
      merged :
          (d.name =ₛ t.event && d.dst =ₛ t.to) ≡ true
          → Declares (record d { src = d.src ++ (t.from ∷ []) } ∷ ds) s e u
          → IsEdge ⊎ Declares (d ∷ ds) s e u
      merged hit (inl (n, p, q)) = elim (In-append_cases s d.src (t.from ∷ []) p) [
        | inl old ↦ inr (inl (n, old, q))
        | inr (inl new) ↦
            inl (new, ground (arith, eq_iff d.name t.event), ground (arith, eq_iff d.dst t.to))
        | inr (inr k) ↦ absurd k
      ]
      merged hit (inr k) = inr (inr k)

      apart :
          Declares (d ∷ add_source t ds) s e u
          → (Declares (add_source t ds) s e u → IsEdge ⊎ Declares ds s e u)
          → IsEdge ⊎ Declares (d ∷ ds) s e u
      apart (inl k) f = inr (inl k)
      apart (inr k) f = elim (f k) [ inl edge ↦ inl edge | inr r ↦ inr (inr r) ]

module _ (s : State) (e : Event) (u : State) where
  group-Declares :
      (ts : List Transition) (ds : List EventDesc)
      → HasEdge ts s e u ⊎ Declares ds s e u
      → Declares (group ts ds) s e u
  unfolding group
  group-Declares [] ds (inl h) = absurd h
  group-Declares [] ds (inr d) = d
  group-Declares (t ∷ ts) ds (inl (inl edge)) =
      group-Declares ts (add_source t ds) (inr (add_source-Declares t s e u ds (inl edge)))
  group-Declares (t ∷ ts) ds (inl (inr h)) = group-Declares ts (add_source t ds) (inl h)
  group-Declares (t ∷ ts) ds (inr d) =
      group-Declares ts (add_source t ds) (inr (add_source-Declares t s e u ds (inr d)))

  Declares-group :
      (ts : List Transition) (ds : List EventDesc)
      → Declares (group ts ds) s e u
      → HasEdge ts s e u ⊎ Declares ds s e u
  unfolding group
  Declares-group [] ds d = inr d
  Declares-group (t ∷ ts) ds d = elim (Declares-group ts (add_source t ds) d) [
    | inl h ↦ inl (inr h)
    | inr k ↦ elim (Declares-add_source t s e u ds k) [ inl edge ↦ inl (inl edge) | inr r ↦ inr r ]
  ]

  -- Grouping the table by event and destination loses no edge and adds none.
  pub events-Declares : (b : Builder) → Declares (events b) s e u ↔ HasEdge b.table s e u
  unfolding events
  events-Declares b = (
    λ d. elim (Declares-group b.table [] d) [ inl h ↦ h | inr n ↦ absurd n ],
    λ h. group-Declares b.table [] (inl h),
  )
