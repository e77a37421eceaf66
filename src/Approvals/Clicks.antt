-- ===== src/Approvals/Clicks.antt =====
-- Any sequence of `Approve` and `Reject` on the gates of a store (service/stageapproval.go).
use cooker.Prelude.{
  ℕ, ◌+◌, String, true, false, none, some, List, [], ◌∷◌, ◌≡◌, ◌≢◌, ◌⊎◌, inl, inr, refl, ap, sym,
  ◌∙◌, subst, ◌=ₛ◌, =ₛ_eq, =ₛ_refl, leb, Bool-cases, Option-cases, length, some_inj,
}
use cooker.Prelude.Dict.{lookup, insert, lookup-insert}
use cooker.Approvals.{
  StageApproval, approved, rejected, is_awaiting, Store, has_vote_of, find_by_run_stage, votes_of,
  hydrate, approve, reject, get_gate, gate_resolved,
}
use cooker.Approvals.Gates.{StoreOk, find_stored}
use cooker.Approvals.Votes.{
  Stored, ballot, after_vote, closed_row, approve_new, approve_again, reject_lem, resolved_lem,
}
use cooker.Approvals.Changes.{
  Changed, change-StoreOk, own_row, rejected-Changed, short-Changed, full-Changed,
}

-- One call of an approver.
pub data Click : Type 0 where
  approve_click : (now : ℕ) (fresh run stage sub email note : String) → Click
  reject_click : (now : ℕ) (run stage email note : String) → Click

abbrev pub click : Click → Store → Store
click (approve_click now fresh run stage sub email note) s =
    (approve now fresh run stage sub email note s).0
click (reject_click now run stage email note) s = (reject now run stage email note s).0

-- The calls of a list, the first one first.
abbrev pub clicks : List Click → Store → Store
clicks [] s = s
clicks (c ∷ cs) s = clicks cs (click c s)

-- A call leaves the store as it is or writes the row of a gate that waits.
abbrev Touched : Store → Store → Type 0
Touched s t =
    (t ≡ s)
    ⊎ ((g : StageApproval) × (h : StageApproval) × (lookup g.id s.gates ≡ some g)
        × (is_awaiting g.status ≡ true)
        × Changed s t g.id g h)

found_Stored :
    (s : Store) (run stage : String) (g : StageApproval)
    → StoreOk s
    → find_by_run_stage run stage s.gates ≡ some g
    → (i : String) × Stored s i run stage g
found_Stored s run stage g ok e =
    let (i, stored, r, t) = find_stored run stage s.gates g ok.unique e in
    (i, record { ok = ok; at_key = stored; of_run = r; of_stage = t })

awaiting_not_approved : (g : StageApproval) → is_awaiting g.status ≡ true → g.status ≢ approved
awaiting_not_approved g w e = let q : is_awaiting approved ≡ true = rw e at w in cc

reject-Touched :
    (now : ℕ) (run stage email note : String) (s : Store)
    → StoreOk s
    → Touched s (reject now run stage email note s).0
unfolding reject get_gate
reject-Touched now run stage email note s ok =
    elim (Option-cases (find_by_run_stage run stage s.gates)) [
      | inl e ↦ inl (rw e refl)
      | inr (g, e) ↦
          let (i, at) = found_Stored s run stage g ok e in
          elim (Bool-cases (is_awaiting g.status)) [
            | inl w ↦ rw (reject_lem s i run stage g at now email note w) (
                inr (
                  g,
                  closed_row rejected now email g,
                  own_row s i run stage g at,
                  w,
                  rejected-Changed s i run stage g at now email,
                ))
            | inr r ↦ rw ((resolved_lem s i run stage g at now "" "" email note r).1) (inl refl)
          ]
    ]

vote-Touched :
    (now : ℕ) (fresh run stage sub email note : String) (s : Store) (i : String) (g : StageApproval)
    (at : Stored s i run stage g)
    → is_awaiting g.status ≡ true
    → has_vote_of (votes_of g.id s) sub ≡ false
    → Touched s (
        after_vote s i run stage g at now email
          (ballot s i run stage g at now fresh sub email note))
vote-Touched now fresh run stage sub email note s i g at w new =
    let v = ballot s i run stage g at now fresh sub email note in
    let row = own_row s i run stage g at in
    elim (Bool-cases (leb g.required_approvers (length (votes_of g.id s) + 1))) [
      | inl enough ↦ rw enough (
          inr (
            g,
            closed_row approved now email g,
            row,
            w,
            full-Changed s i run stage g at v new now email enough,
          ))
      | inr short ↦ rw short (
          inr (
            g,
            g,
            row,
            w,
            short-Changed s i run stage g at v new (awaiting_not_approved g w) short,
          ))
    ]

approve-Touched :
    (now : ℕ) (fresh run stage sub email note : String) (s : Store)
    → StoreOk s
    → Touched s (approve now fresh run stage sub email note s).0
unfolding approve get_gate
approve-Touched now fresh run stage sub email note s ok =
    elim (Option-cases (find_by_run_stage run stage s.gates)) [
      | inl e ↦ inl (rw e refl)
      | inr (g, e) ↦
          let (i, at) = found_Stored s run stage g ok e in
          elim (Bool-cases (is_awaiting g.status)) [
            | inl w ↦ elim (Bool-cases (has_vote_of (votes_of g.id s) sub)) [
              | inl dup ↦
                  rw (approve_again s i run stage g at now fresh sub email note w dup) (inl refl)
              | inr new ↦
                  rw (approve_new s i run stage g at now fresh sub email note w new)
                    (vote-Touched now fresh run stage sub email note s i g at w new)
            ]
            | inr r ↦ rw ((resolved_lem s i run stage g at now fresh sub email note r).0) (inl refl)
          ]
    ]

click-Touched : (c : Click) (s : Store) → StoreOk s → Touched s (click c s)
click-Touched (approve_click now fresh run stage sub email note) s ok =
    approve-Touched now fresh run stage sub email note s ok
click-Touched (reject_click now run stage email note) s ok =
    reject-Touched now run stage email note s ok

click-StoreOk : (c : Click) (s : Store) → StoreOk s → StoreOk (click c s)
click-StoreOk c s ok = elim (click-Touched c s ok) [
  | inl same ↦ rw same ok
  | inr (g, h, row, w, change) ↦ change-StoreOk s (click c s) g.id g h row change ok
]

-- Approvals and rejections, of any gates in any order, keep the store in order: a gate's votes come
-- from different approvers, a gate that waits has fewer than it requires and an approved one as
-- many at least, a run and a stage have at most one gate, and votes belong to a gate.
pub clicks-StoreOk : (cs : List Click) (s : Store) → StoreOk s → StoreOk (clicks cs s)
clicks-StoreOk [] s ok = ok
clicks-StoreOk (c ∷ cs) s ok = clicks-StoreOk cs (click c s) (click-StoreOk c s ok)

-- A row that waits no more is not written again.
settled-click :
    (c : Click) (s : Store) (k : String) (f : StageApproval)
    → StoreOk s
    → lookup k s.gates ≡ some f
    → is_awaiting f.status ≡ false
    → lookup k (click c s).gates ≡ some f
settled-click c s k f ok row over = elim (click-Touched c s ok) [
  | inl same ↦ rw same row
  | inr (g, h, own, w, change) ↦ elim (Bool-cases (g.id =ₛ k)) [
    | inl hit ↦
        let q : lookup k s.gates ≡ some g =
          subst (λ x. lookup x s.gates ≡ some g) (=ₛ_eq g.id k hit) own in
        let same : g ≡ f = some_inj (sym q ∙ row) in absurd (let r = rw same at w in cc)
    | inr miss ↦ change.gates k ∙ rw miss row
  ]
]

settled-clicks :
    (cs : List Click) (s : Store) (k : String) (f : StageApproval)
    → StoreOk s
    → lookup k s.gates ≡ some f
    → is_awaiting f.status ≡ false
    → lookup k (clicks cs s).gates ≡ some f
settled-clicks [] s k f ok row over = row
settled-clicks (c ∷ cs) s k f ok row over =
    settled-clicks cs (click c s) k f (click-StoreOk c s ok) (settled-click c s k f ok row over)
      over

-- A gate with the row `f` has ended: whatever the store, a further call on it is refused and changes
-- nothing.
pub record Ended (key : String) (f : StageApproval) (t : Store) : Type 0 where
  pub row : lookup key t.gates ≡ some f
  pub late_approve :
      (now : ℕ) (fresh sub email note : String)
      → approve now fresh f.run_id f.stage_id sub email note t
        ≡ (t, (some (hydrate t f), some gate_resolved))
  pub late_reject :
      (now : ℕ) (email note : String)
      → reject now f.run_id f.stage_id email note t ≡ (t, (some (hydrate t f), some gate_resolved))

settled-Ended :
    (s : Store) (k : String) (f : StageApproval)
    → StoreOk s
    → lookup k s.gates ≡ some f
    → is_awaiting f.status ≡ false
    → Ended k f s
settled-Ended s k f ok row over =
    let at : Stored s k f.run_id f.stage_id f = record {
      ok = ok;
      at_key = row;
      of_run = refl;
      of_stage = refl;
    } in
    record {
      row = row;
      late_approve = λ now fresh sub email note.
          (resolved_lem s k f.run_id f.stage_id f at now fresh sub email note over).0;
      late_reject =
          λ now email note. (resolved_lem s k f.run_id f.stage_id f at now "" "" email note over).1;
    }

-- `Reject` of a gate that waits returns no error and gives its row the status rejected, the address
-- of the caller, unless it is empty, and the time, for good: after any further approvals and rejections, of any gates, the row is the
-- same, and each call on the gate is refused and changes nothing.
pub reject_final :
    (s : Store) (key run stage : String) (g : StageApproval)
    → Stored s key run stage g
    → is_awaiting g.status ≡ true
    → (now : ℕ) (email note : String) (cs : List Click)
    → ((reject now run stage email note s).1.1 ≡ none)
      × Ended g.id
          (closed_row rejected now email g)
          (clicks cs (reject now run stage email note s).0)
reject_final s key run stage g at w now email note cs =
    let h = closed_row rejected now email g in
    let t : Store = record s { gates = insert g.id h s.gates } in
    let same = reject_lem s key run stage g at now email note w in
    let ok : StoreOk t =
      change-StoreOk s t g.id g h (own_row s key run stage g at)
        (rejected-Changed s key run stage g at now email) at.ok in
    let there : lookup g.id t.gates ≡ some h =
      lookup-insert g.id g.id h s.gates ∙ rw (=ₛ_refl g.id) refl in
    (
      ap (λ x. x.1.1) same,
      rw same (
          settled-Ended (clicks cs t) g.id h (clicks-StoreOk cs t ok)
            (settled-clicks cs t g.id h ok there refl) refl),
    )
