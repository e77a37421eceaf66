-- ===== src/Approvals/Gates.antt =====
-- When the stored gates are in order, and what the search for a gate then finds
-- (store/memory/stageapproval.go).
use cooker.Prelude.{
  ◌≤◌, ◌<◌, String, true, false, ◌&&◌, none, some, List, [], ◌∷◌, ◌≡◌, inl, inr, refl, sym, ◌∙◌,
  arith, ◌=ₛ◌, =ₛ_refl, Bool-cases, Option-cases, length, some_inj,
}
use cooker.Prelude.Dict.{lookup, Keyed}
use text.Mathlib.TextEquality.{eq_iff}
use cooker.Approvals.{
  StageApproval, StageApprovalVote, approved, is_awaiting, Store, has_vote_of, find_by_run_stage,
  votes_of,
}

-- No approver votes twice.
abbrev pub IsDistinct : List StageApprovalVote → Type 0
IsDistinct [] = Unit
IsDistinct (v ∷ vs) = (has_vote_of vs v.approver_sub ≡ false) × IsDistinct vs

-- A gate in order, with the votes that the store keeps for it.
pub record GateOk (key : String) (g : StageApproval) (vs : List StageApprovalVote) : Type 0 where
  pub named : g.id ≡ key
  pub threshold : 1 ≤ g.required_approvers
  pub distinct : IsDistinct vs
  pub waiting : is_awaiting g.status ≡ true → length vs < g.required_approvers
  pub granted : g.status ≡ approved → g.required_approvers ≤ length vs

pub record StoreOk (s : Store) : Type 0 where
  pub unique : Keyed s.gates
  pub gates_ok :
      (id : String) (g : StageApproval) → lookup id s.gates ≡ some g → GateOk id g (votes_of id s)
  -- A run and a stage have at most one gate.
  pub one_gate :
      (i j : String) (g h : StageApproval)
      → lookup i s.gates ≡ some g
      → lookup j s.gates ≡ some h
      → g.run_id ≡ h.run_id
      → g.stage_id ≡ h.stage_id
      → i ≡ j
  -- Votes belong to a gate.
  pub no_stray : (id : String) → lookup id s.gates ≡ none → lookup id s.votes ≡ none

-- A gate that the loop finds is stored, and is the run's and the stage's.
pub find_stored :
    (run stage : String) (m : List (String × StageApproval)) (g : StageApproval)
    → Keyed m
    → find_by_run_stage run stage m ≡ some g
    → (i : String) × (lookup i m ≡ some g) × (g.run_id ≡ run) × (g.stage_id ≡ stage)
unfolding find_by_run_stage lookup
find_stored run stage [] g h e = absurd (cc)
find_stored run stage ((i, f) ∷ m) g h e =
    elim (Bool-cases (f.run_id =ₛ run && f.stage_id =ₛ stage)) [
      | inl hit ↦ first hit (some_inj (rw hit at e))
      | inr miss ↦ later (find_stored run stage m g h.1 (rw miss at e))
    ]
  where
    first :
        (f.run_id =ₛ run && f.stage_id =ₛ stage) ≡ true
        → f ≡ g
        → (k : String) × (lookup k ((i, f) ∷ m) ≡ some g) × (g.run_id ≡ run) × (g.stage_id ≡ stage)
    first hit q = (
      i,
      rw (=ₛ_refl i, q) refl,
      rw (← q) (ground (arith, eq_iff f.run_id run)),
      rw (← q) (ground (arith, eq_iff f.stage_id stage)),
    )

    later :
        (k : String) × (lookup k m ≡ some g) × (g.run_id ≡ run) × (g.stage_id ≡ stage)
        → (k : String) × (lookup k ((i, f) ∷ m) ≡ some g) × (g.run_id ≡ run) × (g.stage_id ≡ stage)
    later (k, stored, r, t) = (k, ground (arith, eq_iff i k), r, t)

-- If the loop finds nothing, no stored gate is the run's and the stage's.
pub find_none :
    (run stage : String) (m : List (String × StageApproval)) (i : String) (g : StageApproval)
    → find_by_run_stage run stage m ≡ none
    → lookup i m ≡ some g
    → g.run_id ≡ run
    → g.stage_id ≡ stage
    → ⊥
unfolding find_by_run_stage lookup
find_none run stage [] i g e f r t = cc
find_none run stage ((j, h) ∷ m) i g e f r t =
    ground
      (arith, eq_iff j i, eq_iff h.run_id run, eq_iff h.stage_id stage, find_none run stage m i g)

-- In a store in order the loop finds the gate that is there, whatever the order of the map.
pub find_lem :
    (s : Store) (i run stage : String) (g : StageApproval)
    → StoreOk s
    → lookup i s.gates ≡ some g
    → g.run_id ≡ run
    → g.stage_id ≡ stage
    → find_by_run_stage run stage s.gates ≡ some g
find_lem s i run stage g ok e r t = elim (Option-cases (find_by_run_stage run stage s.gates)) [
  | inl absent ↦ absurd (find_none run stage s.gates i g absent e r t)
  | inr (h, found) ↦
      let (j, stored, q, p) = find_stored run stage s.gates h ok.unique found in
      let same = ok.one_gate i j g h e stored (r ∙ sym q) (t ∙ sym p) in
      rw found (let moved_e = rw same at e in sym stored ∙ moved_e)
]
