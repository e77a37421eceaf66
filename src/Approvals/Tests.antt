-- ===== src/Approvals/Tests.antt =====
-- A gate that needs two approvals, and the calls on it.
use cooker.Prelude.{
  String, List, true, false, none, some, [], ◌∷◌, ◌≡◌, inl, inr, refl, sym, ◌∙◌, arith, ◌=ₛ◌, =ₛ_eq,
  Bool-cases, some_inj,
}
use cooker.Prelude.Dict.{lookup}
use cooker.Approvals.{
  StageApproval, StageApprovalVote, awaiting, rejected, Store, has_vote_of, votes_of, approve,
  reject,
}
use cooker.Approvals.Gates.{GateOk, StoreOk}
use cooker.Approvals.Votes.{Stored, cast, ballot, after_vote, answer, closed_row, approve_new}
use cooker.Approvals.Clicks.{
  Click, approve_click, reject_click, clicks, clicks-StoreOk, Ended, reject_final,
}

abbrev ann : StageApprovalVote
ann = record {
  id = "v1";
  stage_approval_id = "g1";
  approver_sub = "ann";
  approver_email = "ann@example.org";
  note = "";
  created_at = 4;
}

abbrev gate : StageApproval
gate = record {
  id = "g1";
  run_id = "r1";
  stage_id = "deploy";
  status = awaiting;
  required_approvers = 2;
  resolved_by = "";
  resolved_at = none;
  created_at = 3;
  updated_at = 3;
  votes = [];
}

abbrev store_of : StageApproval → Store
store_of g = record { gates = ("g1", g) ∷ []; votes = ("g1", ann ∷ []) ∷ [] }

gate_votes : (g : StageApproval) → votes_of "g1" (store_of g) ≡ ann ∷ []
unfolding votes_of lookup
gate_votes g = refl

row : (g : StageApproval) → lookup "g1" (store_of g).gates ≡ some g
unfolding lookup
row g = refl

only_row :
    (f : StageApproval) (i : String) (g : StageApproval)
    → lookup i (store_of f).gates ≡ some g
    → ("g1" ≡ i) × (f ≡ g)
unfolding lookup
only_row f i g e = elim (Bool-cases ("g1" =ₛ i)) [
  | inl hit ↦ (=ₛ_eq "g1" i hit, some_inj (rw hit at e))
  | inr miss ↦ absurd (let q = rw miss at e in cc)
]

gate_ok : GateOk "g1" gate (ann ∷ [])
unfolding has_vote_of
gate_ok = record {
  named = refl;
  threshold = omega arith;
  distinct = (refl, tt);
  waiting = λ e. omega arith;
  granted = λ e. absurd (cc);
}

store_ok : (f : StageApproval) → GateOk "g1" f (ann ∷ []) → StoreOk (store_of f)
unfolding lookup
store_ok f ok = record {
  unique = (refl, tt);
  gates_ok = λ i g e. let (k, same) = only_row f i g e in rw (← k, ← same, gate_votes f) ok;
  one_gate = λ i j g h a b r t. sym (only_row f i g a).0 ∙ (only_row f j h b).0;
  no_stray = λ i e. e_absent i e;
}
  where
    e_absent :
        (i : String) → lookup i (store_of f).gates ≡ none → lookup i (store_of f).votes ≡ none
    e_absent i e = elim (Bool-cases ("g1" =ₛ i)) [
      | inl hit ↦ absurd (let q = rw hit at e in cc)
      | inr miss ↦ rw miss
    ]

open_gate : Stored (store_of gate) "g1" "r1" "deploy" gate
open_gate = record { ok = store_ok gate gate_ok; at_key = row gate; of_run = refl; of_stage = refl }

ann_voted : has_vote_of (cast (store_of gate) "g1" "r1" "deploy" gate open_gate) "ann" ≡ true
unfolding has_vote_of votes_of lookup
ann_voted = refl

bob_new : has_vote_of (cast (store_of gate) "g1" "r1" "deploy" gate open_gate) "bob" ≡ false
unfolding has_vote_of votes_of lookup
bob_new = refl

abbrev bob_vote : StageApprovalVote
bob_vote =
    ballot (store_of gate) "g1" "r1" "deploy" gate open_gate 9 "v2" "bob" "bob@example.org" ""

approve_new_example : approve 9 "v2" "r1" "deploy" "bob" "bob@example.org" "" (store_of gate) ≡ (
  after_vote (store_of gate) "g1" "r1" "deploy" gate open_gate 9 "bob@example.org" bob_vote,
  (
    some (answer (store_of gate) "g1" "r1" "deploy" gate open_gate 9 "bob@example.org" bob_vote),
    none,
  ),
)
approve_new_example =
    approve_new (store_of gate) "g1" "r1" "deploy" gate open_gate 9 "v2" "bob" "bob@example.org" ""
      refl bob_new

abbrev calls : List Click
calls =
    approve_click 10 "v2" "r1" "deploy" "bob" "bob@example.org" ""
    ∷ reject_click 11 "r1" "deploy" "bob@example.org" ""
    ∷ []

clicks-StoreOk_example : StoreOk (clicks calls (store_of gate))
clicks-StoreOk_example = clicks-StoreOk calls (store_of gate) (store_ok gate gate_ok)

reject_final_example :
    ((reject 9 "r1" "deploy" "bob@example.org" "" (store_of gate)).1.1 ≡ none)
    × Ended "g1"
        (closed_row rejected 9 "bob@example.org" gate)
        (clicks calls (reject 9 "r1" "deploy" "bob@example.org" "" (store_of gate)).0)
reject_final_example =
    reject_final (store_of gate) "g1" "r1" "deploy" gate open_gate refl 9 "bob@example.org" "" calls
