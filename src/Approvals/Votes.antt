-- ===== src/Approvals/Votes.antt =====
-- `Approve` and `Reject` on a stored gate: settled, voted on already, and open
-- (service/stageapproval.go).
use cooker.Prelude.{
  ℕ, ◌+◌, ◌<◌, String, Bool, true, false, none, some, List, [], ◌∷◌, ◌++◌, ◌≡◌, inl, inr, refl, ap,
  sym, ◌∙◌, subst, arith, ◌=ₛ◌, if◌then◌else◌, leb, Bool-cases, length,
}
use cooker.Prelude.Dict.{lookup, insert}
use cooker.Approvals.{
  StageApprovalStatus, StageApproval, StageApprovalVote, approved, is_awaiting, Store,
  gate_resolved, already_approved, Reply, has_vote_of, find_by_run_stage, votes_of, hydrate,
  record_vote, advance, vote_reply, get_gate, update_gate_status, rejected, settled_copy, add_vote,
  approve, reject,
}
use cooker.Approvals.Gates.{StoreOk, find_lem}

-- The row of a gate with its end: the status, who ended it, unless no address is known, and when.
abbrev pub closed_row : StageApprovalStatus → ℕ → String → StageApproval → StageApproval
closed_row status now email g = record {
  id = g.id;
  run_id = g.run_id;
  stage_id = g.stage_id;
  status = status;
  required_approvers = g.required_approvers;
  resolved_by = if email =ₛ "" then g.resolved_by else email;
  resolved_at = some now;
  created_at = g.created_at;
  updated_at = now;
  votes = g.votes;
}

-- What the caller gets of a gate that has ended.
abbrev pub closed_copy : StageApprovalStatus → ℕ → String → StageApproval → StageApproval
closed_copy status now email g = record g {
  status = status;
  resolved_by = email;
  resolved_at = some now;
}

-- The gate `g` of the run and the stage, stored under `i`.
pub record Stored (s : Store) (i run stage : String) (g : StageApproval) : Type 0 where
  pub ok : StoreOk s
  pub at_key : lookup i s.gates ≡ some g
  pub of_run : g.run_id ≡ run
  pub of_stage : g.stage_id ≡ stage

module _ (now : ℕ) (fresh run stage sub email note : String) where
  recorded :
      (g : StageApproval) (s t : Store) (added : Bool) (count : ℕ) (r : Reply)
      → add_vote now
          (record {
            id = fresh;
            stage_approval_id = g.id;
            approver_sub = sub;
            approver_email = email;
            note = note;
            created_at = 0;
          })
          s
        ≡ (t, added, count, none)
      → get_gate run stage t ≡ r
      → record_vote now fresh run stage sub email note g s ≡ advance now email added count r t
  recorded g s t added count r e f = rw (record_vote, e, f) refl

  advance_short :
      (g : StageApproval) (s : Store) (added : Bool) (count : ℕ)
      → leb g.required_approvers count ≡ false
      → advance now email added count (some g, none) s ≡ (s, (some g, vote_reply added))
  advance_short g s added count short = rw (advance, short) refl

  advance_full :
      (g : StageApproval) (s t : Store) (added : Bool) (count : ℕ)
      → leb g.required_approvers count ≡ true
      → is_awaiting g.status ≡ true
      → update_gate_status now g.id approved email (some now) s ≡ (t, none)
      → advance now email added count (some g, none) s ≡ (
        t,
        (
          some (record g { status = approved; resolved_by = email; resolved_at = some now }),
          vote_reply added,
        ),
      )
  advance_full g s t added count enough w e = rw (advance, enough, w, e) refl

module _ (s : Store) (i run stage : String) (g : StageApproval) (h : Stored s i run stage g) where
  found : find_by_run_stage run stage s.gates ≡ some g
  found = find_lem s i run stage g h.ok h.at_key h.of_run h.of_stage

  gate_id : g.id ≡ i
  gate_id = (h.ok.gates_ok i g h.at_key).named

  stored_at_id : lookup g.id s.gates ≡ some g
  stored_at_id = subst (λ k. lookup k s.gates ≡ some g) (sym gate_id) h.at_key

  pub get_gate-Stored : get_gate run stage s ≡ (some (hydrate s g), none)
  unfolding get_gate
  get_gate-Stored = rw found

  -- A settled gate answers a late click with `ErrGateResolved`, and nothing changes.
  pub resolved_lem :
      (now : ℕ) (fresh sub email note : String)
      → is_awaiting g.status ≡ false
      → (approve now fresh run stage sub email note s
          ≡ (s, (some (hydrate s g), some gate_resolved)))
        × (reject now run stage email note s ≡ (s, (some (hydrate s g), some gate_resolved)))
  unfolding approve reject hydrate
  resolved_lem now fresh sub email note r =
      (rw (get_gate-Stored, r) refl, rw (get_gate-Stored, r) refl)

  abbrev pub cast : List StageApprovalVote
  cast = votes_of g.id s

  -- The vote that `Approve` records.
  abbrev pub ballot : ℕ → String → String → String → String → StageApprovalVote
  ballot now fresh sub email note = record {
    id = fresh;
    stage_approval_id = g.id;
    approver_sub = sub;
    approver_email = email;
    note = note;
    created_at = now;
  }

  abbrev pub with_vote : StageApprovalVote → Store
  with_vote v = record s { votes = insert g.id (cast ++ (v ∷ [])) s.votes }

  -- The store after a new vote: the vote is appended, and the gate is approved if that makes the
  -- threshold.
  abbrev pub after_vote : ℕ → String → StageApprovalVote → Store
  after_vote now email v =
      if leb g.required_approvers (length cast + 1)
      then record (with_vote v) { gates = insert g.id (closed_row approved now email g) s.gates }
      else with_vote v

  -- What the caller gets of the gate then.
  abbrev pub answer : ℕ → String → StageApprovalVote → StageApproval
  answer now email v =
      let seen = hydrate (with_vote v) g in
      if leb g.required_approvers (length cast + 1)
      then closed_copy approved now email seen
      else seen

  add_again :
      (now : ℕ) (fresh sub email note : String)
      → has_vote_of cast sub ≡ true
      → add_vote now (record (ballot now fresh sub email note) { created_at = 0 }) s
        ≡ (s, false, length cast, none)
  unfolding add_vote
  add_again now fresh sub email note dup = rw (stored_at_id, dup) refl

  add_new :
      (now : ℕ) (fresh sub email note : String)
      → has_vote_of cast sub ≡ false
      → add_vote now (record (ballot now fresh sub email note) { created_at = 0 }) s
        ≡ (with_vote (ballot now fresh sub email note), true, length cast + 1, none)
  unfolding add_vote
  add_new now fresh sub email note new = rw (stored_at_id, new) refl

  get_after :
      (v : StageApprovalVote)
      → get_gate run stage (with_vote v) ≡ (some (hydrate (with_vote v) g), none)
  unfolding get_gate
  get_after v = rw found

  begun :
      (now : ℕ) (fresh sub email note : String)
      → is_awaiting g.status ≡ true
      → approve now fresh run stage sub email note s
        ≡ record_vote now fresh run stage sub email note (hydrate s g) s
  unfolding approve hydrate
  begun now fresh sub email note w = rw (get_gate-Stored, w) refl

  -- A second vote of one approver counts once: `ErrAlreadyApproved`, and nothing changes.
  pub approve_again :
      (now : ℕ) (fresh sub email note : String)
      → is_awaiting g.status ≡ true
      → has_vote_of cast sub ≡ true
      → approve now fresh run stage sub email note s
        ≡ (s, (some (hydrate s g), some already_approved))
  unfolding hydrate
  approve_again now fresh sub email note w dup =
      let few = (h.ok.gates_ok i g h.at_key).waiting w in
      let few_id : length (votes_of g.id s) < g.required_approvers =
        subst (λ k. length (votes_of k s) < g.required_approvers) (sym gate_id) few in
      let below : leb g.required_approvers (length cast) ≡ false = ground arith in
      begun now fresh sub email note w
      ∙ recorded now fresh run stage sub email note (hydrate s g) s s false (length cast) _
          (add_again now fresh sub email note dup) get_gate-Stored
      ∙ advance_short now fresh run stage sub email note (hydrate s g) s false (length cast) below

  update_lem :
      (now : ℕ) (email : String) (v : StageApprovalVote)
      → update_gate_status now g.id approved email (some now) (with_vote v) ≡ (
        record (with_vote v) { gates = insert g.id (closed_row approved now email g) s.gates },
        none,
      )
  unfolding update_gate_status
  update_lem now email v = rw stored_at_id

  -- The first vote of an approver on a gate that waits is kept, with the time of the call. If it
  -- makes the threshold, the gate's row gets the status approved, the approver's address, unless
  -- it is empty, and the time; else no row changes. The caller gets the gate with the votes, as
  -- it stands then, and no error.
  pub approve_new :
      (now : ℕ) (fresh sub email note : String)
      → is_awaiting g.status ≡ true
      → has_vote_of cast sub ≡ false
      → let v = ballot now fresh sub email note in
        approve now fresh run stage sub email note s
        ≡ (after_vote now email v, (some (answer now email v), none))
  unfolding hydrate
  approve_new now fresh sub email note w new =
      let v = ballot now fresh sub email note in
      let count = length cast + 1 in
      let start =
        begun now fresh sub email note w
        ∙ recorded now fresh run stage sub email note (hydrate s g) s (with_vote v) true count _
            (add_new now fresh sub email note new) (get_after v) in
      elim (Bool-cases (leb g.required_approvers count)) [
        | inl enough ↦
            let end =
              start
              ∙ advance_full now fresh run stage sub email note (hydrate (with_vote v) g)
                  (with_vote v) _ true count enough w (update_lem now email v) in
            end ∙ rw enough refl
        | inr short ↦
            let end =
              start
              ∙ advance_short now fresh run stage sub email note (hydrate (with_vote v) g)
                  (with_vote v) true count short in
            end ∙ rw short refl
      ]

  -- A rejection of a gate that waits closes its row; nothing else changes.
  pub reject_lem :
      (now : ℕ) (email note : String)
      → is_awaiting g.status ≡ true
      → reject now run stage email note s ≡ (
        record s { gates = insert g.id (closed_row rejected now email g) s.gates },
        (some (closed_copy rejected now email (hydrate s g)), none),
      )
  unfolding reject hydrate update_gate_status
  reject_lem now email note w =
      let done : update_gate_status now g.id rejected email (some now) s
          ≡ (record s { gates = insert g.id (closed_row rejected now email g) s.gates }, none) =
        rw stored_at_id in
      let start : reject now run stage email note s
          ≡ settled_copy now rejected email (hydrate s g) none
              (update_gate_status now g.id rejected email (some now) s) =
        rw (get_gate-Stored, w) refl in
      start ∙ ap (settled_copy now rejected email (hydrate s g) none) done
