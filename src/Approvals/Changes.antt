-- ===== src/Approvals/Changes.antt =====
-- What `Approve` and `Reject` change in a store of gates, and that it stays in order
-- (service/stageapproval.go, store/memory/stageapproval.go).
use cooker.Prelude.{
  ℕ, ◌+◌, String, true, false, ◌||◌, some, List, [], ◌∷◌, ◌++◌, ◌≡◌, ◌≢◌, ◌⊎◌, inl, inr, refl, ap,
  sym, ◌∙◌, subst, arith, ◌=ₛ◌, =ₛ_eq, =ₛ_refl, if◌then◌else◌, leb, Bool-cases, length,
  length-append, some_inj,
}
use cooker.Prelude.Dict.{lookup, insert, lookup-insert, insert-Keyed, Keyed}
use text.Mathlib.TextEquality.{eq_iff}
use cooker.Approvals.{
  StageApproval, StageApprovalVote, approved, rejected, Store, has_vote_of, votes_of,
}
use cooker.Approvals.Gates.{IsDistinct, GateOk, StoreOk}
use cooker.Approvals.Votes.{Stored, with_vote, closed_row}

has_vote_of-append :
    (vs : List StageApprovalVote) (v : StageApprovalVote) (sub : String)
    → has_vote_of (vs ++ (v ∷ [])) sub ≡ (has_vote_of vs sub || (v.approver_sub =ₛ sub))
unfolding has_vote_of
has_vote_of-append [] v sub = ground arith
has_vote_of-append (w ∷ vs) v sub = let r = has_vote_of-append vs v sub in ground (arith, r)

append-IsDistinct :
    (vs : List StageApprovalVote) (v : StageApprovalVote)
    → IsDistinct vs
    → has_vote_of vs v.approver_sub ≡ false
    → IsDistinct (vs ++ (v ∷ []))
unfolding has_vote_of
append-IsDistinct [] v d new = (refl, tt)
append-IsDistinct (w ∷ vs) v d new =
    let r = has_vote_of-append vs v w.approver_sub in
    let first = d.0 in
    (
      ground (
        arith,
        r,
        first,
        new,
        eq_iff w.approver_sub v.approver_sub,
        eq_iff v.approver_sub w.approver_sub,
      ),
      append-IsDistinct vs v d.1 (ground (arith, new)),
    )

-- The store `t` is `s` with the row `g` of the key `i` written anew as `h`, and its votes.
pub record Changed (s t : Store) (i : String) (g h : StageApproval) : Type 0 where
  pub keyed : Keyed t.gates
  pub gates : (k : String) → lookup k t.gates ≡ (if i =ₛ k then some h else lookup k s.gates)
  pub votes : (k : String) → (i =ₛ k) ≡ false → lookup k t.votes ≡ lookup k s.votes
  pub same_run : h.run_id ≡ g.run_id
  pub same_stage : h.stage_id ≡ g.stage_id
  pub ok : GateOk i h (votes_of i t)

module _ (s t : Store) (i : String) (g h : StageApproval) (e : lookup i s.gates ≡ some g)
    (c : Changed s t i g h) where
  -- A row of `t` is the new one or was there.
  pub row_cases :
      (k : String) (f : StageApproval)
      → lookup k t.gates ≡ some f
      → ((i ≡ k) × (h ≡ f)) ⊎ (((i =ₛ k) ≡ false) × (lookup k s.gates ≡ some f))
  row_cases k f q = elim (Bool-cases (i =ₛ k)) [
    | inl hit ↦
        let now : lookup k t.gates ≡ some h = c.gates k ∙ rw hit refl in
        inl (=ₛ_eq i k hit, some_inj (sym now ∙ q))
    | inr miss ↦
        let now : lookup k t.gates ≡ lookup k s.gates = c.gates k ∙ rw miss refl in
        inr (miss, sym now ∙ q)
  ]

  -- Each row of `t` has a row of `s` with its run and stage.
  pub row_before :
      (k : String) (f : StageApproval)
      → lookup k t.gates ≡ some f
      → (x : StageApproval) × (lookup k s.gates ≡ some x)
        × (x.run_id ≡ f.run_id)
        × (x.stage_id ≡ f.stage_id)
  row_before k f q = elim (row_cases k f q) [
    | inl (at, same) ↦ (
      g,
      subst (λ x. lookup x s.gates ≡ some g) at e,
      sym c.same_run ∙ ap (λ x. x.run_id) same,
      sym c.same_stage ∙ ap (λ x. x.stage_id) same,
    )
    | inr (miss, old) ↦ (f, old, refl, refl)
  ]

  pub votes_kept : (k : String) → (i =ₛ k) ≡ false → votes_of k t ≡ votes_of k s
  unfolding votes_of
  votes_kept k miss = rw (c.votes k miss) refl

  pub change-StoreOk : StoreOk s → StoreOk t
  change-StoreOk o = record {
    unique = c.keyed;
    gates_ok = λ k f q. elim (row_cases k f q) [
      | inl (at, same) ↦ rw (← at, ← same) c.ok
      | inr (miss, old) ↦ rw (votes_kept k miss) (o.gates_ok k f old)
    ];
    one_gate = λ j k f x a b r p.
        let (f2, a2, r1, p1) = row_before j f a in
        let (x2, b2, r2, p2) = row_before k x b in
        o.one_gate j k f2 x2 a2 b2 (r1 ∙ r ∙ sym r2) (p1 ∙ p ∙ sym p2);
    no_stray = λ k q. elim (Bool-cases (i =ₛ k)) [
      | inl hit ↦ absurd (let now : lookup k t.gates ≡ some h = c.gates k ∙ rw hit refl in cc)
      | inr miss ↦
          let now : lookup k t.gates ≡ lookup k s.gates = c.gates k ∙ rw miss refl in
          c.votes k miss ∙ o.no_stray k (sym now ∙ q)
    ];
  }

module _ (s : Store) (i run stage : String) (g : StageApproval) (at : Stored s i run stage g) where
  own_id : g.id ≡ i
  own_id = (at.ok.gates_ok i g at.at_key).named

  pub own_row : lookup g.id s.gates ≡ some g
  own_row = subst (λ k. lookup k s.gates ≡ some g) (sym own_id) at.at_key

  own_ok : GateOk g.id g (votes_of g.id s)
  own_ok = at.ok.gates_ok g.id g own_row

  pub rejected-Changed :
      (now : ℕ) (email : String)
      → let h = closed_row rejected now email g in
        Changed s (record s { gates = insert g.id h s.gates }) g.id g h
  unfolding votes_of
  rejected-Changed now email =
      let h = closed_row rejected now email g in
      record {
        keyed = insert-Keyed g.id h s.gates at.ok.unique;
        gates = λ k. lookup-insert g.id k h s.gates;
        votes = λ k miss. refl;
        same_run = refl;
        same_stage = refl;
        ok = record {
          named = refl;
          threshold = own_ok.threshold;
          distinct = own_ok.distinct;
          waiting = λ e. absurd (cc);
          granted = λ e. absurd (cc);
        };
      }

  module _ (v : StageApprovalVote)
      (new : has_vote_of (votes_of g.id s) v.approver_sub ≡ false) where
    abbrev voted : Store
    voted = with_vote s i run stage g at v

    abbrev ballots : List StageApprovalVote
    ballots = votes_of g.id s ++ (v ∷ [])

    votes_of-voted : votes_of g.id voted ≡ ballots
    unfolding votes_of
    votes_of-voted = rw (lookup-insert g.id g.id ballots s.votes, =ₛ_refl g.id) refl

    length-ballots : length ballots ≡ length (votes_of g.id s) + 1
    length-ballots = length-append (votes_of g.id s) (v ∷ [])

    ballots-IsDistinct : IsDistinct ballots
    ballots-IsDistinct = append-IsDistinct (votes_of g.id s) v own_ok.distinct new

    votes-voted : (k : String) → (g.id =ₛ k) ≡ false → lookup k voted.votes ≡ lookup k s.votes
    votes-voted k miss = lookup-insert g.id k ballots s.votes ∙ rw miss refl

    row_same : (k : String) → lookup k s.gates ≡ (if g.id =ₛ k then some g else lookup k s.gates)
    row_same k = elim (Bool-cases (g.id =ₛ k)) [
      | inl hit ↦ rw hit (subst (λ x. lookup x s.gates ≡ some g) (=ₛ_eq g.id k hit) own_row)
      | inr miss ↦ rw miss refl
    ]

    pub short-Changed :
        g.status ≢ approved
        → leb g.required_approvers (length (votes_of g.id s) + 1) ≡ false
        → Changed s voted g.id g g
    short-Changed waits short = record {
      keyed = at.ok.unique;
      gates = row_same;
      votes = votes-voted;
      same_run = refl;
      same_stage = refl;
      ok = rw votes_of-voted (record {
        named = refl;
        threshold = own_ok.threshold;
        distinct = ballots-IsDistinct;
        waiting = λ w. let n = length-ballots in ground (arith, n, short);
        granted = λ e. absurd (waits e);
      });
    }

    pub full-Changed :
        (now : ℕ) (email : String)
        → leb g.required_approvers (length (votes_of g.id s) + 1) ≡ true
        → let h = closed_row approved now email g in
          Changed s (record voted { gates = insert g.id h s.gates }) g.id g h
    unfolding votes_of
    full-Changed now email enough =
        let h = closed_row approved now email g in
        record {
          keyed = insert-Keyed g.id h s.gates at.ok.unique;
          gates = λ k. lookup-insert g.id k h s.gates;
          votes = votes-voted;
          same_run = refl;
          same_stage = refl;
          ok = subst (GateOk g.id h) (sym votes_of-voted) (record {
            named = refl;
            threshold = own_ok.threshold;
            distinct = ballots-IsDistinct;
            waiting = λ w. absurd (cc);
            granted = λ e. let n = length-ballots in ground (arith, n, enough);
          });
        }
