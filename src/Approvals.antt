-- ===== src/Approvals.antt =====
-- Approval gates of pipeline stages: backend/internal/model/stageapproval.go, the in-memory store
-- backend/internal/store/memory/stageapproval.go and the service
-- backend/internal/service/stageapproval.go.
-- Each store method runs under the store's lock and is one step. A service method makes several
-- of these steps; here no other call comes between them. Clock readings and fresh ids are
-- arguments; an instant counts nanoseconds since Go's zero Time. A store error that is not one of
-- the sentinels cannot come from this store.
pub mod Gates
pub mod Votes
pub mod Changes
pub mod Clicks
pub mod Tests
use cooker.Prelude.{
  ℕ, suc, ◌+◌, String, Bool, true, false, ◌&&◌, Option, none, some, List, [], ◌∷◌, ◌++◌, ◌≡◌,
  if◌then◌else◌, ltb, leb, ◌=ₛ◌, length,
}
use cooker.Prelude.Int.{ℤ, pos, negsuc}
use cooker.Prelude.Dict.{lookup, insert}

pub data StageApprovalStatus : Type 0 where
  awaiting approved rejected : StageApprovalStatus

abbrev pub is_awaiting : StageApprovalStatus → Bool
is_awaiting awaiting = true
is_awaiting _ = false

pub record StageApprovalVote : Type 0 where
  pub id : String
  pub stage_approval_id : String
  pub approver_sub : String
  pub approver_email : String
  pub note : String
  pub created_at : ℕ

pub record StageApproval : Type 0 where
  pub id : String
  pub run_id : String
  pub stage_id : String
  pub status : StageApprovalStatus
  pub required_approvers : ℕ
  pub resolved_by : String
  pub resolved_at : Option ℕ
  pub created_at : ℕ
  pub updated_at : ℕ
  pub votes : List StageApprovalVote

unfoldable pub has_vote_of : List StageApprovalVote → String → Bool
has_vote_of [] sub = false
has_vote_of (v ∷ vs) sub =
    let rest = has_vote_of vs sub in if v.approver_sub =ₛ sub then true else rest

unfoldable pub approval_count : StageApproval → ℕ
approval_count a = length a.votes

unfoldable pub has_approver : StageApproval → String → Bool
unfolding has_vote_of
has_approver a sub = has_vote_of a.votes sub

pub record Store : Type 0 where
  pub gates : List (String × StageApproval)
  pub votes : List (String × List StageApprovalVote)

pub data Failure : Type 0 where
  not_found conflict gate_resolved already_approved : Failure

unfoldable pub find_by_run_stage :
    String → String → List (String × StageApproval) → Option StageApproval
find_by_run_stage run stage [] = none
find_by_run_stage run stage ((i, g) ∷ m) =
    if g.run_id =ₛ run && g.stage_id =ₛ stage then some g else find_by_run_stage run stage m

abbrev or_empty : Option (List StageApprovalVote) → List StageApprovalVote
or_empty none = []
or_empty (some vs) = vs

-- A missing key reads as the empty slice.
unfoldable pub votes_of : String → Store → List StageApprovalVote
votes_of id s = or_empty (lookup id s.votes)

unfoldable pub hydrate : Store → StageApproval → StageApproval
hydrate s g = record g { votes = votes_of g.id s }

abbrev create_new :
    ℕ → Option StageApproval → StageApproval → Store → (Store × StageApproval) × Option Failure
create_new now (some old) g s = ((s, g), some conflict)
create_new now none g s =
    let created = if leb g.created_at 0 then now else g.created_at in
    let stamped = record g { created_at = created; updated_at = created } in
    ((record s { gates = insert g.id (record stamped { votes = [] }) s.gates }, stamped), none)

-- `CreateGate` also stamps the caller's gate, which comes back beside the store.
unfoldable pub create_gate : ℕ → StageApproval → Store → (Store × StageApproval) × Option Failure
create_gate now g s = create_new now (find_by_run_stage g.run_id g.stage_id s.gates) g s

abbrev pub Reply : Type 0
Reply = Option StageApproval × Option Failure

abbrev pub hydrated : Store → Option StageApproval → Reply
hydrated s none = (none, some not_found)
hydrated s (some g) = (some (hydrate s g), none)

unfoldable pub get_gate : String → String → Store → Reply
get_gate run stage s = hydrated s (find_by_run_stage run stage s.gates)

-- `sort.Slice` by `CreatedAt`, as an insertion sort.
unfoldable pub insert_by_created : StageApproval → List StageApproval → List StageApproval
insert_by_created g [] = g ∷ []
insert_by_created g (h ∷ hs) =
    if ltb h.created_at g.created_at then h ∷ insert_by_created g hs else g ∷ h ∷ hs

unfoldable pub gates_of_run : String → Store → List (String × StageApproval) → List StageApproval
gates_of_run run s [] = []
gates_of_run run s ((i, g) ∷ m) =
    let rest = gates_of_run run s m in
    if g.run_id =ₛ run then insert_by_created (hydrate s g) rest else rest

unfoldable pub list_gates : String → Store → List StageApproval
list_gates run s = gates_of_run run s s.gates

abbrev pub later_of : Option ℕ → Option ℕ → Option ℕ
later_of none old = old
later_of (some t) old = some t

abbrev pub restamped : ℕ → StageApprovalStatus → String → Option ℕ → StageApproval → StageApproval
restamped now status by at g = record g {
  status = status;
  resolved_by = if by =ₛ "" then g.resolved_by else by;
  resolved_at = later_of at g.resolved_at;
  updated_at = now;
}

abbrev pub update_found :
    ℕ
    → String
    → StageApprovalStatus
    → String
    → Option ℕ
    → Option StageApproval
    → Store
    → Store × Option Failure
update_found now id status by at none s = (s, some not_found)
update_found now id status by at (some g) s =
    (record s { gates = insert id (restamped now status by at g) s.gates }, none)

unfoldable pub update_gate_status :
    ℕ → String → StageApprovalStatus → String → Option ℕ → Store → Store × Option Failure
update_gate_status now id status by at s = update_found now id status by at (lookup id s.gates) s

-- `AddVote`: whether the vote is new, the number of votes, and the error.
abbrev pub Added : Type 0
Added = Store × Bool × ℕ × Option Failure

abbrev pub add_found : ℕ → StageApprovalVote → Option StageApproval → Store → Added
add_found now v none s = (s, false, 0, some not_found)
add_found now v (some g) s =
    let existing = votes_of v.stage_approval_id s in
    let stamped = record v { created_at = if leb v.created_at 0 then now else v.created_at } in
    if has_vote_of existing v.approver_sub then (s, false, length existing, none) else (
      record s { votes = insert v.stage_approval_id (existing ++ (stamped ∷ [])) s.votes },
      true,
      length existing + 1,
      none,
    )

unfoldable pub add_vote : ℕ → StageApprovalVote → Store → Added
add_vote now v s = add_found now v (lookup v.stage_approval_id s.gates) s

-- A threshold below 1 counts as 1.
unfoldable pub normalize_approvers : ℤ → ℕ
normalize_approvers (pos n) = if ltb n 1 then 1 else n
normalize_approvers (negsuc n) = 1

abbrev pub new_gate : String → String → String → ℤ → StageApproval
new_gate fresh run stage required = record {
  id = fresh;
  run_id = run;
  stage_id = stage;
  status = awaiting;
  required_approvers = normalize_approvers required;
  resolved_by = "";
  resolved_at = none;
  created_at = 0;
  updated_at = 0;
  votes = [];
}

-- The end of `Await`: on a conflict the gate that won the race is returned.
abbrev after_create : String → String → (Store × StageApproval) × Option Failure → Store × Reply
after_create run stage ((s, g), none) = (s, (some g, none))
after_create run stage ((s, g), some conflict) = (
  s,
  elim (find_by_run_stage run stage s.gates) [
    | none ↦ (none, some conflict)
    | some h ↦ (some (hydrate s h), none)
  ],
)
after_create run stage ((s, g), some e) = (s, (none, some e))

abbrev pub await_found : ℕ → String → String → String → ℤ → Reply → Store → Store × Reply
await_found now fresh run stage required (some g, none) s = (s, (some g, none))
await_found now fresh run stage required (o, some not_found) s =
    after_create run stage (create_gate now (new_gate fresh run stage required) s)
await_found now fresh run stage required (o, e) s = (s, (none, e))

unfoldable pub await : ℕ → String → String → String → ℤ → Store → Store × Reply
unfolding create_gate normalize_approvers
await now fresh run stage required s =
    await_found now fresh run stage required (get_gate run stage s) s

abbrev pub vote_reply : Bool → Option Failure
vote_reply true = none
vote_reply false = some already_approved

-- After the update of the row the service sets the same fields on the copy that it returns.
abbrev pub settled_copy :
    ℕ
    → StageApprovalStatus
    → String
    → StageApproval
    → Option Failure
    → Store × Option Failure
    → Store × Reply
settled_copy now status email g err (t, some e) = (t, (none, some e))
settled_copy now status email g err (t, none) =
    (t, (some (record g { status = status; resolved_by = email; resolved_at = some now }), err))

-- The last part of `Approve`: the threshold.
abbrev pub advance : ℕ → String → Bool → ℕ → Reply → Store → Store × Reply
advance now email added count (some g, none) s =
    if leb g.required_approvers count && is_awaiting g.status
    then settled_copy now approved email g (vote_reply added)
        (update_gate_status now g.id approved email (some now) s)
    else (s, (some g, vote_reply added))
advance now email added count (o, e) s = (s, (none, e))

abbrev pub after_vote_added : ℕ → String → String → String → Added → Store × Reply
after_vote_added now run stage email (t, added, count, some e) = (t, (none, some e))
after_vote_added now run stage email (t, added, count, none) =
    advance now email added count (get_gate run stage t) t

abbrev pub record_vote :
    ℕ → String → String → String → String → String → String → StageApproval → Store → Store × Reply
record_vote now fresh run stage sub email note g s =
    let v : StageApprovalVote = record {
      id = fresh;
      stage_approval_id = g.id;
      approver_sub = sub;
      approver_email = email;
      note = note;
      created_at = 0;
    } in
    after_vote_added now run stage email (add_vote now v s)

abbrev pub approve_found :
    ℕ → String → String → String → String → String → String → Reply → Store → Store × Reply
approve_found now fresh run stage sub email note (some g, none) s =
    if is_awaiting g.status
    then record_vote now fresh run stage sub email note g s
    else (s, (some g, some gate_resolved))
approve_found now fresh run stage sub email note (o, e) s = (s, (none, e))

-- `Approve`. The reading `now` stands for each of its calls of `time.Now`.
unfoldable pub approve :
    ℕ → String → String → String → String → String → String → Store → Store × Reply
unfolding add_vote
approve now fresh run stage sub email note s =
    approve_found now fresh run stage sub email note (get_gate run stage s) s

abbrev pub reject_found : ℕ → String → Reply → Store → Store × Reply
reject_found now email (some g, none) s =
    if is_awaiting g.status
    then settled_copy now rejected email g none
        (update_gate_status now g.id rejected email (some now) s)
    else (s, (some g, some gate_resolved))
reject_found now email (o, e) s = (s, (none, e))

-- `Reject`; the note is not used by the source.
unfoldable pub reject : ℕ → String → String → String → String → Store → Store × Reply
unfolding update_gate_status
reject now run stage email note s = reject_found now email (get_gate run stage s) s
