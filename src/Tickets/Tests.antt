-- ===== src/Tickets/Tests.antt =====
-- The theorems on tickets at one connection (backend/internal/server/wsticket.go).
use cooker.Prelude.{◌≤◌, false, some, List, [], ◌∷◌, ◌≡◌, refl, has}
use cooker.Prelude.Int.{pos, ◌+ℤ◌, ltb_ℤ}
use cooker.Prelude.Dict.{lookup, insert, delete}
use cooker.Auth.{Claims}
use cooker.Tickets.{WsTicket, admitted, consume, issue, issue_ws_ticket, ws_ticket_gate}
use cooker.Tickets.Paths.{
  codes, strip_query, has_prefix, same_codes, trim_front, trim_end, split_slash, segments_ok,
  match_any, match_ws_path, route_role_requirement, has_any_role, route_role_allowed,
}
use cooker.Tickets.Grants.{Step, mint, connect, after, Mint, admitted-Mint}
use cooker.Tickets.Uses.{uses, mints, uses-le-mints}

abbrev ada : Claims
ada = record {
  subject = "ada";
  email = "";
  name = "Ada";
  groups = [];
  roles = "operator" ∷ [];
  acr = "";
  amr = [];
}

abbrev past : List Step
past = mint (pos 0) (some ada) "/ws/kubernetes/watch?all=1" (some "t0") ∷ []

let_in :
    (ws_ticket_gate (pos 30) "t0" "/ws/kubernetes/watch" (after (pos 60) past)).0
    ≡ admitted "ada" ("operator" ∷ [])
unfolding ws_ticket_gate consume lookup issue_ws_ticket match_ws_path match_any segments_ok
    split_slash trim_end trim_front codes strip_query has_prefix same_codes route_role_allowed
    route_role_requirement has_any_role delete insert ◌+ℤ◌ has issue
let_in = refl

admitted-Mint_example :
    (t : WsTicket) × Mint (pos 60) past "t0" t
    × (ltb_ℤ t.expires (pos 30) ≡ false)
    × (t.grant.path ≡ "/ws/kubernetes/watch")
    × (t.grant.subject ≡ "ada")
    × (t.grant.roles ≡ "operator" ∷ [])
admitted-Mint_example =
    admitted-Mint (pos 60) past (pos 30) "t0" "/ws/kubernetes/watch" "ada" ("operator" ∷ []) let_in

uses-le-mints_example :
    uses (pos 60) "t0" (connect (pos 30) "t0" "/ws/kubernetes/watch" ∷ past)
    ≤ mints (pos 60) "t0" (connect (pos 30) "t0" "/ws/kubernetes/watch" ∷ past)
uses-le-mints_example =
    uses-le-mints (pos 60) (connect (pos 30) "t0" "/ws/kubernetes/watch" ∷ past) "t0"
