-- ===== src/Tickets.antt =====
-- Tickets for WebSocket connections (backend/internal/server/wsticket.go), with the in-memory
-- store. Each operation of the store runs under its lock and is one step; the random token and the
-- times are arguments, and an answer of the server is its status with what it grants.
pub mod Paths
pub mod Grants
pub mod Uses
pub mod Tests
use cooker.Prelude.{
  ℕ, String, Bool, true, false, ◌&&◌, ◌||◌, not, Option, none, some, List, [], ◌∷◌, ◌++◌, ◌==◌,
  ◌=ₛ◌, if◌then◌else◌, has,
}
use cooker.Prelude.Int.{ℤ, ◌+ℤ◌, ltb_ℤ}
use cooker.Prelude.Dict.{lookup, insert, delete}
use cooker.Auth.{Claims}
use cooker.Tickets.Paths.{strip_query, match_ws_path, route_role_allowed}

-- `ticketGrant`.
pub record TicketGrant : Type 0 where
  pub subject : String
  pub roles : List String
  pub path : String

-- `wsTicket`.
pub record WsTicket : Type 0 where
  pub grant : TicketGrant
  pub expires : ℤ

abbrev pub Tickets : Type 0
Tickets = List (String × WsTicket)

-- `Issue`, for a token that was drawn.
unfoldable pub issue : (now ttl : ℤ) (tok : String) → TicketGrant → Tickets → Tickets
issue now ttl tok grant tickets =
    insert tok (record { grant = grant; expires = now +ℤ ttl }) tickets

-- `Consume`: the grant, if the ticket is there and not expired, and the tickets left.
abbrev pub consume_found :
    (now : ℤ) (tok : String) → Tickets → Option WsTicket → Option TicketGrant × Tickets
consume_found now tok tickets none = (none, tickets)
consume_found now tok tickets (some t) =
    (if ltb_ℤ t.expires now then none else some t.grant, delete tok tickets)

unfoldable pub consume : (now : ℤ) (tok : String) → Tickets → Option TicketGrant × Tickets
consume now tok tickets = consume_found now tok tickets (lookup tok tickets)

-- One round of `gc`.
unfoldable pub gc : (now : ℤ) → Tickets → Tickets
gc now [] = []
gc now ((tok, t) ∷ tickets) =
    let others = gc now tickets in if ltb_ℤ t.expires now then others else (tok, t) ∷ others

-- What the server answers to a WebSocket request: the connection goes on with a subject and roles, or not.
pub data GateReply : Type 0 where
  admitted : String → List String → GateReply
  unauthorized : GateReply
  forbidden : GateReply

-- What `issueWSTicket` answers: the token and its end, or a status.
pub data MintReply : Type 0 where
  minted : String → ℤ → MintReply
  no_claims : MintReply
  bad_request : MintReply
  no_role : MintReply
  no_token : MintReply

-- `wsTicketGate` with what `Consume` gave.
abbrev pub gate_grant : String → Option TicketGrant → GateReply
gate_grant path none = unauthorized
gate_grant path (some grant) =
    if not (grant.path =ₛ path)
    then forbidden
    else if not (route_role_allowed path grant.roles)
    then forbidden
    else admitted grant.subject grant.roles

-- `wsTicketGate` for a request: its `ticket` parameter and its path.
unfoldable pub ws_ticket_gate : (now : ℤ) (tok path : String) → Tickets → GateReply × Tickets
ws_ticket_gate now tok path tickets =
    if tok =ₛ ""
    then (unauthorized, tickets)
    else let (grant, left) = consume now tok tickets in (gate_grant path grant, left)

abbrev pub mint_token : (now ttl : ℤ) → TicketGrant → Option String → Tickets → MintReply × Tickets
mint_token now ttl grant none tickets = (no_token, tickets)
mint_token now ttl grant (some tok) tickets =
    (minted tok (now +ℤ ttl), issue now ttl tok grant tickets)

abbrev pub mint_for :
    (now ttl : ℤ) → Claims → (path : String) → Option String → Tickets → MintReply × Tickets
mint_for now ttl claims path token tickets =
    if not (match_ws_path path)
    then (bad_request, tickets)
    else if not (route_role_allowed path claims.roles)
    then (no_role, tickets)
    else mint_token now ttl (record { subject = claims.subject; roles = claims.roles; path = path })
        token tickets

-- `issueWSTicket` for the caller's claims and the path of the body; `token` is none when no random
-- bytes were read.
unfoldable pub issue_ws_ticket :
    (now ttl : ℤ) → Option Claims → (body : String) → Option String → Tickets → MintReply × Tickets
issue_ws_ticket now ttl none body token tickets = (no_claims, tickets)
issue_ws_ticket now ttl (some claims) body token tickets =
    if body =ₛ ""
    then (bad_request, tickets)
    else mint_for now ttl claims (strip_query body) token tickets
