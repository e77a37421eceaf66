-- ===== src/Tickets/Uses.antt =====
-- A ticket lets at most one connection in (backend/internal/server/wsticket.go).
use cooker.Prelude.{
  ℕ, ◌+◌, ◌≤◌, String, Bool, false, ◌&&◌, Option, none, some, List, [], ◌∷◌, ◌≡◌, inl, inr, subst,
  arith, ◌=ₛ◌, =ₛ_eq, Bool-cases, if◌then◌else◌,
}
use cooker.Prelude.Int.{ℤ, ltb_ℤ}
use cooker.Prelude.Dict.{lookup, lookup-insert, lookup-delete}
use cooker.Auth.{Claims}
use cooker.Tickets.{
  WsTicket, Tickets, gc, ws_ticket_gate, MintReply, minted, no_claims, bad_request, no_role,
  no_token, issue_ws_ticket,
}
use cooker.Tickets.Grants.{
  Step, mint, connect, collect, after, mint-cases, is_admitted, mint-cases, gate-cases,
}

abbrev pub is_minted : String → MintReply → Bool
is_minted tok (minted other end) = other =ₛ tok
is_minted tok no_claims = false
is_minted tok bad_request = false
is_minted tok no_role = false
is_minted tok no_token = false

abbrev pub one_if : Bool → ℕ
one_if b = if b then 1 else 0

-- How many connections with a token were let in.
abbrev pub uses : (ttl : ℤ) (tok : String) → List Step → ℕ
uses ttl tok [] = 0
uses ttl tok (mint at claims body token ∷ past) = uses ttl tok past
uses ttl tok (connect at other path ∷ past) =
    one_if ((other =ₛ tok) && is_admitted (ws_ticket_gate at other path (after ttl past)).0)
    + uses ttl tok past
uses ttl tok (collect at ∷ past) = uses ttl tok past

-- How many tickets with a token were granted.
abbrev pub mints : (ttl : ℤ) (tok : String) → List Step → ℕ
mints ttl tok [] = 0
mints ttl tok (mint at claims body token ∷ past) =
    one_if (is_minted tok (issue_ws_ticket at ttl claims body token (after ttl past)).0)
    + mints ttl tok past
mints ttl tok (connect at other path ∷ past) = mints ttl tok past
mints ttl tok (collect at ∷ past) = mints ttl tok past

abbrev present : Option WsTicket → ℕ
present none = 0
present (some t) = 1

gc-absent :
    (tok : String) (now : ℤ) (m : Tickets)
    → present (lookup tok (gc now m)) ≤ present (lookup tok m)
unfolding gc lookup
gc-absent tok now [] = omega arith
gc-absent tok now ((k, t) ∷ m) =
    let r = gc-absent tok now m in
    let most = at_most (lookup tok (gc now m)) in
    elim (Bool-cases (ltb_ℤ t.expires now)) [
      | inl e ↦ rw e (elim (Bool-cases (k =ₛ tok)) [ inl s ↦ rw s most | inr s ↦ rw s r ])
      | inr e ↦ rw e (elim (Bool-cases (k =ₛ tok)) [ inl s ↦ rw s (omega arith) | inr s ↦ rw s r ])
    ]
  where
    at_most : (o : Option WsTicket) → present o ≤ 1
    at_most none = omega arith
    at_most (some t) = omega arith

-- A connection with the token uses its ticket up.
connect-uses :
    (at : ℤ) (other path tok : String) (m : Tickets)
    → one_if ((other =ₛ tok) && is_admitted (ws_ticket_gate at other path m).0)
        + present (lookup tok (ws_ticket_gate at other path m).1)
      ≤ present (lookup tok m)
connect-uses at other path tok m = elim (gate-cases at other path m) [
  | inl (e, out) ↦ rw (e, out) (ground arith)
  | inr (t, f, e) ↦ elim (Bool-cases (other =ₛ tok)) [
    | inl s ↦
        let found : lookup tok m ≡ some t =
          subst (λ k. lookup k m ≡ some t) (=ₛ_eq other tok s) f in
        rw (e, lookup-delete other tok m, s, found) (ground arith)
    | inr s ↦ rw (e, lookup-delete other tok m, s) (omega arith)
  ]
]

mint-uses :
    (at ttl : ℤ) (claims : Option Claims) (body : String) (token : Option String) (tok : String)
    (m : Tickets)
    → present (lookup tok (issue_ws_ticket at ttl claims body token m).1)
      ≤ one_if (is_minted tok (issue_ws_ticket at ttl claims body token m).0)
        + present (lookup tok m)
mint-uses at ttl claims body token tok m = elim (mint-cases at ttl claims body token m []) [
  | inl e ↦ rw e (omega arith)
  | inr (other, t, q, e, g) ↦
      rw (e, q, lookup-insert other tok t m)
        (elim (Bool-cases (other =ₛ tok)) [
          | inl s ↦ rw s (omega arith)
          | inr s ↦ rw s (omega arith)
        ])
]

uses_bound :
    (ttl : ℤ) (tok : String) (past : List Step)
    → uses ttl tok past + present (lookup tok (after ttl past)) ≤ mints ttl tok past
unfolding lookup
uses_bound ttl tok [] = omega arith
uses_bound ttl tok (mint at claims body token ∷ past) =
    let r = uses_bound ttl tok past in
    let s = mint-uses at ttl claims body token tok (after ttl past) in omega (arith, r, s)
uses_bound ttl tok (connect at other path ∷ past) =
    let r = uses_bound ttl tok past in
    let s = connect-uses at other path tok (after ttl past) in omega (arith, r, s)
uses_bound ttl tok (collect at ∷ past) =
    let r = uses_bound ttl tok past in
    let s = gc-absent tok at (after ttl past) in omega (arith, r, s)

-- After any requests for tickets, connections and sweeps, at most as many connections were let in
-- with a token as tickets with it were granted: a token that was drawn once lets in one at most.
pub uses-le-mints :
    (ttl : ℤ) (past : List Step) (tok : String) → uses ttl tok past ≤ mints ttl tok past
uses-le-mints ttl past tok = let r = uses_bound ttl tok past in omega (arith, r)
