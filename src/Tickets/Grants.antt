-- ===== src/Tickets/Grants.antt =====
-- What a connection over a ticket rests on (backend/internal/server/wsticket.go).
use cooker.Prelude.{
  String, Bool, true, false, Option, none, some, List, [], ◌∷◌, In, ◌≡◌, ◌⊎◌, inl, inr, refl, sym,
  ap, subst, ◌=ₛ◌, =ₛ_eq, Bool-cases, Option-cases,
}
use cooker.Prelude.Int.{ℤ, ◌+ℤ◌, ltb_ℤ}
use cooker.Prelude.Dict.{lookup, insert, delete}
use cooker.Prelude.Dict.Entries.{Entries, Entries-insert, Entries-delete, Entries-lookup}
use cooker.Auth.{Claims}
use cooker.Tickets.Paths.{strip_query, match_ws_path, route_role_allowed}
use cooker.Tickets.{
  TicketGrant, WsTicket, Tickets, issue, consume, gc, GateReply, admitted, unauthorized, forbidden,
  gate_grant, ws_ticket_gate, minted, issue_ws_ticket,
}

-- What happens to the store of tickets.
pub data Step : Type 0 where
  mint : (at : ℤ) → Option Claims → (body : String) → Option String → Step
  connect : (at : ℤ) (tok path : String) → Step
  collect : (at : ℤ) → Step

-- The tickets after the steps of a past, the newest of which comes first.
abbrev pub after : (ttl : ℤ) → List Step → Tickets
after ttl [] = []
after ttl (mint at claims body token ∷ past) =
    (issue_ws_ticket at ttl claims body token (after ttl past)).1
after ttl (connect at tok path ∷ past) = (ws_ticket_gate at tok path (after ttl past)).1
after ttl (collect at ∷ past) = gc at (after ttl past)

-- A request of the past that was granted a ticket.
pub record Mint (ttl : ℤ) (past : List Step) (tok : String) (t : WsTicket) : Type 0 where
  pub at : ℤ
  pub claims : Claims
  pub body : String
  pub step : In (mint at (some claims) body (some tok)) past
  pub path : strip_query body ≡ t.grant.path
  pub subject : claims.subject ≡ t.grant.subject
  pub roles : claims.roles ≡ t.grant.roles
  pub expires : at +ℤ ttl ≡ t.expires
  pub route : match_ws_path t.grant.path ≡ true
  pub allowed : route_role_allowed t.grant.path t.grant.roles ≡ true

Mint-later :
    (ttl : ℤ) (s : Step) (past : List Step) (tok : String) (t : WsTicket)
    → Mint ttl past tok t
    → Mint ttl (s ∷ past) tok t
Mint-later ttl s past tok t m = record {
  at = m.at;
  claims = m.claims;
  body = m.body;
  step = inr m.step;
  path = m.path;
  subject = m.subject;
  roles = m.roles;
  expires = m.expires;
  route = m.route;
  allowed = m.allowed;
}

Entries-later :
    (ttl : ℤ) (s : Step) (past : List Step) (m : Tickets)
    → Entries (Mint ttl past) m
    → Entries (Mint ttl (s ∷ past)) m
Entries-later ttl s past [] h = tt
Entries-later ttl s past ((tok, t) ∷ m) h =
    (Mint-later ttl s past tok t h.0, Entries-later ttl s past m h.1)

Entries-gc :
    (P : String → WsTicket → Type 0) (now : ℤ) (m : Tickets) → Entries P m → Entries P (gc now m)
unfolding gc
Entries-gc P now [] h = tt
Entries-gc P now ((tok, t) ∷ m) h = elim (Bool-cases (ltb_ℤ t.expires now)) [
  | inl e ↦ rw e (Entries-gc P now m h.1)
  | inr e ↦ rw e (h.0, Entries-gc P now m h.1)
]

-- The end of a request for a ticket: it leaves the tickets, or adds the one that is asked for.
pub mint-cases :
    (at ttl : ℤ) (claims : Option Claims) (body : String) (token : Option String) (m : Tickets)
    (past : List Step)
    → ((issue_ws_ticket at ttl claims body token m).1 ≡ m)
      ⊎ ((tok : String) × (t : WsTicket) × ((issue_ws_ticket at ttl claims body token m).0
            ≡ minted tok (at +ℤ ttl))
          × ((issue_ws_ticket at ttl claims body token m).1 ≡ insert tok t m)
          × Mint ttl (mint at claims body token ∷ past) tok t)
unfolding issue_ws_ticket issue
mint-cases at ttl none body token m past = inl refl
mint-cases at ttl (some claims) body none m past = elim (Bool-cases (body =ₛ "")) [
  | inl e ↦ inl (rw e refl)
  | inr e ↦ elim (Bool-cases (match_ws_path (strip_query body))) [
    | inr u ↦ inl (rw (e, u) refl)
    | inl u ↦ elim (Bool-cases (route_role_allowed (strip_query body) claims.roles)) [
      | inr a ↦ inl (rw (e, u, a) refl)
      | inl a ↦ inl (rw (e, u, a) refl)
    ]
  ]
]
mint-cases at ttl (some claims) body (some tok) m past = elim (Bool-cases (body =ₛ "")) [
  | inl e ↦ inl (rw e refl)
  | inr e ↦ elim (Bool-cases (match_ws_path (strip_query body))) [
    | inr u ↦ inl (rw (e, u) refl)
    | inl u ↦ elim (Bool-cases (route_role_allowed (strip_query body) claims.roles)) [
      | inr a ↦ inl (rw (e, u, a) refl)
      | inl a ↦ inr (
        tok,
        record {
          grant = record {
            subject = claims.subject;
            roles = claims.roles;
            path = strip_query body;
          };
          expires = at +ℤ ttl;
        },
        rw (e, u, a) refl,
        rw (e, u, a) refl,
        record {
          at = at;
          claims = claims;
          body = body;
          step = inl refl;
          path = refl;
          subject = refl;
          roles = refl;
          expires = refl;
          route = u;
          allowed = a;
        },
      )
    ]
  ]
]

abbrev pub is_admitted : GateReply → Bool
is_admitted (admitted subject roles) = true
is_admitted unauthorized = false
is_admitted forbidden = false

-- What a connection does: it is turned away and leaves the tickets, or takes its ticket out.
pub gate-cases :
    (at : ℤ) (tok path : String) (m : Tickets)
    → (((ws_ticket_gate at tok path m).1 ≡ m)
        × (is_admitted (ws_ticket_gate at tok path m).0 ≡ false))
      ⊎ ((t : WsTicket) × (lookup tok m ≡ some t)
          × ((ws_ticket_gate at tok path m).1 ≡ delete tok m))
unfolding ws_ticket_gate consume
gate-cases at tok path m = elim (Bool-cases (tok =ₛ "")) [
  | inl e ↦ inl (rw e refl, rw e refl)
  | inr e ↦ elim (Option-cases (lookup tok m)) [
    | inl n ↦ inl (rw (e, n) refl, rw (e, n) refl)
    | inr (t, f) ↦ inr (t, f, rw (e, f) refl)
  ]
]

-- Every ticket of the store was granted by a request of the past.
after-Mint : (ttl : ℤ) (past : List Step) → Entries (Mint ttl past) (after ttl past)
after-Mint ttl [] = tt
after-Mint ttl (mint at claims body token ∷ past) =
    let s = mint at claims body token in
    let h = Entries-later ttl s past (after ttl past) (after-Mint ttl past) in
    elim (mint-cases at ttl claims body token (after ttl past) past) [
      | inl e ↦ subst (Entries (Mint ttl (s ∷ past))) (sym e) h
      | inr (tok, t, q, e, m) ↦
          subst (Entries (Mint ttl (s ∷ past))) (sym e)
            (Entries-insert (Mint ttl (s ∷ past)) tok t (after ttl past) m h)
    ]
after-Mint ttl (connect at tok path ∷ past) =
    let s = connect at tok path in
    let h = Entries-later ttl s past (after ttl past) (after-Mint ttl past) in
    elim (gate-cases at tok path (after ttl past)) [
      | inl (e, out) ↦ subst (Entries (Mint ttl (s ∷ past))) (sym e) h
      | inr (t, f, e) ↦
          subst (Entries (Mint ttl (s ∷ past))) (sym e)
            (Entries-delete (Mint ttl (s ∷ past)) tok (after ttl past) h)
    ]
after-Mint ttl (collect at ∷ past) =
    Entries-gc (Mint ttl (collect at ∷ past)) at (after ttl past)
      (Entries-later ttl (collect at) past (after ttl past) (after-Mint ttl past))

-- The ticket that an admitted connection used.
gate-admitted :
    (at : ℤ) (tok path subject : String) (roles : List String) (m : Tickets)
    → (ws_ticket_gate at tok path m).0 ≡ admitted subject roles
    → (t : WsTicket) × (lookup tok m ≡ some t)
      × (ltb_ℤ t.expires at ≡ false)
      × (t.grant.path ≡ path)
      × (t.grant.subject ≡ subject)
      × (t.grant.roles ≡ roles)
unfolding ws_ticket_gate consume
gate-admitted at tok path subject roles m e = elim (Bool-cases (tok =ₛ "")) [
  | inl empty ↦ let q : unauthorized ≡ admitted subject roles = rw empty at e in absurd (cc)
  | inr named ↦ elim (Option-cases (lookup tok m)) [
    | inl n ↦ let q : unauthorized ≡ admitted subject roles = rw (named, n) at e in absurd (cc)
    | inr (t, f) ↦ elim (Bool-cases (ltb_ℤ t.expires at)) [
      | inl late ↦
          let q : unauthorized ≡ admitted subject roles = rw (named, f, late) at e in absurd (cc)
      | inr fresh ↦
          let q : gate_grant path (some t.grant) ≡ admitted subject roles =
            rw (named, f, fresh) at e in
          let (a, b, c) = of_grant t.grant q in (t, f, fresh, a, b, c)
    ]
  ]
]
  where
    subject_of : GateReply → String
    subject_of (admitted s r) = s
    subject_of unauthorized = ""
    subject_of forbidden = ""

    roles_of : GateReply → List String
    roles_of (admitted s r) = r
    roles_of unauthorized = []
    roles_of forbidden = []

    of_grant :
        (g : TicketGrant)
        → gate_grant path (some g) ≡ admitted subject roles
        → (g.path ≡ path) × (g.subject ≡ subject) × (g.roles ≡ roles)
    of_grant g q = elim (Bool-cases (g.path =ₛ path)) [
      | inr apart ↦ let r : forbidden ≡ admitted subject roles = rw apart at q in absurd (cc)
      | inl same ↦ elim (Bool-cases (route_role_allowed path g.roles)) [
        | inr no_role ↦
            let r : forbidden ≡ admitted subject roles = rw (same, no_role) at q in absurd (cc)
        | inl allowed ↦
            let r : admitted g.subject g.roles ≡ admitted subject roles = rw (same, allowed) at q in
            (=ₛ_eq g.path path same, ap subject_of r, ap roles_of r)
      ]
    ]

-- After any requests for tickets, connections and sweeps, an admitted connection uses a ticket
-- that an earlier request of a caller with these claims was granted: the subject and the roles are
-- the caller's, the path is the one asked for and a known route, the roles are enough for it, and
-- the ticket's life is not over.
pub admitted-Mint :
    (ttl : ℤ) (past : List Step) (at : ℤ) (tok path subject : String) (roles : List String)
    → (ws_ticket_gate at tok path (after ttl past)).0 ≡ admitted subject roles
    → (t : WsTicket) × Mint ttl past tok t
      × (ltb_ℤ t.expires at ≡ false)
      × (t.grant.path ≡ path)
      × (t.grant.subject ≡ subject)
      × (t.grant.roles ≡ roles)
admitted-Mint ttl past at tok path subject roles e =
    let (t, found, fresh, a, b, c) = gate-admitted at tok path subject roles (after ttl past) e in
    (
      t,
      Entries-lookup (Mint ttl past) tok (after ttl past) (after-Mint ttl past) found,
      fresh,
      a,
      b,
      c,
    )
