-- ===== src/Canary/Slots.antt =====
-- The slot of an app: at most one of its rollouts is pending or progressing
-- (backend/internal/store/memory/appcanary.go).
use cooker.Prelude.{
  ℕ, ◌+◌, ◌≤◌, String, true, false, ◌&&◌, Option, none, some, [], ◌∷◌, ◌≡◌, ◌⊎◌, inl, inr, some_inj,
  refl, sym, ap, subst, ◌∙◌, arith, ◌=ₛ◌, =ₛ_eq, =ₛ_refl, Bool-cases, if◌then◌else◌,
}
use cooker.Prelude.Int.{ℤ}
use cooker.Prelude.Dict.{lookup, insert, insert-Keyed, Keyed}
use cooker.Prelude.Dict.Measure.{total, held, total-insert}
use cooker.Prelude.Dict.Entries.{Entries, Entries-insert, Entries-lookup}
use cooker.Canary.{
  CanaryStatus, AppCanary, Canaries, canary_active, is_progressing, holds_slot, slot_taken, new_row,
  create, get_active, Claim, won, claim_row, claim_terminal, update_row, update,
}

abbrev pub slot : String → AppCanary → ℕ
slot app c = if holds_slot app c then 1 else 0

-- The number of rows that hold the slot of an app.
abbrev pub taken : String → Canaries → ℕ
taken app m = total (λ id c. slot app c) m

abbrev pub slot_of : String → Option AppCanary → ℕ
slot_of app none = 0
slot_of app (some c) = slot app c

-- Each row stands under its identifier, once, and no slot is held twice.
pub record IsSound (m : Canaries) : Type 0 where
  pub keyed : Keyed m
  pub named : Entries (λ id c. c.id ≡ id) m
  pub single : (app : String) → taken app m ≤ 1

pub taken-insert :
    (app id : String) (c : AppCanary) (m : Canaries)
    → taken app (insert id c m) + slot_of app (lookup id m) ≡ taken app m + slot app c
taken-insert app id c m = plain (lookup id m) (total-insert (λ i d. slot app d) id c m)
  where
    plain :
        (o : Option AppCanary)
        → taken app (insert id c m) + held (λ i d. slot app d) id o ≡ taken app m + slot app c
        → taken app (insert id c m) + slot_of app o ≡ taken app m + slot app c
    plain none h = h
    plain (some d) h = h

-- A row may be written when it takes no slot that the old row did not hold, or one that is free.
pub write-IsSound :
    (c : AppCanary) (m : Canaries)
    → IsSound m
    → ((app : String) → taken app m + slot app c ≤ 1 + slot_of app (lookup c.id m))
    → IsSound (insert c.id c m)
write-IsSound c m h room = record {
  keyed = insert-Keyed c.id c m h.keyed;
  named = Entries-insert (λ id d. d.id ≡ id) c.id c m refl h.named;
  single = λ app. let t = taken-insert app c.id c m in let r = room app in omega (arith, t, r);
}

free-taken : (app : String) (m : Canaries) → slot_taken app m ≡ false → taken app m ≡ 0
unfolding slot_taken
free-taken app [] h = refl
free-taken app ((id, c) ∷ m) h = let r = free-taken app m in ground (arith, h, r)

-- What `Create` leaves.
pub record Created (now : ℤ) (c : AppCanary) (m : Canaries) : Type 0 where
  pub free : (canary_active c.status && slot_taken c.app_id m) ≡ false
  pub ends : create now c m ≡ some (new_row now c, insert c.id (new_row now c) m)
  pub sound : IsSound m → IsSound (insert c.id (new_row now c) m)

-- A row that takes a slot that is held is refused; any other is written, and no slot is held twice.
pub create-cases :
    (now : ℤ) (c : AppCanary) (m : Canaries)
    → (((canary_active c.status && slot_taken c.app_id m) ≡ true) × (create now c m ≡ none))
      ⊎ Created now c m
unfolding create
create-cases now c m = elim (Bool-cases (canary_active c.status && slot_taken c.app_id m)) [
  | inl e ↦ inl (e, rw e refl)
  | inr e ↦ inr (record {
    free = e;
    ends = rw e refl;
    sound = λ h. write-IsSound (new_row now c) m h (λ app. room app h e);
  })
]
  where
    room :
        (app : String)
        → IsSound m
        → (canary_active c.status && slot_taken c.app_id m) ≡ false
        → taken app m + slot app (new_row now c) ≤ 1 + slot_of app (lookup c.id m)
    room app h e = elim (Bool-cases (c.app_id =ₛ app)) [
      | inr apart ↦ let s = h.single app in rw apart (omega (arith, s))
      | inl same ↦
          let f = free-taken app m in
          let t =
            subst (λ a. (canary_active c.status && slot_taken a m) ≡ false)
              (=ₛ_eq c.app_id app same) e in
          let s = h.single app in
          rw same (elim (Bool-cases (canary_active c.status)) [
            | inl active ↦ rw active (omega (arith, f (rw active at t)))
            | inr idle ↦ rw idle (omega (arith, s))
          ])
    ]

abbrev pub Active : String → AppCanary → Canaries → Type 0
Active app c m = (lookup c.id m ≡ some c) × (c.app_id ≡ app) × (is_progressing c.status ≡ true)

own_first :
    (app id : String) (d : AppCanary) (m : Canaries)
    → d.id ≡ id
    → ((d.app_id =ₛ app) && is_progressing d.status) ≡ true
    → Active app d ((id, d) ∷ m)
unfolding lookup
own_first app id d m e t =
    (rw (e, =ₛ_refl id) refl, =ₛ_eq d.app_id app (ground (arith, t)), ground (arith, t))

own_later :
    (app id : String) (c d : AppCanary) (m : Canaries)
    → lookup id m ≡ none
    → Active app c m
    → Active app c ((id, d) ∷ m)
unfolding lookup
own_later app id c d m absent (found, own, going) = elim (Bool-cases (id =ₛ c.id)) [
  | inl e ↦ let gone = subst (λ k. lookup k m ≡ none) (=ₛ_eq id c.id e) absent in absurd (cc)
  | inr e ↦ (rw e found, own, going)
]

-- What `GetActive` gives stands under its identifier.
get_active-rows :
    (app : String) (c : AppCanary) (m : Canaries)
    → Keyed m
    → Entries (λ id d. d.id ≡ id) m
    → get_active app m ≡ some c
    → Active app c m
unfolding get_active
get_active-rows app c [] k n e = absurd (cc)
get_active-rows app c ((id, d) ∷ m) k n e =
    elim (Bool-cases ((d.app_id =ₛ app) && is_progressing d.status)) [
      | inl t ↦
          let same : d ≡ c = some_inj (rw t at e) in
          subst (λ x. Active app x ((id, d) ∷ m)) same (own_first app id d m n.0 t)
      | inr t ↦ own_later app id c d m k.0 (get_active-rows app c m k.1 n.1 (rw t at e))
    ]

pub get_active-Active :
    (app : String) (c : AppCanary) (m : Canaries)
    → IsSound m
    → get_active app m ≡ some c
    → Active app c m
get_active-Active app c m h e = get_active-rows app c m h.keyed h.named e

-- `Update` keeps the rows sound when the row takes no slot that the old one did not hold.
pub update-IsSound :
    (now : ℤ) (c : AppCanary) (m : Canaries)
    → IsSound m
    → ((app : String) → taken app m + slot app c ≤ 1 + slot_of app (lookup c.id m))
    → (stored : AppCanary) (after : Canaries) → update now c m ≡ some (stored, after)
    → IsSound after
unfolding update
update-IsSound now c m h room stored after e = go (lookup c.id m) refl e
  where
    go :
        (o : Option AppCanary)
        → lookup c.id m ≡ o
        → update_row now c m o ≡ some (stored, after)
        → IsSound after
    go none f g = absurd (cc)
    go (some old) f g =
        let same : insert c.id (record c { updated_at = now }) m ≡ after =
          ap (λ p. p.1) (some_inj g) in
        subst IsSound same (write-IsSound (record c { updated_at = now }) m h room)

-- A row without a slot may always be written.
pub update-idle :
    (now : ℤ) (c : AppCanary) (m : Canaries)
    → IsSound m
    → canary_active c.status ≡ false
    → (stored : AppCanary) (after : Canaries) → update now c m ≡ some (stored, after)
    → IsSound after
update-idle now c m h idle =
    update-IsSound now c m h (λ app. let s = h.single app in ground (arith, idle, s))

-- A won claim: the row was progressing, and is written with the new status.
pub claim-won :
    (now : ℤ) (id : String) (to : CanaryStatus) (m after : Canaries)
    → claim_terminal now id to m ≡ won after
    → (c : AppCanary) × (lookup id m ≡ some c)
      × (is_progressing c.status ≡ true)
      × (after ≡ insert id (record c { status = to; updated_at = now }) m)
unfolding claim_terminal
claim-won now id to m after e = go (lookup id m) refl e
  where
    go :
        (o : Option AppCanary)
        → lookup id m ≡ o
        → claim_row now id to m o ≡ won after
        → (c : AppCanary) × (lookup id m ≡ some c)
          × (is_progressing c.status ≡ true)
          × (after ≡ insert id (record c { status = to; updated_at = now }) m)
    go none f g = absurd (cc)
    go (some c) f g = elim (Bool-cases (is_progressing c.status)) [
      | inl t ↦ (c, f, t, won_inj (rw t at g))
      | inr t ↦ absurd (lost_won (rw t at g))
    ]
      where
        won_rows : Claim → Canaries
        won_rows (won a) = a
        won_rows Claim.not_found = []
        won_rows Claim.lost = []

        won_inj : {a b : Canaries} → won a ≡ won b → b ≡ a
        won_inj p = sym (ap won_rows p)

        lost_won : {a : Canaries} → Claim.lost ≡ won a → ⊥
        lost_won p = cc

named_at :
    (id : String) (c : AppCanary) (m : Canaries) → IsSound m → lookup id m ≡ some c → c.id ≡ id
named_at id c m h e = Entries-lookup (λ i d. d.id ≡ i) id m h.named e

-- A claim for a status without a slot keeps the rows sound.
pub claim-IsSound :
    (now : ℤ) (id : String) (to : CanaryStatus) (m after : Canaries)
    → IsSound m
    → canary_active to ≡ false
    → claim_terminal now id to m ≡ won after
    → IsSound after
claim-IsSound now id to m after h idle e =
    let (c, found, going, same) = claim-won now id to m after e in
    let row = record c { status = to; updated_at = now } in
    let name = named_at id c m h found in
    let ok = write-IsSound row m h (λ app. let s = h.single app in ground (arith, idle, s)) in
    subst IsSound (ap (λ k. insert k row m) name ∙ sym same) ok
