-- ===== src/Auth/Matrix.antt =====
-- The look-up in the permission matrix against the rows of the policy.
use cooker.Prelude.{
  String, Bool, true, false, ◌&&◌, Option, none, some, List, [], ◌∷◌, ◌≡◌, inl, inr, ◌↔◌, refl, sym,
  ◌∙◌, arith, if◌then◌else◌, ◌=ₛ◌, Bool-cases, Option-cases, some_inj, In, has, has-In, In-has,
}
use text.Mathlib.TextEquality.{eq_iff}
use cooker.Auth.{
  Claims, PolicyEntry, put_row, put_rows, policy_matrix, find_row, any_allowed, row_allows,
  permission,
}

abbrev pub is_row : String → String → PolicyEntry → Bool
is_row r a e = e.resource =ₛ r && e.action =ₛ a

abbrev pub or_else : Option (List String) → Option (List String) → Option (List String)
or_else none o = o
or_else (some x) o = some x

-- The last row of a resource and an action.
abbrev pub last_row : String → String → List PolicyEntry → Option (List String)
last_row r a [] = none
last_row r a (e ∷ es) =
    or_else (last_row r a es) (if is_row r a e then some e.allowed_roles else none)

find_row-put_row :
    (r a : String) (e : PolicyEntry) (m : List PolicyEntry)
    → find_row r a (put_row e m) ≡ (if is_row r a e then some e.allowed_roles else find_row r a m)
unfolding find_row put_row
find_row-put_row r a e [] = refl
find_row-put_row r a e (f ∷ m) = ground (
  arith,
  eq_iff f.resource e.resource,
  eq_iff f.action e.action,
  eq_iff f.resource r,
  eq_iff f.action a,
  eq_iff e.resource r,
  eq_iff e.action a,
  find_row-put_row r a e m,
)

find_row-put_rows :
    (r a : String) (es m : List PolicyEntry)
    → find_row r a (put_rows es m) ≡ or_else (last_row r a es) (find_row r a m)
unfolding put_rows
find_row-put_rows r a [] m = refl
find_row-put_rows r a (e ∷ es) m =
    rw (find_row-put_rows r a es (put_row e m), find_row-put_row r a e m)
      (merge (is_row r a e) (last_row r a es) e.allowed_roles (find_row r a m))
  where
    merge :
        (b : Bool) (l : Option (List String)) (x : List String) (o : Option (List String))
        → or_else l (if b then some x else o) ≡ or_else (or_else l (if b then some x else none)) o
    merge true none x o = refl
    merge false none x o = refl
    merge b (some y) x o = refl

or_else-none : (o : Option (List String)) → or_else o none ≡ o
or_else-none none = refl
or_else-none (some x) = refl

-- The matrix that the package builds answers with the last row of the key, and with nothing
-- where no row has it.
pub find_row-policy_matrix :
    (r a : String) (es : List PolicyEntry) → find_row r a (policy_matrix es) ≡ last_row r a es
unfolding policy_matrix find_row
find_row-policy_matrix r a es = find_row-put_rows r a es [] ∙ or_else-none (last_row r a es)

-- Some text stands in both lists.
abbrev pub Meets : List String → List String → Type 0
Meets xs ys = (x : String) × In x xs × In x ys

pub any_allowed-Meets : (rs ys : List String) → any_allowed rs ys ≡ true → Meets rs ys
unfolding any_allowed
any_allowed-Meets [] ys h = absurd (cc)
any_allowed-Meets (r ∷ rs) ys h = elim (Bool-cases (has r ys)) [
  | inl held ↦ (r, inl refl, has-In r ys held)
  | inr free ↦ let (x, p, q) = any_allowed-Meets rs ys (rw free at h) in (x, inr p, q)
]

pub Meets-any_allowed :
    (rs ys : List String) (x : String) → In x rs → In x ys → any_allowed rs ys ≡ true
unfolding any_allowed
Meets-any_allowed [] ys x m k = absurd m
Meets-any_allowed (r ∷ rs) ys x (inl e) k = rw (e, In-has x ys k)
Meets-any_allowed (r ∷ rs) ys x (inr m) k = let rest = Meets-any_allowed rs ys x m k in ground arith

-- `Permission` allows a request exactly if the policy has a row for the resource and the action,
-- and the last such row names a role of the caller.
pub permission_exact :
    (es : List PolicyEntry) (c : Claims) (r a : String)
    → (permission es (some c) r a ≡ true)
      ↔ ((allowed : List String) × (last_row r a es ≡ some allowed) × Meets c.roles allowed)
unfolding permission
permission_exact es c r a = (
  there,
  λ (allowed, row, (x, p, q)).
      rw (find_row-policy_matrix r a es, row) (Meets-any_allowed c.roles allowed x p q),
)
  where
    there :
        row_allows c.roles (find_row r a (policy_matrix es)) ≡ true
        → (allowed : List String) × (last_row r a es ≡ some allowed) × Meets c.roles allowed
    there h = elim (Option-cases (find_row r a (policy_matrix es))) [
      | inl absent ↦ absurd (let q = rw absent at h in cc)
      | inr (allowed, row) ↦ (
        allowed,
        sym (find_row-policy_matrix r a es) ∙ row,
        any_allowed-Meets c.roles allowed (rw row at h),
      )
    ]

abbrev pub all_rows : (PolicyEntry → Bool) → List PolicyEntry → Bool
all_rows test [] = true
all_rows test (e ∷ es) = let rest = all_rows test es in if test e then rest else false

-- What every row of a policy satisfies, the row of a look-up does.
pub last_row_sound :
    (test : PolicyEntry → Bool) (r a : String) (es : List PolicyEntry) (allowed : List String)
    → all_rows test es ≡ true
    → last_row r a es ≡ some allowed
    → (e : PolicyEntry) × (test e ≡ true)
      × (e.resource ≡ r)
      × (e.action ≡ a)
      × (e.allowed_roles ≡ allowed)
last_row_sound test r a [] allowed t h = absurd (cc)
last_row_sound test r a (e ∷ es) allowed t h = elim (Option-cases (last_row r a es)) [
  | inl absent ↦ elim (Bool-cases (is_row r a e)) [
    | inl hit ↦ (
      e,
      ground arith,
      ground (arith, eq_iff e.resource r),
      ground (arith, eq_iff e.action a),
      some_inj (rw (absent, hit) at h),
    )
    | inr miss ↦ absurd (let q = rw (absent, miss) at h in cc)
  ]
  | inr (later, row) ↦ last_row_sound test r a es allowed (ground arith) (row ∙ rw row at h)
]
