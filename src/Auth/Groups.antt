-- ===== src/Auth/Groups.antt =====
-- `MapGroupsToRolesWith`: the roles of a caller from the groups of the identity provider (rbac.go).
use cooker.Prelude.{
  String, false, ◌||◌, Option, none, some, List, [], ◌∷◌, ◌++◌, ◌≡◌, ◌⊎◌, inl, inr, ◌↔◌, refl, sym,
  subst, arith, ◌=ₛ◌, Bool-cases, some_inj, some-ne-none, In, In-append_left, In-append_right,
  In-append_cases, has, has-In,
}
use cooker.Prelude.Dict.{lookup}
use text.Mathlib.TextEquality.{eq_iff}
use cooker.Auth.{
  add_role, collect_roles, or_viewer, or_default, map_groups_to_roles_with, role_viewer,
}

-- One of the groups is mapped to the role.
abbrev pub Maps : List String → List (String × String) → String → Type 0
Maps [] m r = ⊥
Maps (g ∷ gs) m r = (lookup g m ≡ some r) ⊎ Maps gs m r

-- No role stands twice.
abbrev pub IsDistinct : List String → Type 0
IsDistinct [] = Unit
IsDistinct (r ∷ rs) = (has r rs ≡ false) × IsDistinct rs

has-snoc : (x y : String) (rs : List String) → has x (rs ++ (y ∷ [])) ≡ (has x rs || y =ₛ x)
unfolding has
has-snoc x y [] = ground arith
has-snoc x y (r ∷ rs) = ground (arith, has-snoc x y rs)

snoc-IsDistinct :
    (y : String) (rs : List String) → has y rs ≡ false → IsDistinct rs → IsDistinct (rs ++ (y ∷ []))
unfolding has
snoc-IsDistinct y [] new h = (refl, tt)
snoc-IsDistinct y (r ∷ rs) new h = (
  ground (arith, has-snoc r y rs, eq_iff r y, eq_iff y r),
  snoc-IsDistinct y rs (ground arith) h.1,
)

add_role-IsDistinct :
    (o : Option String) (rs : List String) → IsDistinct rs → IsDistinct (add_role o rs)
add_role-IsDistinct none rs h = h
add_role-IsDistinct (some r) rs h = elim (Bool-cases (has r rs)) [
  | inl held ↦ rw held h
  | inr new ↦ rw new (snoc-IsDistinct r rs new h)
]

In-add_role :
    (o : Option String) (rs : List String) (x : String)
    → In x (add_role o rs) ↔ (In x rs ⊎ (o ≡ some x))
In-add_role none rs x = (λ m. inl m, elim [ inl m ↦ m | inr e ↦ absurd (some-ne-none e refl) ])
In-add_role (some r) rs x = elim (Bool-cases (has r rs)) [
  | inl held ↦ rw held (
    λ m. inl m,
    elim [ inl m ↦ m | inr e ↦ subst (λ k. In k rs) (some_inj e) (has-In r rs held) ],
  )
  | inr new ↦ rw new (
    there,
    elim [
      | inl m ↦ In-append_left x rs (r ∷ []) m
      | inr e ↦ In-append_right x rs (r ∷ []) (inl (some_inj e))
    ],
  )
]
  where
    there : In x (rs ++ (r ∷ [])) → In x rs ⊎ (some r ≡ some x)
    there m = elim (In-append_cases x rs (r ∷ []) m) [
      | inl l ↦ inl l
      | inr (inl e) ↦ inr (rw e refl)
      | inr (inr k) ↦ absurd k
    ]

collect_roles-IsDistinct :
    (gs : List String) (m : List (String × String)) (rs : List String)
    → IsDistinct rs
    → IsDistinct (collect_roles gs m rs)
unfolding collect_roles
collect_roles-IsDistinct [] m rs h = h
collect_roles-IsDistinct (g ∷ gs) m rs h =
    collect_roles-IsDistinct gs m (add_role (lookup g m) rs) (add_role-IsDistinct (lookup g m) rs h)

In-collect_roles :
    (gs : List String) (m : List (String × String)) (rs : List String) (x : String)
    → In x (collect_roles gs m rs) ↔ (In x rs ⊎ Maps gs m x)
unfolding collect_roles
In-collect_roles [] m rs x = (λ k. inl k, elim [ inl k ↦ k | inr k ↦ absurd k ])
In-collect_roles (g ∷ gs) m rs x =
    let (out, back) = In-collect_roles gs m (add_role (lookup g m) rs) x in
    let (split, join) = In-add_role (lookup g m) rs x in
    (
      λ k. regroup (out k) split,
      elim [
        | inl k ↦ back (inl (join (inl k)))
        | inr (inl e) ↦ back (inl (join (inr e)))
        | inr (inr k) ↦ back (inr k)
      ],
    )
  where
    regroup :
        In x (add_role (lookup g m) rs) ⊎ Maps gs m x
        → (In x (add_role (lookup g m) rs) → In x rs ⊎ (lookup g m ≡ some x))
        → In x rs ⊎ Maps (g ∷ gs) m x
    regroup (inr k) split = inr (inr k)
    regroup (inl k) split = elim (split k) [ inl l ↦ inl l | inr e ↦ inr (inl e) ]

-- A caller gets each role that one of the groups maps to, once and no other; with no such role,
-- the viewer's alone. An empty mapping counts as the default one.
pub map_groups_lem :
    (gs : List String) (m : List (String × String))
    → IsDistinct (map_groups_to_roles_with gs m)
      × ((x : String)
          → In x (map_groups_to_roles_with gs m) ↔ (
              Maps gs (or_default m) x
              ⊎ (((y : String) → ¬ Maps gs (or_default m) y) × (x ≡ role_viewer))))
unfolding map_groups_to_roles_with has
map_groups_lem gs m =
    go (collect_roles gs (or_default m) []) (collect_roles-IsDistinct gs (or_default m) [] tt)
      (λ x. In-collect_roles gs (or_default m) [] x)
  where
    go :
        (rs : List String)
        → IsDistinct rs
        → ((x : String) → In x rs ↔ (⊥ ⊎ Maps gs (or_default m) x))
        → IsDistinct (or_viewer rs)
          × ((x : String)
              → In x (or_viewer rs) ↔ (
                  Maps gs (or_default m) x
                  ⊎ (((y : String) → ¬ Maps gs (or_default m) y) × (x ≡ role_viewer))))
    go [] h k = (
      (refl, tt),
      λ x. (
        elim [ inl e ↦ inr (λ y n. (k y).1 (inr n), sym e) | inr b ↦ absurd b ],
        elim [ inl n ↦ absurd ((k x).1 (inr n)) | inr (z, e) ↦ inl (sym e) ],
      ),
    )
    go (r ∷ rs) h k = (
      h,
      λ x. (
        λ n. elim ((k x).0 n) [ inl b ↦ absurd b | inr y ↦ inl y ],
        elim [ inl n ↦ (k x).1 (inr n) | inr (z, e) ↦ absurd (first_maps (k r).0 z) ],
      ),
    )
      where
        first_maps :
            (In r (r ∷ rs) → ⊥ ⊎ Maps gs (or_default m) r)
            → ((y : String) → ¬ Maps gs (or_default m) y)
            → ⊥
        first_maps f z = elim (f (inl refl)) [ inl b ↦ b | inr y ↦ z r y ]
