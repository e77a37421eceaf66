-- ===== src/Dag/Tables.antt =====
-- The maps that the rounds of `TopologicalSort` start from (backend/pkg/dagrunner/dag.go).
use cooker.Prelude.{
  ℕ, ◌+◌, String, true, false, none, some, List, [], ◌∷◌, length, ◌≡◌, ◌⊎◌, inl, inr, refl, ap,
  subst, ◌∙◌, ◌||◌, arith, ◌=ₛ◌, =ₛ_eq, =ₛ_refl, Bool-cases, if◌then◌else◌, has, count,
}
use cooker.Prelude.Int.{ℤ, pos}
use cooker.Prelude.Dict.{lookup, insert, lookup-insert, insert-Keyed, Keyed}
use cooker.Dag.{
  Nodes, keys, int_at, list_at, is_some, Links, linked, unlinked, zero_degrees, link_all,
}
use cooker.Dag.Linking.{
  Counted, Counted-congr, int_at-insert, Known, Unknown, link_lem, count-keys, when,
}

record LinkedAll (all left : Nodes) (d : String → ℕ) (c : String → String → ℕ) (l : Links)
    : Type 0 where
  after : Links
  done : link_all all left l ≡ linked after
  known : (x : String) → Known all (list_at x left)
  counted :
      Counted (λ x. d x + length (list_at x left)) (λ v x. c v x + count v (list_at x left)) after
  same_keys : keys after.in_degree ≡ keys l.in_degree

-- The list of a node that comes first.
pub list_at-first :
    (id x : String) (deps : List String) (rest : Nodes)
    → lookup id rest ≡ none
    → (id =ₛ x) ≡ true
    → (list_at x ((id, deps) ∷ rest) ≡ deps) × (list_at x rest ≡ [])
unfolding lookup
list_at-first id x deps rest h e =
    let gone : lookup x rest ≡ none = subst (λ y. lookup y rest ≡ none) (=ₛ_eq id x e) h in
    (rw e refl, rw gone refl)

pub list_at-later :
    (id x : String) (deps : List String) (rest : Nodes)
    → (id =ₛ x) ≡ false
    → list_at x ((id, deps) ∷ rest) ≡ list_at x rest
unfolding lookup
list_at-later id x deps rest e = rw e refl

-- A number for the first node's list and one for the list among the others make one.
split_sum :
    (f : List String → ℕ) (id x : String) (deps : List String) (rest : Nodes) (n : ℕ)
    → f [] ≡ 0
    → lookup id rest ≡ none
    → n + when (id =ₛ x) (f deps) + f (list_at x rest) ≡ n + f (list_at x ((id, deps) ∷ rest))
split_sum f id x deps rest n z h = elim (Bool-cases (id =ₛ x)) [
  | inl e ↦
      let (here, gone) = list_at-first id x deps rest h e in rw (here, gone, z, e) (omega arith)
  | inr e ↦ rw (list_at-later id x deps rest e, e) (omega arith)
]

abbrev pub UnknownAmong : Nodes → Nodes → String → String → Type 0
UnknownAmong all left id dep = Unknown all (list_at id left) dep

-- A node among the others keeps its list when one more comes first.
pub Unknown-later :
    (all : Nodes) (id : String) (deps : List String) (rest : Nodes)
    → lookup id rest ≡ none
    → (x dep : String) → UnknownAmong all rest x dep
    → UnknownAmong all ((id, deps) ∷ rest) x dep
unfolding has
Unknown-later all id deps rest h x dep u = elim (Bool-cases (id =ₛ x)) [
  | inl e ↦
      let (here, gone) = list_at-first id x deps rest h e in
      let m = subst (λ xs. has dep xs ≡ true) gone u.0 in absurd (cc)
  | inr e ↦ subst (λ xs. Unknown all xs dep) (flip (list_at-later id x deps rest e)) u
]
  where
    flip : {a b : List String} → a ≡ b → b ≡ a
    flip p = cc

link_all_lem :
    (all left : Nodes) (d : String → ℕ) (c : String → String → ℕ) (l : Links)
    → Keyed left
    → Counted d c l
    → ((x : String) → is_some (lookup x left) ≡ true → has x (keys l.in_degree) ≡ true)
    → LinkedAll all left d c l
      ⊎ ((id dep : String) × UnknownAmong all left id dep × (link_all all left l ≡ unlinked id dep))
unfolding link_all lookup has
link_all_lem all [] d c l k h i = inl (record {
  after = l;
  done = refl;
  known = λ x dep m. absurd (cc);
  counted = Counted-congr (λ x. omega arith) (λ v x. omega arith) h;
  same_keys = refl;
})
link_all_lem all ((id, deps) ∷ rest) d c l k h i =
    elim (link_lem all id deps d c l h (i id (rw (=ₛ_refl id) refl))) [
      | inr (dep, u, f) ↦
          inr (id, dep, subst (λ xs. Unknown all xs dep) (front id deps) u, rw (f, link_all) refl)
      | inl r ↦
          elim (link_all_lem all rest _ _ r.after k.1 r.counted
            (λ x m. rw r.same_keys (i x (later x m)))) [
              | inl s ↦ inl (record {
                after = s.after;
                done = rw (r.done, link_all) s.done;
                known = known_step r.known s.known;
                counted =
                    Counted-congr (λ x. split_sum length id x deps rest (d x) refl k.0)
                      (λ v x. split_sum (count v) id x deps rest (c v x) refl k.0) s.counted;
                same_keys = s.same_keys ∙ r.same_keys;
              })
              | inr (x, dep, u, f) ↦
                  inr (x, dep, Unknown-later all id deps rest k.0 x dep u, rw (r.done, link_all) f)
            ]
    ]
  where
    front : (y : String) (ds : List String) → ds ≡ list_at y ((y, ds) ∷ rest)
    front y ds = rw (=ₛ_refl y) refl

    later :
        (x : String)
        → is_some (lookup x rest) ≡ true
        → is_some (if id =ₛ x then some deps else lookup x rest) ≡ true
    later x m = ground (arith, m)

    known_step :
        Known all deps
        → ((x : String) → Known all (list_at x rest))
        → (x : String) → Known all (list_at x ((id, deps) ∷ rest))
    known_step p q x = elim (Bool-cases (id =ₛ x)) [
      | inl e ↦ subst (Known all) (list_at-here x e) p
      | inr e ↦ subst (Known all) (list_at-there x e) (q x)
    ]
      where
        list_at-here : (x : String) → (id =ₛ x) ≡ true → deps ≡ list_at x ((id, deps) ∷ rest)
        list_at-here x e = rw e refl

        list_at-there :
            (x : String) → (id =ₛ x) ≡ false → list_at x rest ≡ list_at x ((id, deps) ∷ rest)
        list_at-there x e = rw e refl

-- The degrees before the links: 0 for every node.
zero_degrees_lem :
    (ns : Nodes) (m : List (String × ℤ))
    → Keyed m
    → ((x : String) → int_at x m ≡ pos 0)
    → Keyed (zero_degrees ns m)
      × ((x : String) → int_at x (zero_degrees ns m) ≡ pos 0)
      × ((x : String)
          → is_some (lookup x (zero_degrees ns m)) ≡ is_some (lookup x m) || is_some (lookup x ns))
unfolding zero_degrees lookup
zero_degrees_lem [] m k h = (k, h, λ x. ground arith)
zero_degrees_lem ((id, deps) ∷ rest) m k h =
    let (a, b, c) =
      zero_degrees_lem rest (insert id (pos 0) m) (insert-Keyed id (pos 0) m k)
        (λ x. int_at-insert id x (pos 0) m ∙ zero_or x) in
    (a, b, λ x. c x ∙ same x)
  where
    zero_or : (x : String) → (if id =ₛ x then pos 0 else int_at x m) ≡ pos 0
    zero_or x = rw (h x) (ground arith)

    same :
        (x : String)
        → (is_some (lookup x (insert id (pos 0) m)) || is_some (lookup x rest))
          ≡ (is_some (lookup x m) || is_some (if id =ₛ x then some deps else lookup x rest))
    same x = rw (lookup-insert id x (pos 0) m) (ground arith)

has-keys : {V : Type 0} (x : String) (m : List (String × V)) → has x (keys m) ≡ is_some (lookup x m)
unfolding has lookup
has-keys x [] = refl
has-keys x ((k, v) ∷ m) = ground (arith, has-keys x m)

-- The maps at the start of the rounds: every degree is the number of the node's dependencies, and a
-- name's list holds a node as often as the node names it.
pub record Tabled (nodes : Nodes) (l : Links) : Type 0 where
  pub counted : Counted (λ x. length (list_at x nodes)) (λ v x. count v (list_at x nodes)) l
  pub names : (x : String) → count x (keys l.in_degree) ≡ count x (keys nodes)

abbrev pub start : Nodes → Links
start nodes = record { in_degree = zero_degrees nodes []; adj = [] }

pub tables_lem :
    (nodes : Nodes)
    → Keyed nodes
    → ((l : Links) × (link_all nodes nodes (start nodes) ≡ linked l)
        × ((x : String) → Known nodes (list_at x nodes))
        × Tabled nodes l)
      ⊎ ((id dep : String) × Unknown nodes (list_at id nodes) dep
          × (link_all nodes nodes (start nodes) ≡ unlinked id dep))
unfolding lookup
tables_lem nodes k =
    let (keyed, zero, there) = zero_degrees_lem nodes [] tt (λ x. refl) in
    elim (link_all_lem nodes nodes (λ x. 0) (λ v x. 0) (start nodes) k
      (record { degree = zero; edges = λ v x. refl })
      (λ x m. has-keys x (zero_degrees nodes []) ∙ there x ∙ m)) [
        | inl r ↦ inl (
          r.after,
          r.done,
          r.known,
          record {
            counted = Counted-congr (λ x. omega arith) (λ v x. omega arith) r.counted;
            names = λ x.
                ap (count x) r.same_keys
                ∙ count-keys x (zero_degrees nodes []) keyed
                ∙ ap (λ b. when b 1) (there x)
                ∙ flip (count-keys x nodes k);
          },
        )
        | inr u ↦ inr u
      ]
  where
    flip : {a b : ℕ} → a ≡ b → b ≡ a
    flip p = cc
