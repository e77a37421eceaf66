-- ===== src/Dag/Linking.antt =====
-- The maps that `TopologicalSort` builds before its rounds (backend/pkg/dagrunner/dag.go).
use cooker.Prelude.{
  ℕ, ◌+◌, String, Bool, true, false, none, List, [], ◌∷◌, ◌++◌, length, ◌≡◌, ◌⊎◌, inl, inr, refl,
  ap, subst, ◌∙◌, ◌||◌, arith, ◌=ₛ◌, =ₛ_eq, =ₛ_refl, Bool-cases, if◌then◌else◌, has, count,
  count-append,
}
use cooker.Prelude.Int.{ℤ, pos, ◌+ℤ◌}
use cooker.Prelude.Dict.{lookup, insert, lookup-insert, Keyed}
use cooker.Dag.{Nodes, keys, int_at, list_at, is_some, Links, linked, unlinked, add_link, link}

module _ {V : Type 0} where
  -- The names of a keyed map are its keys, each once.
  pub count-keys :
      (x : String) (m : List (String × V))
      → Keyed m
      → count x (keys m) ≡ (if is_some (lookup x m) then 1 else 0)
  unfolding lookup
  count-keys x [] h = refl
  count-keys x ((k, v) ∷ m) h = elim (Bool-cases (k =ₛ x)) [
    | inl e ↦
        let none_left : lookup x m ≡ none = rw (=ₛ_eq k x e) at h.0 in
        let rest = count-keys x m h.1 in
        let gone : count x (keys m) ≡ 0 = rest ∙ rw none_left refl in rw e (omega (arith, gone))
    | inr e ↦ rw e (omega (arith, count-keys x m h.1))
  ]

  pub keys-insert :
      (x : String) (v : V) (m : List (String × V))
      → has x (keys m) ≡ true
      → keys (insert x v m) ≡ keys m
  unfolding insert has
  keys-insert x v [] h = absurd (cc)
  keys-insert x v ((k, w) ∷ m) h = elim (Bool-cases (k =ₛ x)) [
    | inl e ↦ rw e (ap (λ s. s ∷ keys m) (sym_of (=ₛ_eq k x e)))
    | inr e ↦ rw e (ap (λ s. k ∷ s) (keys-insert x v m (rw e at h)))
  ]
    where
      sym_of : {a b : String} → a ≡ b → b ≡ a
      sym_of p = cc

pub int_at-insert :
    (k x : String) (n : ℤ) (m : List (String × ℤ))
    → int_at x (insert k n m) ≡ (if k =ₛ x then n else int_at x m)
int_at-insert k x n m = rw (lookup-insert k x n m) (ground arith)

-- What the maps hold: the degree of every name, and how often one name stands in the list of another.
pub record Counted (d : String → ℕ) (c : String → String → ℕ) (l : Links) : Type 0 where
  pub degree : (x : String) → int_at x l.in_degree ≡ pos (d x)
  pub edges : (v x : String) → count x (list_at v l.adj) ≡ c v x

pub Counted-congr :
    {d e : String → ℕ} {c f : String → String → ℕ} {l : Links}
    → ((x : String) → d x ≡ e x)
    → ((v x : String) → c v x ≡ f v x)
    → Counted d c l
    → Counted e f l
Counted-congr p q h = record {
  degree = λ x. h.degree x ∙ ap pos (p x);
  edges = λ v x. h.edges v x ∙ q v x;
}

abbrev pub when : Bool → ℕ → ℕ
when b n = if b then n else 0

pos_suc : (n : ℕ) → pos n +ℤ pos 1 ≡ pos (n + 1)
unfolding ◌+ℤ◌
pos_suc n = ground arith

list_at-insert :
    (k v : String) (xs : List String) (m : List (String × List String))
    → list_at v (insert k xs m) ≡ (if k =ₛ v then xs else list_at v m)
list_at-insert k v xs m = rw (lookup-insert k v xs m) (ground arith)

add_link_lem :
    (id dep : String) (d : String → ℕ) (c : String → String → ℕ) (l : Links)
    → Counted d c l
    → Counted
        (λ x. d x + when (id =ₛ x) 1)
        (λ v x. c v x + when (id =ₛ x) (when (dep =ₛ v) 1))
        (add_link id dep l)
add_link_lem id dep d c l h = record {
  degree = λ x.
      int_at-insert id x (int_at id l.in_degree +ℤ pos 1) l.in_degree
      ∙ elim (Bool-cases (id =ₛ x)) [
        | inl e ↦ rw (e, h.degree id, pos_suc (d id), =ₛ_eq id x e) refl
        | inr e ↦ rw (e, h.degree x) (ap pos (omega arith))
      ];
  edges = λ v x.
      ap (count x) (list_at-insert dep v (list_at dep l.adj ++ (id ∷ [])) l.adj)
      ∙ elim (Bool-cases (dep =ₛ v)) [
        | inl e ↦
            rw (e, count-append x (list_at dep l.adj) (id ∷ []), h.edges dep x, =ₛ_eq dep v e)
              (omega arith)
        | inr e ↦ rw (e, h.edges v x) (ground arith)
      ];
}

-- The two ends of the loop over the dependencies of one node.
abbrev pub Unknown : Nodes → List String → String → Type 0
Unknown all deps dep = (has dep deps ≡ true) × (is_some (lookup dep all) ≡ false)

abbrev pub Known : Nodes → List String → Type 0
Known all deps = (dep : String) → has dep deps ≡ true → is_some (lookup dep all) ≡ true

pub record LinkedNode (all : Nodes) (id : String) (deps : List String) (d : String → ℕ)
    (c : String → String → ℕ) (l : Links) : Type 0 where
  pub after : Links
  pub done : link all id deps l ≡ linked after
  pub known : Known all deps
  pub counted :
      Counted
        (λ x. d x + when (id =ₛ x) (length deps))
        (λ v x. c v x + when (id =ₛ x) (count v deps))
        after
  pub same_keys : keys after.in_degree ≡ keys l.in_degree

pub link_lem :
    (all : Nodes) (id : String) (deps : List String) (d : String → ℕ) (c : String → String → ℕ)
    (l : Links)
    → Counted d c l
    → has id (keys l.in_degree) ≡ true
    → LinkedNode all id deps d c l
      ⊎ ((dep : String) × Unknown all deps dep × (link all id deps l ≡ unlinked id dep))
unfolding link has
link_lem all id [] d c l h k = inl (record {
  after = l;
  done = refl;
  known = λ dep m. absurd (cc);
  counted = Counted-congr (λ x. ground arith) (λ v x. ground arith) h;
  same_keys = refl;
})
link_lem all id (dep ∷ deps) d c l h k = elim (Bool-cases (is_some (lookup dep all))) [
  | inr e ↦ inr (dep, (rw (=ₛ_refl dep) refl, e), rw e refl)
  | inl e ↦
      let same : keys (add_link id dep l).in_degree ≡ keys l.in_degree =
        keys-insert id (int_at id l.in_degree +ℤ pos 1) l.in_degree k in
      let rest =
        link_lem all id deps _ _ (add_link id dep l) (add_link_lem id dep d c l h) (rw same k) in
      elim rest [
        | inl r ↦ inl (record {
          after = r.after;
          done = rw e r.done;
          known = λ x m. known_step x e r.known m;
          counted = Counted-congr (λ x. ground arith) (λ v x. ground arith) r.counted;
          same_keys = r.same_keys ∙ same;
        })
        | inr (x, u, f) ↦ inr (x, (later x u.0, u.1), rw e f)
      ]
]
  where
    known_step :
        (x : String)
        → is_some (lookup dep all) ≡ true
        → Known all deps
        → ((dep =ₛ x) || has x deps) ≡ true
        → is_some (lookup x all) ≡ true
    known_step x e r m = elim (Bool-cases (dep =ₛ x)) [
      | inl same ↦ subst (λ y. is_some (lookup y all) ≡ true) (=ₛ_eq dep x same) e
      | inr apart ↦ r x (rw apart at m)
    ]

    later : (x : String) → has x deps ≡ true → ((dep =ₛ x) || has x deps) ≡ true
    later x m = ground (arith, m)
