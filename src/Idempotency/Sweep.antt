-- ===== src/Idempotency/Sweep.antt =====
-- The sweep of expired entries (idempotency.go, `gc`).
use cooker.Prelude.{
  ℕ, String, false, Option, none, some, List, [], ◌∷◌, ◌≡◌, ◌⊎◌, inl, inr, refl, ◌∙◌, subst,
  if◌then◌else◌, ltb, ◌=ₛ◌, =ₛ_eq, =ₛ_refl, Bool-cases, some_inj, some-ne-none,
}
use cooker.Prelude.Dict.{lookup, delete, lookup-delete, Keyed, delete-Keyed}
use cooker.Prelude.Int.{pos, ◌-ℤ◌}
use cooker.Idempotency.{MemEntry, Memory, size, sweep, gc}
use cooker.Idempotency.Eviction.{IsBalanced, release}

cons_hit :
    (k j : String) (v w : MemEntry) (d : List (String × MemEntry))
    → lookup k ((j, w) ∷ d) ≡ some v
    → ((j ≡ k) × (w ≡ v)) ⊎ (((j =ₛ k) ≡ false) × (lookup k d ≡ some v))
unfolding lookup
cons_hit k j v w d e = elim (Bool-cases (j =ₛ k)) [
  | inl hit ↦ inl (=ₛ_eq j k hit, some_inj (rw hit at e))
  | inr miss ↦ inr (miss, rw miss at e)
]

cons_miss :
    (k j : String) (w : MemEntry) (d : List (String × MemEntry))
    → lookup k ((j, w) ∷ d) ≡ none
    → ((j =ₛ k) ≡ false) × (lookup k d ≡ none)
unfolding lookup
cons_miss k j w d e = elim (Bool-cases (j =ₛ k)) [
  | inl hit ↦ absurd (let q = rw hit at e in cc)
  | inr miss ↦ (miss, rw miss at e)
]

cons_first :
    (j : String) (w : MemEntry) (d : List (String × MemEntry)) → lookup j ((j, w) ∷ d) ≡ some w
unfolding lookup
cons_first j w d = rw (=ₛ_refl j)

cons_later :
    (k j : String) (w : MemEntry) (d : List (String × MemEntry))
    → (j =ₛ k) ≡ false
    → lookup k ((j, w) ∷ d) ≡ lookup k d
unfolding lookup
cons_later k j w d e = rw e

-- An entry stays unless it has expired.
abbrev pub kept : ℕ → MemEntry → Option MemEntry
kept now v = if ltb v.expires now then none else some v

module _ (len : String → ℕ) (now : ℕ) where
  -- The pairs still to be visited are in the map.
  abbrev Within : List (String × MemEntry) → Memory → Type 0
  Within rest m = (k : String) (v : MemEntry) → lookup k rest ≡ some v → lookup k m.entries ≡ some v

  record Swept (rest : List (String × MemEntry)) (m after : Memory) : Type 0 where
    balanced : IsBalanced len after
    visited :
        (k : String) (v : MemEntry) → lookup k rest ≡ some v → lookup k after.entries ≡ kept now v
    untouched : (k : String) → lookup k rest ≡ none → lookup k after.entries ≡ lookup k m.entries

  abbrev dropped : String → MemEntry → Memory → Memory
  dropped j w m = record m { entries = delete j m.entries; bytes = m.bytes -ℤ pos (size len j w) }

  other_key :
      (k j : String) (v : MemEntry) (d : List (String × MemEntry))
      → lookup j d ≡ none
      → lookup k d ≡ some v
      → (j =ₛ k) ≡ false
  other_key k j v d a e = elim (Bool-cases (j =ₛ k)) [
    | inl hit ↦ absurd (some-ne-none e (subst (λ x. lookup x d ≡ none) (=ₛ_eq j k hit) a))
    | inr miss ↦ miss
  ]

  lookup-dropped :
      (k j : String) (w : MemEntry) (m : Memory)
      → (j =ₛ k) ≡ false
      → lookup k (dropped j w m).entries ≡ lookup k m.entries
  lookup-dropped k j w m e = rw (lookup-delete j k m.entries, e) refl

  gone : (j : String) (w : MemEntry) (m : Memory) → lookup j (dropped j w m).entries ≡ none
  gone j w m = rw (lookup-delete j j m.entries, =ₛ_refl j) refl

  -- One visit: `next` is the state after it.
  visit :
      (j : String) (w : MemEntry) (rest : List (String × MemEntry)) (m next after : Memory)
      → lookup j rest ≡ none
      → lookup j next.entries ≡ kept now w
      → ((k : String) → (j =ₛ k) ≡ false → lookup k next.entries ≡ lookup k m.entries)
      → Swept rest next after
      → Swept ((j, w) ∷ rest) m after
  visit j w rest m next after fresh here others s = record {
    balanced = s.balanced;
    visited = λ k v e. elim (cons_hit k j v w rest e) [
      | inl (same, is) ↦ rw (← same, ← is) (s.untouched j fresh ∙ here)
      | inr (miss, there) ↦ s.visited k v there
    ];
    untouched =
        λ k e. let (miss, there) = cons_miss k j w rest e in s.untouched k there ∙ others k miss;
  }

  sweep_lem :
      (rest : List (String × MemEntry)) (m : Memory)
      → Keyed rest
      → IsBalanced len m
      → Within rest m
      → Swept rest m (sweep len now rest m)
  unfolding sweep lookup
  sweep_lem [] m keyed h inside = record {
    balanced = h;
    visited = λ k v e. absurd (cc);
    untouched = λ k e. refl;
  }
  sweep_lem ((j, w) ∷ rest) m keyed h inside =
      let there = inside j w (cons_first j w rest) in
      let deeper : Within rest m =
        λ k v e. inside k v (cons_later k j w rest (other_key k j v rest keyed.0 e) ∙ e) in
      elim (Bool-cases (ltb w.expires now)) [
        | inl expired ↦ rw expired (
            visit j w rest m (dropped j w m) _ keyed.0 (rw expired (gone j w m))
              (λ k e. lookup-dropped k j w m e)
              (sweep_lem rest (dropped j w m) keyed.1
                (record {
                  keyed = delete-Keyed j m.entries h.keyed;
                  counted = release len m j w h there;
                })
                (λ k v e. lookup-dropped k j w m (other_key k j v rest keyed.0 e) ∙ deeper k v e)))
        | inr fine ↦ rw fine (
            visit j w rest m m _ keyed.0 (rw fine there) (λ k e. refl)
              (sweep_lem rest m keyed.1 h deeper))
      ]

  -- A sweep removes each entry that has expired and no other, and the counter still says how many
  -- bytes the entries take.
  pub gc_lem :
      (m : Memory)
      → IsBalanced len m
      → IsBalanced len (gc len now m)
        × ((k : String) (v : MemEntry)
            → lookup k m.entries ≡ some v
            → lookup k (gc len now m).entries ≡ kept now v)
  unfolding gc
  gc_lem m h = let s = sweep_lem m.entries m h.keyed h (λ k v e. e) in (s.balanced, s.visited)
