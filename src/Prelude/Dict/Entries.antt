-- ===== src/Prelude/Dict/Entries.antt =====
-- A predicate on every pair of a map.
use cooker.Prelude.Tests.{Bool-cases}
use cooker.Prelude.Text.{◌=ₛ◌, =ₛ_eq, =ₛ_refl}
use cooker.Prelude.Lists.{In}
use cooker.Prelude.Dict.{lookup, insert, delete, Keyed}
use Prim.Native.String.{String}
use mathlib.Core.Path.{◌≡◌, ap}
use mathlib.Core.Bool.{true}
use mathlib.Core.Logic.{inl, inr}
use mathlib.Core.Option.{some}
use mathlib.Core.List.{List, [], ◌∷◌}
use native.Mathlib.Omega.{arith}
use text.Mathlib.TextEquality.{eq_iff}

module _ {ℓ κ} {V : Type ℓ} (P : String → V → Type κ) where
  abbrev pub Entries : List (String × V) → Type κ
  Entries [] = Unit
  Entries ((k, v) ∷ m) = P k v × Entries m

  pub Entries-insert :
      (k : String) (v : V) (m : List (String × V)) → P k v → Entries m → Entries (insert k v m)
  unfolding insert
  Entries-insert k v [] p h = (p, tt)
  Entries-insert k v ((i, x) ∷ m) p h = elim (Bool-cases (i =ₛ k)) [
    | inl e ↦ rw e (p, h.1)
    | inr e ↦ rw e (h.0, Entries-insert k v m p h.1)
  ]

  pub Entries-delete : (k : String) (m : List (String × V)) → Entries m → Entries (delete k m)
  unfolding delete
  Entries-delete k [] h = tt
  Entries-delete k ((i, x) ∷ m) h = elim (Bool-cases (i =ₛ k)) [
    | inl e ↦ rw e (Entries-delete k m h.1)
    | inr e ↦ rw e (h.0, Entries-delete k m h.1)
  ]

  pub Entries-lookup :
      (k : String) {v : V} (m : List (String × V)) → Entries m → lookup k m ≡ some v → P k v
  unfolding lookup
  Entries-lookup k [] h e = cc
  Entries-lookup k {v} ((i, x) ∷ m) h e = elim (Bool-cases (i =ₛ k)) [
    | inl t ↦ first t (rw t at e)
    | inr t ↦ Entries-lookup k m h.1 (rw t at e)
  ]
    where
      first : (i =ₛ k) ≡ true → some x ≡ some v → P k v
      first t q = let same : x ≡ v = cc in rw (← same, ← =ₛ_eq i k t) h.0

module _ {V : Type 0} where
  -- In a keyed map a pair that stands in the list is what its key looks up.
  pub lookup_of_In :
      (k : String) (v : V) (m : List (String × V)) → Keyed m → In (k, v) m → lookup k m ≡ some v
  unfolding lookup
  lookup_of_In k v [] h i = absurd i
  lookup_of_In k v ((j, w) ∷ m) h (inl e) =
      let same_key : j ≡ k = ap (λ p. p.0) e in
      let same : w ≡ v = ap (λ p. p.1) e in rw (same_key, same, =ₛ_refl k)
  lookup_of_In k v ((j, w) ∷ m) h (inr i) = ground (arith, eq_iff j k, lookup_of_In k v m h.1 i)

  -- What a key looks up stands in the list.
  pub In-lookup : (k : String) (v : V) (m : List (String × V)) → lookup k m ≡ some v → In (k, v) m
  unfolding lookup
  In-lookup k v [] e = absurd (cc)
  In-lookup k v ((j, w) ∷ m) e = elim (Bool-cases (j =ₛ k)) [
    | inl t ↦ inl (first (=ₛ_eq j k t) (rw t at e))
    | inr t ↦ inr (In-lookup k v m (rw t at e))
  ]
    where
      first : j ≡ k → some w ≡ some v → ◌≡◌ {A = String × V} (j, w) (k, v)
      first q r = let same : w ≡ v = cc in rw (q, same)
