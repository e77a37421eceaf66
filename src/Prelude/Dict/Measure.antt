-- ===== src/Prelude/Dict/Measure.antt =====
-- A weight summed over the pairs of a map, and how writes and deletions change it.
use cooker.Prelude.Tests.{Bool-cases}
use cooker.Prelude.Text.{◌=ₛ◌, =ₛ_eq}
use cooker.Prelude.Dict.{lookup, insert, delete, Keyed}
use Prim.Native.String.{String}
use Prim.Native.Nat.{ℕ, ◌+◌, ◌≤◌}
use mathlib.Core.Path.{◌≡◌, refl}
use mathlib.Core.Logic.{inl, inr}
use mathlib.Core.Option.{Option, none, some}
use mathlib.Core.List.{List, [], ◌∷◌}
use native.Mathlib.Omega.{arith}

module _ {ℓ} {V : Type ℓ} where
  abbrev pub total : (String → V → ℕ) → List (String × V) → ℕ
  total w [] = 0
  total w ((k, v) ∷ m) = w k v + total w m

  abbrev pub held : (String → V → ℕ) → String → Option V → ℕ
  held w k none = 0
  held w k (some v) = w k v

  pub total-insert :
      (w : String → V → ℕ) (k : String) (v : V) (m : List (String × V))
      → total w (insert k v m) + held w k (lookup k m) ≡ total w m + w k v
  unfolding insert lookup
  total-insert w k v [] = omega arith
  total-insert w k v ((i, x) ∷ m) = elim (Bool-cases (i =ₛ k)) [
    | inl e ↦ rw (e, =ₛ_eq i k e) (omega arith)
    | inr e ↦ rw e (omega (arith, total-insert w k v m))
  ]

  pub total-delete_absent :
      (w : String → V → ℕ) (k : String) (m : List (String × V))
      → lookup k m ≡ none
      → total w (delete k m) ≡ total w m
  unfolding delete lookup
  total-delete_absent w k [] h = refl
  total-delete_absent w k ((i, x) ∷ m) h = ground (arith, total-delete_absent w k m)

  pub total-delete :
      (w : String → V → ℕ) (k : String) (m : List (String × V))
      → Keyed m
      → total w (delete k m) + held w k (lookup k m) ≡ total w m
  unfolding delete lookup
  total-delete w k [] h = omega arith
  total-delete w k ((i, x) ∷ m) h = elim (Bool-cases (i =ₛ k)) [
    | inl e ↦
        rw (e, =ₛ_eq i k e) (omega (arith, total-delete_absent w k m (rw (=ₛ_eq i k e) at h.0)))
    | inr e ↦ rw e (omega (arith, total-delete w k m h.1))
  ]

  -- A present key's weight is part of the total.
  pub held-le-total :
      (w : String → V → ℕ) (k : String) (m : List (String × V)) → held w k (lookup k m) ≤ total w m
  unfolding lookup
  held-le-total w k [] = omega arith
  held-le-total w k ((i, x) ∷ m) = elim (Bool-cases (i =ₛ k)) [
    | inl e ↦ rw (e, =ₛ_eq i k e) (omega arith)
    | inr e ↦ rw e (omega (arith, held-le-total w k m))
  ]
