-- ===== src/Prelude/Dict.antt =====
-- Go's maps with string keys. A map is an association list, in which the order of the pairs is
-- the order in which a `range` loop meets them: Go leaves that order open, and so do statements
-- about every list. A key is entered once; `Keyed` says so.
pub mod Measure
pub mod Entries
use cooker.Prelude.Tests.{if◌then◌else◌}
use cooker.Prelude.Text.{◌=ₛ◌}
use cooker.Prelude.Lists.{length}
use Prim.Native.String.{String}
use Prim.Native.Nat.{ℕ}
use mathlib.Core.Path.{◌≡◌, refl}
use mathlib.Core.Bool.{Bool, true, false}
use mathlib.Core.Option.{Option, none, some}
use mathlib.Core.List.{List, [], ◌∷◌}
use native.Mathlib.Omega.{arith}
use text.Mathlib.TextEquality.{eq_iff}

abbrev Pairs {ℓ} : Type ℓ → Type ℓ
Pairs V = List (String × V)

module _ {ℓ} {V : Type ℓ} where
  unfoldable pub lookup : (sought : String) → Pairs V → Option V
  lookup sought [] = none
  lookup sought ((key, held) ∷ rest) = if key =ₛ sought then some held else lookup sought rest

  -- Removes every pair of the key: `delete(m, k)`.
  unfoldable pub delete : (gone : String) → Pairs V → Pairs V
  delete gone [] = []
  delete gone ((key, held) ∷ rest) =
      let others = delete gone rest in if key =ₛ gone then others else (key, held) ∷ others

  -- Writes over the pair of the key, or adds one at the end: `m[k] = v`.
  unfoldable pub insert : (at : String) → V → Pairs V → Pairs V
  insert at new [] = (at, new) ∷ []
  insert at new ((key, held) ∷ rest) =
      if key =ₛ at then (at, new) ∷ rest else (key, held) ∷ insert at new rest

  pub lookup-delete :
      (gone sought : String) (d : Pairs V)
      → lookup sought (delete gone d) ≡ (if gone =ₛ sought then none else lookup sought d)
  unfolding lookup delete
  lookup-delete gone sought [] = ground arith
  lookup-delete gone sought ((key, held) ∷ rest) = ground (
    arith,
    eq_iff key gone,
    eq_iff key sought,
    eq_iff gone sought,
    lookup-delete gone sought rest,
  )

  pub lookup-insert :
      (at sought : String) (new : V) (d : Pairs V)
      → lookup sought (insert at new d) ≡ (if at =ₛ sought then some new else lookup sought d)
  unfolding lookup insert
  lookup-insert at sought new [] = ground arith
  lookup-insert at sought new ((key, held) ∷ rest) =
      ground (
        arith,
        eq_iff key at,
        eq_iff key sought,
        eq_iff at sought,
        lookup-insert at sought new rest,
      )

  -- No key occurs twice.
  abbrev pub Keyed : Pairs V → Type ℓ
  Keyed [] = Unit
  Keyed ((key, held) ∷ rest) = (lookup key rest ≡ none) × Keyed rest

  pub insert-Keyed : (at : String) (new : V) (d : Pairs V) → Keyed d → Keyed (insert at new d)
  unfolding insert lookup
  insert-Keyed at new [] keyed = (refl, tt)
  insert-Keyed at new ((key, held) ∷ rest) keyed = ground (
    arith,
    eq_iff key at,
    lookup-insert at key new rest,
    insert-Keyed at new rest keyed.1,
    eq_iff at key,
  )

  pub delete-Keyed : (gone : String) (d : Pairs V) → Keyed d → Keyed (delete gone d)
  unfolding delete
  delete-Keyed gone [] keyed = tt
  delete-Keyed gone ((key, held) ∷ rest) keyed =
      ground (arith, eq_iff key gone, lookup-delete gone key rest, delete-Keyed gone rest keyed.1)
