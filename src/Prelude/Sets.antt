-- ===== src/Prelude/Sets.antt =====
-- Sets of texts, Go's `map[string]bool`, as lists.

use cooker.Prelude.Text.{◌=ₛ◌, eq_=ₛ}
use cooker.Prelude.Lists.{In}
use Prim.Native.String.{String}
use mathlib.Core.Path.{◌≡◌}
use mathlib.Core.Logic.{inl, inr}
use mathlib.Core.Bool.{Bool, true, false, ◌||◌}
use mathlib.Core.List.{List, [], ◌∷◌}
use native.Mathlib.Omega.{arith}
use text.Mathlib.TextEquality.{eq_iff}

unfoldable pub has : String → List String → Bool
has x [] = false
has x (y ∷ ys) = (y =ₛ x) || has x ys

pub has-In : (x : String) (ys : List String) → has x ys ≡ true → In x ys
unfolding has
has-In x [] h = absurd (cc)
has-In x (y ∷ ys) h = ground (arith, eq_iff y x, has-In x ys)

pub In-has : (x : String) (ys : List String) → In x ys → has x ys ≡ true
unfolding has
In-has x [] m = absurd m
In-has x (y ∷ ys) (inl e) = rw (eq_=ₛ y x e)
In-has x (y ∷ ys) (inr m) = ground (arith, In-has x ys m)
