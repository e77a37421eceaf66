-- ===== src/Prelude/Text.antt =====
-- Equality of texts as a test, and its laws.
use Prim.Native.String.{String}
use mathlib.Core.Path.{◌≡◌, refl}
use mathlib.Core.Logic.{◌≢◌}
use mathlib.Core.Bool.{Bool, true, false}
use text.Mathlib.Text.{◌==◌}
use text.Mathlib.TextEquality.{eq_iff}

infix 50 ◌=ₛ◌
abbrev pub ◌=ₛ◌ : String → String → Bool
s =ₛ t = s == t

pub =ₛ_eq : (s t : String) → (s =ₛ t) ≡ true → s ≡ t
=ₛ_eq s t h = (eq_iff s t).0 h

pub eq_=ₛ : (s t : String) → s ≡ t → (s =ₛ t) ≡ true
eq_=ₛ s t h = (eq_iff s t).1 h

pub =ₛ_refl : (s : String) → (s =ₛ s) ≡ true
=ₛ_refl s = eq_=ₛ s s refl

pub ne_=ₛ : {s t : String} → (s =ₛ t) ≡ false → s ≢ t
ne_=ₛ {s} {t} h e = let hit = eq_=ₛ s t e in cc
