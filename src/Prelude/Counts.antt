-- ===== src/Prelude/Counts.antt =====
-- How often a text stands in a list, and what follows for lengths.
use cooker.Prelude.Tests.{Bool-cases, if◌then◌else◌}
use cooker.Prelude.Text.{◌=ₛ◌, =ₛ_eq, =ₛ_refl}
use cooker.Prelude.Lists.{length}
use cooker.Prelude.Sets.{has}
use Prim.Native.String.{String}
use Prim.Native.Nat.{ℕ, ◌+◌, ◌≤◌, ◌<◌}
use mathlib.Core.Path.{◌≡◌, refl, subst}
use mathlib.Core.Logic.{◌⊎◌, inl, inr}
use mathlib.Core.Bool.{true, false}
use mathlib.Core.List.{List, [], ◌∷◌, ◌++◌}
use native.Mathlib.Omega.{arith}

abbrev pub count : String → List String → ℕ
count s [] = 0
count s (x ∷ xs) = (if x =ₛ s then 1 else 0) + count s xs

pub count-append : (s : String) (xs ys : List String) → count s (xs ++ ys) ≡ count s xs + count s ys
count-append s [] ys = omega arith
count-append s (x ∷ xs) ys = omega (arith, count-append s xs ys)

pub count-eq-zero : (s : String) (xs : List String) → has s xs ≡ false → count s xs ≡ 0
unfolding has
count-eq-zero s [] h = refl
count-eq-zero s (x ∷ xs) h = ground (arith, count-eq-zero s xs)

pub one-le-count : (s : String) (xs : List String) → has s xs ≡ true → 1 ≤ count s xs
unfolding has
one-le-count s [] h = absurd (cc)
one-le-count s (x ∷ xs) h = ground (arith, one-le-count s xs)

plain : {n : ℕ} → 1 ≤ 0 + n → 1 ≤ n
plain h = omega arith

-- One occurrence less.
remove : String → List String → List String
remove s [] = []
remove s (x ∷ xs) = let rest = remove s xs in if x =ₛ s then xs else x ∷ rest

count-remove :
    (s t : String) (xs : List String)
    → 1 ≤ count s xs
    → count t (remove s xs) + (if s =ₛ t then 1 else 0) ≡ count t xs
unfolding remove
count-remove s t [] h = absurd (omega arith)
count-remove s t (x ∷ xs) h = elim (Bool-cases (x =ₛ s)) [
  | inl hit ↦ rw (hit, =ₛ_eq x s hit) (omega arith)
  | inr miss ↦
      rw miss (
        let more : 1 ≤ count s xs = plain (rw miss at h) in omega (arith, count-remove s t xs more))
]

length-remove :
    (s : String) (xs : List String) → 1 ≤ count s xs → length (remove s xs) + 1 ≡ length xs
unfolding remove
length-remove s [] h = absurd (omega arith)
length-remove s (x ∷ xs) h = elim (Bool-cases (x =ₛ s)) [
  | inl hit ↦ rw hit (omega arith)
  | inr miss ↦
      rw miss
        (let more : 1 ≤ count s xs = plain (rw miss at h) in omega (arith, length-remove s xs more))
]

-- A list whose texts all stand at least as often in another is no longer than that.
pub length-le_of_count :
    (xs ys : List String) → ((s : String) → count s xs ≤ count s ys) → length xs ≤ length ys
length-le_of_count [] ys h = omega arith
length-le_of_count (x ∷ xs) ys h =
    let one : 1 ≤ count x ys = let a = h x in let b = =ₛ_refl x in ground arith in
    let rest =
      length-le_of_count xs (remove x ys)
        (λ s. let a = h s in let b = count-remove x s ys one in omega (arith, a, b)) in
    omega (arith, rest, length-remove x ys one)

-- If they are equally long, each text stands in both equally often.
pub count-eq_of_length :
    (xs ys : List String)
    → ((s : String) → count s xs ≤ count s ys)
    → length ys ≤ length xs
    → (s : String) → count s ys ≤ count s xs
count-eq_of_length xs ys h le s = elim (below (count s xs) (count s ys)) [
  | inl small ↦ small
  | inr more ↦
      let longer = length-le_of_count (s ∷ xs) ys (λ t. elim (Bool-cases (s =ₛ t)) [
        | inl same ↦
            subst (λ u. count u (s ∷ xs) ≤ count u ys) (=ₛ_eq s t same)
              (rw (=ₛ_refl s) (omega (arith, more)))
        | inr apart ↦ rw apart (omega (arith, h t))
      ]) in
      absurd (omega (arith, longer))
]
  where
    below : (a b : ℕ) → (b ≤ a) ⊎ (a < b)
    below a b = ground arith
