-- ===== src/Dag/Passes.antt =====
-- The rounds of `TopologicalSort` (backend/pkg/dagrunner/dag.go): one edge, one node.
use cooker.Prelude.{
  ℕ, ◌+◌, String, true, false, ◌&&◌, List, [], ◌∷◌, ◌++◌, ◌≡◌, inl, inr, refl, ap, ◌∙◌, arith, ◌=ₛ◌,
  =ₛ_eq, =ₛ_refl, Bool-cases, leb, ◌==◌, if◌then◌else◌, count, count-append,
}
use cooker.Prelude.Int.{pos, ◌-ℤ◌}
use cooker.Dag.{int_at, is_zero, Pass, lower, relax}
use cooker.Dag.Linking.{int_at-insert, when}

pos_pred : (n : ℕ) → pos (n + 1) -ℤ pos 1 ≡ pos n
unfolding ◌-ℤ◌
pos_pred n = ground arith

-- The degrees, as numbers, and the queue by counts.
pub record Settled (d q : String → ℕ) (visited : ℕ) (p : Pass) : Type 0 where
  pub degree : (x : String) → int_at x p.degrees ≡ pos (d x)
  pub queued : (x : String) → count x p.next_queue ≡ q x
  pub counter : p.visited ≡ visited

lower_lem :
    (n : String) (d q : String → ℕ) (visited : ℕ) (p : Pass)
    → Settled (λ x. d x + when (n =ₛ x) 1) q visited p
    → Settled d (λ x. q x + when (n =ₛ x) (when (d x == 0) 1)) visited (lower n p)
lower_lem n d q visited p h =
    let low : int_at n p.degrees -ℤ pos 1 ≡ pos (d n) =
      ap (λ z. z -ℤ pos 1) (h.degree n ∙ rw (=ₛ_refl n) refl) ∙ pos_pred (d n) in
    record {
      degree = λ x.
          int_at-insert n x (int_at n p.degrees -ℤ pos 1) p.degrees ∙ elim (Bool-cases (n =ₛ x)) [
            | inl e ↦ rw (e, low, =ₛ_eq n x e) refl
            | inr e ↦ rw (e, h.degree x, e) (ap pos (omega arith))
          ];
      queued = λ x.
          ap (λ z. count x (if is_zero z then p.next_queue ++ (n ∷ []) else p.next_queue)) low
          ∙ elim (Bool-cases (d n == 0)) [
            | inl e ↦ rw e (count-append x p.next_queue (n ∷ []) ∙ rw (h.queued x) (first x e))
            | inr e ↦ rw e (h.queued x ∙ later x e)
          ];
      counter = h.counter;
    }
  where
    first :
        (x : String)
        → (d n == 0) ≡ true
        → q x + ((if n =ₛ x then 1 else 0) + 0) ≡ q x + when (n =ₛ x) (when (d x == 0) 1)
    first x e = elim (Bool-cases (n =ₛ x)) [
      | inl s ↦ rw (s, ← ap d (=ₛ_eq n x s), e) refl
      | inr s ↦ rw s refl
    ]

    later : (x : String) → (d n == 0) ≡ false → q x ≡ q x + when (n =ₛ x) (when (d x == 0) 1)
    later x e = elim (Bool-cases (n =ₛ x)) [
      | inl s ↦ rw (s, ← ap d (=ₛ_eq n x s), e) (omega arith)
      | inr s ↦ rw s (omega arith)
    ]

Settled-congr :
    {d e q r : String → ℕ} {n : ℕ} {p : Pass}
    → ((x : String) → d x ≡ e x)
    → ((x : String) → q x ≡ r x)
    → Settled d q n p
    → Settled e r n p
Settled-congr f g h = record {
  degree = λ x. h.degree x ∙ ap pos (f x);
  queued = λ x. h.queued x ∙ g x;
  counter = h.counter;
}

-- What the edges to the names of a list free.
abbrev pub freed : List String → (String → ℕ) → String → ℕ
freed ns d x = when (leb 1 (count x ns) && (d x == 0)) 1

pub relax_lem :
    (ns : List String) (d q : String → ℕ) (visited : ℕ) (p : Pass)
    → Settled (λ x. d x + count x ns) q visited p
    → Settled d (λ x. q x + freed ns d x) visited (relax ns p)
unfolding relax
relax_lem [] d q visited p h = Settled-congr (λ x. omega arith) (λ x. omega arith) h
relax_lem (n ∷ ns) d q visited p h =
    let one =
      lower_lem n (λ x. d x + count x ns) q visited p
        (Settled-congr (λ x. ground arith) (λ x. refl) h) in
    Settled-congr (λ x. refl) (λ x. ground arith) (relax_lem ns d _ visited (lower n p) one)
