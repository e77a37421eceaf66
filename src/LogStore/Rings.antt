-- ===== src/LogStore/Rings.antt =====
-- One stream of the log store (backend/internal/logstore/memory.go).
use cooker.Prelude.{
  ℕ, ◌+◌, ◌≤◌, false, List, [], ◌∷◌, ◌++◌, length, ◌≡◌, ◌⊎◌, inl, inr, refl, ap, subst, ◌∙◌, arith,
  Bool-cases,
}
use cooker.Prelude.Int.{ℤ, pos, ◌+ℤ◌, ◌-ℤ◌, ltb_ℤ}
use cooker.LogLines.{LogEntry}
use cooker.LogStore.{Stream, drop_oldest, grown}

-- The bytes of the lines of entries.
abbrev pub size_of : List LogEntry → ℕ
size_of [] = 0
size_of (e ∷ es) = length e.line + size_of es

size_of-append : (a b : List LogEntry) → size_of (a ++ b) ≡ size_of a + size_of b
size_of-append [] b = omega arith
size_of-append (e ∷ a) b = omega (arith, size_of-append a b)

-- The counter is right, and the cap is kept but for a single line.
pub record IsKept (cap : ℕ) (s : Stream) : Type 0 where
  pub counted : s.bytes ≡ pos (size_of s.entries)
  pub capped : (size_of s.entries ≤ cap) ⊎ (length s.entries ≡ 1)

-- The newest entries: a list's end.
pub record IsTail (all kept : List LogEntry) : Type 0 where
  pub gone : List LogEntry
  pub split : all ≡ gone ++ kept

last_of : LogEntry → List LogEntry → LogEntry
last_of e [] = e
last_of e (f ∷ es) = last_of f es

minus : (a b : ℕ) → pos (a + b) -ℤ pos a ≡ pos b
unfolding ◌-ℤ◌
minus a b = ground arith

plus : (a b : ℕ) → pos a +ℤ pos b ≡ pos (a + b)
unfolding ◌+ℤ◌
plus a b = ground arith

-- What the loop that drops entries leaves of entries that are not empty.
pub record Dropped (cap : ℕ) (all : List LogEntry) (s : Stream) : Type 0 where
  pub kept : IsKept cap s
  pub tail : IsTail all s.entries
  pub some_left : 1 ≤ length s.entries

drop_oldest-Dropped :
    (cap : ℕ) (bytes : ℤ) (e : LogEntry) (es : List LogEntry)
    → bytes ≡ pos (size_of (e ∷ es))
    → Dropped cap (e ∷ es) (drop_oldest (pos cap) bytes (e ∷ es))
unfolding drop_oldest
drop_oldest-Dropped cap bytes e [] h = record {
  kept = record { counted = h; capped = inr refl };
  tail = record { gone = []; split = refl };
  some_left = omega arith;
}
drop_oldest-Dropped cap bytes e (f ∷ es) h = elim (Bool-cases (ltb_ℤ (pos cap) bytes)) [
  | inl over ↦
      let rest : (bytes -ℤ pos (length e.line)) ≡ pos (size_of (f ∷ es)) =
        ap (λ b. b -ℤ pos (length e.line)) h ∙ minus (length e.line) (size_of (f ∷ es)) in
      let r = drop_oldest-Dropped cap (bytes -ℤ pos (length e.line)) f es rest in
      rw over (record {
        kept = r.kept;
        tail = record { gone = e ∷ r.tail.gone; split = ap (λ x. e ∷ x) r.tail.split };
        some_left = r.some_left;
      })
  | inr under ↦ rw under (record {
    kept = record {
      counted = h;
      capped = inl (fits (subst (λ b. ltb_ℤ (pos cap) b ≡ false) h under));
    };
    tail = record { gone = []; split = refl };
    some_left = omega arith;
  })
]
  where
    fits : ltb_ℤ (pos cap) (pos (size_of (e ∷ f ∷ es))) ≡ false → size_of (e ∷ f ∷ es) ≤ cap
    fits u = ground (arith, u)

-- A stream with one more entry keeps the counter right and the cap, and holds the newest of its
-- entries, the new one among them.
pub grown-Dropped :
    (cap : ℕ) (e : LogEntry) (s : Stream)
    → s.bytes ≡ pos (size_of s.entries)
    → Dropped cap (s.entries ++ (e ∷ [])) (grown (pos cap) e s)
grown-Dropped cap e s h = by_entries s.entries refl
  where
    total :
        (es : List LogEntry)
        → s.entries ≡ es
        → (s.bytes +ℤ pos (length e.line)) ≡ pos (size_of (es ++ (e ∷ [])))
    total es q =
        ap (λ b. b +ℤ pos (length e.line)) (h ∙ ap (λ x. pos (size_of x)) q)
        ∙ plus (size_of es) (length e.line)
        ∙ ap pos (let a = size_of-append es (e ∷ []) in omega (arith, a))

    by_entries :
        (es : List LogEntry)
        → s.entries ≡ es
        → Dropped cap
            (es ++ (e ∷ []))
            (drop_oldest (pos cap) (s.bytes +ℤ pos (length e.line)) (es ++ (e ∷ [])))
    by_entries [] q = drop_oldest-Dropped cap (s.bytes +ℤ pos (length e.line)) e [] (total [] q)
    by_entries (f ∷ fs) q =
        drop_oldest-Dropped cap (s.bytes +ℤ pos (length e.line)) f (fs ++ (e ∷ []))
          (total (f ∷ fs) q)
