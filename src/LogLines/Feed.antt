-- ===== src/LogLines/Feed.antt =====
-- `Write` against a writer that takes one byte at a time
-- (backend/internal/service/logbroadcast.go).
use cooker.Prelude.{
  ℕ, zero, suc, ◌<◌, Bool, true, false, none, some, List, [], ◌∷◌, ◌++◌, length, length-append, All,
  ◌≡◌, ◌⊎◌, inl, inr, refl, sym, ap, ◌∙◌, arith, ◌==◌, Bool-cases, if◌then◌else◌,
}
use cooker.LogLines.{
  newline, LogEntry, LineWriter, is_inert, cut, emit, keep_tail, write_loop, write,
}

-- No newline.
abbrev pub IsPlain : List ℕ → Type 0
IsPlain = All (λ b. (b == newline) ≡ false)

-- The numbers go on from `n`, and no line has a newline.
abbrev pub Lines : ℕ → List LogEntry → Type 0
Lines n [] = Unit
Lines n (e ∷ es) = (e.seq ≡ suc n) × IsPlain e.line × Lines (suc n) es

-- The text of entries, each line with its newline.
abbrev pub text_of : List LogEntry → List ℕ
text_of [] = []
text_of (e ∷ es) = e.line ++ (newline ∷ text_of es)

cut-lem :
    (bs : List ℕ)
    → ((cut bs ≡ none) × IsPlain bs)
      ⊎ ((line rest : List ℕ) × (cut bs ≡ some (line, rest))
          × (bs ≡ line ++ (newline ∷ rest))
          × IsPlain line)
unfolding cut
cut-lem [] = inl (refl, tt)
cut-lem (b ∷ bs) = elim (Bool-cases (b == newline)) [
  | inl e ↦ inr ([], bs, rw e refl, ap (λ c. c ∷ bs) (ground (arith, e)), tt)
  | inr e ↦ elim (cut-lem bs) [
    | inl (n, p) ↦ inl (rw (e, n) refl, (e, p))
    | inr (line, rest, c, q, p) ↦ inr (b ∷ line, rest, rw (e, c) refl, ap (λ s. b ∷ s) q, (e, p))
  ]
]

pub nil_right : (xs : List ℕ) → xs ++ [] ≡ xs
nil_right [] = refl
nil_right (x ∷ xs) = ap (λ s. x ∷ s) (nil_right xs)

pub assoc : (xs ys zs : List ℕ) → (xs ++ ys) ++ zs ≡ xs ++ (ys ++ zs)
assoc [] ys zs = refl
assoc (x ∷ xs) ys zs = ap (λ s. x ∷ s) (assoc xs ys zs)

module _ (clock : ℕ → ℕ) where
  -- One byte.
  abbrev pub take_byte : ℕ → LineWriter → LineWriter
  take_byte b w =
      if b == newline
      then record (emit clock w.partial w) { partial = [] }
      else record w { partial = w.partial ++ (b ∷ []) }

  abbrev pub feed : List ℕ → LineWriter → LineWriter
  feed [] w = w
  feed (b ∷ bs) w = feed bs (take_byte b w)

  pub feed-append : (a b : List ℕ) (w : LineWriter) → feed (a ++ b) w ≡ feed b (feed a w)
  feed-append [] b w = refl
  feed-append (x ∷ a) b w = feed-append a b (take_byte x w)

  with_partial : LineWriter → List ℕ → LineWriter
  with_partial w p = record w { partial = p }

  feed-plain :
      (l p : List ℕ) (w : LineWriter)
      → IsPlain l
      → feed l (with_partial w p) ≡ with_partial w (p ++ l)
  unfolding with_partial
  feed-plain [] p w h = ap (with_partial w) (sym (nil_right p))
  feed-plain (b ∷ l) p w h =
      rw h.0 (feed-plain l (p ++ (b ∷ [])) w h.1 ∙ ap (with_partial w) (assoc p (b ∷ []) l))

  keep-feed :
      (bs : List ℕ) (w : LineWriter) → keep_tail clock bs (with_partial w []) ≡ with_partial w bs
  unfolding with_partial
  keep-feed [] w = refl
  keep-feed (b ∷ bs) w = refl

  feed-line :
      (line rest : List ℕ) (w : LineWriter)
      → IsPlain line
      → feed (line ++ (newline ∷ rest)) (with_partial w [])
        ≡ feed rest (with_partial (emit clock line w) [])
  unfolding with_partial
  feed-line line rest w p =
      feed-append line (newline ∷ rest) (with_partial w [])
      ∙ ap (feed (newline ∷ rest)) (feed-plain line [] w p)

  shorter :
      (line rest bs : List ℕ) (n : ℕ)
      → bs ≡ line ++ (newline ∷ rest)
      → length bs < suc n
      → length rest < n
  shorter line rest bs n q lt =
      let e = ap length q in let s = length-append line (newline ∷ rest) in omega (arith, e, s, lt)

  -- The loop takes the bytes as a writer does that gets them one at a time.
  write_loop-feed :
      (n : ℕ) (bs : List ℕ) (w : LineWriter)
      → length bs < n
      → write_loop clock n bs (with_partial w []) ≡ some (feed bs (with_partial w []))
  unfolding write_loop with_partial
  write_loop-feed zero bs w lt = absurd (omega arith)
  write_loop-feed (suc n) bs w lt = elim (cut-lem bs) [
    | inl (c, p) ↦ rw (write_loop, c, keep-feed bs w) (ap some (sym (feed-plain bs [] w p)))
    | inr (line, rest, c, q, p) ↦
        rw (write_loop, c)
          (write_loop-feed n rest (emit clock line w) (shorter line rest bs n q lt)
            ∙ ap some (sym (ap (λ s. feed s (with_partial w [])) q ∙ feed-line line rest w p)))
  ]

  -- A write gives its length, and leaves the writer as the bytes one at a time do.
  pub write-feed :
      (p : List ℕ) (w : LineWriter)
      → is_inert w ≡ false
      → IsPlain w.partial
      → write clock p w ≡ some (length p, feed p w)
  unfolding write with_partial
  write-feed [] w active plain = refl
  write-feed (b ∷ bs) w active plain =
      rw
        (
          active,
          write_loop-feed (suc (length (w.partial ++ (b ∷ bs)))) (w.partial ++ (b ∷ bs)) w
              (omega arith),
        )
        (ap (λ v. some (length (b ∷ bs), v))
          (feed-append w.partial (b ∷ bs) (with_partial w [])
            ∙ ap (feed (b ∷ bs)) (feed-plain w.partial [] w plain)))

  -- Whether entries go anywhere does not change.
  pub feed-is_inert : (bs : List ℕ) (w : LineWriter) → is_inert (feed bs w) ≡ is_inert w
  feed-is_inert [] w = refl
  feed-is_inert (b ∷ bs) w = feed-is_inert bs (take_byte b w) ∙ same (b == newline)
    where
      same :
          (t : Bool)
          → is_inert (
              if t
              then record (emit clock w.partial w) { partial = [] }
              else record w { partial = w.partial ++ (b ∷ []) })
            ≡ is_inert w
      same true = refl
      same false = refl
