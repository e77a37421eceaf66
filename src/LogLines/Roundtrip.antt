-- ===== src/LogLines/Roundtrip.antt =====
-- The lines that a stage's writer emits give back the bytes written to it
-- (backend/internal/service/logbroadcast.go).
use cooker.Prelude.{
  ℕ, suc, ◌+◌, Bool, true, false, ◌||◌, not, some, List, [], ◌∷◌, ◌++◌, length, length-append,
  All-append, ◌≡◌, inl, inr, refl, sym, ap, subst, ◌∙◌, arith, ◌==◌, Bool-cases, map,
}
use cooker.LogLines.{
  newline, LogEntry, LineWriter, new_line_writer, is_inert, emit, flush_rest, flush, write_all,
  write_counts,
}
use cooker.LogLines.Feed.{
  IsPlain, take_byte, feed, feed-append, write-feed, feed-is_inert, Lines, text_of, nil_right,
  assoc,
}

text_of-append : (a b : List LogEntry) → text_of (a ++ b) ≡ text_of a ++ text_of b
text_of-append [] b = refl
text_of-append (e ∷ a) b =
    ap (λ s. e.line ++ (newline ∷ s)) (text_of-append a b)
    ∙ sym (assoc e.line (newline ∷ text_of a) (text_of b))

Lines-append : (n : ℕ) (a b : List LogEntry) → Lines n a → Lines (n + length a) b → Lines n (a ++ b)
Lines-append n [] b h k = subst (λ m. Lines m b) (omega arith) k
Lines-append n (e ∷ a) b h k =
    (h.0, h.1, Lines-append (suc n) a b h.2 (subst (λ m. Lines m b) (omega arith) k))

-- The bytes that a writer has taken.
abbrev pub whole : LineWriter → List ℕ
whole w = text_of w.emitted ++ w.partial

pub record IsSound (w : LineWriter) : Type 0 where
  pub lines : Lines 0 w.emitted
  pub counted : w.seq ≡ length w.emitted
  pub plain : IsPlain w.partial

abbrev pub join : List (List ℕ) → List ℕ
join [] = []
join (p ∷ ps) = p ++ join ps

-- The newline after a partial line.
abbrev pub closing : List ℕ → List ℕ
closing [] = []
closing (b ∷ bs) = newline ∷ []

module _ (clock : ℕ → ℕ) where
  emit-Lines :
      (line : List ℕ) (w : LineWriter)
      → IsSound w
      → IsPlain line
      → Lines 0 (emit clock line w).emitted
  emit-Lines line w h p =
      Lines-append 0 w.emitted _ h.lines (ap suc (let c = h.counted in omega (arith, c)), p, tt)

  emit-counted :
      (line : List ℕ) (w : LineWriter)
      → IsSound w
      → (emit clock line w).seq ≡ length (emit clock line w).emitted
  emit-counted line w h =
      let c = h.counted in
      let s =
        length-append w.emitted
          ((record { seq = suc w.seq; ts = clock (suc w.seq); line = line }) ∷ []) in
      omega (arith, c, s)

  take_byte-IsSound : (b : ℕ) (w : LineWriter) → IsSound w → IsSound (take_byte clock b w)
  take_byte-IsSound b w h = elim (Bool-cases (b == newline)) [
    | inl e ↦ rw e (record {
      lines = emit-Lines w.partial w h h.plain;
      counted = emit-counted w.partial w h;
      plain = tt;
    })
    | inr e ↦ rw e (record {
      lines = h.lines;
      counted = h.counted;
      plain = All-append (λ c. (c == newline) ≡ false) w.partial (b ∷ []) h.plain (e, tt);
    })
  ]

  take_byte-whole : (b : ℕ) (w : LineWriter) → whole (take_byte clock b w) ≡ whole w ++ (b ∷ [])
  take_byte-whole b w = elim (Bool-cases (b == newline)) [
    | inl e ↦ rw e (
        nil_right (text_of (emit clock w.partial w).emitted)
        ∙ text_of-append w.emitted _
        ∙ sym (assoc (text_of w.emitted) w.partial (newline ∷ []))
        ∙ ap (λ c. whole w ++ (c ∷ [])) (let q : newline ≡ b = ground (arith, e) in q))
    | inr e ↦ rw e (sym (assoc (text_of w.emitted) w.partial (b ∷ [])))
  ]

  feed-IsSound : (bs : List ℕ) (w : LineWriter) → IsSound w → IsSound (feed clock bs w)
  feed-IsSound [] w h = h
  feed-IsSound (b ∷ bs) w h = feed-IsSound bs (take_byte clock b w) (take_byte-IsSound b w h)

  feed-whole : (bs : List ℕ) (w : LineWriter) → whole (feed clock bs w) ≡ whole w ++ bs
  feed-whole [] w = sym (nil_right (whole w))
  feed-whole (b ∷ bs) w =
      feed-whole bs (take_byte clock b w)
      ∙ ap (λ s. s ++ bs) (take_byte-whole b w)
      ∙ assoc (whole w) (b ∷ []) bs

  write_all-feed :
      (ps : List (List ℕ)) (w : LineWriter)
      → is_inert w ≡ false
      → IsSound w
      → write_all clock ps w ≡ some (feed clock (join ps) w)
  unfolding write_all
  write_all-feed [] w active h = refl
  write_all-feed (p ∷ ps) w active h =
      rw (write_all, write-feed clock p w active h.plain)
        (write_all-feed ps (feed clock p w) (feed-is_inert clock p w ∙ active) (feed-IsSound p w h)
          ∙ ap some (sym (feed-append clock p (join ps) w)))

  counts-lengths :
      (ps : List (List ℕ)) (w : LineWriter)
      → is_inert w ≡ false
      → IsSound w
      → write_counts clock ps w ≡ some (map length ps)
  unfolding write_counts
  counts-lengths [] w active h = refl
  counts-lengths (p ∷ ps) w active h =
      let next = feed clock p w in
      let rest = counts-lengths ps next (feed-is_inert clock p w ∙ active) (feed-IsSound p w h) in
      rw (write_counts, write-feed clock p w active h.plain, rest) refl

  -- What the writer holds after the writes `ps` and a flush.
  pub record Recovered (ps : List (List ℕ)) (w : LineWriter) : Type 0 where
    pub lines : Lines 0 w.emitted
    pub text : text_of w.emitted ++ w.partial ≡ join ps
    pub tail : IsPlain w.partial
    pub flushed : (flush clock w).partial ≡ []
    pub flushed_text : text_of (flush clock w).emitted ≡ join ps ++ closing w.partial

  flush_rest-partial :
      (r : List ℕ) (w : LineWriter) → w.partial ≡ r → (flush_rest clock r w).partial ≡ []
  flush_rest-partial [] w e = e
  flush_rest-partial (b ∷ bs) w e = refl

  flush_rest-text :
      (r : List ℕ) (w : LineWriter)
      → text_of (flush_rest clock r w).emitted ≡ (text_of w.emitted ++ r) ++ closing r
  flush_rest-text [] w = sym (nil_right (text_of w.emitted ++ []) ∙ nil_right (text_of w.emitted))
  flush_rest-text (b ∷ bs) w =
      text_of-append w.emitted _ ∙ sym (assoc (text_of w.emitted) (b ∷ bs) (newline ∷ []))

  -- A new writer with a store or a broadcaster takes any writes, each with its full length as
  -- the count returned. The lines that it emits, numbered from 1 and free of newlines, each followed by a
  -- newline, and the partial line kept back give the bytes written; after a flush, the lines alone
  -- give them, with a newline added when there was a partial line.
  pub write_all-Recovered :
      (broadcast store : Bool) (ps : List (List ℕ))
      → (broadcast || store) ≡ true
      → (w : LineWriter) × (write_all clock ps (new_line_writer broadcast store) ≡ some w)
        × (write_counts clock ps (new_line_writer broadcast store) ≡ some (map length ps))
        × Recovered ps w
  unfolding flush
  write_all-Recovered broadcast store ps some_leg =
      let new = new_line_writer broadcast store in
      let active : is_inert new ≡ false = ap not some_leg in
      let sound : IsSound new = record { lines = tt; counted = refl; plain = tt } in
      let w = feed clock (join ps) new in
      let after = feed-IsSound (join ps) new sound in
      let still : is_inert w ≡ false = feed-is_inert clock (join ps) new ∙ active in
      (
        w,
        write_all-feed ps new active sound,
        counts-lengths ps new active sound,
        record {
          lines = after.lines;
          text = feed-whole (join ps) new;
          tail = after.plain;
          flushed = rw still (flush_rest-partial w.partial w refl);
          flushed_text = rw still (
              flush_rest-text w.partial w
              ∙ ap (λ s. s ++ closing w.partial) (feed-whole (join ps) new));
        },
      )

  -- How the output is cut into writes makes no difference: two sequences of writes with the same
  -- bytes leave a new writer with a store or a broadcaster in the same state.
  pub write_all-chunks :
      (broadcast store : Bool) (ps qs : List (List ℕ))
      → (broadcast || store) ≡ true
      → join ps ≡ join qs
      → write_all clock ps (new_line_writer broadcast store)
        ≡ write_all clock qs (new_line_writer broadcast store)
  write_all-chunks broadcast store ps qs some_leg same =
      let new = new_line_writer broadcast store in
      let active : is_inert new ≡ false = ap not some_leg in
      let sound : IsSound new = record { lines = tt; counted = refl; plain = tt } in
      write_all-feed ps new active sound
      ∙ ap (λ s. some (feed clock s new)) same
      ∙ sym (write_all-feed qs new active sound)
