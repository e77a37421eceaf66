-- ===== src/LogLines.antt =====
-- The writer that cuts a stage's output into log lines
-- (backend/internal/service/logbroadcast.go). Output is a list of bytes. What `emit` hands to the
-- store and to the broadcaster is kept in the writer; the time of an entry comes from a clock.
pub mod Feed
pub mod Roundtrip
pub mod Tests
use cooker.Prelude.{
  ℕ, zero, suc, Bool, true, false, ◌||◌, not, Option, none, some, List, [], ◌∷◌, ◌++◌, length, ◌==◌,
  if◌then◌else◌,
}

abbrev pub newline : ℕ
newline = 10

-- `logstore.Entry`.
pub record LogEntry : Type 0 where
  pub seq : ℕ
  pub ts : ℕ
  pub line : List ℕ

-- `lineWriter`: whether there is a broadcaster and a store, and the entries emitted so far.
pub record LineWriter : Type 0 where
  pub broadcast : Bool
  pub store : Bool
  pub seq : ℕ
  pub partial : List ℕ
  pub emitted : List LogEntry

-- `newLineWriter`.
abbrev pub new_line_writer : Bool → Bool → LineWriter
new_line_writer broadcast store = record {
  broadcast = broadcast;
  store = store;
  seq = 0;
  partial = [];
  emitted = [];
}

-- Neither the store nor the broadcaster would see an entry.
abbrev pub is_inert : LineWriter → Bool
is_inert w = not (w.broadcast || w.store)

abbrev cut_more : ℕ → Option (List ℕ × List ℕ) → Option (List ℕ × List ℕ)
cut_more b none = none
cut_more b (some (line, rest)) = some (b ∷ line, rest)

-- `bytes.IndexByte` at a newline: what stands before the first one and what stands after it.
unfoldable pub cut : List ℕ → Option (List ℕ × List ℕ)
cut [] = none
cut (b ∷ bs) = let more = cut bs in if b == newline then some ([], bs) else cut_more b more

module _ (clock : ℕ → ℕ) where
  abbrev pub emit : List ℕ → LineWriter → LineWriter
  emit line w = record w {
    seq = suc w.seq;
    emitted = w.emitted ++ ((record { seq = suc w.seq; ts = clock (suc w.seq); line = line }) ∷ []);
  }

  -- What is left after the last newline.
  abbrev pub keep_tail : List ℕ → LineWriter → LineWriter
  keep_tail [] w = w
  keep_tail (b ∷ bs) w = record w { partial = b ∷ bs }

  -- The loop of `Write`; none when the rounds given are too few.
  unfoldable pub write_loop : ℕ → List ℕ → LineWriter → Option LineWriter
  write_loop zero combined w = none
  write_loop (suc rounds) combined w = elim (cut combined) [
    | none ↦ some (keep_tail combined w)
    | some (line, rest) ↦ write_loop rounds rest (emit line w)
  ]

  abbrev with_count : ℕ → Option LineWriter → Option (ℕ × LineWriter)
  with_count n none = none
  with_count n (some w) = some (n, w)

  -- `Write`: the count that it returns, and the writer.
  unfoldable pub write : List ℕ → LineWriter → Option (ℕ × LineWriter)
  write [] w = some (0, w)
  write (b ∷ bs) w =
      let p = b ∷ bs in
      let combined = w.partial ++ p in
      if is_inert w
      then some (length p, w)
      else with_count (length p)
          (write_loop (suc (length combined)) combined (record w { partial = [] }))

  -- `flush`.
  abbrev pub flush_rest : List ℕ → LineWriter → LineWriter
  flush_rest [] w = w
  flush_rest (b ∷ bs) w = record (emit (b ∷ bs) w) { partial = [] }

  unfoldable pub flush : LineWriter → LineWriter
  flush w = if is_inert w then w else flush_rest w.partial w

  -- Several writes, one after the other.
  unfoldable pub write_all : List (List ℕ) → LineWriter → Option LineWriter
  write_all [] w = some w
  write_all (p ∷ ps) w = elim (write p w) [ none ↦ none | some (n, next) ↦ write_all ps next ]

  abbrev with_counts : ℕ → Option (List ℕ) → Option (List ℕ)
  with_counts n none = none
  with_counts n (some ns) = some (n ∷ ns)

  -- The counts that these writes return.
  unfoldable pub write_counts : List (List ℕ) → LineWriter → Option (List ℕ)
  write_counts [] w = some []
  write_counts (p ∷ ps) w = elim (write p w) [
    | none ↦ none
    | some (n, next) ↦ with_counts n (write_counts ps next)
  ]
