-- ===== src/LogStore/History.antt =====
-- What the log store gives of everything that was appended
-- (backend/internal/logstore/memory.go).
use cooker.Prelude.{
  ℕ, ◌≤◌, ◌<◌, String, Bool, true, false, Option, none, some, List, [], ◌∷◌, ◌++◌, length, ◌≡◌, ◌⊎◌,
  inl, inr, refl, sym, ap, subst, ◌∙◌, arith, ◌=ₛ◌, =ₛ_eq, =ₛ_refl, Bool-cases, ltb, if◌then◌else◌,
}
use cooker.Prelude.Int.{ℤ, pos, negsuc, ltb_ℤ}
use cooker.Prelude.Dict.{lookup}
use cooker.LogLines.{LogEntry}
use cooker.LogStore.{
  Stream, LogMemory, at_least_one, new_memory, append, after_seq, entries_of, stream_or_new, read,
}
use cooker.LogStore.Rings.{IsTail, IsKept, size_of}
use cooker.LogStore.Streams.{IsBounded, Appended, append-Appended}

-- The abstract log of a stream: everything appended to it, the newest append of the past first.
abbrev pub history : (key : String) → List (String × LogEntry) → List LogEntry
history key [] = []
history key ((k, e) ∷ past) =
    let before = history key past in if k =ₛ key then before ++ (e ∷ []) else before

-- The store after the appends of a past.
abbrev pub stored : (max_bytes max_streams : ℤ) → List (String × LogEntry) → LogMemory
stored max_bytes max_streams [] = new_memory max_bytes max_streams
stored max_bytes max_streams ((k, e) ∷ past) = append k e (stored max_bytes max_streams past)

assoc : (a b c : List LogEntry) → (a ++ b) ++ c ≡ a ++ (b ++ c)
assoc [] b c = refl
assoc (x ∷ a) b c = ap (λ s. x ∷ s) (assoc a b c)

nil_right : (a : List LogEntry) → a ++ [] ≡ a
nil_right [] = refl
nil_right (x ∷ a) = ap (λ s. x ∷ s) (nil_right a)

cap_of : (z : ℤ) → (n : ℕ) × (at_least_one z ≡ pos n) × (1 ≤ n)
cap_of (negsuc n) =
    (1, (let t : ltb_ℤ (negsuc n) (pos 1) ≡ true = ground arith in rw t refl), omega arith)
cap_of (pos n) = elim (Bool-cases (ltb_ℤ (pos n) (pos 1))) [
  | inl e ↦ (1, rw e refl, omega arith)
  | inr e ↦ (n, rw e refl, ground (arith, e))
]

entries-of_new : (o : Option Stream) → (stream_or_new o).entries ≡ entries_of o
entries-of_new none = refl
entries-of_new (some s) = refl

-- The store is bounded and holds the end of each stream's history.
pub record IsFaithful (cap n : ℕ) (past : List (String × LogEntry)) (m : LogMemory) : Type 0 where
  pub bounded : IsBounded cap n m
  pub tails : (key : String) → IsTail (history key past) (entries_of (lookup key m.streams))

start-IsFaithful :
    (max_bytes max_streams : ℤ) (cap n : ℕ)
    → at_least_one max_bytes ≡ pos cap
    → at_least_one max_streams ≡ pos n
    → IsFaithful cap n [] (new_memory max_bytes max_streams)
unfolding lookup
start-IsFaithful max_bytes max_streams cap n p q = record {
  bounded = record {
    bytes_cap = p;
    streams_cap = q;
    sync = record { keyed = tt; listed = λ k. refl };
    few = omega arith;
    kept = λ k s e. absurd (cc);
  };
  tails = λ key. record { gone = []; split = refl };
}

step-IsTail :
    (cap n : ℕ) (k : String) (e : LogEntry) (past : List (String × LogEntry)) (m after : LogMemory)
    → IsFaithful cap n past m
    → Appended cap n k e m after
    → (key : String) → IsTail (history key ((k, e) ∷ past)) (entries_of (lookup key after.streams))
step-IsTail cap n k e past m after h a key = elim (Bool-cases (k =ₛ key)) [
  | inl t ↦
      let same = =ₛ_eq k key t in
      let old = h.tails k in
      let own = a.newest.tail in
      subst (λ i. IsTail (history i ((k, e) ∷ past)) (entries_of (lookup i after.streams))) same
        (record {
          gone = old.gone ++ own.gone;
          split =
              rw (=ₛ_refl k, a.found)
                (ap (λ x. x ++ (e ∷ [])) old.split
                  ∙ assoc old.gone (entries_of (lookup k m.streams)) (e ∷ [])
                  ∙ ap (λ x. old.gone ++ (x ++ (e ∷ [])))
                      (sym (entries-of_new (lookup k m.streams)))
                  ∙ ap (λ x. old.gone ++ x) own.split
                  ∙ sym (assoc old.gone own.gone a.own.entries));
        })
  | inr t ↦
      let old = h.tails key in
      elim (a.others key t) [
        | inl same ↦ rw (t, same) old
        | inr none_left ↦
            rw (t, none_left)
              (record { gone = history key past; split = sym (nil_right (history key past)) })
      ]
]

stored-IsFaithful :
    (max_bytes max_streams : ℤ) (cap n : ℕ)
    → at_least_one max_bytes ≡ pos cap
    → at_least_one max_streams ≡ pos n
    → 1 ≤ n
    → (past : List (String × LogEntry)) → IsFaithful cap n past (stored max_bytes max_streams past)
stored-IsFaithful max_bytes max_streams cap n p q le [] =
    start-IsFaithful max_bytes max_streams cap n p q
stored-IsFaithful max_bytes max_streams cap n p q le ((k, e) ∷ past) =
    let h = stored-IsFaithful max_bytes max_streams cap n p q le past in
    let m = stored max_bytes max_streams past in
    let a = append-Appended cap n k e m le h.bounded in
    record { bounded = a.bounded; tails = step-IsTail cap n k e past m (append k e m) h a }

-- The newest append of a past is to the stream of a key.
abbrev pub is_newest : (key : String) → List (String × LogEntry) → Bool
is_newest key [] = false
is_newest key ((k, e) ∷ past) = k =ₛ key

-- The entries of a list whose number is above `since`, in their order.
pub data Above (since : ℕ) : (all chosen : List LogEntry) → Type 0 where
  end : Above since [] []
  take :
      (e : LogEntry) {all chosen : List LogEntry}
      → since < e.seq
      → Above since all chosen
      → Above since (e ∷ all) (e ∷ chosen)
  skip :
      (e : LogEntry) {all chosen : List LogEntry}
      → e.seq ≤ since
      → Above since all chosen
      → Above since (e ∷ all) chosen

after_seq-Above : (since : ℕ) (all : List LogEntry) → Above since all (after_seq since all)
unfolding after_seq
after_seq-Above since [] = end
after_seq-Above since (e ∷ all) =
    let rest = after_seq-Above since all in
    elim (Bool-cases (ltb since e.seq)) [
      | inl t ↦ rw t (take e (ground (arith, t)) rest)
      | inr t ↦ rw t (skip e (ground (arith, t)) rest)
    ]

-- What `Read` gives after a past: of an end of the stream's history, the entries with greater
-- numbers. The end is within the cap but for a single line, and has the newest append.
pub record IsReading (cap : ℕ) (past : List (String × LogEntry)) (key : String) (since : ℕ)
    (result : List LogEntry) : Type 0 where
  pub kept : List LogEntry
  pub tail : IsTail (history key past) kept
  pub above : Above since kept result
  pub capped : (size_of kept ≤ cap) ⊎ (length kept ≡ 1)
  pub newest : (is_newest key past ≡ false) ⊎ (1 ≤ length kept)

entries-capped :
    (cap : ℕ) (o : Option Stream)
    → ((s : Stream) → o ≡ some s → IsKept cap s)
    → (size_of (entries_of o) ≤ cap) ⊎ (length (entries_of o) ≡ 1)
entries-capped cap none h = inl (omega arith)
entries-capped cap (some s) h = (h s refl).capped

newest-stored :
    (max_bytes max_streams : ℤ) (cap n : ℕ)
    → at_least_one max_bytes ≡ pos cap
    → at_least_one max_streams ≡ pos n
    → 1 ≤ n
    → (past : List (String × LogEntry)) (key : String)
    → (is_newest key past ≡ false)
      ⊎ (1 ≤ length (entries_of (lookup key (stored max_bytes max_streams past).streams)))
newest-stored max_bytes max_streams cap n p q le [] key = inl refl
newest-stored max_bytes max_streams cap n p q le ((k, e) ∷ past) key =
    elim (Bool-cases (k =ₛ key)) [
      | inr f ↦ inl f
      | inl t ↦
          let m = stored max_bytes max_streams past in
          let h = stored-IsFaithful max_bytes max_streams cap n p q le past in
          let a = append-Appended cap n k e m le h.bounded in
          inr (
            subst (λ i. 1 ≤ length (entries_of (lookup i (append k e m).streams))) (=ₛ_eq k key t)
              (rw a.found a.newest.some_left))
    ]

-- After any sequence of appends to a new store with a cap of `cap` bytes per stream, Read gives the
-- entries with numbers above `since` of an end of all that was appended to the stream; that end is
-- within the cap or a single line, and is not empty when the newest append was to the stream.
pub read-IsReading :
    (max_bytes max_streams : ℤ) (cap : ℕ)
    → at_least_one max_bytes ≡ pos cap
    → (past : List (String × LogEntry)) (key : String) (since : ℕ)
    → IsReading cap past key since (read key since (stored max_bytes max_streams past))
unfolding read
read-IsReading max_bytes max_streams cap p past key since =
    let (n, q, le) = cap_of max_streams in
    let m = stored max_bytes max_streams past in
    let h = stored-IsFaithful max_bytes max_streams cap n p q le past in
    record {
      kept = entries_of (lookup key m.streams);
      tail = h.tails key;
      above = after_seq-Above since (entries_of (lookup key m.streams));
      capped = entries-capped cap (lookup key m.streams) (h.bounded.kept key);
      newest = newest-stored max_bytes max_streams cap n p q le past key;
    }
