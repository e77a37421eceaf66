-- ===== src/LogStore/Streams.antt =====
-- The streams of the log store (backend/internal/logstore/memory.go).
use cooker.Prelude.{
  ℕ, ◌+◌, ◌≤◌, String, Bool, true, false, Option, none, some, List, [], ◌∷◌, ◌++◌, length, ◌≡◌, ◌⊎◌,
  inl, inr, refl, sym, ap, subst, ◌∙◌, arith, ◌=ₛ◌, =ₛ_eq, =ₛ_refl, Bool-cases, some_inj,
  some-ne-none, if◌then◌else◌, count, count-append, length-le_of_count,
}
use cooker.Prelude.Int.{ℤ, pos, ltb_ℤ}
use cooker.Prelude.Dict.{
  lookup, insert, delete, lookup-insert, lookup-delete, insert-Keyed, delete-Keyed, Keyed,
}
use cooker.LogLines.{LogEntry}
use cooker.LogStore.{Stream, LogMemory, without, evict_streams, stream_or_new, grown, append}
use cooker.LogStore.Rings.{IsKept, Dropped, size_of, grown-Dropped}
use cooker.Dag.{keys, is_some}
use cooker.Dag.Linking.{count-keys}
use cooker.Dag.Rounds.{length-keys}
use text.Mathlib.TextEquality.{eq_iff}

-- The list of recency holds the key of each stream, once.
pub record InSync (lru : List String) (streams : List (String × Stream)) : Type 0 where
  pub keyed : Keyed streams
  pub listed : (k : String) → count k lru ≡ (if is_some (lookup k streams) then 1 else 0)

length-lru :
    (lru : List String) (streams : List (String × Stream))
    → InSync lru streams
    → length streams ≡ length lru
length-lru lru streams h =
    let same = λ (k : String). h.listed k ∙ sym (count-keys k streams h.keyed) in
    let a = length-le_of_count lru (keys streams) (λ k. let s = same k in omega (arith, s)) in
    let b = length-le_of_count (keys streams) lru (λ k. let s = same k in omega (arith, s)) in
    omega (arith, a, b, length-keys streams)

-- What the loop that drops streams leaves, `key` being the newest.
record Evicted (n : ℕ) (key : String) (streams : List (String × Stream)) (after : LogMemory)
    : Type 0 where
  sync : InSync after.lru after.streams
  few : length after.streams ≤ n
  newest : lookup key after.streams ≡ lookup key streams
  others :
      (k : String) → (lookup k after.streams ≡ lookup k streams) ⊎ (lookup k after.streams ≡ none)

sync-delete :
    (oldest key : String) (front : List String) (streams : List (String × Stream))
    → InSync (oldest ∷ front ++ (key ∷ [])) streams
    → InSync (front ++ (key ∷ [])) (delete oldest streams) × ((oldest =ₛ key) ≡ false)
sync-delete oldest key front streams h = (
  record {
    keyed = delete-Keyed oldest streams h.keyed;
    listed = λ k. rw (lookup-delete oldest k streams) (elim (Bool-cases (oldest =ₛ k)) [
      | inl e ↦
          let c = h.listed k in rw e (one_less (is_some (lookup k streams)) _ (sym c ∙ rw e refl))
      | inr e ↦
          let listed = h.listed k in
          let c : 0 + count k (front ++ (key ∷ []))
              ≡ (if is_some (lookup k streams) then 1 else 0) =
            rw e at listed in
          rw e (omega (arith, c))
    ]);
  },
  apart,
)
  where
    one_less : (b : Bool) (n : ℕ) → (if b then 1 else 0) ≡ 1 + n → n ≡ 0
    one_less true n e = omega (arith, e)
    one_less false n e = omega (arith, e)

    apart : (oldest =ₛ key) ≡ false
    apart =
        let c = h.listed key in
        let a = count-append key front (key ∷ []) in let s = =ₛ_refl key in ground (arith, c, a, s)

evict-Evicted :
    (n : ℕ) (key : String) (front : List String) (streams : List (String × Stream)) (m : LogMemory)
    → 1 ≤ n
    → InSync (front ++ (key ∷ [])) streams
    → Evicted n key streams (evict_streams (pos n) (front ++ (key ∷ [])) streams m)
unfolding evict_streams
evict-Evicted n key [] streams m le h =
    let one = length-lru (key ∷ []) streams h in
    let stop : ltb_ℤ (pos n) (pos (length streams)) ≡ false = ground (arith, one, le) in
    rw stop
      (record { sync = h; few = omega (arith, one, le); newest = refl; others = λ k. inl refl })
evict-Evicted n key (oldest ∷ front) streams m le h =
    elim (Bool-cases (ltb_ℤ (pos n) (pos (length streams)))) [
      | inl over ↦
          let (next, apart) = sync-delete oldest key front streams h in
          let r = evict-Evicted n key front (delete oldest streams) m le next in
          rw over (record {
            sync = r.sync;
            few = r.few;
            newest = r.newest ∙ lookup-delete oldest key streams ∙ rw apart refl;
            others = λ k. elim (r.others k) [
              | inr gone ↦ inr gone
              | inl same ↦ elim (Bool-cases (oldest =ₛ k)) [
                | inl e ↦ inr (same ∙ lookup-delete oldest k streams ∙ rw e refl)
                | inr e ↦ inl (same ∙ lookup-delete oldest k streams ∙ rw e refl)
              ]
            ];
          })
      | inr under ↦
          rw under (record {
            sync = h;
            few = ground (arith, under);
            newest = refl;
            others = λ k. inl refl;
          })
    ]

evict-caps :
    (n : ℤ) (lru : List String) (streams : List (String × Stream)) (m : LogMemory)
    → ((evict_streams n lru streams m).max_bytes_per_stage ≡ m.max_bytes_per_stage)
      × ((evict_streams n lru streams m).max_streams ≡ m.max_streams)
unfolding evict_streams
evict-caps n [] streams m = (refl, refl)
evict-caps n (oldest ∷ lru) streams m = elim (Bool-cases (ltb_ℤ n (pos (length streams)))) [
  | inl over ↦ rw over (evict-caps n lru (delete oldest streams) m)
  | inr under ↦ rw under (refl, refl)
]

count-without :
    (k key : String) (ks : List String)
    → count k (without key ks) ≡ (if key =ₛ k then 0 else count k ks)
unfolding without
count-without k key [] = ground arith
count-without k key (x ∷ xs) =
    let r = count-without k key xs in ground (arith, r, eq_iff x key, eq_iff key k, eq_iff x k)

sync-append :
    (key : String) (s : Stream) (lru : List String) (streams : List (String × Stream))
    → InSync lru streams
    → InSync (without key lru ++ (key ∷ [])) (insert key s streams)
sync-append key s lru streams h = record {
  keyed = insert-Keyed key s streams h.keyed;
  listed = λ k.
      count-append k (without key lru) (key ∷ [])
      ∙ (let w = count-without k key lru in
          let c = h.listed k in
          rw (lookup-insert key k s streams, w)
            (elim (Bool-cases (key =ₛ k)) [ inl e ↦ rw e refl | inr e ↦ rw e (omega (arith, c)) ]));
}

-- The store with caps above 0: its list of recency fits, there are no more streams than the cap, and
-- the counter of each stream is right.
pub record IsBounded (cap n : ℕ) (m : LogMemory) : Type 0 where
  pub bytes_cap : m.max_bytes_per_stage ≡ pos cap
  pub streams_cap : m.max_streams ≡ pos n
  pub sync : InSync m.lru m.streams
  pub few : length m.streams ≤ n
  pub kept : (k : String) (s : Stream) → lookup k m.streams ≡ some s → IsKept cap s

-- What `Append` leaves: the store is bounded, the stream of the key holds the newest of its entries
-- with the new one last, and each other stream is as it was or dropped.
pub record Appended (cap n : ℕ) (key : String) (e : LogEntry) (m after : LogMemory) : Type 0 where
  pub bounded : IsBounded cap n after
  pub own : Stream
  pub found : lookup key after.streams ≡ some own
  pub newest : Dropped cap ((stream_or_new (lookup key m.streams)).entries ++ (e ∷ [])) own
  pub others :
      (k : String)
      → (key =ₛ k) ≡ false
      → (lookup k after.streams ≡ lookup k m.streams) ⊎ (lookup k after.streams ≡ none)

-- Appending to a store with caps above 0 keeps it bounded: the counters are right, there are no more
-- streams than the cap, and no stream has more bytes than the cap but for a single line. The stream
-- appended to is not dropped and holds the newest of its entries, the new one at the end; each other
-- stream is as it was or dropped.
pub append-Appended :
    (cap n : ℕ) (key : String) (e : LogEntry) (m : LogMemory)
    → 1 ≤ n
    → IsBounded cap n m
    → Appended cap n key e m (append key e m)
unfolding append
append-Appended cap n key e m le h =
    let old = stream_or_new (lookup key m.streams) in
    let own = grown m.max_bytes_per_stage e old in
    let streams = insert key own m.streams in
    let v =
      evict-Evicted n key (without key m.lru) streams m le
        (sync-append key own m.lru m.streams h.sync) in
    let d : Dropped cap (old.entries ++ (e ∷ [])) own =
      subst (λ c. Dropped cap (old.entries ++ (e ∷ [])) (grown c e old)) (sym h.bytes_cap)
        (grown-Dropped cap e old (counted (lookup key m.streams) refl)) in
    let (bytes_same, streams_same) =
      evict-caps (pos n) (without key m.lru ++ (key ∷ [])) streams m in
    let found = v.newest ∙ lookup-insert key key own m.streams ∙ rw (=ₛ_refl key) refl in
    subst
      (λ c. Appended cap n key e m (evict_streams c (without key m.lru ++ (key ∷ [])) streams m))
      (sym h.streams_cap)
      (record {
        bounded = record {
          bytes_cap = bytes_same ∙ h.bytes_cap;
          streams_cap = streams_same ∙ h.streams_cap;
          sync = v.sync;
          few = v.few;
          kept = λ k s q. elim (Bool-cases (key =ₛ k)) [
            | inl t ↦
                let same : own ≡ s = some_inj (
                  sym found
                  ∙ ap
                      (λ i.
                        lookup i
                          (evict_streams (pos n) (without key m.lru ++ (key ∷ [])) streams
                            m).streams)
                      (=ₛ_eq key k t)
                  ∙ q) in
                subst (IsKept cap) same d.kept
            | inr t ↦ elim (v.others k) [
              | inl u ↦ h.kept k s (sym (lookup-insert key k own m.streams ∙ rw t refl) ∙ sym u ∙ q)
              | inr gone ↦ absurd (some-ne-none q gone)
            ]
          ];
        };
        own = own;
        found = found;
        newest = d;
        others = λ k t. elim (v.others k) [
          | inl u ↦ inl (u ∙ lookup-insert key k own m.streams ∙ rw t refl)
          | inr gone ↦ inr gone
        ];
      })
  where
    counted :
        (o : Option Stream)
        → lookup key m.streams ≡ o
        → (stream_or_new o).bytes ≡ pos (size_of (stream_or_new o).entries)
    counted none q = refl
    counted (some s) q = (h.kept key s q).counted
