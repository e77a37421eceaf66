-- ===== src/Idempotency/Drift.antt =====
-- An entry that is overwritten and evicted by the same `Set` (idempotency.go).
use cooker.Prelude.{
  ℕ, suc, ◌+◌, ◌-◌, ◌≤◌, ◌<◌, String, Bool, true, false, ◌&&◌, some, [], ◌∷◌, ◌≡◌, refl, ap, ◌∙◌,
  arith, ltb, ◌=ₛ◌, =ₛ_refl,
}
use cooker.Prelude.Int.{ℤ, pos, ◌-ℤ◌, ◌+ℤ◌, ltb_ℤ}
use cooker.Prelude.Dict.{lookup, insert, delete}
use cooker.Prelude.Dict.Measure.{total}
use text.Mathlib.TextEquality.{eq_iff}
use cooker.Idempotency.{
  Entry, MemEntry, Memory, oldest, has_entries, size, evict_one, evict_until, make_room, set,
  new_memory_bounded,
}
use cooker.Idempotency.Eviction.{used, sub_pos}
use cooker.Idempotency.Accounts.{add_pos, is_over}

module _ (len : String → ℕ) (n : ℕ) (target : ℤ) (m : Memory) where
  abbrev goes_on : Bool
  goes_on = ltb_ℤ target m.bytes && has_entries m.entries

  evict_go :
      (next : Memory)
      → goes_on ≡ true
      → evict_one len m ≡ next
      → evict_until len (suc n) target m ≡ evict_until len n target next
  unfolding evict_until
  evict_go next again e = rw (again, e) refl

  evict_end : goes_on ≡ false → evict_until len (suc n) target m ≡ some m
  unfolding evict_until
  evict_end stop = rw stop

module _ (len : String → ℕ) (k x : String) (a b : MemEntry) (cap : ℕ) (named : (k =ₛ "") ≡ false)
    (apart : (k =ₛ x) ≡ false) (other : (x =ₛ k) ≡ false) (later : a.expires ≤ b.expires) where
  abbrev pub two : ℤ → Memory
  two bytes = record { entries = (k, a) ∷ (x, b) ∷ []; max_bytes = pos cap; bytes = bytes }

  oldest_two : oldest "" 0 ((k, a) ∷ (x, b) ∷ []) ≡ k
  unfolding oldest
  oldest_two = let order : ltb b.expires a.expires ≡ false = ground arith in rw (named, order) refl

  evict_two :
      (n : ℕ)
      → evict_one len (two (pos n))
        ≡ record { entries = (x, b) ∷ []; max_bytes = pos cap; bytes = pos n -ℤ pos (size len k a) }
  unfolding evict_one delete lookup
  evict_two n = rw (oldest_two, =ₛ_refl k, other) refl

  abbrev rest_of : ℤ → Memory
  rest_of bytes = record { entries = (x, b) ∷ []; max_bytes = pos cap; bytes = bytes }

  evict_once :
      (t n : ℕ)
      → t < n
      → size len k a ≤ n
      → n - size len k a ≤ t
      → evict_until len 3 (pos t) (two (pos n)) ≡ some (rest_of (pos (n - size len k a)))
  evict_once t n lt le enough =
      let again : (ltb (t + 0) (n + 0) && true) ≡ true = ground arith in
      let stop : (ltb (t + 0) (n - size len k a + 0) && true) ≡ false = ground arith in
      evict_go len 2 (pos t) (two (pos n)) (rest_of (pos (n - size len k a))) again
        (evict_two n ∙ ap rest_of (sub_pos n (size len k a) le))
      ∙ evict_end len 1 (pos t) (rest_of (pos (n - size len k a))) stop

  room_once :
      (v : MemEntry)
      → 0 < cap
      → size len k a ≤ size len x b
      → size len k v ≤ cap
      → cap < size len x b + size len k v
      → size len x b + size len k v ≤ cap + size len k a
      → make_room len k v (two (pos (size len x b)))
        ≡ some (rest_of (pos (size len x b - size len k a)))
  room_once v pc le fits over small =
      let test =
        is_over (pos (size len x b)) (pos cap) cap (size len x b) (size len k v) refl refl in
      let full : (ltb 0 cap && ltb cap (size len x b + size len k v)) ≡ true = ground arith in
      rw (test, full, sub_pos cap (size len k v) fits)
        (evict_once (cap - size len k v) (size len x b) (omega arith) le (omega arith))

  credit : pos (size len k a + size len x b) -ℤ pos (size len k a) ≡ pos (size len x b)
  credit = sub_pos (size len k a + size len x b) (size len k a) (omega arith) ∙ ap pos (omega arith)

  -- `Set` of the entry that expires first, in a cache with one other entry that must make room.
  set_again :
      (now ttl : ℕ) (e : Entry)
      → let v : MemEntry = record { e = e; expires = now + ttl } in
        0 < cap
        → size len k a ≤ size len x b
        → size len k v ≤ cap
        → cap < size len x b + size len k v
        → size len x b + size len k v ≤ cap + size len k a
        → (after : Memory) × (set len now k e ttl (two (pos (size len k a + size len x b)))
            ≡ some after)
          × (after.bytes ≡ pos (size len x b - size len k a + size len k v))
          × (used len after ≡ size len x b + size len k v)
  unfolding set lookup insert
  set_again now ttl e pc le fits over small =
      let v : MemEntry = record { e = e; expires = now + ttl } in
      let room = rest_of (pos (size len x b - size len k a)) in
      (
        record room { entries = insert k v room.entries; bytes = room.bytes +ℤ pos (size len k v) },
        rw (=ₛ_refl k, credit, room_once v pc le fits over small) refl,
        add_pos (size len x b - size len k a) (size len k v),
        rw other (omega arith),
      )

module _ (len : String → ℕ) (cap : ℕ) (k : String) where
  -- The cache after `Set` of a first entry.
  abbrev one : MemEntry → Memory
  one a = record { entries = (k, a) ∷ []; max_bytes = pos cap; bytes = pos (size len k a) }

  set_first :
      (now ttl : ℕ) (e : Entry)
      → let a : MemEntry = record { e = e; expires = now + ttl } in
        size len k a ≤ cap → set len now k e ttl (new_memory_bounded (pos cap)) ≡ some (one a)
  unfolding set lookup insert new_memory_bounded
  set_first now ttl e le =
      let a : MemEntry = record { e = e; expires = now + ttl } in
      let test = is_over (pos 0) (pos cap) cap 0 (size len k a) refl refl in
      let under : (ltb 0 cap && ltb cap (0 + size len k a)) ≡ false = ground arith in
      rw (test, under)
        (ap (λ n. some (record (one a) { bytes = n }))
          (add_pos 0 (size len k a) ∙ ap pos (omega arith)))

  set_second :
      (x : String) (a : MemEntry) (now ttl : ℕ) (e : Entry)
      → let b : MemEntry = record { e = e; expires = now + ttl } in
        (k =ₛ x) ≡ false
        → size len k a + size len x b ≤ cap
        → set len now x e ttl (one a)
          ≡ some (record (one a) {
            entries = (k, a) ∷ (x, b) ∷ [];
            bytes = pos (size len k a + size len x b);
          })
  unfolding set lookup insert
  set_second x a now ttl e apart le =
      let b : MemEntry = record { e = e; expires = now + ttl } in
      let test =
        is_over (pos (size len k a)) (pos cap) cap (size len k a) (size len x b) refl refl in
      let under : (ltb 0 cap && ltb cap (size len k a + size len x b)) ≡ false = ground arith in
      rw (apart, test, under, apart)
        (ap (λ n. some (record (one a) { entries = (k, a) ∷ (x, b) ∷ []; bytes = n }))
          (add_pos (size len k a) (size len x b)))

-- Into a new cache two entries are put with one time to live, the first no later than the second;
-- their keys differ, the first key is not empty, the first entry takes a byte at least and no more
-- than the second, and both together fit the cap. Then the first is overwritten with an entry that
-- fits the cap alone, but exceeds it together with the second, by no more than the size of the
-- first. The counter is right before. Set takes the size of the first off it twice, once as the old
-- entry and once as the evicted one: the cache then holds more than its cap, and the counter is
-- below what it holds.
pub set_drifts :
    (len : String → ℕ) (cap : ℕ) (k x : String) (first second third : Entry) (t1 t2 t3 ttl : ℕ)
    → let a : MemEntry = record { e = first; expires = t1 + ttl } in
      let b : MemEntry = record { e = second; expires = t2 + ttl } in
      let v : MemEntry = record { e = third; expires = t3 + ttl } in
      (k =ₛ "") ≡ false
      → (k =ₛ x) ≡ false
      → t1 ≤ t2
      → 1 ≤ size len k a
      → size len k a ≤ size len x b
      → size len k a + size len x b ≤ cap
      → size len k v ≤ cap
      → cap < size len x b + size len k v
      → size len x b + size len k v ≤ cap + size len k a
      → (one two after : Memory) × (set len t1 k first ttl (new_memory_bounded (pos cap))
          ≡ some one)
        × (set len t2 x second ttl one ≡ some two)
        × (two.bytes ≡ pos (used len two))
        × (set len t3 k third ttl two ≡ some after)
        × (cap < used len after)
        × (n : ℕ) × (after.bytes ≡ pos n)
        × (n < used len after)
set_drifts len cap k x first second third t1 t2 t3 ttl named apart le some_size small both fits over
      short =
    let a : MemEntry = record { e = first; expires = t1 + ttl } in
    let b : MemEntry = record { e = second; expires = t2 + ttl } in
    let v : MemEntry = record { e = third; expires = t3 + ttl } in
    let other : (x =ₛ k) ≡ false = ground (arith, eq_iff x k, eq_iff k x) in
    let later : (t1 + ttl) ≤ (t2 + ttl) = omega (arith, le) in
    let (after, done, counter, total) =
      set_again len k x a b cap named apart other later t3 ttl third (omega arith) small fits over
        short in
    (
      one len cap k a,
      two len k x a b cap named apart other later (pos (size len k a + size len x b)),
      after,
      set_first len cap k t1 ttl first (omega arith),
      set_second len cap k x a t2 ttl second apart both,
      ap pos (omega arith),
      done,
      omega (arith, total),
      size len x b - size len k a + size len k v,
      counter,
      omega (arith, total),
    )
