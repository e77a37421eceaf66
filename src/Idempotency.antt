-- ===== src/Idempotency.antt =====
-- The cache of answers to repeated requests: backend/internal/idempotency/idempotency.go. An
-- instant counts nanoseconds since Go's zero Time. Each method holds `m.mu` and is one step;
-- `now` is its reading of the clock. `len` gives the number of bytes of a text.
pub mod Eviction
pub mod Accounts
pub mod Drift
pub mod Sweep
pub mod Tests
use cooker.Prelude.{
  ℕ, zero, suc, ◌+◌, String, Bool, true, false, ◌&&◌, ◌||◌, not, Option, none, some, List, [], ◌∷◌,
  ◌≡◌, if◌then◌else◌, ltb, ◌=ₛ◌,
}
use cooker.Prelude.Int.{ℤ, pos, ◌+ℤ◌, ◌-ℤ◌, ltb_ℤ}
use cooker.Prelude.Dict.{lookup, insert, delete}
use cooker.Prelude.Dict.Measure.{total}

pub record Entry : Type 0 where
  pub status : ℕ
  pub body : String

pub record MemEntry : Type 0 where
  pub e : Entry
  pub expires : ℕ

pub record Memory : Type 0 where
  pub entries : List (String × MemEntry)
  pub max_bytes : ℤ
  pub bytes : ℤ

unfoldable pub new_memory_bounded : ℤ → Memory
new_memory_bounded max_bytes = record { entries = []; max_bytes = max_bytes; bytes = pos 0 }

abbrev pub live : ℕ → Option MemEntry → Option Entry
live now none = none
live now (some v) = if ltb now v.expires then some v.e else none

unfoldable pub get : ℕ → String → Memory → Option Entry
get now key m = live now (lookup key m.entries)

-- The inner loop of `evictUntilLocked`: `key` and `exp` are `oldestKey` and `oldestExp`.
unfoldable pub oldest : String → ℕ → List (String × MemEntry) → String
oldest key exp [] = key
oldest key exp ((k, v) ∷ rest) =
    let older = key =ₛ "" || ltb v.expires exp in
    oldest (if older then k else key) (if older then v.expires else exp) rest

abbrev pub has_entries : List (String × MemEntry) → Bool
has_entries [] = false
has_entries (p ∷ ps) = true

-- The number of entries.
abbrev pub count : List (String × MemEntry) → ℕ
count = total (λ k v. 1)

module _ (len : String → ℕ) where
  abbrev pub size : String → MemEntry → ℕ
  size key v = len key + len v.e.body

  -- What a look-up in the map contributes; the zero entry has no body.
  abbrev pub size_found : String → Option MemEntry → ℕ
  size_found key none = len key
  size_found key (some v) = size key v

  -- The body of the outer loop.
  unfoldable pub evict_one : Memory → Memory
  unfolding oldest
  evict_one m =
      let key = oldest "" 0 m.entries in
      record m {
        entries = delete key m.entries;
        bytes = m.bytes -ℤ pos (size_found key (lookup key m.entries));
      }

  -- `evictUntilLocked` in at most the rounds given; `none` if they do not suffice.
  unfoldable pub evict_until : ℕ → ℤ → Memory → Option Memory
  unfolding evict_one
  evict_until zero target m = none
  evict_until (suc n) target m =
      let rest = evict_until n target (evict_one m) in
      if ltb_ℤ target m.bytes && has_entries m.entries then rest else some m

  abbrev pub credited : String → Option MemEntry → ℤ → ℤ
  credited key none bytes = bytes
  credited key (some old) bytes = bytes -ℤ pos (size key old)

  abbrev pub store_entry : String → MemEntry → Option Memory → Option Memory
  store_entry key v none = none
  store_entry key v (some m) =
      some (record m { entries = insert key v m.entries; bytes = m.bytes +ℤ pos (size key v) })

  abbrev pub make_room : String → MemEntry → Memory → Option Memory
  make_room key v m =
      if ltb_ℤ (pos 0) m.max_bytes && ltb_ℤ m.max_bytes (m.bytes +ℤ pos (size key v))
      then evict_until (suc (count m.entries)) (m.max_bytes -ℤ pos (size key v)) m
      else some m

  -- `Set`. An eviction takes one round more than there are entries at most.
  unfoldable pub set : ℕ → String → Entry → ℕ → Memory → Option Memory
  unfolding evict_until
  set now key e ttl m =
      let v : MemEntry = record { e = e; expires = now + ttl } in
      store_entry key v
        (make_room key v (record m { bytes = credited key (lookup key m.entries) m.bytes }))

  -- One tick of `gc`.
  unfoldable pub sweep : ℕ → List (String × MemEntry) → Memory → Memory
  sweep now [] m = m
  sweep now ((k, v) ∷ rest) m = sweep now rest (
      if ltb v.expires now
      then record m { entries = delete k m.entries; bytes = m.bytes -ℤ pos (size k v) }
      else m)

  unfoldable pub gc : ℕ → Memory → Memory
  unfolding sweep
  gc now m = sweep now m.entries m
