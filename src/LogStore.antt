-- ===== src/LogStore.antt =====
-- The in-memory log store (backend/internal/logstore/memory.go): a bounded list of entries per
-- stream, and the least recently appended streams are dropped. Each operation runs under the lock
-- and is one step. The length of a line in bytes is that of its list.
pub mod Rings
pub mod Streams
pub mod History
pub mod Tests
use cooker.Prelude.{
  ℕ, suc, ◌+◌, String, Bool, true, false, Option, none, some, List, [], ◌∷◌, ◌++◌, length, ltb,
  ◌=ₛ◌, if◌then◌else◌,
}
use cooker.Prelude.Int.{ℤ, pos, ◌+ℤ◌, ◌-ℤ◌, ltb_ℤ}
use cooker.Prelude.Dict.{lookup, insert, delete}
use cooker.LogLines.{LogEntry}

-- `stream`.
pub record Stream : Type 0 where
  pub entries : List LogEntry
  pub bytes : ℤ

-- `Memory`; `lru` holds the keys of the streams, the least recently appended first.
pub record LogMemory : Type 0 where
  pub max_bytes_per_stage : ℤ
  pub max_streams : ℤ
  pub streams : List (String × Stream)
  pub lru : List String

abbrev pub at_least_one : ℤ → ℤ
at_least_one n = if ltb_ℤ n (pos 1) then pos 1 else n

-- `NewMemory`.
abbrev pub new_memory : ℤ → ℤ → LogMemory
new_memory max_bytes max_streams = record {
  max_bytes_per_stage = at_least_one max_bytes;
  max_streams = at_least_one max_streams;
  streams = [];
  lru = [];
}

-- `MoveToBack`: the list without a key.
unfoldable pub without : String → List String → List String
without key [] = []
without key (k ∷ ks) = let rest = without key ks in if k =ₛ key then rest else k ∷ rest

-- The loop that drops the oldest entries.
unfoldable pub drop_oldest : (max_bytes : ℤ) → ℤ → List LogEntry → Stream
drop_oldest max_bytes bytes [] = record { entries = []; bytes = bytes }
drop_oldest max_bytes bytes (e ∷ []) = record { entries = e ∷ []; bytes = bytes }
drop_oldest max_bytes bytes (e ∷ f ∷ es) =
    let dropped = drop_oldest max_bytes (bytes -ℤ pos (length e.line)) (f ∷ es) in
    if ltb_ℤ max_bytes bytes then dropped else record { entries = e ∷ f ∷ es; bytes = bytes }

-- The loop that drops streams.
unfoldable pub evict_streams :
    (max_streams : ℤ) → List String → List (String × Stream) → LogMemory → LogMemory
evict_streams max_streams [] streams m = record m { streams = streams; lru = [] }
evict_streams max_streams (oldest ∷ lru) streams m =
    let fewer = evict_streams max_streams lru (delete oldest streams) m in
    if ltb_ℤ max_streams (pos (length streams))
    then fewer
    else record m { streams = streams; lru = oldest ∷ lru }

abbrev pub stream_or_new : Option Stream → Stream
stream_or_new none = record { entries = []; bytes = pos 0 }
stream_or_new (some s) = s

-- The stream of a key with one more entry.
abbrev pub grown : (max_bytes : ℤ) → LogEntry → Stream → Stream
grown max_bytes e s = drop_oldest max_bytes (s.bytes +ℤ pos (length e.line)) (s.entries ++ (e ∷ []))

-- `Append`.
unfoldable pub append : (key : String) → LogEntry → LogMemory → LogMemory
append key e m =
    evict_streams m.max_streams (without key m.lru ++ (key ∷ []))
      (insert key (grown m.max_bytes_per_stage e (stream_or_new (lookup key m.streams))) m.streams)
      m

-- The entries of a stream after a number.
unfoldable pub after_seq : ℕ → List LogEntry → List LogEntry
after_seq since [] = []
after_seq since (e ∷ es) =
    let rest = after_seq since es in if ltb since e.seq then e ∷ rest else rest

abbrev pub entries_of : Option Stream → List LogEntry
entries_of none = []
entries_of (some s) = s.entries

-- `Read`.
unfoldable pub read : (key : String) → (since : ℕ) → LogMemory → List LogEntry
read key since m = after_seq since (entries_of (lookup key m.streams))
