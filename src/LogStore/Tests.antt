-- ===== src/LogStore/Tests.antt =====
-- The theorems on the log store at a full store of one stream (backend/internal/logstore/memory.go).
use cooker.Prelude.{[], ◌∷◌, refl, arith}
use cooker.Prelude.Int.{pos}
use cooker.Prelude.Dict.{lookup}
use cooker.LogLines.{LogEntry}
use cooker.LogStore.{LogMemory, new_memory, append, read}
use cooker.LogStore.Streams.{IsBounded, Appended, append-Appended}
use cooker.LogStore.History.{IsReading, stored, read-IsReading}

abbrev empty : LogMemory
empty = new_memory (pos 4) (pos 1)

empty-IsBounded : IsBounded 4 1 empty
unfolding lookup
empty-IsBounded = record {
  bytes_cap = refl;
  streams_cap = refl;
  sync = record { keyed = tt; listed = λ k. refl };
  few = omega arith;
  kept = λ k s e. absurd (cc);
}

abbrev entry : LogEntry
entry = record { seq = 1; ts = 7; line = 97 ∷ 98 ∷ [] }

append-Appended_example : Appended 4 1 "run/build" entry empty (append "run/build" entry empty)
append-Appended_example = append-Appended 4 1 "run/build" entry empty (omega arith) empty-IsBounded

abbrev later : LogEntry
later = record { seq = 2; ts = 8; line = 99 ∷ 100 ∷ 101 ∷ [] }

read-IsReading_example :
    IsReading 4 (("run/build", later) ∷ ("run/build", entry) ∷ []) "run/build" 0 (
      read "run/build" 0
        (stored (pos 4) (pos 1) (("run/build", later) ∷ ("run/build", entry) ∷ [])))
read-IsReading_example =
    read-IsReading (pos 4) (pos 1) 4 refl (("run/build", later) ∷ ("run/build", entry) ∷ [])
      "run/build" 0
