-- ===== src/LogLines/Tests.antt =====
-- The theorems on log lines at a build's output (backend/internal/service/logbroadcast.go).
use cooker.Prelude.{ℕ, true, false, some, List, [], ◌∷◌, ◌≡◌, refl}
use cooker.LogLines.{LineWriter, new_line_writer, write_all, write_counts, write, cut, write_loop}
use cooker.LogLines.Roundtrip.{Recovered, write_all-Recovered, write_all-chunks}

abbrev clock : ℕ → ℕ
clock n = n

-- "ab", newline, "c" in one write, and in two.
abbrev at_once : List (List ℕ)
at_once = (97 ∷ 98 ∷ 10 ∷ 99 ∷ []) ∷ []

abbrev in_parts : List (List ℕ)
in_parts = (97 ∷ []) ∷ (98 ∷ 10 ∷ 99 ∷ []) ∷ []

write_at_once :
    write_all clock at_once (new_line_writer true false)
    ≡ some (record {
      broadcast = true;
      store = false;
      seq = 1;
      partial = 99 ∷ [];
      emitted = (record { seq = 1; ts = 1; line = 97 ∷ 98 ∷ [] }) ∷ [];
    })
unfolding write_all write cut write_loop
write_at_once = refl

write_all-Recovered_example :
    (w : LineWriter) × (write_all clock in_parts (new_line_writer true false) ≡ some w)
    × (write_counts clock in_parts (new_line_writer true false) ≡ some (1 ∷ 3 ∷ []))
    × Recovered clock in_parts w
write_all-Recovered_example = write_all-Recovered clock true false in_parts refl

write_all-chunks_example :
    write_all clock in_parts (new_line_writer false true)
    ≡ write_all clock at_once (new_line_writer false true)
write_all-chunks_example = write_all-chunks clock false true in_parts at_once refl refl
