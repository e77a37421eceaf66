-- ===== src/Idempotency/Tests.antt =====
-- A cache of thirty bytes, where each text that is not empty counts for ten.
use cooker.Prelude.{ℕ, ◌<◌, String, none, some, [], ◌∷◌, ◌≡◌, refl, arith, if◌then◌else◌, ◌=ₛ◌}
use cooker.Prelude.Int.{pos}
use cooker.Prelude.Dict.{lookup}
use cooker.Idempotency.{gc, Entry, MemEntry, Memory, evict_until, new_memory_bounded, set}
use cooker.Idempotency.Eviction.{used, IsBalanced, Evicted, evict_until_total}
use cooker.Idempotency.Sweep.{kept, gc_lem}
use cooker.Idempotency.Accounts.{Recorded, set_new}
use cooker.Idempotency.Drift.{set_drifts}

abbrev tens : String → ℕ
tens s = if s =ₛ "" then 0 else 10

abbrev created : Entry
created = record { status = 201; body = "created" }

abbrev blank : Entry
blank = record { status = 204; body = "" }

abbrev first_entry : MemEntry
first_entry = record { e = created; expires = 50 }

abbrev full : Memory
full = record { entries = ("k1", first_entry) ∷ []; max_bytes = pos 30; bytes = pos 20 }

full-IsBalanced : IsBalanced tens full
unfolding lookup
full-IsBalanced = record { keyed = (refl, tt); counted = refl }

evict_until_total_example :
    (after : Memory) × (evict_until tens 2 (pos 10) full ≡ some after)
    × Evicted tens (pos 10) full after
evict_until_total_example = evict_until_total tens 2 (pos 10) full full-IsBalanced (omega arith)

k2_new : lookup "k2" full.entries ≡ none
unfolding lookup
k2_new = refl

set_new_example :
    (after : Memory) × (set tens 7 "k2" created 100 full ≡ some after)
    × Recorded tens "k2" (record { e = created; expires = 107 }) 30 full after
set_new_example = set_new tens 7 "k2" created 100 30 full full-IsBalanced k2_new refl

set_drifts_example :
    (one two after : Memory) × (set tens 5 "k1" blank 50 (new_memory_bounded (pos 30)) ≡ some one)
    × (set tens 6 "k2" created 50 one ≡ some two)
    × (two.bytes ≡ pos (used tens two))
    × (set tens 7 "k1" created 50 two ≡ some after)
    × (30 < used tens after)
    × (n : ℕ) × (after.bytes ≡ pos n)
    × (n < used tens after)
set_drifts_example =
    set_drifts tens 30 "k1" "k2" blank created created 5 6 7 50 refl refl (omega arith)
      (omega arith) (omega arith) (omega arith) (omega arith) (omega arith) (omega arith)

gc_lem_example :
    IsBalanced tens (gc tens 55 full)
    × ((k : String) (v : MemEntry)
        → lookup k full.entries ≡ some v
        → lookup k (gc tens 55 full).entries ≡ kept 55 v)
gc_lem_example = gc_lem tens 55 full full-IsBalanced
