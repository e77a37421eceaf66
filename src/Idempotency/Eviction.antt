-- ===== src/Idempotency/Eviction.antt =====
-- The eviction loop of the cache (idempotency.go, `evictUntilLocked`): it ends, it keeps the count
-- of bytes, and it makes the room that was asked for.
use cooker.Prelude.{
  ℕ, zero, suc, ◌+◌, ◌-◌, ◌≤◌, ◌<◌, String, true, false, ◌&&◌, ◌||◌, none, some, List, [], ◌∷◌, ◌≡◌,
  ◌⊎◌, inl, inr, refl, ap, ◌∙◌, arith, ltb, ◌=ₛ◌, =ₛ_refl, Bool-cases,
}
use cooker.Prelude.Int.{ℤ, pos, ◌-ℤ◌, ltb_ℤ}
use cooker.Prelude.Dict.{lookup, delete, lookup-delete, Keyed, delete-Keyed}
use cooker.Prelude.Dict.Measure.{total, total-delete}
use cooker.Idempotency.{MemEntry, Memory, oldest, has_entries, count, size, evict_one, evict_until}

abbrev pub IsStored : String → List (String × MemEntry) → Type 0
IsStored key d = (v : MemEntry) × (lookup key d ≡ some v)

cons-IsStored :
    (key k : String) (v : MemEntry) (d : List (String × MemEntry))
    → IsStored key d
    → IsStored key ((k, v) ∷ d)
unfolding lookup
cons-IsStored key k v d (w, there) = elim (Bool-cases (k =ₛ key)) [
  | inl hit ↦ (v, rw hit)
  | inr miss ↦ (w, rw miss there)
]

first-IsStored :
    (k : String) (v : MemEntry) (d : List (String × MemEntry)) → IsStored k ((k, v) ∷ d)
unfolding lookup
first-IsStored k v d = (v, rw (=ₛ_refl k))

oldest_cases :
    (key : String) (exp : ℕ) (d : List (String × MemEntry))
    → (oldest key exp d ≡ key) ⊎ IsStored (oldest key exp d) d
unfolding oldest
oldest_cases key exp [] = inl refl
oldest_cases key exp ((k, v) ∷ rest) = elim (Bool-cases (key =ₛ "" || ltb v.expires exp)) [
  | inl older ↦ rw older (elim (oldest_cases k v.expires rest) [
    | inl same ↦ rw same (inr (first-IsStored k v rest))
    | inr there ↦ inr (cons-IsStored _ k v rest there)
  ])
  | inr younger ↦ rw younger (elim (oldest_cases key exp rest) [
    | inl same ↦ inl same
    | inr there ↦ inr (cons-IsStored _ k v rest there)
  ])
]

-- The scan of a map with entries finds one of its keys.
oldest-IsStored : (d : List (String × MemEntry)) → has_entries d ≡ true → IsStored (oldest "" 0 d) d
unfolding oldest
oldest-IsStored [] h = absurd (cc)
oldest-IsStored ((k, v) ∷ rest) h = elim (oldest_cases k v.expires rest) [
  | inl same ↦ rw same (first-IsStored k v rest)
  | inr there ↦ cons-IsStored _ k v rest there
]

pub sub_pos : (a b : ℕ) → b ≤ a → pos a -ℤ pos b ≡ pos (a - b)
unfolding ◌-ℤ◌
sub_pos a b h = ground arith

module _ (len : String → ℕ) where
  -- The bytes that the entries take.
  abbrev pub used : Memory → ℕ
  used m = total (size len) m.entries

  -- The counter says how many bytes the entries take.
  pub record IsBalanced (m : Memory) : Type 0 where
    pub keyed : Keyed m.entries
    pub counted : m.bytes ≡ pos (used m)

  pub release :
      (m : Memory) (key : String) (v : MemEntry)
      → IsBalanced m
      → lookup key m.entries ≡ some v
      → m.bytes -ℤ pos (size len key v) ≡ pos (total (size len) (delete key m.entries))
  release m key v h there =
      let parts = total-delete (size len) key m.entries h.keyed in
      let sum : total (size len) (delete key m.entries) + size len key v ≡ used m =
        rw there at parts in
      rw (h.counted, sub_pos (used m) (size len key v) (omega (arith, sum)))
        (ap pos (omega (arith, sum)))

  evict_one-IsBalanced :
      (m : Memory)
      → IsBalanced m
      → has_entries m.entries ≡ true
      → IsBalanced (evict_one len m) × (count (evict_one len m).entries < count m.entries)
  unfolding evict_one
  evict_one-IsBalanced m h some_left =
      let key = oldest "" 0 m.entries in
      let (v, there) = oldest-IsStored m.entries some_left in
      let fewer = total-delete (λ k w. 1) key m.entries h.keyed in
      let one_less : count (delete key m.entries) + 1 ≡ count m.entries = rw there at fewer in
      (
        record {
          keyed = delete-Keyed key m.entries h.keyed;
          counted = rw there (release m key v h there);
        },
        omega (arith, one_less),
      )

  -- What the eviction loop leaves.
  pub record Evicted (target : ℤ) (m after : Memory) : Type 0 where
    pub balanced : IsBalanced after
    pub same_cap : after.max_bytes ≡ m.max_bytes
    pub no_new_key : (k : String) → lookup k m.entries ≡ none → lookup k after.entries ≡ none
    pub room : (t : ℕ) → target ≡ pos t → used after ≤ t

  still_absent :
      (k : String) (m : Memory)
      → lookup k m.entries ≡ none
      → lookup k (evict_one len m).entries ≡ none
  unfolding evict_one
  still_absent k m h = elim (Bool-cases (oldest "" 0 m.entries =ₛ k)) [
    | inl hit ↦ rw (lookup-delete (oldest "" 0 m.entries) k m.entries, hit) refl
    | inr miss ↦ rw (lookup-delete (oldest "" 0 m.entries) k m.entries, miss) h
  ]

  evict_one-max : (m : Memory) → (evict_one len m).max_bytes ≡ m.max_bytes
  unfolding evict_one
  evict_one-max m = refl

  empty_total : (d : List (String × MemEntry)) → has_entries d ≡ false → total (size len) d ≡ 0
  empty_total [] h = refl
  empty_total (p ∷ ps) h = absurd (cc)

  -- Given one round more than there are entries, the eviction loop ends; the counter still says
  -- how many bytes the entries take; these are no more than the target, if it is not negative;
  -- and no key was added.
  pub evict_until_total :
      (n : ℕ) (target : ℤ) (m : Memory)
      → IsBalanced m
      → count m.entries < n
      → (after : Memory) × (evict_until len n target m ≡ some after) × Evicted target m after
  unfolding evict_until
  evict_until_total zero target m h lt = absurd (omega arith)
  evict_until_total (suc n) target m h lt =
      elim (Bool-cases (ltb_ℤ target m.bytes && has_entries m.entries)) [
        | inl again ↦
            let (ok, fewer) = evict_one-IsBalanced m h (ground arith) in
            let (after, done, e) = evict_until_total n target (evict_one len m) ok (omega arith) in
            (
              after,
              rw again done,
              record {
                balanced = e.balanced;
                same_cap = e.same_cap ∙ evict_one-max m;
                no_new_key = λ k a. e.no_new_key k (still_absent k m a);
                room = e.room;
              },
            )
        | inr stop ↦ (
          m,
          rw stop refl,
          record {
            balanced = h;
            same_cap = refl;
            no_new_key = λ k a. a;
            room = λ t p. small t p stop;
          },
        )
      ]
    where
      small :
          (t : ℕ)
          → target ≡ pos t
          → (ltb_ℤ target m.bytes && has_entries m.entries) ≡ false
          → used m ≤ t
      small t p stop = elim (Bool-cases (has_entries m.entries)) [
        | inl left ↦
            let low : (ltb (t + 0) (used m + 0) && true) ≡ false =
              rw (p, h.counted, left) at stop in
            ground arith
        | inr gone ↦ omega (arith, empty_total m.entries gone)
      ]
