-- ===== src/Idempotency/Accounts.antt =====
-- `Set` and the count of bytes (idempotency.go).
use cooker.Prelude.{
  ℕ, suc, ◌+◌, ◌-◌, ◌≤◌, ◌<◌, String, ◌&&◌, none, some, ◌≡◌, inl, inr, refl, ap, arith, ltb,
  =ₛ_refl, Bool-cases,
}
use cooker.Prelude.Int.{ℤ, pos, ◌-ℤ◌, ◌+ℤ◌, ltb_ℤ}
use cooker.Prelude.Dict.{lookup, insert, lookup-insert, insert-Keyed}
use cooker.Prelude.Dict.Measure.{total, total-insert}
use cooker.Idempotency.{Entry, MemEntry, Memory, count, size, make_room, set}
use cooker.Idempotency.Eviction.{used, IsBalanced, evict_until_total, sub_pos}

pub add_pos : (a b : ℕ) → pos a +ℤ pos b ≡ pos (a + b)
unfolding ◌+ℤ◌
add_pos a b = ground arith

-- The test of `Set` for room.
pub is_over :
    (b c : ℤ) (cap u s : ℕ)
    → c ≡ pos cap
    → b ≡ pos u
    → (ltb_ℤ (pos 0) c && ltb_ℤ c (b +ℤ pos s)) ≡ (ltb 0 cap && ltb cap (u + s))
is_over b c cap u s p q = rw (p, q, add_pos u s) (plain (u + s))
  where
    plain :
        (x : ℕ) → (ltb_ℤ (pos 0) (pos cap) && ltb_ℤ (pos cap) (pos x)) ≡ (ltb 0 cap && ltb cap x)
    plain x = ground arith

module _ (len : String → ℕ) where
  -- What `Set` leaves of a new key's entry.
  pub record Recorded (key : String) (v : MemEntry) (cap : ℕ) (m after : Memory) : Type 0 where
    pub balanced : IsBalanced len after
    pub there : lookup key after.entries ≡ some v
    pub capped : 0 < cap → size len key v ≤ cap → used len after ≤ cap

  -- The state before the entry is written: room was made.
  record Roomy (key : String) (v : MemEntry) (cap : ℕ) (room : Memory) : Type 0 where
    balanced : IsBalanced len room
    absent : lookup key room.entries ≡ none
    fits : 0 < cap → size len key v ≤ cap → used len room + size len key v ≤ cap

  make_room_lem :
      (key : String) (v : MemEntry) (cap : ℕ) (m : Memory)
      → IsBalanced len m
      → lookup key m.entries ≡ none
      → m.max_bytes ≡ pos cap
      → (room : Memory) × (make_room len key v m ≡ some room) × Roomy key v cap room
  make_room_lem key v cap m h new c =
      let test = is_over m.bytes m.max_bytes cap (used len m) (size len key v) c h.counted in
      elim (Bool-cases (ltb 0 cap && ltb cap (used len m + size len key v))) [
        | inl over ↦
            let (room, done, e) =
              evict_until_total len (suc (count m.entries)) (m.max_bytes -ℤ pos (size len key v)) m
                h (omega arith) in
            (
              room,
              rw (test, over) done,
              record {
                balanced = e.balanced;
                absent = e.no_new_key key new;
                fits = λ p le.
                    let small =
                      e.room (cap - size len key v) (rw c (sub_pos cap (size len key v) le)) in
                    omega (arith, small);
              },
            )
        | inr under ↦ (
          m,
          rw (test, under) refl,
          record { balanced = h; absent = new; fits = λ p le. ground arith },
        )
      ]

  store_lem :
      (key : String) (v : MemEntry) (cap : ℕ) (m room : Memory)
      → Roomy key v cap room
      → Recorded key v cap m (record room {
        entries = insert key v room.entries;
        bytes = room.bytes +ℤ pos (size len key v);
      })
  store_lem key v cap m room r =
      let sum = total-insert (size len) key v room.entries in
      let grown : total (size len) (insert key v room.entries) + 0
          ≡ used len room + size len key v =
        rw r.absent at sum in
      record {
        balanced = record {
          keyed = insert-Keyed key v room.entries r.balanced.keyed;
          counted =
              rw (r.balanced.counted, add_pos (used len room) (size len key v))
                (ap pos (omega (arith, grown)));
        };
        there = rw (lookup-insert key key v room.entries, =ₛ_refl key);
        capped = λ p le. let small = r.fits p le in omega (arith, grown, small);
      }

  -- `Set` of a key that the cache does not hold ends; then the entry is there, the counter says
  -- how many bytes the entries take, and these are within a cap above 0 if the entry alone is.
  pub set_new :
      (now : ℕ) (key : String) (e : Entry) (ttl cap : ℕ) (m : Memory)
      → IsBalanced len m
      → lookup key m.entries ≡ none
      → m.max_bytes ≡ pos cap
      → (after : Memory) × (set len now key e ttl m ≡ some after)
        × Recorded key (record { e = e; expires = now + ttl }) cap m after
  unfolding set
  set_new now key e ttl cap m h new c =
      let v : MemEntry = record { e = e; expires = now + ttl } in
      let (room, done, r) = make_room_lem key v cap m h new c in
      (_, rw (new, done) refl, store_lem key v cap m room r)
