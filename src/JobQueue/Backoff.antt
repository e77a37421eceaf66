-- ===== src/JobQueue/Backoff.antt =====
-- The delay before a failed job's next attempt (backoff.go). A `time.Duration` is an int64 number
-- of nanoseconds: products and sums wrap, and `signed` reads a bit pattern below 2 ^ 64.
use cooker.Prelude.{
  ℕ, ◌+◌, ◌-◌, ◌*◌, ◌/◌, ◌%◌, ◌^◌, ◌≤◌, ◌<◌, ◌||◌, Option, none, some, ◌≡◌, arith, if◌then◌else◌,
  ltb, leb, ◌==◌,
}
use cooker.Prelude.Int.{ℤ, pos, negsuc}
use Prim.Native.Nat.{min}
use native.Mathlib.Nat.{pow-le-pow_right, one-le-pow, le_refl, mul-le-mul, mod-lt}

pub record ExponentialBackoff : Type 0 where
  pub base : ℤ
  pub max_delay : ℤ

abbrev pub signed : ℕ → ℤ
signed n = if ltb n (2 ^ 63) then pos n else negsuc (2 ^ 64 - 1 - n)

-- A duration that is not positive is replaced by the default.
unfoldable pub positive_or : ℕ → ℤ → ℕ
positive_or d (pos n) = if leb n 0 then d else n
positive_or d (negsuc n) = d

-- `jitter`: `random` is the number read from crypto/rand, `none` if the read failed.
unfoldable pub jitter : ℕ → Option ℕ → ℕ
jitter d none = 0
jitter d (some random) = if d == 0 then 0 else random % 2 ^ 62 % (d + 1)

abbrev shift_of : ℕ → ℕ
shift_of attempt = let shift = attempt - 1 in if ltb 30 shift then 30 else shift

-- `d := base * (1 << shift)`, and the ceiling.
unfoldable pub doubled : ℕ → ℕ → ℕ → ℕ
doubled base max_delay shift =
    let d = base * 2 ^ shift % 2 ^ 64 in
    if d == 0 || leb (2 ^ 63) d || ltb max_delay d then max_delay else d

unfoldable pub next_delay : ExponentialBackoff → ℤ → Option ℕ → ℤ
next_delay e attempt random =
    let tries = positive_or 1 attempt in
    let base = positive_or 1_000_000_000 e.base in
    let max_delay = positive_or 300_000_000_000 e.max_delay in
    let d = doubled base max_delay (shift_of tries) in
    signed ((d + jitter (base / 2) random) % 2 ^ 64)

-- The product does not wrap where it stays below 2 ^ 63.
capped :
    (d max_delay : ℕ)
    → 0 < d
    → d < 2 ^ 63
    → (if d % 2 ^ 64 == 0 || leb (2 ^ 63) (d % 2 ^ 64) || ltb max_delay (d % 2 ^ 64)
        then max_delay
        else d % 2 ^ 64)
      ≡ min d max_delay
capped d max_delay p h = ground arith

product_bounds :
    (base shift : ℕ)
    → 0 < base
    → base < 2 ^ 33
    → shift ≤ 30
    → (0 < base * 2 ^ shift) × (base * 2 ^ shift < 2 ^ 63)
product_bounds base shift p h s =
    let big : 2 ^ shift ≤ 2 ^ 30 = pow-le-pow_right (omega arith) s in
    let one : 1 ≤ 2 ^ shift = one-le-pow shift 2 (omega arith) in
    let low : 1 * 1 ≤ base * 2 ^ shift = mul-le-mul p one in
    let high : base * 2 ^ shift ≤ base * 2 ^ 30 = mul-le-mul (le_refl base) big in
    (omega arith, omega arith)

doubled_lem :
    (base max_delay shift : ℕ)
    → 0 < base
    → base < 2 ^ 33
    → shift ≤ 30
    → doubled base max_delay shift ≡ min (base * 2 ^ shift) max_delay
unfolding doubled
doubled_lem base max_delay shift p h s =
    let (low, high) = product_bounds base shift p h s in
    capped (base * 2 ^ shift) max_delay low high

jitter-le : (d : ℕ) (random : Option ℕ) → jitter d random ≤ d
unfolding jitter
jitter-le d none = omega arith
jitter-le d (some random) = ground (arith, mod-lt (random % 2 ^ 62) {m = d + 1} (omega arith))

shift_of_lem : (n : ℕ) → shift_of n ≡ min (n - 1) 30
shift_of_lem n = ground arith

positive_or_pos : (d n : ℕ) → 0 < n → positive_or d (pos n) ≡ n
unfolding positive_or
positive_or_pos d n h = ground arith

signed_small : (n : ℕ) → n < 2 ^ 63 → signed (n % 2 ^ 64) ≡ pos n
signed_small n h = ground arith

-- With a base below 2 ^ 33 ns (8.5 s) and a ceiling below 2 ^ 62 ns the delay before the attempt
-- `attempt` (1 is the first retry) is the base doubled `attempt - 1` times, at most 30, or the
-- ceiling if that is less, plus a jitter of at most half the base.
pub next_delay_lem :
    (base max_delay attempt : ℕ) (random : Option ℕ)
    → 0 < base
    → base < 2 ^ 33
    → 0 < max_delay
    → max_delay < 2 ^ 62
    → 0 < attempt
    → (j : ℕ) × (next_delay
          (record { base = pos base; max_delay = pos max_delay })
          (pos attempt)
          random
        ≡ pos (min (base * 2 ^ min (attempt - 1) 30) max_delay + j))
      × (j ≤ base / 2)
unfolding next_delay
next_delay_lem base max_delay attempt random pb hb pm hm pa =
    let j = jitter (base / 2) random in
    let small = jitter-le (base / 2) random in
    let d = min (base * 2 ^ min (attempt - 1) 30) max_delay in
    (
      j,
      rw
          (
            positive_or_pos 1 attempt pa,
            positive_or_pos 1_000_000_000 base pb,
            positive_or_pos 300_000_000_000 max_delay pm,
            shift_of_lem attempt,
            doubled_lem base max_delay (min (attempt - 1) 30) pb hb (omega arith),
          )
          (signed_small (d + j) (omega arith)),
      small,
    )

-- The overflow test `d <= 0` misses products that wrap to a positive number: with a base of
-- 2 ^ 34 + k ns (17.2 s, 0 < k < 16) and a ceiling of at least 2 ^ 34 ns the delay before every
-- attempt from the 31st on is k * 2 ^ 30 ns if the jitter is 0, which is less than the base.
pub next_delay_wraps :
    (k max_delay attempt : ℕ)
    → 0 < k
    → k < 16
    → 2 ^ 34 ≤ max_delay
    → 31 ≤ attempt
    → let e : ExponentialBackoff = record { base = pos (2 ^ 34 + k); max_delay = pos max_delay } in
      (next_delay e (pos attempt) none ≡ pos (k * 2 ^ 30)) × (k * 2 ^ 30 < 2 ^ 34 + k)
unfolding next_delay doubled jitter
next_delay_wraps k max_delay attempt pk hk hm ha =
    let thirty : min (attempt - 1) 30 ≡ 30 = omega arith in
    (
      rw
          (
            positive_or_pos 1 attempt (omega arith),
            positive_or_pos 1_000_000_000 (2 ^ 34 + k) (omega arith),
            positive_or_pos 300_000_000_000 max_delay (omega arith),
            shift_of_lem attempt,
            thirty,
          )
          (ground arith),
      omega arith,
    )
