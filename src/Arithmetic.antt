-- ===== src/Arithmetic.antt =====
-- lib/arithmetic.c: 64-bit division from 32-bit division. A 64-bit or 32-bit number is a ℕ below
-- 2^64 or 2^32, and a signed one is its two's complement. What wraps in the source wraps here.
pub mod Small
use junlge_pint_os.Common.{
  ℕ, ◌+◌, ◌-◌, ◌*◌, ◌/◌, ◌%◌, ◌^◌, Bool, true, false, not, ◌||◌, Outcome, ok, panic, ◌>>=◌, ◌>>◌,
  assert, ltb, leb, ◌==◌, if◌then◌else◌,
}

-- The instruction DIVL: it traps where the divisor is 0 or the quotient does not fit in 32 bits.
unfoldable pub divl : ℕ → ℕ → Outcome ℕ
divl n d = if d == 0 || leb (2 ^ 32) (n / d) then panic else ok (n / d)

-- `if (x <= bound) { n += k; x <<= k; }`, on the pair of `n` and `x`.
unfoldable pub shift_below : ℕ → ℕ → ℕ × ℕ → ℕ × ℕ
shift_below bound k (n, x) = if leb x bound then (n + k, x * 2 ^ k % 2 ^ 32) else (n, x)

unfoldable pub nlz : ℕ → ℕ
nlz x =
    let a = shift_below 0x0000FFFF 16 (0, x) in
    let b = shift_below 0x00FFFFFF 8 a in
    let c = shift_below 0x0FFFFFFF 4 b in
    let d = shift_below 0x3FFFFFFF 2 c in if leb d.1 0x7FFFFFFF then d.0 + 1 else d.0

-- `udiv64` where the divisor fits in 32 bits. `n1 % d0` and `n1 / d0` trap where `d0` is 0.
unfoldable pub udiv64_small : ℕ → ℕ → Outcome ℕ
udiv64_small n d = do
  let b = 2 ^ 32
  let n1 = n / 2 ^ 32
  let n0 = n % 2 ^ 32
  let d0 = d % 2 ^ 32
  assert (not (d0 == 0))
  q ← divl ((b * (n1 % d0) + n0) % 2 ^ 64) d0
  ok ((q + b * (n1 / d0)) % 2 ^ 64)

-- `q - 1` if that quotient leaves a remainder below `d`, else `q`.
unfoldable pub settle : ℕ → ℕ → ℕ → ℕ
settle n d q =
    let q' = (q + 2 ^ 64 - 1) % 2 ^ 64 in
    if ltb ((n + 2 ^ 64 - q' * d % 2 ^ 64) % 2 ^ 64) d then q' else q

-- `udiv64` where it does not, and `n` is not below it.
unfoldable pub udiv64_large : ℕ → ℕ → Outcome ℕ
udiv64_large n d = do
  let d1 = d / 2 ^ 32 % 2 ^ 32
  let s = nlz d1
  q ← divl (n / 2) (d * 2 ^ s % 2 ^ 64 / 2 ^ 32 % 2 ^ 32)
  ok (settle n d (q / 2 ^ (31 - s)))

unfoldable pub udiv64 : ℕ → ℕ → Outcome ℕ
udiv64 n d =
    if d / 2 ^ 32 == 0 then udiv64_small n d else if ltb n d then ok 0 else udiv64_large n d

-- The result has the type `uint32_t`.
unfoldable pub umod64 : ℕ → ℕ → Outcome ℕ
umod64 n d = do q ← udiv64 n d; ok ((n + 2 ^ 64 - d * q % 2 ^ 64) % 2 ^ 64 % 2 ^ 32)

unfoldable pub negative : ℕ → Bool
negative n = leb (2 ^ 63) n

unfoldable pub negated : ℕ → ℕ
negated n = (2 ^ 64 - n) % 2 ^ 64

unfoldable pub same : Bool → Bool → Bool
same true b = b
same false b = not b

unfoldable pub sdiv64 : ℕ → ℕ → Outcome ℕ
sdiv64 n d = do
  let n_abs = if negative n then negated n else n
  let d_abs = if negative d then negated d else d
  q_abs ← udiv64 n_abs d_abs
  ok (if same (negative n) (negative d) then q_abs else negated q_abs)

-- The result has the type `int32_t`: its 32 bits are given.
unfoldable pub smod64 : ℕ → ℕ → Outcome ℕ
smod64 n d = do q ← sdiv64 n d; ok ((n + 2 ^ 64 - d * q % 2 ^ 64) % 2 ^ 64 % 2 ^ 32)

-- The 64 bits of a signed 32-bit number.
unfoldable pub widened : ℕ → ℕ
widened n = if leb (2 ^ 31) n then n + (2 ^ 64 - 2 ^ 32) else n

unfoldable pub divdi3 : ℕ → ℕ → Outcome ℕ
divdi3 n d = sdiv64 n d

unfoldable pub moddi3 : ℕ → ℕ → Outcome ℕ
moddi3 n d = do r ← smod64 n d; ok (widened r)

unfoldable pub udivdi3 : ℕ → ℕ → Outcome ℕ
udivdi3 n d = udiv64 n d

unfoldable pub umoddi3 : ℕ → ℕ → Outcome ℕ
umoddi3 n d = umod64 n d
