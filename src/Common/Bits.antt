-- ===== src/Common/Bits.antt =====
-- Single bits of a number, and what the native bit operations do to each of them.
use Prim.Native.Nat.{min, max, bit_and, bit_or, bit_xor, digits, differ}
use Prim.Native.Nat.{bit_and-bitwise, bit_or-bitwise, bit_xor-bitwise}
use Prim.Native.Nat.{ℕ, zero, suc, ◌+◌, ◌-◌, ◌*◌, ◌/◌, ◌%◌, ◌^◌, ◌≤◌, ◌<◌}
use native.Mathlib.Nat.{le_refl, pow-suc, one-le-pow}
use native.Mathlib.Decide.{ℕ_discrete}
use native.Mathlib.Omega.{arith}
use mathlib.Core.Path.{◌≡◌, refl, ap, ◌∙◌}
use mathlib.Core.Logic.{◌≢◌}

-- Bit `i` of `n`, as 0 or 1.
abbrev pub bit_at : ℕ → ℕ → ℕ
bit_at n zero = n % 2
bit_at n (suc i) = bit_at (n / 2) i

pub bit_at-lt : (n i : ℕ) → bit_at n i < 2
bit_at-lt n zero = omega arith
bit_at-lt n (suc i) = bit_at-lt (n / 2) i

pub bit_at-zero : (i : ℕ) → bit_at 0 i ≡ 0
bit_at-zero zero = refl
bit_at-zero (suc i) = bit_at-zero i

-- A digit recursion with enough fuel acts on each bit alone.
module _ (z : ℕ → ℕ) (f : ℕ → ℕ → ℕ) (small : (x y : ℕ) → x < 2 → y < 2 → f x y < 2)
    (rest : (b i : ℕ) → bit_at (z b) i ≡ f 0 (bit_at b i)) where
  bit_at-digits_zero : (n b i : ℕ) → bit_at (digits z f n 0 b) i ≡ f (bit_at 0 i) (bit_at b i)
  bit_at-digits_zero zero b i = rw (bit_at-zero i) (rest b i)
  bit_at-digits_zero (suc n) b i = rw (bit_at-zero i) (rest b i)

  bit_at-digits : (n a b i : ℕ) → a ≤ n → bit_at (digits z f n a b) i ≡ f (bit_at a i) (bit_at b i)
  bit_at-digits n zero b i h = bit_at-digits_zero n b i
  bit_at-digits zero (suc a) b i h = absurd (omega arith)
  bit_at-digits (suc n) (suc a) b zero h =
      omega (arith, small (suc a % 2) (b % 2) (omega arith) (omega arith))
  bit_at-digits (suc n) (suc a) b (suc i) h =
      ap (λ m. bit_at m i) halved ∙ bit_at-digits n (suc a / 2) (b / 2) i (omega arith)
    where
      halved :
          (digits z f n (suc a / 2) (b / 2) * 2 + f (suc a % 2) (b % 2)) / 2
          ≡ digits z f n (suc a / 2) (b / 2)
      halved = omega (arith, small (suc a % 2) (b % 2) (omega arith) (omega arith))

differ-lt : (x y : ℕ) → x < 2 → y < 2 → differ x y < 2
differ-lt zero y p q = q
differ-lt (suc x) zero p q = p
differ-lt (suc x) (suc y) p q = differ-lt x y (omega arith) (omega arith)

pub differ-one : (x : ℕ) → x < 2 → differ x 1 ≡ 1 - x
differ-one zero h = refl
differ-one (suc zero) h = refl
differ-one (suc (suc x)) h = absurd (omega arith)

pub differ-zero : (x : ℕ) → differ x 0 ≡ x
differ-zero zero = refl
differ-zero (suc x) = refl

pub bit_at-bit_or : (a b i : ℕ) → bit_at (bit_or a b) i ≡ max (bit_at a i) (bit_at b i)
bit_at-bit_or a b i =
    rw bit_or-bitwise
      (bit_at-digits (λ y. y) max (λ x y p q. omega arith) (λ c j. omega arith) a a b i (le_refl a))

pub bit_at-bit_and : (a b i : ℕ) → bit_at (bit_and a b) i ≡ min (bit_at a i) (bit_at b i)
bit_at-bit_and a b i = rw bit_and-bitwise (
    bit_at-digits (λ y. 0) min (λ x y p q. omega arith) (λ c j. omega (arith, bit_at-zero j)) a a b
      i (le_refl a))

pub bit_at-bit_xor : (a b i : ℕ) → bit_at (bit_xor a b) i ≡ differ (bit_at a i) (bit_at b i)
bit_at-bit_xor a b i =
    rw bit_xor-bitwise (bit_at-digits (λ y. y) differ differ-lt (λ c j. refl) a a b i (le_refl a))

-- A one shifted into place has that bit alone.
pub bit_at-two_pow_self : (k : ℕ) → bit_at (2 ^ k) k ≡ 1
bit_at-two_pow_self zero = refl
bit_at-two_pow_self (suc k) = ap (λ m. bit_at m k) halved ∙ bit_at-two_pow_self k
  where
    halved : 2 ^ suc k / 2 ≡ 2 ^ k
    halved = omega (arith, pow-suc 2 k)

pub bit_at-two_pow_ne : (k i : ℕ) → k ≢ i → bit_at (2 ^ k) i ≡ 0
bit_at-two_pow_ne zero zero h = absurd (h refl)
bit_at-two_pow_ne zero (suc i) h = bit_at-zero i
bit_at-two_pow_ne (suc k) zero h = omega (arith, pow-suc 2 k)
bit_at-two_pow_ne (suc k) (suc i) h =
    ap (λ m. bit_at m i) halved ∙ bit_at-two_pow_ne k i (λ e. h (ap suc e))
  where
    halved : 2 ^ suc k / 2 ≡ 2 ^ k
    halved = omega (arith, pow-suc 2 k)

pub two_pow-lt : (k w : ℕ) → k < w → 2 ^ k < 2 ^ w
two_pow-lt k zero h = absurd (omega arith)
two_pow-lt zero (suc w) h = omega (arith, pow-suc 2 w, one-le-pow w 2)
two_pow-lt (suc k) (suc w) h = omega (arith, pow-suc 2 w, pow-suc 2 k, two_pow-lt k w (omega arith))

-- The complement within a word of `w` bits.
pub bit_at-complement : (w m i : ℕ) → m < 2 ^ w → i < w → bit_at (2 ^ w - 1 - m) i ≡ 1 - bit_at m i
bit_at-complement zero m i h k = absurd (omega arith)
bit_at-complement (suc w) m zero h k = omega (arith, pow-suc 2 w)
bit_at-complement (suc w) m (suc i) h k =
    ap (λ n. bit_at n i) halved
    ∙ bit_at-complement w (m / 2) i (omega (arith, pow-suc 2 w)) (omega arith)
  where
    halved : (2 ^ suc w - 1 - m) / 2 ≡ 2 ^ w - 1 - m / 2
    halved = omega (arith, pow-suc 2 w)

-- A number of which no bit is set is 0.
eq_zero_of_bits_fuel : (w n : ℕ) → n ≤ w → ((i : ℕ) → bit_at n i ≡ 0) → n ≡ 0
eq_zero_of_bits_fuel zero n h k = omega arith
eq_zero_of_bits_fuel (suc w) n h k =
    omega (arith, k 0, eq_zero_of_bits_fuel w (n / 2) (omega arith) (λ i. k (suc i)))

pub eq_zero_of_bits : (n : ℕ) → ((i : ℕ) → bit_at n i ≡ 0) → n ≡ 0
eq_zero_of_bits n k = eq_zero_of_bits_fuel n n (le_refl n) k

-- Testing against a single-bit mask, as C does by `w & mask`.
pub bit_and-two_pow_clear : (w k : ℕ) → bit_at w k ≡ 0 → bit_and w (2 ^ k) ≡ 0
bit_and-two_pow_clear w k h = eq_zero_of_bits _ λ i. elim (ℕ_discrete k i) [
  | yes e ↦ rw bit_at-bit_and (omega (arith, ap (bit_at w) e))
  | no ne ↦ rw (bit_at-bit_and, bit_at-two_pow_ne k i ne) (omega arith)
]

pub bit_and-two_pow_set : (w k : ℕ) → bit_at w k ≡ 1 → bit_and w (2 ^ k) ≢ 0
bit_and-two_pow_set w k h e = absurd (
    omega (
      arith,
      bit_at-bit_and w (2 ^ k) k,
      bit_at-two_pow_self k,
      bit_at-zero k,
      ap (λ n. bit_at n k) e,
    ))
