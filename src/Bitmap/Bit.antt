-- ===== src/Bitmap/Bit.antt =====
-- lib/kernel/bitmap.c: the operations on single bits, and what a test reads.
use Prim.Native.Nat.{bit_and, bit_or, bit_xor, differ}
use junlge_pint_os.Common.{
  ℕ, ◌-◌, ◌*◌, ◌/◌, ◌%◌, ◌^◌, ◌≤◌, ◌<◌, ◌≡◌, ◌≢◌, refl, sym, ap, ◌∙◌, Bool, true, false, not, ok,
  ◌==◌, if◌then◌else◌, get_or, set, length, get_or-set_self, get_or-set_ne, length-set, lt→ltb,
  ==_refl, ==_ne, arith,
}
use junlge_pint_os.Common.Bits.{
  bit_at, bit_at-lt, bit_at-bit_or, bit_at-bit_and, bit_at-bit_xor, bit_at-two_pow_self,
  bit_at-two_pow_ne, bit_at-complement, two_pow-lt, differ-one, differ-zero, bit_and-two_pow_clear,
  bit_and-two_pow_set,
}
use junlge_pint_os.Bitmap.{
  Bitmap, elem_idx, bit_mask, element, bitmap_mark, bitmap_reset, bitmap_flip, bitmap_set,
  bitmap_test,
}
use native.Mathlib.Decide.{ℕ_discrete}

-- Bit `i` of the array that a bitmap simulates.
unfoldable pub bit : Bitmap → ℕ → Bool
bit b i = bit_at (element b i) (i % 64) == 1

-- There is an element for every bit, and the bit numbers are far from wrapping.
pub record IsValid (b : Bitmap) : Type 0 where
  pub room : b.bit_cnt ≤ 64 * length b.bits
  pub small : b.bit_cnt < 2 ^ 63

-- A write of one element that changes at most bit `i`.
module _ (b : Bitmap) (i w : ℕ) (v : Bool) (inside : elem_idx i < length b.bits)
    (self : (bit_at w (i % 64) == 1) ≡ v)
    (others : (k : ℕ) → k < 64 → i % 64 ≢ k → bit_at w k ≡ bit_at (element b i) k) where
  abbrev written : Bitmap
  written = record b { bits = set b.bits (elem_idx i) w }

  bit-written_self : bit written i ≡ v
  unfolding bit
  bit-written_self = rw (get_or-set_self b.bits (elem_idx i) w 0 inside) self

  bit-written_ne : (j : ℕ) → i ≢ j → bit written j ≡ bit b j
  unfolding bit
  bit-written_ne j ne = elim (ℕ_discrete (i / 64) (j / 64)) [
    | yes e ↦
        ap (λ n. n == 1)
          (ap (λ k. bit_at (get_or (set b.bits (elem_idx i) w) k 0) (j % 64)) (sym e)
            ∙ ap (λ n. bit_at n (j % 64)) (get_or-set_self b.bits (elem_idx i) w 0 inside)
            ∙ others (j % 64) (omega arith) (λ p. ne (omega arith))
            ∙ ap (λ k. bit_at (get_or b.bits k 0) (j % 64)) e)
    | no far ↦ rw (get_or-set_ne b.bits (elem_idx i) (elem_idx j) w 0 far)
  ]

  bit-written : (j : ℕ) → bit written j ≡ (if i == j then v else bit b j)
  bit-written j = elim (ℕ_discrete i j) [
    | yes e ↦ rw (← e, ==_refl i) bit-written_self
    | no ne ↦ rw (==_ne i j ne) (bit-written_ne j ne)
  ]

module _ (b : Bitmap) (i : ℕ) (valid : IsValid b) where
  pub bitmap_mark-IsValid : IsValid (bitmap_mark b i)
  unfolding bitmap_mark
  bitmap_mark-IsValid =
      omega (arith, length-set b.bits (elem_idx i) (bit_or (element b i) (bit_mask i)))

  pub bitmap_reset-IsValid : IsValid (bitmap_reset b i)
  unfolding bitmap_reset
  bitmap_reset-IsValid =
      omega
        (arith, length-set b.bits (elem_idx i) (bit_and (element b i) (2 ^ 64 - 1 - bit_mask i)))

module _ (b : Bitmap) (valid : IsValid b) (i : ℕ) (inside : i < b.bit_cnt) where
  in_elements : elem_idx i < length b.bits
  in_elements = omega (arith, valid.room)

  -- `bitmap_mark` sets its bit and leaves every other bit alone.
  pub bit-bitmap_mark : (j : ℕ) → bit (bitmap_mark b i) j ≡ (if i == j then true else bit b j)
  unfolding bitmap_mark
  bit-bitmap_mark j =
      bit-written b i (bit_or (element b i) (bit_mask i)) true in_elements
        (ground (
          arith,
          bit_at-bit_or (element b i) (bit_mask i) (i % 64),
          bit_at-two_pow_self (i % 64),
          bit_at-lt (element b i) (i % 64),
        ))
        (λ k h ne.
          omega
            (arith, bit_at-bit_or (element b i) (bit_mask i) k, bit_at-two_pow_ne (i % 64) k ne))
        j

  mask-lt : bit_mask i < 2 ^ 64
  mask-lt = two_pow-lt (i % 64) 64 (omega arith)

  -- `bitmap_reset` clears its bit and leaves every other bit alone.
  pub bit-bitmap_reset : (j : ℕ) → bit (bitmap_reset b i) j ≡ (if i == j then false else bit b j)
  unfolding bitmap_reset
  bit-bitmap_reset j =
      bit-written b i (bit_and (element b i) (2 ^ 64 - 1 - bit_mask i)) false in_elements
        (ground (
          arith,
          bit_at-bit_and (element b i) (2 ^ 64 - 1 - bit_mask i) (i % 64),
          bit_at-complement 64 (bit_mask i) (i % 64) mask-lt (omega arith),
          bit_at-two_pow_self (i % 64),
        ))
        (λ k h ne. omega (
          arith,
          bit_at-bit_and (element b i) (2 ^ 64 - 1 - bit_mask i) k,
          bit_at-complement 64 (bit_mask i) k mask-lt h,
          bit_at-two_pow_ne (i % 64) k ne,
          bit_at-lt (element b i) k,
        ))
        j

  bit-xored : (bit_at (bit_xor (element b i) (bit_mask i)) (i % 64) == 1) ≡ not (bit b i)
  unfolding bit
  bit-xored = ground (
    arith,
    bit_at-bit_xor (element b i) (bit_mask i) (i % 64)
        ∙ ap (differ (bit_at (element b i) (i % 64))) (bit_at-two_pow_self (i % 64))
        ∙ differ-one (bit_at (element b i) (i % 64)) (bit_at-lt (element b i) (i % 64)),
    bit_at-lt (element b i) (i % 64),
  )

  -- On a valid bitmap, bitmap_flip of an index inside it inverts that bit and keeps every other
  -- one.
  pub bit-bitmap_flip :
      (j : ℕ) → bit (bitmap_flip b i) j ≡ (if i == j then not (bit b i) else bit b j)
  unfolding bitmap_flip
  bit-bitmap_flip j =
      bit-written b i (bit_xor (element b i) (bit_mask i)) (not (bit b i)) in_elements (bit-xored)
        (λ k h ne. omega (
          arith,
          bit_at-bit_xor (element b i) (bit_mask i) k
              ∙ ap (differ (bit_at (element b i) k)) (bit_at-two_pow_ne (i % 64) k ne)
              ∙ differ-zero (bit_at (element b i) k),
        ))
        j

  -- `bitmap_test` reads its bit.
  pub bitmap_test_lem : bitmap_test b i ≡ ok (bit b i)
  unfolding bitmap_test bit
  bitmap_test_lem = rw (lt→ltb i b.bit_cnt inside) (
      ap ok (
        ground (
          arith,
          bit_at-lt (element b i) (i % 64),
          bit_and-two_pow_clear (element b i) (i % 64),
          bit_and-two_pow_set (element b i) (i % 64),
        )))

  -- `bitmap_set` stores the given value in its bit and leaves every other bit alone.
  pub bitmap_set_lem :
      (v : Bool)
      → (b' : Bitmap) × (bitmap_set b i v ≡ ok b')
        × IsValid b'
        × (b'.bit_cnt ≡ b.bit_cnt)
        × ((j : ℕ) → bit b' j ≡ (if i == j then v else bit b j))
  unfolding bitmap_set
  bitmap_set_lem true = (
    bitmap_mark b i,
    rw (lt→ltb i b.bit_cnt inside) refl,
    bitmap_mark-IsValid b i valid,
    refl,
    bit-bitmap_mark,
  )
  bitmap_set_lem false = (
    bitmap_reset b i,
    rw (lt→ltb i b.bit_cnt inside) refl,
    bitmap_reset-IsValid b i valid,
    refl,
    bit-bitmap_reset,
  )
