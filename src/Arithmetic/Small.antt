-- ===== src/Arithmetic/Small.antt =====
-- lib/arithmetic.c: division by a divisor that fits in 32 bits, and remainders.
use native.Mathlib.Nat.{
  mod-lt, mod-add-div, mod-add-div', mul_assoc, div-le_self, add-mul-div_right, div-lt_iff_lt-mul,
}
use junlge_pint_os.Common.{
  ℕ, ◌+◌, ◌*◌, ◌/◌, ◌%◌, ◌^◌, ◌≤◌, ◌<◌, ◌≡◌, ◌≢◌, refl, sym, ap, ◌∙◌, true, false, ok, ◌==◌, ==_ne,
  lt→leb_false, lt→ltb, arith,
}
use junlge_pint_os.Arithmetic.{divl, udiv64_small, udiv64, umod64}

-- DIVL does not trap where the quotient is small enough.
divl_lem : (n d : ℕ) → d ≢ 0 → n < 2 ^ 32 * d → divl n d ≡ ok (n / d)
unfolding divl
divl_lem n d ne lt = rw (==_ne d 0 ne, lt→leb_false (2 ^ 32) (n / d) fits) refl
  where
    fits : n / d < 2 ^ 32
    fits = (div-lt_iff_lt-mul (omega (arith, ne))).1 lt

module _ (n d : ℕ) (ne : d ≢ 0) where
  abbrev high : ℕ
  high = n / 2 ^ 32

  -- The number that DIVL divides.
  abbrev rest : ℕ
  rest = 2 ^ 32 * (high % d) + n % 2 ^ 32

  rest-lt : rest < 2 ^ 32 * d
  rest-lt = omega (arith, mod-lt high {m = d} (omega (arith, ne)))

  quotient : rest / d + 2 ^ 32 * (high / d) ≡ n / d
  quotient =
      sym (add-mul-div_right rest (2 ^ 32 * (high / d)) (omega (arith, ne)))
      ∙ ap (λ x. x / d) (omega (arith, mod-add-div' high d, mul_assoc (2 ^ 32) (high / d) d))

  udiv64_small_lem : n < 2 ^ 64 → d < 2 ^ 32 → udiv64_small n d ≡ ok (n / d)
  unfolding udiv64_small
  udiv64_small_lem n_in d_in =
      rw (mod_small d_in, ==_ne d 0 ne, rest_small, divl_lem rest d ne rest-lt)
        (ap ok (omega (arith, quotient, div-le_self n d, n_in)))
    where
      mod_small : {x : ℕ} → x < 2 ^ 32 → x % 2 ^ 32 ≡ x
      mod_small h = omega (arith, h)

      rest_small : rest % 2 ^ 64 ≡ rest
      rest_small = omega (arith, rest-lt, d_in)

-- For n below 2^64 and a divisor d that is not 0 and below 2^32, udiv64 does not trap and returns
-- the quotient of n by d.
pub udiv64_lem : (n d : ℕ) → n < 2 ^ 64 → d ≢ 0 → d < 2 ^ 32 → udiv64 n d ≡ ok (n / d)
unfolding udiv64
udiv64_lem n d n_in ne d_in = rw (high_zero) (udiv64_small_lem n d ne n_in d_in)
  where
    high_zero : (d / 2 ^ 32 == 0) ≡ true
    high_zero = ground (arith, d_in)

-- For n below 2^64 and a divisor d that is not 0 and below 2^32, umod64 does not trap and returns
-- the remainder of n by d.
pub umod64_lem : (n d : ℕ) → n < 2 ^ 64 → d ≢ 0 → d < 2 ^ 32 → umod64 n d ≡ ok (n % d)
unfolding umod64
umod64_lem n d n_in ne d_in =
    rw (udiv64_lem n d n_in ne d_in)
      (ap ok (omega (arith, n_in, d_in, mod-add-div n d, mod-lt n {m = d} (omega (arith, ne)))))

-- For n below d, where d is from 2^32 to below 2^64, umod64 returns n mod 2^32, although the
-- remainder is n.
pub umod64_truncates : (n d : ℕ) → n < d → d < 2 ^ 64 → 2 ^ 32 ≤ d → umod64 n d ≡ ok (n % 2 ^ 32)
unfolding umod64 udiv64
umod64_truncates n d lt d_in large = rw (high_some, lt→ltb n d lt) (ap ok (omega (arith, lt, d_in)))
  where
    high_some : (d / 2 ^ 32 == 0) ≡ false
    high_some = ground (arith, large)
