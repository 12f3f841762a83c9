-- ===== src/Tests/Numbers.antt =====
-- lib/random.c from a generator that was not initialised, and lib/arithmetic.c on some numbers.
use junlge_pint_os.Common.{◌-◌, ◌/◌, ◌%◌, ◌^◌, ◌<◌, ◌≡◌, refl, false, arith, ok, panic}
use junlge_pint_os.Arithmetic.{
  divl, shift_below, nlz, udiv64_small, udiv64_large, settle, udiv64, umod64, negative, negated,
  same, sdiv64,
}
use junlge_pint_os.Arithmetic.Small.{udiv64_lem, umod64_lem, umod64_truncates}
use junlge_pint_os.Random.{Prng, random_init, random_bytes, random_ulong}
use junlge_pint_os.Random.Permutes.{IsPermutation, IsPrng, random_init-IsPrng, random_ulong_lem}
use junlge_pint_os.Random.Stream.{IsStream, random_bytes_lem}

abbrev blank : Prng
blank = record { s = λ i. 0; s_i = 0; s_j = 0; inited = false }

blank-IsPrng : IsPrng blank
blank-IsPrng = record { s_i_in = omega arith; s_j_in = omega arith; holds = λ e. cc e }

random_init_run : IsPrng (random_init 2026 blank) × IsPermutation (random_init 2026 blank).s
random_init_run = random_init-IsPrng 2026 blank

random_bytes_example :
    IsStream blank 5 (random_bytes 5 blank).0 (random_bytes 5 blank).1
    × IsPrng (random_bytes 5 blank).1
random_bytes_example = random_bytes_lem 5 blank blank-IsPrng

random_ulong_run : ((random_ulong blank).0 < 2 ^ 64) × IsPrng (random_ulong blank).1
random_ulong_run = random_ulong_lem blank blank-IsPrng

udiv64_example : udiv64 (2 ^ 63) 10 ≡ ok (2 ^ 63 / 10)
udiv64_example = udiv64_lem (2 ^ 63) 10 (omega arith) (omega arith) (omega arith)

umod64_run : umod64 (2 ^ 63) 10 ≡ ok (2 ^ 63 % 10)
umod64_run = umod64_lem (2 ^ 63) 10 (omega arith) (omega arith) (omega arith)

umod64_truncated_example : umod64 (2 ^ 33) (2 ^ 40) ≡ ok (2 ^ 33 % 2 ^ 32)
umod64_truncated_example =
    umod64_truncates (2 ^ 33) (2 ^ 40) (omega arith) (omega arith) (omega arith)

udiv64_by_large : udiv64 (2 ^ 64 - 1) (2 ^ 40 - 7) ≡ ok ((2 ^ 64 - 1) / (2 ^ 40 - 7))
unfolding udiv64 udiv64_large settle nlz shift_below divl
udiv64_by_large = refl

udiv64_by_zero : udiv64 5 0 ≡ panic
unfolding udiv64 udiv64_small
udiv64_by_zero = refl

-- -7 divided by 2.
sdiv64_negative : sdiv64 (2 ^ 64 - 7) 2 ≡ ok (2 ^ 64 - 3)
unfolding sdiv64 negative negated same udiv64 udiv64_small divl
sdiv64_negative = refl
