-- ===== src/Stdlib/Atoi.antt =====
-- lib/stdlib.c: `atoi`, with the tests of characters of ctype.h. An int is kept as its 32 bits, and
-- arithmetic on it wraps.
use junlge_pint_os.Common.{
  ℕ, zero, suc, ◌+◌, ◌-◌, ◌*◌, ◌%◌, ◌^◌, ◌≤◌, ◌<◌, ◌≡◌, refl, ap, ◌∙◌, Bool, true, false, not, ◌&&◌,
  ◌||◌, Option, none, some, List, [], ◌∷◌, ◌++◌, length, leb, ◌==◌, if◌then◌else◌, arith,
}
use junlge_pint_os.Strings.{◌>>=◌}
use junlge_pint_os.Strings.Text.{Text}
use junlge_pint_os.Strings.Tokens.{every, Text-back}

unfoldable pub isdigit : ℕ → Bool
isdigit c = leb 48 c && leb c 57

unfoldable pub isspace : ℕ → Bool
isspace c = (c == 32) || (c == 12) || (c == 10) || (c == 13) || (c == 9) || (c == 11)

unfoldable pub skip_space : ℕ → ℕ → (ℕ → ℕ) → Option ℕ
skip_space zero s m = none
skip_space (suc fuel) s m =
    let rest = skip_space fuel (s + 1) m in if isspace (m s) then rest else some s

-- `value * 10 - digit`.
unfoldable pub shift_digit : ℕ → ℕ → ℕ
shift_digit value c = (value * 10 + 2 ^ 32 - (c - 48)) % 2 ^ 32

unfoldable pub digits_loop : ℕ → ℕ → ℕ → (ℕ → ℕ) → Option ℕ
digits_loop zero s value m = none
digits_loop (suc fuel) s value m =
    let rest = digits_loop fuel (s + 1) (shift_digit value (m s)) m in
    if isdigit (m s) then rest else some value

-- `-value`.
unfoldable pub negate : ℕ → ℕ
negate value = (2 ^ 32 - value) % 2 ^ 32

unfoldable pub atoi : ℕ → ℕ → (ℕ → ℕ) → Option ℕ
atoi fuel s m = do
  s' ← skip_space fuel s m
  value ← digits_loop fuel (if (m s' == 43) || (m s' == 45) then s' + 1 else s') 0 m
  some (if m s' == 45 then value else negate value)

-- The number that digits write, behind the ones that write `n`.
abbrev pub decimal : ℕ → List ℕ → ℕ
decimal n [] = n
decimal n (c ∷ cs) = decimal (n * 10 + (c - 48)) cs

-- What stands behind the digits: nothing, or a character that is no digit.
abbrev pub ends_digits : List ℕ → Bool
ends_digits [] = true
ends_digits (c ∷ cs) = not (isdigit c)

-- A sign or none.
pub data Signs : Type 0 where
  plus minus unsigned : Signs

abbrev pub sign_text : Signs → List ℕ
sign_text plus = 43 ∷ []
sign_text minus = 45 ∷ []
sign_text unsigned = []

-- The 32 bits of the number with that sign.
abbrev pub signed : Signs → ℕ → ℕ
signed minus n = negate (n % 2 ^ 32)
signed plus n = n % 2 ^ 32
signed unsigned n = n % 2 ^ 32

isdigit-zero : isdigit 0 ≡ false
unfolding isdigit
isdigit-zero = refl

-- A further digit, in 32 bits.
shifted :
    (d n value : ℕ)
    → isdigit d ≡ true
    → value ≡ negate (n % 2 ^ 32)
    → shift_digit value d ≡ negate ((n * 10 + (d - 48)) % 2 ^ 32)
unfolding isdigit negate shift_digit
shifted d n value is_digit e =
    let small : d ≤ 57 = ground (arith, is_digit) in omega (arith, small, e)

negate_zero : 0 ≡ negate (0 % 2 ^ 32)
unfolding negate
negate_zero = refl

negate_twice : (n : ℕ) → negate (negate (n % 2 ^ 32)) ≡ n % 2 ^ 32
unfolding negate
negate_twice n = omega arith

digit_no_sign : (d : ℕ) → isdigit d ≡ true → ((d == 43) ≡ false) × ((d == 45) ≡ false)
unfolding isdigit
digit_no_sign d e = (ground (arith, e), ground (arith, e))

digit_no_space : (d : ℕ) → isdigit d ≡ true → isspace d ≡ false
unfolding isdigit isspace
digit_no_space d e = ground (arith, e)

sign_no_space : (isspace 43 ≡ false) × (isspace 45 ≡ false)
unfolding isspace
sign_no_space = (refl, refl)

module _ (m : ℕ → ℕ) where
  digits_loop_lem :
      (ds rest : List ℕ) (s n value fuel : ℕ)
      → Text m s (ds ++ rest)
      → every isdigit ds ≡ true
      → ends_digits rest ≡ true
      → value ≡ negate (n % 2 ^ 32)
      → length ds < fuel
      → digits_loop fuel s value m ≡ some (negate (decimal n ds % 2 ^ 32))
  unfolding digits_loop every
  digits_loop_lem ds rest s n value zero h all stop e lt = absurd (omega (arith, lt))
  digits_loop_lem [] [] s n value (suc fuel) h all stop e lt = rw (h, isdigit-zero) (ap some e)
  digits_loop_lem [] (c ∷ rest) s n value (suc fuel) h all stop e lt =
      let no_digit : isdigit c ≡ false = ground (arith, stop) in rw (h.0, no_digit) (ap some e)
  digits_loop_lem (d ∷ ds) rest s n value (suc fuel) h all stop e lt =
      let is_digit : isdigit d ≡ true = ground (arith, all) in
      rw (h.0, is_digit)
        (digits_loop_lem ds rest (s + 1) (n * 10 + (d - 48)) (shift_digit value d) fuel h.2
          (ground (arith, all)) stop (shifted d n value is_digit e) (omega (arith, lt)))

  skip_space_lem :
      (sp : List ℕ) (c : ℕ) (rest : List ℕ) (s fuel : ℕ)
      → Text m s (sp ++ c ∷ rest)
      → every isspace sp ≡ true
      → isspace c ≡ false
      → length sp < fuel
      → skip_space fuel s m ≡ some (s + length sp)
  unfolding skip_space every
  skip_space_lem sp c rest s zero h all stop lt = absurd (omega (arith, lt))
  skip_space_lem [] c rest s (suc fuel) h all stop lt = rw (h.0, stop) (ap some (omega arith))
  skip_space_lem (x ∷ sp) c rest s (suc fuel) h all stop lt =
      let is_space : isspace x ≡ true = ground (arith, all) in
      rw (h.0, is_space)
        (skip_space_lem sp c rest (s + 1) fuel h.2 (ground (arith, all)) stop (omega (arith, lt))
          ∙ ap some (omega arith))

  -- From the sign on, at `s`.
  signed_lem :
      (g : Signs) (d : ℕ) (ds rest : List ℕ) (s fuel : ℕ)
      → Text m s (sign_text g ++ (d ∷ (ds ++ rest)))
      → every isdigit (d ∷ ds) ≡ true
      → ends_digits rest ≡ true
      → length ds + 1 < fuel
      → (digits_loop fuel (if (m s == 43) || (m s == 45) then s + 1 else s) 0 m
          >>= (λ value. some (if m s == 45 then value else negate value)))
        ≡ some (signed g (decimal 0 (d ∷ ds)))
  unfolding every
  signed_lem plus d ds rest s fuel h all stop lt =
      rw
        (
          h.0,
          digits_loop_lem (d ∷ ds) rest (s + 1) 0 0 fuel h.2 all stop negate_zero
              (omega (arith, lt)),
        )
        (ap some (negate_twice (decimal 0 (d ∷ ds))))
  signed_lem minus d ds rest s fuel h all stop lt =
      rw
        (
          h.0,
          digits_loop_lem (d ∷ ds) rest (s + 1) 0 0 fuel h.2 all stop negate_zero
              (omega (arith, lt)),
        )
        refl
  signed_lem unsigned d ds rest s fuel h all stop lt =
      let is_digit : isdigit d ≡ true = ground (arith, all) in
      let no_sign = digit_no_sign d is_digit in
      rw
        (
          h.0,
          no_sign.0,
          no_sign.1,
          digits_loop_lem (d ∷ ds) rest s 0 0 fuel h all stop negate_zero (omega (arith, lt)),
        )
        (ap some (negate_twice (decimal 0 (d ∷ ds))))

  -- If at s stands a string of white space, a sign or none, at least one digit, and then nothing
  -- or a character that is no digit, then with more fuel than the number of these spaces and
  -- digits atoi returns the 32 bits of the number that the digits write, negated after a minus.
  pub atoi_lem :
      (sp : List ℕ) (g : Signs) (d : ℕ) (ds rest : List ℕ) (s fuel : ℕ)
      → Text m s (sp ++ (sign_text g ++ (d ∷ (ds ++ rest))))
      → every isspace sp ≡ true
      → every isdigit (d ∷ ds) ≡ true
      → ends_digits rest ≡ true
      → length sp + length ds + 1 < fuel
      → atoi fuel s m ≡ some (signed g (decimal 0 (d ∷ ds)))
  unfolding atoi every
  atoi_lem sp g d ds rest s fuel h spaces all stop lt = rw (skipped g h) (
      signed_lem g d ds rest (s + length sp) fuel
        (Text-back m sp (sign_text g ++ (d ∷ (ds ++ rest))) s h) all stop (omega (arith, lt)))
    where
      skipped :
          (g : Signs)
          → Text m s (sp ++ (sign_text g ++ (d ∷ (ds ++ rest))))
          → skip_space fuel s m ≡ some (s + length sp)
      skipped plus t =
          skip_space_lem sp 43 (d ∷ (ds ++ rest)) s fuel t spaces sign_no_space.0
            (omega (arith, lt))
      skipped minus t =
          skip_space_lem sp 45 (d ∷ (ds ++ rest)) s fuel t spaces sign_no_space.1
            (omega (arith, lt))
      skipped unsigned t =
          skip_space_lem sp d (ds ++ rest) s fuel t spaces (digit_no_space d (ground (arith, all)))
            (omega (arith, lt))
