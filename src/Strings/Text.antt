-- ===== src/Strings/Text.antt =====
-- lib/string.c: a string in memory as the list of its bytes, and the plain description of what the
-- functions look for in such lists.
use junlge_pint_os.Common.{
  ℕ, suc, ◌+◌, ◌≡◌, ◌≢◌, refl, Bool, true, false, ◌||◌, Option, none, some, List, [], ◌∷◌, ◌==◌,
  if◌then◌else◌, arith,
}
use junlge_pint_os.Strings.{Sign, negative, equal, positive, order}

-- At `s` memory holds the bytes `cs`, none of them zero, and then a zero byte.
abbrev pub Text : (ℕ → ℕ) → ℕ → List ℕ → Type 0
Text m s [] = m s ≡ 0
Text m s (c ∷ cs) = (m s ≡ c) × (c ≢ 0) × Text m (s + 1) cs

-- At `s` memory holds the bytes `cs`.
abbrev pub Block : (ℕ → ℕ) → ℕ → List ℕ → Type 0
Block m s [] = Unit {0}
Block m s (c ∷ cs) = (m s ≡ c) × Block m (s + 1) cs

-- The order of a dictionary.
unfoldable pub lexical : List ℕ → List ℕ → Sign
lexical [] [] = equal
lexical [] (y ∷ ys) = negative
lexical (x ∷ xs) [] = positive
lexical (x ∷ xs) (y ∷ ys) = if x == y then lexical xs ys else order x y

unfoldable pub contains : ℕ → List ℕ → Bool
contains c [] = false
contains c (x ∷ xs) = (x == c) || contains c xs

abbrev pub later : Option ℕ → Option ℕ
later none = none
later (some i) = some (i + 1)

-- The first index of `c`.
unfoldable pub first_index : ℕ → List ℕ → Option ℕ
first_index c [] = none
first_index c (x ∷ xs) = if x == c then some 0 else later (first_index c xs)

abbrev pub or_else : Option ℕ → Option ℕ → Option ℕ
or_else none o = o
or_else (some i) o = some i

-- The last index of `c`.
unfoldable pub last_index : ℕ → List ℕ → Option ℕ
last_index c [] = none
last_index c (x ∷ xs) = or_else (later (last_index c xs)) (if x == c then some 0 else none)

-- How many members at the front satisfy `p`.
unfoldable pub prefix_length : (ℕ → Bool) → List ℕ → ℕ
prefix_length p [] = 0
prefix_length p (x ∷ xs) = if p x then suc (prefix_length p xs) else 0

unfoldable pub is_prefix : List ℕ → List ℕ → Bool
is_prefix [] xs = true
is_prefix (y ∷ ys) [] = false
is_prefix (y ∷ ys) (x ∷ xs) = if x == y then is_prefix ys xs else false

-- The first place in `xs` where `ys` stands.
unfoldable pub first_place : List ℕ → List ℕ → Option ℕ
first_place ys [] = if is_prefix ys [] then some 0 else none
first_place ys (x ∷ xs) = if is_prefix ys (x ∷ xs) then some 0 else later (first_place ys xs)

-- An index as a pointer into the string at `s`.
abbrev pub pointer : ℕ → Option ℕ → ℕ
pointer s none = 0
pointer s (some i) = s + i

pub pointer-later : (s : ℕ) (o : Option ℕ) → pointer s (later o) ≡ pointer (s + 1) o
pointer-later s none = refl
pointer-later s (some i) = omega arith

-- Only equal lists are equal in the order of a dictionary.
pub lexical-equal : (xs ys : List ℕ) → lexical xs ys ≡ equal → xs ≡ ys
unfolding lexical order
lexical-equal [] [] h = refl
lexical-equal [] (y ∷ ys) h = cc
lexical-equal (x ∷ xs) [] h = cc
lexical-equal (x ∷ xs) (y ∷ ys) h = ground (arith, lexical-equal xs ys)

pub lexical_self : (xs : List ℕ) → lexical xs xs ≡ equal
unfolding lexical
lexical_self [] = refl
lexical_self (x ∷ xs) = ground (arith, lexical_self xs)
