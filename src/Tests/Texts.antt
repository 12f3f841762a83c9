-- ===== src/Tests/Texts.antt =====
-- lib/string.c on a memory with the strings "ab,c", "," and "b,".
use junlge_pint_os.Common.{
  ℕ, zero, suc, ◌+◌, ◌-◌, ◌≤◌, ◌<◌, ◌≡◌, refl, ◌⊎◌, ◌↔◌, inr, some, List, [], ◌∷◌, ◌++◌, length,
  get_or, take, All, arith,
}
use junlge_pint_os.Strings.{equal, memmove, strcmp, strstr}
use junlge_pint_os.Strings.Text.{Text, lexical, first_place, pointer, contains}
use junlge_pint_os.Strings.Copy.{copied, memmove_lem}
use junlge_pint_os.Strings.Compare.{strcmp_lem}
use junlge_pint_os.Strings.Spans.{strstr_lem}
use junlge_pint_os.Strings.Bounded.{strlcpy, strlcat, strlcpy_lem, strlcat_lem}
use junlge_pint_os.Strings.Tokens.{every, strtok_r, CutAt, strtok_r_lem}
use junlge_pint_os.Hash.{hash_string, hash_bytes}
use junlge_pint_os.Hash.Values.{hash_string_lem}

abbrev bytes : List ℕ
bytes = 0 ∷ 97 ∷ 98 ∷ 44 ∷ 99 ∷ 0 ∷ 44 ∷ 0 ∷ 98 ∷ 44 ∷ 0 ∷ []

abbrev memory : ℕ → ℕ
memory a = get_or bytes a 0

get_or-lt : (xs : List ℕ) (a : ℕ) → All (λ x. x < 256) xs → get_or xs a 0 < 256
get_or-lt [] a h = omega arith
get_or-lt (x ∷ xs) zero h = h.0
get_or-lt (x ∷ xs) (suc a) h = get_or-lt xs a h.1

bytes-lt : All (λ x. x < 256) bytes
bytes-lt = (
  omega arith,
  (
    omega arith,
    (
      omega arith,
      (
        omega arith,
        (
          omega arith,
          (
            omega arith,
            (omega arith, (omega arith, (omega arith, (omega arith, (omega arith, tt))))),
          ),
        ),
      ),
    ),
  ),
)

abbrev words : List ℕ
words = 97 ∷ 98 ∷ 44 ∷ 99 ∷ []

words-Text : Text memory 1 words
words-Text = (
  refl,
  λ q. omega (arith, q),
  (refl, λ q. omega (arith, q), (refl, λ q. omega (arith, q), (refl, λ q. omega (arith, q), refl))),
)

abbrev b_comma : List ℕ
b_comma = 98 ∷ 44 ∷ []

comma-Text : Text memory 6 (44 ∷ [])
comma-Text = (refl, λ q. omega (arith, q), refl)

b_comma-Text : Text memory 8 b_comma
b_comma-Text = (refl, λ q. omega (arith, q), (refl, λ q. omega (arith, q), refl))

-- The blocks overlap.
memmove_example :
    ((a : ℕ) → (memmove 1 2 3 memory).1 a ≡ copied 1 2 3 memory a)
    × (2 ≤ 1 → (memmove 1 2 3 memory).0 ≡ 1)
    × (1 < 2 → (memmove 1 2 3 memory).0 ≡ 1 + 3)
memmove_example = memmove_lem 1 2 3 memory

strcmp_example :
    (strcmp 9 1 8 memory ≡ some (lexical words b_comma))
    × ((lexical words b_comma ≡ equal) ↔ (words ≡ b_comma))
strcmp_example = strcmp_lem memory words b_comma 1 8 9 words-Text b_comma-Text (omega arith)

strstr_example : strstr 9 1 8 memory ≡ some (pointer 1 (first_place b_comma words))
strstr_example = strstr_lem memory b_comma 8 b_comma-Text words 1 9 words-Text (omega arith)

strlcpy_example :
    (m' : ℕ → ℕ) × (strlcpy 9 20 1 3 memory ≡ some (length words, m'))
    × (0 < 3 → Text m' 20 (take (3 - 1) words))
    × ((a : ℕ) → (a < 20) ⊎ (20 + 3 ≤ a) → m' a ≡ memory a)
strlcpy_example = strlcpy_lem memory words 20 1 3 9 words-Text (omega arith) (inr (omega arith))

strlcat_example :
    (m' : ℕ → ℕ) × (strlcat 9 8 1 4 memory ≡ some (length words + length b_comma, m'))
    × Text m' 8 (b_comma ++ take (4 - length b_comma - 1) words)
    × ((a : ℕ) → (a < 8) ⊎ (8 + 4 ≤ a) → m' a ≡ memory a)
strlcat_example =
    strlcat_lem memory b_comma words 8 1 4 9 b_comma-Text words-Text (omega arith) (omega arith)
      (omega arith) (inr (omega arith))

-- The token "ab" of "ab,c".
strtok_r_example :
    (next : ℕ) × (m' : ℕ → ℕ) × (strtok_r 9 1 6 0 memory ≡ some (1 + length {A = ℕ} [], next, m'))
    × CutAt memory m' (1 + length {A = ℕ} []) (97 ∷ 98 ∷ []) next (44 ∷ 99 ∷ [])
unfolding every contains
strtok_r_example =
    strtok_r_lem memory (λ a. get_or-lt bytes a bytes-lt) (44 ∷ []) 6 comma-Text (omega arith) [] 97
      (98 ∷ []) (44 ∷ 99 ∷ []) 1 0 9 1 refl words-Text refl refl refl (omega arith)

hash_string_run : hash_string 9 1 memory ≡ some (hash_bytes 1 (length words) memory)
hash_string_run = hash_string_lem memory words 1 9 words-Text (omega arith)
