-- ===== src/Strings/Tokens.antt =====
-- lib/string.c: `strtok_r`, which takes the tokens of a string one after the other.
use junlge_pint_os.Common.{
  ℕ, zero, suc, ◌+◌, ◌≤◌, ◌<◌, ◌≡◌, ◌≢◌, refl, sym, ap, ◌∙◌, subst, Bool, true, false, not, ◌&&◌,
  Option, none, some, List, [], ◌∷◌, ◌++◌, length, ◌==◌, ==_ne, if◌then◌else◌, arith,
}
use junlge_pint_os.Threads.State.{update}
use junlge_pint_os.Strings.{found_in, strchr, ◌>>=◌}
use junlge_pint_os.Strings.Text.{Text, contains}
use junlge_pint_os.Strings.Search.{found_in_lem, strchr_loop_end}

-- How the first loop ends: at the end of the string, or at the start of a token.
pub data Skipped : Type 0 where
  at_end at_token : ℕ → Skipped

unfoldable pub skip_delimiters : ℕ → ℕ → ℕ → (ℕ → ℕ) → Option Skipped
skip_delimiters zero s delimiters m = none
skip_delimiters (suc fuel) s delimiters m =
    let rest = skip_delimiters fuel (s + 1) delimiters m in
    found_in (suc fuel) delimiters (m s) m >>= λ hit.
    if hit then (if m s == 0 then some (at_end s) else rest) else some (at_token s)

unfoldable pub skip_token : ℕ → ℕ → ℕ → (ℕ → ℕ) → Option ℕ
skip_token zero s delimiters m = none
skip_token (suc fuel) s delimiters m =
    let rest = skip_token fuel (s + 1) delimiters m in
    found_in (suc fuel) delimiters (m s) m >>= λ hit. if hit then some s else rest

-- The token, `*save_ptr` and the memory, where the token ends at `s`.
unfoldable pub cut : ℕ → ℕ → (ℕ → ℕ) → ℕ × ℕ × (ℕ → ℕ)
cut token s m = if not (m s == 0) then (token, s + 1, update m s 0) else (token, s, m)

unfoldable pub tokenise : ℕ → ℕ → (ℕ → ℕ) → Skipped → Option (ℕ × ℕ × (ℕ → ℕ))
tokenise fuel delimiters m (at_end s) = some (0, s, m)
tokenise fuel delimiters m (at_token s) = do
  end ← skip_token fuel s delimiters m
  some (cut s end m)

unfoldable pub strtok_r : ℕ → ℕ → ℕ → ℕ → (ℕ → ℕ) → Option (ℕ × ℕ × (ℕ → ℕ))
strtok_r fuel s delimiters save_ptr m = do
  skipped ← skip_delimiters fuel (if s == 0 then save_ptr else s) delimiters m
  tokenise fuel delimiters m skipped

unfoldable pub every : (ℕ → Bool) → List ℕ → Bool
every p [] = true
every p (x ∷ xs) = p x && every p xs

-- What stands behind a token: nothing, or a delimiter.
abbrev pub stops : List ℕ → List ℕ → Bool
stops set [] = true
stops set (z ∷ zs) = contains z set

abbrev pub tail : List ℕ → List ℕ
tail [] = []
tail (z ∷ zs) = zs

pub Text-back :
    (m : ℕ → ℕ) (xs ys : List ℕ) (s : ℕ) → Text m s (xs ++ ys) → Text m (s + length xs) ys
Text-back m [] ys s h = subst (λ a. Text m a ys) (omega arith) h
Text-back m (x ∷ xs) ys s h = subst (λ a. Text m a ys) (omega arith) (Text-back m xs ys (s + 1) h.2)

-- A string whose first part is closed by a zero byte.
Text-front :
    (m m' : ℕ → ℕ) (xs ys : List ℕ) (s : ℕ)
    → Text m s (xs ++ ys)
    → ((a : ℕ) → s ≤ a → a < s + length xs → m' a ≡ m a)
    → m' (s + length xs) ≡ 0
    → Text m' s xs
Text-front m m' [] ys s h same end = ap m' (omega arith) ∙ end
Text-front m m' (x ∷ xs) ys s h same end = (
  same s (omega arith) (omega arith) ∙ h.0,
  h.1,
  Text-front m m' xs ys (s + 1) h.2
      (λ a from below. same a (omega (arith, from)) (omega (arith, below)))
      (ap m' (omega arith) ∙ end),
)

Text-same :
    (m m' : ℕ → ℕ) (xs : List ℕ) (s : ℕ)
    → Text m s xs
    → ((a : ℕ) → s ≤ a → m' a ≡ m a)
    → Text m' s xs
Text-same m m' [] s h same = same s (omega arith) ∙ h
Text-same m m' (x ∷ xs) s h same = (
  same s (omega arith) ∙ h.0,
  h.1,
  Text-same m m' xs (s + 1) h.2 (λ a from. same a (omega (arith, from))),
)

-- Memory with the token at `t` closed by a zero byte, and the next call's string at `save`.
abbrev pub CutAt : (ℕ → ℕ) → (ℕ → ℕ) → ℕ → List ℕ → ℕ → List ℕ → Type 0
CutAt m m' t ys save zs =
    Text m' t ys × Text m' save (tail zs) × ((a : ℕ) → a ≢ t + length ys → m' a ≡ m a)

-- Cutting at the first byte behind a token.
cut_lem :
    (m : ℕ → ℕ) (ys zs : List ℕ) (t : ℕ)
    → Text m t (ys ++ zs)
    → (save : ℕ) × (m' : ℕ → ℕ) × (cut t (t + length ys) m ≡ (t, save, m'))
      × CutAt m m' t ys save zs
unfolding cut
cut_lem m ys [] t h =
    let end : m (t + length ys) ≡ 0 = Text-back m ys [] t h in
    (
      t + length ys,
      m,
      rw (end) refl,
      (Text-front m m ys [] t h (λ a from below. refl) end, end, λ a ne. refl),
    )
cut_lem m ys (z ∷ zs) t h =
    let back = Text-back m ys (z ∷ zs) t h in
    (
      t + length ys + 1,
      update m (t + length ys) 0,
      rw (==_ne (m (t + length ys)) 0 (λ q. back.1 (sym back.0 ∙ q))) refl,
      (
        Text-front m (update m (t + length ys) 0) ys (z ∷ zs) t h
            (λ a from below. ground (arith, below)) (ground arith),
        Text-same m (update m (t + length ys) 0) zs (t + length ys + 1) back.2
            (λ a from. ground (arith, from)),
        λ a ne. ground (arith, ne),
      ),
    )

module _ (m : ℕ → ℕ) (bytes : (a : ℕ) → m a < 256) (set : List ℕ) (at : ℕ) (is_set : Text m at set)
    (pos : 0 < at) where
  found_at :
      (s c fuel : ℕ)
      → m s ≡ c
      → c ≢ 0
      → length set < fuel
      → found_in fuel at (m s) m ≡ some (contains c set)
  found_at s c fuel e ne lt =
      subst (λ x. found_in fuel at x m ≡ some (contains c set)) (sym e)
        (found_in_lem m set at c fuel is_set lt pos ne (subst (λ x. x < 256) e (bytes s)))

  -- Every string holds its zero byte.
  found_at_end : (s fuel : ℕ) → m s ≡ 0 → length set < fuel → found_in fuel at (m s) m ≡ some true
  unfolding found_in strchr
  found_at_end s fuel e lt =
      rw
        (
          e,
          strchr_loop_end m set at fuel is_set lt,
          ==_ne (at + length set) 0 (λ q. omega (arith, q)),
        )
        refl

  skip_delimiters_lem :
      (xs : List ℕ) (y : ℕ) (ys : List ℕ) (s fuel : ℕ)
      → Text m s (xs ++ y ∷ ys)
      → every (λ c. contains c set) xs ≡ true
      → contains y set ≡ false
      → length xs + length set < fuel
      → skip_delimiters fuel s at m ≡ some (at_token (s + length xs))
  unfolding skip_delimiters every
  skip_delimiters_lem xs y ys s zero h skip token lt = absurd (omega (arith, lt))
  skip_delimiters_lem [] y ys s (suc fuel) h skip token lt =
      rw (found_at s y (suc fuel) h.0 h.1 (omega (arith, lt)), token)
        (ap (λ a. some (at_token a)) (omega arith))
  skip_delimiters_lem (x ∷ xs) y ys s (suc fuel) h skip token lt =
      let hit : contains x set ≡ true = ground (arith, skip) in
      rw
        (
          found_at s x (suc fuel) h.0 h.1 (omega (arith, lt)),
          hit,
          ==_ne (m s) 0 (λ q. h.1 (sym h.0 ∙ q)),
        )
        (skip_delimiters_lem xs y ys (s + 1) fuel h.2 (ground (arith, skip)) token
            (omega (arith, lt))
          ∙ ap (λ a. some (at_token a)) (omega arith))

  skip_to_end :
      (xs : List ℕ) (s fuel : ℕ)
      → Text m s xs
      → every (λ c. contains c set) xs ≡ true
      → length xs + length set < fuel
      → skip_delimiters fuel s at m ≡ some (at_end (s + length xs))
  unfolding skip_delimiters every
  skip_to_end xs s zero h skip lt = absurd (omega (arith, lt))
  skip_to_end [] s (suc fuel) h skip lt =
      rw (found_at_end s (suc fuel) h (omega (arith, lt)))
        (rw (h) (ap (λ a. some (at_end a)) (omega arith)))
  skip_to_end (x ∷ xs) s (suc fuel) h skip lt =
      let hit : contains x set ≡ true = ground (arith, skip) in
      rw
        (
          found_at s x (suc fuel) h.0 h.1 (omega (arith, lt)),
          hit,
          ==_ne (m s) 0 (λ q. h.1 (sym h.0 ∙ q)),
        )
        (skip_to_end xs (s + 1) fuel h.2 (ground (arith, skip)) (omega (arith, lt))
          ∙ ap (λ a. some (at_end a)) (omega arith))

  skip_token_lem :
      (ys zs : List ℕ) (s fuel : ℕ)
      → Text m s (ys ++ zs)
      → every (λ c. not (contains c set)) ys ≡ true
      → stops set zs ≡ true
      → length ys + length set < fuel
      → skip_token fuel s at m ≡ some (s + length ys)
  unfolding skip_token every
  skip_token_lem ys zs s zero h token stop lt = absurd (omega (arith, lt))
  skip_token_lem [] [] s (suc fuel) h token stop lt =
      rw (found_at_end s (suc fuel) h (omega (arith, lt))) (ap some (omega arith))
  skip_token_lem [] (z ∷ zs) s (suc fuel) h token stop lt =
      rw (found_at s z (suc fuel) h.0 h.1 (omega (arith, lt)), stop) (ap some (omega arith))
  skip_token_lem (y ∷ ys) zs s (suc fuel) h token stop lt =
      let miss : contains y set ≡ false = ground (arith, token) in
      rw (found_at s y (suc fuel) h.0 h.1 (omega (arith, lt)), miss)
        (skip_token_lem ys zs (s + 1) fuel h.2 (ground (arith, token)) stop (omega (arith, lt))
          ∙ ap some (omega arith))

  -- If all of memory is bytes, the delimiters stand as a string at an address that is not null,
  -- and at s, or at the saved position where s is null, stands a string of delimiters xs, then y
  -- and ys that are no delimiters, then zs that is empty or starts with a delimiter, then with
  -- fuel above the lengths of xs, ys and the delimiters plus one strtok_r returns the address of
  -- y, where now stands the string of y and ys; at the new saved position stands zs without its
  -- first byte; and no byte of memory has changed but the one behind the token.
  pub strtok_r_lem :
      (xs : List ℕ) (y : ℕ) (ys zs : List ℕ) (s save fuel : ℕ)
      → (where_to : ℕ) → where_to ≡ (if s == 0 then save else s)
      → Text m where_to (xs ++ (y ∷ (ys ++ zs)))
      → every (λ c. contains c set) xs ≡ true
      → every (λ c. not (contains c set)) (y ∷ ys) ≡ true
      → stops set zs ≡ true
      → length xs + length ys + length set + 1 < fuel
      → (next : ℕ) × (m' : ℕ → ℕ) × (strtok_r fuel s at save m
          ≡ some (where_to + length xs, next, m'))
        × CutAt m m' (where_to + length xs) (y ∷ ys) next zs
  unfolding strtok_r tokenise every
  strtok_r_lem xs y ys zs s save fuel start from h skip token stop lt =
      let miss : contains y set ≡ false = ground (arith, token) in
      let t = start + length xs in
      let rest = Text-back m xs (y ∷ (ys ++ zs)) start h in
      let result = cut_lem m (y ∷ ys) zs t rest in
      (
        result.0,
        result.1,
        rw
            (
              ← from,
              skip_delimiters_lem xs y (ys ++ zs) start fuel h skip miss (omega (arith, lt)),
              skip_token_lem (y ∷ ys) zs t fuel rest token stop (omega (arith, lt)),
            )
            (ap some result.2),
        result.3,
      )

  -- Where only delimiters are left, there is no token, and the end is saved.
  pub strtok_r_end :
      (xs : List ℕ) (s save fuel : ℕ)
      → Text m (if s == 0 then save else s) xs
      → every (λ c. contains c set) xs ≡ true
      → length xs + length set < fuel
      → strtok_r fuel s at save m ≡ some (0, (if s == 0 then save else s) + length xs, m)
  unfolding strtok_r tokenise
  strtok_r_end xs s save fuel h skip lt =
      rw (skip_to_end xs (if s == 0 then save else s) fuel h skip lt) refl
