-- ===== src/Strings/Spans.antt =====
-- lib/string.c: the functions that look for the bytes of one string in another.
use junlge_pint_os.Common.{
  ℕ, zero, suc, ◌+◌, ◌-◌, ◌<◌, ◌≡◌, refl, sym, ap, ◌∙◌, subst, Bool, true, false, not, none, some,
  List, [], ◌∷◌, length, leb, ◌==◌, ==_ne, if◌then◌else◌, arith, Bool-cases, inl, inr,
}
use junlge_pint_os.Strings.{found_in, span_loop, strcspn, strspn, strpbrk, strstr, strstr_loop}
use junlge_pint_os.Strings.Text.{
  Text, contains, prefix_length, is_prefix, first_place, pointer, pointer-later, later,
}
use junlge_pint_os.Strings.Compare.{memcmp_prefix}
use junlge_pint_os.Strings.Search.{found_in_lem, strlen_lem}

-- What ends the loop: `stop` for `strcspn`, not being in the set for `strspn`.
abbrev pub goes_on : Bool → List ℕ → ℕ → Bool
goes_on stop set c = if stop then not (contains c set) else contains c set

module _ (m : ℕ → ℕ) (bytes : (a : ℕ) → m a < 256) (set : List ℕ) (at : ℕ) (is_set : Text m at set)
    (pos : 0 < at) where
  span_loop_lem :
      (cs : List ℕ) (stop : Bool) (s n fuel : ℕ)
      → Text m (s + n) cs
      → length cs + length set < fuel
      → span_loop fuel stop s at n m ≡ some (n + prefix_length (goes_on stop set) cs)
  unfolding span_loop prefix_length
  span_loop_lem cs stop s n zero h lt = absurd (omega (arith, lt))
  span_loop_lem [] stop s n (suc fuel) h lt = ground arith
  span_loop_lem (c ∷ cs) stop s n (suc fuel) h lt =
      let byte : c < 256 = subst (λ x. x < 256) h.0 (bytes (s + n)) in
      let hit : found_in (suc fuel) at (m (s + n)) m ≡ some (contains c set) =
        subst (λ x. found_in (suc fuel) at x m ≡ some (contains c set)) (sym h.0)
          (found_in_lem m set at c (suc fuel) is_set (omega (arith, lt)) pos h.1 byte) in
      let rest =
        span_loop_lem cs stop s (n + 1) fuel (subst (λ a. Text m a cs) (omega arith) h.2)
          (omega (arith, lt)) in
      rw (==_ne (m (s + n)) 0 (λ q. h.1 (sym h.0 ∙ q)), hit) (ends (contains c set) stop rest)
    where
      ends :
          (b stop : Bool)
          → span_loop fuel stop s at (n + 1) m ≡ some (n + 1 + prefix_length (goes_on stop set) cs)
          → (if b
              then if stop then some n else span_loop fuel stop s at (n + 1) m
              else if stop
              then span_loop fuel stop s at (n + 1) m
              else some n)
            ≡ some (
                n
                + (if (if stop then not b else b)
                    then suc (prefix_length (goes_on stop set) cs)
                    else 0))
      ends b stop e = ground (arith, e)

  -- The length of the longest front without bytes of the set.
  pub strcspn_lem :
      (cs : List ℕ) (s fuel : ℕ)
      → Text m s cs
      → length cs + length set < fuel
      → strcspn fuel s at m ≡ some (prefix_length (λ c. not (contains c set)) cs)
  unfolding strcspn
  strcspn_lem cs s fuel h lt =
      span_loop_lem cs true s 0 fuel (subst (λ a. Text m a cs) (omega arith) h) lt
      ∙ ap some (omega arith)

  -- The length of the longest front of bytes of the set.
  pub strspn_lem :
      (cs : List ℕ) (s fuel : ℕ)
      → Text m s cs
      → length cs + length set < fuel
      → strspn fuel s at m ≡ some (prefix_length (λ c. contains c set) cs)
  unfolding strspn
  strspn_lem cs s fuel h lt =
      span_loop_lem cs false s 0 fuel (subst (λ a. Text m a cs) (omega arith) h) lt
      ∙ ap some (omega arith)

  -- `strpbrk` returns the place that `strcspn` counts to, unless that is the end of the string.
  pub strpbrk_lem :
      (cs : List ℕ) (s fuel : ℕ)
      → Text m s cs
      → length cs + length set < fuel
      → strpbrk fuel s at m
        ≡ some (
            if prefix_length (λ c. not (contains c set)) cs == length cs
            then 0
            else s + prefix_length (λ c. not (contains c set)) cs)
  unfolding strpbrk prefix_length
  strpbrk_lem cs s zero h lt = absurd (omega (arith, lt))
  strpbrk_lem [] s (suc fuel) h lt = ground arith
  strpbrk_lem (c ∷ cs) s (suc fuel) h lt =
      let byte : c < 256 = subst (λ x. x < 256) h.0 (bytes s) in
      let hit : found_in (suc fuel) at (m s) m ≡ some (contains c set) =
        subst (λ x. found_in (suc fuel) at x m ≡ some (contains c set)) (sym h.0)
          (found_in_lem m set at c (suc fuel) is_set (omega (arith, lt)) pos h.1 byte) in
      let rest = strpbrk_lem cs (s + 1) fuel h.2 (omega (arith, lt)) in
      rw (==_ne (m s) 0 (λ q. h.1 (sym h.0 ∙ q)), hit) (ends (contains c set) rest)
    where
      ends :
          (b : Bool)
          → strpbrk fuel (s + 1) at m
            ≡ some (
                if prefix_length (λ c. not (contains c set)) cs == length cs
                then 0
                else s + 1 + prefix_length (λ c. not (contains c set)) cs)
          → (if b then some s else strpbrk fuel (s + 1) at m)
            ≡ some (
                if (if not b then suc (prefix_length (λ c. not (contains c set)) cs) else 0)
                  == suc (length cs)
                then 0
                else s + (if not b then suc (prefix_length (λ c. not (contains c set)) cs) else 0))
      ends b e = ground (arith, e)

is_prefix_short : (ys xs : List ℕ) → length xs < length ys → is_prefix ys xs ≡ false
unfolding is_prefix
is_prefix_short [] xs lt = absurd (omega (arith, lt))
is_prefix_short (y ∷ ys) [] lt = refl
is_prefix_short (y ∷ ys) (x ∷ xs) lt = ground (arith, is_prefix_short ys xs)

first_place_short : (ys xs : List ℕ) → length xs < length ys → first_place ys xs ≡ none
unfolding first_place
first_place_short ys [] lt = rw (is_prefix_short ys [] lt) refl
first_place_short ys (x ∷ xs) lt =
    rw (is_prefix_short ys (x ∷ xs) lt, first_place_short ys xs (omega (arith, lt))) refl

module _ (m : ℕ → ℕ) (ys : List ℕ) (needle : ℕ) (is_needle : Text m needle ys) where
  strstr_loop_lem :
      (xs : List ℕ) (s places : ℕ)
      → Text m s xs
      → length xs + 1 ≡ places + length ys
      → strstr_loop places s needle (length ys) m ≡ pointer s (first_place ys xs)
  unfolding strstr_loop first_place
  strstr_loop_lem xs s zero h e = rw (first_place_short ys xs (omega (arith, e))) refl
  strstr_loop_lem [] s (suc places) h e =
      let none_left : places ≡ 0 = omega (arith, e) in
      rw (memcmp_prefix m [] ys s needle h is_needle, none_left) (ends (is_prefix ys []))
    where
      ends : (b : Bool) → (if b then s else 0) ≡ pointer s (if b then some 0 else none)
      ends b = ground arith
  strstr_loop_lem (x ∷ xs) s (suc places) h e =
      rw (memcmp_prefix m (x ∷ xs) ys s needle h is_needle) (
        ends (is_prefix ys (x ∷ xs)) (
          strstr_loop_lem xs (s + 1) places h.2 (omega (arith, e))
          ∙ sym (pointer-later s (first_place ys xs))))
    where
      ends :
          (b : Bool)
          → strstr_loop places (s + 1) needle (length ys) m ≡ pointer s (later (first_place ys xs))
          → (if b then s else strstr_loop places (s + 1) needle (length ys) m)
            ≡ pointer s (if b then some 0 else later (first_place ys xs))
      ends b q = ground (arith, q)

  -- If the strings xs and ys stand at s and needle and there is more fuel than the sum of their
  -- lengths, strstr returns the pointer to the first place in xs where ys stands, and null if
  -- there is none.
  pub strstr_lem :
      (xs : List ℕ) (s fuel : ℕ)
      → Text m s xs
      → length xs + length ys < fuel
      → strstr fuel s needle m ≡ some (pointer s (first_place ys xs))
  unfolding strstr
  strstr_lem xs s fuel h lt = elim (Bool-cases (leb (length ys) (length xs))) [
    | inl e ↦
        rw
          (
            strlen_lem m xs s fuel h (omega (arith, lt)),
            strlen_lem m ys needle fuel is_needle (omega (arith, lt)),
            e,
          )
          (ap some (strstr_loop_lem xs s (length xs - length ys + 1) h (ground (arith, e))))
    | inr e ↦
        rw
          (
            strlen_lem m xs s fuel h (omega (arith, lt)),
            strlen_lem m ys needle fuel is_needle (omega (arith, lt)),
            e,
          )
          (rw (first_place_short ys xs (ground (arith, e))) refl)
  ]
