-- ===== src/Strings/Search.antt =====
-- lib/string.c: the functions that look for something in a string.
use junlge_pint_os.Common.{
  ℕ, zero, suc, ◌+◌, ◌%◌, ◌<◌, ◌≡◌, ◌≢◌, refl, ap, ◌∙◌, subst, Bool, true, false, not, Option, none,
  some, List, [], ◌∷◌, length, ltb, ◌==◌, if◌then◌else◌, arith, Bool-cases, inl, inr,
}
use junlge_pint_os.Strings.{
  strlen, end_of, strnlen, strnlen_loop, strchr, strchr_loop, found_in, strrchr, strrchr_loop,
}
use junlge_pint_os.Strings.Text.{
  Text, contains, first_index, last_index, pointer, pointer-later, later, or_else,
}

abbrev has : Option ℕ → Bool
has none = false
has (some i) = true

module _ (m : ℕ → ℕ) where
  end_of_lem :
      (cs : List ℕ) (p fuel : ℕ)
      → Text m p cs
      → length cs < fuel
      → end_of fuel p m ≡ some (p + length cs)
  unfolding end_of
  end_of_lem cs p zero h lt = absurd (omega (arith, lt))
  end_of_lem [] p (suc fuel) h lt = ground arith
  end_of_lem (c ∷ cs) p (suc fuel) h lt =
      ground (arith, end_of_lem cs (p + 1) fuel h.2 (omega (arith, lt)))

  -- `strlen` gives the length of the string.
  pub strlen_lem :
      (cs : List ℕ) (s fuel : ℕ)
      → Text m s cs
      → length cs < fuel
      → strlen fuel s m ≡ some (length cs)
  unfolding strlen
  strlen_lem cs s fuel h lt = rw (end_of_lem cs s fuel h lt) (ap some (omega arith))

  strnlen_loop_lem :
      (left : ℕ) (cs : List ℕ) (s n : ℕ)
      → Text m (s + n) cs
      → strnlen_loop left s n m ≡ n + (if ltb (length cs) left then length cs else left)
  unfolding strnlen_loop
  strnlen_loop_lem zero cs s n h = ground arith
  strnlen_loop_lem (suc left) [] s n h = ground arith
  strnlen_loop_lem (suc left) (c ∷ cs) s n h =
      ground
        (arith, strnlen_loop_lem left cs s (n + 1) (subst (λ a. Text m a cs) (omega arith) h.2))

  -- `strnlen` gives the lesser of the length and `maxlen`.
  pub strnlen_lem :
      (cs : List ℕ) (s maxlen : ℕ)
      → Text m s cs
      → strnlen s maxlen m ≡ (if ltb (length cs) maxlen then length cs else maxlen)
  unfolding strnlen
  strnlen_lem cs s maxlen h =
      strnlen_loop_lem maxlen cs s 0 (subst (λ a. Text m a cs) (omega arith) h) ∙ omega arith

  strchr_loop_lem :
      (cs : List ℕ) (s c fuel : ℕ)
      → Text m s cs
      → c ≢ 0
      → length cs < fuel
      → strchr_loop fuel s c m ≡ some (pointer s (first_index c cs))
  unfolding strchr_loop first_index
  strchr_loop_lem cs s c zero h ne lt = absurd (omega (arith, lt))
  strchr_loop_lem [] s c (suc fuel) h ne lt = ground arith
  strchr_loop_lem (x ∷ cs) s c (suc fuel) h ne lt = ground (
    arith,
    strchr_loop_lem cs (s + 1) c fuel h.2 ne (omega (arith, lt)),
    pointer-later s (first_index c cs),
  )

  pub strchr_loop_end :
      (cs : List ℕ) (s fuel : ℕ)
      → Text m s cs
      → length cs < fuel
      → strchr_loop fuel s 0 m ≡ some (s + length cs)
  unfolding strchr_loop
  strchr_loop_end cs s zero h lt = absurd (omega (arith, lt))
  strchr_loop_end [] s (suc fuel) h lt = ground arith
  strchr_loop_end (x ∷ cs) s (suc fuel) h lt =
      ground (arith, strchr_loop_end cs (s + 1) fuel h.2 (omega (arith, lt)))

  -- The first place of the byte `c`, the end of the string for a zero byte, null where there is none.
  pub strchr_lem :
      (cs : List ℕ) (s c fuel : ℕ)
      → Text m s cs
      → length cs < fuel
      → strchr fuel s c m
        ≡ some (if c % 256 == 0 then s + length cs else pointer s (first_index (c % 256) cs))
  unfolding strchr
  strchr_lem cs s c fuel h lt = elim (Bool-cases (c % 256 == 0)) [
    | inl e ↦
        let zero_c : c % 256 ≡ 0 = ground (arith, e) in rw (zero_c) (strchr_loop_end cs s fuel h lt)
    | inr e ↦ rw (e) (strchr_loop_lem cs s (c % 256) fuel h (λ q. ground (arith, e, q)) lt)
  ]

  first_index-contains :
      (cs : List ℕ) (s c : ℕ) → 0 < s → not (pointer s (first_index c cs) == 0) ≡ contains c cs
  unfolding first_index contains
  first_index-contains [] s c pos = refl
  first_index-contains (x ∷ cs) s c pos =
      ground
        (arith, first_index-contains cs (s + 1) c (omega arith), pointer-later s (first_index c cs))

  -- Whether a byte of a string is in the set that is given as a string.
  pub found_in_lem :
      (cs : List ℕ) (s c fuel : ℕ)
      → Text m s cs
      → length cs < fuel
      → 0 < s
      → c ≢ 0
      → c < 256
      → found_in fuel s c m ≡ some (contains c cs)
  unfolding found_in strchr
  found_in_lem cs s c fuel h lt pos ne byte =
      let small : c % 256 ≡ c = omega (arith, byte) in
      rw (small, strchr_loop_lem cs s c fuel h ne lt) (ap some (first_index-contains cs s c pos))

  strrchr_loop_lem :
      (cs : List ℕ) (s c p fuel : ℕ)
      → Text m s cs
      → length cs < fuel
      → strrchr_loop fuel s c p m
        ≡ some (if◌then◌else◌ (has (last_index c cs)) (pointer s (last_index c cs)) p)
  unfolding strrchr_loop last_index
  strrchr_loop_lem cs s c p zero h lt = absurd (omega (arith, lt))
  strrchr_loop_lem [] s c p (suc fuel) h lt = ground arith
  strrchr_loop_lem (x ∷ cs) s c p (suc fuel) h lt =
      strrchr_step (last_index c cs)
        (strrchr_loop_lem cs (s + 1) c (if m s == c then s else p) fuel h.2 (omega (arith, lt)))
    where
      strrchr_step :
          (o : Option ℕ)
          → strrchr_loop fuel (s + 1) c (if m s == c then s else p) m
            ≡ some (if has o then pointer (s + 1) o else if m s == c then s else p)
          → (if m s == 0 then some p else strrchr_loop fuel (s + 1) c (if m s == c then s else p) m)
            ≡ some (
                if has (or_else (later o) (if x == c then some 0 else none))
                then pointer s (or_else (later o) (if x == c then some 0 else none))
                else p)
      strrchr_step none e = ground (arith, e)
      strrchr_step (some i) e = ground (arith, e)

  -- The last place of the byte `c`, null where there is none.
  pub strrchr_lem :
      (cs : List ℕ) (s c fuel : ℕ)
      → Text m s cs
      → length cs < fuel
      → strrchr fuel s c m ≡ some (pointer s (last_index (c % 256) cs))
  unfolding strrchr
  strrchr_lem cs s c fuel h lt =
      strrchr_loop_lem cs s (c % 256) 0 fuel h lt ∙ ap some (no_pointer (last_index (c % 256) cs))
    where
      no_pointer : (o : Option ℕ) → (if has o then pointer s o else 0) ≡ pointer s o
      no_pointer none = refl
      no_pointer (some i) = refl
