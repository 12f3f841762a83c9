-- ===== src/Stdlib/Permuted.antt =====
-- lib/stdlib.c: an array whose elements have changed places.
use native.Mathlib.Decide.{ℕ_discrete}
use junlge_pint_os.Common.{
  ℕ, ◌≤◌, ◌<◌, ◌≡◌, refl, sym, ap, ◌∙◌, ◌⊎◌, inl, inr, ◌==◌, if◌then◌else◌, arith,
}
use junlge_pint_os.Stdlib.{do_swap}

-- The elements of `b` are those of `a`, moved by a permutation of the indexes from 1 to `cnt`.
pub record IsPermuted {ℓ} {A : Type ℓ} (cnt : ℕ) (a b : ℕ → A) : Type ℓ where
  pub source : ℕ → ℕ
  pub target : ℕ → ℕ
  pub source-target : (i : ℕ) → source (target i) ≡ i
  pub target-source : (i : ℕ) → target (source i) ≡ i
  pub moved : (i : ℕ) → b i ≡ a (source i)
  pub fixed : (i : ℕ) → (i ≡ 0) ⊎ (cnt < i) → source i ≡ i

-- The exchange of two indexes.
abbrev exchange : ℕ → ℕ → ℕ → ℕ
exchange i j k = if k == i then j else if k == j then i else k

exchange_twice : (i j k : ℕ) → exchange i j (exchange i j k) ≡ k
exchange_twice i j k = ground arith

module _ {ℓ} {A : Type ℓ} where
  pub IsPermuted-refl : (cnt : ℕ) (a : ℕ → A) → IsPermuted cnt a a
  IsPermuted-refl cnt a = record {
    source = λ i. i;
    target = λ i. i;
    source-target = λ i. refl;
    target-source = λ i. refl;
    moved = λ i. refl;
    fixed = λ i out. refl;
  }

  pub IsPermuted-trans :
      (cnt n : ℕ) (a b c : ℕ → A)
      → n ≤ cnt
      → IsPermuted cnt a b
      → IsPermuted n b c
      → IsPermuted cnt a c
  IsPermuted-trans cnt n a b c le p q = record {
    source = λ i. p.source (q.source i);
    target = λ i. q.target (p.target i);
    source-target = λ i. ap p.source (q.source-target (p.target i)) ∙ p.source-target i;
    target-source = λ i. ap q.target (p.target-source (q.source i)) ∙ q.target-source i;
    moved = λ i. q.moved i ∙ p.moved (q.source i);
    fixed = λ i out. ap p.source (q.fixed i (wider i out)) ∙ p.fixed i out;
  }
    where
      wider : (i : ℕ) → (i ≡ 0) ⊎ (cnt < i) → (i ≡ 0) ⊎ (n < i)
      wider i (inl e) = inl e
      wider i (inr lt) = inr (omega (arith, lt, le))

  do_swap-exchange : (a : ℕ → A) (i j k : ℕ) → do_swap a i j k ≡ a (exchange i j k)
  unfolding do_swap
  do_swap-exchange a i j k = ground arith

  pub do_swap-IsPermuted :
      (cnt i j : ℕ) (a : ℕ → A)
      → 0 < i
      → i ≤ cnt
      → 0 < j
      → j ≤ cnt
      → IsPermuted cnt a (do_swap a i j)
  do_swap-IsPermuted cnt i j a pi li pj lj = record {
    source = exchange i j;
    target = exchange i j;
    source-target = exchange_twice i j;
    target-source = exchange_twice i j;
    moved = do_swap-exchange a i j;
    fixed = λ k out. elsewhere k out;
  }
    where
      elsewhere : (k : ℕ) → (k ≡ 0) ⊎ (cnt < k) → exchange i j k ≡ k
      elsewhere k (inl e) = ground (arith, e)
      elsewhere k (inr lt) = ground (arith, lt)

  -- Within the range the elements come from the range.
  pub source_in :
      (cnt : ℕ) (a b : ℕ → A) (p : IsPermuted cnt a b) (i : ℕ)
      → 0 < i
      → i ≤ cnt
      → (0 < p.source i) × (p.source i ≤ cnt)
  source_in cnt a b p i pos le =
      (not_zero (ℕ_discrete (p.source i) 0), not_above (leb_or (p.source i)))
    where
      back : p.source (p.source i) ≡ p.source i → p.source i ≡ i
      back e = sym (p.target-source (p.source i)) ∙ ap p.target e ∙ p.target-source i

      not_zero : Dec (p.source i ≡ 0) → 0 < p.source i
      not_zero (yes e) = absurd (omega (arith, pos, e, back (p.fixed (p.source i) (inl e))))
      not_zero (no ne) = omega (arith, ne)

      leb_or : (n : ℕ) → (n ≤ cnt) ⊎ (cnt < n)
      leb_or n = ground arith

      not_above : (p.source i ≤ cnt) ⊎ (cnt < p.source i) → p.source i ≤ cnt
      not_above (inl lt) = lt
      not_above (inr lt) = absurd (omega (arith, le, lt, back (p.fixed (p.source i) (inr lt))))
