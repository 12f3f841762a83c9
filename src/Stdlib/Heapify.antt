-- ===== src/Stdlib/Heapify.antt =====
-- lib/stdlib.c: `heapify` moves elements within the heap and puts the one at `i` in its place.
use native.Mathlib.Decide.{ℕ_discrete}
use junlge_pint_os.Common.{
  ℕ, ◌+◌, ◌*◌, ◌/◌, ◌≤◌, ◌<◌, ◌≡◌, ◌≢◌, refl, sym, ap, ◌∙◌, subst, ◌&&◌, ◌⊎◌, inl, inr, leb, arith,
  Bool-cases,
}
use junlge_pint_os.Strings.{Sign}
use junlge_pint_os.Stdlib.{is_positive, do_swap, do_compare, larger, max_of}
use junlge_pint_os.Stdlib.Heap.{AtMost, IsOrder, Heap, HeapBut}

module _ {ℓ} {A : Type ℓ} where
  pub do_swap_first : (a : ℕ → A) (i j : ℕ) → do_swap a i j i ≡ a j
  unfolding do_swap
  do_swap_first a i j = ground arith

  pub do_swap_second : (a : ℕ → A) (i j : ℕ) → do_swap a i j j ≡ a i
  unfolding do_swap
  do_swap_second a i j = ground arith

  pub do_swap_other : (a : ℕ → A) (i j k : ℕ) → k ≢ i → k ≢ j → do_swap a i j k ≡ a k
  unfolding do_swap
  do_swap_other a i j k ni nj = ground (arith, ni, nj)

  -- What `max` is: `i` or a child of it in the heap that is greater, and no child is greater.
  pub record IsMax (compare : A → A → Sign) (a : ℕ → A) (cnt i max : ℕ) : Type 0 where
    pub place : (max ≡ i) ⊎ ((max / 2 ≡ i) × (max ≤ cnt))
    pub above : AtMost compare (a i) (a max)
    pub children : (c : ℕ) → c ≤ cnt → c / 2 ≡ i → AtMost compare (a c) (a max)

  module _ (compare : A → A → Sign) (o : IsOrder compare) where
    -- The choice between `max` and a child.
    larger_cases :
        (a : ℕ → A) (cnt child max : ℕ)
        → ((larger compare a cnt child max ≡ child)
            × (child ≤ cnt)
            × (AtMost compare (a max) (a child)))
          ⊎ ((larger compare a cnt child max ≡ max)
              × (child ≤ cnt → AtMost compare (a child) (a max)))
    unfolding larger do_compare
    larger_cases a cnt child max =
        elim (Bool-cases (leb child cnt && is_positive (compare (a child) (a max)))) [
          | inl q ↦
              inl (rw (q) refl, ground (arith, q), o.total (a child) (a max) (ground (arith, q)))
          | inr q ↦ inr (rw (q) refl, λ le. ground (arith, q, le))
        ]

    pub max_of_lem :
        (a : ℕ → A) (cnt i : ℕ) → 0 < i → IsMax compare a cnt i (max_of compare a cnt i)
    unfolding max_of
    max_of_lem a cnt i pos = first (larger_cases a cnt (2 * i) i)
      where
        half : (c : ℕ) → c / 2 ≡ i → (c ≡ 2 * i) ⊎ (c ≡ 2 * i + 1)
        half c e = ground (arith, e)

        -- After the left child: `m` is the one kept.
        second :
            (m : ℕ)
            → (m ≡ i) ⊎ ((m ≡ 2 * i) × (m ≤ cnt))
            → AtMost compare (a i) (a m)
            → (2 * i ≤ cnt → AtMost compare (a (2 * i)) (a m))
            → ((larger compare a cnt (2 * i + 1) m ≡ 2 * i + 1)
                × (2 * i + 1 ≤ cnt)
                × (AtMost compare (a m) (a (2 * i + 1))))
              ⊎ ((larger compare a cnt (2 * i + 1) m ≡ m)
                  × (2 * i + 1 ≤ cnt → AtMost compare (a (2 * i + 1)) (a m)))
            → IsMax compare a cnt i (larger compare a cnt (2 * i + 1) m)
        second m here up left (inl p) = subst (IsMax compare a cnt i) (sym p.0) (record {
          place = inr (omega arith, p.1);
          above = o.transitive (a i) (a m) (a (2 * i + 1)) up p.2;
          children = λ c le e. elim (half c e) [
            | inl q ↦
                subst (λ k. AtMost compare (a k) (a (2 * i + 1))) (sym q)
                  (o.transitive (a (2 * i)) (a m) (a (2 * i + 1)) (left (omega (arith, le, q))) p.2)
            | inr q ↦
                subst (λ k. AtMost compare (a k) (a (2 * i + 1))) (sym q)
                  (o.reflexive (a (2 * i + 1)))
          ];
        })
        second m here up left (inr p) = subst (IsMax compare a cnt i) (sym p.0) (record {
          place = elim here [ inl q ↦ inl q | inr q ↦ inr (omega (arith, q.0), q.1) ];
          above = up;
          children = λ c le e. elim (half c e) [
            | inl q ↦ subst (λ k. AtMost compare (a k) (a m)) (sym q) (left (omega (arith, le, q)))
            | inr q ↦ subst (λ k. AtMost compare (a k) (a m)) (sym q) (p.1 (omega (arith, le, q)))
          ];
        })

        first :
            ((larger compare a cnt (2 * i) i ≡ 2 * i)
                × (2 * i ≤ cnt)
                × (AtMost compare (a i) (a (2 * i))))
              ⊎ ((larger compare a cnt (2 * i) i ≡ i)
                  × (2 * i ≤ cnt → AtMost compare (a (2 * i)) (a i)))
            → IsMax compare a cnt i
                (larger compare a cnt (2 * i + 1) (larger compare a cnt (2 * i) i))
        first (inl p) =
            subst (λ m. IsMax compare a cnt i (larger compare a cnt (2 * i + 1) m)) (sym p.0)
              (second (2 * i) (inr (refl, p.1)) p.2 (λ le. o.reflexive (a (2 * i)))
                (larger_cases a cnt (2 * i + 1) (2 * i)))
        first (inr p) =
            subst (λ m. IsMax compare a cnt i (larger compare a cnt (2 * i + 1) m)) (sym p.0)
              (second i (inl refl) (o.reflexive (a i)) p.1 (larger_cases a cnt (2 * i + 1) i))

    -- Where no child is greater, the heap is whole.
    pub HeapBut-Heap :
        (low cnt i : ℕ) (a : ℕ → A)
        → HeapBut compare low cnt i a
        → IsMax compare a cnt i i
        → Heap compare low cnt a
    HeapBut-Heap low cnt i a h m c le from = elim (ℕ_discrete (c / 2) i) [
      | yes e ↦ subst (λ k. AtMost compare (a c) (a k)) (sym e) (m.children c le e)
      | no ne ↦ h.0 c le from ne
    ]

    -- A swap with the greatest child moves the flaw down to that child.
    pub HeapBut-do_swap :
        (low cnt i max : ℕ) (a : ℕ → A)
        → 0 < i
        → HeapBut compare low cnt i a
        → IsMax compare a cnt i max
        → max / 2 ≡ i
        → max ≤ cnt
        → HeapBut compare low cnt max (do_swap a i max)
    HeapBut-do_swap low cnt i max a pos h m child inside =
        (λ c le from ne. parents c le from ne (ℕ_discrete (c / 2) i) (ℕ_discrete c i), below)
      where
        b : ℕ → A
        b = do_swap a i max

        at_i : b i ≡ a max
        at_i = do_swap_first a i max

        other : (k : ℕ) → k ≢ i → k ≢ max → b k ≡ a k
        other k ni nm = do_swap_other a i max k ni nm

        at_most :
            (x y : A) (j k : ℕ)
            → b j ≡ x
            → b k ≡ y
            → AtMost compare x y
            → AtMost compare (b j) (b k)
        at_most x y j k ej ek le =
            subst (λ u. AtMost compare u (b k)) (sym ej)
              (subst (λ v. AtMost compare x v) (sym ek) le)

        under_i : (c : ℕ) → c ≤ cnt → c / 2 ≡ i → Dec (c ≡ max) → AtMost compare (b c) (b i)
        under_i c le e (yes q) =
            at_most (a i) (a max) c i (ap b q ∙ do_swap_second a i max) at_i m.above
        under_i c le e (no nm) =
            at_most (a c) (a max) c i (other c (λ q. omega (arith, pos, e, q)) nm) at_i
              (m.children c le e)

        parents :
            (c : ℕ)
            → c ≤ cnt
            → low ≤ c / 2
            → c / 2 ≢ max
            → Dec (c / 2 ≡ i)
            → Dec (c ≡ i)
            → AtMost compare (b c) (b (c / 2))
        parents c le from ne (yes e) at_c =
            subst (λ k. AtMost compare (b c) (b k)) (sym e) (under_i c le e (ℕ_discrete c max))
        parents c le from ne (no other_parent) (yes e) =
            at_most (a max) (a (c / 2)) c (c / 2) (ap b e ∙ at_i) (other (c / 2) other_parent ne) (
              subst (λ k. AtMost compare (a max) (a (k / 2))) (sym e)
                (h.1 max inside child (omega (arith, from, e))))
        parents c le from ne (no other_parent) (no other_child) =
            at_most (a c) (a (c / 2)) c (c / 2)
              (other c other_child (λ q. other_parent (ap (λ k. k / 2) q ∙ child)))
              (other (c / 2) other_parent ne) (h.0 c le from other_parent)

        below : (c : ℕ) → c ≤ cnt → c / 2 ≡ max → low ≤ max / 2 → AtMost compare (b c) (b (max / 2))
        below c le e from =
            at_most (a c) (a max) c (max / 2)
              (other c (λ q. omega (arith, pos, child, e, q))
                (λ q. omega (arith, pos, child, e, q)))
              (ap b child ∙ at_i)
              (subst (λ k. AtMost compare (a c) (a k)) e
                (h.0 c le (omega (arith, from, e, child)) (λ q. omega (arith, pos, child, e, q))))
