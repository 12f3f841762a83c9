-- ===== src/Stdlib/Sort.antt =====
-- lib/stdlib.c: `sort` builds a heap and takes the greatest element off it again and again.
use native.Mathlib.Decide.{ℕ_discrete}
use junlge_pint_os.Common.{
  ℕ, zero, suc, ◌+◌, ◌/◌, ◌≤◌, ◌<◌, ◌≡◌, ◌≢◌, sym, ap, ◌∙◌, subst, ◌⊎◌, inl, inr, ◌==◌, ==_ne,
  ==_refl, if◌then◌else◌, arith,
}
use junlge_pint_os.Strings.{Sign}
use junlge_pint_os.Stdlib.{do_swap, max_of, heapify, build_loop, sort_loop, sort}
use junlge_pint_os.Stdlib.Permuted.{
  IsPermuted, IsPermuted-refl, IsPermuted-trans, do_swap-IsPermuted, source_in,
}
use junlge_pint_os.Stdlib.Heap.{AtMost, IsOrder, Heap, HeapBut, Heap-greatest}
use junlge_pint_os.Stdlib.Heapify.{
  IsMax, max_of_lem, HeapBut-Heap, HeapBut-do_swap, do_swap_first, do_swap_second, do_swap_other,
}

module _ {ℓ} {A : Type ℓ} (compare : A → A → Sign) (o : IsOrder compare) where
  -- With as much fuel as there are indexes from `i` to `cnt`, the heap is whole again.
  heapify_lem :
      (fuel low i cnt : ℕ) (a : ℕ → A)
      → 0 < i
      → i ≤ cnt
      → cnt < i + fuel
      → HeapBut compare low cnt i a
      → Heap compare low cnt (heapify compare fuel i cnt a)
        × IsPermuted cnt a (heapify compare fuel i cnt a)
  unfolding heapify
  heapify_lem zero low i cnt a pos le enough h = absurd (omega (arith, le, enough))
  heapify_lem (suc fuel) low i cnt a pos le enough h =
      by_place (max_of compare a cnt i) (max_of_lem compare o a cnt i pos) (ℕ_discrete _ i)
        (λ max down inside.
          heapify_lem fuel low max cnt (do_swap a i max) (omega (arith, pos, down)) inside
            (omega (arith, pos, enough, down)))
    where
      by_place :
          (max : ℕ)
          → IsMax compare a cnt i max
          → Dec (max ≡ i)
          → ((max : ℕ)
              → max / 2 ≡ i
              → max ≤ cnt
              → HeapBut compare low cnt max (do_swap a i max)
              → Heap compare low cnt (heapify compare fuel max cnt (do_swap a i max))
                × IsPermuted cnt (do_swap a i max) (heapify compare fuel max cnt (do_swap a i max)))
          → Heap compare low cnt
              (if max == i then a else heapify compare fuel max cnt (do_swap a i max))
            × IsPermuted cnt a
                (if max == i then a else heapify compare fuel max cnt (do_swap a i max))
      by_place max m (yes e) again =
          rw (e, ==_refl i)
            (
              HeapBut-Heap compare o low cnt i a h (subst (IsMax compare a cnt i) e m),
              IsPermuted-refl cnt a,
            )
      by_place max m (no ne) again = rw (==_ne max i ne) (moved m.place)
        where
          moved :
              (max ≡ i) ⊎ ((max / 2 ≡ i) × (max ≤ cnt))
              → Heap compare low cnt (heapify compare fuel max cnt (do_swap a i max))
                × IsPermuted cnt a (heapify compare fuel max cnt (do_swap a i max))
          moved (inl e) = absurd (ne e)
          moved (inr p) =
              let rest =
                again max p.0 p.1 (HeapBut-do_swap compare o low cnt i max a pos h m p.0 p.1) in
              (
                rest.0,
                IsPermuted-trans cnt cnt a (do_swap a i max)
                    (heapify compare fuel max cnt (do_swap a i max)) (omega arith)
                    (do_swap-IsPermuted cnt i max a pos le (omega (arith, pos, p.0)) p.1) rest.1,
              )

  build_loop_lem :
      (i cnt : ℕ) (a : ℕ → A)
      → i ≤ cnt
      → Heap compare (suc i) cnt a
      → Heap compare 1 cnt (build_loop compare i cnt a)
        × IsPermuted cnt a (build_loop compare i cnt a)
  unfolding build_loop
  build_loop_lem zero cnt a le h = (h, IsPermuted-refl cnt a)
  build_loop_lem (suc i) cnt a le h =
      let one = heapify_lem cnt (suc i) (suc i) cnt a (omega arith) le (omega arith) (
        λ c inside from ne. h c inside (omega (arith, from, ne)),
        λ c inside e from. absurd (omega (arith, from)),
      ) in
      let rest =
        build_loop_lem i cnt (heapify compare cnt (suc i) cnt a) (omega (arith, le)) one.0 in
      (
        rest.0,
        IsPermuted-trans cnt cnt a (heapify compare cnt (suc i) cnt a)
            (build_loop compare i cnt (heapify compare cnt (suc i) cnt a)) (omega arith) one.1
            rest.1,
      )

  -- In order at the indexes from 1 to `cnt`.
  abbrev pub Sorted : ℕ → (ℕ → A) → Type 0
  Sorted cnt a = (j k : ℕ) → 0 < j → j ≤ k → k ≤ cnt → AtMost compare (a j) (a k)

  -- The elements behind `i` are in order, and none before them is greater.
  abbrev SortedFrom : ℕ → ℕ → (ℕ → A) → Type 0
  SortedFrom i cnt a = (j k : ℕ) → 0 < j → j ≤ k → i < k → k ≤ cnt → AtMost compare (a j) (a k)

  -- One round: the greatest element goes behind the heap, and the rest becomes a heap.
  module _ (i cnt : ℕ) (a : ℕ → A) (le : suc (suc i) ≤ cnt) (h : Heap compare 1 (suc (suc i)) a)
      (s : SortedFrom (suc (suc i)) cnt a) where
    swapped : ℕ → A
    swapped = do_swap a 1 (suc (suc i))

    round : ℕ → A
    round = heapify compare (suc i) 1 (suc i) swapped

    round_lem : Heap compare 1 (suc i) round × IsPermuted (suc i) swapped round
    unfolding round swapped
    round_lem =
        heapify_lem (suc i) 1 1 (suc i) swapped (omega arith) (omega arith) (omega arith) (
          λ c inside from ne. kept c inside from ne,
          λ c inside e from. absurd (omega (arith, from)),
        )
      where
        kept :
            (c : ℕ)
            → c ≤ suc i
            → 1 ≤ c / 2
            → c / 2 ≢ 1
            → AtMost compare (do_swap a 1 (suc (suc i)) c) (do_swap a 1 (suc (suc i)) (c / 2))
        kept c inside from ne =
            rw
              (
                do_swap_other a 1 (suc (suc i)) c (λ q. omega (arith, from, q))
                    (λ q. omega (arith, inside, q)),
                do_swap_other a 1 (suc (suc i)) (c / 2) ne (λ q. omega (arith, inside, q)),
              )
              (h c (omega (arith, inside)) from)

    round_last : round (suc (suc i)) ≡ a 1
    unfolding swapped
    round_last =
        round_lem.1.moved (suc (suc i))
        ∙ ap swapped (round_lem.1.fixed (suc (suc i)) (inr (omega arith)))
        ∙ do_swap_second a 1 (suc (suc i))

    round_behind : (k : ℕ) → suc (suc i) < k → round k ≡ a k
    unfolding swapped
    round_behind k lt =
        round_lem.1.moved k
        ∙ ap swapped (round_lem.1.fixed k (inr (omega (arith, lt))))
        ∙ do_swap_other a 1 (suc (suc i)) k (λ q. omega (arith, lt, q)) (λ q. omega (arith, lt, q))

    -- The elements up to `i + 2` come from there.
    round_origin :
        (j : ℕ) → 0 < j → j ≤ suc (suc i) → (x : ℕ) × (0 < x) × (x ≤ suc (suc i)) × (round j ≡ a x)
    unfolding swapped
    round_origin j pos inside = elim (ℕ_discrete j (suc (suc i))) [
      | yes e ↦ (1, omega arith, omega arith, ap round e ∙ round_last)
      | no ne ↦
          before (round_lem.1.source j)
            (source_in (suc i) swapped round round_lem.1 j pos (omega (arith, inside, ne)))
            (round_lem.1.moved j) (ℕ_discrete (round_lem.1.source j) 1)
    ]
      where
        before :
            (y : ℕ)
            → (0 < y) × (y ≤ suc i)
            → round j ≡ do_swap a 1 (suc (suc i)) y
            → Dec (y ≡ 1)
            → (x : ℕ) × (0 < x) × (x ≤ suc (suc i)) × (round j ≡ a x)
        before y range e (yes q) = (
          suc (suc i),
          omega arith,
          omega arith,
          e ∙ ap (do_swap a 1 (suc (suc i))) q ∙ do_swap_first a 1 (suc (suc i)),
        )
        before y range e (no ne) = (
          y,
          range.0,
          omega (arith, range.1),
          e ∙ do_swap_other a 1 (suc (suc i)) y ne (λ q. omega (arith, range.1, q)),
        )

    round_sorted : SortedFrom (suc i) cnt round
    round_sorted j k pos up from inside = elim (ℕ_discrete k (suc (suc i))) [
      | yes e ↦
          let x = round_origin j pos (omega (arith, up, e)) in
          subst (λ n. AtMost compare (round j) (round n)) (sym e)
            (rw (round_last, x.3)
              (Heap-greatest compare (suc (suc i)) a o h x.0 x.0 (omega arith) x.1 x.2))
      | no ne ↦ behind (omega (arith, from, ne)) (ltb_or j)
    ]
      where
        ltb_or : (j : ℕ) → (j ≤ suc (suc i)) ⊎ (suc (suc i) < j)
        ltb_or j = ground arith

        behind :
            suc (suc i) < k
            → (j ≤ suc (suc i)) ⊎ (suc (suc i) < j)
            → AtMost compare (round j) (round k)
        behind lt (inl near) =
            let x = round_origin j pos near in
            rw (round_behind k lt, x.3) (s x.0 k x.1 (omega (arith, x.2, lt)) lt inside)
        behind lt (inr far) = rw (round_behind k lt, round_behind j far) (s j k pos up lt inside)

    round-IsPermuted : IsPermuted cnt a round
    unfolding round swapped
    round-IsPermuted =
        IsPermuted-trans cnt (suc i) a swapped round (omega (arith, le))
          (do_swap-IsPermuted cnt 1 (suc (suc i)) a (omega arith) (omega (arith, le)) (omega arith)
            le)
          round_lem.1

  sort_loop_lem :
      (i cnt : ℕ) (a : ℕ → A)
      → i ≤ cnt
      → Heap compare 1 i a
      → SortedFrom i cnt a
      → Sorted cnt (sort_loop compare i a) × IsPermuted cnt a (sort_loop compare i a)
  unfolding sort_loop round swapped
  sort_loop_lem zero cnt a le h s =
      (λ j k pos up inside. s j k pos up (omega (arith, pos, up)) inside, IsPermuted-refl cnt a)
  sort_loop_lem (suc zero) cnt a le h s =
      (λ j k pos up inside. one j k pos up inside (ℕ_discrete k 1), IsPermuted-refl cnt a)
    where
      one : (j k : ℕ) → 0 < j → j ≤ k → k ≤ cnt → Dec (k ≡ 1) → AtMost compare (a j) (a k)
      one j k pos up inside (yes e) =
          subst (λ n. AtMost compare (a j) (a n)) {x = j} {y = k} (omega (arith, pos, up, e))
            (o.reflexive (a j))
      one j k pos up inside (no ne) = s j k pos up (omega (arith, pos, up, ne)) inside
  sort_loop_lem (suc (suc i)) cnt a le h s =
      let rest =
        sort_loop_lem (suc i) cnt (round i cnt a le h s) (omega (arith, le))
          (round_lem i cnt a le h s).0 (round_sorted i cnt a le h s) in
      (
        rest.0,
        IsPermuted-trans cnt cnt a (round i cnt a le h s)
            (sort_loop compare (suc i) (round i cnt a le h s)) (omega arith)
            (round-IsPermuted i cnt a le h s) rest.1,
      )

  -- If the comparison is that of a total preorder (IsOrder), sort leaves the elements at the
  -- indexes from 1 to cnt in order, none greater than a later one, and they are those of the array
  -- before, moved by a permutation of these indexes.
  pub sort_lem :
      (cnt : ℕ) (a : ℕ → A)
      → Sorted cnt (sort compare cnt a) × IsPermuted cnt a (sort compare cnt a)
  unfolding sort
  sort_lem cnt a =
      let built =
        build_loop_lem (cnt / 2) cnt a (omega arith)
          (λ c inside from. absurd (omega (arith, inside, from))) in
      let sorted =
        sort_loop_lem cnt cnt (build_loop compare (cnt / 2) cnt a) (omega arith) built.0
          (λ j k pos up from inside. absurd (omega (arith, from, inside))) in
      (
        sorted.0,
        IsPermuted-trans cnt cnt a (build_loop compare (cnt / 2) cnt a)
            (sort_loop compare cnt (build_loop compare (cnt / 2) cnt a)) (omega arith) built.1
            sorted.1,
      )
