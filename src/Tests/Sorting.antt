-- ===== src/Tests/Sorting.antt =====
-- lib/stdlib.c on an array of numbers and on the text " -42;".
use junlge_pint_os.Common.{ℕ, ◌+◌, ◌≡◌, refl, some, [], ◌∷◌, get_or, arith}
use junlge_pint_os.Strings.{order}
use junlge_pint_os.Stdlib.{
  sort, build_loop, sort_loop, heapify, max_of, larger, do_compare, do_swap, binary_search,
  search_loop,
}
use junlge_pint_os.Stdlib.Permuted.{IsPermuted}
use junlge_pint_os.Stdlib.Heap.{IsOrder}
use junlge_pint_os.Stdlib.Sort.{Sorted, sort_lem}
use junlge_pint_os.Stdlib.Search.{IsResult, IsOrdered, binary_search_lem}
use junlge_pint_os.Stdlib.Atoi.{atoi, isspace, isdigit, signed, decimal, minus, atoi_lem}
use junlge_pint_os.Strings.Tokens.{every}

order-IsOrder : IsOrder order
unfolding order
order-IsOrder = record {
  total = λ a b e. ground (arith, e);
  reflexive = λ a. ground arith;
  transitive = λ a b c ab bc. ground (arith, ab, bc);
}

-- From the index 1 on.
abbrev numbers : ℕ → ℕ
numbers i = get_or (0 ∷ 5 ∷ 1 ∷ 4 ∷ 2 ∷ []) i 0

sort_example :
    Sorted order order-IsOrder 4 (sort order 4 numbers)
    × IsPermuted 4 numbers (sort order 4 numbers)
sort_example = sort_lem order order-IsOrder 4 numbers

sort_first : sort order 4 numbers 1 ≡ 1
unfolding sort build_loop sort_loop heapify max_of larger do_compare do_swap order
sort_first = refl

-- Twice the index, from the index 0 on.
abbrev evens : ℕ → ℕ
evens i = i + i

evens-IsOrdered : IsOrdered order 6 evens 9
unfolding order
evens-IsOrdered i j le lt = (λ e. ground (arith, e, le), λ e. ground (arith, e, le))

binary_search_example : IsResult order 6 evens 0 9 (binary_search order 6 evens 9)
binary_search_example = binary_search_lem order 6 evens 9 evens-IsOrdered

binary_search_run : binary_search order 6 evens 9 ≡ some 3
unfolding binary_search search_loop order
binary_search_run = refl

abbrev text : ℕ → ℕ
text a = get_or (0 ∷ 32 ∷ 45 ∷ 52 ∷ 50 ∷ 59 ∷ 0 ∷ []) a 0

atoi_example : atoi 9 1 text ≡ some (signed minus (decimal 0 (52 ∷ 50 ∷ [])))
unfolding every isspace isdigit
atoi_example =
    atoi_lem text (32 ∷ []) minus 52 (50 ∷ []) (59 ∷ []) 1 9
      (
        refl,
        λ q. omega (arith, q),
        (
          refl,
          λ q. omega (arith, q),
          (
            refl,
            λ q. omega (arith, q),
            (refl, λ q. omega (arith, q), (refl, λ q. omega (arith, q), refl)),
          ),
        ),
      )
      refl refl refl (omega arith)
