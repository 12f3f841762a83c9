-- ===== src/Tests/Orders.antt =====
-- lib/kernel/list.c: lists whose elements are compared by their addresses.
use junlge_pint_os.Common.{
  ℕ, ◌≡◌, refl, false, List, [], ◌∷◌, ◌++◌, In, All, ok, arith, ◌>>=◌, ltb, ◌==◌, if◌then◌else◌,
  none,
}
use junlge_pint_os.Lists.{
  Heap, list_init, list_push_back, list_splice, splice, splice_before, list_next, list_prev,
  list_begin, list_empty, list_remove, is_head, is_interior, is_tail,
}
use junlge_pint_os.Lists.Edit.{IsList}
use junlge_pint_os.Lists.Ends.{list_push_back_lem, list_init_lem}
use junlge_pint_os.Lists.Ordered.{
  list_reverse, reverse_loop, swap_links, swap_ends, swap_inner, is_sorted, sorted_loop,
  find_end_of_run, run_loop, inplace_merge, merge_loop, take_second, list_sort, passes, pass_loop,
  merge_runs, list_insert_ordered, list_unique, unique_loop, drop_duplicate, keep_duplicate,
  list_max,
}
use junlge_pint_os.Lists.Ordered.Insert.{IsStrict, Ordered, up_to, from, list_insert_ordered_lem}
use junlge_pint_os.Lists.Ordered.Extreme.{list_max_lem}

ltb-IsStrict : IsStrict ltb
ltb-IsStrict = record {
  asymmetric = λ a b e. ground (arith, e);
  negative = λ a b c ab bc. ground (arith, ab, bc);
}

abbrev one_element :
    (h : Heap) × (list_push_back 1000 2000
        (list_init 1000 (record { prev = λ a. 5; next = λ a. 6 }))
      ≡ ok h)
    × IsList h 1000 (2000 ∷ [])
one_element =
    list_push_back_lem (list_init 1000 (record { prev = λ a. 5; next = λ a. 6 })) 1000 [] 2000
      (list_init_lem (record { prev = λ a. 5; next = λ a. 6 }) 1000 (omega arith))
      ((omega arith, tt), omega arith, omega arith)

abbrev two_elements :
    (h : Heap) × (list_push_back 1000 3000 one_element.0 ≡ ok h) × IsList h 1000 (2000 ∷ 3000 ∷ [])
two_elements =
    list_push_back_lem one_element.0 1000 (2000 ∷ []) 3000 one_element.2
      ((omega arith, (omega arith, tt)), omega arith, omega arith)

list_insert_ordered_example :
    (h : Heap) × (list_insert_ordered ltb 3 1000 2500 two_elements.0 ≡ ok h)
    × IsList h 1000 (up_to ltb 2500 (2000 ∷ 3000 ∷ []) ++ 2500 ∷ from ltb 2500 (2000 ∷ 3000 ∷ []))
    × Ordered ltb (up_to ltb 2500 (2000 ∷ 3000 ∷ []) ++ 2500 ∷ from ltb 2500 (2000 ∷ 3000 ∷ []))
list_insert_ordered_example =
    list_insert_ordered_lem ltb two_elements.0 1000 2500 (2000 ∷ 3000 ∷ []) 3 ltb-IsStrict
      two_elements.2 ((omega arith, (omega arith, (omega arith, tt))), omega arith, omega arith)
      (omega arith) ((refl, tt), (tt, tt)) (omega arith)

list_max_example :
    (m : ℕ) × (list_max ltb 3 1000 two_elements.0 ≡ ok m)
    × In m (2000 ∷ 3000 ∷ [])
    × All (λ e. ltb m e ≡ false) (2000 ∷ 3000 ∷ [])
list_max_example =
    list_max_lem ltb two_elements.0 1000 2000 (3000 ∷ []) 3 ltb-IsStrict two_elements.2
      (omega arith) (omega arith)

-- The list at 1000 links 4000, 2000 and 3000.
abbrev unordered : Heap
unordered = record {
  next = λ a.
      if a == 1000
      then 4000
      else if a == 4000
      then 2000
      else if a == 2000
      then 3000
      else if a == 3000
      then 1016
      else 0;
  prev = λ a.
      if a == 4000
      then 1000
      else if a == 2000
      then 4000
      else if a == 3000
      then 2000
      else if a == 1016
      then 3000
      else 0;
}

-- The first three links from the head on.
abbrev first_three : Heap → List ℕ
first_three h = h.next 1000 ∷ h.next (h.next 1000) ∷ h.next (h.next (h.next 1000)) ∷ []

list_sort_run :
    (list_sort ltb 9 1000 unordered >>= λ h. ok (first_three h)) ≡ ok (2000 ∷ 3000 ∷ 4000 ∷ [])
unfolding list_sort passes pass_loop merge_runs merge_loop take_second inplace_merge find_end_of_run
    run_loop is_sorted sorted_loop list_next list_prev list_begin list_splice splice splice_before
    is_head is_interior is_tail
list_sort_run = refl

list_reverse_run :
    (list_reverse 9 1000 unordered >>= λ h. ok (first_three h)) ≡ ok (3000 ∷ 2000 ∷ 4000 ∷ [])
unfolding list_reverse reverse_loop swap_links swap_ends swap_inner list_empty list_begin
list_reverse_run = refl

-- No element is less than another here, so that all but the first are duplicates.
list_unique_run :
    (list_unique (λ a b. false) 9 1000 none unordered >>= λ h. ok (h.next 1000 ∷ h.next 4000 ∷ []))
    ≡ ok (4000 ∷ 1016 ∷ [])
unfolding list_unique unique_loop drop_duplicate keep_duplicate list_empty list_begin list_next
    list_remove is_head is_interior
list_unique_run = refl
