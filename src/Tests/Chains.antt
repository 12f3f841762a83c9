-- ===== src/Tests/Chains.antt =====
-- lib/kernel/list.c on a list at address 1000 with the elements 2000 and 3000.
use junlge_pint_os.Common.{◌≡◌, [], ◌∷◌, ok, arith}
use junlge_pint_os.Lists.{
  Heap, list_init, list_insert, list_remove, list_push_back, list_push_front, list_pop_front,
  list_pop_back, list_size,
}
use junlge_pint_os.Lists.Edit.{IsList, list_insert_lem, list_remove_lem}
use junlge_pint_os.Lists.Ends.{
  list_push_back_lem, list_push_front_lem, list_pop_front_lem, list_pop_back_lem, list_init_lem,
}
use junlge_pint_os.Lists.Size.{list_size_lem}

abbrev memory : Heap
memory = record { prev = λ a. 5; next = λ a. 6 }

abbrev one :
    (h : Heap) × (list_push_back 1000 2000 (list_init 1000 memory) ≡ ok h)
    × IsList h 1000 (2000 ∷ [])
one =
    list_push_back_lem (list_init 1000 memory) 1000 [] 2000
      (list_init_lem memory 1000 (omega arith)) ((omega arith, tt), omega arith, omega arith)

abbrev two : (h : Heap) × (list_push_back 1000 3000 one.0 ≡ ok h) × IsList h 1000 (2000 ∷ 3000 ∷ [])
two =
    list_push_back_lem one.0 1000 (2000 ∷ []) 3000 one.2
      ((omega arith, (omega arith, tt)), omega arith, omega arith)

list_init_run : IsList (list_init 1000 memory) 1000 []
list_init_run = list_init_lem memory 1000 (omega arith)

list_push_back_run :
    (h : Heap) × (list_push_back 1000 4000 two.0 ≡ ok h) × IsList h 1000 (2000 ∷ 3000 ∷ 4000 ∷ [])
list_push_back_run =
    list_push_back_lem two.0 1000 (2000 ∷ 3000 ∷ []) 4000 two.2
      ((omega arith, (omega arith, (omega arith, tt))), omega arith, omega arith)

list_push_front_run :
    (h : Heap) × (list_push_front 1000 4000 two.0 ≡ ok h) × IsList h 1000 (4000 ∷ 2000 ∷ 3000 ∷ [])
list_push_front_run =
    list_push_front_lem two.0 1000 (2000 ∷ 3000 ∷ []) 4000 two.2
      ((omega arith, (omega arith, (omega arith, tt))), omega arith, omega arith)

list_insert_example :
    (h : Heap) × (list_insert 3000 4000 two.0 ≡ ok h) × IsList h 1000 (2000 ∷ 4000 ∷ 3000 ∷ [])
unfolding junlge_pint_os.Lists.Chain.front
list_insert_example =
    list_insert_lem two.0 1000 (2000 ∷ []) (3000 ∷ []) 4000 two.2
      ((omega arith, (omega arith, (omega arith, tt))), omega arith, omega arith)

list_remove_example :
    (h : Heap) × (list_remove 2000 two.0 ≡ ok (3000, h)) × IsList h 1000 (3000 ∷ [])
unfolding junlge_pint_os.Lists.Chain.front
list_remove_example = list_remove_lem two.0 1000 [] (3000 ∷ []) 2000 two.2

list_pop_front_example :
    (h : Heap) × (list_pop_front 1000 two.0 ≡ ok (2000, h)) × IsList h 1000 (3000 ∷ [])
list_pop_front_example = list_pop_front_lem two.0 1000 2000 (3000 ∷ []) two.2

list_pop_back_run :
    (h : Heap) × (list_pop_back 1000 two.0 ≡ ok (3000, h)) × IsList h 1000 (2000 ∷ [])
list_pop_back_run = list_pop_back_lem two.0 1000 (2000 ∷ []) 3000 two.2

list_size_example : list_size 3 1000 two.0 ≡ ok 2
list_size_example = list_size_lem two.0 1000 (2000 ∷ 3000 ∷ []) 3 two.2 (omega arith)
