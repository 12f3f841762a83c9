-- ===== src/Lists.antt =====
-- lib/kernel/list.c: the doubly linked list, on a heap of links. An element is named by its address,
-- and a list by the address of its head; its tail lies 16 bytes further, behind the head's two
-- pointers. The assertions that a list's address is not null are left out.
pub mod Chain
pub mod Links
pub mod Members
pub mod Edit
pub mod Ends
pub mod Size
pub mod Ordered
use junlge_pint_os.Common.{
  ℕ, zero, suc, ◌+◌, Bool, true, false, not, ◌&&◌, ◌||◌, Outcome, ok, panic, ◌>>=◌, ◌>>◌, assert,
  ◌==◌, if◌then◌else◌,
}

-- The `prev` and the `next` of every `struct list_elem` in memory.
pub record Heap : Type 0 where
  pub prev : ℕ → ℕ
  pub next : ℕ → ℕ

abbrev pub write : (ℕ → ℕ) → ℕ → ℕ → ℕ → ℕ
write f a v b = if a == b then v else f b

abbrev pub set_prev : ℕ → ℕ → Heap → Heap
set_prev a v h = record h { prev = write h.prev a v }

abbrev pub set_next : ℕ → ℕ → Heap → Heap
set_next a v h = record h { next = write h.next a v }

unfoldable pub is_head : Heap → ℕ → Bool
is_head h elem = not (elem == 0) && (h.prev elem == 0) && not (h.next elem == 0)

unfoldable pub is_interior : Heap → ℕ → Bool
is_interior h elem = not (elem == 0) && not (h.prev elem == 0) && not (h.next elem == 0)

unfoldable pub is_tail : Heap → ℕ → Bool
is_tail h elem = not (elem == 0) && not (h.prev elem == 0) && (h.next elem == 0)

abbrev pub list_end : ℕ → ℕ
list_end list = list + 16

abbrev pub list_rend : ℕ → ℕ
list_rend list = list

abbrev pub list_head : ℕ → ℕ
list_head list = list

abbrev pub list_tail : ℕ → ℕ
list_tail list = list + 16

unfoldable pub list_init : ℕ → Heap → Heap
list_init list h = set_next (list_tail list) 0 (
    set_prev (list_tail list) (list_head list)
      (set_next (list_head list) (list_tail list) (set_prev (list_head list) 0 h)))

unfoldable pub list_begin : ℕ → Heap → ℕ
list_begin list h = h.next (list_head list)

unfoldable pub list_rbegin : ℕ → Heap → ℕ
list_rbegin list h = h.prev (list_tail list)

unfoldable pub list_next : ℕ → Heap → Outcome ℕ
list_next elem h = do assert (is_head h elem || is_interior h elem); ok (h.next elem)

unfoldable pub list_prev : ℕ → Heap → Outcome ℕ
list_prev elem h = do assert (is_interior h elem || is_tail h elem); ok (h.prev elem)

unfoldable pub list_insert : ℕ → ℕ → Heap → Outcome Heap
list_insert before elem h = do
  assert (is_interior h before || is_tail h before)
  assert (not (elem == 0))
  let h1 = set_prev elem (h.prev before) h
  let h2 = set_next elem before h1
  let h3 = set_next (h2.prev before) elem h2
  ok (set_prev before elem h3)

-- From the last element to move on.
unfoldable pub splice : ℕ → ℕ → ℕ → Heap → Outcome Heap
splice before first last h = do
  assert (is_interior h first)
  assert (is_interior h last)
  let h1 = set_next (h.prev first) (h.next last) h
  let h2 = set_prev (h1.next last) (h1.prev first) h1
  let h3 = set_prev first (h2.prev before) h2
  let h4 = set_next last before h3
  let h5 = set_next (h4.prev before) first h4
  ok (set_prev before last h5)

unfoldable pub splice_before : ℕ → ℕ → ℕ → Heap → Outcome Heap
splice_before before first end h = do last ← list_prev end h; splice before first last h

unfoldable pub list_splice : ℕ → ℕ → ℕ → Heap → Outcome Heap
list_splice before first last h = do
  assert (is_interior h before || is_tail h before)
  if first == last then ok h else splice_before before first last h

unfoldable pub list_push_front : ℕ → ℕ → Heap → Outcome Heap
list_push_front list elem h = list_insert (list_begin list h) elem h

unfoldable pub list_push_back : ℕ → ℕ → Heap → Outcome Heap
list_push_back list elem h = list_insert (list_end list) elem h

unfoldable pub list_remove : ℕ → Heap → Outcome (ℕ × Heap)
list_remove elem h = do
  assert (is_interior h elem)
  let h1 = set_next (h.prev elem) (h.next elem) h
  let h2 = set_prev (h1.next elem) (h1.prev elem) h1
  ok (h2.next elem, h2)

unfoldable pub list_empty : ℕ → Heap → Bool
list_empty list h = list_begin list h == list_end list

unfoldable pub list_front : ℕ → Heap → Outcome ℕ
list_front list h = do assert (not (list_empty list h)); ok (h.next (list_head list))

unfoldable pub list_back : ℕ → Heap → Outcome ℕ
list_back list h = do assert (not (list_empty list h)); ok (h.prev (list_tail list))

unfoldable pub list_pop_front : ℕ → Heap → Outcome (ℕ × Heap)
list_pop_front list h = do
  front ← list_front list h
  (after, h') ← list_remove front h
  ok (front, h')

unfoldable pub list_pop_back : ℕ → Heap → Outcome (ℕ × Heap)
list_pop_back list h = do back ← list_back list h; (after, h') ← list_remove back h; ok (back, h')

-- The loop of `list_size` from `e` on, for fewer than `fuel` elements.
unfoldable pub size_loop : ℕ → ℕ → ℕ → ℕ → Heap → Outcome ℕ
size_loop zero list e cnt h = panic
size_loop (suc fuel) list e cnt h =
    if e == list_end list
    then ok cnt
    else list_next e h >>= λ after. size_loop fuel list after (cnt + 1) h

unfoldable pub list_size : ℕ → ℕ → Heap → Outcome ℕ
list_size fuel list h = size_loop fuel list (list_begin list h) 0 h
