-- ===== src/Stdlib.antt =====
-- lib/stdlib.c. An array is a function from indexes to its elements, each of them SIZE bytes of the
-- source; the indexes of the sort start from 1 as they do there, those of the search from 0.
-- `compare` is the callback with its AUX, and gives a sign. The loops that the source does not bound
-- run on fuel.
pub mod Permuted
pub mod Heap
pub mod Heapify
pub mod Sort
pub mod Search
pub mod Atoi
use junlge_pint_os.Common.{
  ℕ, zero, suc, ◌+◌, ◌-◌, ◌*◌, ◌/◌, ◌≤◌, Bool, true, false, ◌&&◌, Option, none, some, ltb, leb,
  ◌==◌, if◌then◌else◌,
}
use junlge_pint_os.Threads.State.{update}
use junlge_pint_os.Strings.{Sign, negative, equal, positive}

abbrev pub is_positive : Sign → Bool
is_positive positive = true
is_positive _ = false

-- What the round of a search does after its comparison.
abbrev pub by_cmp : Sign → ℕ → Option ℕ → Option ℕ → Option ℕ
by_cmp negative middle below above = below
by_cmp positive middle below above = above
by_cmp equal middle below above = some middle

module _ {ℓ} {A : Type ℓ} where
  unfoldable pub do_swap : (ℕ → A) → ℕ → ℕ → ℕ → A
  do_swap array a_idx b_idx = update (update array a_idx (array b_idx)) b_idx (array a_idx)

  unfoldable pub do_compare : (A → A → Sign) → (ℕ → A) → ℕ → ℕ → Sign
  do_compare compare array a_idx b_idx = compare (array a_idx) (array b_idx)

  -- `child` if it is in the heap and greater than the element at `max`.
  unfoldable pub larger : (A → A → Sign) → (ℕ → A) → ℕ → ℕ → ℕ → ℕ
  larger compare array cnt child max =
      if leb child cnt && is_positive (do_compare compare array child max) then child else max

  unfoldable pub max_of : (A → A → Sign) → (ℕ → A) → ℕ → ℕ → ℕ
  max_of compare array cnt i =
      larger compare array cnt (2 * i + 1) (larger compare array cnt (2 * i) i)

  unfoldable pub heapify : (A → A → Sign) → ℕ → ℕ → ℕ → (ℕ → A) → ℕ → A
  heapify compare zero i cnt array = array
  heapify compare (suc fuel) i cnt array =
      let max = max_of compare array cnt i in
      let rest = heapify compare fuel max cnt (do_swap array i max) in
      if max == i then array else rest

  -- `for (; i > 0; i--) heapify (array, i, cnt);`
  unfoldable pub build_loop : (A → A → Sign) → ℕ → ℕ → (ℕ → A) → ℕ → A
  build_loop compare zero cnt array = array
  build_loop compare (suc i) cnt array =
      build_loop compare i cnt (heapify compare cnt (suc i) cnt array)

  -- `for (; i > 1; i--)`.
  unfoldable pub sort_loop : (A → A → Sign) → ℕ → (ℕ → A) → ℕ → A
  sort_loop compare zero array = array
  sort_loop compare (suc zero) array = array
  sort_loop compare (suc (suc i)) array =
      sort_loop compare (suc i) (heapify compare (suc i) 1 (suc i) (do_swap array 1 (suc (suc i))))

  unfoldable pub sort : (A → A → Sign) → ℕ → (ℕ → A) → ℕ → A
  sort compare cnt array = sort_loop compare cnt (build_loop compare (cnt / 2) cnt array)

  -- `qsort` passes its comparison on by `compare_thunk`.
  unfoldable pub compare_thunk : (A → A → Sign) → A → A → Sign
  compare_thunk compare a b = compare a b

  unfoldable pub qsort : (A → A → Sign) → ℕ → (ℕ → A) → ℕ → A
  qsort compare cnt array = sort (compare_thunk compare) cnt array

  -- The index of a match, between `first` and `last`.
  unfoldable pub search_loop : (A → A → Sign) → ℕ → A → (ℕ → A) → ℕ → ℕ → Option ℕ
  search_loop compare zero key array first last = none
  search_loop compare (suc fuel) key array first last =
      let middle = first + (last - first) / 2 in
      let below = search_loop compare fuel key array first middle in
      let above = search_loop compare fuel key array (middle + 1) last in
      if ltb first last then by_cmp (compare key (array middle)) middle below above else none

  -- Each round leaves fewer elements, so `cnt + 1` rounds are enough.
  unfoldable pub binary_search : (A → A → Sign) → A → (ℕ → A) → ℕ → Option ℕ
  binary_search compare key array cnt = search_loop compare (suc cnt) key array 0 cnt

  unfoldable pub bsearch : (A → A → Sign) → A → (ℕ → A) → ℕ → Option ℕ
  bsearch compare key array cnt = binary_search (compare_thunk compare) key array cnt
