-- ===== src/Lists/Ordered.antt =====
-- lib/kernel/list.c: the functions that reverse a list or compare its elements. `less` is the callback
-- with its AUX, on the addresses of elements. A loop that has used up its fuel panics.
pub mod Insert
pub mod Extreme
use junlge_pint_os.Common.{
  ℕ, zero, suc, ◌+◌, Bool, true, false, not, ◌&&◌, Option, none, some, Outcome, ok, panic, ◌>>=◌,
  ◌>>◌, assert, ltb, ◌==◌, if◌then◌else◌,
}
use junlge_pint_os.Lists.{
  Heap, set_prev, set_next, list_end, list_begin, list_next, list_prev, list_empty, list_insert,
  list_remove, list_splice, list_push_back,
}

-- `swap (&e->prev, &e->next)`.
unfoldable pub swap_links : ℕ → Heap → Heap
swap_links e h = set_next e (h.prev e) (set_prev e (h.next e) h)

unfoldable pub reverse_loop : ℕ → ℕ → ℕ → Heap → Outcome Heap
reverse_loop zero list e h = panic
reverse_loop (suc fuel) list e h =
    let rest = reverse_loop fuel list ((swap_links e h).prev e) (swap_links e h) in
    if e == list_end list then ok h else rest

-- `swap (&list->head.next, &list->tail.prev)`.
unfoldable pub swap_ends : ℕ → Heap → Heap
swap_ends list h = set_prev (list_end list) (h.next list) (set_next list (h.prev (list_end list)) h)

-- `swap (&list->head.next->prev, &list->tail.prev->next)`.
unfoldable pub swap_inner : ℕ → Heap → Heap
swap_inner list h =
    let first = h.next list in
    let last = h.prev (list_end list) in
    set_next last (h.prev first) (set_prev first (h.next last) h)

unfoldable pub list_reverse : ℕ → ℕ → Heap → Outcome Heap
list_reverse fuel list h =
    if not (list_empty list h)
    then (reverse_loop fuel list (list_begin list h) h >>= λ h'.
        ok (swap_inner list (swap_ends list h')))
    else ok h

-- The loop of `list_max` (and of `list_min`, where `better` is turned round) from `e` on.
unfoldable pub best_loop : ℕ → (ℕ → ℕ → Bool) → ℕ → ℕ → ℕ → Heap → Outcome ℕ
best_loop zero better list best e h = panic
best_loop (suc fuel) better list best e h =
    let rest = list_next e h >>= λ after.
    best_loop fuel better list (if better best e then e else best) after h in
    if e == list_end list then ok best else rest

unfoldable pub best_of : ℕ → (ℕ → ℕ → Bool) → ℕ → Heap → Outcome ℕ
best_of fuel better list h =
    if not (list_begin list h == list_end list)
    then (list_next (list_begin list h) h >>= λ e.
        best_loop fuel better list (list_begin list h) e h)
    else ok (list_begin list h)

module _ (less : ℕ → ℕ → Bool) where
  unfoldable pub sorted_loop : ℕ → ℕ → ℕ → Heap → Outcome Bool
  sorted_loop zero a b h = panic
  sorted_loop (suc fuel) a b h = do
    next ← list_next a h
    let rest = sorted_loop fuel next b h
    if next == b
        then ok true
        else list_prev next h >>= λ prev. if less next prev then ok false else rest

  unfoldable pub is_sorted : ℕ → ℕ → ℕ → Heap → Outcome Bool
  is_sorted fuel a b h = if not (a == b) then sorted_loop fuel a b h else ok true

  unfoldable pub run_loop : ℕ → ℕ → ℕ → Heap → Outcome ℕ
  run_loop zero a b h = panic
  run_loop (suc fuel) a b h = do
    next ← list_next a h
    let rest = run_loop fuel next b h
    if next == b
        then ok next
        else list_prev next h >>= λ prev. if not (less next prev) then rest else ok next

  unfoldable pub find_end_of_run : ℕ → ℕ → ℕ → Heap → Outcome ℕ
  find_end_of_run fuel a b h = do
    assert (not (a == 0))
    assert (not (b == 0))
    assert (not (a == b))
    run_loop fuel a b h

  -- `a1b0 = list_next (a1b0); list_splice (a0, list_prev (a1b0), a1b0);`
  unfoldable pub take_second : ℕ → ℕ → Heap → Outcome (ℕ × Heap)
  take_second a0 a1b0 h = do
    next ← list_next a1b0 h
    prev ← list_prev next h
    h' ← list_splice a0 prev next h
    ok (next, h')

  unfoldable pub merge_loop : ℕ → ℕ → ℕ → ℕ → Heap → Outcome Heap
  merge_loop zero a0 a1b0 b1 h = panic
  merge_loop (suc fuel) a0 a1b0 b1 h =
      let first = list_next a0 h >>= λ next. merge_loop fuel next a1b0 b1 h in
      let second = take_second a0 a1b0 h >>= λ r. merge_loop fuel a0 r.0 b1 r.1 in
      if not (a0 == a1b0) && not (a1b0 == b1)
      then (if not (less a1b0 a0) then first else second)
      else ok h

  unfoldable pub inplace_merge : ℕ → ℕ → ℕ → ℕ → Heap → Outcome Heap
  inplace_merge fuel a0 a1b0 b1 h = do
    assert (not (a0 == 0))
    assert (not (a1b0 == 0))
    assert (not (b1 == 0))
    first_sorted ← is_sorted fuel a0 a1b0 h
    assert first_sorted
    second_sorted ← is_sorted fuel a1b0 b1 h
    assert second_sorted
    merge_loop fuel a0 a1b0 b1 h

  -- The second run of a round, and the merging: the end of the second run.
  unfoldable pub merge_runs : ℕ → ℕ → ℕ → ℕ → Heap → Outcome (ℕ × Heap)
  merge_runs fuel list a0 a1b0 h = do
    b1 ← find_end_of_run fuel a1b0 (list_end list) h
    h' ← inplace_merge fuel a0 a1b0 b1 h
    ok (b1, h')

  -- One pass over the list from `a0` on: the number of output runs.
  unfoldable pub pass_loop : ℕ → ℕ → ℕ → ℕ → ℕ → Heap → Outcome (ℕ × Heap)
  pass_loop zero size list a0 output_run_cnt h = panic
  pass_loop (suc fuel) size list a0 output_run_cnt h =
      let round = find_end_of_run size a0 (list_end list) h >>= λ a1b0.
      if a1b0 == list_end list
      then ok (output_run_cnt + 1, h)
      else merge_runs size list a0 a1b0 h >>= λ r.
          pass_loop fuel size list r.0 (output_run_cnt + 1) r.1 in
      if a0 == list_end list then ok (output_run_cnt, h) else round

  unfoldable pub passes : ℕ → ℕ → ℕ → Heap → Outcome Heap
  passes zero size list h = panic
  passes (suc fuel) size list h = do
    (output_run_cnt, h') ← pass_loop size size list (list_begin list h) 0 h
    let rest = passes fuel size list h'
    if ltb 1 output_run_cnt then rest else ok h'

  unfoldable pub list_sort : ℕ → ℕ → Heap → Outcome Heap
  list_sort fuel list h = do
    assert (not (list == 0))
    h' ← passes fuel fuel list h
    sorted ← is_sorted fuel (list_begin list h') (list_end list) h'
    assert sorted
    ok h'

  -- The place from `e` on where `elem` belongs.
  unfoldable pub place_loop : ℕ → ℕ → ℕ → ℕ → Heap → Outcome ℕ
  place_loop zero list elem e h = panic
  place_loop (suc fuel) list elem e h =
      let rest = list_next e h >>= λ after. place_loop fuel list elem after h in
      if e == list_end list then ok e else if less elem e then ok e else rest

  unfoldable pub list_insert_ordered : ℕ → ℕ → ℕ → Heap → Outcome Heap
  list_insert_ordered fuel list elem h = do
    assert (not (list == 0))
    assert (not (elem == 0))
    e ← place_loop fuel list elem (list_begin list h) h
    list_insert e elem h

  unfoldable pub keep_duplicate : Option ℕ → ℕ → Heap → Outcome Heap
  keep_duplicate none next h = ok h
  keep_duplicate (some duplicates) next h = list_push_back duplicates next h

  unfoldable pub drop_duplicate : Option ℕ → ℕ → Heap → Outcome Heap
  drop_duplicate duplicates next h = do
    (after, h') ← list_remove next h
    keep_duplicate duplicates next h'

  unfoldable pub unique_loop : ℕ → ℕ → Option ℕ → ℕ → Heap → Outcome Heap
  unique_loop zero list duplicates elem h = panic
  unique_loop (suc fuel) list duplicates elem h = do
    next ← list_next elem h
    let dropped =
        drop_duplicate duplicates next h >>= λ h'. unique_loop fuel list duplicates elem h'
    let kept = unique_loop fuel list duplicates next h
    if next == list_end list
        then ok h
        else if not (less elem next) && not (less next elem)
        then dropped
        else kept

  unfoldable pub list_unique : ℕ → ℕ → Option ℕ → Heap → Outcome Heap
  list_unique fuel list duplicates h = do
    assert (not (list == 0))
    if list_empty list h then ok h else unique_loop fuel list duplicates (list_begin list h) h

  unfoldable pub list_max : ℕ → ℕ → Heap → Outcome ℕ
  list_max fuel list h = best_of fuel (λ max e. less max e) list h

  unfoldable pub list_min : ℕ → ℕ → Heap → Outcome ℕ
  list_min fuel list h = best_of fuel (λ min e. less e min) list h
