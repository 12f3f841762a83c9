-- ===== src/Threads/Schedule.antt =====
-- threads/thread.c: choosing the next thread, switching to it, and the calls that do.
use junlge_pint_os.Common.{
  ℕ, ◌+◌, ◌%◌, ◌^◌, not, ◌&&◌, Outcome, ok, ◌>>=◌, ◌>>◌, assert, ◌==◌, leb, if◌then◌else◌, List, [],
  ◌∷◌, ◌++◌, none,
}
use junlge_pint_os.Threads.State.{
  ThreadStatus, running, ready, blocked, dying, Kernel, update, status_of, is_status, is_thread,
  set_status,
}
use junlge_pint_os.Threads.Interrupts.{intr_disable, intr_set_level, intr_yield_on_return}

unfoldable pub thread_current : Kernel → Outcome ℕ
thread_current k = do
  assert (is_thread k k.current)
  assert (is_status running (status_of k k.current))
  ok k.current

abbrev pub pop_ready : List ℕ → Kernel → ℕ × Kernel
pop_ready [] k = (k.idle_thread, k)
pop_ready (t ∷ rest) k = (t, record k { ready_list = rest })

unfoldable pub next_thread_to_run : Kernel → ℕ × Kernel
next_thread_to_run k = pop_ready k.ready_list k

-- The dying thread is queued for destruction, unless it is the initial one.
unfoldable pub retire : ℕ → Kernel → Kernel
retire curr k =
    if is_status dying (status_of k curr) && not (curr == k.initial_thread)
    then record k { destruction_req = k.destruction_req ++ curr ∷ [] }
    else k

-- `thread_launch` is the switch: from here `next` runs.
unfoldable pub switch_to : ℕ → ℕ → Kernel → Kernel
switch_to curr next k = if curr == next then k else (record (retire curr k) { current = next })

unfoldable pub schedule : Kernel → Outcome Kernel
schedule k = do
  let curr = k.current
  let next = (next_thread_to_run k).0
  let k' = (next_thread_to_run k).1
  assert (not k'.intr_on)
  assert (not (is_status running (status_of k' curr)))
  assert (is_thread k' next)
  ok (switch_to curr next (record (set_status next running k') { thread_ticks = 0 }))

-- `palloc_free_page (victim)` for each queued thread: its page holds a thread no more, and is put
-- on the log `freed`. The allocator's pools are not part of the scheduler's state, so that a
-- failure of the release is left out.
unfoldable pub reap : List ℕ → Kernel → Kernel
reap [] k = record k { destruction_req = [] }
reap (victim ∷ rest) k =
    reap rest (record k { thread = update k.thread victim none; freed = k.freed ++ victim ∷ [] })

unfoldable pub do_schedule : ThreadStatus → Kernel → Outcome Kernel
do_schedule status k = do
  assert (not k.intr_on)
  curr ← thread_current k
  let k' = reap k.destruction_req k
  curr' ← thread_current k'
  schedule (set_status curr' status k')

unfoldable pub thread_block : Kernel → Outcome Kernel
thread_block k = do
  assert (not k.in_external_intr)
  assert (not k.intr_on)
  curr ← thread_current k
  schedule (set_status curr blocked k)

unfoldable pub thread_unblock : ℕ → Kernel → Outcome Kernel
thread_unblock t k = do
  assert (is_thread k t)
  let old_level = k.intr_on
  let k' = intr_disable k
  assert (is_status blocked (status_of k' t))
  intr_set_level old_level (set_status t ready (record k' { ready_list = k'.ready_list ++ t ∷ [] }))

-- Up to the switch. `intr_set_level (old_level)` follows when the thread runs again.
unfoldable pub thread_yield : Kernel → Outcome Kernel
thread_yield k = do
  curr ← thread_current k
  assert (not k.in_external_intr)
  let k' = intr_disable k
  do_schedule ready (
      if curr == k'.idle_thread
      then k'
      else (record k' { ready_list = k'.ready_list ++ curr ∷ [] }))

unfoldable pub thread_exit : Kernel → Outcome Kernel
thread_exit k = do assert (not k.in_external_intr); do_schedule dying (intr_disable k)

-- TIME_SLICE is 4; `thread_ticks` is an `unsigned`, 32 bits wide.
unfoldable pub thread_tick : Kernel → Outcome Kernel
thread_tick k = do
  t ← thread_current k
  let k' =
      if t == k.idle_thread
      then record k { idle_ticks = k.idle_ticks + 1 }
      else record k { kernel_ticks = k.kernel_ticks + 1 }
  let k'' = record k' { thread_ticks = (k'.thread_ticks + 1) % 2 ^ 32 }
  if leb 4 k''.thread_ticks then intr_yield_on_return k'' else ok k''

-- devices/timer.c: the handler of the timer's interrupt.
unfoldable pub timer_interrupt : Kernel → Outcome Kernel
timer_interrupt k = thread_tick (record k { ticks = k.ticks + 1 })
