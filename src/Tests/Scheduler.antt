-- ===== src/Tests/Scheduler.antt =====
-- threads/thread.c with the running thread 1, threads 2 and 6 ready, thread 3 blocked, the idle thread 4
-- and thread 5 dying.
use native.Mathlib.Decide.{ℕ_discrete}
use junlge_pint_os.Common.{
  ℕ, ◌+◌, ◌≤◌, ◌<◌, ◌⊎◌, ◌≡◌, ◌≢◌, refl, true, false, Option, none, some, [], ◌∷◌, inl, inr, ok,
  ◌==◌, if◌then◌else◌, arith,
}
use junlge_pint_os.Threads.State.{
  ThreadStatus, running, ready, blocked, dying, Thread, Kernel, status_of, set_status,
}
use junlge_pint_os.Threads.Schedule.{
  thread_block, thread_unblock, thread_yield, thread_exit, timer_interrupt,
}
use junlge_pint_os.Threads.Invariant.{IsScheduler}
use junlge_pint_os.Threads.Switch.{Switched}
use junlge_pint_os.Threads.Ops.{thread_block_lem, thread_unblock_lem}
use junlge_pint_os.Threads.Yield.{Left, thread_yield_lem, thread_exit_lem}
use junlge_pint_os.Threads.Interrupt.{intr_handler, counted, timer_within_slice, timer_preempts}
use junlge_pint_os.Threads.Sleep.{sleep_loop, sleep_loop_lem}
use junlge_pint_os.Threads.Fair.{yields, round_robin}

abbrev pub made : ℕ → ThreadStatus → Option Thread
made tid status = some (record { tid = tid; status = status; name = []; priority = 31 })

abbrev pub threads : ℕ → Option Thread
threads p =
    if p == 1
    then made 1 running
    else if p == 2
    then made 2 ready
    else if p == 3
    then made 3 blocked
    else if p == 4
    then made 4 blocked
    else if p == 5
    then made 5 dying
    else if p == 6
    then made 6 ready
    else none

abbrev pub six : Kernel
six = record {
  thread = threads;
  current = 1;
  ready_list = 2 ∷ 6 ∷ [];
  idle_thread = 4;
  initial_thread = 1;
  destruction_req = 5 ∷ [];
  freed = [];
  thread_ticks = 3;
  idle_ticks = 0;
  kernel_ticks = 3;
  ticks = 3;
  intr_on = false;
  in_external_intr = false;
  yield_on_return = false;
}

pub six-IsScheduler : IsScheduler six
six-IsScheduler = record {
  cur_runs = refl;
  only_cur = λ t e. ground (arith, e);
  queue_ready = (refl, (refl, tt));
  queue_distinct = ((omega arith, tt), (tt, tt));
  queue_idle = (omega arith, (omega arith, tt));
  queued =
      λ t e ne. elim (ℕ_discrete 2 t) [ yes q ↦ inl q | no n ↦ inr (inl (ground (arith, e, n))) ];
  idle_alive = (λ e. cc e, λ e. cc e);
  doomed_dying = (refl, tt);
  doomed_distinct = (tt, tt);
}

block_run :
    (k' : Kernel) × (thread_block six ≡ ok k')
    × Switched (set_status 1 blocked six) 2 (6 ∷ []) k'
    × (six.current ≢ 2 → status_of k' 1 ≡ some blocked)
block_run = thread_block_lem six six-IsScheduler 2 (6 ∷ []) refl refl (inl refl)

unblock_run :
    (thread_unblock 3 six ≡ ok (record (set_status 3 ready six) { ready_list = 2 ∷ 6 ∷ 3 ∷ [] }))
    × IsScheduler (record (set_status 3 ready six) { ready_list = 2 ∷ 6 ∷ 3 ∷ [] })
unblock_run = thread_unblock_lem six six-IsScheduler 3 (inl refl) refl (omega arith)

yield_example :
    (k' : Kernel) × (thread_yield six ≡ ok k')
    × Left six 2 (6 ∷ 1 ∷ []) k'
    × (six.current ≢ 2 → status_of k' 1 ≡ some ready)
yield_example = thread_yield_lem six six-IsScheduler refl 2 (6 ∷ 1 ∷ []) (inl refl)

exit_example :
    (k' : Kernel) × (thread_exit six ≡ ok k')
    × Left six 2 (6 ∷ []) k'
    × (six.current ≢ 2 → status_of k' 1 ≡ some dying)
exit_example = thread_exit_lem six six-IsScheduler refl 2 (6 ∷ []) (omega arith) (inl refl)

round_robin_example : (k' : Kernel) × (yields 2 six ≡ ok k') × IsScheduler k' × (k'.current ≡ 6)
round_robin_example = round_robin (2 ∷ []) 6 [] six six-IsScheduler refl (omega arith) refl

abbrev early : Kernel
early = record six { thread_ticks = 1 }

within_slice_run :
    intr_handler (some timer_interrupt) 0x20 early
    ≡ ok (record (counted early) { in_external_intr = false; yield_on_return = false })
within_slice_run = timer_within_slice early six-IsScheduler refl refl (omega arith)

preempts_example :
    (k' : Kernel) × (intr_handler (some timer_interrupt) 0x20 six ≡ ok k')
    × IsScheduler k'
    × (k'.current ≡ 2)
    × (k'.ready_list ≡ 6 ∷ 1 ∷ [])
    × (k'.thread_ticks ≡ 0)
    × (six.current ≢ 2 → status_of k' 1 ≡ some ready)
preempts_example =
    timer_preempts six six-IsScheduler refl refl 2 (6 ∷ 1 ∷ []) (omega arith) (inl refl)

-- Since tick 1 two ticks have passed, and the thread sleeps for five.
sleep_example :
    ((1 + 5 ≤ six.ticks) × (sleep_loop 1 5 six ≡ ok (six, true)))
    ⊎ (six.ticks < 1 + 5)
      × (k' : Kernel) × (sleep_loop 1 5 six ≡ ok (k', false))
      × Left six 2 (6 ∷ 1 ∷ []) k'
      × (six.current ≢ 2 → status_of k' six.current ≡ some ready)
sleep_example = sleep_loop_lem six six-IsScheduler refl 1 5 2 (6 ∷ 1 ∷ []) (omega arith) (inl refl)
