-- ===== src/Threads/Interrupt.antt =====
-- threads/interrupt.c: the handler of all interrupts, and the preemption that the timer asks for.
use junlge_pint_os.Common.{
  ℕ, ◌+◌, ◌%◌, ◌^◌, ◌≤◌, ◌<◌, ◌≡◌, ◌≢◌, refl, ap, ◌∙◌, Bool, true, false, not, ◌&&◌, ◌||◌, Option,
  none, some, List, inl, inr, Outcome, ok, panic, ◌>>=◌, ◌>>◌, assert, ltb, leb, ◌==◌,
  if◌then◌else◌, Bool-cases, le→leb, lt→leb_false, assert_then,
}
use junlge_pint_os.Threads.State.{ready, Kernel, status_of}
use junlge_pint_os.Threads.Interrupts.{intr_yield_on_return}
use junlge_pint_os.Threads.Schedule.{thread_tick, timer_interrupt, thread_yield}
use junlge_pint_os.Threads.Invariant.{IsScheduler}
use junlge_pint_os.Threads.Switch.{Chosen}
use junlge_pint_os.Threads.Ops.{thread_current_lem}
use junlge_pint_os.Threads.Yield.{thread_yield_lem, requeued}

abbrev pub Handler : Type 0
Handler = Kernel → Outcome Kernel

-- Without a handler only the two spurious interrupts are let pass.
unfoldable pub invoke : Option Handler → ℕ → Kernel → Outcome Kernel
invoke (some handler) vec_no k = handler k
invoke none vec_no k = if vec_no == 0x27 || vec_no == 0x2f then ok k else panic

abbrev pub is_external : ℕ → Bool
is_external vec_no = leb 0x20 vec_no && ltb vec_no 0x30

unfoldable pub handle_external : Option Handler → ℕ → Kernel → Outcome Kernel
handle_external handler vec_no k = do
  assert (not k.intr_on)
  assert (not k.in_external_intr)
  k' ← invoke handler vec_no (record k { in_external_intr = true; yield_on_return = false })
  assert (not k'.intr_on)
  assert k'.in_external_intr
  let k'' = record k' { in_external_intr = false }
  if k''.yield_on_return then thread_yield k'' else ok k''

-- `intr_handlers[frame->vec_no]` is an argument. `pic_end_of_interrupt` only writes to the PIC.
unfoldable pub intr_handler : Option Handler → ℕ → Kernel → Outcome Kernel
intr_handler handler vec_no k =
    if is_external vec_no then handle_external handler vec_no k else invoke handler vec_no k

-- What a tick counts: the tick itself, and the running thread's kind.
abbrev pub counted : Kernel → Kernel
counted k = record k {
  ticks = k.ticks + 1;
  idle_ticks = if k.current == k.idle_thread then k.idle_ticks + 1 else k.idle_ticks;
  kernel_ticks = if k.current == k.idle_thread then k.kernel_ticks else k.kernel_ticks + 1;
  thread_ticks = (k.thread_ticks + 1) % 2 ^ 32;
}

abbrev pub interrupted : Kernel → Kernel
interrupted k = record k { in_external_intr = true; yield_on_return = false }

-- The assertions of `intr_handler` round a handler that returns.
handle_external-steps :
    (handler : Handler) (vec_no : ℕ) (k k' : Kernel)
    → k.intr_on ≡ false
    → k.in_external_intr ≡ false
    → handler (interrupted k) ≡ ok k'
    → k'.intr_on ≡ false
    → k'.in_external_intr ≡ true
    → handle_external (some handler) vec_no k ≡ (
        if k'.yield_on_return
        then thread_yield (record k' { in_external_intr = false })
        else ok (record k' { in_external_intr = false }))
unfolding handle_external invoke
handle_external-steps handler vec_no k k' off ctx e off' ctx' =
    assert_then (not k.intr_on) _ (ap not off)
    ∙ assert_then (not k.in_external_intr) _ (ap not ctx)
    ∙ rw e (assert_then (not k'.intr_on) _ (ap not off') ∙ assert_then k'.in_external_intr _ ctx')

module _ (k : Kernel) (v : IsScheduler k) where
  tick_early :
      (k.thread_ticks + 1) % 2 ^ 32 < 4
      → timer_interrupt (interrupted k) ≡ ok (counted (interrupted k))
  unfolding timer_interrupt thread_tick
  tick_early h = elim (Bool-cases (k.current == k.idle_thread)) [
    | inl e ↦ simp (
      thread_current_lem (record (interrupted k) { ticks = k.ticks + 1 }) v.cur_runs,
      e,
      lt→leb_false 4 ((k.thread_ticks + 1) % 2 ^ 32) h,
    )
    | inr e ↦ simp (
      thread_current_lem (record (interrupted k) { ticks = k.ticks + 1 }) v.cur_runs,
      e,
      lt→leb_false 4 ((k.thread_ticks + 1) % 2 ^ 32) h,
    )
  ]

  tick_late :
      4 ≤ (k.thread_ticks + 1) % 2 ^ 32
      → timer_interrupt (interrupted k)
        ≡ ok (record (counted (interrupted k)) { yield_on_return = true })
  unfolding timer_interrupt thread_tick intr_yield_on_return
  tick_late h = elim (Bool-cases (k.current == k.idle_thread)) [
    | inl e ↦ simp (
      thread_current_lem (record (interrupted k) { ticks = k.ticks + 1 }) v.cur_runs,
      e,
      le→leb 4 ((k.thread_ticks + 1) % 2 ^ 32) h,
    )
    | inr e ↦ simp (
      thread_current_lem (record (interrupted k) { ticks = k.ticks + 1 }) v.cur_runs,
      e,
      le→leb 4 ((k.thread_ticks + 1) % 2 ^ 32) h,
    )
  ]

  module _ (off : k.intr_on ≡ false) (ctx : k.in_external_intr ≡ false) where
    -- In a sane scheduler, with interrupts off and outside an interrupt handler, when the tick is
    -- not yet the fourth of the slice, intr_handler on the timer's interrupt counts the tick for
    -- the running thread's kind and returns to the same thread.
    pub timer_within_slice :
        (k.thread_ticks + 1) % 2 ^ 32 < 4
        → intr_handler (some timer_interrupt) 0x20 k
          ≡ ok (record (counted k) { in_external_intr = false; yield_on_return = false })
    unfolding intr_handler
    timer_within_slice h =
        handle_external-steps timer_interrupt 0x20 k (counted (interrupted k)) off ctx
          (tick_early h) off refl

    -- In a sane scheduler, with interrupts off and outside an interrupt handler, when with this
    -- tick the 32-bit count of the slice's ticks is four or more, intr_handler on the timer's
    -- interrupt returns: the running thread has gone to the back of the ready list (the idle
    -- thread is not queued), the next thread runs with a fresh slice, the caller is ready if it
    -- was switched away, and the scheduler is sane.
    pub timer_preempts :
        (next : ℕ) (rest : List ℕ)
        → 4 ≤ (k.thread_ticks + 1) % 2 ^ 32
        → Chosen (record k { ready_list = requeued k }) next rest
        → (k' : Kernel) × (intr_handler (some timer_interrupt) 0x20 k ≡ ok k')
          × IsScheduler k'
          × (k'.current ≡ next)
          × (k'.ready_list ≡ rest)
          × (k'.thread_ticks ≡ 0)
          × (k.current ≢ next → status_of k' k.current ≡ some ready)
    unfolding intr_handler
    timer_preempts next rest h chosen =
        let run =
          thread_yield_lem (record (counted k) { in_external_intr = false; yield_on_return = true })
            v refl next rest chosen in
        (
          run.0,
          handle_external-steps timer_interrupt 0x20 k
                (record (counted (interrupted k)) { yield_on_return = true }) off ctx (tick_late h)
                off refl
              ∙ run.1,
          run.2.sane,
          run.2.now,
          run.2.queue,
          run.2.slice,
          run.3,
        )
