-- ===== src/Threads/Sleep.antt =====
-- What a thread may ask about itself (threads/thread.c), and sleeping until a tick of the timer
-- (devices/timer.c).
use native.Mathlib.Decide.{dec_lt}
use junlge_pint_os.Common.{
  ℕ, ◌+◌, ◌-◌, ◌≤◌, ◌<◌, ◌≡◌, ◌≢◌, refl, Bool, true, false, Option, none, some, List, ◌⊎◌, inl, inr,
  Outcome, ok, panic, ◌>>=◌, ◌>>◌, assert, ltb, lt→ltb, le→ltb_false, if◌then◌else◌, arith,
}
use junlge_pint_os.Threads.State.{Thread, Kernel, ready, status_of, update}
use junlge_pint_os.Threads.Interrupts.{intr_disable, intr_set_level}
use junlge_pint_os.Threads.Schedule.{thread_current, thread_yield}
use junlge_pint_os.Threads.Invariant.{IsScheduler}
use junlge_pint_os.Threads.Switch.{Chosen}
use junlge_pint_os.Threads.Ops.{intr_set_level_back}
use junlge_pint_os.Threads.Yield.{thread_yield_lem, Left, requeued}

abbrev pub field_of {ℓ} : {A : Type ℓ} → (Thread → A) → Option Thread → Outcome A
field_of f none = panic
field_of f (some t) = ok (f t)

unfoldable pub thread_name : Kernel → Outcome (List ℕ)
thread_name k = do t ← thread_current k; field_of (λ u. u.name) (k.thread t)

unfoldable pub thread_tid : Kernel → Outcome ℕ
thread_tid k = do t ← thread_current k; field_of (λ u. u.tid) (k.thread t)

abbrev pub with_priority : ℕ → Option Thread → Option Thread
with_priority p none = none
with_priority p (some t) = some (record t { priority = p })

unfoldable pub thread_set_priority : ℕ → Kernel → Outcome Kernel
thread_set_priority p k = do
  t ← thread_current k
  ok (record k { thread = update k.thread t (with_priority p (k.thread t)) })

unfoldable pub thread_get_priority : Kernel → Outcome ℕ
thread_get_priority k = do t ← thread_current k; field_of (λ u. u.priority) (k.thread t)

unfoldable pub timer_ticks : Kernel → Outcome (ℕ × Kernel)
timer_ticks k = do k' ← intr_set_level k.intr_on (intr_disable k); ok (k.ticks, k')

-- `start` was once returned by `timer_ticks`, so the difference is not negative.
unfoldable pub timer_elapsed : ℕ → Kernel → Outcome (ℕ × Kernel)
timer_elapsed start k = do (now, k') ← timer_ticks k; ok (now - start, k')

unfoldable pub asleep : Kernel → Outcome (Kernel × Bool)
asleep k = do k' ← thread_yield k; ok (k', false)

-- One test of the loop of `timer_sleep`: `true` if it ends, `false` after the switch of the yield.
-- The loop tests again when the thread runs again.
unfoldable pub sleep_loop : ℕ → ℕ → Kernel → Outcome (Kernel × Bool)
sleep_loop start n k = do
  (elapsed, k') ← timer_elapsed start k
  if ltb elapsed n then asleep k' else ok (k', true)

unfoldable pub timer_sleep : ℕ → Kernel → Outcome (Kernel × Bool)
timer_sleep n k = do (start, k') ← timer_ticks k; assert k'.intr_on; sleep_loop start n k'

module _ (k : Kernel) (v : IsScheduler k) (ctx : k.in_external_intr ≡ false) where
  timer_elapsed_lem : (start : ℕ) → timer_elapsed start k ≡ ok (k.ticks - start, k)
  unfolding timer_elapsed timer_ticks intr_disable
  timer_elapsed_lem start =
      rw (intr_set_level_back k.intr_on (record k { intr_on = false }) (inr ctx)) refl

  -- In a sane scheduler, outside an interrupt handler, for a start that is not in the future, one
  -- test of the loop of timer_sleep always returns. If n ticks have passed since start the loop
  -- ends and nothing has changed. Otherwise the thread yields: with the thread put at the back of
  -- the ready list, unless it is the idle thread, let next be the front of that list and rest what
  -- follows, or the idle thread and no thread if the list is empty; then next runs, from a fresh
  -- time slice, the ready list is rest, the scheduler is sane, and the thread that yielded is
  -- ready unless it is next itself.
  pub sleep_loop_lem :
      (start n next : ℕ) (rest : List ℕ)
      → start ≤ k.ticks
      → Chosen (record k { ready_list = requeued k }) next rest
      → ((start + n ≤ k.ticks) × (sleep_loop start n k ≡ ok (k, true)))
        ⊎ (k.ticks < start + n)
          × (k' : Kernel) × (sleep_loop start n k ≡ ok (k', false))
          × Left k next rest k'
          × (k.current ≢ next → status_of k' k.current ≡ some ready)
  unfolding sleep_loop asleep
  sleep_loop_lem start n next rest past chosen = elim (dec_lt (k.ticks - start) n) [
    | yes early ↦
        let run = thread_yield_lem k v ctx next rest chosen in
        inr (
          omega (arith, early, past),
          run.0,
          rw (timer_elapsed_lem start, lt→ltb (k.ticks - start) n early, run.1) refl,
          run.2,
          run.3,
        )
    | no late ↦ inl (
      omega (arith, late, past),
      rw (timer_elapsed_lem start, le→ltb_false (k.ticks - start) n (omega (arith, late))) refl,
    )
  ]
