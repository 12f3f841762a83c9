-- ===== src/Synch/Sema.antt =====
-- threads/synch.c: the branches of the semaphore operations.
use junlge_pint_os.Common.{
  ℕ, ◌+◌, ◌-◌, ◌%◌, ◌^◌, ◌≡◌, ◌≢◌, refl, ap, ◌∙◌, true, false, not, ◌⊎◌, inl, inr, some, List, [],
  ◌∷◌, ◌++◌, ok, ◌==◌, arith, assert_then, ==_refl, ==_ne,
}
use junlge_pint_os.Threads.State.{Kernel, status_of, blocked, ready, set_status, update}
use junlge_pint_os.Threads.Interrupts.{intr_disable}
use junlge_pint_os.Threads.Invariant.{IsScheduler, Sets-self}
use junlge_pint_os.Threads.Switch.{Chosen, set_status-Sets}
use junlge_pint_os.Threads.Ops.{
  status-ne_none, thread_current_lem, thread_block_lem, thread_unblock_lem, intr_set_level_back,
}
use junlge_pint_os.Synch.{
  Semaphore, Machine, set_sema, set_kernel, down_loop, down_wait, down_take, sema_down, wake_front,
  sema_up,
}

pub update_self {ℓ} : {A : Type ℓ} (f : ℕ → A) (p : ℕ) (x : A) → update f p x p ≡ x
update_self f p x = rw (==_refl p)

module _ (m : Machine) (s : ℕ) (v : IsScheduler m.kernel) where
  -- In a sane scheduler, outside an interrupt handler, sema_down on a semaphore of positive value
  -- takes one off the value, changes nothing else and returns without a switch.
  pub sema_down_free :
      m.kernel.in_external_intr ≡ false
      → (m.sema s).value ≢ 0
      → sema_down s m ≡ ok (set_sema s (record (m.sema s) { value = (m.sema s).value - 1 }) m, true)
  unfolding sema_down down_loop down_wait down_take intr_disable
  sema_down_free ctx pos =
      assert_then (not m.kernel.in_external_intr) _ (ap not ctx)
      ∙ rw (==_ne (m.sema s).value 0 pos)
          (rw (intr_set_level_back m.kernel.intr_on (intr_disable m.kernel) (inr ctx)))

  -- In a sane scheduler, outside an interrupt handler, sema_down on a semaphore of value 0, when
  -- the thread to run next is not the caller, puts the caller at the back of the waiters, blocks
  -- it and switches to that thread; the value stays 0 and the scheduler is sane.
  pub sema_down_wait :
      (next : ℕ) (rest : List ℕ)
      → m.kernel.in_external_intr ≡ false
      → (m.sema s).value ≡ 0
      → Chosen m.kernel next rest
      → m.kernel.current ≢ next
      → (m' : Machine) × (sema_down s m ≡ ok (m', false))
        × IsScheduler m'.kernel
        × (m'.kernel.current ≡ next)
        × (m'.kernel.ready_list ≡ rest)
        × (status_of m'.kernel m.kernel.current ≡ some blocked)
        × ((m'.sema s).value ≡ 0)
        × ((m'.sema s).waiters ≡ (m.sema s).waiters ++ m.kernel.current ∷ [])
  unfolding sema_down down_loop down_wait down_take intr_disable
  sema_down_wait next rest ctx zero_value chosen ne =
      let k : Kernel = record m.kernel { intr_on = false } in
      let run = thread_block_lem k v next rest ctx refl chosen in
      let at_s =
        update_self m.sema s
          (record (m.sema s) { waiters = (m.sema s).waiters ++ m.kernel.current ∷ [] }) in
      (
        set_kernel run.0 (
            set_sema s (record (m.sema s) { waiters = (m.sema s).waiters ++ m.kernel.current ∷ [] })
              m),
        assert_then (not m.kernel.in_external_intr) _ (ap not ctx)
            ∙ (rw (==_zero (m.sema s).value zero_value)
                (rw (thread_current_lem k v.cur_runs) (rw run.1))),
        run.2.sane,
        run.2.now,
        run.2.queue,
        run.3 ne,
        ap (λ x. x.value) at_s ∙ zero_value,
        ap (λ x. x.waiters) at_s,
      )
    where
      ==_zero : (n : ℕ) → n ≡ 0 → (n == 0) ≡ true
      ==_zero n e = ground arith

  -- In a sane scheduler, with interrupts off or outside an interrupt handler, sema_up on a
  -- semaphore without waiters adds one to the value mod 2^32 and changes nothing else.
  pub sema_up_free :
      (m.kernel.intr_on ≡ false) ⊎ (m.kernel.in_external_intr ≡ false)
      → (m.sema s).waiters ≡ []
      → sema_up s m
        ≡ ok (set_sema s (record { value = ((m.sema s).value + 1) % 2 ^ 32; waiters = [] }) m)
  unfolding sema_up wake_front intr_disable
  sema_up_free level none_waits =
      rw (none_waits) (rw (intr_set_level_back m.kernel.intr_on (intr_disable m.kernel) level))

  -- In a sane scheduler, with interrupts off or outside an interrupt handler, sema_up on a
  -- semaphore whose first waiter is blocked and not the idle thread returns: it has added one to
  -- the value mod 2^32, taken that waiter off the list and put it, ready, at the back of the ready
  -- list; the caller still runs and the scheduler is sane.
  pub sema_up_wakes :
      (t : ℕ) (rest : List ℕ)
      → (m.kernel.intr_on ≡ false) ⊎ (m.kernel.in_external_intr ≡ false)
      → (m.sema s).waiters ≡ t ∷ rest
      → status_of m.kernel t ≡ some blocked
      → t ≢ m.kernel.idle_thread
      → (m' : Machine) × (sema_up s m ≡ ok m')
        × IsScheduler m'.kernel
        × (m'.kernel.current ≡ m.kernel.current)
        × (m'.kernel.ready_list ≡ m.kernel.ready_list ++ t ∷ [])
        × (status_of m'.kernel t ≡ some ready)
        × ((m'.sema s).value ≡ ((m.sema s).value + 1) % 2 ^ 32)
        × ((m'.sema s).waiters ≡ rest)
  unfolding sema_up wake_front intr_disable
  sema_up_wakes t rest level waits was ne =
      let k : Kernel = record m.kernel { intr_on = false } in
      let run = thread_unblock_lem k v t (inl refl) was ne in
      let k' : Kernel = record (set_status t ready k) { ready_list = k.ready_list ++ t ∷ [] } in
      let x : Semaphore = record { value = ((m.sema s).value + 1) % 2 ^ 32; waiters = rest } in
      (
        set_kernel (record k' { intr_on = m.kernel.intr_on }) (set_sema s x m),
        rw (waits) (rw (run.0) (rw (intr_set_level_back m.kernel.intr_on k' level))),
        run.1,
        refl,
        refl,
        Sets-self t ready (status_of m.kernel) (status_of (set_status t ready m.kernel))
            (set_status-Sets m.kernel t ready (status-ne_none m.kernel t blocked was)),
        ap (λ y. y.value) (update_self m.sema s x),
        ap (λ y. y.waiters) (update_self m.sema s x),
      )
