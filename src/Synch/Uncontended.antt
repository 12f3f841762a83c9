-- ===== src/Synch/Uncontended.antt =====
-- threads/synch.c: a lock that nobody holds or waits for is taken and given back without a switch.
use mathlib.Core.Path.{fun_ext}
use native.Mathlib.Decide.{ℕ_discrete}
use junlge_pint_os.Common.{
  ℕ, ◌+◌, ◌-◌, ◌%◌, ◌^◌, ◌≡◌, ◌≢◌, refl, sym, ap, ◌∙◌, true, false, inr, not, [], ok, arith,
  ==_refl, ==_ne, assert_then,
}
use junlge_pint_os.Threads.State.{null, update}
use junlge_pint_os.Threads.Invariant.{IsScheduler}
use junlge_pint_os.Threads.Ops.{thread_current_lem}
use junlge_pint_os.Synch.{
  Semaphore, Machine, set_sema, lock_held_by_current_thread, lock_acquire, lock_take, lock_enter,
  lock_drop, lock_release,
}
use junlge_pint_os.Synch.Sema.{update_self, sema_down_free, sema_up_free}

pub record IsFree (l : ℕ) (sema : ℕ → Semaphore) (holder : ℕ → ℕ) : Type 0 where
  pub value_one : (sema l).value ≡ 1
  pub none_waits : (sema l).waiters ≡ []
  pub no_holder : holder l ≡ null

-- The machine once the running thread has the lock.
abbrev pub taken : ℕ → Machine → Machine
taken l m = record (set_sema l (record (m.sema l) { value = (m.sema l).value - 1 }) m) {
  holder = update m.holder l m.kernel.current;
}

-- Two changes at one place, the second of which puts the old value back, are none.
update_back {ℓ} :
    {A : Type ℓ} (f : ℕ → A) (p : ℕ) (x y : A) → y ≡ f p → update (update f p x) p y ≡ f
update_back f p x y e = fun_ext (λ q. at_q q)
  where
    at_q : (q : ℕ) → update (update f p x) p y q ≡ f q
    at_q q = elim (ℕ_discrete p q) [
      | yes s ↦ rw (← s) (rw (==_refl p) e)
      | no ne ↦ rw (==_ne p q ne) refl
    ]

module _ (l : ℕ) (m : Machine) (v : IsScheduler m.kernel) (ctx : m.kernel.in_external_intr ≡ false)
    (cur : m.kernel.current ≢ null) (free : IsFree l m.sema m.holder) where
  not_held : lock_held_by_current_thread l m ≡ ok false
  unfolding lock_held_by_current_thread
  not_held =
      rw (thread_current_lem m.kernel v.cur_runs, free.no_holder)
        (rw (==_ne null m.kernel.current (λ e. cur (sym e))) refl)

  lock_acquire_lem :
      lock_acquire l m
      ≡ ok (set_sema l (record (m.sema l) { value = (m.sema l).value - 1 }) m, true)
  unfolding lock_acquire
  lock_acquire_lem =
      assert_then (not m.kernel.in_external_intr) _ (ap not ctx)
      ∙ rw (not_held) (sema_down_free m l v ctx (omega (arith, free.value_one)))

  pub lock_enter_lem : lock_enter l m ≡ ok (taken l m, true)
  unfolding lock_enter lock_take
  lock_enter_lem = rw (lock_acquire_lem) (rw (thread_current_lem m.kernel v.cur_runs) refl)

  -- The machine after `lock_drop`.
  abbrev dropped : Machine
  dropped = record (taken l m) { holder = update (taken l m).holder l null }

  lock_drop_lem : lock_drop l (taken l m) ≡ ok dropped
  unfolding lock_drop lock_held_by_current_thread
  lock_drop_lem =
      rw (thread_current_lem m.kernel v.cur_runs)
        (rw (update_self m.holder l m.kernel.current) (rw (==_refl m.kernel.current) refl))

  sema_back :
      set_sema l (record { value = ((dropped.sema l).value + 1) % 2 ^ 32; waiters = [] }) dropped
      ≡ m
  sema_back = λ i. record m { sema = s i; holder = h i }
    where
      one_again : ((dropped.sema l).value + 1) % 2 ^ 32 ≡ (m.sema l).value
      one_again =
          rw (update_self m.sema l (record (m.sema l) { value = (m.sema l).value - 1 }))
            (rw (free.value_one) refl)

      back :
          ◌≡◌ {A = Semaphore}
            (record { value = ((dropped.sema l).value + 1) % 2 ^ 32; waiters = [] })
            (m.sema l)
      back = λ i. record { value = one_again i; waiters = sym (free.none_waits) i }

      s :
          update dropped.sema l
            (record { value = ((dropped.sema l).value + 1) % 2 ^ 32; waiters = [] })
          ≡ m.sema
      s = update_back m.sema l _ _ back

      h : dropped.holder ≡ m.holder
      h = update_back m.holder l m.kernel.current null (sym free.no_holder)

  pub lock_release_lem : lock_release l (taken l m) ≡ ok m
  unfolding lock_release
  lock_release_lem =
      rw (lock_drop_lem) (sema_up_free dropped l v (inr ctx) none_waits ∙ ap ok sema_back)
    where
      none_waits : (dropped.sema l).waiters ≡ []
      none_waits =
          ap (λ x. x.waiters)
            (update_self m.sema l (record (m.sema l) { value = (m.sema l).value - 1 }))
          ∙ free.none_waits
