-- ===== src/Synch/Condition.antt =====
-- threads/synch.c: `cond_signal` and `cond_broadcast` wake the waiters in the order of their waiting.
use junlge_pint_os.Common.{
  ℕ, ◌+◌, ◌%◌, ◌^◌, ◌≡◌, ◌≢◌, refl, sym, ap, ◌∙◌, false, not, inl, inr, some, List, [], ◌∷◌, ◌++◌,
  map, All, Distinct, ok, assert_then, ==_refl, ==_ne,
}
use junlge_pint_os.Threads.State.{Kernel, status_of, blocked, ready, set_status, update}
use junlge_pint_os.Threads.Interrupts.{intr_disable}
use junlge_pint_os.Threads.Invariant.{IsScheduler, Sets-ne}
use junlge_pint_os.Threads.Switch.{set_status-Sets}
use junlge_pint_os.Threads.Ops.{
  status-ne_none, thread_current_lem, thread_unblock_lem, intr_set_level_back,
}
use junlge_pint_os.Synch.{
  Machine, set_sema, set_kernel, wake_front, sema_up, lock_held_by_current_thread, signal_front,
  cond_signal, broadcast_loop, cond_broadcast,
}

-- The machine once `sema_up` has woken the thread `t`, the only waiter of the semaphore `w`.
abbrev pub woken : ℕ → ℕ → Machine → Machine
woken w t m =
    set_kernel (record (set_status t ready m.kernel) { ready_list = m.kernel.ready_list ++ t ∷ [] })
      (set_sema w (record { value = ((m.sema w).value + 1) % 2 ^ 32; waiters = [] }) m)

-- The thread `sleeper w` waits for `w`, alone, and can be woken.
abbrev pub Sleeps : Machine → (ℕ → ℕ) → ℕ → Type 0
Sleeps m sleeper w =
    ((m.sema w).waiters ≡ sleeper w ∷ [])
    × (status_of m.kernel (sleeper w) ≡ some blocked)
    × (sleeper w ≢ m.kernel.idle_thread)

sema_up-woken :
    (m : Machine) (sleeper : ℕ → ℕ) (w : ℕ)
    → IsScheduler m.kernel
    → m.kernel.in_external_intr ≡ false
    → Sleeps m sleeper w
    → (sema_up w m ≡ ok (woken w (sleeper w) m)) × IsScheduler (woken w (sleeper w) m).kernel
unfolding sema_up wake_front intr_disable
sema_up-woken m sleeper w v ctx asleep =
    let t = sleeper w in
    let k : Kernel = record m.kernel { intr_on = false } in
    let run = thread_unblock_lem k v t (inl refl) asleep.1 asleep.2 in
    let k' : Kernel = record (set_status t ready k) { ready_list = k.ready_list ++ t ∷ [] } in
    (rw (asleep.0) (rw (run.0) (rw (intr_set_level_back m.kernel.intr_on k' (inr ctx)))), run.1)

-- A waiter that is another semaphore's other thread still sleeps.
Sleeps-woken :
    (m : Machine) (sleeper : ℕ → ℕ) (w u : ℕ)
    → status_of m.kernel (sleeper w) ≡ some blocked
    → w ≢ u
    → sleeper w ≢ sleeper u
    → Sleeps m sleeper u
    → Sleeps (woken w (sleeper w) m) sleeper u
Sleeps-woken m sleeper w u was ne apart asleep = (
  rw (==_ne w u ne) asleep.0,
  Sets-ne (sleeper w) ready (status_of m.kernel) (status_of (set_status (sleeper w) ready m.kernel))
        (set_status-Sets m.kernel (sleeper w) ready
          (status-ne_none m.kernel (sleeper w) blocked was))
        (sleeper u) apart
      ∙ asleep.1,
  asleep.2,
)

-- The waiters of a condition variable: each semaphore with its sleeper.
abbrev pub Waiting : Machine → (ℕ → ℕ) → List ℕ → Type 0
Waiting m sleeper ws = All (Sleeps m sleeper) ws

Waiting-woken :
    (m : Machine) (sleeper : ℕ → ℕ) (w : ℕ) (ws : List ℕ)
    → status_of m.kernel (sleeper w) ≡ some blocked
    → All (λ u. w ≢ u) ws
    → All (λ t. sleeper w ≢ t) (map sleeper ws)
    → Waiting m sleeper ws
    → Waiting (woken w (sleeper w) m) sleeper ws
Waiting-woken m sleeper w [] was ne apart all = tt
Waiting-woken m sleeper w (u ∷ ws) was ne apart all = (
  Sleeps-woken m sleeper w u was ne.0 apart.0 all.0,
  Waiting-woken m sleeper w ws was ne.1 apart.1 all.1,
)

append_nil : (xs : List ℕ) → xs ++ [] ≡ xs
append_nil [] = refl
append_nil (x ∷ xs) = ap (λ zs. x ∷ zs) (append_nil xs)

append_next : (xs ys : List ℕ) (t : ℕ) → (xs ++ t ∷ []) ++ ys ≡ xs ++ t ∷ ys
append_next [] ys t = refl
append_next (x ∷ xs) ys t = ap (λ zs. x ∷ zs) (append_next xs ys t)

-- The machine once the front waiter of `c` is signaled.
abbrev pub signaled : ℕ → ℕ → ℕ → List ℕ → Machine → Machine
signaled c w t rest m = woken w t (record m { cond = update m.cond c rest })

-- What `cond_signal` does where somebody waits.
cond_signal-signaled :
    (m : Machine) (sleeper : ℕ → ℕ) (c l w : ℕ) (rest : List ℕ)
    → IsScheduler m.kernel
    → m.kernel.in_external_intr ≡ false
    → m.holder l ≡ m.kernel.current
    → m.cond c ≡ w ∷ rest
    → Sleeps m sleeper w
    → (cond_signal c l m ≡ ok (signaled c w (sleeper w) rest m))
      × IsScheduler (signaled c w (sleeper w) rest m).kernel
unfolding cond_signal lock_held_by_current_thread signal_front
cond_signal-signaled m sleeper c l w rest v ctx holds waits asleep =
    let up = sema_up-woken (record m { cond = update m.cond c rest }) sleeper w v ctx asleep in
    (
      assert_then (not m.kernel.in_external_intr) _ (ap not ctx)
          ∙ rw (thread_current_lem m.kernel v.cur_runs, holds, ==_refl m.kernel.current, waits)
              up.0,
      up.1,
    )

module _ (sleeper : ℕ → ℕ) (c l : ℕ) where
  broadcast_loop_lem :
      (ws : List ℕ) (m : Machine)
      → IsScheduler m.kernel
      → m.kernel.in_external_intr ≡ false
      → m.holder l ≡ m.kernel.current
      → m.cond c ≡ ws
      → Distinct ws
      → Distinct (map sleeper ws)
      → Waiting m sleeper ws
      → (m' : Machine) × (broadcast_loop ws c l m ≡ ok m')
        × IsScheduler m'.kernel
        × (m'.kernel.current ≡ m.kernel.current)
        × (m'.kernel.ready_list ≡ m.kernel.ready_list ++ map sleeper ws)
        × (m'.cond c ≡ [])
  unfolding broadcast_loop
  broadcast_loop_lem [] m v ctx holds waits d ds all =
      (m, refl, v, refl, sym (append_nil m.kernel.ready_list), waits)
  broadcast_loop_lem (w ∷ rest) m v ctx holds waits d ds all =
      let one = cond_signal-signaled m sleeper c l w rest v ctx holds waits all.0 in
      let others =
        broadcast_loop_lem rest (signaled c w (sleeper w) rest m) one.1 ctx holds
          (rw (==_refl c) refl) d.1 ds.1
          (Waiting-woken (record m { cond = update m.cond c rest }) sleeper w rest all.0.1 d.0 ds.0
            all.1) in
      (
        others.0,
        rw (one.0) others.1,
        others.2,
        others.3,
        others.4 ∙ append_next m.kernel.ready_list (map sleeper rest) (sleeper w),
        others.5,
      )

  -- In a sane scheduler, outside an interrupt handler, when the running thread holds the lock, the
  -- semaphores ws wait on the condition variable, all different, and each has one waiter, a
  -- blocked thread other than the idle thread, all different, then cond_broadcast returns: all
  -- these threads are at the back of the ready list, in the order in which they have waited,
  -- nobody waits on the condition variable, the caller still runs and the scheduler is sane.
  pub cond_broadcast_lem :
      (ws : List ℕ) (m : Machine)
      → IsScheduler m.kernel
      → m.kernel.in_external_intr ≡ false
      → m.holder l ≡ m.kernel.current
      → m.cond c ≡ ws
      → Distinct ws
      → Distinct (map sleeper ws)
      → Waiting m sleeper ws
      → (m' : Machine) × (cond_broadcast c l m ≡ ok m')
        × IsScheduler m'.kernel
        × (m'.kernel.current ≡ m.kernel.current)
        × (m'.kernel.ready_list ≡ m.kernel.ready_list ++ map sleeper ws)
        × (m'.cond c ≡ [])
  unfolding cond_broadcast
  cond_broadcast_lem ws m v ctx holds waits d ds all =
      let run = broadcast_loop_lem ws m v ctx holds waits d ds all in
      (run.0, rw (waits) run.1, run.2, run.3, run.4, run.5)
