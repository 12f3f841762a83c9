-- ===== src/Tests/Locks.antt =====
-- threads/synch.c over the threads of the scheduler's tests: thread 3 waits for semaphore 8,
-- semaphore 9 is free, and 7 is a lock.
use junlge_pint_os.Common.{
  ℕ, ◌+◌, ◌%◌, ◌^◌, ◌≡◌, ◌≢◌, refl, true, false, some, [], ◌∷◌, inl, ok, ◌==◌, if◌then◌else◌, arith,
}
use junlge_pint_os.Threads.State.{ready, blocked, status_of, update}
use junlge_pint_os.Threads.Interrupts.{intr_disable, intr_enable, intr_set_level}
use junlge_pint_os.Threads.Schedule.{thread_current}
use junlge_pint_os.Threads.Invariant.{IsScheduler}
use junlge_pint_os.Synch.{
  Semaphore, Machine, set_sema, sema_init, sema_down, down_take, down_loop, sema_up, lock_init,
  lock_held_by_current_thread, lock_acquire, cond_broadcast,
}
use junlge_pint_os.Synch.Sema.{sema_down_free, sema_down_wait, sema_up_free, sema_up_wakes}
use junlge_pint_os.Synch.Mutex.{Phase, outside, acquired, holding, Reach, start, step, acquire}
use junlge_pint_os.Synch.Exclusion.{mutual_exclusion}
use junlge_pint_os.Synch.Condition.{cond_broadcast_lem}
use junlge_pint_os.Tests.Scheduler.{six, six-IsScheduler}

abbrev semas : ℕ → Semaphore
semas s =
    if s == 8 then record { value = 0; waiters = 3 ∷ [] } else record { value = 1; waiters = [] }

abbrev pub machine : Machine
machine = record { kernel = six; sema = semas; holder = λ l. 0; cond = λ c. [] }

down_free_run :
    sema_down 9 machine ≡ ok (set_sema 9 (record { value = 0; waiters = [] }) machine, true)
down_free_run = sema_down_free machine 9 six-IsScheduler refl (omega arith)

down_wait_example :
    (m' : Machine) × (sema_down 8 machine ≡ ok (m', false))
    × IsScheduler m'.kernel
    × (m'.kernel.current ≡ 2)
    × (m'.kernel.ready_list ≡ 6 ∷ [])
    × (status_of m'.kernel 1 ≡ some blocked)
    × ((m'.sema 8).value ≡ 0)
    × ((m'.sema 8).waiters ≡ 3 ∷ 1 ∷ [])
down_wait_example =
    sema_down_wait machine 8 six-IsScheduler 2 (6 ∷ []) refl refl (inl refl) (omega arith)

up_free_run : sema_up 9 machine ≡ ok (set_sema 9 (record { value = 2; waiters = [] }) machine)
up_free_run = sema_up_free machine 9 six-IsScheduler (inl refl) refl

up_wakes_run :
    (m' : Machine) × (sema_up 8 machine ≡ ok m')
    × IsScheduler m'.kernel
    × (m'.kernel.current ≡ 1)
    × (m'.kernel.ready_list ≡ 2 ∷ 6 ∷ 3 ∷ [])
    × (status_of m'.kernel 3 ≡ some ready)
    × ((m'.sema 8).value ≡ (0 + 1) % 2 ^ 32)
    × ((m'.sema 8).waiters ≡ [])
up_wakes_run = sema_up_wakes machine 8 six-IsScheduler 3 [] (inl refl) refl refl (omega arith)

abbrev fresh : Machine
fresh = lock_init 7 machine

abbrev locked : Machine
locked = set_sema 7 (record { value = 0; waiters = [] }) fresh

acquire_fresh : lock_acquire 7 fresh ≡ ok (locked, true)
unfolding lock_acquire lock_held_by_current_thread thread_current sema_down down_loop down_take
    lock_init sema_init intr_disable intr_enable intr_set_level
acquire_fresh = refl

abbrev nobody : ℕ → Phase
nobody t = outside

acquired_once : Reach 7 fresh nobody locked (update nobody 1 acquired)
unfolding lock_init sema_init
acquired_once =
    step fresh locked nobody (update nobody 1 acquired) start
      (acquire fresh locked nobody acquire_fresh)

exclusion_example :
    ((t u : ℕ)
      → update nobody 1 acquired t ≢ outside
      → update nobody 1 acquired u ≢ outside
      → t ≡ u)
    × (locked.holder 7 ≢ 0 → update nobody 1 acquired (locked.holder 7) ≡ holding)
    × (((t : ℕ) → update nobody 1 acquired t ≡ outside) → (locked.sema 7).value ≡ 1)
exclusion_example =
    mutual_exclusion 7 machine locked nobody (update nobody 1 acquired) (λ t. refl) acquired_once

-- The running thread holds the lock 7, and thread 3 waits on the condition variable 20.
abbrev monitor : Machine
monitor = record machine {
  holder = λ l. if l == 7 then 1 else 0;
  cond = λ c. if c == 20 then 8 ∷ [] else [];
}

cond_broadcast_example :
    (m' : Machine) × (cond_broadcast 20 7 monitor ≡ ok m')
    × IsScheduler m'.kernel
    × (m'.kernel.current ≡ 1)
    × (m'.kernel.ready_list ≡ 2 ∷ 6 ∷ 3 ∷ [])
    × (m'.cond 20 ≡ [])
cond_broadcast_example =
    cond_broadcast_lem (λ w. 3) 20 7 (8 ∷ []) monitor six-IsScheduler refl refl refl (tt, tt)
      (tt, tt) ((refl, refl, λ q. omega (arith, q)), tt)
