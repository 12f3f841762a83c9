-- ===== src/Synch.antt =====
-- threads/synch.c: semaphores, locks and condition variables, over the scheduler. They are named
-- by their addresses; the semaphore of a lock has the lock's address. A function that may sleep
-- runs here up to its return (`true`) or up to the switch to another thread (`false`); the loop of
-- `sema_down` then tests again when the thread is resumed, by `down_loop`. The assertions that a
-- pointer is not null hold of the objects named here and are left out.
pub mod Sema
pub mod Inversion
pub mod Mutex
pub mod Exclusion
pub mod Condition
pub mod Uncontended
use junlge_pint_os.Common.{
  ℕ, ◌+◌, ◌-◌, ◌%◌, ◌^◌, Bool, true, false, not, List, [], ◌∷◌, ◌++◌, Outcome, ok, panic, ◌>>=◌,
  ◌>>◌, assert, ltb, ◌==◌, if◌then◌else◌,
}
use junlge_pint_os.Threads.State.{Kernel, null, update}
use junlge_pint_os.Threads.Interrupts.{intr_disable, intr_set_level}
use junlge_pint_os.Threads.Schedule.{thread_current, thread_block, thread_unblock}

-- `struct semaphore`.
pub record Semaphore : Type 0 where
  pub value : ℕ
  pub waiters : List ℕ

-- The kernel with its semaphores, the holders of its locks, and the waiting semaphores of its
-- condition variables.
pub record Machine : Type 0 where
  pub kernel : Kernel
  pub sema : ℕ → Semaphore
  pub holder : ℕ → ℕ
  pub cond : ℕ → List ℕ

abbrev pub set_sema : ℕ → Semaphore → Machine → Machine
set_sema s x m = record m { sema = update m.sema s x }

abbrev pub set_kernel : Kernel → Machine → Machine
set_kernel k m = record m { kernel = k }

unfoldable pub sema_init : ℕ → ℕ → Machine → Machine
sema_init s value m = set_sema s (record { value = value; waiters = [] }) m

-- The body of the loop of `sema_down`, up to the switch.
unfoldable pub down_wait : ℕ → Machine → Outcome (Machine × Bool)
down_wait s m = do
  t ← thread_current m.kernel
  k ← thread_block m.kernel
  ok (
    set_kernel k (set_sema s (record (m.sema s) { waiters = (m.sema s).waiters ++ t ∷ [] }) m),
    false,
  )

-- What follows the loop of `sema_down`.
unfoldable pub down_take : ℕ → Bool → Machine → Outcome (Machine × Bool)
down_take s old_level m = do
  k ← intr_set_level old_level m.kernel
  ok (set_kernel k (set_sema s (record (m.sema s) { value = (m.sema s).value - 1 }) m), true)

-- One test of the loop of `sema_down`, interrupts off; `old_level` is put back at the end.
unfoldable pub down_loop : ℕ → Bool → Machine → Outcome (Machine × Bool)
down_loop s old_level m = if (m.sema s).value == 0 then down_wait s m else down_take s old_level m

unfoldable pub sema_down : ℕ → Machine → Outcome (Machine × Bool)
sema_down s m = do
  assert (not m.kernel.in_external_intr)
  down_loop s m.kernel.intr_on (set_kernel (intr_disable m.kernel) m)

unfoldable pub sema_try_down : ℕ → Machine → Outcome (Machine × Bool)
sema_try_down s m = do
  let success = ltb 0 (m.sema s).value
  let m' = if success then set_sema s (record (m.sema s) { value = (m.sema s).value - 1 }) m else m
  k ← intr_set_level m.kernel.intr_on (intr_disable m.kernel)
  ok (set_kernel k m', success)

-- Wakes the front waiter, if any.
unfoldable pub wake_front : List ℕ → Kernel → Outcome Kernel
wake_front [] k = ok k
wake_front (t ∷ rest) k = thread_unblock t k

abbrev pub others_of : List ℕ → List ℕ
others_of [] = []
others_of (t ∷ rest) = rest

-- `sema->value` is an `unsigned`, 32 bits wide.
unfoldable pub sema_up : ℕ → Machine → Outcome Machine
sema_up s m = do
  k ← wake_front (m.sema s).waiters (intr_disable m.kernel)
  k' ← intr_set_level m.kernel.intr_on k
  ok (
      set_kernel k' (
        set_sema s
          (record {
            value = ((m.sema s).value + 1) % 2 ^ 32;
            waiters = others_of (m.sema s).waiters;
          })
          m))

unfoldable pub lock_init : ℕ → Machine → Machine
lock_init l m = sema_init l 1 (record m { holder = update m.holder l null })

unfoldable pub lock_held_by_current_thread : ℕ → Machine → Outcome Bool
lock_held_by_current_thread l m = do t ← thread_current m.kernel; ok (m.holder l == t)

-- `lock_acquire` up to the return of its `sema_down`, or the switch inside it.
unfoldable pub lock_acquire : ℕ → Machine → Outcome (Machine × Bool)
lock_acquire l m = do
  assert (not m.kernel.in_external_intr)
  held ← lock_held_by_current_thread l m
  assert (not held)
  sema_down l m

-- The rest of `lock_acquire`, once the semaphore is down.
unfoldable pub lock_take : ℕ → Machine → Outcome Machine
lock_take l m = do t ← thread_current m.kernel; ok (record m { holder = update m.holder l t })

-- Both parts of `lock_acquire`, where the semaphore is down without a switch (`true`).
unfoldable pub lock_enter : ℕ → Machine → Outcome (Machine × Bool)
lock_enter l m = do
  (m', down) ← lock_acquire l m
  m'' ← if down then lock_take l m' else ok m'
  ok (m'', down)

unfoldable pub lock_try_acquire : ℕ → Machine → Outcome (Machine × Bool)
lock_try_acquire l m = do
  held ← lock_held_by_current_thread l m
  assert (not held)
  (m', success) ← sema_try_down l m
  m'' ← if success then lock_take l m' else ok m'
  ok (m'', success)

-- `lock_release` up to its `sema_up`, which is the rest of it.
unfoldable pub lock_drop : ℕ → Machine → Outcome Machine
lock_drop l m = do
  held ← lock_held_by_current_thread l m
  assert held
  ok (record m { holder = update m.holder l null })

unfoldable pub lock_release : ℕ → Machine → Outcome Machine
lock_release l m = do m' ← lock_drop l m; sema_up l m'

unfoldable pub cond_init : ℕ → Machine → Machine
cond_init c m = record m { cond = update m.cond c [] }

-- `cond_wait` up to its `sema_down`: `w` is the address of the waiter's own semaphore, which lies
-- on the caller's stack.
unfoldable pub cond_enqueue : ℕ → ℕ → ℕ → Machine → Outcome Machine
cond_enqueue c l w m = do
  assert (not m.kernel.in_external_intr)
  held ← lock_held_by_current_thread l m
  assert held
  let m' = sema_init w 0 m
  lock_release l (record m' { cond = update m'.cond c (m'.cond c ++ w ∷ []) })

-- `cond_wait` up to the return of its `sema_down`, or the switch inside it. `lock_acquire` on the
-- lock is the rest of it.
unfoldable pub cond_wait : ℕ → ℕ → ℕ → Machine → Outcome (Machine × Bool)
cond_wait c l w m = do m' ← cond_enqueue c l w m; sema_down w m'

unfoldable pub signal_front : ℕ → List ℕ → Machine → Outcome Machine
signal_front c [] m = ok m
signal_front c (w ∷ rest) m = sema_up w (record m { cond = update m.cond c rest })

unfoldable pub cond_signal : ℕ → ℕ → Machine → Outcome Machine
cond_signal c l m = do
  assert (not m.kernel.in_external_intr)
  held ← lock_held_by_current_thread l m
  assert held
  signal_front c (m.cond c) m

-- The loop of `cond_broadcast` pops one waiter in each round.
unfoldable pub broadcast_loop : List ℕ → ℕ → ℕ → Machine → Outcome Machine
broadcast_loop [] c l m = ok m
broadcast_loop (w ∷ rest) c l m = do m' ← cond_signal c l m; broadcast_loop rest c l m'

unfoldable pub cond_broadcast : ℕ → ℕ → Machine → Outcome Machine
cond_broadcast c l m = broadcast_loop (m.cond c) c l m
