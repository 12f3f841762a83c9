-- ===== src/Intq.antt =====
-- devices/intq.c: the interrupt queue, a ring of 64 bytes between threads and interrupt handlers.
-- As in the model of semaphores, a function that may sleep runs up to its return (`true`) or up to
-- the switch to another thread (`false`); a sleeper then runs the loop of its function again.
pub mod Ring
pub mod Queue
use junlge_pint_os.Common.{
  ℕ, ◌+◌, ◌%◌, Bool, true, false, not, ◌&&◌, Outcome, ok, panic, ◌>>=◌, ◌>>◌, assert, ◌==◌,
  if◌then◌else◌,
}
use junlge_pint_os.Threads.State.{Kernel, null, update}
use junlge_pint_os.Threads.Schedule.{thread_current, thread_block, thread_unblock}
use junlge_pint_os.Synch.{Machine, set_kernel, lock_init, lock_acquire, lock_take}

-- INTQ_BUFSIZE.
abbrev pub intq_bufsize : ℕ
intq_bufsize = 64

-- `struct intq`. The lock is named by its address.
pub record Intq : Type 0 where
  pub lock : ℕ
  pub not_full : ℕ
  pub not_empty : ℕ
  pub buf : ℕ → ℕ
  pub head : ℕ
  pub tail : ℕ

unfoldable pub next : ℕ → ℕ
next pos = (pos + 1) % intq_bufsize

unfoldable pub intq_init : Intq → Machine → Intq × Machine
intq_init q m =
    (record q { not_full = null; not_empty = null; head = 0; tail = 0 }, lock_init q.lock m)

unfoldable pub intq_empty : Intq → Kernel → Outcome Bool
intq_empty q k = do assert (not k.intr_on); ok (q.head == q.tail)

unfoldable pub intq_full : Intq → Kernel → Outcome Bool
intq_full q k = do assert (not k.intr_on); ok (next q.head == q.tail)

-- `wait (q, &q->not_empty)` for `false`, `wait (q, &q->not_full)` for `true`.
unfoldable pub holds : Bool → Intq → Kernel → Outcome Bool
holds false q k = intq_empty q k
holds true q k = intq_full q k

unfoldable pub set_waiter : Bool → ℕ → Intq → Intq
set_waiter false t q = record q { not_empty = t }
set_waiter true t q = record q { not_full = t }

unfoldable pub wait : Bool → Intq → Machine → Outcome (Intq × Machine)
wait for_full q m = do
  assert (not m.kernel.in_external_intr)
  assert (not m.kernel.intr_on)
  cond ← holds for_full q m.kernel
  assert cond
  t ← thread_current m.kernel
  k ← thread_block m.kernel
  ok (set_waiter for_full t q, set_kernel k m)

unfoldable pub waiter : Bool → Intq → ℕ
waiter false q = q.not_empty
waiter true q = q.not_full

unfoldable pub wake : Bool → ℕ → Intq → Machine → Outcome (Intq × Machine)
wake for_full t q m = do
  k ← thread_unblock t m.kernel
  ok (set_waiter for_full null q, set_kernel k m)

unfoldable pub signal : Bool → Intq → Machine → Outcome (Intq × Machine)
signal for_full q m = do
  assert (not m.kernel.intr_on)
  cond ← holds for_full q m.kernel
  assert (not cond)
  if waiter for_full q == null then ok (q, m) else wake for_full (waiter for_full q) q m

-- The body of the loops of `intq_getc` and `intq_putc`, up to the switch inside `lock_acquire` or
-- inside `wait`. `lock_release` follows when the thread runs again.
unfoldable pub sleep_locked : Bool → Intq → Machine × Bool → Outcome (Intq × Machine)
sleep_locked for_full q (m, false) = ok (q, m)
sleep_locked for_full q (m, true) = do m' ← lock_take q.lock m; wait for_full q m'

unfoldable pub sleep : Bool → Intq → Machine → Outcome (Intq × Machine)
sleep for_full q m = do
  assert (not m.kernel.in_external_intr)
  locked ← lock_acquire q.lock m
  sleep_locked for_full q locked

-- What follows the loops.
unfoldable pub take_byte : Intq → Machine → Outcome (ℕ × Intq × Machine)
take_byte q m = do
  (q', m') ← signal true (record q { tail = next q.tail }) m
  ok (q.buf q.tail, q', m')

unfoldable pub store_byte : Intq → ℕ → Machine → Outcome (Intq × Machine)
store_byte q byte m =
    signal false (record q { buf = update q.buf q.head byte; head = next q.head }) m

unfoldable pub getc_sleep : Intq → Machine → Outcome ((ℕ × Intq × Machine) × Bool)
getc_sleep q m = do s ← sleep false q m; ok ((0, s.0, s.1), false)

unfoldable pub getc_take : Intq → Machine → Outcome ((ℕ × Intq × Machine) × Bool)
getc_take q m = do s ← take_byte q m; ok (s, true)

-- The byte, or 0 and `false` if the caller sleeps.
unfoldable pub intq_getc : Intq → Machine → Outcome ((ℕ × Intq × Machine) × Bool)
intq_getc q m = do
  assert (not m.kernel.intr_on)
  empty ← intq_empty q m.kernel
  if empty then getc_sleep q m else getc_take q m

unfoldable pub putc_sleep : Intq → Machine → Outcome ((Intq × Machine) × Bool)
putc_sleep q m = do s ← sleep true q m; ok (s, false)

unfoldable pub putc_store : Intq → ℕ → Machine → Outcome ((Intq × Machine) × Bool)
putc_store q byte m = do s ← store_byte q byte m; ok (s, true)

unfoldable pub intq_putc : Intq → ℕ → Machine → Outcome ((Intq × Machine) × Bool)
intq_putc q byte m = do
  assert (not m.kernel.intr_on)
  full ← intq_full q m.kernel
  if full then putc_sleep q m else putc_store q byte m
