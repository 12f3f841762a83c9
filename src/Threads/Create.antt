-- ===== src/Threads/Create.antt =====
-- threads/thread.c: making a new thread, in a page that threads/palloc.c gives. The allocator's memory
-- stands beside the machine of threads/synch.c, with the pool's lock and the tid's lock in it. A
-- call that has to wait for a lock runs here up to the switch to another thread (`asleep`). The saved
-- registers of the new thread, `aux` among them, are left out.
use junlge_pint_os.Common.{
  ℕ, ◌+◌, ◌-◌, ◌^◌, true, false, not, Option, none, some, List, Outcome, ok, ◌>>=◌, ◌>>◌, assert,
  take, leb, ltb, ◌==◌, if◌then◌else◌,
}
use junlge_pint_os.Palloc.{Flags, Memory, palloc_get_page}
use junlge_pint_os.Threads.State.{blocked, Thread, Kernel, update, null}
use junlge_pint_os.Threads.Schedule.{thread_unblock}
use junlge_pint_os.Synch.{Machine, set_kernel, lock_enter, lock_release}

-- The machine, the page allocator's memory, the address of `tid_lock` and the static `next_tid`.
pub record System : Type 0 where
  pub machine : Machine
  pub memory : Memory
  pub tid_lock : ℕ
  pub next_tid : ℕ

-- What `thread_create` returns, or that it waits for a lock.
pub data Creation : Type 0 where
  asleep : Creation
  tid_error : Creation
  created : ℕ → Creation

-- PAL_ZERO.
abbrev pub zero_page : Flags
zero_page = record { pal_assert = false; pal_zero = true; pal_user = false }

-- The struct after `memset`, its name cut to 15 bytes and a zero byte.
unfoldable pub blank_thread : List ℕ → ℕ → Thread
blank_thread name priority = record {
  tid = 0;
  status = blocked;
  name = take 15 name;
  priority = priority;
}

-- PRI_MIN is 0 and PRI_MAX is 63.
unfoldable pub init_thread : ℕ → List ℕ → ℕ → Kernel → Outcome Kernel
init_thread t name priority k = do
  assert (not (t == null))
  assert (leb priority 63)
  ok (record k { thread = update k.thread t (some (blank_thread name priority)) })

-- With the pool's lock: the page, and the release. The page is zeroed after the release in the
-- source; the release does not touch the memory.
unfoldable pub get_entered : ℕ → System → Outcome (Option ℕ × System)
get_entered l s = do
  (page, memory') ← palloc_get_page zero_page s.memory
  m ← lock_release l s.machine
  ok (some page, record s { machine = m; memory = memory' })

-- `palloc_get_page (PAL_ZERO)` with its lock; `none` if it waits for it.
unfoldable pub get_page : System → Outcome (Option ℕ × System)
get_page s = do
  (m, entered) ← lock_enter s.memory.kernel_pool.lock s.machine
  let s' = record s { machine = m }
  if entered then get_entered s.memory.kernel_pool.lock s' else ok (none, s')

-- `next_tid` is an `int`: past 2^31 - 1 the increment is undefined, which counts as a panic.
unfoldable pub take_tid : System → Outcome (Option ℕ × System)
take_tid s = do
  assert (ltb s.next_tid (2 ^ 31 - 1))
  m ← lock_release s.tid_lock s.machine
  ok (some s.next_tid, record s { machine = m; next_tid = s.next_tid + 1 })

-- `none` if it waits for the lock.
unfoldable pub allocate_tid : System → Outcome (Option ℕ × System)
allocate_tid s = do
  (m, entered) ← lock_enter s.tid_lock s.machine
  let s' = record s { machine = m }
  if entered then take_tid s' else ok (none, s')

abbrev pub with_tid : ℕ → Option Thread → Option Thread
with_tid tid none = none
with_tid tid (some t) = some (record t { tid = tid })

-- `t->tid = tid`.
unfoldable pub set_tid : ℕ → ℕ → Kernel → Kernel
set_tid t tid k = record k { thread = update k.thread t (with_tid tid (k.thread t)) }

-- From the return of `allocate_tid` on.
unfoldable pub start_thread : ℕ → Option ℕ → System → Outcome (Creation × System)
start_thread t none s = ok (asleep, s)
start_thread t (some tid) s = do
  k ← thread_unblock t (set_tid t tid s.machine.kernel)
  ok (created tid, record s { machine = set_kernel k s.machine })

-- From the page `t` on.
unfoldable pub create_in : ℕ → List ℕ → ℕ → System → Outcome (Creation × System)
create_in t name priority s = do
  k ← init_thread t name priority s.machine.kernel
  (tid, s') ← allocate_tid (record s { machine = set_kernel k s.machine })
  start_thread t tid s'

-- From the return of `palloc_get_page` on.
unfoldable pub with_page : Option ℕ → List ℕ → ℕ → System → Outcome (Creation × System)
with_page none name priority s = ok (asleep, s)
with_page (some t) name priority s =
    if t == null then ok (tid_error, s) else create_in t name priority s

-- `function` is the address of the function that the thread will run.
unfoldable pub thread_create : List ℕ → ℕ → ℕ → System → Outcome (Creation × System)
thread_create name priority function s = do
  assert (not (function == null))
  (page, s') ← get_page s
  with_page page name priority s'
