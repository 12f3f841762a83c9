-- ===== src/Threads/State.antt =====
-- The state of the scheduler: the threads and the static variables of threads/thread.c and
-- threads/interrupt.c.
use junlge_pint_os.Common.{ℕ, Bool, true, false, Option, none, some, List, ◌==◌, if◌then◌else◌}

-- `enum thread_status`.
pub data ThreadStatus : Type 0 where
  running ready blocked dying : ThreadStatus

-- `struct thread`, without the saved registers.
pub record Thread : Type 0 where
  pub tid : ℕ
  pub status : ThreadStatus
  pub name : List ℕ
  pub priority : ℕ

-- `thread p` is the struct at the page `p`; `none` where the page holds no thread, so that
-- `is_thread` fails there. `freed` lists the pages that were given back, oldest first.
pub record Kernel : Type 0 where
  pub thread : ℕ → Option Thread
  pub current : ℕ
  pub ready_list : List ℕ
  pub idle_thread : ℕ
  pub initial_thread : ℕ
  pub destruction_req : List ℕ
  pub freed : List ℕ
  pub thread_ticks : ℕ
  pub idle_ticks : ℕ
  pub kernel_ticks : ℕ
  pub ticks : ℕ
  pub intr_on : Bool
  pub in_external_intr : Bool
  pub yield_on_return : Bool

abbrev pub null : ℕ
null = 0

abbrev pub update {ℓ} : {A : Type ℓ} → (ℕ → A) → ℕ → A → ℕ → A
update f p v q = if p == q then v else f q

abbrev pub status_in : Option Thread → Option ThreadStatus
status_in none = none
status_in (some t) = some t.status

-- What `t->status` reads.
abbrev pub status_of : Kernel → ℕ → Option ThreadStatus
status_of k t = status_in (k.thread t)

abbrev pub is_status : ThreadStatus → Option ThreadStatus → Bool
is_status running (some running) = true
is_status ready (some ready) = true
is_status blocked (some blocked) = true
is_status dying (some dying) = true
is_status _ _ = false

abbrev pub is_some {ℓ} : {A : Type ℓ} → Option A → Bool
is_some none = false
is_some (some a) = true

-- `is_thread (t)`. No thread lies at the null pointer.
abbrev pub is_thread : Kernel → ℕ → Bool
is_thread k t = is_some (k.thread t)

abbrev pub with_status : ThreadStatus → Option Thread → Option Thread
with_status s none = none
with_status s (some t) = some (record t { status = s })

-- `t->status = s`.
abbrev pub set_status : ℕ → ThreadStatus → Kernel → Kernel
set_status t s k = record k { thread = update k.thread t (with_status s (k.thread t)) }
