-- ===== src/Threads/Locked.antt =====
-- threads/thread.c: the two calls of `thread_create` that take a lock, when nobody holds it.
use native.Mathlib.Decide.{ℕ_discrete}
use junlge_pint_os.Common.{
  ℕ, ◌+◌, ◌-◌, ◌^◌, ◌<◌, ◌≡◌, ◌≢◌, refl, ◌∙◌, List, ◌⊎◌, inl, inr, ==_ne, false, true, some, ok,
  panic, ltb, lt→ltb, assert_then,
}
use junlge_pint_os.Palloc.{Memory, palloc_get_page}
use junlge_pint_os.Threads.State.{null}
use junlge_pint_os.Threads.Invariant.{IsScheduler}
use junlge_pint_os.Synch.{lock_acquire, lock_enter}
use junlge_pint_os.Synch.Uncontended.{IsFree, lock_enter_lem, lock_release_lem}
use junlge_pint_os.Threads.Create.{
  System, zero_page, get_entered, get_page, take_tid, allocate_tid, thread_create,
}

module _ (s : System) (v : IsScheduler s.machine.kernel)
    (ctx : s.machine.kernel.in_external_intr ≡ false) (cur : s.machine.kernel.current ≢ null) where
  pub get_page_lem :
      (page : ℕ) (memory' : Memory)
      → IsFree s.memory.kernel_pool.lock s.machine.sema s.machine.holder
      → palloc_get_page zero_page s.memory ≡ ok (page, memory')
      → get_page s ≡ ok (some page, record s { memory = memory' })
  unfolding get_page get_entered
  get_page_lem page memory' free e =
      rw (lock_enter_lem s.memory.kernel_pool.lock s.machine v ctx cur free)
        (rw (e, lock_release_lem s.memory.kernel_pool.lock s.machine v ctx cur free) refl)

  pub allocate_tid_lem :
      IsFree s.tid_lock s.machine.sema s.machine.holder
      → s.next_tid < 2 ^ 31 - 1
      → allocate_tid s ≡ ok (some s.next_tid, record s { next_tid = s.next_tid + 1 })
  unfolding allocate_tid take_tid
  allocate_tid_lem free lt = rw (lock_enter_lem s.tid_lock s.machine v ctx cur free) (
      assert_then (ltb s.next_tid (2 ^ 31 - 1)) _ (lt→ltb s.next_tid (2 ^ 31 - 1) lt)
      ∙ rw (lock_release_lem s.tid_lock s.machine v ctx cur free) refl)

-- In an interrupt handler the lock's assertion fails.
pub get_page-panic : (s : System) → s.machine.kernel.in_external_intr ≡ true → get_page s ≡ panic
unfolding get_page lock_enter lock_acquire
get_page-panic s ctx = rw (ctx) refl

-- There, and where the function is null, thread_create panics.
pub thread_create-panic :
    (name : List ℕ) (priority function : ℕ) (s : System)
    → (function ≡ null) ⊎ (s.machine.kernel.in_external_intr ≡ true)
    → thread_create name priority function s ≡ panic
unfolding thread_create
thread_create-panic name priority function s (inl e) = rw e refl
thread_create-panic name priority function s (inr ctx) = elim (ℕ_discrete function 0) [
  | yes e ↦ rw e refl
  | no ne ↦ rw (==_ne function 0 ne) (rw (get_page-panic s ctx) refl)
]
