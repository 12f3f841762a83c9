-- ===== src/Synch/Inversion.antt =====
-- threads/synch.c: the calls on semaphores and locks, seen from what they returned.
use junlge_pint_os.Common.{
  ℕ, ◌+◌, ◌-◌, ◌%◌, ◌^◌, ◌≡◌, ◌≢◌, refl, sym, ap, ◌∙◌, subst, Bool, true, false, not, inl, inr, ok,
  assert, bind-ok, assert-ok, ok-injective, Bool-cases, ltb, ◌==◌, if◌then◌else◌, arith,
}
use junlge_pint_os.Threads.State.{Kernel, null, update, is_thread, is_status, running, status_of}
use junlge_pint_os.Threads.Interrupts.{intr_disable, intr_set_level}
use junlge_pint_os.Threads.Schedule.{thread_current, thread_block}
use junlge_pint_os.Synch.{
  Semaphore, Machine, set_sema, set_kernel, down_wait, down_take, down_loop, sema_down,
  sema_try_down, sema_up, wake_front, lock_held_by_current_thread, lock_acquire, lock_take,
  lock_drop,
}
use junlge_pint_os.Synch.Sema.{update_self}

-- From `m` to `m'` the semaphore `s` was taken: it was positive, and one was taken off.
abbrev pub Taken : ℕ → Machine → Machine → Type 0
Taken s m m' =
    ((m.sema s).value ≢ 0) × ((m'.sema s).value ≡ (m.sema s).value - 1) × (m'.holder ≡ m.holder)

-- From `m` to `m'` the semaphore `s` kept its value.
abbrev pub Kept : ℕ → Machine → Machine → Type 0
Kept s m m' = ((m'.sema s).value ≡ (m.sema s).value) × (m'.holder ≡ m.holder)

-- What a `true` and a `false` result mean.
abbrev pub After : ℕ → Machine → Machine → Bool → Type 0
After s m m' true = Taken s m m'
After s m m' false = Kept s m m'

After-pair :
    (s : ℕ) (m : Machine) (x y : Machine × Bool) → x ≡ y → After s m x.0 x.1 → After s m y.0 y.1
After-pair s m x y e h = subst (λ z. After s m z.0 z.1) e h

-- The kernel part does not matter.
After-kernel :
    (s : ℕ) (m n m' : Machine) (r : Bool)
    → n.sema ≡ m.sema
    → n.holder ≡ m.holder
    → After s m m' r
    → After s n m' r
After-kernel s m n m' true e q h = (
  λ z. h.0 (sym (ap (λ f. (f s).value) e) ∙ z),
  h.1 ∙ sym (ap (λ f. (f s).value - 1) e),
  h.2 ∙ sym q,
)
After-kernel s m n m' false e q h = (h.0 ∙ sym (ap (λ f. (f s).value) e), h.1 ∙ sym q)

thread_current-is : (k : Kernel) (t : ℕ) → thread_current k ≡ ok t → t ≡ k.current
unfolding thread_current
thread_current-is k t h =
    let first = bind-ok (assert (is_thread k k.current)) _ t h in
    let second = bind-ok (assert (is_status running (status_of k k.current))) _ t first.2 in
    sym (ok-injective second.2)

value_at : (m : Machine) (s : ℕ) (x : Semaphore) → update m.sema s x s ≡ x
value_at m s x = update_self m.sema s x

down_wait-After : (s : ℕ) (m m' : Machine) (r : Bool) → down_wait s m ≡ ok (m', r) → After s m m' r
unfolding down_wait
down_wait-After s m m' r h =
    let first = bind-ok (thread_current m.kernel) _ (m', r) h in
    let second = bind-ok (thread_block m.kernel) _ (m', r) first.2 in
    After-pair s m _ (m', r) (ok-injective second.2) (ap (λ x. x.value) (value_at m s _), refl)

down_take-After :
    (s : ℕ) (level : Bool) (m m' : Machine) (r : Bool)
    → (m.sema s).value ≢ 0
    → down_take s level m ≡ ok (m', r)
    → After s m m' r
unfolding down_take
down_take-After s level m m' r pos h =
    let first = bind-ok (intr_set_level level m.kernel) _ (m', r) h in
    After-pair s m _ (m', r) (ok-injective first.2) (pos, ap (λ x. x.value) (value_at m s _), refl)

pub down_loop-After :
    (s : ℕ) (level : Bool) (m m' : Machine) (r : Bool)
    → down_loop s level m ≡ ok (m', r)
    → After s m m' r
unfolding down_loop
down_loop-After s level m m' r h = elim (Bool-cases ((m.sema s).value == 0)) [
  | inl e ↦
      down_wait-After s m m' r
        (sym (ap (λ b. if b then down_wait s m else down_take s level m) e) ∙ h)
  | inr e ↦
      down_take-After s level m m' r (λ q. cc (ap (λ n. n == 0) q, e))
        (sym (ap (λ b. if b then down_wait s m else down_take s level m) e) ∙ h)
]

pub sema_down-After :
    (s : ℕ) (m m' : Machine) (r : Bool) → sema_down s m ≡ ok (m', r) → After s m m' r
unfolding sema_down
sema_down-After s m m' r h =
    let first = bind-ok (assert (not m.kernel.in_external_intr)) _ (m', r) h in
    After-kernel s (set_kernel (intr_disable m.kernel) m) m m' r refl refl
      (down_loop-After s m.kernel.intr_on (set_kernel (intr_disable m.kernel) m) m' r first.2)

pub sema_try_down-After :
    (s : ℕ) (m m' : Machine) (r : Bool) → sema_try_down s m ≡ ok (m', r) → After s m m' r
unfolding sema_try_down
sema_try_down-After s m m' r h =
    let first = bind-ok (intr_set_level m.kernel.intr_on (intr_disable m.kernel)) _ (m', r) h in
    After-pair s m _ (m', r) (ok-injective first.2)
      (tried (ltb 0 (m.sema s).value) (positive (m.sema s).value))
  where
    m1 : Bool → Machine
    m1 b = if b then set_sema s (record (m.sema s) { value = (m.sema s).value - 1 }) m else m

    positive : (n : ℕ) → ltb 0 n ≡ true → n ≢ 0
    positive n q e = ground arith

    tried : (b : Bool) → (b ≡ true → (m.sema s).value ≢ 0) → After s m (m1 b) b
    tried true pos = (pos refl, ap (λ x. x.value) (value_at m s _), refl)
    tried false pos = (refl, refl)

pub sema_up-Up :
    (s : ℕ) (m m' : Machine)
    → sema_up s m ≡ ok m'
    → ((m'.sema s).value ≡ ((m.sema s).value + 1) % 2 ^ 32) × (m'.holder ≡ m.holder)
unfolding sema_up
sema_up-Up s m m' h =
    let first = bind-ok (wake_front (m.sema s).waiters (intr_disable m.kernel)) _ m' h in
    let second = bind-ok (intr_set_level m.kernel.intr_on first.0) _ m' first.2 in
    let e = ok-injective second.2 in
    (
      sym (ap (λ x. (x.sema s).value) e) ∙ ap (λ x. x.value) (value_at m s _),
      sym (ap (λ x. x.holder) e),
    )

pub lock_acquire-After :
    (l : ℕ) (m m' : Machine) (r : Bool) → lock_acquire l m ≡ ok (m', r) → After l m m' r
unfolding lock_acquire
lock_acquire-After l m m' r h =
    let first = bind-ok (assert (not m.kernel.in_external_intr)) _ (m', r) h in
    let second = bind-ok (lock_held_by_current_thread l m) _ (m', r) first.2 in
    let third = bind-ok (assert (not second.0)) _ (m', r) second.2 in
    sema_down-After l m m' r third.2

-- `lock_take` makes the running thread the holder.
pub lock_take-Holder :
    (l : ℕ) (m m' : Machine)
    → lock_take l m ≡ ok m'
    → (m'.sema ≡ m.sema) × (m'.holder l ≡ m.kernel.current)
unfolding lock_take thread_current
lock_take-Holder l m m' h =
    let first = bind-ok (thread_current m.kernel) _ m' h in
    let e = ok-injective first.2 in
    (
      sym (ap (λ x. x.sema) e),
      sym (ap (λ x. x.holder l) e)
          ∙ update_self m.holder l first.0
          ∙ thread_current-is m.kernel first.0 first.1,
    )

-- `lock_drop` returns in the holder only, and leaves the lock without one.
pub lock_drop-Holder :
    (l : ℕ) (m m' : Machine)
    → lock_drop l m ≡ ok m'
    → (m'.sema ≡ m.sema) × (m.holder l ≡ m.kernel.current) × (m'.holder l ≡ null)
unfolding lock_drop lock_held_by_current_thread
lock_drop-Holder l m m' h =
    let first = bind-ok (lock_held_by_current_thread l m) _ m' h in
    let second = bind-ok (assert first.0) _ m' first.2 in
    let held = assert-ok first.0 second.0 second.1 in
    let current = bind-ok (thread_current m.kernel) _ first.0 first.1 in
    let same = ok-injective current.2 ∙ held in
    let e = ok-injective second.2 in
    (
      sym (ap (λ x. x.sema) e),
      ==_true (m.holder l) current.0 same ∙ thread_current-is m.kernel current.0 current.1,
      sym (ap (λ x. x.holder l) e) ∙ update_self m.holder l null,
    )
  where
    ==_true : (a b : ℕ) → (a == b) ≡ true → a ≡ b
    ==_true a b q = ground arith
