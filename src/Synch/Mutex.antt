-- ===== src/Synch/Mutex.antt =====
-- threads/synch.c: the steps of the threads that use a lock, and the lock's invariant.
use native.Mathlib.Decide.{ℕ_discrete}
use junlge_pint_os.Common.{
  ℕ, ◌+◌, ◌-◌, ◌%◌, ◌^◌, ◌≡◌, ◌≢◌, sym, ap, ◌∙◌, Bool, true, false, ◌⊎◌, inl, inr, ok, ==_ne, arith,
}
use junlge_pint_os.Threads.State.{null, update}
use junlge_pint_os.Synch.{
  Machine, down_loop, sema_up, sema_try_down, lock_acquire, lock_take, lock_drop,
}
use junlge_pint_os.Synch.Sema.{update_self}

-- How far a thread is: outside, between the `sema_down` and the assignment to the holder, holding
-- the lock, or between the two halves of `lock_release`.
pub data Phase : Type 0 where
  outside acquired holding releasing : Phase

module _ (l : ℕ) where
  -- One step of a machine whose threads are in the given phases. `current` runs it.
  pub data Step : Machine → (ℕ → Phase) → Machine → (ℕ → Phase) → Type 0 where
    acquire :
        (m m' : Machine) (ph : ℕ → Phase)
        → lock_acquire l m ≡ ok (m', true)
        → Step m ph m' (update ph m.kernel.current acquired)
    sleep : (m m' : Machine) (ph : ℕ → Phase) → lock_acquire l m ≡ ok (m', false) → Step m ph m' ph
    resume :
        (m m' : Machine) (ph : ℕ → Phase) (level : Bool)
        → down_loop l level m ≡ ok (m', true)
        → Step m ph m' (update ph m.kernel.current acquired)
    sleep_again :
        (m m' : Machine) (ph : ℕ → Phase) (level : Bool)
        → down_loop l level m ≡ ok (m', false)
        → Step m ph m' ph
    try :
        (m m' : Machine) (ph : ℕ → Phase)
        → sema_try_down l m ≡ ok (m', true)
        → Step m ph m' (update ph m.kernel.current acquired)
    try_fails :
        (m m' : Machine) (ph : ℕ → Phase) → sema_try_down l m ≡ ok (m', false) → Step m ph m' ph
    take :
        (m m' : Machine) (ph : ℕ → Phase)
        → ph m.kernel.current ≡ acquired
        → lock_take l m ≡ ok m'
        → Step m ph m' (update ph m.kernel.current holding)
    -- No thread lies at the null pointer.
    drop :
        (m m' : Machine) (ph : ℕ → Phase)
        → m.kernel.current ≢ null
        → lock_drop l m ≡ ok m'
        → Step m ph m' (update ph m.kernel.current releasing)
    up :
        (m m' : Machine) (ph : ℕ → Phase)
        → ph m.kernel.current ≡ releasing
        → sema_up l m ≡ ok m'
        → Step m ph m' (update ph m.kernel.current outside)
    -- Whatever else happens: other threads are scheduled, other locks are used.
    other :
        (m m' : Machine) (ph : ℕ → Phase)
        → (m'.sema l).value ≡ (m.sema l).value
        → m'.holder l ≡ m.holder l
        → Step m ph m' ph

  pub data Reach (m : Machine) (ph : ℕ → Phase) : Machine → (ℕ → Phase) → Type 0 where
    start : Reach m ph m ph
    step :
        (m1 m2 : Machine) (ph1 ph2 : ℕ → Phase)
        → Reach m ph m1 ph1
        → Step m1 ph1 m2 ph2
        → Reach m ph m2 ph2

-- The semaphore counts the threads inside, which are none or one.
abbrev pub Counts : ℕ → (ℕ → Phase) → Type 0
Counts value ph =
    ((value ≡ 1) × ((t : ℕ) → ph t ≡ outside))
    ⊎ ((value ≡ 0) × (t : ℕ) × (ph t ≢ outside) × ((u : ℕ) → t ≢ u → ph u ≡ outside))

-- A holder is inside.
abbrev pub Holds : ℕ → (ℕ → Phase) → Type 0
Holds h ph = h ≢ null → ph h ≡ holding

abbrev pub Inv : ℕ → Machine → (ℕ → Phase) → Type 0
Inv l m ph = Counts (m.sema l).value ph × Holds (m.holder l) ph

pub update-ne : (ph : ℕ → Phase) (t u : ℕ) (p : Phase) → t ≢ u → update ph t p u ≡ ph u
update-ne ph t u p ne = rw (==_ne t u ne)

-- The thread that takes the semaphore becomes the only one inside.
pub Counts-taken :
    (v v' h t : ℕ) (ph : ℕ → Phase)
    → Counts v ph
    → Holds h ph
    → v ≢ 0
    → v' ≡ v - 1
    → Counts v' (update ph t acquired) × Holds h (update ph t acquired)
Counts-taken v v' h t ph (inl q) hold pos e = (
  inr (
    omega arith,
    t,
    λ z. cc (update_self ph t acquired, z),
    λ u ne. update-ne ph t u acquired ne ∙ q.1 u,
  ),
  λ ne. cc (hold ne, q.1 h),
)
Counts-taken v v' h t ph (inr q) hold pos e = absurd (pos q.0)

-- A thread inside that goes on to another phase inside stays the only one.
pub Counts-moves :
    (v t : ℕ) (ph : ℕ → Phase) (p : Phase)
    → Counts v ph
    → ph t ≢ outside
    → p ≢ outside
    → Counts v (update ph t p)
Counts-moves v t ph p (inl q) was to = absurd (was (q.1 t))
Counts-moves v t ph p (inr q) was to =
    inr (q.0, t, λ z. to (sym (update_self ph t p) ∙ z), λ u ne. update-ne ph t u p ne ∙ only u ne)
  where
    only : (u : ℕ) → t ≢ u → ph u ≡ outside
    only u ne = elim (ℕ_discrete q.1 u) [
      | yes e ↦ elim (ℕ_discrete q.1 t) [
        | yes e' ↦ absurd (ne (sym e' ∙ e))
        | no ne' ↦ absurd (was (q.3 t ne'))
      ]
      | no ne' ↦ q.3 u ne'
    ]

-- When the only thread inside leaves, none is.
pub Counts-leaves :
    (v v' t : ℕ) (ph : ℕ → Phase)
    → Counts v ph
    → ph t ≢ outside
    → v' ≡ (v + 1) % 2 ^ 32
    → Counts v' (update ph t outside)
Counts-leaves v v' t ph (inl q) was e = absurd (was (q.1 t))
Counts-leaves v v' t ph (inr q) was e = inl (value_one, all_out)
  where
    value_one : v' ≡ 1
    value_one = e ∙ ap (λ n. (n + 1) % 2 ^ 32) q.0

    all_out : (u : ℕ) → update ph t outside u ≡ outside
    all_out u = elim (ℕ_discrete t u) [
      | yes e' ↦ rw (← e') (update_self ph t outside)
      | no ne ↦ update-ne ph t u outside ne ∙ elim (ℕ_discrete q.1 u) [
        | yes e' ↦ elim (ℕ_discrete q.1 t) [
          | yes e'' ↦ absurd (ne (sym e'' ∙ e'))
          | no ne' ↦ absurd (was (q.3 t ne'))
        ]
        | no ne' ↦ q.3 u ne'
      ]
    ]
