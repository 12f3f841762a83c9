-- ===== src/Synch/Exclusion.antt =====
-- threads/synch.c: the invariant of a lock over the steps of its threads.
use native.Mathlib.Decide.{ℕ_discrete}
use junlge_pint_os.Common.{ℕ, ◌≡◌, ◌≢◌, sym, ap, ◌∙◌, subst, true, false, inl, inr, ok}
use junlge_pint_os.Threads.State.{null, update}
use junlge_pint_os.Synch.{Machine, sema_up, lock_take, lock_drop, lock_init, sema_init}
use junlge_pint_os.Synch.Sema.{update_self}
use junlge_pint_os.Synch.Inversion.{
  Taken, lock_acquire-After, down_loop-After, sema_try_down-After, lock_take-Holder,
  lock_drop-Holder, sema_up-Up,
}
use junlge_pint_os.Synch.Mutex.{
  Phase, outside, acquired, holding, releasing, Step, acquire, sleep, resume, sleep_again, try,
  try_fails, take, drop, up, other, Reach, start, step, Counts, Holds, Inv, update-ne, Counts-taken,
  Counts-moves, Counts-leaves,
}

module _ (l : ℕ) where
  Inv-Taken :
      (m m' : Machine) (ph : ℕ → Phase) (t : ℕ)
      → Taken l m m'
      → Inv l m ph
      → Inv l m' (update ph t acquired)
  Inv-Taken m m' ph t taken inv =
      let next =
        Counts-taken (m.sema l).value (m'.sema l).value (m.holder l) t ph inv.0 inv.1 taken.0
          taken.1 in
      (next.0, subst (λ h. Holds h (update ph t acquired)) (sym (ap (λ f. f l) taken.2)) next.1)

  Inv-kept :
      (m m' : Machine) (ph : ℕ → Phase)
      → (m'.sema l).value ≡ (m.sema l).value
      → m'.holder l ≡ m.holder l
      → Inv l m ph
      → Inv l m' ph
  Inv-kept m m' ph e q inv =
      (subst (λ v. Counts v ph) (sym e) inv.0, subst (λ h. Holds h ph) (sym q) inv.1)

  Inv-take :
      (m m' : Machine) (ph : ℕ → Phase)
      → ph m.kernel.current ≡ acquired
      → lock_take l m ≡ ok m'
      → Inv l m ph
      → Inv l m' (update ph m.kernel.current holding)
  Inv-take m m' ph was h inv =
      let took = lock_take-Holder l m m' h in
      (
        subst (λ v. Counts v (update ph m.kernel.current holding))
            (sym (ap (λ f. (f l).value) took.0))
            (Counts-moves (m.sema l).value m.kernel.current ph holding inv.0 (λ z. cc (was, z))
              (λ z. cc z)),
        λ ne. rw (took.1) (update_self ph m.kernel.current holding),
      )

  Inv-drop :
      (m m' : Machine) (ph : ℕ → Phase)
      → m.kernel.current ≢ null
      → lock_drop l m ≡ ok m'
      → Inv l m ph
      → Inv l m' (update ph m.kernel.current releasing)
  Inv-drop m m' ph ne h inv =
      let dropped = lock_drop-Holder l m m' h in
      let inside : ph m.kernel.current ≡ holding =
        sym (ap ph dropped.1) ∙ inv.1 (λ z. ne (sym dropped.1 ∙ z)) in
      (
        subst (λ v. Counts v (update ph m.kernel.current releasing))
            (sym (ap (λ f. (f l).value) dropped.0))
            (Counts-moves (m.sema l).value m.kernel.current ph releasing inv.0 (λ z. cc (inside, z))
              (λ z. cc z)),
        λ z. absurd (z dropped.2),
      )

  Inv-up :
      (m m' : Machine) (ph : ℕ → Phase)
      → ph m.kernel.current ≡ releasing
      → sema_up l m ≡ ok m'
      → Inv l m ph
      → Inv l m' (update ph m.kernel.current outside)
  Inv-up m m' ph was h inv =
      let went = sema_up-Up l m m' h in
      (
        Counts-leaves (m.sema l).value (m'.sema l).value m.kernel.current ph inv.0
            (λ z. cc (was, z)) went.0,
        λ ne.
            let inside = inv.1 (λ z. ne (ap (λ f. f l) went.1 ∙ z)) in
            ap (update ph m.kernel.current outside) (ap (λ f. f l) went.1)
            ∙ update-ne ph m.kernel.current (m.holder l) outside (λ e. cc (was, inside, ap ph e))
            ∙ inside,
      )

  Inv-step : (m m' : Machine) (ph ph' : ℕ → Phase) → Step l m ph m' ph' → Inv l m ph → Inv l m' ph'
  Inv-step m m' ph ph' (acquire _ _ _ h) inv =
      Inv-Taken m m' ph m.kernel.current (lock_acquire-After l m m' true h) inv
  Inv-step m m' ph ph' (sleep _ _ _ h) inv =
      let kept = lock_acquire-After l m m' false h in
      Inv-kept m m' ph kept.0 (ap (λ f. f l) kept.1) inv
  Inv-step m m' ph ph' (resume _ _ _ level h) inv =
      Inv-Taken m m' ph m.kernel.current (down_loop-After l level m m' true h) inv
  Inv-step m m' ph ph' (sleep_again _ _ _ level h) inv =
      let kept = down_loop-After l level m m' false h in
      Inv-kept m m' ph kept.0 (ap (λ f. f l) kept.1) inv
  Inv-step m m' ph ph' (try _ _ _ h) inv =
      Inv-Taken m m' ph m.kernel.current (sema_try_down-After l m m' true h) inv
  Inv-step m m' ph ph' (try_fails _ _ _ h) inv =
      let kept = sema_try_down-After l m m' false h in
      Inv-kept m m' ph kept.0 (ap (λ f. f l) kept.1) inv
  Inv-step m m' ph ph' (take _ _ _ was h) inv = Inv-take m m' ph was h inv
  Inv-step m m' ph ph' (drop _ _ _ ne h) inv = Inv-drop m m' ph ne h inv
  Inv-step m m' ph ph' (up _ _ _ was h) inv = Inv-up m m' ph was h inv
  Inv-step m m' ph ph' (other _ _ _ e q) inv = Inv-kept m m' ph e q inv

  Inv-Reach :
      (m : Machine) (ph : ℕ → Phase) (m' : Machine) (ph' : ℕ → Phase)
      → Reach l m ph m' ph'
      → Inv l m ph
      → Inv l m' ph'
  Inv-Reach m ph m' ph' start inv = inv
  Inv-Reach m ph m' ph' (step m1 _ ph1 _ reach s) inv =
      Inv-step m1 m' ph1 ph' s (Inv-Reach m ph m1 ph1 reach inv)

  Inv-lock_init :
      (m : Machine) (ph : ℕ → Phase) → ((t : ℕ) → ph t ≡ outside) → Inv l (lock_init l m) ph
  unfolding lock_init sema_init
  Inv-lock_init m ph out = (
    inl (ap (λ x. x.value) (update_self m.sema l _), out),
    λ ne. absurd (ne (update_self m.holder l null)),
  )

  Inv-one :
      (v : ℕ) (ph : ℕ → Phase) → Counts v ph → (t u : ℕ) → ph t ≢ outside → ph u ≢ outside → t ≡ u
  Inv-one v ph (inl q) t u a b = absurd (a (q.1 t))
  Inv-one v ph (inr q) t u a b = elim (ℕ_discrete q.1 t) [
    | yes e ↦ elim (ℕ_discrete q.1 u) [ yes e' ↦ sym e ∙ e' | no ne ↦ absurd (b (q.3 u ne)) ]
    | no ne ↦ absurd (a (q.3 t ne))
  ]

  Inv-free : (v : ℕ) (ph : ℕ → Phase) → Counts v ph → ((t : ℕ) → ph t ≡ outside) → v ≡ 1
  Inv-free v ph (inl q) out = q.0
  Inv-free v ph (inr q) out = absurd (q.2 (out q.1))

  -- Take any sequence of steps from lock_init on, with no thread inside the lock at first: the
  -- lock's operations, the retries of sleeping threads, and changes that leave the lock alone.
  -- Then two threads inside the lock are the same thread, a recorded holder is inside and holding,
  -- and when nobody is inside the semaphore has value 1. Inside means from the return of sema_down
  -- in lock_acquire (or sema_try_down) to the sema_up of lock_release.
  pub mutual_exclusion :
      (m m' : Machine) (ph ph' : ℕ → Phase)
      → ((t : ℕ) → ph t ≡ outside)
      → Reach l (lock_init l m) ph m' ph'
      → ((t u : ℕ) → ph' t ≢ outside → ph' u ≢ outside → t ≡ u)
        × (m'.holder l ≢ null → ph' (m'.holder l) ≡ holding)
        × (((t : ℕ) → ph' t ≡ outside) → (m'.sema l).value ≡ 1)
  mutual_exclusion m m' ph ph' out reach =
      let inv = Inv-Reach (lock_init l m) ph m' ph' reach (Inv-lock_init m ph out) in
      (Inv-one (m'.sema l).value ph' inv.0, inv.1, Inv-free (m'.sema l).value ph' inv.0)
