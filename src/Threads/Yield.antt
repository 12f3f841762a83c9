-- ===== src/Threads/Yield.antt =====
-- threads/thread.c: `do_schedule`, `thread_yield` and `thread_exit`.
use mathlib.Core.Path.{subst₃}
use native.Mathlib.Decide.{ℕ_discrete}
use junlge_pint_os.Common.{
  ℕ, ◌≡◌, ◌≢◌, refl, sym, ap, ◌∙◌, subst, false, some, List, [], ◌∷◌, ◌++◌, inl, inr, ◌==◌,
  if◌then◌else◌, ==_ne, arith, All, ok, Bool-cases,
}
use junlge_pint_os.Threads.State.{
  ThreadStatus, running, ready, dying, Kernel, status_of, set_status,
}
use junlge_pint_os.Threads.Interrupts.{intr_disable}
use junlge_pint_os.Threads.Schedule.{schedule, reap, do_schedule, thread_yield, thread_exit}
use junlge_pint_os.Threads.Invariant.{IsSane, IsParted, IsScheduler, Sets, Sets-self}
use junlge_pint_os.Threads.Leave.{IsSane-leave, IsSane-yield, IsSane-yield_idle}
use junlge_pint_os.Threads.Wake.{IsSane-reap}
use junlge_pint_os.Threads.Switch.{Chosen, schedule_lem, set_status-Sets}
use junlge_pint_os.Threads.Ops.{status-ne_none, thread_current_lem}
use junlge_pint_os.Threads.Reap.{reap-fields, reap-status}

-- `do_schedule` destroys the waiting threads, then leaves the processor.
module _ (k : Kernel) (s : ThreadStatus) where
  abbrev reaped : Kernel
  reaped = reap k.destruction_req k

  do_schedule-steps :
      k.intr_on ≡ false
      → status_of k k.current ≡ some running
      → status_of reaped k.current ≡ some running
      → do_schedule s k ≡ schedule (set_status k.current s reaped)
  unfolding do_schedule
  do_schedule-steps off runs still = simp (
    off,
    thread_current_lem k runs,
    thread_current_lem reaped (ap (status_of reaped) (reap-fields k.destruction_req k).0 ∙ still),
    (reap-fields k.destruction_req k).0,
  )

-- The queue that a yield leaves: the caller at its back, unless it is the idle thread.
abbrev pub requeued : Kernel → List ℕ
requeued k = if k.current == k.idle_thread then k.ready_list else k.ready_list ++ k.current ∷ []

requeued-idle : (k : Kernel) → k.current ≡ k.idle_thread → requeued k ≡ k.ready_list
requeued-idle k e = ground arith

pub requeued_ne :
    (k : Kernel) → k.current ≢ k.idle_thread → requeued k ≡ k.ready_list ++ k.current ∷ []
requeued_ne k ne = rw (==_ne k.current k.idle_thread ne)

-- The kernel of a yield just before `do_schedule`.
abbrev yielding : Kernel → Kernel
yielding k = record k { ready_list = requeued k; intr_on = false }

-- What a thread that leaves the processor finds done when it looks from outside: `next` runs from
-- a fresh time slice, the ready list is `rest`, and the scheduler is sane.
pub record Left (k : Kernel) (next : ℕ) (rest : List ℕ) (k' : Kernel) : Type 0 where
  pub sane : IsScheduler k'
  pub now : k'.current ≡ next
  pub queue : k'.ready_list ≡ rest
  pub slice : k'.thread_ticks ≡ 0
  pub same_idle : k'.idle_thread ≡ k.idle_thread
  pub off : k'.intr_on ≡ false
  pub same_context : k'.in_external_intr ≡ k.in_external_intr

module _ (k : Kernel) (s : ThreadStatus) (off : k.intr_on ≡ false)
    (runs : status_of k k.current ≡ some running)
    (still : status_of (reaped k s) k.current ≡ some running)
    (parted : IsParted
      (status_of (set_status k.current s (reaped k s)))
      k.ready_list
      k.idle_thread
      []) where
  abbrev left : Kernel
  left = set_status k.current s (reaped k s)

  do_schedule_lem :
      (next : ℕ) (rest : List ℕ)
      → Chosen k next rest
      → (k' : Kernel) × (do_schedule s k ≡ ok k')
        × Left k next rest k'
        × ((u : ℕ) → u ≢ next → status_of k' u ≡ status_of left u)
  do_schedule_lem next rest chosen =
      let f = reap-fields k.destruction_req k in
      let run =
        schedule_lem left (f.3 ∙ off) (subst (All (λ u. u ≢ left.current)) (sym f.5) tt)
          (subst₃ (λ q i d. IsParted (status_of left) q i d) (sym f.1) (sym f.2) (sym f.5) parted)
          next rest
          (elim chosen [ inl e ↦ inl (f.1 ∙ e) | inr e ↦ inr (f.1 ∙ e.0, e.1 ∙ sym f.2, e.2) ]) in
      (
        run.0,
        do_schedule-steps k s off runs still ∙ run.1,
        record {
          sane = run.2.sane;
          now = run.2.now;
          queue = run.2.queue;
          slice = run.2.slice;
          same_idle = run.2.same_idle ∙ f.2;
          off = run.2.same_level.0 ∙ f.3 ∙ off;
          same_context = run.2.same_level.1 ∙ f.4;
        },
        run.2.others,
      )

module _ (k : Kernel) (v : IsScheduler k) (ctx : k.in_external_intr ≡ false) where
  thread_yield-steps : thread_yield k ≡ do_schedule ready (yielding k)
  unfolding thread_yield intr_disable
  thread_yield-steps = elim (Bool-cases (k.current == k.idle_thread)) [
    | inl e ↦ simp (ctx, thread_current_lem k v.cur_runs, e)
    | inr e ↦ simp (ctx, thread_current_lem k v.cur_runs, e)
  ]

-- Both a yield and an exit reach `do_schedule` with interrupts off and some ready list `q`.
module _ (k : Kernel) (v : IsScheduler k) (q : List ℕ) where
  abbrev leaving : Kernel
  leaving = record k { ready_list = q; intr_on = false }

  module _ (s : ThreadStatus) where
    abbrev after : Kernel
    after = reaped leaving s

    IsSane-after : IsSane (status_of after) k.current k.ready_list k.idle_thread []
    IsSane-after =
        IsSane-reap (status_of k) (status_of after) k.idle_thread k.destruction_req k.current
          k.ready_list v (reap-status k.destruction_req leaving v.doomed_dying v.doomed_distinct)

    Sets-after : Sets k.current s (status_of after) (status_of (set_status k.current s after))
    Sets-after =
        set_status-Sets after k.current s
          (status-ne_none after k.current running IsSane-after.cur_runs)

    left_lem :
        (next : ℕ) (rest : List ℕ)
        → IsParted (status_of (set_status k.current s after)) q k.idle_thread []
        → Chosen leaving next rest
        → (k' : Kernel) × (do_schedule s leaving ≡ ok k')
          × Left k next rest k'
          × (k.current ≢ next → status_of k' k.current ≡ some s)
    left_lem next rest parted chosen =
        let run =
          do_schedule_lem leaving s refl v.cur_runs IsSane-after.cur_runs parted next rest chosen in
        (
          run.0,
          run.1,
          record {
            sane = run.2.sane;
            now = run.2.now;
            queue = run.2.queue;
            slice = run.2.slice;
            same_idle = run.2.same_idle;
            off = run.2.off;
            same_context = run.2.same_context;
          },
          λ ne. run.3 k.current ne ∙ Sets-self k.current s (status_of after) _ Sets-after,
        )

module _ (k : Kernel) (v : IsScheduler k) (ctx : k.in_external_intr ≡ false) (next : ℕ)
    (rest : List ℕ) where
  IsParted-yield :
      IsParted
        (status_of (set_status k.current ready (after k v (requeued k) ready)))
        (requeued k)
        k.idle_thread
        []
  IsParted-yield =
      let st = status_of (after k v (requeued k) ready) in
      let st' = status_of (set_status k.current ready (after k v (requeued k) ready)) in
      let sane = IsSane-after k v (requeued k) ready in
      let sets = Sets-after k v (requeued k) ready in
      elim (ℕ_discrete k.current k.idle_thread) [
        | yes e ↦
            subst (λ q. IsParted st' q k.idle_thread []) (sym (requeued-idle k e))
              (IsSane-yield_idle st st' k.idle_thread [] k.current k.ready_list sane e sets)
        | no ne ↦
            subst (λ q. IsParted st' q k.idle_thread []) (sym (requeued_ne k ne))
              (IsSane-yield st st' k.idle_thread [] k.current k.ready_list sane ne sets)
      ]

  -- In a sane scheduler, outside an interrupt handler, thread_yield always reaches the thread that
  -- runs next: the caller has gone to the back of the ready list unless it is the idle thread,
  -- then the front of that list is taken, or the idle thread if it is empty. The next thread has a
  -- fresh slice, the scheduler is sane, and a caller that was switched away is ready.
  pub thread_yield_lem :
      Chosen (record k { ready_list = requeued k }) next rest
      → (k' : Kernel) × (thread_yield k ≡ ok k')
        × Left k next rest k'
        × (k.current ≢ next → status_of k' k.current ≡ some ready)
  thread_yield_lem chosen =
      let run = left_lem k v (requeued k) ready next rest IsParted-yield chosen in
      (run.0, thread_yield-steps k v ctx ∙ run.1, run.2, run.3)

  thread_exit-steps : thread_exit k ≡ do_schedule dying (leaving k v k.ready_list)
  unfolding thread_exit intr_disable
  thread_exit-steps = simp ctx

  -- In a sane scheduler, outside an interrupt handler, thread_exit of a thread other than the idle
  -- thread always reaches the thread that runs next, with a fresh slice, the scheduler is sane,
  -- and a caller that was switched away is dying.
  pub thread_exit_lem :
      k.current ≢ k.idle_thread
      → Chosen k next rest
      → (k' : Kernel) × (thread_exit k ≡ ok k')
        × Left k next rest k'
        × (k.current ≢ next → status_of k' k.current ≡ some dying)
  thread_exit_lem ne chosen =
      let parted =
        IsSane-leave (status_of (after k v k.ready_list dying)) _ k.idle_thread [] k.current
          k.ready_list (IsSane-after k v k.ready_list dying) dying (inr (refl, ne))
          (Sets-after k v k.ready_list dying) in
      let run = left_lem k v k.ready_list dying next rest parted chosen in
      (run.0, thread_exit-steps ∙ run.1, run.2, run.3)
