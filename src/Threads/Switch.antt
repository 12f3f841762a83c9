-- ===== src/Threads/Switch.antt =====
-- threads/thread.c: `schedule`.
use mathlib.Core.Path.{subst₂}
use native.Mathlib.Decide.{ℕ_discrete}
use junlge_pint_os.Common.{
  ℕ, ◌≡◌, ◌≢◌, refl, sym, ap, ◌∙◌, subst, Bool, true, false, not, ◌&&◌, Option, none, some, List,
  [], ◌∷◌, ◌⊎◌, inl, inr, ◌==◌, ==_refl, ==_ne, arith, All, ok, Bool-cases,
}
use junlge_pint_os.Threads.State.{
  ThreadStatus, running, ready, blocked, dying, Kernel, Thread, status_of, status_in, is_status,
  is_thread, is_some, set_status, with_status,
}
use junlge_pint_os.Threads.Schedule.{pop_ready, next_thread_to_run, retire, switch_to, schedule}
use junlge_pint_os.Threads.Invariant.{
  IsSane, IsParted, IsScheduler, Sets, IsParted-idle, IsParted-next,
}
use junlge_pint_os.Threads.Wake.{IsSane-doom}

pub is_status-eq : (s : ThreadStatus) (o : Option ThreadStatus) → is_status s o ≡ true → o ≡ some s
is_status-eq s none h = ground arith
is_status-eq s (some t) h = ground arith

pub is_status_self : (s : ThreadStatus) → is_status s (some s) ≡ true
is_status_self running = refl
is_status_self ready = refl
is_status_self blocked = refl
is_status_self dying = refl

pub is_status_ne : (s : ThreadStatus) (o : Option ThreadStatus) → o ≢ some s → is_status s o ≡ false
is_status_ne s o h = elim (Bool-cases (is_status s o)) [
  | inl e ↦ absurd (h (is_status-eq s o e))
  | inr e ↦ e
]

-- A page whose status can be read holds a thread.
pub is_thread_of_status : (k : Kernel) (t : ℕ) → status_of k t ≢ none → is_thread k t ≡ true
is_thread_of_status k t h = go (k.thread t) h
  where
    go : (o : Option Thread) → status_in o ≢ none → is_some o ≡ true
    go none h = absurd (h refl)
    go (some th) h = refl

-- What a write of a status changes.
pub set_status-Sets :
    (k : Kernel) (t : ℕ) (s : ThreadStatus)
    → status_of k t ≢ none
    → Sets t s (status_of k) (status_of (set_status t s k))
set_status-Sets k t s h u = elim (ℕ_discrete t u) [
  | yes e ↦ rw (← e, ==_refl t) (go (k.thread t) h)
  | no ne ↦ rw (==_ne t u ne)
]
  where
    go : (o : Option Thread) → status_in o ≢ none → status_in (with_status s o) ≡ some s
    go none h = absurd (h refl)
    go (some th) h = refl

-- The thread that runs next, and the rest of the ready list.
abbrev pub Chosen : Kernel → ℕ → List ℕ → Type 0
Chosen k next rest =
    (k.ready_list ≡ next ∷ rest) ⊎ (k.ready_list ≡ []) × (next ≡ k.idle_thread) × (rest ≡ [])

-- What a switch has done: `next` runs from a fresh time slice, and no other status has changed.
pub record Switched (k : Kernel) (next : ℕ) (rest : List ℕ) (k' : Kernel) : Type 0 where
  pub sane : IsScheduler k'
  pub now : k'.current ≡ next
  pub queue : k'.ready_list ≡ rest
  pub slice : k'.thread_ticks ≡ 0
  pub same_idle : k'.idle_thread ≡ k.idle_thread
  pub same_level : (k'.intr_on ≡ k.intr_on) × (k'.in_external_intr ≡ k.in_external_intr)
  pub others : (u : ℕ) → u ≢ next → status_of k' u ≡ status_of k u

module _ (curr next : ℕ) (k : Kernel) (here : k.current ≡ curr)
    (sane : IsSane (status_of k) next k.ready_list k.idle_thread k.destruction_req)
    (fresh : All (λ u. u ≢ curr) k.destruction_req) where
  switch_to-IsScheduler : IsScheduler (switch_to curr next k)
  unfolding switch_to retire
  switch_to-IsScheduler = elim (ℕ_discrete curr next) [
    | yes e ↦ rw (same_test e) (
        subst (λ c. IsSane (status_of k) c k.ready_list k.idle_thread k.destruction_req)
          (sym e ∙ sym here) sane)
    | no ne ↦
        rw (==_ne curr next ne)
          (elim (Bool-cases
            (is_status dying (status_of k curr) && not (curr == k.initial_thread))) [
              | inl e ↦ rw e (
                  IsSane-doom (status_of k) (status_of k) k.idle_thread k.destruction_req next
                    k.ready_list sane curr (is_status-eq dying (status_of k curr) (and_left _ _ e))
                    fresh)
              | inr e ↦ rw e sane
            ])
  ]
    where
      same_test : curr ≡ next → (curr == next) ≡ true
      same_test e = ground arith

      and_left : (a b : Bool) → (a && b) ≡ true → a ≡ true
      and_left a b h = ground arith

-- A switch changes the running thread and the destruction queue alone.
switch_to-fields :
    (curr next : ℕ) (k : Kernel)
    → ((switch_to curr next k).thread ≡ k.thread)
      × ((switch_to curr next k).ready_list ≡ k.ready_list)
      × ((switch_to curr next k).thread_ticks ≡ k.thread_ticks)
      × ((switch_to curr next k).idle_thread ≡ k.idle_thread)
      × ((switch_to curr next k).intr_on ≡ k.intr_on)
      × ((switch_to curr next k).in_external_intr ≡ k.in_external_intr)
unfolding switch_to retire
switch_to-fields curr next k = elim (Bool-cases (curr == next)) [
  | inl e ↦ rw e (refl, refl, refl, refl, refl, refl)
  | inr e ↦
      rw e
        (elim (Bool-cases (is_status dying (status_of k curr) && not (curr == k.initial_thread))) [
          | inl d ↦ rw d (refl, refl, refl, refl, refl, refl)
          | inr d ↦ rw d (refl, refl, refl, refl, refl, refl)
        ])
]

switch_to-now :
    (curr next : ℕ) (k : Kernel) → k.current ≡ curr → (switch_to curr next k).current ≡ next
unfolding switch_to retire
switch_to-now curr next k here = ground arith

-- The kernel when `next` has been chosen, before the switch.
abbrev resumed : ℕ → Kernel → Kernel
resumed next k = record (set_status next running k) { thread_ticks = 0 }

-- The steps of `schedule` when its assertions hold.
schedule-switch :
    (k k' : Kernel) (next : ℕ)
    → next_thread_to_run k ≡ (next, k')
    → k'.intr_on ≡ false
    → status_of k' k.current ≢ some running
    → status_of k' next ≢ none
    → schedule k ≡ ok (switch_to k.current next (resumed next k'))
unfolding schedule
schedule-switch k k' next e off not_running exists = rw (
  e,
  off,
  is_status_ne running (status_of k' k.current) not_running,
  is_thread_of_status k' next exists,
)

module _ (k : Kernel) (off : k.intr_on ≡ false) (fresh : All (λ u. u ≢ k.current) k.destruction_req)
    (parted : IsParted (status_of k) k.ready_list k.idle_thread k.destruction_req) where
  switched :
      (next : ℕ) (rest : List ℕ)
      → next_thread_to_run k ≡ (next, record k { ready_list = rest })
      → status_of k next ≢ none
      → IsSane (status_of (resumed next k)) next rest k.idle_thread k.destruction_req
      → (k' : Kernel) × (schedule k ≡ ok k') × Switched k next rest k'
  switched next rest e exists sane =
      let ready : Kernel = resumed next (record k { ready_list = rest }) in
      let f = switch_to-fields k.current next ready in
      (
        switch_to k.current next ready,
        schedule-switch k (record k { ready_list = rest }) next e off (parted.none_runs k.current)
            exists,
        record {
          sane = switch_to-IsScheduler k.current next ready refl sane fresh;
          now = switch_to-now k.current next ready refl;
          queue = f.1;
          slice = f.2;
          same_idle = f.3;
          same_level = (f.4, f.5);
          others = λ u ne. ap (λ th. status_in (th u)) f.0 ∙ (rw (==_ne next u (λ q. ne (sym q))));
        },
      )

  schedule-front :
      (next : ℕ) (rest : List ℕ)
      → k.ready_list ≡ next ∷ rest
      → (k' : Kernel) × (schedule k ≡ ok k') × Switched k next rest k'
  schedule-front next rest e =
      let p = subst (λ q. IsParted (status_of k) q k.idle_thread k.destruction_req) e parted in
      let exists : status_of k next ≢ none = λ n. cc (p.queue_ready.0, n) in
      switched next rest (popped next rest e) exists (
        IsParted-next (status_of k) (status_of (resumed next k)) k.idle_thread k.destruction_req
          next rest p (set_status-Sets k next running exists))
    where
      popped :
          (next : ℕ) (rest : List ℕ)
          → k.ready_list ≡ next ∷ rest
          → next_thread_to_run k ≡ (next, record k { ready_list = rest })
      popped next rest e = unfold next_thread_to_run in ap (λ q. pop_ready q k) e

  schedule-idle :
      k.ready_list ≡ [] → (k' : Kernel) × (schedule k ≡ ok k') × Switched k k.idle_thread [] k'
  schedule-idle e =
      let p = subst (λ q. IsParted (status_of k) q k.idle_thread k.destruction_req) e parted in
      switched k.idle_thread [] popped parted.idle_alive.0 (
        IsParted-idle (status_of k) (status_of (resumed k.idle_thread k)) k.idle_thread
          k.destruction_req p (set_status-Sets k k.idle_thread running parted.idle_alive.0))
    where
      popped : next_thread_to_run k ≡ (k.idle_thread, record k { ready_list = [] })
      popped =
          unfold next_thread_to_run in
          (ap (λ q. pop_ready q k) e ∙ (λ i. (k.idle_thread, record k { ready_list = e i })))

  -- With interrupts off and no running thread, `schedule` always returns. It resumes the front of
  -- the ready list, or the idle thread if the list is empty, and leaves a sane scheduler.
  pub schedule_lem :
      (next : ℕ) (rest : List ℕ)
      → Chosen k next rest
      → (k' : Kernel) × (schedule k ≡ ok k') × Switched k next rest k'
  schedule_lem next rest (inl e) = schedule-front next rest e
  schedule_lem next rest (inr e) =
      subst₂ (λ n r. (k' : Kernel) × (schedule k ≡ ok k') × Switched k n r k') (sym e.1) (sym e.2)
        (schedule-idle e.0)
