-- ===== src/Threads/Ops.antt =====
-- threads/thread.c: `thread_block` and `thread_unblock`.
use junlge_pint_os.Common.{
  ℕ, ◌≡◌, ◌≢◌, refl, ap, ◌∙◌, Bool, true, false, none, some, List, [], ◌∷◌, ◌++◌, ◌⊎◌, inl, inr,
  All, ok, All-map_in,
}
use junlge_pint_os.Threads.State.{
  ThreadStatus, running, ready, blocked, dying, Kernel, status_of, set_status,
}
use junlge_pint_os.Threads.Interrupts.{intr_disable, intr_enable, intr_set_level}
use junlge_pint_os.Threads.Schedule.{thread_current, schedule, thread_block, thread_unblock}
use junlge_pint_os.Threads.Invariant.{IsScheduler, Sets-self}
use junlge_pint_os.Threads.Leave.{IsSane-leave}
use junlge_pint_os.Threads.Wake.{IsSane-unblock}
use junlge_pint_os.Threads.Switch.{
  Chosen, Switched, schedule_lem, set_status-Sets, is_thread_of_status,
}

pub status-ne_none :
    (k : Kernel) (t : ℕ) (s : ThreadStatus) → status_of k t ≡ some s → status_of k t ≢ none
status-ne_none k t s e n = cc (e, n)

pub thread_current_lem :
    (k : Kernel) → status_of k k.current ≡ some running → thread_current k ≡ ok k.current
unfolding thread_current
thread_current_lem k e =
    rw (is_thread_of_status k k.current (status-ne_none k k.current running e), e)

-- The running thread was not queued for destruction.
pub not_doomed : (k : Kernel) → IsScheduler k → All (λ u. u ≢ k.current) k.destruction_req
not_doomed k v =
    All-map_in (λ u. status_of k u ≡ some dying) (λ u. u ≢ k.current) k.destruction_req
      (λ u e q. cc (v.cur_runs, e, ap (status_of k) q)) v.doomed_dying

-- The assertions of `thread_block` hold.
thread_block-steps :
    (k : Kernel)
    → k.in_external_intr ≡ false
    → k.intr_on ≡ false
    → status_of k k.current ≡ some running
    → thread_block k ≡ schedule (set_status k.current blocked k)
unfolding thread_block
thread_block-steps k ctx off runs = simp (ctx, off, thread_current_lem k runs)

-- The level that was saved is put back.
pub intr_set_level_back :
    (level : Bool) (k : Kernel)
    → (level ≡ false) ⊎ (k.in_external_intr ≡ false)
    → intr_set_level level k ≡ ok (record k { intr_on = level })
unfolding intr_set_level intr_enable intr_disable
intr_set_level_back true k (inl e) = cc
intr_set_level_back true k (inr e) = rw e
intr_set_level_back false k h = refl

module _ (k : Kernel) (v : IsScheduler k) where
  -- In a sane scheduler, outside an interrupt handler and with interrupts off, thread_block always
  -- reaches the thread that runs next: the front of the ready list, or the idle thread if it is
  -- empty. It has a fresh slice, the scheduler is sane, and the caller is blocked unless it is
  -- that thread itself.
  pub thread_block_lem :
      (next : ℕ) (rest : List ℕ)
      → k.in_external_intr ≡ false
      → k.intr_on ≡ false
      → Chosen k next rest
      → (k' : Kernel) × (thread_block k ≡ ok k')
        × Switched (set_status k.current blocked k) next rest k'
        × (k.current ≢ next → status_of k' k.current ≡ some blocked)
  thread_block_lem next rest ctx off chosen =
      let k1 : Kernel = set_status k.current blocked k in
      let sets =
        set_status-Sets k k.current blocked (status-ne_none k k.current running v.cur_runs) in
      let parted =
        IsSane-leave (status_of k) (status_of k1) k.idle_thread k.destruction_req k.current
          k.ready_list v blocked (inl refl) sets in
      let run = schedule_lem k1 off (not_doomed k v) parted next rest chosen in
      (
        run.0,
        thread_block-steps k ctx off v.cur_runs ∙ run.1,
        run.2,
        λ ne.
            run.2.others k.current ne
            ∙ Sets-self k.current blocked (status_of k) (status_of k1) sets,
      )

  unblocked : ℕ → Kernel
  unblocked t = record (set_status t ready k) { ready_list = k.ready_list ++ t ∷ [] }

  -- In a sane scheduler, with interrupts off or outside an interrupt handler, thread_unblock of a
  -- blocked thread other than the idle thread puts it, ready, at the back of the ready list,
  -- changes nothing else, and the scheduler is sane.
  pub thread_unblock_lem :
      (t : ℕ)
      → (k.intr_on ≡ false) ⊎ (k.in_external_intr ≡ false)
      → status_of k t ≡ some blocked
      → t ≢ k.idle_thread
      → (thread_unblock t k
          ≡ ok (record (set_status t ready k) { ready_list = k.ready_list ++ t ∷ [] }))
        × IsScheduler (record (set_status t ready k) { ready_list = k.ready_list ++ t ∷ [] })
  unfolding thread_unblock intr_disable
  thread_unblock_lem t level was ne =
      let sets = set_status-Sets k t ready (status-ne_none k t blocked was) in
      (
        rw (is_thread_of_status k t (status-ne_none k t blocked was), was)
            (intr_set_level_back k.intr_on _ level),
        IsSane-unblock (status_of k) (status_of (set_status t ready k)) k.idle_thread
            k.destruction_req k.current k.ready_list v t was ne sets,
      )
