-- ===== src/Threads/Leave.antt =====
-- threads/thread.c: the invariant between a thread's last step and the switch.
use junlge_pint_os.Common.{
  ℕ, ◌≡◌, ◌≢◌, sym, ap, ◌∙◌, subst, Option, some, List, [], ◌∷◌, ◌++◌, ◌⊎◌, inl, inr, In,
  All-map_in, All-append, In-append_left, In-append_last, Distinct-append_last,
}
use junlge_pint_os.Threads.State.{ThreadStatus, running, ready, blocked, dying}
use junlge_pint_os.Threads.Invariant.{
  IsSane, IsParted, Sets, Sets-self, Sets-ne, Sets-cases, Sets-All,
}

module _ (st st' : ℕ → Option ThreadStatus) (idle : ℕ) (doomed : List ℕ) (cur : ℕ) (queue : List ℕ)
    (sane : IsSane st cur queue idle doomed) where
  cur_not : (w : ThreadStatus) → w ≢ running → st cur ≢ some w
  cur_not w ne e = ne (cc (sane.cur_runs, e))

  -- The running thread blocks or dies.
  pub IsSane-leave :
      (s : ThreadStatus)
      → (s ≡ blocked) ⊎ ((s ≡ dying) × (cur ≢ idle))
      → Sets cur s st st'
      → IsParted st' queue idle doomed
  IsSane-leave s which sets = record {
    none_runs = λ t e. elim (Sets-cases cur s st st' sets t) [
      | inl q ↦ not_running which (sym q.1 ∙ e)
      | inr q ↦ q.0 (sym (sane.only_cur t (sym q.1 ∙ e)))
    ];
    queue_ready = Sets-All cur s st st' sets ready queue (cur_not ready (λ e. cc)) sane.queue_ready;
    queue_distinct = sane.queue_distinct;
    queue_idle = sane.queue_idle;
    queued = λ t e ne. elim (Sets-cases cur s st st' sets t) [
      | inl q ↦ absurd (not_ready which (sym q.1 ∙ e))
      | inr q ↦ sane.queued t (sym q.1 ∙ e) ne
    ];
    idle_alive = elim (Sets-cases cur s st st' sets idle) [
      | inl q ↦ (λ e. cc (q.1, e), λ e. idle_dies which q.0 (sym q.1 ∙ e))
      | inr q ↦ (λ e. sane.idle_alive.0 (sym q.1 ∙ e), λ e. sane.idle_alive.1 (sym q.1 ∙ e))
    ];
    doomed_dying =
        Sets-All cur s st st' sets dying doomed (cur_not dying (λ e. cc)) sane.doomed_dying;
    doomed_distinct = sane.doomed_distinct;
  }
    where
      not_running : (s ≡ blocked) ⊎ ((s ≡ dying) × (cur ≢ idle)) → some s ≡ some running → ⊥
      not_running (inl p) e = cc
      not_running (inr p) e = cc (p.0)

      not_ready : (s ≡ blocked) ⊎ ((s ≡ dying) × (cur ≢ idle)) → some s ≡ some ready → ⊥
      not_ready (inl p) e = cc
      not_ready (inr p) e = cc (p.0)

      idle_dies :
          (s ≡ blocked) ⊎ ((s ≡ dying) × (cur ≢ idle)) → cur ≡ idle → some s ≡ some dying → ⊥
      idle_dies (inl p) q e = cc
      idle_dies (inr p) q e = p.1 q

  -- The running thread goes to the back of the queue.
  pub IsSane-yield :
      cur ≢ idle → Sets cur ready st st' → IsParted st' (queue ++ cur ∷ []) idle doomed
  IsSane-yield ne sets = record {
    none_runs = λ t e. elim (Sets-cases cur ready st st' sets t) [
      | inl q ↦ cc (q.1, e)
      | inr q ↦ q.0 (sym (sane.only_cur t (sym q.1 ∙ e)))
    ];
    queue_ready =
        All-append (λ t. st' t ≡ some ready) queue (cur ∷ [])
          (Sets-All cur ready st st' sets ready queue (cur_not ready (λ e. cc)) sane.queue_ready)
          (Sets-self cur ready st st' sets, tt);
    queue_distinct = Distinct-append_last queue cur sane.queue_distinct (
        All-map_in (λ t. st t ≡ some ready) (λ t. t ≢ cur) queue
          (λ t e q. cc (sane.cur_runs, e, ap st q)) sane.queue_ready);
    queue_idle = All-append (λ t. t ≢ idle) queue (cur ∷ []) sane.queue_idle (ne, tt);
    queued = λ t e n. elim (Sets-cases cur ready st st' sets t) [
      | inl q ↦ subst (λ u. In u (queue ++ cur ∷ [])) q.0 (In-append_last cur queue)
      | inr q ↦ In-append_left t queue (cur ∷ []) (sane.queued t (sym q.1 ∙ e) n)
    ];
    idle_alive =
        let same_idle = Sets-ne cur ready st st' sets idle ne in
        (λ e. sane.idle_alive.0 (sym same_idle ∙ e), λ e. sane.idle_alive.1 (sym same_idle ∙ e));
    doomed_dying =
        Sets-All cur ready st st' sets dying doomed (cur_not dying (λ e. cc)) sane.doomed_dying;
    doomed_distinct = sane.doomed_distinct;
  }

  -- The idle thread yields: it is not queued.
  pub IsSane-yield_idle : cur ≡ idle → Sets cur ready st st' → IsParted st' queue idle doomed
  IsSane-yield_idle eq sets = record {
    none_runs = λ t e. elim (Sets-cases cur ready st st' sets t) [
      | inl q ↦ cc (q.1, e)
      | inr q ↦ q.0 (sym (sane.only_cur t (sym q.1 ∙ e)))
    ];
    queue_ready =
        Sets-All cur ready st st' sets ready queue (cur_not ready (λ e. cc)) sane.queue_ready;
    queue_distinct = sane.queue_distinct;
    queue_idle = sane.queue_idle;
    queued = λ t e ne. elim (Sets-cases cur ready st st' sets t) [
      | inl q ↦ absurd (ne (sym q.0 ∙ eq))
      | inr q ↦ sane.queued t (sym q.1 ∙ e) ne
    ];
    idle_alive =
        let idle_ready = ap st' (sym eq) ∙ Sets-self cur ready st st' sets in
        (λ e. cc (idle_ready, e), λ e. cc (idle_ready, e));
    doomed_dying =
        Sets-All cur ready st st' sets dying doomed (cur_not dying (λ e. cc)) sane.doomed_dying;
    doomed_distinct = sane.doomed_distinct;
  }
