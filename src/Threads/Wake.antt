-- ===== src/Threads/Wake.antt =====
-- threads/thread.c: the invariant when a thread is woken, queued for destruction or destroyed.
use junlge_pint_os.Common.{
  ℕ, ◌≡◌, ◌≢◌, sym, ap, ◌∙◌, subst, Option, none, some, List, [], ◌∷◌, ◌++◌, ◌⊎◌, inl, inr, All, In,
  All-map_in, All-append, In-append_left, In-append_last, Distinct-append_last,
}
use junlge_pint_os.Threads.State.{ThreadStatus, running, ready, blocked, dying}
use junlge_pint_os.Threads.Invariant.{IsSane, Sets, Sets-self, Sets-ne, Sets-cases, Sets-All}

module _ (st st' : ℕ → Option ThreadStatus) (idle : ℕ) (doomed : List ℕ) (cur : ℕ) (queue : List ℕ)
    (sane : IsSane st cur queue idle doomed) where
  -- A blocked thread joins the back of the queue.
  pub IsSane-unblock :
      (t : ℕ)
      → st t ≡ some blocked
      → t ≢ idle
      → Sets t ready st st'
      → IsSane st' cur (queue ++ t ∷ []) idle doomed
  IsSane-unblock t was ne sets = record {
    cur_runs =
        Sets-ne t ready st st' sets cur (λ q. cc (sane.cur_runs, was, ap st q)) ∙ sane.cur_runs;
    only_cur = λ u e. elim (Sets-cases t ready st st' sets u) [
      | inl q ↦ cc (q.1, e)
      | inr q ↦ sane.only_cur u (sym q.1 ∙ e)
    ];
    queue_ready =
        All-append (λ u. st' u ≡ some ready) queue (t ∷ [])
          (Sets-All t ready st st' sets ready queue (λ e. cc (was, e)) sane.queue_ready)
          (Sets-self t ready st st' sets, tt);
    queue_distinct = Distinct-append_last queue t sane.queue_distinct (
        All-map_in (λ u. st u ≡ some ready) (λ u. u ≢ t) queue (λ u e q. cc (was, e, ap st q))
          sane.queue_ready);
    queue_idle = All-append (λ u. u ≢ idle) queue (t ∷ []) sane.queue_idle (ne, tt);
    queued = λ u e n. elim (Sets-cases t ready st st' sets u) [
      | inl q ↦ subst (λ w. In w (queue ++ t ∷ [])) q.0 (In-append_last t queue)
      | inr q ↦ In-append_left u queue (t ∷ []) (sane.queued u (sym q.1 ∙ e) n)
    ];
    idle_alive =
        let same_idle = Sets-ne t ready st st' sets idle ne in
        (λ e. sane.idle_alive.0 (sym same_idle ∙ e), λ e. sane.idle_alive.1 (sym same_idle ∙ e));
    doomed_dying = Sets-All t ready st st' sets dying doomed (λ e. cc (was, e)) sane.doomed_dying;
    doomed_distinct = sane.doomed_distinct;
  }

  -- The destruction of the doomed threads takes away dying threads only.
  pub IsSane-reap :
      ((u : ℕ) → (st' u ≡ st u) ⊎ (st' u ≡ none) × (st u ≡ some dying))
      → IsSane st' cur queue idle []
  IsSane-reap same = record {
    cur_runs = keeps cur running (λ e. cc) sane.cur_runs;
    only_cur = λ u e. sane.only_cur u (had u running e);
    queue_ready =
        All-map_in (λ u. st u ≡ some ready) (λ u. st' u ≡ some ready) queue
          (λ u e. keeps u ready (λ q. cc) e) sane.queue_ready;
    queue_distinct = sane.queue_distinct;
    queue_idle = sane.queue_idle;
    queued = λ u e n. sane.queued u (had u ready e) n;
    idle_alive = (idle_exists (same idle), λ e. sane.idle_alive.1 (had idle dying e));
    doomed_dying = tt;
    doomed_distinct = tt;
  }
    where
      keeps : (u : ℕ) (w : ThreadStatus) → w ≢ dying → st u ≡ some w → st' u ≡ some w
      keeps u w ne e = elim (same u) [ inl q ↦ q ∙ e | inr q ↦ absurd (ne (cc (q.1, e))) ]

      had : (u : ℕ) (w : ThreadStatus) → st' u ≡ some w → st u ≡ some w
      had u w e = elim (same u) [ inl q ↦ sym q ∙ e | inr q ↦ cc (q.0, e) ]

      idle_exists :
          (st' idle ≡ st idle) ⊎ (st' idle ≡ none) × (st idle ≡ some dying) → st' idle ≢ none
      idle_exists (inl q) e = sane.idle_alive.0 (sym q ∙ e)
      idle_exists (inr q) e = sane.idle_alive.1 q.1

  -- A dying thread is queued for destruction.
  pub IsSane-doom :
      (t : ℕ)
      → st t ≡ some dying
      → All (λ u. u ≢ t) doomed
      → IsSane st cur queue idle (doomed ++ t ∷ [])
  IsSane-doom t is fresh = record {
    cur_runs = sane.cur_runs;
    only_cur = sane.only_cur;
    queue_ready = sane.queue_ready;
    queue_distinct = sane.queue_distinct;
    queue_idle = sane.queue_idle;
    queued = sane.queued;
    idle_alive = sane.idle_alive;
    doomed_dying = All-append (λ u. st u ≡ some dying) doomed (t ∷ []) sane.doomed_dying (is, tt);
    doomed_distinct = Distinct-append_last doomed t sane.doomed_distinct fresh;
  }
