-- ===== src/Threads/Invariant.antt =====
-- threads/thread.c: the invariant of the scheduler, on the threads' statuses and the lists alone.
use junlge_pint_os.Common.{
  ℕ, ◌≡◌, ◌≢◌, sym, ap, ◌∙◌, Option, none, some, List, [], ◌∷◌, ◌⊎◌, inl, inr, ◌==◌, if◌then◌else◌,
  arith, All, In, Distinct, All-map_in,
}
use native.Mathlib.Decide.{ℕ_discrete}
use junlge_pint_os.Threads.State.{ThreadStatus, running, ready, dying, Kernel, status_of}

-- Exactly `cur` runs; the queue holds exactly the ready threads, each once, but never the idle
-- thread; the idle thread is alive; and the threads that await destruction are dying.
pub record IsSane (st : ℕ → Option ThreadStatus) (cur : ℕ) (queue : List ℕ) (idle : ℕ)
    (doomed : List ℕ) : Type 0 where
  pub cur_runs : st cur ≡ some running
  pub only_cur : (t : ℕ) → st t ≡ some running → t ≡ cur
  pub queue_ready : All (λ t. st t ≡ some ready) queue
  pub queue_distinct : Distinct queue
  pub queue_idle : All (λ t. t ≢ idle) queue
  pub queued : (t : ℕ) → st t ≡ some ready → t ≢ idle → In t queue
  pub idle_alive : (st idle ≢ none) × (st idle ≢ some dying)
  pub doomed_dying : All (λ t. st t ≡ some dying) doomed
  pub doomed_distinct : Distinct doomed

-- The same while the processor changes hands: no thread has the status `running`.
pub record IsParted (st : ℕ → Option ThreadStatus) (queue : List ℕ) (idle : ℕ) (doomed : List ℕ)
    : Type 0 where
  pub none_runs : (t : ℕ) → st t ≢ some running
  pub queue_ready : All (λ t. st t ≡ some ready) queue
  pub queue_distinct : Distinct queue
  pub queue_idle : All (λ t. t ≢ idle) queue
  pub queued : (t : ℕ) → st t ≡ some ready → t ≢ idle → In t queue
  pub idle_alive : (st idle ≢ none) × (st idle ≢ some dying)
  pub doomed_dying : All (λ t. st t ≡ some dying) doomed
  pub doomed_distinct : Distinct doomed

abbrev pub IsScheduler : Kernel → Type 0
IsScheduler k = IsSane (status_of k) k.current k.ready_list k.idle_thread k.destruction_req

-- `st'` is `st` with the status of `t` set to `s`.
abbrev pub Sets : ℕ → ThreadStatus → (ℕ → Option ThreadStatus) → (ℕ → Option ThreadStatus) → Type 0
Sets t s st st' = (u : ℕ) → st' u ≡ (if t == u then some s else st u)

module _ (t : ℕ) (s : ThreadStatus) (st st' : ℕ → Option ThreadStatus)
    (sets : Sets t s st st') where
  pub Sets-self : st' t ≡ some s
  Sets-self = ground (arith, sets t)

  pub Sets-ne : (u : ℕ) → t ≢ u → st' u ≡ st u
  Sets-ne u ne = ground (arith, sets u)

  pub Sets-cases : (u : ℕ) → ((t ≡ u) × (st' u ≡ some s)) ⊎ ((t ≢ u) × (st' u ≡ st u))
  Sets-cases u = elim (ℕ_discrete t u) [
    | yes e ↦ inl (e, rw (← e) Sets-self)
    | no ne ↦ inr (ne, Sets-ne u ne)
  ]

  -- Threads of another status keep it.
  pub Sets-All :
      (w : ThreadStatus) (l : List ℕ)
      → st t ≢ some w
      → All (λ u. st u ≡ some w) l
      → All (λ u. st' u ≡ some w) l
  Sets-All w l ne h =
      All-map_in (λ u. st u ≡ some w) (λ u. st' u ≡ some w) l
        (λ u e. Sets-ne u (λ q. ne (ap st q ∙ e)) ∙ e) h

module _ (st st' : ℕ → Option ThreadStatus) (idle : ℕ) (doomed : List ℕ) where
  -- With an empty queue the idle thread is resumed.
  pub IsParted-idle :
      IsParted st [] idle doomed → Sets idle running st st' → IsSane st' idle [] idle doomed
  IsParted-idle p sets = record {
    cur_runs = Sets-self idle running st st' sets;
    only_cur = λ t e. elim (Sets-cases idle running st st' sets t) [
      | inl q ↦ sym q.0
      | inr q ↦ absurd (p.none_runs t (sym q.1 ∙ e))
    ];
    queue_ready = tt;
    queue_distinct = tt;
    queue_idle = tt;
    queued =
        λ t e ne. p.queued t (sym (Sets-ne idle running st st' sets t (λ q. ne (sym q))) ∙ e) ne;
    idle_alive = (
      λ e. cc (Sets-self idle running st st' sets, e),
      λ e. cc (Sets-self idle running st st' sets, e),
    );
    doomed_dying = Sets-All idle running st st' sets dying doomed p.idle_alive.1 p.doomed_dying;
    doomed_distinct = p.doomed_distinct;
  }

  -- Otherwise the front of the queue is resumed.
  pub IsParted-next :
      (next : ℕ) (rest : List ℕ)
      → IsParted st (next ∷ rest) idle doomed
      → Sets next running st st'
      → IsSane st' next rest idle doomed
  IsParted-next next rest p sets = record {
    cur_runs = Sets-self next running st st' sets;
    only_cur = λ t e. elim (Sets-cases next running st st' sets t) [
      | inl q ↦ sym q.0
      | inr q ↦ absurd (p.none_runs t (sym q.1 ∙ e))
    ];
    queue_ready = All-both rest p.queue_distinct.0 p.queue_ready.1;
    queue_distinct = p.queue_distinct.1;
    queue_idle = p.queue_idle.1;
    queued = λ t e ne. elim (Sets-cases next running st st' sets t) [
      | inl q ↦ cc (q.1, e)
      | inr q ↦ elim (p.queued t (sym q.1 ∙ e) ne) [ inl r ↦ absurd (q.0 r) | inr r ↦ r ]
    ];
    idle_alive =
        let same_idle = Sets-ne next running st st' sets idle p.queue_idle.0 in
        (λ e. p.idle_alive.0 (sym same_idle ∙ e), λ e. p.idle_alive.1 (sym same_idle ∙ e));
    doomed_dying =
        Sets-All next running st st' sets dying doomed (λ e. cc (p.queue_ready.0, e))
          p.doomed_dying;
    doomed_distinct = p.doomed_distinct;
  }
    where
      All-both :
          (l : List ℕ)
          → All (λ y. next ≢ y) l
          → All (λ t. st t ≡ some ready) l
          → All (λ t. st' t ≡ some ready) l
      All-both [] a b = tt
      All-both (x ∷ l) a b = (Sets-ne next running st st' sets x a.0 ∙ b.0, All-both l a.1 b.1)
