-- ===== src/Threads/Newborn.antt =====
-- threads/thread.c: the thread that `thread_create` makes, before it is ready.
use junlge_pint_os.Common.{
  ℕ, ◌≤◌, ◌≡◌, ◌≢◌, refl, sym, ap, ◌∙◌, Option, none, some, List, inl, inr, ok, take, le→leb, ==_ne,
  arith,
}
use junlge_pint_os.Threads.State.{ThreadStatus, ready, blocked, dying, Kernel, update, status_of}
use junlge_pint_os.Threads.Invariant.{IsSane, Sets, Sets-ne, Sets-cases, Sets-All}
use junlge_pint_os.Threads.Create.{blank_thread, init_thread, set_tid}

-- A blocked thread appears where none was.
pub IsSane-born :
    (st st' : ℕ → Option ThreadStatus) (cur : ℕ) (queue : List ℕ) (idle : ℕ) (doomed : List ℕ)
    (t : ℕ)
    → IsSane st cur queue idle doomed
    → st t ≡ none
    → Sets t blocked st st'
    → IsSane st' cur queue idle doomed
IsSane-born st st' cur queue idle doomed t sane was sets =
    let not_idle : t ≢ idle = λ q. sane.idle_alive.0 (ap st (sym q) ∙ was) in
    let same_idle = Sets-ne t blocked st st' sets idle not_idle in
    record {
      cur_runs =
          Sets-ne t blocked st st' sets cur (λ q. cc (sane.cur_runs, was, ap st q)) ∙ sane.cur_runs;
      only_cur = λ u e. elim (Sets-cases t blocked st st' sets u) [
        | inl q ↦ cc (q.1, e)
        | inr q ↦ sane.only_cur u (sym q.1 ∙ e)
      ];
      queue_ready = Sets-All t blocked st st' sets ready queue (λ e. cc (was, e)) sane.queue_ready;
      queue_distinct = sane.queue_distinct;
      queue_idle = sane.queue_idle;
      queued = λ u e n. elim (Sets-cases t blocked st st' sets u) [
        | inl q ↦ cc (q.1, e)
        | inr q ↦ sane.queued u (sym q.1 ∙ e) n
      ];
      idle_alive =
          (λ e. sane.idle_alive.0 (sym same_idle ∙ e), λ e. sane.idle_alive.1 (sym same_idle ∙ e));
      doomed_dying =
          Sets-All t blocked st st' sets dying doomed (λ e. cc (was, e)) sane.doomed_dying;
      doomed_distinct = sane.doomed_distinct;
    }

-- The scheduler once `init_thread` has filled the page.
abbrev pub filled : ℕ → List ℕ → ℕ → Kernel → Kernel
filled t name priority k = record k {
  thread = update k.thread t (some (blank_thread name priority));
}

-- The scheduler with the new thread, blocked, in its page.
unfoldable pub born : ℕ → ℕ → List ℕ → ℕ → Kernel → Kernel
unfolding set_tid
born t tid name priority k = set_tid t tid (filled t name priority k)

pub init_thread_lem :
    (t : ℕ) (name : List ℕ) (priority : ℕ) (k : Kernel)
    → t ≢ 0
    → priority ≤ 63
    → init_thread t name priority k ≡ ok (filled t name priority k)
unfolding init_thread
init_thread_lem t name priority k not_null in_range =
    rw (==_ne t 0 not_null, le→leb priority 63 in_range) refl

pub filled-Sets :
    (t : ℕ) (name : List ℕ) (priority : ℕ) (k : Kernel)
    → Sets t blocked (status_of k) (status_of (filled t name priority k))
unfolding blank_thread
filled-Sets t name priority k u = ground arith

pub born-thread :
    (t tid : ℕ) (name : List ℕ) (priority : ℕ) (k : Kernel)
    → (born t tid name priority k).thread t
      ≡ some (record { tid = tid; status = blocked; name = take 15 name; priority = priority })
unfolding born set_tid blank_thread
born-thread t tid name priority k = ground arith

pub born-Sets :
    (t tid : ℕ) (name : List ℕ) (priority : ℕ) (k : Kernel)
    → Sets t blocked (status_of k) (status_of (born t tid name priority k))
unfolding born set_tid blank_thread
born-Sets t tid name priority k u = ground arith
