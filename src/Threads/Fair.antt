-- ===== src/Threads/Fair.antt =====
-- threads/thread.c: the threads of the ready list in turn.
use mathlib.Core.List.{append_assoc}
use junlge_pint_os.Common.{
  ℕ, zero, suc, ◌≡◌, ◌≢◌, sym, ap, ◌∙◌, subst, false, List, [], ◌∷◌, ◌++◌, inl, Outcome, ok, ◌>>=◌,
  length, All,
}
use junlge_pint_os.Threads.State.{Kernel}
use junlge_pint_os.Threads.Schedule.{thread_yield}
use junlge_pint_os.Threads.Invariant.{IsScheduler}
use junlge_pint_os.Threads.Yield.{thread_yield_lem, Left, requeued_ne}

-- `n` threads in turn yield, each as soon as it runs.
pub yields : ℕ → Kernel → Outcome Kernel
yields zero k = ok k
yields (suc n) k = thread_yield k >>= λ k'. yields n k'

-- A yield of a thread that is not the idle thread resumes the front of a non-empty ready list.
yield_front :
    (k : Kernel) (next : ℕ) (rest : List ℕ)
    → IsScheduler k
    → k.in_external_intr ≡ false
    → k.current ≢ k.idle_thread
    → k.ready_list ≡ next ∷ rest
    → (k' : Kernel) × (thread_yield k ≡ ok k') × Left k next (rest ++ k.current ∷ []) k'
yield_front k next rest v ctx ne e =
    let run =
      thread_yield_lem k v ctx next (rest ++ k.current ∷ [])
        (inl (requeued_ne k ne ∙ ap (λ q. q ++ k.current ∷ []) e)) in
    (run.0, run.1, run.2)

-- In a sane scheduler, outside an interrupt handler, if t waits in the ready list behind the
-- threads `before` and the running thread is not the idle thread, then one yield more than there
-- are threads before t all return, t runs after them whatever stands behind it in the list, and
-- the scheduler is sane.
pub round_robin :
    (before : List ℕ) (t : ℕ) (behind : List ℕ) (k : Kernel)
    → IsScheduler k
    → k.in_external_intr ≡ false
    → k.current ≢ k.idle_thread
    → k.ready_list ≡ before ++ t ∷ behind
    → (k' : Kernel) × (yields (suc (length before)) k ≡ ok k') × IsScheduler k' × (k'.current ≡ t)
unfolding yields
round_robin [] t behind k v ctx ne e =
    let run = yield_front k t behind v ctx ne e in (run.0, rw run.1, run.2.sane, run.2.now)
round_robin (x ∷ before) t behind k v ctx ne e =
    let run = yield_front k x (before ++ t ∷ behind) v ctx ne e in
    let rest =
      round_robin before t (behind ++ k.current ∷ []) run.0 run.2.sane (run.2.same_context ∙ ctx)
        (λ p.
          (subst (All (λ u. u ≢ k.idle_thread)) e v.queue_idle).0
            (sym run.2.now ∙ p ∙ run.2.same_idle))
        (run.2.queue ∙ append_assoc before (t ∷ behind) (k.current ∷ [])) in
    (rest.0, rw run.1 rest.1, rest.2, rest.3)
