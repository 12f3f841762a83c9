-- ===== src/Threads/Reap.antt =====
-- threads/thread.c: the threads that wait to be destroyed in `do_schedule`.
use native.Mathlib.Decide.{ℕ_discrete}
use junlge_pint_os.Common.{
  ℕ, ◌≡◌, ◌≢◌, refl, ◌∙◌, subst, none, some, List, [], ◌∷◌, ◌++◌, ◌⊎◌, inl, inr, ==_refl, ==_ne,
  All, Distinct,
}
use junlge_pint_os.Threads.State.{dying, Kernel, status_of, update}
use junlge_pint_os.Threads.Schedule.{reap}

pub reap-fields :
    (l : List ℕ) (k : Kernel)
    → ((reap l k).current ≡ k.current)
      × ((reap l k).ready_list ≡ k.ready_list)
      × ((reap l k).idle_thread ≡ k.idle_thread)
      × ((reap l k).intr_on ≡ k.intr_on)
      × ((reap l k).in_external_intr ≡ k.in_external_intr)
      × ((reap l k).destruction_req ≡ [])
unfolding reap
reap-fields [] k = (refl, refl, refl, refl, refl, refl)
reap-fields (victim ∷ rest) k = reap-fields rest _

-- Only the pages of dying threads stop holding a thread.
pub reap-status :
    (l : List ℕ) (k : Kernel)
    → All (λ u. status_of k u ≡ some dying) l
    → Distinct l
    → (u : ℕ)
    → (status_of (reap l k) u ≡ status_of k u)
      ⊎ (status_of (reap l k) u ≡ none) × (status_of k u ≡ some dying)
unfolding reap
reap-status [] k h d u = inl refl
reap-status (victim ∷ rest) k h d u = combine (reap-status rest k1 (still rest d.0 h.1) d.1 u)
  where
    k1 : Kernel
    k1 = record k { thread = update k.thread victim none; freed = k.freed ++ victim ∷ [] }

    still :
        (r : List ℕ)
        → All (λ y. victim ≢ y) r
        → All (λ w. status_of k w ≡ some dying) r
        → All (λ w. status_of k1 w ≡ some dying) r
    still [] a b = tt
    still (x ∷ r) a b = (rw (==_ne victim x a.0) b.0, still r a.1 b.1)

    combine :
        (status_of (reap rest k1) u ≡ status_of k1 u)
          ⊎ (status_of (reap rest k1) u ≡ none) × (status_of k1 u ≡ some dying)
        → (status_of (reap rest k1) u ≡ status_of k u)
          ⊎ (status_of (reap rest k1) u ≡ none) × (status_of k u ≡ some dying)
    combine other = elim (ℕ_discrete victim u) [
      | yes e ↦ elim other [
        | inl q ↦
            inr (q ∙ (rw (← e, ==_refl victim)), subst (λ w. status_of k w ≡ some dying) e h.0)
        | inr q ↦ inr (q.0, subst (λ w. status_of k w ≡ some dying) e h.0)
      ]
      | no ne ↦ (rw (==_ne victim u ne) at other)
    ]
