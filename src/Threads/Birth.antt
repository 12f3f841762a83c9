-- ===== src/Threads/Birth.antt =====
-- threads/thread.c: `thread_create` keeps the scheduler sane, and gives the thread a page of its own.
use junlge_pint_os.Common.{
  ℕ, ◌+◌, ◌-◌, ◌^◌, ◌*◌, ◌≤◌, ◌<◌, ◌≡◌, ◌≢◌, refl, sym, ap, ◌∙◌, false, Option, none, some, List,
  [], ◌∷◌, ◌++◌, ◌⊎◌, inl, inr, ok, take, ==_ne, arith,
}
use junlge_pint_os.Bitmap.Bit.{bit}
use junlge_pint_os.Bitmap.Scan.{Group}
use junlge_pint_os.Palloc.{Memory, palloc_get_page}
use junlge_pint_os.Palloc.Pools.{IsMemory}
use junlge_pint_os.Palloc.Get.{Got, palloc_get_multiple_lem}
use junlge_pint_os.Threads.State.{
  ready, blocked, Thread, Kernel, null, status_in, status_of, set_status,
}
use junlge_pint_os.Threads.Invariant.{IsScheduler, Sets, Sets-self}
use junlge_pint_os.Threads.Ops.{thread_unblock_lem}
use junlge_pint_os.Synch.{set_kernel}
use junlge_pint_os.Synch.Uncontended.{IsFree}
use junlge_pint_os.Threads.Create.{
  System, Creation, tid_error, created, zero_page, blank_thread, get_page, set_tid, start_thread,
  create_in, with_page, thread_create,
}
use junlge_pint_os.Threads.Newborn.{
  IsSane-born, filled, born, init_thread_lem, filled-Sets, born-Sets,
}
use junlge_pint_os.Threads.Locked.{get_page_lem, allocate_tid_lem}

-- Threads live in pages that are in use.
abbrev pub Housed : Kernel → Memory → Type 0
Housed k m =
    (i : ℕ)
    → i < m.kernel_pool.used_map.bit_cnt
    → bit m.kernel_pool.used_map i ≡ false
    → k.thread (m.kernel_pool.base + 4096 * i) ≡ none

-- The system once a thread is made in the page `t`.
pub record IsCreated (s : System) (name : List ℕ) (priority t : ℕ) (s' : System) : Type 0 where
  pub was_none : s.machine.kernel.thread t ≡ none
  pub is_made :
      s'.machine.kernel.thread t
      ≡ some (record { tid = s.next_tid; status = ready; name = take 15 name; priority = priority })
  pub others : (u : ℕ) → t ≢ u → s'.machine.kernel.thread u ≡ s.machine.kernel.thread u
  pub queued : s'.machine.kernel.ready_list ≡ s.machine.kernel.ready_list ++ t ∷ []
  pub next : s'.next_tid ≡ s.next_tid + 1
  pub got : Got zero_page 1 s.memory t s'.memory
  pub is_scheduler : IsScheduler s'.machine.kernel
  pub housed : Housed s'.machine.kernel s'.memory
  -- The semaphores, locks and condition variables are as before.
  pub machine : s'.machine ≡ set_kernel s'.machine.kernel s.machine

module _ (s : System) (name : List ℕ) (priority function : ℕ) (sane : IsScheduler s.machine.kernel)
    (ctx : s.machine.kernel.in_external_intr ≡ false) (cur : s.machine.kernel.current ≢ null)
    (in_range : priority ≤ 63) (tid_left : s.next_tid < 2 ^ 31 - 1)
    (tid_free : IsFree s.tid_lock s.machine.sema s.machine.holder) where
  abbrev k0 : Kernel
  k0 = s.machine.kernel

  -- The scheduler once the new thread is ready.
  started : ℕ → Kernel
  started t = record (set_status t ready (born t s.next_tid name priority k0)) {
    ready_list = k0.ready_list ++ t ∷ [];
  }

  -- A blocked thread in a page where none was keeps the scheduler sane.
  with_blocked :
      (t : ℕ) (thread' : ℕ → Option Thread)
      → k0.thread t ≡ none
      → Sets t blocked (status_of k0) (status_of (record k0 { thread = thread' }))
      → IsScheduler (record k0 { thread = thread' })
  with_blocked t thread' was sets =
      IsSane-born (status_of k0) (status_of (record k0 { thread = thread' })) k0.current
        k0.ready_list k0.idle_thread k0.destruction_req t sane (ap status_in was) sets

  -- The system once the new thread runs.
  abbrev made : ℕ → Memory → System
  made t m' = record s {
    machine = set_kernel (started t) s.machine;
    memory = m';
    next_tid = s.next_tid + 1;
  }

  create_in_lem :
      (t : ℕ) (m' : Memory)
      → t ≢ 0
      → k0.thread t ≡ none
      → (create_in t name priority (record s { memory = m' }) ≡ ok (created s.next_tid, made t m'))
        × IsScheduler (started t)
  unfolding create_in start_thread started born set_tid
  create_in_lem t m' not_null was =
      let k = filled t name priority k0 in
      let k' = born t s.next_tid name priority k0 in
      let filled_sane = with_blocked t k.thread was (filled-Sets t name priority k0) in
      let sets = born-Sets t s.next_tid name priority k0 in
      let not_idle : t ≢ k0.idle_thread =
        λ q. sane.idle_alive.0 (ap (status_of k0) (sym q) ∙ ap status_in was) in
      let tid =
        allocate_tid_lem (record s { machine = set_kernel k s.machine; memory = m' }) filled_sane
          ctx cur tid_free tid_left in
      let run =
        thread_unblock_lem k' (with_blocked t k'.thread was sets) t (inr ctx)
          (Sets-self t blocked (status_of k0) (status_of k') sets) not_idle in
      (rw (init_thread_lem t name priority k0 not_null in_range) (rw tid (rw (run.0) refl)), run.1)

  started-created :
      (t : ℕ)
      → (started t).thread t
        ≡ some
            (record { tid = s.next_tid; status = ready; name = take 15 name; priority = priority })
  unfolding started born set_tid blank_thread
  started-created t = ground arith

  started-queue : (t : ℕ) → (started t).ready_list ≡ k0.ready_list ++ t ∷ []
  unfolding started
  started-queue t = refl

  started-others : (t u : ℕ) → t ≢ u → (started t).thread u ≡ k0.thread u
  unfolding started born set_tid
  started-others t u ne = ground (arith, ne)

  module _ (memory : IsMemory s.memory) (housed : Housed k0 s.memory) (code : function ≢ null)
      (pool_free : IsFree s.memory.kernel_pool.lock s.machine.sema s.machine.holder) where
    -- The steps of `thread_create` around the page.
    thread_create_paged :
        (page : ℕ) (s' : System)
        → get_page s ≡ ok (some page, s')
        → thread_create name priority function s ≡ with_page (some page) name priority s'
    unfolding thread_create
    thread_create_paged page s' e = rw (==_ne function 0 code) (rw e refl)

    with_page_null :
        (page : ℕ) (s' : System)
        → page ≡ 0
        → with_page (some page) name priority s' ≡ ok (tid_error, s')
    unfolding with_page
    with_page_null page s' e = rw e refl

    with_page_given :
        (page : ℕ) (s' : System)
        → page ≢ 0
        → with_page (some page) name priority s' ≡ create_in page name priority s'
    unfolding with_page
    with_page_given page s' ne = rw (==_ne page 0 ne) refl

    -- The free pages of the new memory were free, and are not the one that was given.
    still-Housed : (t : ℕ) (m' : Memory) → Got zero_page 1 s.memory t m' → Housed (started t) m'
    still-Housed t m' g i lt free =
        started-others t (m'.kernel_pool.base + 4096 * i)
          (λ q. other (omega (arith, q, g.address, g.same_base)))
        ∙ ap (λ b. k0.thread (b + 4096 * i)) g.same_base
        ∙ housed i (omega (arith, lt, g.now_used.same_cnt))
            (sym (g.now_used.outside i apart) ∙ free)
      where
        other : g.idx ≢ i
        other q = cc (free, g.now_used.inside i (omega (arith, q)) (omega (arith, q)))

        apart : (i < g.idx) ⊎ (g.idx + 1 ≤ i)
        apart = ground (arith, other)

    made-IsCreated :
        (t : ℕ) (m' : Memory)
        → k0.thread t ≡ none
        → Got zero_page 1 s.memory t m'
        → IsScheduler (started t)
        → IsCreated s name priority t (made t m')
    made-IsCreated t m' was g v = record {
      was_none = was;
      is_made = started-created t;
      others = started-others t;
      queued = started-queue t;
      next = refl;
      got = g;
      is_scheduler = v;
      housed = still-Housed t m' g;
      machine = refl;
    }

    -- In a sane scheduler, outside an interrupt handler, where the running thread and the function
    -- are not at the null pointer, for a priority of at most 63, a next tid below 2^31 - 1, a tid
    -- lock and a kernel pool lock that nobody holds or waits for, and well-formed pools that do
    -- not overlap and in whose free kernel pages no thread lives, thread_create returns without a
    -- switch. Either it returns the next tid, and a page that the allocator gave holds the new
    -- thread, with that tid, the name cut to 15 bytes and the priority, ready and at the back of
    -- the ready list; the other threads, the semaphores, locks and conditions are as before, the
    -- next tid is one more, the scheduler is sane, and no thread lives in a free page; or it
    -- returns TID_ERROR, there is no free page, and nothing has changed.
    pub thread_create_lem :
        (r : Creation) × (s' : System) × (thread_create name priority function s ≡ ok (r, s'))
        × ((r ≡ created s.next_tid) × ((t : ℕ) × IsCreated s name priority t s')
            ⊎ (r ≡ tid_error)
              × (s' ≡ s)
              × ((i : ℕ) → ¬ (Group s.memory.kernel_pool.used_map 1 false i)))
    unfolding palloc_get_page
    thread_create_lem =
        let run = palloc_get_multiple_lem zero_page 1 s.memory memory refl in
        elim run.3 [
          | inl g ↦ given run.0 run.1 run.2 g
          | inr no_page ↦ (
            tid_error,
            record s { memory = run.1 },
            paged run.0 run.1 run.2 ∙ no_thread run.0 run.1 no_page.0,
            inr (refl, (λ i. record s { memory = no_page.1 i }), no_page.2),
          )
        ]
      where
        paged :
            (page : ℕ) (m' : Memory)
            → palloc_get_page zero_page s.memory ≡ ok (page, m')
            → thread_create name priority function s
              ≡ with_page (some page) name priority (record s { memory = m' })
        paged page m' e =
            thread_create_paged page (record s { memory = m' })
              (get_page_lem s sane ctx cur page m' pool_free e)

        no_thread :
            (page : ℕ) (m' : Memory)
            → page ≡ 0
            → with_page (some page) name priority (record s { memory = m' })
              ≡ ok (tid_error, record s { memory = m' })
        no_thread page m' e = with_page_null page (record s { memory = m' }) e

        given :
            (t : ℕ) (m' : Memory)
            → palloc_get_page zero_page s.memory ≡ ok (t, m')
            → Got zero_page 1 s.memory t m'
            → (r : Creation) × (s' : System) × (thread_create name priority function s ≡ ok (r, s'))
              × ((r ≡ created s.next_tid) × ((t : ℕ) × IsCreated s name priority t s')
                  ⊎ (r ≡ tid_error)
                    × (s' ≡ s)
                    × ((i : ℕ) → ¬ (Group s.memory.kernel_pool.used_map 1 false i)))
        given t m' e g =
            let was : k0.thread t ≡ none =
              ap k0.thread g.address
              ∙ housed g.idx (omega (arith, g.were_free.within))
                  (g.were_free.equal g.idx (omega arith) (omega arith)) in
            let run = create_in_lem t m' g.not_null was in
            (
              created s.next_tid,
              made t m',
              paged t m' e ∙ with_page_given t (record s { memory = m' }) g.not_null ∙ run.0,
              inl (refl, (t, made-IsCreated t m' was g run.1)),
            )
