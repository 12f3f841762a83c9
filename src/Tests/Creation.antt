-- ===== src/Tests/Creation.antt =====
-- threads/thread.c: making a thread among the six of the scheduler, with free pages in the pool and
-- all locks free.
use junlge_pint_os.Common.{ℕ, ◌≡◌, refl, [], ◌∷◌, ◌⊎◌, inl, ok, panic, false, arith}
use junlge_pint_os.Bitmap.Scan.{Group}
use junlge_pint_os.Synch.{Machine}
use junlge_pint_os.Threads.Create.{System, Creation, tid_error, created, thread_create}
use junlge_pint_os.Threads.Locked.{thread_create-panic}
use junlge_pint_os.Threads.Birth.{Housed, IsCreated, thread_create_lem}
use junlge_pint_os.Tests.Scheduler.{six, six-IsScheduler}
use junlge_pint_os.Tests.Pages.{pages, pages-IsMemory}

abbrev machine : Machine
machine = record {
  kernel = six;
  sema = λ a. record { value = 1; waiters = [] };
  holder = λ a. 0;
  cond = λ a. [];
}

abbrev system : System
system = record { machine = machine; memory = pages; tid_lock = 302; next_tid = 7 }

six-Housed : Housed six pages
six-Housed i lt free = ground arith

-- The name is "ab", the function lies at 8192.
thread_create_example :
    (r : Creation) × (s' : System) × (thread_create (97 ∷ 98 ∷ []) 31 8192 system ≡ ok (r, s'))
    × ((r ≡ created 7) × ((t : ℕ) × IsCreated system (97 ∷ 98 ∷ []) 31 t s')
        ⊎ (r ≡ tid_error)
          × (s' ≡ system)
          × ((i : ℕ) → ¬ (Group pages.kernel_pool.used_map 1 false i)))
thread_create_example =
    thread_create_lem system (97 ∷ 98 ∷ []) 31 8192 six-IsScheduler refl (omega arith) (omega arith)
      (omega arith) (record { value_one = refl; none_waits = refl; no_holder = refl })
      pages-IsMemory six-Housed (omega arith)
      (record { value_one = refl; none_waits = refl; no_holder = refl })

no_function_run : thread_create (97 ∷ 98 ∷ []) 31 0 system ≡ panic
no_function_run = thread_create-panic (97 ∷ 98 ∷ []) 31 0 system (inl refl)
