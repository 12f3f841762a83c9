-- ===== src/Tests/Rings.antt =====
-- devices/intq.c on a ring whose three bytes wrap round its end, and for which thread 3 waits.
use junlge_pint_os.Common.{◌≡◌, refl, true, [], ◌∷◌, inl, inr, ok, arith}
use junlge_pint_os.Synch.{set_kernel}
use junlge_pint_os.Intq.{Intq, intq_getc, intq_putc}
use junlge_pint_os.Intq.Ring.{items, contents, IsRing}
use junlge_pint_os.Intq.Queue.{woken, intq_putc_lem, intq_getc_lem}
use junlge_pint_os.Tests.Scheduler.{six, six-IsScheduler}
use junlge_pint_os.Tests.Locks.{machine}

abbrev ring : Intq
ring = record { lock = 7; not_full = 0; not_empty = 3; buf = λ i. i; head = 1; tail = 62 }

ring-IsRing : IsRing ring
ring-IsRing = record { head_in = omega arith; tail_in = omega arith }

intq_putc_example :
    (q' : Intq) × (intq_putc ring 9 machine ≡ ok ((q', set_kernel (woken 3 six) machine), true))
    × IsRing q'
    × (contents q' ≡ 62 ∷ 63 ∷ 0 ∷ 9 ∷ [])
    × (q'.not_empty ≡ 0)
unfolding items
intq_putc_example =
    intq_putc_lem ring machine ring-IsRing refl 9 (omega arith)
      (inr (omega arith, six-IsScheduler, refl, omega arith))

intq_getc_example :
    (q' : Intq) × (intq_getc ring machine ≡ ok ((62, q', set_kernel (woken 0 six) machine), true))
    × IsRing q'
    × (contents q' ≡ 63 ∷ 0 ∷ [])
    × (q'.not_full ≡ 0)
unfolding items
intq_getc_example = intq_getc_lem ring machine ring-IsRing refl 62 (63 ∷ 0 ∷ []) refl (inl refl)
