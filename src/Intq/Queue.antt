-- ===== src/Intq/Queue.antt =====
-- devices/intq.c: `intq_putc` and `intq_getc` seen as operations on a queue.
use junlge_pint_os.Common.{
  ℕ, suc, ◌+◌, ◌-◌, ◌%◌, ◌<◌, ◌≡◌, ◌≢◌, refl, ap, ◌∙◌, Bool, true, false, not, ◌⊎◌, inl, inr, some,
  List, [], ◌∷◌, ◌++◌, length, ok, assert_then, ◌==◌, if◌then◌else◌, ==_refl, ==_ne, arith,
}
use junlge_pint_os.Threads.State.{Kernel, null, update, status_of, blocked, ready, set_status}
use junlge_pint_os.Threads.Invariant.{IsScheduler}
use junlge_pint_os.Threads.Ops.{thread_unblock_lem}
use junlge_pint_os.Synch.{Machine, set_kernel}
use junlge_pint_os.Intq.{
  Intq, next, intq_empty, intq_full, holds, set_waiter, waiter, wake, signal, take_byte, store_byte,
  getc_take, putc_store, intq_getc, intq_putc,
}
use junlge_pint_os.Intq.Ring.{
  items_uncons, items, count, contents, IsRing, length-items, items_snoc, items-update,
}

-- There is no waiter, or it is a blocked thread of a sane scheduler other than the idle thread.
abbrev pub IsWakeable : ℕ → Kernel → Type 0
IsWakeable t k =
    (t ≡ null) ⊎ (t ≢ null) × IsScheduler k × (status_of k t ≡ some blocked) × (t ≢ k.idle_thread)

-- The kernel after the waiter, if there is one, was woken.
abbrev pub woken : ℕ → Kernel → Kernel
woken t k =
    if t == null then k else (record (set_status t ready k) { ready_list = k.ready_list ++ t ∷ [] })

set_waiter-null :
    (for_full : Bool) (q : Intq) → waiter for_full q ≡ null → q ≡ set_waiter for_full null q
unfolding waiter set_waiter
set_waiter-null true q e i = record q { not_full = e i }
set_waiter-null false q e i = record q { not_empty = e i }

-- `signal`, when its condition holds, wakes the waiter and resets it.
signal_lem :
    (for_full : Bool) (q : Intq) (m : Machine)
    → m.kernel.intr_on ≡ false
    → holds for_full q m.kernel ≡ ok false
    → IsWakeable (waiter for_full q) m.kernel
    → signal for_full q m
      ≡ ok (set_waiter for_full null q, set_kernel (woken (waiter for_full q) m.kernel) m)
unfolding signal wake
signal_lem for_full q m off cond (inl e) =
    assert_then (not m.kernel.intr_on) _ (ap not off)
    ∙ rw (cond) (rw (e) (ap (λ x. ok (x, m)) (set_waiter-null for_full q e)))
signal_lem for_full q m off cond (inr w) =
    assert_then (not m.kernel.intr_on) _ (ap not off)
    ∙ rw
        (
          cond,
          ==_ne (waiter for_full q) null w.0,
          (thread_unblock_lem m.kernel w.1 (waiter for_full q) (inl off) w.2 w.3).0,
        )
        refl

contents-length : (q : Intq) → length (contents q) ≡ count q
contents-length q = length-items q.tail (count q) q.buf

-- The ring after a byte was stored.
stored : Intq → ℕ → Intq
stored q byte = record q { buf = update q.buf q.head byte; head = (q.head + 1) % 64 }

stored-contents :
    (q : Intq) (byte : ℕ)
    → IsRing q
    → count q < 63
    → contents (stored q byte) ≡ contents q ++ byte ∷ []
unfolding stored
stored-contents q byte v room =
    ap (λ n. items q.tail n (update q.buf q.head byte)) {x = ((q.head + 1) % 64 + 64 - q.tail) % 64}
      {y = suc (count q)} (omega (arith, v.head_in, v.tail_in))
    ∙ items_snoc q.tail (count q) (update q.buf q.head byte) v.tail_in
    ∙ cc (
      items-update q.tail (count q) q.head byte q.buf v.tail_in
          (λ i lt e. omega (arith, v.head_in, v.tail_in, e, lt, room)),
      last_byte,
    )
  where
    last_at : (q.tail + count q) % 64 ≡ q.head
    last_at = omega (arith, v.head_in, v.tail_in)

    last_byte : update q.buf q.head byte ((q.tail + count q) % 64) ≡ byte
    last_byte = rw (last_at, ==_refl q.head) refl

module _ (q : Intq) (m : Machine) (v : IsRing q) (off : m.kernel.intr_on ≡ false) where
  not_empty_now : (byte : ℕ) → count q < 63 → holds false (stored q byte) m.kernel ≡ ok false
  unfolding holds intq_empty stored
  not_empty_now byte room =
      assert_then (not m.kernel.intr_on) _ (ap not off)
      ∙ ap ok (==_ne ((q.head + 1) % 64) q.tail (λ e. omega (arith, e, room, v.head_in, v.tail_in)))

  not_full_now :
      count q ≢ 0 → holds true (record q { tail = (q.tail + 1) % 64 }) m.kernel ≡ ok false
  unfolding holds intq_full next
  not_full_now some_byte =
      assert_then (not m.kernel.intr_on) _ (ap not off)
      ∙ ap ok (
          ==_ne ((q.head + 1) % 64) ((q.tail + 1) % 64)
            (λ e. some_byte (omega (arith, e, v.head_in, v.tail_in))))

  -- With interrupts off, if the queue's positions are in range, it holds fewer than 63 bytes, and
  -- the thread waiting in not_empty, if any, is a blocked thread of a sane scheduler other than
  -- the idle thread, then intq_putc returns without sleeping: the byte is at the end of the
  -- queue's contents, the waiter was woken and is reset, and the positions are in range.
  pub intq_putc_lem :
      (byte : ℕ)
      → length (contents q) < 63
      → IsWakeable q.not_empty m.kernel
      → (q' : Intq) × (intq_putc q byte m
          ≡ ok ((q', set_kernel (woken q.not_empty m.kernel) m), true))
        × IsRing q'
        × (contents q' ≡ contents q ++ byte ∷ [])
        × (q'.not_empty ≡ null)
  unfolding intq_putc putc_store store_byte intq_full intq_empty holds next set_waiter waiter stored
  intq_putc_lem byte len wakeable =
      let room : count q < 63 = omega (arith, len, contents-length q) in
      (
        record (stored q byte) { not_empty = null },
        assert_then (not m.kernel.intr_on) _ (ap not off)
            ∙ (rw (assert_then (not m.kernel.intr_on) (ok (next q.head == q.tail)) (ap not off)) (
                rw
                  (==_ne ((q.head + 1) % 64) q.tail
                    (λ e. omega (arith, e, room, v.head_in, v.tail_in)))
                  (rw
                    (signal_lem false (stored q byte) m off (not_empty_now byte room) wakeable)))),
        record { head_in = omega arith; tail_in = v.tail_in },
        stored-contents q byte v room,
        refl,
      )

  -- With interrupts off, if the queue's positions are in range, it is not empty, and the thread
  -- waiting in not_full, if any, is a blocked thread of a sane scheduler other than the idle
  -- thread, then intq_getc returns without sleeping the oldest byte, which is taken off the
  -- queue's contents; the waiter was woken and is reset, and the positions are in range.
  pub intq_getc_lem :
      (byte : ℕ) (rest : List ℕ)
      → contents q ≡ byte ∷ rest
      → IsWakeable q.not_full m.kernel
      → (q' : Intq) × (intq_getc q m
          ≡ ok ((byte, q', set_kernel (woken q.not_full m.kernel) m), true))
        × IsRing q'
        × (contents q' ≡ rest)
        × (q'.not_full ≡ null)
  unfolding intq_getc getc_take take_byte intq_full intq_empty holds next set_waiter waiter
  intq_getc_lem byte rest holds_byte wakeable =
      let front = items_uncons q.tail (count q) byte rest q.buf holds_byte in
      (
        record q { not_full = null; tail = (q.tail + 1) % 64 },
        assert_then (not m.kernel.intr_on) _ (ap not off)
            ∙ (rw (assert_then (not m.kernel.intr_on) (ok (q.head == q.tail)) (ap not off)) (
                rw (==_ne q.head q.tail (λ e. front.0 (omega (arith, e, v.head_in, v.tail_in)))) (
                  rw (
                    signal_lem true (record q { tail = (q.tail + 1) % 64 }) m off
                        (not_full_now front.0) wakeable,
                    front.1,
                  )))),
        record { head_in = v.head_in; tail_in = omega arith },
        ap (λ n. items ((q.tail + 1) % 64) n q.buf) {x = (q.head + 64 - (q.tail + 1) % 64) % 64}
              {y = count q - 1} (omega (arith, front.0, v.head_in, v.tail_in))
            ∙ front.2,
        refl,
      )
