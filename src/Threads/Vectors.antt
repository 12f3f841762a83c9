-- ===== src/Threads/Vectors.antt =====
-- threads/interrupt.c: registering the handlers of interrupts. The table of gates that the processor
-- reads is a function from vectors to gates; a name is the address of its text.
use native.Mathlib.Decide.{ℕ_discrete}
use junlge_pint_os.Common.{
  ℕ, ◌≤◌, ◌≡◌, ◌≢◌, refl, sym, ap, ◌∙◌, Bool, true, false, not, ◌&&◌, ◌||◌, Option, none, some,
  Outcome, ok, panic, ◌>>◌, assert, leb, ltb, ==_ne, ==_refl, arith, assert_then,
}
use junlge_pint_os.Threads.State.{Kernel, update, is_some}
use junlge_pint_os.Threads.Interrupt.{Handler, intr_handler}

-- A trap gate leaves interrupts on, an interrupt gate turns them off.
pub data Gate : Type 0 where
  trap_gate intr_gate : ℕ → Gate

pub record Vectors : Type 0 where
  pub intr_handlers : ℕ → Option Handler
  pub idt : ℕ → Gate
  pub intr_names : ℕ → ℕ

-- `make_trap_gate` or `make_intr_gate`; `level` is true for INTR_ON.
abbrev pub gate_of : Bool → ℕ → Gate
gate_of true dpl = trap_gate dpl
gate_of false dpl = intr_gate dpl

unfoldable pub register_handler : ℕ → ℕ → Bool → Handler → ℕ → Vectors → Outcome Vectors
register_handler vec_no dpl level handler name v = do
  assert (not (is_some (v.intr_handlers vec_no)))
  ok (record v {
    idt = update v.idt vec_no (gate_of level dpl);
    intr_handlers = update v.intr_handlers vec_no (some handler);
    intr_names = update v.intr_names vec_no name;
  })

unfoldable pub intr_register_ext : ℕ → Handler → ℕ → Vectors → Outcome Vectors
intr_register_ext vec_no handler name v = do
  assert (leb 0x20 vec_no && leb vec_no 0x2f)
  register_handler vec_no 0 false handler name v

unfoldable pub intr_register_int : ℕ → ℕ → Bool → Handler → ℕ → Vectors → Outcome Vectors
intr_register_int vec_no dpl level handler name v = do
  assert (ltb vec_no 0x20 || ltb 0x2f vec_no)
  register_handler vec_no dpl level handler name v

-- `intr_handler` looks its handler up.
unfoldable pub interrupt : Vectors → ℕ → Kernel → Outcome Kernel
interrupt v vec_no k = intr_handler (v.intr_handlers vec_no) vec_no k

-- The gates of the devices' interrupts turn interrupts off, and no user program can use them.
abbrev pub IsVectors : Vectors → Type 0
IsVectors v =
    (n : ℕ) → 0x20 ≤ n → n ≤ 0x2f → is_some (v.intr_handlers n) ≡ true → v.idt n ≡ intr_gate 0

-- `v'` is `v` with a handler and a gate for one vector.
pub record IsRegistered (vec_no : ℕ) (handler : Handler) (gate : Gate) (v v' : Vectors)
    : Type 1 where
  pub handler_in : v'.intr_handlers vec_no ≡ some handler
  pub gate_in : v'.idt vec_no ≡ gate
  pub other_handlers : (n : ℕ) → n ≢ vec_no → v'.intr_handlers n ≡ v.intr_handlers n
  pub other_gates : (n : ℕ) → n ≢ vec_no → v'.idt n ≡ v.idt n

register_handler_lem :
    (vec_no dpl : ℕ) (level : Bool) (handler : Handler) (name : ℕ) (v : Vectors)
    → v.intr_handlers vec_no ≡ none
    → (v' : Vectors) × (register_handler vec_no dpl level handler name v ≡ ok v')
      × IsRegistered vec_no handler (gate_of level dpl) v v'
unfolding register_handler
register_handler_lem vec_no dpl level handler name v free = (
  record v {
    idt = update v.idt vec_no (gate_of level dpl);
    intr_handlers = update v.intr_handlers vec_no (some handler);
    intr_names = update v.intr_names vec_no name;
  },
  rw (ap is_some free) refl,
  record {
    handler_in = rw (==_refl vec_no) refl;
    gate_in = rw (==_refl vec_no) refl;
    other_handlers = λ n ne. rw (==_ne vec_no n (λ q. ne (sym q))) refl;
    other_gates = λ n ne. rw (==_ne vec_no n (λ q. ne (sym q))) refl;
  },
)

-- A device's handler is registered once, and then runs with interrupts off.
pub intr_register_ext_lem :
    (vec_no : ℕ) (handler : Handler) (name : ℕ) (v : Vectors)
    → 0x20 ≤ vec_no
    → vec_no ≤ 0x2f
    → v.intr_handlers vec_no ≡ none
    → IsVectors v
    → (v' : Vectors) × (intr_register_ext vec_no handler name v ≡ ok v')
      × IsRegistered vec_no handler (intr_gate 0) v v'
      × IsVectors v'
unfolding intr_register_ext
intr_register_ext_lem vec_no handler name v low high free safe =
    let run = register_handler_lem vec_no 0 false handler name v free in
    (run.0, in_range run.1, run.2, λ n from to has. gates n from to has (ℕ_discrete n vec_no))
  where
    run :
        (v' : Vectors) × (register_handler vec_no 0 false handler name v ≡ ok v')
        × IsRegistered vec_no handler (intr_gate 0) v v'
    run = register_handler_lem vec_no 0 false handler name v free

    in_range :
        register_handler vec_no 0 false handler name v ≡ ok run.0
        → (assert (leb 0x20 vec_no && leb vec_no 0x2f)
            >> register_handler vec_no 0 false handler name v)
          ≡ ok run.0
    in_range e = assert_then (leb 0x20 vec_no && leb vec_no 0x2f) _ (ground (arith, low, high)) ∙ e

    gates :
        (n : ℕ)
        → 0x20 ≤ n
        → n ≤ 0x2f
        → is_some (run.0.intr_handlers n) ≡ true
        → Dec (n ≡ vec_no)
        → run.0.idt n ≡ intr_gate 0
    gates n from to has (yes q) = ap run.0.idt q ∙ run.2.gate_in
    gates n from to has (no ne) =
        run.2.other_gates n ne ∙ safe n from to (ap is_some (sym (run.2.other_handlers n ne)) ∙ has)

-- A vector that has a handler is not registered again.
pub register_handler-panic :
    (vec_no dpl : ℕ) (level : Bool) (handler : Handler) (name : ℕ) (v : Vectors)
    → is_some (v.intr_handlers vec_no) ≡ true
    → register_handler vec_no dpl level handler name v ≡ panic
unfolding register_handler
register_handler-panic vec_no dpl level handler name v used = rw (used) refl
