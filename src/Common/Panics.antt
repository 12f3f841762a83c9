-- ===== src/Common/Panics.antt =====
-- What a function returns that stops the kernel when an ASSERT fails.
use mathlib.Core.Path.{◌≡◌, refl}
use mathlib.Core.Bool.{Bool, true, false}

-- `panic` is a failed ASSERT, a PANIC or NOT_REACHED.
pub data Outcome {ℓ} (A : Type ℓ) : Type ℓ where
  panic : Outcome A
  ok : A → Outcome A

infixl 5 ◌>>=◌ ◌>>◌
abbrev pub ◌>>=◌ {ℓ κ} :
    {A : Type ℓ} {R : Type κ} (run : Outcome A) (next : A → Outcome R) → Outcome R
panic >>= next = panic
ok x >>= next = next x

abbrev pub assert : Bool → Outcome (Unit {0})
assert false = panic
assert true = ok tt

-- The second computation, if the first one returns.
abbrev pub ◌>>◌ {ℓ} : {R : Type ℓ} (run : Outcome (Unit {0})) (rest : Outcome R) → Outcome R
◌>>◌ run rest = ◌>>=◌ run (λ done. rest)

-- An assertion that holds is passed.
pub assert_then {ℓ} :
    {R : Type ℓ} (b : Bool) (rest : Outcome R) → b ≡ true → (assert b >> rest) ≡ rest
assert_then true rest h = refl
assert_then false rest h = cc

-- What a sequence returns, its second computation returns.
pub bind-ok {ℓ κ} :
    {A : Type ℓ} {R : Type κ} (run : Outcome A) (next : A → Outcome R) (r : R)
    → (run >>= next) ≡ ok r
    → (x : A) × (run ≡ ok x) × (next x ≡ ok r)
bind-ok panic next r h = cc
bind-ok (ok x) next r h = (x, refl, h)

pub assert-ok : (b : Bool) (u : Unit {0}) → assert b ≡ ok u → b ≡ true
assert-ok true u h = refl
assert-ok false u h = cc

pub ok-injective {ℓ} : {A : Type ℓ} {a b : A} → ok a ≡ ok b → a ≡ b
ok-injective h = cc
