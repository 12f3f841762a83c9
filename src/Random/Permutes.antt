-- ===== src/Random/Permutes.antt =====
-- lib/random.c: the array of the generator as a permutation of the bytes.
use native.Mathlib.Nat.{pow-succ'}
use native.Mathlib.Decide.{ℕ_discrete}
use junlge_pint_os.Common.{
  ℕ, zero, suc, ◌+◌, ◌%◌, ◌^◌, ◌<◌, ◌≡◌, refl, sym, ap, ◌∙◌, subst, true, List, [], ◌∷◌, ◌==◌,
  if◌then◌else◌, ==_refl, ==_ne, arith, All, length, Bool-cases, inl, inr,
}
use junlge_pint_os.Threads.State.{update}
use junlge_pint_os.Random.{
  Prng, swap_byte, identity_loop, next_j, key_loop, random_init, advance, out, bytes_loop,
  random_bytes, from_bytes, random_ulong,
}

pub record IsPermutation (s : ℕ → ℕ) : Type 0 where
  pub byte : (i : ℕ) → i < 256 → s i < 256
  pub once : (i j : ℕ) → i < 256 → j < 256 → s i ≡ s j → i ≡ j

-- An initialised generator holds a permutation.
pub record IsPrng (p : Prng) : Type 0 where
  pub s_i_in : p.s_i < 256
  pub s_j_in : p.s_j < 256
  pub holds : p.inited ≡ true → IsPermutation p.s

swap_byte-cases :
    (a b : ℕ) (s : ℕ → ℕ) (u : ℕ)
    → swap_byte a b s u ≡ s (if b == u then a else if a == u then b else u)
unfolding swap_byte
swap_byte-cases a b s u = ground arith

-- Where a swap takes the element of an index from.
abbrev source : ℕ → ℕ → ℕ → ℕ
source a b u = if b == u then a else if a == u then b else u

source-lt : (a b u : ℕ) → a < 256 → b < 256 → u < 256 → source a b u < 256
source-lt a b u ha hb hu = ground (arith, ha, hb, hu)

source-injective : (a b u v : ℕ) → source a b u ≡ source a b v → u ≡ v
source-injective a b u v e = ground (arith, e)

swap_byte-IsPermutation :
    (a b : ℕ) (s : ℕ → ℕ) → a < 256 → b < 256 → IsPermutation s → IsPermutation (swap_byte a b s)
swap_byte-IsPermutation a b s ha hb v = record {
  byte = λ u hu. rw (swap_byte-cases a b s u) (v.byte (source a b u) (source-lt a b u ha hb hu));
  once = λ u w hu hw e. source-injective a b u w (
      v.once (source a b u) (source a b w) (source-lt a b u ha hb hu) (source-lt a b w ha hb hw)
        (sym (swap_byte-cases a b s u) ∙ e ∙ swap_byte-cases a b s w));
}

pub identity_loop_lem :
    (rounds i : ℕ) (s : ℕ → ℕ)
    → i + rounds ≡ 256
    → ((u : ℕ) → u < i → s u ≡ u)
    → (u : ℕ) → u < 256
    → identity_loop rounds i s u ≡ u
unfolding identity_loop
identity_loop_lem zero i s e h u lt = h u (omega (arith, e, lt))
identity_loop_lem (suc rounds) i s e h u lt =
    identity_loop_lem rounds (i + 1) (update s i (i % 256)) (omega (arith, e))
      (λ w below. one_more w below) u lt
  where
    one_more : (w : ℕ) → w < i + 1 → update s i (i % 256) w ≡ w
    one_more w below = elim (ℕ_discrete i w) [
      | yes q ↦ rw (← q, ==_refl i) (omega (arith, e))
      | no ne ↦ rw (==_ne i w ne) (h w (omega (arith, below, ne)))
    ]

key_loop-IsPermutation :
    (rounds seed i j : ℕ) (s : ℕ → ℕ)
    → i + rounds ≡ 256
    → IsPermutation s
    → IsPermutation (key_loop rounds seed i j s)
unfolding key_loop next_j
key_loop-IsPermutation zero seed i j s e v = v
key_loop-IsPermutation (suc rounds) seed i j s e v =
    key_loop-IsPermutation rounds seed (i + 1) _ _ (omega (arith, e))
      (swap_byte-IsPermutation i _ s (omega (arith, e)) (omega arith) v)

-- After random_init with any seed, whatever the state was, the array of the generator holds each
-- byte once at the indices below 256, and the two indices are below 256.
pub random_init-IsPrng :
    (seed : ℕ) (p : Prng) → IsPrng (random_init seed p) × IsPermutation (random_init seed p).s
unfolding random_init
random_init-IsPrng seed p =
    let v = key_loop-IsPermutation 256 seed 0 0 (identity_loop 256 0 p.s) refl identity in
    (record { s_i_in = omega arith; s_j_in = omega arith; holds = λ e. v }, v)
  where
    id : (u : ℕ) → u < 256 → identity_loop 256 0 p.s u ≡ u
    id u lt = identity_loop_lem 256 0 p.s refl (λ w below. absurd (omega (arith, below))) u lt

    identity : IsPermutation (identity_loop 256 0 p.s)
    identity = record {
      byte = λ u lt. rw (id u lt) lt;
      once = λ u w lt lt' e. sym (id u lt) ∙ e ∙ id w lt';
    }

abbrev pub started : Prng → Prng
started p = if p.inited then p else random_init 0 p

-- An initialised generator.
IsRunning : Prng → Type 0
IsRunning p = (p.s_i < 256) × (p.s_j < 256) × IsPermutation p.s

started-IsRunning : (p : Prng) → IsPrng p → IsRunning (started p)
unfolding IsRunning random_init
started-IsRunning p v = elim (Bool-cases p.inited) [
  | inl e ↦ rw e (v.s_i_in, v.s_j_in, v.holds e)
  | inr e ↦ let r = random_init-IsPrng 0 p in rw e (r.0.s_i_in, r.0.s_j_in, r.1)
]

advance-IsRunning : (p : Prng) → IsRunning p → IsRunning (advance p)
unfolding advance IsRunning
advance-IsRunning p v =
    (omega arith, omega arith, swap_byte-IsPermutation _ _ p.s (omega arith) (omega arith) v.2)

out-lt : (p : Prng) → IsRunning p → out p < 256
unfolding out IsRunning
out-lt p v = v.2.byte _ (omega arith)

bytes_loop_lem :
    (size : ℕ) (p : Prng)
    → IsRunning p
    → (length (bytes_loop size p).0 ≡ size)
      × All (λ b. b < 256) (bytes_loop size p).0
      × IsRunning (bytes_loop size p).1
unfolding bytes_loop
bytes_loop_lem zero p v = (refl, tt, v)
bytes_loop_lem (suc size) p v =
    let rest = bytes_loop_lem size (advance p) (advance-IsRunning p v) in
    (ap suc rest.0, (out-lt (advance p) (advance-IsRunning p v), rest.1), rest.2)

-- From a generator whose indices are below 256, and whose array is a permutation of the bytes if
-- it is initialised, random_bytes gives as many values as asked for, each of them a byte, and
-- leaves such a generator.
pub random_bytes-IsPrng :
    (size : ℕ) (p : Prng)
    → IsPrng p
    → (length (random_bytes size p).0 ≡ size)
      × All (λ b. b < 256) (random_bytes size p).0
      × IsPrng (random_bytes size p).1
unfolding random_bytes IsRunning
random_bytes-IsPrng size p v =
    let r = bytes_loop_lem size (started p) (started-IsRunning p v) in
    (r.0, r.1, record { s_i_in = r.2.0; s_j_in = r.2.1; holds = λ e. r.2.2 })

from_bytes-lt : (xs : List ℕ) → All (λ b. b < 256) xs → from_bytes xs < 256 ^ length xs
unfolding from_bytes
from_bytes-lt [] h = omega arith
from_bytes-lt (x ∷ xs) h = omega (arith, h.0, from_bytes-lt xs h.1, pow-succ' 256 (length xs))

-- From a generator whose indices are below 256, and whose array is a permutation of the bytes if
-- it is initialised, random_ulong gives a number below 2^64 and leaves such a generator.
pub random_ulong_lem :
    (p : Prng) → IsPrng p → ((random_ulong p).0 < 2 ^ 64) × IsPrng (random_ulong p).1
unfolding random_ulong
random_ulong_lem p v =
    let r = random_bytes-IsPrng 8 p v in
    (
      subst (λ n. from_bytes (random_bytes 8 p).0 < 256 ^ n) r.0
          (from_bytes-lt (random_bytes 8 p).0 r.1),
      r.2,
    )
