-- ===== src/Random.antt =====
-- lib/random.c: the pseudo-random generator, RC4. The array `s[256]` is a function on indices below
-- 256; bytes and indices of type uint8_t wrap mod 256.
pub mod Permutes
pub mod Stream
use junlge_pint_os.Common.{
  ℕ, zero, suc, ◌+◌, ◌*◌, ◌/◌, ◌%◌, ◌^◌, Bool, true, false, List, [], ◌∷◌, ◌==◌, if◌then◌else◌,
}
use junlge_pint_os.Threads.State.{update}

-- The static variables.
pub record Prng : Type 0 where
  pub s : ℕ → ℕ
  pub s_i : ℕ
  pub s_j : ℕ
  pub inited : Bool

-- On two elements of `s`, given by their indices.
unfoldable pub swap_byte : ℕ → ℕ → (ℕ → ℕ) → ℕ → ℕ
swap_byte a b s = update (update s a (s b)) b (s a)

-- `seedp[i]`: byte `i` of the 32-bit seed, the lowest first.
unfoldable pub seed_byte : ℕ → ℕ → ℕ
seed_byte seed i = seed / 256 ^ i % 256

-- The two loops of `random_init`, over the rounds that are left.
unfoldable pub identity_loop : ℕ → ℕ → (ℕ → ℕ) → ℕ → ℕ
identity_loop zero i s = s
identity_loop (suc rounds) i s = identity_loop rounds (i + 1) (update s i (i % 256))

unfoldable pub next_j : ℕ → ℕ → ℕ → (ℕ → ℕ) → ℕ
next_j seed i j s = (j + (s i + seed_byte seed (i % 4))) % 256

unfoldable pub key_loop : ℕ → ℕ → ℕ → ℕ → (ℕ → ℕ) → ℕ → ℕ
key_loop zero seed i j s = s
key_loop (suc rounds) seed i j s =
    key_loop rounds seed (i + 1) (next_j seed i j s) (swap_byte i (next_j seed i j s) s)

unfoldable pub random_init : ℕ → Prng → Prng
random_init seed p = record {
  s = key_loop 256 seed 0 0 (identity_loop 256 0 p.s);
  s_i = 0;
  s_j = 0;
  inited = true;
}

-- One round of the loop of `random_bytes`: the new state, and the byte.
unfoldable pub advance : Prng → Prng
advance p =
    let i = (p.s_i + 1) % 256 in
    let j = (p.s_j + p.s i) % 256 in record p { s_i = i; s_j = j; s = swap_byte i j p.s }

unfoldable pub out : Prng → ℕ
out p = p.s ((p.s p.s_i + p.s p.s_j) % 256)

unfoldable pub bytes_loop : ℕ → Prng → List ℕ × Prng
bytes_loop zero p = ([], p)
bytes_loop (suc size) p =
    let rest = bytes_loop size (advance p) in (out (advance p) ∷ rest.0, rest.1)

unfoldable pub random_bytes : ℕ → Prng → List ℕ × Prng
random_bytes size p = bytes_loop size (if p.inited then p else random_init 0 p)

-- Bytes as a number, the lowest first.
unfoldable pub from_bytes : List ℕ → ℕ
from_bytes [] = 0
from_bytes (x ∷ xs) = x + 256 * from_bytes xs

unfoldable pub random_ulong : Prng → ℕ × Prng
random_ulong p = let r = random_bytes 8 p in (from_bytes r.0, r.1)
