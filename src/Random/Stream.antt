-- ===== src/Random/Stream.antt =====
-- lib/random.c: the bytes of the generator as the key stream of RC4, described by relations.
use junlge_pint_os.Common.{
  ℕ, zero, suc, ◌+◌, ◌/◌, ◌%◌, ◌^◌, ◌<◌, ◌≡◌, ◌≢◌, ◌⊎◌, refl, ◌∙◌, true, false, List, [], ◌∷◌,
  length, arith, inl, inr, Bool-cases,
}
use junlge_pint_os.Random.{
  Prng, swap_byte, seed_byte, identity_loop, next_j, key_loop, random_init, advance, out,
  bytes_loop, random_bytes,
}
use junlge_pint_os.Random.Permutes.{
  IsPermutation, IsPrng, started, identity_loop_lem, random_bytes-IsPrng,
}

-- The elements of `a` and `b` have changed places.
pub record Exchanged (a b : ℕ) (s s' : ℕ → ℕ) : Type 0 where
  pub at_a : s' a ≡ s b
  pub at_b : s' b ≡ s a
  pub elsewhere : (u : ℕ) → a ≢ u → b ≢ u → s' u ≡ s u

-- The key schedule from index `i` on: `j` moves on by the element at `i` and a byte of the seed,
-- and the elements of `i` and `j` change places.
pub data Keyed (seed : ℕ) : ℕ → ℕ → (ℕ → ℕ) → (ℕ → ℕ) → Type 0 where
  done : (i j : ℕ) (s : ℕ → ℕ) → i ≡ 256 → Keyed seed i j s s
  key :
      (i j j' : ℕ) (s s' last : ℕ → ℕ)
      → i < 256
      → j' ≡ (j + s i + seed / 256 ^ (i % 4) % 256) % 256
      → Exchanged i j' s s'
      → Keyed seed (i + 1) j' s' last
      → Keyed seed i j s last

-- A generator after seeding: the key schedule was run on the array of all bytes in order.
pub record Seeded (seed : ℕ) (p : Prng) : Type 0 where
  pub first : ℕ → ℕ
  pub in_order : (u : ℕ) → u < 256 → first u ≡ u
  pub keyed : Keyed seed 0 0 first p.s
  pub i_zero : p.s_i ≡ 0
  pub j_zero : p.s_j ≡ 0

-- One byte of the stream.
pub record Round (p : Prng) (byte : ℕ) (p' : Prng) : Type 0 where
  pub i_next : p'.s_i ≡ (p.s_i + 1) % 256
  pub j_next : p'.s_j ≡ (p.s_j + p.s p'.s_i) % 256
  pub exchanged : Exchanged p'.s_i p'.s_j p.s p'.s
  pub is_byte : byte ≡ p'.s ((p'.s p'.s_i + p'.s p'.s_j) % 256)

pub data Rounds : Prng → List ℕ → Prng → Type 0 where
  no_round : (p : Prng) → Rounds p [] p
  round :
      (p p' last : Prng) (byte : ℕ) (bytes : List ℕ)
      → Round p byte p'
      → Rounds p' bytes last
      → Rounds p (byte ∷ bytes) last

swap_byte-Exchanged : (a b : ℕ) (s : ℕ → ℕ) → Exchanged a b s (swap_byte a b s)
unfolding swap_byte
swap_byte-Exchanged a b s = record {
  at_a = ground arith;
  at_b = ground arith;
  elsewhere = λ u na nb. ground (arith, na, nb);
}

next_j_lem :
    (seed i j : ℕ) (s : ℕ → ℕ) → next_j seed i j s ≡ (j + s i + seed / 256 ^ (i % 4) % 256) % 256
unfolding next_j seed_byte
next_j_lem seed i j s = omega arith

key_loop-Keyed :
    (rounds seed i j : ℕ) (s : ℕ → ℕ)
    → i + rounds ≡ 256
    → Keyed seed i j s (key_loop rounds seed i j s)
unfolding key_loop
key_loop-Keyed zero seed i j s e = done i j s (omega (arith, e))
key_loop-Keyed (suc rounds) seed i j s e =
    key i j (next_j seed i j s) s (swap_byte i (next_j seed i j s) s) _ (omega (arith, e))
      (next_j_lem seed i j s) (swap_byte-Exchanged i (next_j seed i j s) s)
      (key_loop-Keyed rounds seed (i + 1) (next_j seed i j s) _ (omega (arith, e)))

random_init-Seeded : (seed : ℕ) (p : Prng) → Seeded seed (random_init seed p)
unfolding random_init
random_init-Seeded seed p = record {
  first = identity_loop 256 0 p.s;
  in_order =
      λ u lt. identity_loop_lem 256 0 p.s refl (λ w below. absurd (omega (arith, below))) u lt;
  keyed = key_loop-Keyed 256 seed 0 0 (identity_loop 256 0 p.s) refl;
  i_zero = refl;
  j_zero = refl;
}

advance-Round : (p : Prng) → Round p (out (advance p)) (advance p)
unfolding advance out
advance-Round p = record {
  i_next = refl;
  j_next = refl;
  exchanged = swap_byte-Exchanged _ _ p.s;
  is_byte = refl;
}

bytes_loop-Rounds : (size : ℕ) (p : Prng) → Rounds p (bytes_loop size p).0 (bytes_loop size p).1
unfolding bytes_loop
bytes_loop-Rounds zero p = no_round p
bytes_loop-Rounds (suc size) p =
    round p (advance p) _ _ _ (advance-Round p) (bytes_loop-Rounds size (advance p))

bytes_loop-inited : (size : ℕ) (p : Prng) → (bytes_loop size p).1.inited ≡ p.inited
unfolding bytes_loop advance
bytes_loop-inited zero p = refl
bytes_loop-inited (suc size) p = bytes_loop-inited size (advance p)

started-inited : (p : Prng) → (started p).inited ≡ true
unfolding random_init
started-inited p = elim (Bool-cases p.inited) [
  | inl e ↦ ground (arith, e)
  | inr e ↦ ground (arith, e)
]

random_bytes-Rounds :
    (size : ℕ) (p : Prng) → Rounds (started p) (random_bytes size p).0 (random_bytes size p).1
unfolding random_bytes
random_bytes-Rounds size p = bytes_loop-Rounds size (started p)

random_bytes-inited : (size : ℕ) (p : Prng) → (random_bytes size p).1.inited ≡ true
unfolding random_bytes
random_bytes-inited size p = bytes_loop-inited size (started p) ∙ started-inited p

-- Where the stream of a call starts.
abbrev pub Origin : Prng → Prng → Type 0
Origin p start = (p.inited ≡ true) × (start ≡ p) ⊎ (p.inited ≡ false) × Seeded 0 start

started-Origin : (p : Prng) → Origin p (started p)
unfolding random_init
started-Origin p = elim (Bool-cases p.inited) [
  | inl e ↦ inl (e, ground (arith, e))
  | inr e ↦ inr (e, fresh e)
]
  where
    fresh : p.inited ≡ false → Seeded 0 (started p)
    fresh e = rw e (random_init-Seeded 0 p)

-- What one call leaves behind: the bytes continue the stream of a running generator, or start the
-- stream of seed 0.
pub record IsStream (p : Prng) (size : ℕ) (bytes : List ℕ) (p' : Prng) : Type 0 where
  pub start : Prng
  pub origin : Origin p start
  pub rounds : Rounds start bytes p'
  pub as_many : length bytes ≡ size
  pub stays : p'.inited ≡ true
  pub permutes : IsPermutation p'.s

-- From a generator whose indices are below 256, and whose array is a permutation of the bytes if
-- it is initialised, random_bytes gives as many values as asked for, which are the output of as
-- many rounds of RC4: from the generator itself if it is initialised, and otherwise from the array
-- and indices that the key schedule of RC4 gives for seed 0. It leaves the generator that these
-- rounds end in, initialised, with a permutation of the bytes and indices below 256, so that the
-- next call continues the stream.
pub random_bytes_lem :
    (size : ℕ) (p : Prng)
    → IsPrng p
    → IsStream p size (random_bytes size p).0 (random_bytes size p).1
      × IsPrng (random_bytes size p).1
random_bytes_lem size p v =
    let r = random_bytes-IsPrng size p v in
    (
      record {
        start = started p;
        origin = started-Origin p;
        rounds = random_bytes-Rounds size p;
        as_many = r.0;
        stays = random_bytes-inited size p;
        permutes = r.2.holds (random_bytes-inited size p);
      },
      r.2,
    )
