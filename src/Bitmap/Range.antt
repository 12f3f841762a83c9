-- ===== src/Bitmap/Range.antt =====
-- The operations of bitmap.c on a range of bits, against the bit view.
use junlge_pint_os.Common.{
  ℕ, zero, suc, ◌+◌, ◌≤◌, ◌<◌, ◌≡◌, refl, ap, ◌∙◌, Bool, true, false, not, ◌⊎◌, inl, inr, ok, ◌==◌,
  if◌then◌else◌, same, le→leb, Bool-cases, arith,
}
use junlge_pint_os.Bitmap.{
  Bitmap, add_size, assert_range, set_loop, bitmap_set_multiple, count_loop, bitmap_count,
  contains_loop, bitmap_contains, bitmap_all,
}
use junlge_pint_os.Bitmap.Bit.{bit, IsValid, bitmap_set_lem, bitmap_test_lem}
use mathlib.Core.Path.{subst₂}
use native.Mathlib.Nat.{add-zero}
use native.Mathlib.Decide.{ℕ_discrete}

-- `b'` is `b` with the bits from `start` to `stop`, exclusive, at `v`.
pub record Fills (b : Bitmap) (start stop : ℕ) (v : Bool) (b' : Bitmap) : Type 0 where
  pub valid : IsValid b'
  pub same_cnt : b'.bit_cnt ≡ b.bit_cnt
  pub inside : (j : ℕ) → start ≤ j → j < stop → bit b' j ≡ v
  pub outside : (j : ℕ) → (j < start) ⊎ (stop ≤ j) → bit b' j ≡ bit b j

-- In a valid range no `size_t` sum wraps.
module _ (b : Bitmap) (valid : IsValid b) where
  pub no_wrap : (start cnt : ℕ) → start + cnt ≤ b.bit_cnt → add_size start cnt ≡ start + cnt
  no_wrap start cnt h = omega (arith, valid.small)

  pub assert_range_lem :
      (start cnt : ℕ) → start + cnt ≤ b.bit_cnt → assert_range b start cnt ≡ ok tt
  unfolding assert_range
  assert_range_lem start cnt h =
      rw (
        no_wrap start cnt h,
        le→leb start b.bit_cnt (omega arith),
        le→leb (start + cnt) b.bit_cnt h,
      )

Fills-step :
    (b b' b'' : Bitmap) (start stop : ℕ) (v : Bool)
    → start < stop
    → b'.bit_cnt ≡ b.bit_cnt
    → ((j : ℕ) → bit b' j ≡ (if start == j then v else bit b j))
    → Fills b' (start + 1) stop v b''
    → Fills b start stop v b''
Fills-step b b' b'' start stop v below cnt one rest = record {
  valid = rest.valid;
  same_cnt = rest.same_cnt ∙ cnt;
  inside = λ j p q. ground (arith, one j, rest.inside j, rest.outside j);
  outside = λ j p. ground (arith, one j, rest.outside j);
}

set_loop_lem :
    (start : ℕ) (v : Bool) (left i : ℕ) (b : Bitmap)
    → IsValid b
    → start + i + left ≤ b.bit_cnt
    → (b' : Bitmap) × (set_loop start v left i b ≡ ok b')
      × Fills b (start + i) (start + i + left) v b'
unfolding set_loop
set_loop_lem start v zero i b valid h = (
  b,
  refl,
  record {
    valid = valid;
    same_cnt = refl;
    inside = λ j p q. absurd (omega arith);
    outside = λ j p. refl;
  },
)
set_loop_lem start v (suc left) i b valid h =
    let one = bitmap_set_lem b valid (start + i) (omega arith) v in
    let rest = set_loop_lem start v left (i + 1) one.0 one.2 (omega (arith, one.3)) in
    (
      rest.0,
      rw (no_wrap b valid start i (omega arith), one.1) rest.1,
      Fills-step b one.0 rest.0 (start + i) (start + i + suc left) v (omega arith) one.3 one.4
          (subst₂ (λ lo hi. Fills one.0 lo hi v rest.0) (omega arith) (omega arith) rest.2),
    )

-- bitmap_set_multiple on a range inside a valid bitmap returns; exactly the bits of the range have
-- the value, and the others are as before.
pub bitmap_set_multiple_lem :
    (b : Bitmap) (start cnt : ℕ) (v : Bool)
    → IsValid b
    → start + cnt ≤ b.bit_cnt
    → (b' : Bitmap) × (bitmap_set_multiple b start cnt v ≡ ok b') × Fills b start (start + cnt) v b'
unfolding bitmap_set_multiple
bitmap_set_multiple_lem b start cnt v valid h =
    let run = set_loop_lem start v cnt 0 b valid (omega arith) in
    (
      run.0,
      rw (assert_range_lem b valid start cnt h) run.1,
      subst₂ (λ lo hi. Fills b lo hi v run.0) (omega arith) (omega arith) run.2,
    )

-- What a search for the value `v` from `start` to `stop`, exclusive, has found.
pub record Found (b : Bitmap) (start stop : ℕ) (v : Bool) (r : Bool) : Type 0 where
  pub hit : r ≡ true → (j : ℕ) × (start ≤ j) × (j < stop) × (bit b j ≡ v)
  pub miss : r ≡ false → (j : ℕ) → start ≤ j → j < stop → bit b j ≡ not v

Found-step_hit :
    (b : Bitmap) (start stop : ℕ) (v : Bool)
    → start < stop
    → same (bit b start) v ≡ true
    → Found b start stop v true
Found-step_hit b start stop v below e = record {
  hit = λ _. (start, omega arith, below, ground arith);
  miss = λ p. cc;
}

Found-step_miss :
    (b : Bitmap) (start stop : ℕ) (v r : Bool)
    → same (bit b start) v ≡ false
    → Found b (start + 1) stop v r
    → Found b start stop v r
Found-step_miss b start stop v r e rest = record {
  hit = λ p. let w = rest.hit p in (w.0, omega (arith, w.1), w.2, w.3);
  miss = λ p j lo hi. elim (ℕ_discrete start j) [
    | yes q ↦ rw (← q) (ground arith)
    | no q ↦ rest.miss p j (omega arith) hi
  ];
}

contains_loop_lem :
    (b : Bitmap) (start : ℕ) (v : Bool) (left i : ℕ)
    → IsValid b
    → start + i + left ≤ b.bit_cnt
    → (r : Bool) × (contains_loop b start v left i ≡ ok r)
      × Found b (start + i) (start + i + left) v r
unfolding contains_loop
contains_loop_lem b start v zero i valid h =
    (false, refl, record { hit = λ p. cc; miss = λ _ j p q. absurd (omega arith) })
contains_loop_lem b start v (suc left) i valid h = elim (Bool-cases (same (bit b (start + i)) v)) [
  | inl e ↦ (
    true,
    rw (
      no_wrap b valid start i (omega arith),
      bitmap_test_lem b valid (start + i) (omega arith),
      e,
    ),
    Found-step_hit b (start + i) (start + i + suc left) v (omega arith) e,
  )
  | inr e ↦
      let rest = contains_loop_lem b start v left (i + 1) valid (omega arith) in
      (
        rest.0,
        rw
            (
              no_wrap b valid start i (omega arith),
              bitmap_test_lem b valid (start + i) (omega arith),
              e,
            )
            rest.1,
        Found-step_miss b (start + i) (start + i + suc left) v rest.0 e
            (subst₂ (λ lo hi. Found b lo hi v rest.0) (omega arith) (omega arith) rest.2),
      )
]

-- bitmap_contains on a range inside a valid bitmap returns; true means that some bit of the range
-- has the value, false that none has.
pub bitmap_contains_lem :
    (b : Bitmap) (start cnt : ℕ) (v : Bool)
    → IsValid b
    → start + cnt ≤ b.bit_cnt
    → (r : Bool) × (bitmap_contains b start cnt v ≡ ok r) × Found b start (start + cnt) v r
unfolding bitmap_contains
bitmap_contains_lem b start cnt v valid h =
    let run = contains_loop_lem b start v cnt 0 valid (omega arith) in
    (
      run.0,
      rw (assert_range_lem b valid start cnt h) run.1,
      subst₂ (λ lo hi. Found b lo hi v run.0) (omega arith) (omega arith) run.2,
    )

-- The number of bits of value `v` among the `n` bits from `start`.
pub count_bits : Bitmap → ℕ → Bool → ℕ → ℕ
count_bits b start v zero = 0
count_bits b start v (suc n) =
    (if same (bit b start) v then 1 else 0) + count_bits b (start + 1) v n

count_loop_lem :
    (b : Bitmap) (start : ℕ) (v : Bool) (left i acc : ℕ)
    → IsValid b
    → start + i + left ≤ b.bit_cnt
    → count_loop b start v left i acc ≡ ok (acc + count_bits b (start + i) v left)
unfolding count_loop count_bits
count_loop_lem b start v zero i acc valid h = ap ok (omega arith)
count_loop_lem b start v (suc left) i acc valid h =
    rw
      (
        no_wrap b valid start i (omega arith),
        bitmap_test_lem b valid (start + i) (omega arith),
        count_loop_lem b start v left (i + 1) (if same (bit b (start + i)) v then acc + 1 else acc)
            valid (omega arith),
      )
      (ap ok (regroup (same (bit b (start + i)) v)))
  where
    shift : count_bits b (start + (i + 1)) v left ≡ count_bits b (start + i + 1) v left
    shift = ap (λ k. count_bits b k v left) (omega arith)

    regroup :
        (t : Bool)
        → (if t then acc + 1 else acc) + count_bits b (start + (i + 1)) v left
          ≡ acc + ((if t then 1 else 0) + count_bits b (start + i + 1) v left)
    regroup true = omega (arith, shift)
    regroup false = omega (arith, shift)

-- `bitmap_count` on a range inside the bitmap is the number of its bits with the value.
pub bitmap_count_lem :
    (b : Bitmap) (start cnt : ℕ) (v : Bool)
    → IsValid b
    → start + cnt ≤ b.bit_cnt
    → bitmap_count b start cnt v ≡ ok (count_bits b start v cnt)
unfolding bitmap_count
bitmap_count_lem b start cnt v valid h =
    rw (assert_range_lem b valid start cnt h, count_loop_lem b start v cnt 0 0 valid (omega arith))
      (ap ok (omega (arith, ap (λ k. count_bits b k v cnt) (add-zero start))))

count_bits_complement :
    (b : Bitmap) (start n : ℕ) → count_bits b start true n + count_bits b start false n ≡ n
unfolding count_bits
count_bits_complement b start zero = refl
count_bits_complement b start (suc n) = elim (Bool-cases (bit b start)) [
  | inl e ↦ rw e (omega (arith, count_bits_complement b (start + 1) n))
  | inr e ↦ rw e (omega (arith, count_bits_complement b (start + 1) n))
]

-- On a range inside a valid bitmap, bitmap_count returns for both values, and the two counts add
-- up to the length of the range.
pub bitmap_count_complement :
    (b : Bitmap) (start cnt : ℕ)
    → IsValid b
    → start + cnt ≤ b.bit_cnt
    → (m n : ℕ) × (bitmap_count b start cnt true ≡ ok m)
      × (bitmap_count b start cnt false ≡ ok n)
      × (m + n ≡ cnt)
bitmap_count_complement b start cnt valid h = (
  count_bits b start true cnt,
  count_bits b start false cnt,
  bitmap_count_lem b start cnt true valid h,
  bitmap_count_lem b start cnt false valid h,
  count_bits_complement b start cnt,
)

-- `bitmap_all` on a range inside the bitmap answers true only if every bit of it is set, and
-- false only if some bit of it is clear.
pub bitmap_all_lem :
    (b : Bitmap) (start cnt : ℕ)
    → IsValid b
    → start + cnt ≤ b.bit_cnt
    → (r : Bool) × (bitmap_all b start cnt ≡ ok r)
      × (r ≡ true → (j : ℕ) → start ≤ j → j < start + cnt → bit b j ≡ true)
      × (r ≡ false → (j : ℕ) × (start ≤ j) × (j < start + cnt) × (bit b j ≡ false))
unfolding bitmap_all
bitmap_all_lem b start cnt valid h =
    let run = bitmap_contains_lem b start cnt false valid h in
    (not run.0, rw run.1, λ p. run.2.miss (ground arith), λ p. run.2.hit (ground arith))
