-- ===== src/Bitmap.antt =====
-- lib/kernel/bitmap.c: an array of bits kept in 64-bit elements (`elem_type` is
-- `unsigned long`). A `size_t` sum keeps its wrap. A write outside the element array, which C
-- leaves undefined, changes nothing here; the laws below this module stay inside the array.
pub mod Bit
pub mod Range
pub mod Scan
pub mod Create
use Prim.Native.Nat.{bit_and, bit_or, bit_xor}
use junlge_pint_os.Common.{
  ℕ, zero, suc, ◌+◌, ◌-◌, ◌*◌, ◌/◌, ◌%◌, ◌^◌, Bool, true, false, not, List, [], ◌∷◌, Option, none,
  some, Outcome, ok, panic, ◌>>=◌, ◌>>◌, assert, ltb, leb, ◌==◌, if◌then◌else◌, same, get_or, set,
}

-- `struct bitmap`.
pub record Bitmap : Type 0 where
  pub bit_cnt : ℕ
  pub bits : List ℕ

abbrev pub elem_bits : ℕ
elem_bits = 64

-- `BITMAP_ERROR`, which is SIZE_MAX.
abbrev pub bitmap_error : ℕ
bitmap_error = 2 ^ 64 - 1

abbrev pub add_size : ℕ → ℕ → ℕ
add_size a b = (a + b) % 2 ^ 64

abbrev pub elem_idx : ℕ → ℕ
elem_idx bit_idx = bit_idx / elem_bits

abbrev pub bit_mask : ℕ → ℕ
bit_mask bit_idx = 2 ^ (bit_idx % elem_bits)

abbrev pub elem_cnt : ℕ → ℕ
elem_cnt bit_cnt = add_size bit_cnt (elem_bits - 1) / elem_bits

abbrev pub byte_cnt : ℕ → ℕ
byte_cnt bit_cnt = 8 * elem_cnt bit_cnt

unfoldable pub last_mask : Bitmap → ℕ
last_mask b =
    let last_bits = b.bit_cnt % elem_bits in
    if last_bits == 0 then 2 ^ 64 - 1 else 2 ^ last_bits - 1

-- The element that holds a bit.
abbrev pub element : Bitmap → ℕ → ℕ
element b idx = get_or b.bits (elem_idx idx) 0

unfoldable pub bitmap_size : Bitmap → ℕ
bitmap_size b = b.bit_cnt

unfoldable pub bitmap_mark : Bitmap → ℕ → Bitmap
bitmap_mark b idx = record b {
  bits = set b.bits (elem_idx idx) (bit_or (element b idx) (bit_mask idx));
}

-- The mask's complement is taken within 64 bits.
unfoldable pub bitmap_reset : Bitmap → ℕ → Bitmap
bitmap_reset b idx = record b {
  bits = set b.bits (elem_idx idx) (bit_and (element b idx) (2 ^ 64 - 1 - bit_mask idx));
}

unfoldable pub bitmap_flip : Bitmap → ℕ → Bitmap
bitmap_flip b idx = record b {
  bits = set b.bits (elem_idx idx) (bit_xor (element b idx) (bit_mask idx));
}

unfoldable pub bitmap_set : Bitmap → ℕ → Bool → Outcome Bitmap
unfolding bitmap_mark bitmap_reset
bitmap_set b idx value = do
  assert (ltb idx b.bit_cnt)
  ok (if value then bitmap_mark b idx else bitmap_reset b idx)

unfoldable pub bitmap_test : Bitmap → ℕ → Outcome Bool
bitmap_test b idx = do
  assert (ltb idx b.bit_cnt)
  ok (not (bit_and (element b idx) (bit_mask idx) == 0))

-- The range that the functions on many bits assert.
unfoldable pub assert_range : Bitmap → ℕ → ℕ → Outcome (Unit {0})
assert_range b start cnt = do
  assert (leb start b.bit_cnt)
  assert (leb (add_size start cnt) b.bit_cnt)

-- The loops below have `left` rounds to go at round `i`.
unfoldable pub set_loop : ℕ → Bool → ℕ → ℕ → Bitmap → Outcome Bitmap
set_loop start value zero i b = ok b
set_loop start value (suc left) i b = do
  b' ← bitmap_set b (add_size start i) value
  set_loop start value left (i + 1) b'

unfoldable pub bitmap_set_multiple : Bitmap → ℕ → ℕ → Bool → Outcome Bitmap
unfolding assert_range set_loop
bitmap_set_multiple b start cnt value = do assert_range b start cnt; set_loop start value cnt 0 b

unfoldable pub bitmap_set_all : Bitmap → Bool → Outcome Bitmap
unfolding bitmap_set_multiple bitmap_size
bitmap_set_all b value = bitmap_set_multiple b 0 (bitmap_size b) value

unfoldable pub count_loop : Bitmap → ℕ → Bool → ℕ → ℕ → ℕ → Outcome ℕ
count_loop b start value zero i value_cnt = ok value_cnt
count_loop b start value (suc left) i value_cnt = do
  t ← bitmap_test b (add_size start i)
  count_loop b start value left (i + 1) (if same t value then value_cnt + 1 else value_cnt)

unfoldable pub bitmap_count : Bitmap → ℕ → ℕ → Bool → Outcome ℕ
unfolding assert_range count_loop
bitmap_count b start cnt value = do assert_range b start cnt; count_loop b start value cnt 0 0

unfoldable pub contains_loop : Bitmap → ℕ → Bool → ℕ → ℕ → Outcome Bool
contains_loop b start value zero i = ok false
contains_loop b start value (suc left) i = do
  t ← bitmap_test b (add_size start i)
  let rest = contains_loop b start value left (i + 1)
  if same t value then ok true else rest

unfoldable pub bitmap_contains : Bitmap → ℕ → ℕ → Bool → Outcome Bool
unfolding assert_range contains_loop
bitmap_contains b start cnt value = do assert_range b start cnt; contains_loop b start value cnt 0

unfoldable pub bitmap_any : Bitmap → ℕ → ℕ → Outcome Bool
unfolding bitmap_contains
bitmap_any b start cnt = bitmap_contains b start cnt true

unfoldable pub bitmap_none : Bitmap → ℕ → ℕ → Outcome Bool
unfolding bitmap_contains
bitmap_none b start cnt = do c ← bitmap_contains b start cnt true; ok (not c)

unfoldable pub bitmap_all : Bitmap → ℕ → ℕ → Outcome Bool
unfolding bitmap_contains
bitmap_all b start cnt = do c ← bitmap_contains b start cnt false; ok (not c)

-- `for (i = start; i <= last; i++)` has `last + 1 - start` rounds.
unfoldable pub scan_loop : Bitmap → ℕ → Bool → ℕ → ℕ → Outcome ℕ
scan_loop b cnt value zero i = ok bitmap_error
scan_loop b cnt value (suc left) i = do
  c ← bitmap_contains b i cnt (not value)
  let rest = scan_loop b cnt value left (i + 1)
  if c then rest else ok i

unfoldable pub bitmap_scan : Bitmap → ℕ → ℕ → Bool → Outcome ℕ
unfolding scan_loop bitmap_contains
bitmap_scan b start cnt value = do
  assert (leb start b.bit_cnt)
  let search = scan_loop b cnt value (b.bit_cnt - cnt + 1 - start) start
  if leb cnt b.bit_cnt then search else ok bitmap_error

-- The index found, and the bitmap after the group is flipped.
unfoldable pub bitmap_scan_and_flip : Bitmap → ℕ → ℕ → Bool → Outcome (ℕ × Bitmap)
unfolding bitmap_scan bitmap_set_multiple
bitmap_scan_and_flip b start cnt value = do
  idx ← bitmap_scan b start cnt value
  b' ← if idx == bitmap_error then ok b else bitmap_set_multiple b idx cnt (not value)
  ok (idx, b')

-- `malloc` is an argument: whether the struct is obtained, and the memory for the elements, of
-- any content (`none` is a null pointer). `free (b)` on failure has no effect on the result.
unfoldable pub bitmap_create : ℕ → Bool → Option (List ℕ) → Outcome (Option Bitmap)
unfolding bitmap_set_all
bitmap_create bit_cnt false storage = ok none
bitmap_create bit_cnt true (some words) = do
  b ← bitmap_set_all (record { bit_cnt = bit_cnt; bits = words }) false
  ok (some b)
bitmap_create bit_cnt true none =
    if bit_cnt == 0
    then (do b ← bitmap_set_all (record { bit_cnt = bit_cnt; bits = [] }) false; ok (some b))
    else ok none

-- The struct is 16 bytes; the elements follow it in the block.
unfoldable pub bitmap_buf_size : ℕ → ℕ
bitmap_buf_size bit_cnt = 16 + byte_cnt bit_cnt

unfoldable pub bitmap_create_in_buf : ℕ → List ℕ → ℕ → Outcome Bitmap
unfolding bitmap_buf_size bitmap_set_all
bitmap_create_in_buf bit_cnt words block_size = do
  assert (leb (bitmap_buf_size bit_cnt) block_size)
  bitmap_set_all (record { bit_cnt = bit_cnt; bits = words }) false
