-- ===== src/Bitmap/Create.antt =====
-- lib/kernel/bitmap.c: new bitmaps.
use junlge_pint_os.Common.{ℕ, ◌^◌, ◌≤◌, ◌<◌, ◌≡◌, Bool, true, false, ok, length, arith, List, some}
use junlge_pint_os.Bitmap.{Bitmap, elem_cnt, bitmap_set_all, bitmap_create}
use junlge_pint_os.Bitmap.Bit.{bit, IsValid}
use junlge_pint_os.Bitmap.Range.{bitmap_set_multiple_lem}

elements-IsValid :
    (n : ℕ) (words : List ℕ)
    → n < 2 ^ 63
    → elem_cnt n ≤ length words
    → IsValid (record { bit_cnt = n; bits = words })
elements-IsValid n words small enough = omega arith

-- `bitmap_set_all` gives every bit the value.
pub bitmap_set_all_lem :
    (b : Bitmap) (v : Bool)
    → IsValid b
    → (b' : Bitmap) × (bitmap_set_all b v ≡ ok b')
      × IsValid b'
      × (b'.bit_cnt ≡ b.bit_cnt)
      × ((j : ℕ) → j < b.bit_cnt → bit b' j ≡ v)
unfolding bitmap_set_all
bitmap_set_all_lem b v valid =
    let run = bitmap_set_multiple_lem b 0 b.bit_cnt v valid (omega arith) in
    (run.0, run.1, run.2.valid, run.2.same_cnt, λ j h. run.2.inside j (omega arith) (omega arith))

-- With enough memory granted, bitmap_create returns a valid bitmap of the size asked for in which
-- every bit is false.
pub bitmap_create_lem :
    (n : ℕ) (words : List ℕ)
    → n < 2 ^ 63
    → elem_cnt n ≤ length words
    → (b : Bitmap) × (bitmap_create n true (some words) ≡ ok (some b))
      × IsValid b
      × (b.bit_cnt ≡ n)
      × ((j : ℕ) → j < n → bit b j ≡ false)
unfolding bitmap_create
bitmap_create_lem n words small enough =
    let run =
      bitmap_set_all_lem (record { bit_cnt = n; bits = words }) false
        (elements-IsValid n words small enough) in
    (run.0, rw run.1, run.2, run.3, run.4)
