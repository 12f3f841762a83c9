-- ===== src/Tests/Bitmaps.antt =====
-- lib/kernel/bitmap.c on a bitmap of ten bits in one element.
use junlge_pint_os.Common.{
  ℕ, ◌+◌, ◌≤◌, ◌<◌, ◌≡◌, ◌≢◌, refl, Bool, true, false, not, ◌⊎◌, ok, panic, ◌==◌, if◌then◌else◌, [],
  ◌∷◌, some, arith,
}
use junlge_pint_os.Bitmap.{
  Bitmap, bitmap_error, bitmap_flip, bitmap_set, bitmap_test, bitmap_set_multiple, bitmap_count,
  bitmap_contains, bitmap_scan, bitmap_scan_and_flip, bitmap_create, bitmap_all,
}
use junlge_pint_os.Bitmap.Bit.{bit, IsValid, bit-bitmap_flip, bitmap_set_lem}
use junlge_pint_os.Bitmap.Range.{
  Fills, Found, bitmap_set_multiple_lem, bitmap_contains_lem, bitmap_count_complement,
  bitmap_all_lem,
}
use junlge_pint_os.Bitmap.Scan.{Scanned, bitmap_scan_lem, bitmap_scan_and_flip_lem}
use junlge_pint_os.Bitmap.Create.{bitmap_create_lem}

-- Bits 1, 2 and 5.
abbrev ten : Bitmap
ten = record { bit_cnt = 10; bits = 0b100110 ∷ [] }

ten-IsValid : IsValid ten
ten-IsValid = omega arith

scan_ten : bitmap_scan ten 1 3 false ≡ ok 6
unfolding bitmap_scan bitmap_test
scan_ten = refl

scan_ten_error : bitmap_scan ten 0 5 false ≡ ok bitmap_error
unfolding bitmap_scan bitmap_test
scan_ten_error = refl

flip_ten : bitmap_scan_and_flip ten 0 2 false ≡ ok (3, record ten { bits = 0b111110 ∷ [] })
unfolding bitmap_scan_and_flip bitmap_test bitmap_set bitmap_set_multiple bitmap_scan
flip_ten = refl

test_outside : bitmap_test ten 10 ≡ panic
unfolding bitmap_test
test_outside = refl

create_ten :
    bitmap_create 10 true (some (77 ∷ [])) ≡ ok (some (record { bit_cnt = 10; bits = 0 ∷ [] }))
unfolding bitmap_create bitmap_set
create_ten = refl

bit-bitmap_flip_run : bit (bitmap_flip ten 3) 5 ≡ (if 3 == 5 then not (bit ten 3) else bit ten 5)
bit-bitmap_flip_run = bit-bitmap_flip ten ten-IsValid 3 (omega arith) 5

bitmap_set_example :
    (b' : Bitmap) × (bitmap_set ten 3 true ≡ ok b')
    × IsValid b'
    × (b'.bit_cnt ≡ 10)
    × ((j : ℕ) → bit b' j ≡ (if 3 == j then true else bit ten j))
bitmap_set_example = bitmap_set_lem ten ten-IsValid 3 (omega arith) true

bitmap_set_multiple_run :
    (b' : Bitmap) × (bitmap_set_multiple ten 3 5 true ≡ ok b') × Fills ten 3 (3 + 5) true b'
bitmap_set_multiple_run = bitmap_set_multiple_lem ten 3 5 true ten-IsValid (omega arith)

bitmap_contains_run :
    (r : Bool) × (bitmap_contains ten 3 5 true ≡ ok r) × Found ten 3 (3 + 5) true r
bitmap_contains_run = bitmap_contains_lem ten 3 5 true ten-IsValid (omega arith)

bitmap_count_run :
    (m n : ℕ) × (bitmap_count ten 0 10 true ≡ ok m)
    × (bitmap_count ten 0 10 false ≡ ok n)
    × (m + n ≡ 10)
bitmap_count_run = bitmap_count_complement ten 0 10 ten-IsValid (omega arith)

bitmap_all_example :
    (r : Bool) × (bitmap_all ten 1 2 ≡ ok r)
    × (r ≡ true → (j : ℕ) → 1 ≤ j → j < 1 + 2 → bit ten j ≡ true)
    × (r ≡ false → (j : ℕ) × (1 ≤ j) × (j < 1 + 2) × (bit ten j ≡ false))
bitmap_all_example = bitmap_all_lem ten 1 2 ten-IsValid (omega arith)

bitmap_scan_example : (r : ℕ) × (bitmap_scan ten 1 3 false ≡ ok r) × Scanned ten 1 3 false r
bitmap_scan_example = bitmap_scan_lem ten 3 false ten-IsValid 1 (omega arith)

bitmap_scan_and_flip_example :
    (r : ℕ) × (b' : Bitmap) × (bitmap_scan_and_flip ten 0 2 false ≡ ok (r, b'))
    × Scanned ten 0 2 false r
    × ((r ≡ bitmap_error) × (b' ≡ ten) ⊎ (r ≢ bitmap_error) × Fills ten r (r + 2) (not false) b')
bitmap_scan_and_flip_example = bitmap_scan_and_flip_lem ten 2 false ten-IsValid 0 (omega arith)

bitmap_create_run :
    (b : Bitmap) × (bitmap_create 10 true (some (77 ∷ [])) ≡ ok (some b))
    × IsValid b
    × (b.bit_cnt ≡ 10)
    × ((j : ℕ) → j < 10 → bit b j ≡ false)
bitmap_create_run = bitmap_create_lem 10 (77 ∷ []) (omega arith) (omega arith)
