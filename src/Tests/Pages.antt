-- ===== src/Tests/Pages.antt =====
-- threads/palloc.c on a kernel pool of ten pages, three of them in use, and a user pool of four.
use native.Mathlib.Decide.{ℕ_discrete}
use junlge_pint_os.Common.{
  ℕ, ◌+◌, ◌*◌, ◌≤◌, ◌<◌, ◌≡◌, ◌≢◌, refl, sym, ap, ◌∙◌, subst, true, false, ◌⊎◌, inl, inr, ok, panic,
  ok-injective, [], ◌∷◌, arith,
}
use junlge_pint_os.Bitmap.{
  bitmap_scan_and_flip, bitmap_scan, bitmap_test, bitmap_set, bitmap_set_multiple,
}
use junlge_pint_os.Bitmap.Bit.{bit}
use junlge_pint_os.Bitmap.Scan.{Group}
use junlge_pint_os.Palloc.{
  Pool, Flags, Memory, pool_of, take_pages, palloc_get_multiple, palloc_free_multiple,
  page_from_pool,
}
use junlge_pint_os.Palloc.Pools.{IsMemory, page_from_pool-inside}
use junlge_pint_os.Palloc.Get.{Got, palloc_get_multiple_lem}
use junlge_pint_os.Palloc.Free.{palloc_free_multiple-panic}
use junlge_pint_os.Palloc.Back.{Got-IsMemory, palloc_free_multiple-palloc_get_multiple}

abbrev pub kernel_part : Pool
kernel_part = record {
  lock = 300;
  used_map = record { bit_cnt = 10; bits = 0b100110 ∷ [] };
  base = 65536;
}

abbrev pub user_part : Pool
user_part = record { lock = 301; used_map = record { bit_cnt = 4; bits = 0 ∷ [] }; base = 106496 }

abbrev pub pages : Memory
pages = record { kernel_pool = kernel_part; user_pool = user_part; bytes = λ a. 7 }

pub pages-IsMemory : IsMemory pages
pages-IsMemory = record {
  kernel = record { map = omega arith; aligned = refl; not_null = omega arith };
  user = record { map = omega arith; aligned = refl; not_null = omega arith };
  apart = inl (omega arith);
}

abbrev plain : Flags
plain = record { pal_assert = false; pal_zero = false; pal_user = false }

-- The kernel pool once pages 3 and 4 are taken.
abbrev pages_after : Memory
pages_after = record pages {
  kernel_pool = record kernel_part { used_map = record { bit_cnt = 10; bits = 0b111110 ∷ [] } };
}

get_two : palloc_get_multiple plain 2 pages ≡ ok (77824, pages_after)
unfolding palloc_get_multiple take_pages bitmap_scan_and_flip bitmap_scan bitmap_test
    bitmap_set_multiple bitmap_set
get_two = refl

Got-two : Got plain 2 pages 77824 pages_after
Got-two =
    let run = palloc_get_multiple_lem plain 2 pages pages-IsMemory refl in
    let same = ok-injective (sym run.2 ∙ get_two) in
    elim run.3 [
      | inl g ↦ subst (λ x. Got plain 2 pages x.0 x.1) same g
      | inr n ↦ cc (n.0, ap (λ x. x.0) same)
    ]

palloc_get_example :
    (at : ℕ) × (m' : Memory) × (palloc_get_multiple plain 2 pages ≡ ok (at, m'))
    × (Got plain 2 pages at m'
        ⊎ (at ≡ 0) × (m' ≡ pages) × ((i : ℕ) → ¬ (Group (pool_of false pages).used_map 2 false i)))
palloc_get_example = palloc_get_multiple_lem plain 2 pages pages-IsMemory refl

-- Page 3 is free, so pages 2 and 3 cannot be freed together.
double_free_example : palloc_free_multiple (65536 + 4096 * 2) 2 pages ≡ panic
unfolding bit
double_free_example =
    palloc_free_multiple-panic false pages pages-IsMemory 2 2 (omega arith) (omega arith) 3
      (omega arith) (omega arith) refl

get_keeps_run : IsMemory pages_after
get_keeps_run = Got-IsMemory plain 2 77824 pages pages_after pages-IsMemory Got-two

two_free : Group kernel_part.used_map 2 false 3
unfolding bit
two_free = record { within = omega arith; equal = λ j lo hi. at_j j lo hi }
  where
    at_j : (j : ℕ) → 3 ≤ j → j < 5 → bit kernel_part.used_map j ≡ false
    at_j j lo hi = elim (ℕ_discrete 3 j) [
      | yes e ↦ subst (λ k. bit kernel_part.used_map k ≡ false) e refl
      | no ne ↦
          let e : 4 ≡ j = omega (arith, lo, hi, ne) in
          subst (λ k. bit kernel_part.used_map k ≡ false) e refl
    ]

free_get_example :
    (at : ℕ) × (m' : Memory) × (m'' : Memory) × (palloc_get_multiple plain 2 pages ≡ ok (at, m'))
    × (at ≢ 0)
    × (palloc_free_multiple at 2 m' ≡ ok m'')
    × ((j : ℕ) → bit (pool_of false m'').used_map j ≡ bit (pool_of false pages).used_map j)
    × (pool_of true m'' ≡ pool_of true pages)
free_get_example =
    palloc_free_multiple-palloc_get_multiple plain 2 pages 3 pages-IsMemory (omega arith) two_free

page_from_pool_example : page_from_pool kernel_part (65536 + 4096 * 9) ≡ true
page_from_pool_example = page_from_pool-inside kernel_part 9 pages-IsMemory.kernel (omega arith)
