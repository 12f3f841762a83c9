-- ===== src/Palloc.antt =====
-- threads/palloc.c: the page allocator over its two pools. Memory is a function from addresses to
-- bytes, and an address is a number (0 is the null pointer). `palloc_get_multiple` is here what the
-- call does inside and after the pool's lock; Threads/Create puts the lock around it.
pub mod Pools
pub mod Get
pub mod Free
pub mod Back
use junlge_pint_os.Common.{
  ℕ, zero, suc, ◌+◌, ◌-◌, ◌*◌, ◌/◌, ◌%◌, ◌^◌, Bool, true, false, not, ◌&&◌, ◌||◌, Outcome, ok,
  panic, ◌>>=◌, ◌>>◌, assert, ltb, leb, ◌==◌, if◌then◌else◌,
}
use junlge_pint_os.Bitmap.{
  Bitmap, bitmap_error, bitmap_size, bitmap_scan_and_flip, bitmap_all, bitmap_set_multiple,
}

abbrev pub pgsize : ℕ
pgsize = 4096

abbrev pub pg_ofs : ℕ → ℕ
pg_ofs va = va % pgsize

abbrev pub pg_no : ℕ → ℕ
pg_no va = va / pgsize

-- `struct pool`; `lock` is the address of the lock in it.
pub record Pool : Type 0 where
  pub lock : ℕ
  pub used_map : Bitmap
  pub base : ℕ

-- `enum palloc_flags`, one field for each flag.
pub record Flags : Type 0 where
  pub pal_assert : Bool
  pub pal_zero : Bool
  pub pal_user : Bool

pub record Memory : Type 0 where
  pub kernel_pool : Pool
  pub user_pool : Pool
  pub bytes : ℕ → ℕ

unfoldable pub memset : (ℕ → ℕ) → ℕ → ℕ → ℕ → ℕ → ℕ
memset bytes dst value size a = if leb dst a && ltb a (dst + size) then value else bytes a

-- Which pool a call works on: the user pool for `true`.
abbrev pub pool_of : Bool → Memory → Pool
pool_of true m = m.user_pool
pool_of false m = m.kernel_pool

abbrev pub with_pool : Bool → Pool → Memory → Memory
with_pool true p m = record m { user_pool = p }
with_pool false p m = record m { kernel_pool = p }

-- From the index that the scan found on: the pages, zeroed if asked, or a null pointer.
unfoldable pub take_pages : Flags → ℕ → ℕ → ℕ → Memory → Outcome (ℕ × Memory)
unfolding memset
take_pages flags page_cnt base page_idx m =
    let pages = if page_idx == bitmap_error then 0 else base + pgsize * page_idx in
    if pages == 0
    then if flags.pal_assert then panic else ok (0, m)
    else ok (
      pages,
      if flags.pal_zero then record m { bytes = memset m.bytes pages 0 (pgsize * page_cnt) } else m,
    )

unfoldable pub palloc_get_multiple : Flags → ℕ → Memory → Outcome (ℕ × Memory)
unfolding take_pages
palloc_get_multiple flags page_cnt m = do
  let pool = pool_of flags.pal_user m
  (page_idx, map') ← bitmap_scan_and_flip pool.used_map 0 page_cnt false
  let m' = with_pool flags.pal_user (record pool { used_map = map' }) m
  take_pages flags page_cnt pool.base page_idx m'

unfoldable pub palloc_get_page : Flags → Memory → Outcome (ℕ × Memory)
unfolding palloc_get_multiple
palloc_get_page flags m = palloc_get_multiple flags 1 m

unfoldable pub page_from_pool : Pool → ℕ → Bool
unfolding bitmap_size
page_from_pool pool page =
    let start_page = pg_no pool.base in
    let end_page = start_page + bitmap_size pool.used_map in
    leb start_page (pg_no page) && ltb (pg_no page) end_page

-- The pages are cleared to 0xcc (the kernel is built without NDEBUG) and marked free.
unfoldable pub release_pages : Bool → ℕ → ℕ → Memory → Outcome Memory
release_pages user pages page_cnt m = do
  let pool = pool_of user m
  let page_idx = pg_no pages - pg_no pool.base
  in_use ← bitmap_all pool.used_map page_idx page_cnt
  assert in_use
  map' ← bitmap_set_multiple pool.used_map page_idx page_cnt false
  ok (record (with_pool user (record pool { used_map = map' }) m) {
    bytes = memset m.bytes pages 0xcc (pgsize * page_cnt);
  })

-- The pool that the pages come from; NOT_REACHED if it is neither.
unfoldable pub free_from_pool : ℕ → ℕ → Memory → Outcome Memory
free_from_pool pages page_cnt m =
    if page_from_pool m.kernel_pool pages
    then release_pages false pages page_cnt m
    else if page_from_pool m.user_pool pages
    then release_pages true pages page_cnt m
    else panic

unfoldable pub palloc_free_multiple : ℕ → ℕ → Memory → Outcome Memory
palloc_free_multiple pages page_cnt m = do
  assert (pg_ofs pages == 0)
  if pages == 0 || page_cnt == 0 then ok m else free_from_pool pages page_cnt m

unfoldable pub palloc_free_page : ℕ → Memory → Outcome Memory
unfolding palloc_free_multiple
palloc_free_page page m = palloc_free_multiple page 1 m
