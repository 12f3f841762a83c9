-- ===== src/Palloc/Free.antt =====
-- threads/palloc.c: `palloc_free_multiple`.
use junlge_pint_os.Common.{
  ℕ, ◌+◌, ◌-◌, ◌*◌, ◌%◌, ◌≤◌, ◌<◌, ◌≡◌, refl, ◌∙◌, Bool, true, false, not, ok, panic, arith, ==_ne,
}
use junlge_pint_os.Bitmap.{Bitmap}
use junlge_pint_os.Bitmap.Bit.{bit}
use junlge_pint_os.Bitmap.Range.{Fills, bitmap_all_lem, bitmap_set_multiple_lem}
use junlge_pint_os.Palloc.{
  Pool, Memory, pg_no, memset, pool_of, with_pool, page_from_pool, release_pages, free_from_pool,
  palloc_free_multiple,
}
use junlge_pint_os.Palloc.Pools.{
  IsPool, IsMemory, pool_of-IsPool, page_from_pool-inside, page_from_pool-outside,
}

-- The index that is computed back from the address of a page.
index-of-page : (base idx : ℕ) → base % 4096 ≡ 0 → pg_no (base + 4096 * idx) - pg_no base ≡ idx
index-of-page base idx h = omega arith

free_from_pool-kernel :
    (page cnt : ℕ) (m : Memory)
    → page_from_pool m.kernel_pool page ≡ true
    → free_from_pool page cnt m ≡ release_pages false page cnt m
unfolding free_from_pool
free_from_pool-kernel page cnt m e = rw e

free_from_pool-user :
    (page cnt : ℕ) (m : Memory)
    → page_from_pool m.kernel_pool page ≡ false
    → page_from_pool m.user_pool page ≡ true
    → free_from_pool page cnt m ≡ release_pages true page cnt m
unfolding free_from_pool
free_from_pool-user page cnt m e f = rw (e, f)

pub pool_of-released :
    (u : Bool) (p : Pool) (bytes : ℕ → ℕ) (m : Memory)
    → pool_of u (record (with_pool u p m) { bytes = bytes }) ≡ p
pool_of-released true p bytes m = refl
pool_of-released false p bytes m = refl

pub pool_of_other-released :
    (u : Bool) (p : Pool) (bytes : ℕ → ℕ) (m : Memory)
    → pool_of (not u) (record (with_pool u p m) { bytes = bytes }) ≡ pool_of (not u) m
pool_of_other-released true p bytes m = refl
pool_of_other-released false p bytes m = refl

-- A page of one pool is looked up in that pool.
free_from_pool_lem :
    (user : Bool) (m : Memory) (idx cnt : ℕ)
    → IsMemory m
    → idx < (pool_of user m).used_map.bit_cnt
    → free_from_pool ((pool_of user m).base + 4096 * idx) cnt m
      ≡ release_pages user ((pool_of user m).base + 4096 * idx) cnt m
free_from_pool_lem false m idx cnt v h =
    free_from_pool-kernel _ cnt m (page_from_pool-inside m.kernel_pool idx v.kernel h)
free_from_pool_lem true m idx cnt v h =
    free_from_pool-user _ cnt m
      (page_from_pool-outside m.kernel_pool _ v.kernel (omega (arith, v.apart)))
      (page_from_pool-inside m.user_pool idx v.user h)

module _ (user : Bool) (m : Memory) (valid : IsMemory m) (idx cnt : ℕ) (some_pages : 0 < cnt)
    (within : idx + cnt ≤ (pool_of user m).used_map.bit_cnt) where
  abbrev pub pool : Pool
  pool = pool_of user m

  abbrev pub pages : ℕ
  pages = pool.base + 4096 * idx

  pool-IsPool : IsPool pool
  pool-IsPool = pool_of-IsPool user m valid

  -- The pages are looked up in the pool that they belong to.
  pub enters_pool : palloc_free_multiple pages cnt m ≡ release_pages user pages cnt m
  unfolding palloc_free_multiple
  enters_pool =
      rw (aligned, ==_ne pages 0 (omega (arith, pool-IsPool.not_null)), ==_ne cnt 0 (omega arith))
        (free_from_pool_lem user m idx cnt valid (omega arith))
    where
      aligned : pages % 4096 ≡ 0
      aligned = omega (arith, pool-IsPool.aligned)

  -- Releasing pages that are all in use clears exactly their bits.
  pub release_pages_lem :
      ((j : ℕ) → idx ≤ j → j < idx + cnt → bit pool.used_map j ≡ true)
      → (map' : Bitmap) × (release_pages user pages cnt m
          ≡ ok (record (with_pool user (record pool { used_map = map' }) m) {
            bytes = memset m.bytes pages 0xcc (4096 * cnt);
          }))
        × Fills pool.used_map idx (idx + cnt) false map'
  unfolding release_pages
  release_pages_lem all_used =
      let answer = bitmap_all_lem pool.used_map idx cnt pool-IsPool.map within in
      let cleared = bitmap_set_multiple_lem pool.used_map idx cnt false pool-IsPool.map within in
      (
        cleared.0,
        rw (
          index-of-page pool.base idx pool-IsPool.aligned,
          answer.1,
          all_in_use answer.0 answer.3,
          cleared.1,
        ),
        cleared.2,
      )
    where
      all_in_use :
          (r : Bool)
          → (r ≡ false → (j : ℕ) × (idx ≤ j) × (j < idx + cnt) × (bit pool.used_map j ≡ false))
          → r ≡ true
      all_in_use true h = refl
      all_in_use false h = let w = h refl in cc (all_used w.0 w.1 w.2, w.3)

  -- On well-formed pools that do not overlap, palloc_free_multiple of a range of at least one page
  -- that lies in one of the pools stops the kernel if one of its pages is free already.
  pub palloc_free_multiple-panic :
      (j : ℕ)
      → idx ≤ j
      → j < idx + cnt
      → bit pool.used_map j ≡ false
      → palloc_free_multiple pages cnt m ≡ panic
  unfolding release_pages
  palloc_free_multiple-panic j lo hi clear =
      let answer = bitmap_all_lem pool.used_map idx cnt pool-IsPool.map within in
      enters_pool
      ∙ rw (index-of-page pool.base idx pool-IsPool.aligned, answer.1, one_free answer.0 answer.2)
    where
      clash : bit pool.used_map j ≡ true → ⊥
      clash e = cc

      one_free :
          (r : Bool)
          → (r ≡ true → (k : ℕ) → idx ≤ k → k < idx + cnt → bit pool.used_map k ≡ true)
          → r ≡ false
      one_free false h = refl
      one_free true h = absurd (clash (h refl j lo hi))
