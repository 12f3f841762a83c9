-- ===== src/Palloc/Get.antt =====
-- threads/palloc.c: `palloc_get_multiple`.
use junlge_pint_os.Common.{
  ℕ, ◌+◌, ◌*◌, ◌<◌, ◌≡◌, ◌≢◌, refl, sym, ap, Bool, true, false, not, ◌⊎◌, inl, inr, ok,
  if◌then◌else◌, arith, subst, ==_ne,
}
use junlge_pint_os.Bitmap.{Bitmap, bitmap_error, bitmap_scan_and_flip}
use junlge_pint_os.Bitmap.Range.{Fills}
use junlge_pint_os.Bitmap.Scan.{Group, Scanned, found, nothing, bitmap_scan_and_flip_lem}
use junlge_pint_os.Palloc.{
  Pool, Flags, Memory, memset, pool_of, with_pool, take_pages, palloc_get_multiple,
}
use junlge_pint_os.Palloc.Pools.{IsPool, IsMemory, pool_of-IsPool}

-- A successful call: `pages` are `cnt` pages of the pool that were all free, they are now all in
-- use, nothing else of either pool has changed, and with PAL_ZERO the pages hold zeros.
pub record Got (flags : Flags) (cnt : ℕ) (m : Memory) (pages : ℕ) (m' : Memory) : Type 0 where
  pub idx : ℕ
  pub address : pages ≡ (pool_of flags.pal_user m).base + 4096 * idx
  pub not_null : pages ≢ 0
  pub were_free : Group (pool_of flags.pal_user m).used_map cnt false idx
  pub now_used :
      Fills
        (pool_of flags.pal_user m).used_map
        idx
        (idx + cnt)
        true
        (pool_of flags.pal_user m').used_map
  pub same_base : (pool_of flags.pal_user m').base ≡ (pool_of flags.pal_user m).base
  pub other_pool : pool_of (not flags.pal_user) m' ≡ pool_of (not flags.pal_user) m
  pub contents :
      m'.bytes ≡ (if flags.pal_zero then memset m.bytes pages 0 (4096 * cnt) else m.bytes)

abbrev zeroed : Bool → ℕ → ℕ → Memory → Memory
zeroed z pages cnt m = if z then record m { bytes = memset m.bytes pages 0 (4096 * cnt) } else m

take_pages-null :
    (flags : Flags) (cnt base : ℕ) (m : Memory)
    → flags.pal_assert ≡ false
    → take_pages flags cnt base bitmap_error m ≡ ok (0, m)
unfolding take_pages
take_pages-null flags cnt base m e = rw e

take_pages_found :
    (flags : Flags) (cnt base idx : ℕ) (m : Memory)
    → 0 < base
    → idx ≢ bitmap_error
    → take_pages flags cnt base idx m
      ≡ ok (base + 4096 * idx, zeroed flags.pal_zero (base + 4096 * idx) cnt m)
unfolding take_pages
take_pages_found flags cnt base idx m pos ne =
    rw (==_ne idx bitmap_error ne) (rw (==_ne (base + 4096 * idx) 0 (omega arith)))

pool_of-zeroed :
    (u z : Bool) (p : Pool) (pages cnt : ℕ) (m : Memory)
    → pool_of u (zeroed z pages cnt (with_pool u p m)) ≡ p
pool_of-zeroed true true p pages cnt m = refl
pool_of-zeroed true false p pages cnt m = refl
pool_of-zeroed false true p pages cnt m = refl
pool_of-zeroed false false p pages cnt m = refl

pool_of_other-zeroed :
    (u z : Bool) (p : Pool) (pages cnt : ℕ) (m : Memory)
    → pool_of (not u) (zeroed z pages cnt (with_pool u p m)) ≡ pool_of (not u) m
pool_of_other-zeroed true true p pages cnt m = refl
pool_of_other-zeroed true false p pages cnt m = refl
pool_of_other-zeroed false true p pages cnt m = refl
pool_of_other-zeroed false false p pages cnt m = refl

bytes-zeroed :
    (u z : Bool) (p : Pool) (pages cnt : ℕ) (m : Memory)
    → (zeroed z pages cnt (with_pool u p m)).bytes
      ≡ (if z then memset m.bytes pages 0 (4096 * cnt) else m.bytes)
bytes-zeroed true true p pages cnt m = refl
bytes-zeroed true false p pages cnt m = refl
bytes-zeroed false true p pages cnt m = refl
bytes-zeroed false false p pages cnt m = refl

with_pool_self : (u : Bool) (m : Memory) → with_pool u (pool_of u m) m ≡ m
with_pool_self true m = refl
with_pool_self false m = refl

module _ (flags : Flags) (cnt : ℕ) (m : Memory) (valid : IsMemory m) where
  abbrev pool : Pool
  pool = pool_of flags.pal_user m

  pool-IsPool : IsPool pool
  pool-IsPool = pool_of-IsPool flags.pal_user m valid

  get_found :
      (idx : ℕ) (map' : Bitmap)
      → bitmap_scan_and_flip pool.used_map 0 cnt false ≡ ok (idx, map')
      → idx ≢ bitmap_error
      → Group pool.used_map cnt false idx
      → Fills pool.used_map idx (idx + cnt) true map'
      → (pages : ℕ) × (m' : Memory) × (palloc_get_multiple flags cnt m ≡ ok (pages, m'))
        × Got flags cnt m pages m'
  unfolding palloc_get_multiple
  get_found idx map' e ne g f =
      let p : Pool = record pool { used_map = map' } in
      let pages : ℕ = pool.base + 4096 * idx in
      let after = pool_of-zeroed flags.pal_user flags.pal_zero p pages cnt m in
      (
        pages,
        zeroed flags.pal_zero pages cnt (with_pool flags.pal_user p m),
        rw e (
            take_pages_found flags cnt pool.base idx (with_pool flags.pal_user p m)
              pool-IsPool.not_null ne),
        record {
          idx = idx;
          address = refl;
          not_null = omega (arith, pool-IsPool.not_null);
          were_free = g;
          now_used = subst (λ q. Fills pool.used_map idx (idx + cnt) true q.used_map) (sym after) f;
          same_base = ap (λ q. q.base) after;
          other_pool = pool_of_other-zeroed flags.pal_user flags.pal_zero p pages cnt m;
          contents = bytes-zeroed flags.pal_user flags.pal_zero p pages cnt m;
        },
      )

  get_nothing :
      (map' : Bitmap)
      → bitmap_scan_and_flip pool.used_map 0 cnt false ≡ ok (bitmap_error, map')
      → map' ≡ pool.used_map
      → flags.pal_assert ≡ false
      → palloc_get_multiple flags cnt m ≡ ok (0, m)
  unfolding palloc_get_multiple
  get_nothing map' e same_map quiet =
      rw (e, same_map)
        (rw (with_pool_self flags.pal_user m) (take_pages-null flags cnt pool.base m quiet))

  -- Where a group of free pages exists, the call returns pages, whatever the flags are.
  pub get_succeeds :
      (i : ℕ)
      → Group pool.used_map cnt false i
      → (pages : ℕ) × (m' : Memory) × (palloc_get_multiple flags cnt m ≡ ok (pages, m'))
        × Got flags cnt m pages m'
  get_succeeds i there =
      let run = bitmap_scan_and_flip_lem pool.used_map cnt false pool-IsPool.map 0 (omega arith) in
      answered run.0 run.1 run.2 run.3 run.4
    where
      answered :
          (idx : ℕ) (map' : Bitmap)
          → bitmap_scan_and_flip pool.used_map 0 cnt false ≡ ok (idx, map')
          → Scanned pool.used_map 0 cnt false idx
          → (idx ≡ bitmap_error) × (map' ≡ pool.used_map)
            ⊎ (idx ≢ bitmap_error) × Fills pool.used_map idx (idx + cnt) true map'
          → (pages : ℕ) × (m' : Memory) × (palloc_get_multiple flags cnt m ≡ ok (pages, m'))
            × Got flags cnt m pages m'
      answered idx map' e (found ne lo g first) (inl q) = absurd (ne q.0)
      answered idx map' e (found ne lo g first) (inr q) = get_found idx map' e ne g q.1
      answered idx map' e (nothing q no_group) r = absurd (no_group i (omega arith) there)

  -- On well-formed pools that do not overlap, palloc_get_multiple without PAL_ASSERT returns.
  -- Either it has allocated page_cnt pages that were all free in the pool of PAL_USER, marked
  -- exactly them as used, left the other pool alone and zeroed them exactly when PAL_ZERO is
  -- given; or it returns a null pointer, that pool has no page_cnt free pages in a row, and
  -- nothing has changed.
  pub palloc_get_multiple_lem :
      flags.pal_assert ≡ false
      → (pages : ℕ) × (m' : Memory) × (palloc_get_multiple flags cnt m ≡ ok (pages, m'))
        × (Got flags cnt m pages m'
            ⊎ (pages ≡ 0) × (m' ≡ m) × ((i : ℕ) → ¬ (Group pool.used_map cnt false i)))
  palloc_get_multiple_lem quiet =
      let run = bitmap_scan_and_flip_lem pool.used_map cnt false pool-IsPool.map 0 (omega arith) in
      answered run.0 run.1 run.2 run.3 run.4
    where
      answered :
          (idx : ℕ) (map' : Bitmap)
          → bitmap_scan_and_flip pool.used_map 0 cnt false ≡ ok (idx, map')
          → Scanned pool.used_map 0 cnt false idx
          → (idx ≡ bitmap_error) × (map' ≡ pool.used_map)
            ⊎ (idx ≢ bitmap_error) × Fills pool.used_map idx (idx + cnt) true map'
          → (pages : ℕ) × (m' : Memory) × (palloc_get_multiple flags cnt m ≡ ok (pages, m'))
            × (Got flags cnt m pages m'
                ⊎ (pages ≡ 0) × (m' ≡ m) × ((i : ℕ) → ¬ (Group pool.used_map cnt false i)))
      answered idx map' e (found ne lo g first) (inl q) = absurd (ne q.0)
      answered idx map' e (found ne lo g first) (inr q) =
          let r = get_found idx map' e ne g q.1 in (r.0, r.1, r.2, inl r.3)
      answered idx map' e (nothing q no_group) (inr p) = absurd (p.0 q)
      answered idx map' e (nothing q no_group) (inl p) = (
        0,
        m,
        get_nothing map'
            (subst (λ k. bitmap_scan_and_flip pool.used_map 0 cnt false ≡ ok (k, map')) q e) p.1
            quiet,
        inr (refl, refl, λ i. no_group i (omega arith)),
      )
