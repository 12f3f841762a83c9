-- ===== src/Palloc/Pools.antt =====
-- threads/palloc.c: the invariant of the two pools, and where the pages of a pool lie.
use junlge_pint_os.Common.{ℕ, ◌+◌, ◌*◌, ◌%◌, ◌≤◌, ◌<◌, ◌≡◌, Bool, true, false, ◌⊎◌, inl, inr, arith}
use junlge_pint_os.Bitmap.Bit.{IsValid}
use junlge_pint_os.Palloc.{Pool, Memory, page_from_pool, pool_of}

-- A pool's pages are page-aligned addresses, none of them null.
pub record IsPool (p : Pool) : Type 0 where
  pub map : IsValid p.used_map
  pub aligned : p.base % 4096 ≡ 0
  pub not_null : 0 < p.base

abbrev pub pool_end : Pool → ℕ
pool_end p = p.base + 4096 * p.used_map.bit_cnt

-- Both pools are well formed, and they do not overlap.
pub record IsMemory (m : Memory) : Type 0 where
  pub kernel : IsPool m.kernel_pool
  pub user : IsPool m.user_pool
  pub apart :
      (pool_end m.kernel_pool ≤ m.user_pool.base) ⊎ (pool_end m.user_pool ≤ m.kernel_pool.base)

pub pool_of-IsPool : (user : Bool) (m : Memory) → IsMemory m → IsPool (pool_of user m)
pool_of-IsPool true m v = v.user
pool_of-IsPool false m v = v.kernel

-- A page of a pool belongs to it and not to the other one.
pub page_from_pool-inside :
    (p : Pool) (idx : ℕ)
    → IsPool p
    → idx < p.used_map.bit_cnt
    → page_from_pool p (p.base + 4096 * idx) ≡ true
unfolding page_from_pool
page_from_pool-inside p idx v h = ground arith

pub page_from_pool-outside :
    (p : Pool) (page : ℕ)
    → IsPool p
    → (page < p.base) ⊎ (pool_end p ≤ page)
    → page_from_pool p page ≡ false
unfolding page_from_pool
page_from_pool-outside p page v (inl h) = ground arith
page_from_pool-outside p page v (inr h) = ground arith
