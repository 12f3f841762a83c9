-- ===== src/Palloc/Back.antt =====
-- threads/palloc.c: pages that `palloc_get_multiple` gives go back by `palloc_free_multiple`.
use junlge_pint_os.Common.{
  ℕ, ◌+◌, ◌*◌, ◌≤◌, ◌<◌, ◌≡◌, ◌≢◌, sym, ap, ◌∙◌, Bool, true, false, not, inl, inr, ok, arith, subst,
}
use native.Mathlib.Decide.{dec_lt}
use junlge_pint_os.Bitmap.{Bitmap}
use junlge_pint_os.Bitmap.Bit.{bit}
use junlge_pint_os.Bitmap.Scan.{Group}
use junlge_pint_os.Bitmap.Range.{Fills}
use junlge_pint_os.Palloc.{
  Pool, Flags, Memory, memset, pool_of, with_pool, palloc_get_multiple, palloc_free_multiple,
}
use junlge_pint_os.Palloc.Pools.{IsPool, IsMemory}
use junlge_pint_os.Palloc.Get.{Got, get_succeeds}
use junlge_pint_os.Palloc.Free.{
  pool_of-released, pool_of_other-released, enters_pool, release_pages_lem,
}

module _ (m m' : Memory) (v : IsMemory m) where
  allocated-IsPool :
      (p p' : Pool) (lo hi : ℕ)
      → IsPool p
      → Fills p.used_map lo hi true p'.used_map
      → p'.base ≡ p.base
      → IsPool p'
  allocated-IsPool p p' lo hi w f e = record {
    map = f.valid;
    aligned = omega (arith, w.aligned, e);
    not_null = omega (arith, w.not_null, e);
  }

  allocated-IsMemory :
      (u : Bool) (lo hi : ℕ)
      → Fills (pool_of u m).used_map lo hi true (pool_of u m').used_map
      → (pool_of u m').base ≡ (pool_of u m).base
      → pool_of (not u) m' ≡ pool_of (not u) m
      → IsMemory m'
  allocated-IsMemory true lo hi f e o = record {
    kernel = subst IsPool (sym o) v.kernel;
    user = allocated-IsPool m.user_pool m'.user_pool lo hi v.user f e;
    apart =
        omega (arith, v.apart, e, f.same_cnt, ap (λ p. p.base) o, ap (λ p. p.used_map.bit_cnt) o);
  }
  allocated-IsMemory false lo hi f e o = record {
    kernel = allocated-IsPool m.kernel_pool m'.kernel_pool lo hi v.kernel f e;
    user = subst IsPool (sym o) v.user;
    apart =
        omega (arith, v.apart, e, f.same_cnt, ap (λ p. p.base) o, ap (λ p. p.used_map.bit_cnt) o);
  }

module _ (flags : Flags) (cnt pages : ℕ) (m m' : Memory) (v : IsMemory m)
    (got : Got flags cnt m pages m') where
  -- An allocation from well-formed pools that do not overlap leaves both pools well formed and
  -- apart.
  pub Got-IsMemory : IsMemory m'
  Got-IsMemory =
      allocated-IsMemory m m' v flags.pal_user got.idx (got.idx + cnt) got.now_used got.same_base
        got.other_pool

  bits_back :
      (map' : Bitmap) (j : ℕ)
      → Fills (pool_of flags.pal_user m').used_map got.idx (got.idx + cnt) false map'
      → bit map' j ≡ bit (pool_of flags.pal_user m).used_map j
  bits_back map' j f = elim (dec_lt j got.idx) [
    | yes p ↦ f.outside j (inl p) ∙ got.now_used.outside j (inl p)
    | no p ↦ elim (dec_lt j (got.idx + cnt)) [
      | yes q ↦ f.inside j (omega arith) q ∙ sym (got.were_free.equal j (omega arith) q)
      | no q ↦ f.outside j (inr (omega arith)) ∙ got.now_used.outside j (inr (omega arith))
    ]
  ]

  -- Pages that were got are freed, and the used pages of the pool are those of before.
  free-Got :
      0 < cnt
      → (m'' : Memory) × (palloc_free_multiple pages cnt m' ≡ ok m'')
        × ((j : ℕ)
            → bit (pool_of flags.pal_user m'').used_map j
              ≡ bit (pool_of flags.pal_user m).used_map j)
        × (pool_of (not flags.pal_user) m'' ≡ pool_of (not flags.pal_user) m)
  free-Got some_pages =
      let u = flags.pal_user in
      let here : got.idx + cnt ≤ (pool_of u m').used_map.bit_cnt =
        omega (arith, got.were_free.within, got.now_used.same_cnt) in
      let page_is : (pool_of u m').base + 4096 * got.idx ≡ pages =
        omega (arith, got.address, got.same_base) in
      let freed =
        release_pages_lem u m' Got-IsMemory got.idx cnt some_pages here got.now_used.inside in
      let released : Memory =
        record (with_pool u (record (pool_of u m') { used_map = freed.0 }) m') {
          bytes = memset m'.bytes ((pool_of u m').base + 4096 * got.idx) 0xcc (4096 * cnt);
        } in
      (
        released,
        subst (λ p. palloc_free_multiple p cnt m' ≡ ok released) page_is
            (enters_pool u m' Got-IsMemory got.idx cnt some_pages here ∙ freed.1),
        λ j.
            subst (λ p. bit p.used_map j ≡ bit (pool_of u m).used_map j)
              (sym (pool_of-released u _ _ m')) (bits_back freed.0 j freed.2),
        pool_of_other-released u _ _ m' ∙ got.other_pool,
      )

-- On well-formed pools that do not overlap, if the pool of PAL_USER has page_cnt free pages in a
-- row, at least one, palloc_get_multiple with any flags returns pages, not null, and
-- palloc_free_multiple of these returns; after both, the same pages are used in that pool as
-- before them, and the other pool is as before.
pub palloc_free_multiple-palloc_get_multiple :
    (flags : Flags) (cnt : ℕ) (m : Memory) (i : ℕ)
    → IsMemory m
    → 0 < cnt
    → Group (pool_of flags.pal_user m).used_map cnt false i
    → (pages : ℕ) × (m' : Memory) × (m'' : Memory) × (palloc_get_multiple flags cnt m
        ≡ ok (pages, m'))
      × (pages ≢ 0)
      × (palloc_free_multiple pages cnt m' ≡ ok m'')
      × ((j : ℕ)
          → bit (pool_of flags.pal_user m'').used_map j ≡ bit (pool_of flags.pal_user m).used_map j)
      × (pool_of (not flags.pal_user) m'' ≡ pool_of (not flags.pal_user) m)
palloc_free_multiple-palloc_get_multiple flags cnt m i v some_pages there =
    let r = get_succeeds flags cnt m v i there in
    let f = free-Got flags cnt r.0 m r.1 v r.3 some_pages in
    (r.0, r.1, f.0, r.2, r.3.not_null, f.1, f.2, f.3)
