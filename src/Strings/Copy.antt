-- ===== src/Strings/Copy.antt =====
-- lib/string.c: what copying and filling a block leave in memory.
use junlge_pint_os.Common.{
  ℕ, zero, suc, ◌+◌, ◌-◌, ◌%◌, ◌≤◌, ◌<◌, ◌≡◌, refl, ◌∙◌, ◌&&◌, ◌⊎◌, inl, inr, ltb, leb,
  if◌then◌else◌, arith, Bool-cases,
}
use junlge_pint_os.Threads.State.{update}
use junlge_pint_os.Strings.{copy_up, copy_down, memcpy, memmove, fill, memset}

-- The block of `size` bytes at `dst` holds what the block at `src` held in `m`; all else is as in `m`.
abbrev pub copied : ℕ → ℕ → ℕ → (ℕ → ℕ) → ℕ → ℕ
copied dst src size m a = if leb dst a && ltb a (dst + size) then m (src + (a - dst)) else m a

-- Going up is right unless `dst` lies inside the source, past its start.
pub copy_up_lem :
    (size dst src : ℕ) (m : ℕ → ℕ)
    → (dst ≤ src) ⊎ (src + size ≤ dst)
    → (a : ℕ) → copy_up size dst src m a ≡ copied dst src size m a
unfolding copy_up
copy_up_lem zero dst src m h a = ground arith
copy_up_lem (suc size) dst src m h a =
    copy_up_lem size (dst + 1) (src + 1) (update m dst (m src)) (moved h) a ∙ ground arith
  where
    moved : (dst ≤ src) ⊎ (src + suc size ≤ dst) → (dst + 1 ≤ src + 1) ⊎ (src + 1 + size ≤ dst + 1)
    moved (inl p) = inl (omega arith)
    moved (inr p) = inr (omega arith)

-- Going down is right unless the source starts past `dst`.
pub copy_down_lem :
    (size dst src : ℕ) (m : ℕ → ℕ)
    → src ≤ dst
    → (a : ℕ) → copy_down size dst src m a ≡ copied dst src size m a
unfolding copy_down
copy_down_lem zero dst src m h a = ground arith
copy_down_lem (suc size) dst src m h a =
    copy_down_lem size dst src (update m (dst + size) (m (src + size))) h a ∙ ground arith

memmove_copies :
    (dst src size : ℕ) (m : ℕ → ℕ) (a : ℕ) → (memmove dst src size m).1 a ≡ copied dst src size m a
unfolding memmove
memmove_copies dst src size m a = elim (Bool-cases (ltb dst src)) [
  | inl e ↦ rw e (copy_up_lem size dst src m (inl (ground (arith, e))) a)
  | inr e ↦ rw e (copy_down_lem size dst src m (ground (arith, e)) a)
]

-- memmove leaves at dst the size bytes that stood at src, whether the blocks overlap or not, and
-- the rest of memory as it was. It returns dst where src is at or below dst, and dst + size where
-- dst is below src.
pub memmove_lem :
    (dst src size : ℕ) (m : ℕ → ℕ)
    → ((a : ℕ) → (memmove dst src size m).1 a ≡ copied dst src size m a)
      × (src ≤ dst → (memmove dst src size m).0 ≡ dst)
      × (dst < src → (memmove dst src size m).0 ≡ dst + size)
unfolding memmove
memmove_lem dst src size m = (
  λ a. memmove_copies dst src size m a,
  λ after. ground (arith, after),
  λ before. ground (arith, before),
)

-- Blocks that are apart are copied, and `dst` is returned.
pub memcpy_lem :
    (dst src size : ℕ) (m : ℕ → ℕ)
    → (dst + size ≤ src) ⊎ (src + size ≤ dst)
    → ((memcpy dst src size m).0 ≡ dst)
      × ((a : ℕ) → (memcpy dst src size m).1 a ≡ copied dst src size m a)
unfolding memcpy
memcpy_lem dst src size m apart = (refl, λ a. copy_up_lem size dst src m (below apart) a)
  where
    below : (dst + size ≤ src) ⊎ (src + size ≤ dst) → (dst ≤ src) ⊎ (src + size ≤ dst)
    below (inl p) = inl (omega (arith, p))
    below (inr p) = inr p

fill_lem :
    (size dst value : ℕ) (m : ℕ → ℕ) (a : ℕ)
    → fill size dst value m a ≡ (if leb dst a && ltb a (dst + size) then value else m a)
unfolding fill
fill_lem zero dst value m a = ground arith
fill_lem (suc size) dst value m a =
    fill_lem size (dst + 1) value (update m dst value) a ∙ ground arith

-- The block is filled with the lowest byte of the value, and `dst` is returned.
pub memset_lem :
    (dst value size : ℕ) (m : ℕ → ℕ)
    → ((memset dst value size m).0 ≡ dst)
      × ((a : ℕ)
          → (memset dst value size m).1 a
            ≡ (if leb dst a && ltb a (dst + size) then value % 256 else m a))
unfolding memset
memset_lem dst value size m = (refl, λ a. fill_lem size dst (value % 256) m a)
