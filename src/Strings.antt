-- ===== src/Strings.antt =====
-- lib/string.c. Memory is a function from addresses to bytes, a string is the address of its first
-- byte, and ends at its first zero byte. A loop over a block recurs on the bytes left. A loop up to
-- the end of a string has fuel, and `none` means that the fuel ran out before the end. The
-- assertions that a pointer is not null hold of the blocks and strings named here and are left out.
pub mod Text
pub mod Copy
pub mod Compare
pub mod Search
pub mod Spans
pub mod Bounded
pub mod Tokens
use junlge_pint_os.Common.{
  ℕ, zero, suc, ◌+◌, ◌-◌, ◌%◌, Bool, true, false, not, ◌&&◌, Option, none, some, ltb, leb, ◌==◌,
  if◌then◌else◌,
}
use junlge_pint_os.Threads.State.{update}

-- A result like that of `strcmp`: negative, zero or positive.
pub data Sign : Type 0 where
  negative equal positive : Sign

abbrev pub ◌>>=◌ {ℓ κ} : {A : Type ℓ} {R : Type κ} (r : Option A) (f : A → Option R) → Option R
none >>= f = none
some x >>= f = f x

infixl 5 ◌>>=◌
-- `while (size-- > 0) *dst++ = *src++;`
unfoldable pub copy_up : ℕ → ℕ → ℕ → (ℕ → ℕ) → ℕ → ℕ
copy_up zero dst src m = m
copy_up (suc size) dst src m = copy_up size (dst + 1) (src + 1) (update m dst (m src))

-- `while (size-- > 0) *--dst = *--src;` where the pointers stand `size` bytes behind `dst` and `src`.
unfoldable pub copy_down : ℕ → ℕ → ℕ → (ℕ → ℕ) → ℕ → ℕ
copy_down zero dst src m = m
copy_down (suc size) dst src m = copy_down size dst src (update m (dst + size) (m (src + size)))

-- With the pointer that is returned.
unfoldable pub memcpy : ℕ → ℕ → ℕ → (ℕ → ℕ) → ℕ × (ℕ → ℕ)
memcpy dst src size m = (dst, copy_up size dst src m)

-- The first loop leaves `dst` behind the block, the second one at its start.
unfoldable pub memmove : ℕ → ℕ → ℕ → (ℕ → ℕ) → ℕ × (ℕ → ℕ)
memmove dst src size m =
    if ltb dst src then (dst + size, copy_up size dst src m) else (dst, copy_down size dst src m)

unfoldable pub fill : ℕ → ℕ → ℕ → (ℕ → ℕ) → ℕ → ℕ
fill zero dst value m = m
fill (suc size) dst value m = fill size (dst + 1) value (update m dst value)

-- `*dst++ = value` keeps the lowest byte of `value`.
unfoldable pub memset : ℕ → ℕ → ℕ → (ℕ → ℕ) → ℕ × (ℕ → ℕ)
memset dst value size m = (dst, fill size dst (value % 256) m)

unfoldable pub memcmp : ℕ → ℕ → ℕ → (ℕ → ℕ) → Sign
memcmp a b zero m = equal
memcmp a b (suc size) m =
    let rest = memcmp (a + 1) (b + 1) size m in
    if m a == m b then rest else if ltb (m b) (m a) then positive else negative

unfoldable pub memchr : ℕ → ℕ → ℕ → (ℕ → ℕ) → ℕ
memchr block ch zero m = 0
memchr block ch (suc size) m =
    let rest = memchr (block + 1) ch size m in if m block == ch % 256 then block else rest

-- The comparison after the loop of `strcmp`.
unfoldable pub order : ℕ → ℕ → Sign
order x y = if ltb x y then negative else if ltb y x then positive else equal

unfoldable pub strcmp : ℕ → ℕ → ℕ → (ℕ → ℕ) → Option Sign
strcmp zero a b m = none
strcmp (suc fuel) a b m =
    let rest = strcmp fuel (a + 1) (b + 1) m in
    if not (m a == 0) && (m a == m b) then rest else some (order (m a) (m b))

unfoldable pub strchr_loop : ℕ → ℕ → ℕ → (ℕ → ℕ) → Option ℕ
strchr_loop zero string c m = none
strchr_loop (suc fuel) string c m =
    let rest = strchr_loop fuel (string + 1) c m in
    if m string == c then some string else if m string == 0 then some 0 else rest

unfoldable pub strchr : ℕ → ℕ → ℕ → (ℕ → ℕ) → Option ℕ
strchr fuel string c m = strchr_loop fuel string (c % 256) m

-- `strchr (set, c) != NULL`.
unfoldable pub found_in : ℕ → ℕ → ℕ → (ℕ → ℕ) → Option Bool
found_in fuel set c m = do p ← strchr fuel set c m; some (not (p == 0))

-- The loop of `strcspn` (`stop` is true) and of `strspn` (it is false): it ends at the end of the
-- string, or at a byte whose being in `set` equals `stop`.
unfoldable pub span_loop : ℕ → Bool → ℕ → ℕ → ℕ → (ℕ → ℕ) → Option ℕ
span_loop zero stop string set length m = none
span_loop (suc fuel) stop string set length m =
    let rest = span_loop fuel stop string set (length + 1) m in
    let next = found_in (suc fuel) set (m (string + length)) m >>= λ hit.
    if hit then (if stop then some length else rest) else (if stop then rest else some length) in
    if m (string + length) == 0 then some length else next

unfoldable pub strcspn : ℕ → ℕ → ℕ → (ℕ → ℕ) → Option ℕ
strcspn fuel string stop m = span_loop fuel true string stop 0 m

unfoldable pub strspn : ℕ → ℕ → ℕ → (ℕ → ℕ) → Option ℕ
strspn fuel string skip m = span_loop fuel false string skip 0 m

unfoldable pub strpbrk : ℕ → ℕ → ℕ → (ℕ → ℕ) → Option ℕ
strpbrk zero string stop m = none
strpbrk (suc fuel) string stop m =
    let rest = strpbrk fuel (string + 1) stop m in
    let next = found_in (suc fuel) stop (m string) m >>= λ hit. if hit then some string else rest in
    if m string == 0 then some 0 else next

unfoldable pub strrchr_loop : ℕ → ℕ → ℕ → ℕ → (ℕ → ℕ) → Option ℕ
strrchr_loop zero string c p m = none
strrchr_loop (suc fuel) string c p m =
    let rest = strrchr_loop fuel (string + 1) c (if m string == c then string else p) m in
    if m string == 0 then some p else rest

unfoldable pub strrchr : ℕ → ℕ → ℕ → (ℕ → ℕ) → Option ℕ
strrchr fuel string c m = strrchr_loop fuel string (c % 256) 0 m

-- From `p` on; `strlen` subtracts the start.
unfoldable pub end_of : ℕ → ℕ → (ℕ → ℕ) → Option ℕ
end_of zero p m = none
end_of (suc fuel) p m = let rest = end_of fuel (p + 1) m in if m p == 0 then some p else rest

unfoldable pub strlen : ℕ → ℕ → (ℕ → ℕ) → Option ℕ
strlen fuel string m = do p ← end_of fuel string m; some (p - string)

-- Over the bytes that `maxlen` still allows.
unfoldable pub strnlen_loop : ℕ → ℕ → ℕ → (ℕ → ℕ) → ℕ
strnlen_loop zero string length m = length
strnlen_loop (suc left) string length m =
    let rest = strnlen_loop left string (length + 1) m in
    if m (string + length) == 0 then length else rest

unfoldable pub strnlen : ℕ → ℕ → (ℕ → ℕ) → ℕ
strnlen string maxlen m = strnlen_loop maxlen string 0 m

abbrev pub is_equal : Sign → Bool
is_equal equal = true
is_equal _ = false

-- Over the places that are left in the haystack.
unfoldable pub strstr_loop : ℕ → ℕ → ℕ → ℕ → (ℕ → ℕ) → ℕ
strstr_loop zero at needle needle_len m = 0
strstr_loop (suc places) at needle needle_len m =
    let rest = strstr_loop places (at + 1) needle needle_len m in
    if is_equal (memcmp at needle needle_len m) then at else rest

unfoldable pub strstr : ℕ → ℕ → ℕ → (ℕ → ℕ) → Option ℕ
strstr fuel haystack needle m = do
  haystack_len ← strlen fuel haystack m
  needle_len ← strlen fuel needle m
  some (
      if leb needle_len haystack_len
      then strstr_loop (haystack_len - needle_len + 1) haystack needle needle_len m
      else 0)
