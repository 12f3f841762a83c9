-- ===== src/Strings/Bounded.antt =====
-- lib/string.c: `strlcpy` and `strlcat`, which write no more than a given number of bytes.
use junlge_pint_os.Common.{
  ℕ, zero, suc, ◌+◌, ◌-◌, ◌≤◌, ◌<◌, ◌≡◌, refl, sym, ap, ◌∙◌, subst, ◌&&◌, Option, some, List, [],
  ◌∷◌, ◌++◌, ◌⊎◌, inl, inr, length, take, ltb, ◌==◌, ==_ne, if◌then◌else◌, arith, lt→ltb,
}
use junlge_pint_os.Threads.State.{update}
use junlge_pint_os.Strings.{memcpy, strlen, ◌>>=◌}
use junlge_pint_os.Strings.Text.{Text}
use junlge_pint_os.Strings.Copy.{copied, memcpy_lem}
use junlge_pint_os.Strings.Search.{strlen_lem}

-- The lesser of two lengths, as the source takes it.
unfoldable pub limited : ℕ → ℕ → ℕ
limited wanted room = if ltb wanted room then wanted else room

-- `memcpy (dst, src, n); dst[n] = '\0';`
unfoldable pub put_text : ℕ → ℕ → ℕ → (ℕ → ℕ) → ℕ → ℕ
put_text dst src n m = update (memcpy dst src n m).1 (dst + n) 0

unfoldable pub strlcpy : ℕ → ℕ → ℕ → ℕ → (ℕ → ℕ) → Option (ℕ × (ℕ → ℕ))
strlcpy fuel dst src size m = do
  src_len ← strlen fuel src m
  some (src_len, if size == 0 then m else put_text dst src (limited src_len (size - 1)) m)

unfoldable pub strlcat : ℕ → ℕ → ℕ → ℕ → (ℕ → ℕ) → Option (ℕ × (ℕ → ℕ))
strlcat fuel dst src size m = do
  src_len ← strlen fuel src m
  dst_len ← strlen fuel dst m
  some (
    src_len + dst_len,
    if ltb 0 size && ltb dst_len size
        then put_text (dst + dst_len) src (limited src_len (size - dst_len - 1)) m
        else m,
  )

limited-le : (a b : ℕ) → limited a b ≤ a
unfolding limited
limited-le a b = ground arith

limited_room : (a b : ℕ) → limited a b ≤ b
unfolding limited
limited_room a b = ground arith

length-take : (cs : List ℕ) (k : ℕ) → length (take k cs) ≡ limited (length cs) k
unfolding limited
length-take [] zero = refl
length-take [] (suc k) = ground arith
length-take (c ∷ cs) zero = ground arith
length-take (c ∷ cs) (suc k) = ground (arith, length-take cs k)

-- A copy of the front of a string, closed by a zero byte, is the string of that front.
Text-take :
    (m m' : ℕ → ℕ) (cs : List ℕ) (k src dst : ℕ)
    → Text m src cs
    → ((i : ℕ) → i < length (take k cs) → m' (dst + i) ≡ m (src + i))
    → m' (dst + length (take k cs)) ≡ 0
    → Text m' dst (take k cs)
Text-take m m' [] zero src dst h same end = ap m' (omega arith) ∙ end
Text-take m m' [] (suc k) src dst h same end = ap m' (omega arith) ∙ end
Text-take m m' (c ∷ cs) zero src dst h same end = ap m' (omega arith) ∙ end
Text-take m m' (c ∷ cs) (suc k) src dst h same end = (
  ap m' (omega arith) ∙ same 0 (omega arith) ∙ ap m (omega arith) ∙ h.0,
  h.1,
  Text-take m m' cs k (src + 1) (dst + 1) h.2
      (λ i lt. ap m' (omega arith) ∙ same (suc i) (omega (arith, lt)) ∙ ap m (omega arith))
      (ap m' (omega arith) ∙ end),
)

Text-append :
    (m m' : ℕ → ℕ) (ds cs : List ℕ) (s : ℕ)
    → Text m s ds
    → ((i : ℕ) → i < length ds → m' (s + i) ≡ m (s + i))
    → Text m' (s + length ds) cs
    → Text m' s (ds ++ cs)
Text-append m m' [] cs s h same t = subst (λ a. Text m' a cs) (omega arith) t
Text-append m m' (d ∷ ds) cs s h same t = (
  ap m' (omega arith) ∙ same 0 (omega arith) ∙ ap m (omega arith) ∙ h.0,
  h.1,
  Text-append m m' ds cs (s + 1) h.2
      (λ i lt. ap m' (omega arith) ∙ same (suc i) (omega (arith, lt)) ∙ ap m (omega arith))
      (subst (λ a. Text m' a cs) (omega arith) t),
)

-- `put_text` of a string's front: the string is there, and only its bytes have changed.
put_text_lem :
    (m : ℕ → ℕ) (cs : List ℕ) (k src dst : ℕ)
    → Text m src cs
    → (dst + length (take k cs) ≤ src) ⊎ (src + length cs ≤ dst)
    → Text (put_text dst src (limited (length cs) k) m) dst (take k cs)
      × ((a : ℕ)
          → (a < dst) ⊎ (dst + length (take k cs) < a)
          → put_text dst src (limited (length cs) k) m a ≡ m a)
unfolding put_text
put_text_lem m cs k src dst h apart = rw (← length-take cs k) (
  Text-take m (put_text dst src n m) cs k src dst h (λ i lt. inside i (copy (dst + i)) lt)
      (ground arith),
  λ a far. outside a (copy a) far,
)
  where
    n : ℕ
    n = length (take k cs)

    shorter : length (take k cs) ≤ length cs
    shorter = rw (length-take cs k) (limited-le (length cs) k)

    ends_apart : (dst + n ≤ src) ⊎ (src + length cs ≤ dst) → (dst + n ≤ src) ⊎ (src + n ≤ dst)
    ends_apart (inl p) = inl p
    ends_apart (inr p) = inr (omega (arith, p, shorter))

    copy : (a : ℕ) → (memcpy dst src n m).1 a ≡ copied dst src n m a
    copy = (memcpy_lem dst src n m (ends_apart apart)).1

    inside :
        (i : ℕ)
        → (memcpy dst src n m).1 (dst + i) ≡ copied dst src n m (dst + i)
        → i < n
        → update (memcpy dst src n m).1 (dst + n) 0 (dst + i) ≡ m (src + i)
    inside i e lt = ground (arith, e, lt)

    outside :
        (a : ℕ)
        → (memcpy dst src n m).1 a ≡ copied dst src n m a
        → (a < dst) ⊎ (dst + n < a)
        → update (memcpy dst src n m).1 (dst + n) 0 a ≡ m a
    outside a e (inl p) = ground (arith, e, p)
    outside a e (inr p) = ground (arith, e, p)

-- If the string cs stands at src, there is more fuel than its length, and the size bytes at dst
-- are apart from the string, then strlcpy returns the length of cs; if size is not 0 the first
-- size - 1 bytes of cs, or all of them, stand as a string at dst; and no byte outside the size
-- bytes at dst has changed.
pub strlcpy_lem :
    (m : ℕ → ℕ) (cs : List ℕ) (dst src size fuel : ℕ)
    → Text m src cs
    → length cs < fuel
    → (dst + size ≤ src) ⊎ (src + length cs ≤ dst)
    → (m' : ℕ → ℕ) × (strlcpy fuel dst src size m ≡ some (length cs, m'))
      × (0 < size → Text m' dst (take (size - 1) cs))
      × ((a : ℕ) → (a < dst) ⊎ (dst + size ≤ a) → m' a ≡ m a)
unfolding strlcpy
strlcpy_lem m cs dst src zero fuel h lt apart =
    (m, rw (strlen_lem m cs src fuel h lt) refl, λ p. absurd (omega (arith, p)), λ a far. refl)
strlcpy_lem m cs dst src (suc size) fuel h lt apart =
    let small : suc size - 1 ≡ size = omega arith in
    let put = put_text_lem m cs size src dst h (less apart) in
    (
      put_text dst src (limited (length cs) size) m,
      rw (strlen_lem m cs src fuel h lt, ==_ne (suc size) 0 (λ q. omega (arith, q)))
          (ap (λ k. some (length cs, put_text dst src (limited (length cs) k) m)) small),
      λ p.
          subst (λ k. Text (put_text dst src (limited (length cs) size) m) dst (take k cs))
            (sym small) put.0,
      λ a far. put.1 a (farther a far),
    )
  where
    room : length (take size cs) ≤ size
    room = rw (length-take cs size) (limited_room (length cs) size)

    less :
        (dst + suc size ≤ src) ⊎ (src + length cs ≤ dst)
        → (dst + length (take size cs) ≤ src) ⊎ (src + length cs ≤ dst)
    less (inl p) = inl (omega (arith, p, room))
    less (inr p) = inr p

    farther :
        (a : ℕ) → (a < dst) ⊎ (dst + suc size ≤ a) → (a < dst) ⊎ (dst + length (take size cs) < a)
    farther a (inl p) = inl p
    farther a (inr p) = inr (omega (arith, p, room))

-- If the strings ds and cs stand at dst and src, there is more fuel than the length of each, ds is
-- shorter than size, and the size bytes at dst are apart from cs, then strlcat returns the sum of
-- the lengths; at dst stands the string of ds and as many bytes of cs as fit into size - 1 with
-- them; and no byte outside the size bytes at dst has changed.
pub strlcat_lem :
    (m : ℕ → ℕ) (ds cs : List ℕ) (dst src size fuel : ℕ)
    → Text m dst ds
    → Text m src cs
    → length ds < fuel
    → length cs < fuel
    → length ds < size
    → (dst + size ≤ src) ⊎ (src + length cs ≤ dst)
    → (m' : ℕ → ℕ) × (strlcat fuel dst src size m ≡ some (length cs + length ds, m'))
      × Text m' dst (ds ++ take (size - length ds - 1) cs)
      × ((a : ℕ) → (a < dst) ⊎ (dst + size ≤ a) → m' a ≡ m a)
unfolding strlcat
strlcat_lem m ds cs dst src size fuel hd hs ltd lts fits apart = (
  after,
  rw
      (
        strlen_lem m cs src fuel hs lts,
        strlen_lem m ds dst fuel hd ltd,
        lt→ltb 0 size (omega (arith, fits)),
        lt→ltb (length ds) size fits,
      )
      refl,
  Text-append m after ds (take room cs) dst hd (λ i lt. put.1 (dst + i) (inl (omega (arith, lt))))
      put.0,
  λ a far. put.1 a (farther a far),
)
  where
    room : ℕ
    room = size - length ds - 1

    after : ℕ → ℕ
    after = put_text (dst + length ds) src (limited (length cs) room) m

    short : length (take room cs) ≤ room
    short = rw (length-take cs room) (limited_room (length cs) room)

    less :
        (dst + size ≤ src) ⊎ (src + length cs ≤ dst)
        → (dst + length ds + length (take room cs) ≤ src) ⊎ (src + length cs ≤ dst + length ds)
    less (inl p) = inl (omega (arith, p, short, fits))
    less (inr p) = inr (omega (arith, p))

    put :
        Text after (dst + length ds) (take room cs)
        × ((a : ℕ)
            → (a < dst + length ds) ⊎ (dst + length ds + length (take room cs) < a)
            → after a ≡ m a)
    put = put_text_lem m cs room src (dst + length ds) hs (less apart)

    farther :
        (a : ℕ)
        → (a < dst) ⊎ (dst + size ≤ a)
        → (a < dst + length ds) ⊎ (dst + length ds + length (take room cs) < a)
    farther a (inl p) = inl (omega (arith, p))
    farther a (inr p) = inr (omega (arith, p, short, fits))

-- Where the string at `dst` has no end within `size`, nothing is written.
pub strlcat_full :
    (m : ℕ → ℕ) (ds cs : List ℕ) (dst src size fuel : ℕ)
    → Text m dst ds
    → Text m src cs
    → length ds < fuel
    → length cs < fuel
    → size ≤ length ds
    → strlcat fuel dst src size m ≡ some (length cs + length ds, m)
unfolding strlcat
strlcat_full m ds cs dst src size fuel hd hs ltd lts full =
    rw (strlen_lem m cs src fuel hs lts, strlen_lem m ds dst fuel hd ltd) (ground (arith, full))
