-- ===== src/Strings/Compare.antt =====
-- lib/string.c: comparing blocks and strings.
use junlge_pint_os.Common.{
  ℕ, zero, suc, ◌+◌, ◌<◌, ◌≡◌, refl, subst, some, List, [], ◌∷◌, length, arith, ◌↔◌,
}
use junlge_pint_os.Strings.{equal, order, memcmp, strcmp, is_equal}
use junlge_pint_os.Strings.Text.{Text, Block, lexical, lexical-equal, lexical_self, is_prefix}

memcmp_blocks :
    (m : ℕ → ℕ) (xs ys : List ℕ) (a b : ℕ)
    → Block m a xs
    → Block m b ys
    → length xs ≡ length ys
    → memcmp a b (length xs) m ≡ lexical xs ys
unfolding memcmp lexical order
memcmp_blocks m [] [] a b h k e = refl
memcmp_blocks m [] (y ∷ ys) a b h k e = absurd (omega arith)
memcmp_blocks m (x ∷ xs) [] a b h k e = absurd (omega arith)
memcmp_blocks m (x ∷ xs) (y ∷ ys) a b h k e =
    ground (arith, memcmp_blocks m xs ys (a + 1) (b + 1) h.1 k.1 (omega arith))

strcmp-lexical :
    (m : ℕ → ℕ) (xs ys : List ℕ) (a b fuel : ℕ)
    → Text m a xs
    → Text m b ys
    → length xs < fuel
    → strcmp fuel a b m ≡ some (lexical xs ys)
unfolding strcmp lexical order
strcmp-lexical m xs ys a b zero h k lt = absurd (omega (arith, lt))
strcmp-lexical m [] [] a b (suc fuel) h k lt = ground arith
strcmp-lexical m [] (y ∷ ys) a b (suc fuel) h k lt = ground arith
strcmp-lexical m (x ∷ xs) [] a b (suc fuel) h k lt = ground arith
strcmp-lexical m (x ∷ xs) (y ∷ ys) a b (suc fuel) h k lt =
    ground (arith, strcmp-lexical m xs ys (a + 1) (b + 1) fuel h.2 k.2 (omega (arith, lt)))

-- If the strings xs and ys stand at a and b and there is more fuel than the length of xs, strcmp
-- returns the order of xs and ys in a dictionary, which is equal exactly when xs and ys are equal.
pub strcmp_lem :
    (m : ℕ → ℕ) (xs ys : List ℕ) (a b fuel : ℕ)
    → Text m a xs
    → Text m b ys
    → length xs < fuel
    → (strcmp fuel a b m ≡ some (lexical xs ys)) × ((lexical xs ys ≡ equal) ↔ (xs ≡ ys))
strcmp_lem m xs ys a b fuel h k lt = (
  strcmp-lexical m xs ys a b fuel h k lt,
  (lexical-equal xs ys, λ e. subst (λ l. lexical xs l ≡ equal) e (lexical_self xs)),
)

-- A block that starts a string.
pub memcmp_prefix :
    (m : ℕ → ℕ) (xs ys : List ℕ) (a b : ℕ)
    → Text m a xs
    → Text m b ys
    → is_equal (memcmp a b (length ys) m) ≡ is_prefix ys xs
unfolding memcmp is_prefix
memcmp_prefix m xs [] a b h k = refl
memcmp_prefix m [] (y ∷ ys) a b h k = ground arith
memcmp_prefix m (x ∷ xs) (y ∷ ys) a b h k =
    ground (arith, memcmp_prefix m xs ys (a + 1) (b + 1) h.2 k.2)
