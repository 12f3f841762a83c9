-- ===== src/Stdlib/Heap.antt =====
-- lib/stdlib.c: the order that a comparison gives, and heaps in it.
use junlge_pint_os.Common.{ℕ, zero, suc, ◌/◌, ◌≤◌, ◌<◌, ◌≡◌, ◌≢◌, true, false, arith}
use junlge_pint_os.Strings.{Sign}
use junlge_pint_os.Stdlib.{is_positive}

module _ {ℓ} {A : Type ℓ} where
  -- `a` is not greater than `b`.
  abbrev pub AtMost : (A → A → Sign) → A → A → Type 0
  AtMost compare a b = is_positive (compare a b) ≡ false

  -- The comparison is that of a total preorder.
  pub record IsOrder (compare : A → A → Sign) : Type ℓ where
    pub total : (a b : A) → is_positive (compare a b) ≡ true → AtMost compare b a
    pub reflexive : (a : A) → AtMost compare a a
    pub transitive : (a b c : A) → AtMost compare a b → AtMost compare b c → AtMost compare a c

  -- No element up to `cnt` is greater than its parent, for the parents from `low` on.
  abbrev pub Heap : (A → A → Sign) → ℕ → ℕ → (ℕ → A) → Type 0
  Heap compare low cnt a = (c : ℕ) → c ≤ cnt → low ≤ c / 2 → AtMost compare (a c) (a (c / 2))

  -- A heap but for the element at `i`, whose children are not greater than its parent.
  abbrev pub HeapBut : (A → A → Sign) → ℕ → ℕ → ℕ → (ℕ → A) → Type 0
  HeapBut compare low cnt i a =
      ((c : ℕ) → c ≤ cnt → low ≤ c / 2 → c / 2 ≢ i → AtMost compare (a c) (a (c / 2)))
      × ((c : ℕ) → c ≤ cnt → c / 2 ≡ i → low ≤ i / 2 → AtMost compare (a c) (a (i / 2)))

  -- The first element of a heap is the greatest.
  pub Heap-greatest :
      (compare : A → A → Sign) (cnt : ℕ) (a : ℕ → A)
      → IsOrder compare
      → Heap compare 1 cnt a
      → (fuel i : ℕ) → i ≤ fuel
      → 0 < i
      → i ≤ cnt
      → AtMost compare (a i) (a 1)
  Heap-greatest compare cnt a o h zero i lt pos le = absurd (omega (arith, lt, pos))
  Heap-greatest compare cnt a o h (suc fuel) zero lt pos le = absurd (omega (arith, pos))
  Heap-greatest compare cnt a o h (suc fuel) (suc zero) lt pos le = o.reflexive (a 1)
  Heap-greatest compare cnt a o h (suc fuel) (suc (suc i)) lt pos le =
      o.transitive (a (suc (suc i))) (a (suc (suc i) / 2)) (a 1) (h (suc (suc i)) le (omega arith))
        (Heap-greatest compare cnt a o h fuel (suc (suc i) / 2) (omega (arith, lt)) (omega arith)
          (omega (arith, le)))
