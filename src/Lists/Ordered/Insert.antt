-- ===== src/Lists/Ordered/Insert.antt =====
-- lib/kernel/list.c: `list_insert_ordered` keeps an ordered list in order.
use junlge_pint_os.Common.{
  ℕ, zero, suc, ◌+◌, ◌<◌, ◌≡◌, ◌≢◌, refl, sym, ap, subst, Bool, true, false, List, [], ◌∷◌, ◌++◌,
  ==_ne, ==_refl, arith, length, All, All-append, ok, Bool-cases, if◌then◌else◌, inl, inr,
}
use junlge_pint_os.Lists.{Heap, list_begin, list_next, is_interior, is_head}
use junlge_pint_os.Lists.Chain.{Chain, Fresh, front}
use junlge_pint_os.Lists.Edit.{IsList, New, list_insert_lem}
use junlge_pint_os.Lists.Size.{or_true, Chain-is_interior}
use junlge_pint_os.Lists.Ordered.{place_loop, list_insert_ordered}

-- `less` is a strict order for which "not less" is transitive, like a comparison of priorities.
pub record IsStrict (less : ℕ → ℕ → Bool) : Type 0 where
  pub asymmetric : (a b : ℕ) → less a b ≡ true → less b a ≡ false
  pub negative : (a b c : ℕ) → less a b ≡ false → less b c ≡ false → less a c ≡ false

module _ (less : ℕ → ℕ → Bool) where
  -- No element is less than one before it.
  abbrev pub Ordered : List ℕ → Type 0
  Ordered [] = Unit
  Ordered (x ∷ xs) = All (λ y. less y x ≡ false) xs × Ordered xs

  -- The elements up to the first one that `elem` is less than, and the ones from there on.
  unfoldable pub up_to : ℕ → List ℕ → List ℕ
  up_to elem [] = []
  up_to elem (x ∷ xs) = if less elem x then [] else x ∷ up_to elem xs

  unfoldable pub from : ℕ → List ℕ → List ℕ
  from elem [] = []
  from elem (x ∷ xs) = if less elem x then x ∷ xs else from elem xs

  up_to-from : (elem : ℕ) (xs : List ℕ) → up_to elem xs ++ from elem xs ≡ xs
  unfolding up_to from
  up_to-from elem [] = refl
  up_to-from elem (x ∷ xs) = elim (Bool-cases (less elem x)) [
    | inl q ↦ rw (q) refl
    | inr q ↦ rw (q) (ap (λ ys. x ∷ ys) (up_to-from elem xs))
  ]

  place_loop_lem :
      (h : Heap) (l p elem : ℕ) (xs : List ℕ) (fuel : ℕ)
      → Chain h p xs (l + 16)
      → All (λ u. is_interior h u ≡ true) xs
      → Fresh (l + 16) xs
      → length xs < fuel
      → place_loop less fuel l elem (h.next p) h ≡ ok (front (from elem xs) (l + 16))
  unfolding place_loop list_next Chain from front
  place_loop_lem h l p elem xs zero c i f lt = absurd (omega (arith, lt))
  place_loop_lem h l p elem [] (suc fuel) c i f lt = rw (c.0, ==_refl (l + 16)) refl
  place_loop_lem h l p elem (x ∷ xs) (suc fuel) c i f lt = elim (Bool-cases (less elem x)) [
    | inl q ↦ rw (c.0, ==_ne x (l + 16) (λ e. f.0 (sym e)), q) refl
    | inr q ↦
        rw (c.0, ==_ne x (l + 16) (λ e. f.0 (sym e)), q, i.0, or_true (is_head h x))
          (place_loop_lem h l x elem xs fuel c.2 i.1 f.1 (omega (arith, lt)))
  ]

  All-up_to : (P : ℕ → Type 0) (elem : ℕ) (xs : List ℕ) → All P xs → All P (up_to elem xs)
  unfolding up_to
  All-up_to P elem [] a = a
  All-up_to P elem (x ∷ xs) a = elim (Bool-cases (less elem x)) [
    | inl q ↦ rw (q) tt
    | inr q ↦ rw (q) (a.0, All-up_to P elem xs a.1)
  ]

  All-from : (P : ℕ → Type 0) (elem : ℕ) (xs : List ℕ) → All P xs → All P (from elem xs)
  unfolding from
  All-from P elem [] a = a
  All-from P elem (x ∷ xs) a = elim (Bool-cases (less elem x)) [
    | inl q ↦ rw (q) a
    | inr q ↦ rw (q) (All-from P elem xs a.1)
  ]

  Ordered-insert :
      (elem : ℕ) (xs : List ℕ)
      → IsStrict less
      → Ordered xs
      → Ordered (up_to elem xs ++ elem ∷ from elem xs)
  unfolding up_to from
  Ordered-insert elem [] s o = (tt, tt)
  Ordered-insert elem (x ∷ xs) s o = elim (Bool-cases (less elem x)) [
    | inl q ↦ rw (q) ((s.asymmetric elem x q, above xs o.0 (s.asymmetric elem x q)), o)
    | inr q ↦ rw (q) (
      All-append (λ y. less y x ≡ false) (up_to elem xs) (elem ∷ from elem xs)
          (All-up_to (λ y. less y x ≡ false) elem xs o.0)
          (q, All-from (λ y. less y x ≡ false) elem xs o.0),
      Ordered-insert elem xs s o.1,
    )
  ]
    where
      -- What is not less than `x` is not less than `elem`.
      above :
          (ys : List ℕ)
          → All (λ y. less y x ≡ false) ys
          → less x elem ≡ false
          → All (λ y. less y elem ≡ false) ys
      above [] a not_less = tt
      above (y ∷ ys) a not_less = (s.negative y x elem a.0 not_less, above ys a.1 not_less)

  -- If less is a strict order for which not to be less is transitive, the list at l, which is not
  -- null, links the elements xs, these are in order (none less than an earlier one), elem is not
  -- null and neither an element nor an end of the list, and there is more fuel than elements, then
  -- list_insert_ordered returns, the list links elem before the first of xs that it is less than,
  -- with the other elements as they were, and these are in order.
  pub list_insert_ordered_lem :
      (h : Heap) (l elem : ℕ) (xs : List ℕ) (fuel : ℕ)
      → IsStrict less
      → IsList h l xs
      → New elem l xs
      → l ≢ 0
      → Ordered xs
      → length xs < fuel
      → (h' : Heap) × (list_insert_ordered less fuel l elem h ≡ ok h')
        × IsList h' l (up_to elem xs ++ elem ∷ from elem xs)
        × Ordered (up_to elem xs ++ elem ∷ from elem xs)
  unfolding list_insert_ordered list_begin
  list_insert_ordered_lem h l elem xs fuel s v new nl o lt =
      let parts = sym (up_to-from elem xs) in
      let inserted =
        list_insert_lem h l (up_to elem xs) (from elem xs) elem (subst (IsList h l) parts v)
          (subst (New elem l) parts new) in
      let place =
        place_loop_lem h l l elem xs fuel v.links
          (Chain-is_interior h l xs (l + 16) v.links nl (omega arith) v.not_null.1) v.tail_apart.1
          lt in
      (
        inserted.0,
        rw (==_ne l 0 nl, ==_ne elem 0 new.2, place) inserted.1,
        inserted.2,
        Ordered-insert elem xs s o,
      )
