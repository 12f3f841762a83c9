-- ===== src/Lists/Ordered/Extreme.antt =====
-- lib/kernel/list.c: `list_max` and `list_min`.
use junlge_pint_os.Common.{
  ℕ, zero, suc, ◌+◌, ◌<◌, ◌≡◌, ◌≢◌, refl, sym, subst, Bool, true, false, List, [], ◌∷◌, ==_ne,
  ==_refl, arith, length, All, In, ok, Bool-cases, if◌then◌else◌, ◌⊎◌, inl, inr,
}
use junlge_pint_os.Lists.{Heap, list_begin, list_next, is_interior, is_head}
use junlge_pint_os.Lists.Chain.{Chain, Fresh}
use junlge_pint_os.Lists.Edit.{IsList}
use junlge_pint_os.Lists.Size.{or_true, Chain-is_interior}
use junlge_pint_os.Lists.Ordered.{best_loop, best_of, list_max, list_min}
use junlge_pint_os.Lists.Ordered.Insert.{IsStrict}

-- The best of `best ∷ xs`, the first one where several are.
unfoldable pub best : (ℕ → ℕ → Bool) → ℕ → List ℕ → ℕ
best better b [] = b
best better b (x ∷ xs) = best better (if better b x then x else b) xs

module _ (better : ℕ → ℕ → Bool) where
  best_loop_lem :
      (h : Heap) (l p b : ℕ) (xs : List ℕ) (fuel : ℕ)
      → Chain h p xs (l + 16)
      → All (λ u. is_interior h u ≡ true) xs
      → Fresh (l + 16) xs
      → length xs < fuel
      → best_loop fuel better l b (h.next p) h ≡ ok (best better b xs)
  unfolding best_loop list_next Chain best
  best_loop_lem h l p b xs zero c i f lt = absurd (omega (arith, lt))
  best_loop_lem h l p b [] (suc fuel) c i f lt = rw (c.0, ==_refl (l + 16)) refl
  best_loop_lem h l p b (x ∷ xs) (suc fuel) c i f lt =
      rw (c.0, ==_ne x (l + 16) (λ e. f.0 (sym e)), i.0, or_true (is_head h x))
        (best_loop_lem h l x (if better b x then x else b) xs fuel c.2 i.1 f.1 (omega (arith, lt)))

  -- Nothing is better than the best of the elements, and it is one of them.
  best-All :
      (b : ℕ) (xs : List ℕ)
      → IsStrict better
      → (better (best better b xs) b ≡ false) × All (λ x. better (best better b xs) x ≡ false) xs
  unfolding best
  best-All b [] s = (self (Bool-cases (better b b)), tt)
    where
      self : (better b b ≡ true) ⊎ (better b b ≡ false) → better b b ≡ false
      self (inl q) = absurd (cc (q, s.asymmetric b b q))
      self (inr q) = q
  best-All b (x ∷ xs) s = elim (Bool-cases (better b x)) [
    | inl q ↦
        let rest = best-All x xs s in
        let chosen : (if better b x then x else b) ≡ x = rw (q) refl in
        subst
          (λ c.
            (better (best better c xs) b ≡ false)
            × All (λ y. better (best better c xs) y ≡ false) (x ∷ xs))
          (sym chosen)
          (s.negative (best better x xs) x b rest.0 (s.asymmetric b x q), (rest.0, rest.1))
    | inr q ↦
        let rest = best-All b xs s in
        let chosen : (if better b x then x else b) ≡ b = rw (q) refl in
        subst
          (λ c.
            (better (best better c xs) b ≡ false)
            × All (λ y. better (best better c xs) y ≡ false) (x ∷ xs))
          (sym chosen) (rest.0, (s.negative (best better b xs) b x rest.0 q, rest.1))
  ]

  best-In : (b : ℕ) (xs : List ℕ) → In (best better b xs) (b ∷ xs)
  unfolding best
  best-In b [] = inl refl
  best-In b (x ∷ xs) = elim (Bool-cases (better b x)) [
    | inl q ↦
        let chosen : (if better b x then x else b) ≡ x = rw (q) refl in
        subst (λ c. In (best better c xs) (b ∷ x ∷ xs)) (sym chosen) (inr (best-In x xs))
    | inr q ↦
        let chosen : (if better b x then x else b) ≡ b = rw (q) refl in
        subst (λ c. In (best better c xs) (b ∷ x ∷ xs)) (sym chosen) (step (best-In b xs))
  ]
    where
      step : In (best better b xs) (b ∷ xs) → In (best better b xs) (b ∷ x ∷ xs)
      step (inl e) = inl e
      step (inr here) = inr (inr here)

  best_of_lem :
      (h : Heap) (l x : ℕ) (xs : List ℕ) (fuel : ℕ)
      → IsList h l (x ∷ xs)
      → l ≢ 0
      → length xs < fuel
      → best_of fuel better l h ≡ ok (best better x xs)
  unfolding best_of list_begin list_next Chain
  best_of_lem h l x xs fuel v nl lt =
      let i = Chain-is_interior h l (x ∷ xs) (l + 16) v.links nl (omega arith) v.not_null.1 in
      rw (v.links.0, ==_ne x (l + 16) (λ e. v.tail_apart.1.0 (sym e)), i.0, or_true (is_head h x))
        (best_loop_lem h l x x xs fuel v.links.2 i.1 v.tail_apart.1.1 lt)

  best_of-extreme :
      (h : Heap) (l x : ℕ) (xs : List ℕ) (fuel : ℕ)
      → IsStrict better
      → IsList h l (x ∷ xs)
      → l ≢ 0
      → length xs < fuel
      → (m : ℕ) × (best_of fuel better l h ≡ ok m)
        × In m (x ∷ xs)
        × All (λ e. better m e ≡ false) (x ∷ xs)
  best_of-extreme h l x xs fuel s v nl lt =
      let all = best-All x xs s in
      (best better x xs, best_of_lem h l x xs fuel v nl lt, best-In x xs, (all.0, all.1))

module _ (less : ℕ → ℕ → Bool) (h : Heap) (l x : ℕ) (xs : List ℕ) (fuel : ℕ) where
  -- If less is a strict order for which not to be less is transitive, the list at l, which is not
  -- null, links x :: xs, and there is more fuel than elements in xs, then list_max returns an
  -- element of the list that is less than none of its elements.
  pub list_max_lem :
      IsStrict less
      → IsList h l (x ∷ xs)
      → l ≢ 0
      → length xs < fuel
      → (m : ℕ) × (list_max less fuel l h ≡ ok m)
        × In m (x ∷ xs)
        × All (λ e. less m e ≡ false) (x ∷ xs)
  unfolding list_max
  list_max_lem s v nl lt = best_of-extreme (λ m e. less m e) h l x xs fuel s' v nl lt
    where
      s' : IsStrict (λ m e. less m e)
      s' = s

  -- The first element than which no element is less.
  pub list_min_lem :
      IsStrict less
      → IsList h l (x ∷ xs)
      → l ≢ 0
      → length xs < fuel
      → (m : ℕ) × (list_min less fuel l h ≡ ok m)
        × In m (x ∷ xs)
        × All (λ e. less e m ≡ false) (x ∷ xs)
  unfolding list_min
  list_min_lem s v nl lt = best_of-extreme (λ m e. less e m) h l x xs fuel turned v nl lt
    where
      turned : IsStrict (λ m e. less e m)
      turned = record {
        asymmetric = λ a b q. s.asymmetric b a q;
        negative = λ a b c ab bc. s.negative c b a bc ab;
      }
