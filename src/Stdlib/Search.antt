-- ===== src/Stdlib/Search.antt =====
-- lib/stdlib.c: `binary_search` finds a match in an ordered array exactly when there is one.
use junlge_pint_os.Common.{
  ℕ, zero, suc, ◌+◌, ◌-◌, ◌/◌, ◌≤◌, ◌<◌, ◌≡◌, ◌≢◌, refl, inl, inr, Option, none, some, ltb, arith,
  Bool-cases,
}
use junlge_pint_os.Strings.{Sign, negative, equal, positive}
use junlge_pint_os.Stdlib.{by_cmp, search_loop, binary_search}

module _ {ℓ} {A : Type ℓ} where
  -- The key is above the elements before a place, and below the ones behind it.
  abbrev pub IsOrdered : (A → A → Sign) → A → (ℕ → A) → ℕ → Type 0
  IsOrdered compare key array cnt =
      (i j : ℕ)
      → i ≤ j
      → j < cnt
      → (compare key (array j) ≡ positive → compare key (array i) ≡ positive)
        × (compare key (array i) ≡ negative → compare key (array j) ≡ negative)

  -- The result of a search among the indexes from `first` to below `last`.
  pub data IsResult (compare : A → A → Sign) (key : A) (array : ℕ → A) (first last : ℕ)
      (result : Option ℕ) : Type ℓ where
    match :
        (i : ℕ)
        → result ≡ some i
        → first ≤ i
        → i < last
        → compare key (array i) ≡ equal
        → IsResult compare key array first last result
    no_match :
        result ≡ none
        → ((i : ℕ) → first ≤ i → i < last → compare key (array i) ≢ equal)
        → IsResult compare key array first last result

  module _ (compare : A → A → Sign) (key : A) (array : ℕ → A) (cnt : ℕ)
      (ordered : IsOrdered compare key array cnt) where
    search_loop_lem :
        (fuel first last : ℕ)
        → last ≤ cnt
        → last < first + fuel
        → IsResult compare key array first last (search_loop compare fuel key array first last)
    unfolding search_loop
    search_loop_lem zero first last le enough =
        no_match refl (λ i from below. absurd (omega (arith, enough, from, below)))
    search_loop_lem (suc fuel) first last le enough = elim (Bool-cases (ltb first last)) [
      | inr q ↦ rw (q) (no_match refl (λ i from below. absurd (ground (arith, q, from, below))))
      | inl q ↦ rw (q) (
          by_sign first last (ground (arith, q)) (compare key (array (first + (last - first) / 2)))
            refl
            (λ lt.
              search_loop_lem fuel first (first + (last - first) / 2) (omega (arith, le, lt))
                (omega (arith, enough, lt)))
            (λ lt.
              search_loop_lem fuel (first + (last - first) / 2 + 1) last le
                (omega (arith, enough, lt)))
            le)
    ]
      where
        by_sign :
            (first last : ℕ)
            → first < last
            → (cmp : Sign) → compare key (array (first + (last - first) / 2)) ≡ cmp
            → (first + (last - first) / 2 < last
                → IsResult compare key array first
                    (first + (last - first) / 2)
                    (search_loop compare fuel key array first (first + (last - first) / 2)))
            → (first + (last - first) / 2 < last
                → IsResult compare key array
                    (first + (last - first) / 2 + 1)
                    last
                    (search_loop compare fuel key array (first + (last - first) / 2 + 1) last))
            → last ≤ cnt
            → IsResult compare key array first last (
                by_cmp cmp
                  (first + (last - first) / 2)
                  (search_loop compare fuel key array first (first + (last - first) / 2))
                  (search_loop compare fuel key array (first + (last - first) / 2 + 1) last))
        by_sign first last lt equal e below above le =
            match (first + (last - first) / 2) refl (omega (arith, lt)) (omega (arith, lt)) e
        by_sign first last lt negative e below above le = elim (below (omega (arith, lt))) [
          | match i r from under m ↦ match i r from (omega (arith, under, lt)) m
          | no_match r none_left ↦ no_match r (λ i from under q.
              elim (Bool-cases (ltb i (first + (last - first) / 2))) [
                | inl p ↦ none_left i from (ground (arith, p)) q
                | inr p ↦ absurd (
                    cc (
                      (ordered (first + (last - first) / 2) i (ground (arith, p))
                            (omega (arith, under, le))).1
                          e,
                      q,
                    ))
              ])
        ]
        by_sign first last lt positive e below above le = elim (above (omega (arith, lt))) [
          | match i r from under m ↦ match i r (omega (arith, from)) under m
          | no_match r none_left ↦ no_match r (λ i from under q.
              elim (Bool-cases (ltb (first + (last - first) / 2) i)) [
                | inl p ↦ none_left i (ground (arith, p)) under q
                | inr p ↦ absurd (
                    cc (
                      (ordered i (first + (last - first) / 2) (ground (arith, p))
                            (omega (arith, lt, le))).0
                          e,
                      q,
                    ))
              ])
        ]

    -- If the array is ordered for the key (an element before one that is below the key is below
    -- it, and an element behind one that is above the key is above it), binary_search ends, and
    -- either finds an index below cnt whose element compares as equal to the key, or finds none
    -- and no element below cnt compares as equal.
    pub binary_search_lem : IsResult compare key array 0 cnt (binary_search compare key array cnt)
    unfolding binary_search
    binary_search_lem = search_loop_lem (suc cnt) 0 cnt (omega arith) (omega arith)
