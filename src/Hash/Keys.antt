-- ===== src/Hash/Keys.antt =====
-- lib/kernel/hash.c: what the callbacks promise, and the search of a bucket.
use native.Mathlib.Nat.{le_refl}
use Prim.Native.Nat.{bit_and}
use junlge_pint_os.Common.{
  ℕ, zero, suc, ◌-◌, ◌/◌, ◌≤◌, ◌<◌, ◌≡◌, refl, sym, ap, true, false, ◌⊎◌, inl, inr, List, [], ◌∷◌,
  All, In, All-In, subst, arith, Bool-cases,
}
use junlge_pint_os.Common.Bits.{bit_at, bit_at-bit_and}
use junlge_pint_os.Hash.{Hash, same_key, find_bucket, find_elem}

-- What the table relies on: an element is not less than itself, to have the same key is transitive,
-- and elements of the same key have the same hash.
pub record IsKeyed (h : Hash) : Type 0 where
  pub irreflexive : (a : ℕ) → h.less a a ≡ false
  pub transitive :
      (a b c : ℕ) → same_key h a b ≡ true → same_key h b c ≡ true → same_key h a c ≡ true
  pub hashed : (a b : ℕ) → same_key h a b ≡ true → h.hash a ≡ h.hash b

le_of_bits : (w x y : ℕ) → x ≤ w → ((i : ℕ) → bit_at x i ≤ bit_at y i) → x ≤ y
le_of_bits zero x y lt h = omega (arith, lt)
le_of_bits (suc w) x y lt h =
    omega (arith, lt, h 0, le_of_bits w (x / 2) (y / 2) (omega (arith, lt)) (λ i. h (suc i)))

pub bit_and-le : (x y : ℕ) → bit_and x y ≤ y
bit_and-le x y =
    le_of_bits (bit_and x y) (bit_and x y) y (le_refl (bit_and x y))
      (λ i. rw (bit_at-bit_and x y i) (omega arith))

pub find_bucket-lt : (h : Hash) (e : ℕ) → 0 < h.bucket_cnt → find_bucket h e < h.bucket_cnt
unfolding find_bucket
find_bucket-lt h e pos = omega (arith, bit_and-le (h.hash e) (h.bucket_cnt - 1), pos)

pub same_key_sym : (h : Hash) (a b : ℕ) → same_key h a b ≡ true → same_key h b a ≡ true
unfolding same_key
same_key_sym h a b e = ground (arith, e)

pub same_key_swap : (h : Hash) (a b : ℕ) → same_key h a b ≡ same_key h b a
unfolding same_key
same_key_swap h a b = ground arith

pub same_key_self : (h : Hash) (a : ℕ) → IsKeyed h → same_key h a a ≡ true
unfolding same_key
same_key_self h a k = rw (k.irreflexive a) refl

-- Elements of the same key belong in the same bucket.
pub find_bucket-same_key :
    (h : Hash) (a b : ℕ) → IsKeyed h → same_key h a b ≡ true → find_bucket h a ≡ find_bucket h b
unfolding find_bucket
find_bucket-same_key h a b k e = ap (λ x. bit_and x (h.bucket_cnt - 1)) (k.hashed a b e)

-- No two members have the same key.
abbrev pub Apart : Hash → List ℕ → Type 0
Apart h [] = Unit
Apart h (x ∷ xs) = All (λ y. same_key h x y ≡ false) xs × Apart h xs

-- Nothing of the key, or the member that was found.
pub find_elem_cases :
    (h : Hash) (xs : List ℕ) (e : ℕ)
    → ((find_elem h xs e ≡ 0) × All (λ x. same_key h x e ≡ false) xs)
      ⊎ (In (find_elem h xs e) xs × (same_key h (find_elem h xs e) e ≡ true))
unfolding find_elem
find_elem_cases h [] e = inl (refl, tt)
find_elem_cases h (x ∷ xs) e = elim (Bool-cases (same_key h x e)) [
  | inl q ↦
      let found : find_elem h (x ∷ xs) e ≡ x = rw (q) refl in
      inr (inl (sym found), subst (λ r. same_key h r e ≡ true) (sym found) q)
  | inr q ↦
      let passed : find_elem h (x ∷ xs) e ≡ find_elem h xs e = rw (q) refl in
      subst
        (λ r.
          ((r ≡ 0) × All (λ y. same_key h y e ≡ false) (x ∷ xs))
          ⊎ (In r (x ∷ xs) × (same_key h r e ≡ true)))
        (sym passed) (step q (find_elem_cases h xs e))
]
  where
    step :
        same_key h x e ≡ false
        → ((find_elem h xs e ≡ 0) × All (λ x. same_key h x e ≡ false) xs)
          ⊎ (In (find_elem h xs e) xs × (same_key h (find_elem h xs e) e ≡ true))
        → ((find_elem h xs e ≡ 0) × All (λ x. same_key h x e ≡ false) (x ∷ xs))
          ⊎ (In (find_elem h xs e) (x ∷ xs) × (same_key h (find_elem h xs e) e ≡ true))
    step miss (inl p) = inl (p.0, (miss, p.1))
    step miss (inr p) = inr (inr p.0, p.1)

-- Among members of different keys the one of the key is found.
pub find_elem_hit :
    (h : Hash) (xs : List ℕ) (x e : ℕ)
    → IsKeyed h
    → Apart h xs
    → In x xs
    → same_key h x e ≡ true
    → find_elem h xs e ≡ x
unfolding find_elem
find_elem_hit h [] x e k apart here hit = absurd (here tt)
find_elem_hit h (y ∷ xs) x e k apart (inl q) hit = rw (q, hit) refl
find_elem_hit h (y ∷ xs) x e k apart (inr q) hit = elim (Bool-cases (same_key h y e)) [
  | inl p ↦
      let same_xy = k.transitive y e x p (same_key_sym h x e hit) in
      absurd (cc (same_xy, All-In (λ z. same_key h y z ≡ false) x xs apart.0 q))
  | inr p ↦ rw (p) (find_elem_hit h xs x e k apart.1 q hit)
]
