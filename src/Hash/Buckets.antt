-- ===== src/Hash/Buckets.antt =====
-- lib/kernel/hash.c: the buckets as one sequence of elements, and what a change of one bucket does
-- to that sequence.
use native.Mathlib.Decide.{ℕ_discrete}
use junlge_pint_os.Common.{
  ℕ, zero, suc, ◌+◌, ◌≤◌, ◌<◌, ◌≡◌, ◌≢◌, refl, sym, ap, subst, ◌⊎◌, inl, inr, List, [], ◌∷◌, ◌++◌,
  In, length, length-append, ==_ne, ==_refl, arith, In-append_left,
}
use junlge_pint_os.Hash.{push_front, without}

-- The elements of `left` buckets from bucket `i` on.
abbrev pub gather : ℕ → ℕ → (ℕ → List ℕ) → List ℕ
gather zero i buckets = []
gather (suc left) i buckets = buckets i ++ gather left (i + 1) buckets

-- `x` stands in one of `left` buckets from bucket `i` on.
abbrev pub Stands : ℕ → ℕ → (ℕ → List ℕ) → ℕ → Type 0
Stands left i buckets x = (j : ℕ) × (i ≤ j) × (j < i + left) × In x (buckets j)

pub In-append_right : (a : ℕ) (xs ys : List ℕ) → In a ys → In a (xs ++ ys)
In-append_right a [] ys h = h
In-append_right a (x ∷ xs) ys h = inr (In-append_right a xs ys h)

pub In-append_split : (a : ℕ) (xs ys : List ℕ) → In a (xs ++ ys) → In a xs ⊎ In a ys
In-append_split a [] ys h = inr h
In-append_split a (x ∷ xs) ys (inl e) = inl (inl e)
In-append_split a (x ∷ xs) ys (inr h) = elim (In-append_split a xs ys h) [
  | inl p ↦ inl (inr p)
  | inr p ↦ inr p
]

pub In-gather :
    (left i : ℕ) (buckets : ℕ → List ℕ) (x : ℕ)
    → In x (gather left i buckets)
    → Stands left i buckets x
In-gather zero i buckets x h = absurd (h tt)
In-gather (suc left) i buckets x h = elim (In-append_split x (buckets i) _ h) [
  | inl p ↦ (i, omega arith, omega arith, p)
  | inr p ↦
      let later = In-gather left (i + 1) buckets x p in
      (later.0, omega (arith, later.1), omega (arith, later.2), later.3)
]

pub gather-In :
    (left i : ℕ) (buckets : ℕ → List ℕ) (x : ℕ)
    → Stands left i buckets x
    → In x (gather left i buckets)
gather-In zero i buckets x h = absurd (omega (arith, h.1, h.2))
gather-In (suc left) i buckets x h = elim (ℕ_discrete i h.0) [
  | yes e ↦ In-append_left x (buckets i) _ (subst (λ j. In x (buckets j)) (sym e) h.3)
  | no ne ↦
      In-append_right x (buckets i) _
        (gather-In left (i + 1) buckets x (h.0, omega (arith, h.1, ne), omega (arith, h.2), h.3))
]

-- A change outside the buckets that are gathered.
gather_same :
    (left i : ℕ) (b b' : ℕ → List ℕ)
    → ((j : ℕ) → i ≤ j → j < i + left → b' j ≡ b j)
    → gather left i b' ≡ gather left i b
gather_same zero i b b' same = refl
gather_same (suc left) i b b' same =
    rw
      (
        same i (omega arith) (omega arith),
        gather_same left (i + 1) b b' (λ j le lt. same j (omega (arith, le)) (omega (arith, lt))),
      )
      refl

-- Changing the bucket `k` alone changes the number of elements as it changes that of the bucket.
pub length-gather_change :
    (left i k : ℕ) (b b' : ℕ → List ℕ)
    → i ≤ k
    → k < i + left
    → ((j : ℕ) → j < i + left → j ≢ k → b' j ≡ b j)
    → length (gather left i b') + length (b k) ≡ length (gather left i b) + length (b' k)
length-gather_change zero i k b b' le lt same = absurd (omega (arith, le, lt))
length-gather_change (suc left) i k b b' le lt same = elim (ℕ_discrete i k) [
  | yes e ↦
      rw
        (gather_same left (i + 1) b b'
          (λ j from below. same j (omega (arith, below)) (λ q. omega (arith, from, e, q))))
        (omega (
          arith,
          length-append (b i) (gather left (i + 1) b),
          length-append (b' i) (gather left (i + 1) b),
          ap (λ j. length (b j)) e,
          ap (λ j. length (b' j)) e,
        ))
  | no ne ↦ omega (
    arith,
    length-append (b i) (gather left (i + 1) b),
    length-append (b' i) (gather left (i + 1) b'),
    ap length (same i (omega arith) ne),
    length-gather_change left (i + 1) k b b' (omega (arith, le, ne)) (omega (arith, lt))
        (λ j below other. same j (omega (arith, below)) other),
  )
]

pub push_front_self : (k e : ℕ) (b : ℕ → List ℕ) → push_front k e b k ≡ e ∷ b k
unfolding push_front
push_front_self k e b = rw (==_refl k) refl

pub push_front_other : (k e j : ℕ) (b : ℕ → List ℕ) → j ≢ k → push_front k e b j ≡ b j
unfolding push_front
push_front_other k e j b ne = rw (==_ne j k ne) refl

pub length-push_front :
    (left k e : ℕ) (b : ℕ → List ℕ)
    → k < left
    → length (gather left 0 (push_front k e b)) ≡ length (gather left 0 b) + 1
length-push_front left k e b lt = omega (
  arith,
  length-gather_change left 0 k b (push_front k e b) (omega arith) (omega (arith, lt))
      (λ j below ne. push_front_other k e j b ne),
  ap length (push_front_self k e b),
)

-- A sequence keeps all that is not there, and loses one member that is.
pub without_absent : (e : ℕ) (xs : List ℕ) → (In e xs → Unit {0} → ⊥) → without e xs ≡ xs
unfolding without
without_absent e [] h = refl
without_absent e (x ∷ xs) h =
    rw (==_ne x e (λ q. absurd (h (inl q) tt)), without_absent e xs (λ p. h (inr p))) refl

pub length-without : (e : ℕ) (xs : List ℕ) → In e xs → length (without e xs) + 1 ≡ length xs
unfolding without
length-without e [] h = absurd (h tt)
length-without e (x ∷ xs) h = elim (ℕ_discrete x e) [
  | yes q ↦ rw (q, ==_refl e) (omega arith)
  | no ne ↦ rw (==_ne x e ne) (omega (arith, length-without e xs (behind h ne)))
]
  where
    behind : In e (x ∷ xs) → x ≢ e → In e xs
    behind (inl q) ne = absurd (ne q)
    behind (inr p) ne = p
