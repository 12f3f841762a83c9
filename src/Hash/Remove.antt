-- ===== src/Hash/Remove.antt =====
-- lib/kernel/hash.c: `remove_elem`, with what a table is: its elements placed and counted.
use native.Mathlib.Decide.{ℕ_discrete}
use junlge_pint_os.Common.{
  ℕ, suc, ◌+◌, ◌-◌, ◌<◌, ◌≡◌, ◌≢◌, refl, sym, ◌∙◌, subst, true, false, ◌⊎◌, ◌↔◌, inl, inr, List, [],
  ◌∷◌, In, All-In, length, ==_ne, ==_refl, arith,
}
use junlge_pint_os.Hash.{
  Hash, same_key, find_bucket, without, insert_elem, remove_elem, is_power_of_2,
}
use junlge_pint_os.Hash.Keys.{IsKeyed, Apart, same_key_self, find_bucket-lt}
use junlge_pint_os.Hash.Buckets.{
  gather, length-gather_change, length-push_front, without_absent, length-without,
}
use junlge_pint_os.Hash.Place.{
  Holds, IsPlaced, Holds-bucket, All-of, Fresh, pushed, pushed-IsPlaced, pushed-Holds,
}

-- Each element in its bucket, no two of one key, `elem_cnt` their number, and a power of 2 as the
-- number of buckets.
pub record IsTable (h : Hash) : Type 0 where
  pub is_placed : IsPlaced h
  pub sized : is_power_of_2 h.bucket_cnt ≡ true
  pub counted : h.elem_cnt ≡ length (gather h.bucket_cnt 0 h.buckets)

pub count-IsPlaced : (h : Hash) (n : ℕ) → IsPlaced h → IsPlaced (record h { elem_cnt = n })
unfolding find_bucket same_key
count-IsPlaced h n p = record {
  some_bucket = p.some_bucket;
  placed = p.placed;
  different = p.different;
  not_null = p.not_null;
}

pub insert_elem_lem :
    (h : Hash) (e : ℕ)
    → IsTable h
    → e ≢ 0
    → Fresh h e
    → IsTable (insert_elem h (find_bucket h e) e)
      × ((x : ℕ) → Holds (insert_elem h (find_bucket h e) e) x ↔ (Holds h x ⊎ (e ≡ x)))
unfolding insert_elem
insert_elem_lem h e t ne fresh = (
  record {
    is_placed =
        count-IsPlaced (pushed h e) (h.elem_cnt + 1) (pushed-IsPlaced h e t.is_placed ne fresh);
    sized = t.sized;
    counted = omega (
      arith,
      t.counted,
      length-push_front h.bucket_cnt (find_bucket h e) e h.buckets
          (find_bucket-lt h e t.is_placed.some_bucket),
    );
  },
  λ x. pushed-Holds h e x t.is_placed,
)

without_first : (e y : ℕ) (xs : List ℕ) → y ≡ e → without e (y ∷ xs) ≡ xs
unfolding without
without_first e y xs q = rw (q, ==_refl e) refl

without_next : (e y : ℕ) (xs : List ℕ) → y ≢ e → without e (y ∷ xs) ≡ y ∷ without e xs
unfolding without
without_next e y xs ne = rw (==_ne y e ne) refl

without-In : (e x : ℕ) (xs : List ℕ) → In x (without e xs) → In x xs
unfolding without
without-In e x [] h = h
without-In e x (y ∷ xs) h = elim (ℕ_discrete y e) [
  | yes q ↦ inr (subst (λ ys. In x ys) (without_first e y xs q) h)
  | no ne ↦ step (without-In e x xs) (subst (λ ys. In x ys) (without_next e y xs ne) h)
]
  where
    step : (In x (without e xs) → In x xs) → In x (y ∷ without e xs) → In x (y ∷ xs)
    step rest (inl q) = inl q
    step rest (inr p) = inr (rest p)

In-without : (e x : ℕ) (xs : List ℕ) → In x xs → x ≢ e → In x (without e xs)
unfolding without
In-without e x [] h ne = h
In-without e x (y ∷ xs) h ne = elim (ℕ_discrete y e) [
  | yes q ↦ subst (λ ys. In x ys) (sym (without_first e y xs q)) (behind q h)
  | no other ↦
      subst (λ ys. In x ys) (sym (without_next e y xs other)) (step (λ p. In-without e x xs p ne) h)
]
  where
    behind : y ≡ e → In x (y ∷ xs) → In x xs
    behind q (inl p) = absurd (ne (sym p ∙ q))
    behind q (inr p) = p

    step : (In x xs → In x (without e xs)) → In x (y ∷ xs) → In x (y ∷ without e xs)
    step rest (inl q) = inl q
    step rest (inr p) = inr (rest p)

Apart-without : (h : Hash) (e : ℕ) (xs : List ℕ) → Apart h xs → Apart h (without e xs)
unfolding without
Apart-without h e [] a = a
Apart-without h e (y ∷ xs) a = elim (ℕ_discrete y e) [
  | yes q ↦ subst (λ ys. Apart h ys) (sym (without_first e y xs q)) a.1
  | no ne ↦
      subst (λ ys. Apart h ys) (sym (without_next e y xs ne))
        (
          All-of (λ z. same_key h y z ≡ false) (without e xs)
              (λ z p. All-In (λ w. same_key h y w ≡ false) z xs a.0 (without-In e z xs p)),
          Apart-without h e xs a.1,
        )
]

-- Where no two members have one key, none is left of the one taken out.
without_gone :
    (h : Hash) (e : ℕ) (xs : List ℕ) → IsKeyed h → Apart h xs → In e (without e xs) → Unit {0} → ⊥
unfolding without
without_gone h e [] k a here = here
without_gone h e (y ∷ xs) k a here = elim (ℕ_discrete y e) [
  | yes q ↦
      let later : In e xs = subst (λ ys. In e ys) (without_first e y xs q) here in
      let apart : same_key h y e ≡ false = All-In (λ z. same_key h y z ≡ false) e xs a.0 later in
      λ u. absurd (cc (same_key_self h e k, subst (λ z. same_key h z e ≡ false) q apart))
  | no ne ↦
      step ne (without_gone h e xs k a.1) (subst (λ ys. In e ys) (without_next e y xs ne) here)
]
  where
    step : y ≢ e → (In e (without e xs) → Unit {0} → ⊥) → In e (y ∷ without e xs) → Unit {0} → ⊥
    step ne rest (inl q) = λ u. ne q
    step ne rest (inr p) = rest p

-- The table without `e`.
abbrev pub removed : Hash → ℕ → Hash
removed h e = record h { buckets = λ i. without e (h.buckets i) }

removed-IsPlaced : (h : Hash) (e : ℕ) → IsPlaced h → IsPlaced (removed h e)
unfolding find_bucket same_key
removed-IsPlaced h e p = record {
  some_bucket = p.some_bucket;
  placed = λ i x lt here. p.placed i x lt (without-In e x (h.buckets i) here);
  different = λ i lt. Apart-without h e (h.buckets i) (p.different i lt);
  not_null = λ i x lt here. p.not_null i x lt (without-In e x (h.buckets i) here);
}

-- The other buckets do not hold `e`.
removed_other :
    (h : Hash) (e i : ℕ)
    → IsPlaced h
    → i < h.bucket_cnt
    → i ≢ find_bucket h e
    → without e (h.buckets i) ≡ h.buckets i
removed_other h e i p lt ne =
    without_absent e (h.buckets i) (λ here u. ne (sym (p.placed i e lt here)))

pub remove_elem_lem :
    (h : Hash) (e : ℕ)
    → IsKeyed h
    → IsTable h
    → Holds h e
    → IsTable (remove_elem h e)
      × ((x : ℕ) → Holds (remove_elem h e) x ↔ (Holds h x × (x ≢ e)))
      × (suc (remove_elem h e).elem_cnt ≡ h.elem_cnt)
unfolding remove_elem
remove_elem_lem h e k t held = (
  record {
    is_placed = count-IsPlaced (removed h e) (h.elem_cnt - 1) (removed-IsPlaced h e p);
    sized = t.sized;
    counted = omega (arith, t.counted, fewer, one_less);
  },
  λ x. (λ still. (there x still, gone x still), λ both. back x both.0 both.1),
  omega (arith, t.counted, fewer, one_less),
)
  where
    p : IsPlaced h
    p = t.is_placed

    one_less :
        length (without e (h.buckets (find_bucket h e))) + 1 ≡ length (h.buckets (find_bucket h e))
    one_less = length-without e (h.buckets (find_bucket h e)) (Holds-bucket h e p held)

    fewer :
        length (gather h.bucket_cnt 0 (λ i. without e (h.buckets i)))
          + length (h.buckets (find_bucket h e))
        ≡ length (gather h.bucket_cnt 0 h.buckets)
          + length (without e (h.buckets (find_bucket h e)))
    fewer =
        length-gather_change h.bucket_cnt 0 (find_bucket h e) h.buckets
          (λ i. without e (h.buckets i)) (omega arith)
          (omega (arith, find_bucket-lt h e p.some_bucket))
          (λ i lt ne. removed_other h e i p (omega (arith, lt)) ne)

    there : (x : ℕ) → Holds (removed h e) x → Holds h x
    there x still = (still.0, still.1, still.2, without-In e x (h.buckets still.0) still.3)

    gone : (x : ℕ) → Holds (removed h e) x → x ≢ e
    gone x still q =
        without_gone h e (h.buckets still.0) k (p.different still.0 (omega (arith, still.2)))
          (subst (λ y. In y (without e (h.buckets still.0))) q still.3) tt

    back : (x : ℕ) → Holds h x → x ≢ e → Holds (removed h e) x
    back x held_x ne =
        (held_x.0, held_x.1, held_x.2, In-without e x (h.buckets held_x.0) held_x.3 ne)
