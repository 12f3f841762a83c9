-- ===== src/Hash/Rehash.antt =====
-- lib/kernel/hash.c: the number of buckets that `rehash` chooses, and the moving of the elements
-- into new buckets.
use native.Mathlib.Decide.{ℕ_discrete}
use native.Mathlib.Nat.{le_refl}
use junlge_pint_os.Common.{
  ℕ, zero, suc, ◌+◌, ◌-◌, ◌/◌, ◌≤◌, ◌<◌, ◌≡◌, ◌≢◌, refl, sym, ◌∙◌, subst, true, false, ◌⊎◌, ◌↔◌,
  inl, inr, List, [], ◌∷◌, ◌++◌, In, All, All-In, All-append, length, ltb, ==_ne, ==_refl,
  if◌then◌else◌, arith, Bool-cases,
}
use junlge_pint_os.Hash.{
  Hash, same_key, find_bucket, init_bucket, init_buckets, turn_off_least_1bit, is_power_of_2,
  power_loop, ideal_cnt, move_bucket, move_loop,
}
use junlge_pint_os.Hash.Keys.{
  IsKeyed, Apart, bit_and-le, same_key_swap, find_bucket-same_key, find_bucket-lt,
}
use junlge_pint_os.Hash.Buckets.{gather, Stands, In-gather, length-push_front}
use junlge_pint_os.Hash.Place.{
  Holds, IsPlaced, All-of, Fresh, pushed, pushed-IsPlaced, pushed-Holds,
}

turn_off_least_1bit-lt : (n : ℕ) → 0 < n → turn_off_least_1bit n < n
unfolding turn_off_least_1bit
turn_off_least_1bit-lt n pos = omega (arith, pos, bit_and-le n (n - 1))

turn_off_least_1bit-pos : (n : ℕ) → 0 < n → is_power_of_2 n ≡ false → 0 < turn_off_least_1bit n
unfolding is_power_of_2
turn_off_least_1bit-pos n pos q = ground (arith, pos, q)

-- The loop ends at a power of 2 that is not above the number it starts from.
power_loop_lem :
    (fuel n : ℕ)
    → n ≤ fuel
    → 0 < n
    → (is_power_of_2 (power_loop fuel n) ≡ true) × (0 < power_loop fuel n) × (power_loop fuel n ≤ n)
unfolding power_loop
power_loop_lem zero n le pos = absurd (omega (arith, le, pos))
power_loop_lem (suc fuel) n le pos = elim (Bool-cases (is_power_of_2 n)) [
  | inl q ↦ rw (q) (q, pos, le_refl n)
  | inr q ↦
      let smaller : turn_off_least_1bit n < n = less in
      let rest =
        power_loop_lem fuel (turn_off_least_1bit n) (omega (arith, le, smaller)) (left q) in
      rw (q) (rest.0, rest.1, omega (arith, rest.2, smaller))
]
  where
    less : turn_off_least_1bit n < n
    less = turn_off_least_1bit-lt n pos

    left : is_power_of_2 n ≡ false → 0 < turn_off_least_1bit n
    left q = turn_off_least_1bit-pos n pos q

-- The number of buckets is a power of 2 that is not above half the number of elements, or 4.
pub ideal_cnt_lem :
    (elem_cnt : ℕ)
    → (is_power_of_2 (ideal_cnt elem_cnt) ≡ true)
      × (0 < ideal_cnt elem_cnt)
      × (ideal_cnt elem_cnt ≤ (if ltb (elem_cnt / 2) 4 then 4 else elem_cnt / 2))
unfolding ideal_cnt
ideal_cnt_lem elem_cnt = power_loop_lem wanted wanted (le_refl wanted) (ground arith)
  where
    wanted : ℕ
    wanted = if ltb (elem_cnt / 2) 4 then 4 else elem_cnt / 2

-- The table `h'` is `h` with the elements `es` besides its own.
pub record IsMoved (h : Hash) (es : List ℕ) (h' : Hash) : Type 0 where
  pub is_placed : IsPlaced h'
  pub holds : (x : ℕ) → Holds h' x ↔ (Holds h x ⊎ In x es)
  pub total :
      length (gather h'.bucket_cnt 0 h'.buckets)
      ≡ length (gather h.bucket_cnt 0 h.buckets) + length es
  pub same_bucket_cnt : h'.bucket_cnt ≡ h.bucket_cnt
  pub same_cnt : h'.elem_cnt ≡ h.elem_cnt
  pub same_hash : h'.hash ≡ h.hash
  pub same_less : h'.less ≡ h.less

pub move_bucket_lem :
    (es : List ℕ) (h : Hash)
    → IsPlaced h
    → All (λ e. e ≢ 0) es
    → Apart h es
    → ((e : ℕ) → In e es → Fresh h e)
    → IsMoved h es (move_bucket es h)
unfolding move_bucket same_key
move_bucket_lem [] h p ne apart fresh = record {
  is_placed = p;
  holds = λ x. (λ held. inl held, λ either. first x either);
  total = omega arith;
  same_bucket_cnt = refl;
  same_cnt = refl;
  same_hash = refl;
  same_less = refl;
}
  where
    first : (x : ℕ) → Holds h x ⊎ In x [] → Holds h x
    first x (inl held) = held
    first x (inr none_there) = absurd (none_there tt)
move_bucket_lem (e ∷ es) h p ne apart fresh =
    let rest =
      move_bucket_lem es (pushed h e) (pushed-IsPlaced h e p ne.0 (fresh e (inl refl))) ne.1 apart.1
        (λ y here x held. fresh_in y here x ((pushed-Holds h e x p).0 held)) in
    record {
      is_placed = rest.is_placed;
      holds = λ x.
          (λ held. there x ((rest.holds x).0 held), λ either. (rest.holds x).1 (back x either));
      total = omega (
        arith,
        rest.total,
        length-push_front h.bucket_cnt (find_bucket h e) e h.buckets
            (find_bucket-lt h e p.some_bucket),
      );
      same_bucket_cnt = rest.same_bucket_cnt;
      same_cnt = rest.same_cnt;
      same_hash = rest.same_hash;
      same_less = rest.same_less;
    }
  where
    fresh_in : (y : ℕ) → In y es → (x : ℕ) → Holds h x ⊎ (e ≡ x) → same_key h y x ≡ false
    fresh_in y here x (inl held) = fresh y (inr here) x held
    fresh_in y here x (inr q) =
        subst (λ z. same_key h y z ≡ false) q
          (same_key_swap h y e ∙ All-In (λ z. same_key h e z ≡ false) y es apart.0 here)

    there : (x : ℕ) → Holds (pushed h e) x ⊎ In x es → Holds h x ⊎ In x (e ∷ es)
    there x (inl held) = elim ((pushed-Holds h e x p).0 held) [
      | inl old ↦ inl old
      | inr q ↦ inr (inl q)
    ]
    there x (inr here) = inr (inr here)

    back : (x : ℕ) → Holds h x ⊎ In x (e ∷ es) → Holds (pushed h e) x ⊎ In x es
    back x (inl held) = inl ((pushed-Holds h e x p).1 (inl held))
    back x (inr (inl q)) = inl ((pushed-Holds h e x p).1 (inr q))
    back x (inr (inr here)) = inr here

move_bucket-append :
    (xs ys : List ℕ) (h : Hash) → move_bucket (xs ++ ys) h ≡ move_bucket ys (move_bucket xs h)
unfolding move_bucket
move_bucket-append [] ys h = refl
move_bucket-append (x ∷ xs) ys h = move_bucket-append xs ys (pushed h x)

-- The loop over the old buckets moves their elements in turn.
pub move_loop-gather :
    (left i : ℕ) (b : ℕ → List ℕ) (h : Hash)
    → move_loop left i b h ≡ move_bucket (gather left i b) h
unfolding move_loop move_bucket
move_loop-gather zero i b h = refl
move_loop-gather (suc left) i b h =
    move_loop-gather left (i + 1) b (move_bucket (b i) h)
    ∙ sym (move_bucket-append (b i) (gather left (i + 1) b) h)

pub init_buckets_lem :
    (left i : ℕ) (b : ℕ → List ℕ) (j : ℕ)
    → ((j < i) → b j ≡ [])
    → j < i + left
    → init_buckets left i b j ≡ []
unfolding init_buckets init_bucket
init_buckets_lem zero i b j done lt = done (omega (arith, lt))
init_buckets_lem (suc left) i b j done lt =
    init_buckets_lem left (i + 1) (init_bucket i b) j
      (λ below. elim (ℕ_discrete j i) [
        | yes q ↦ rw (q, ==_refl i) refl
        | no ne ↦ rw (==_ne j i ne) (done (omega (arith, below, ne)))
      ])
      (omega (arith, lt))

Apart-append :
    (h : Hash) (xs ys : List ℕ)
    → Apart h xs
    → Apart h ys
    → ((x y : ℕ) → In x xs → In y ys → same_key h x y ≡ false)
    → Apart h (xs ++ ys)
Apart-append h [] ys a b between = b
Apart-append h (x ∷ xs) ys a b between = (
  All-append (λ y. same_key h x y ≡ false) xs ys a.0
      (All-of (λ y. same_key h x y ≡ false) ys (λ y here. between x y (inl refl) here)),
  Apart-append h xs ys a.1 b (λ z y p q. between z y (inr p) q),
)

-- No two elements of a table have one key, wherever they stand.
pub Apart-gather :
    (h : Hash) (left i : ℕ)
    → IsKeyed h
    → IsPlaced h
    → i + left ≤ h.bucket_cnt
    → Apart h (gather left i h.buckets)
Apart-gather h zero i k p le = tt
Apart-gather h (suc left) i k p le =
    Apart-append h (h.buckets i) (gather left (i + 1) h.buckets) (p.different i (omega (arith, le)))
      (Apart-gather h left (i + 1) k p (omega (arith, le)))
      (λ x y here later. between x y here (In-gather left (i + 1) h.buckets y later))
  where
    between :
        (x y : ℕ) → In x (h.buckets i) → Stands left (i + 1) h.buckets y → same_key h x y ≡ false
    between x y here stands = elim (Bool-cases (same_key h x y)) [
      | inr q ↦ q
      | inl q ↦ absurd (
          omega (
            arith,
            p.placed i x (omega (arith, le)) here,
            p.placed stands.0 y (omega (arith, le, stands.2)) stands.3,
            find_bucket-same_key h x y k q,
            stands.1,
          ))
    ]
