-- ===== src/Hash/Iterator.antt =====
-- lib/kernel/hash.c: the iterator. Its element is the head of the list of a bucket, an element of
-- that bucket, or null behind the last bucket.
use junlge_pint_os.Common.{
  ℕ, zero, suc, ◌+◌, ◌-◌, ◌<◌, ◌≡◌, refl, sym, ap, ◌∙◌, subst, false, inl, inr, List, [], ◌∷◌, ◌++◌,
  In, All-In, length, ◌==◌, ==_ne, ==_refl, if◌then◌else◌, arith,
}
use junlge_pint_os.Hash.{Hash, same_key}
use junlge_pint_os.Hash.Keys.{IsKeyed, Apart, same_key_self}
use junlge_pint_os.Hash.Buckets.{gather, In-append_right}
use junlge_pint_os.Hash.Place.{IsPlaced}

pub data Place : Type 0 where
  head : Place
  at : ℕ → Place
  null : Place

pub record HashIterator : Type 0 where
  pub bucket : ℕ
  pub elem : Place

unfoldable pub hash_first : HashIterator
hash_first = record { bucket = 0; elem = head }

-- The elements of the current bucket that `list_next` leads to.
unfoldable pub behind : Place → List ℕ → List ℕ
behind head xs = xs
behind (at e) [] = []
behind (at e) (x ∷ xs) = let rest = behind (at e) xs in if x == e then xs else rest
behind null xs = []

-- The loop of `hash_next`, with the elements that are left of the bucket and the number of buckets
-- behind it.
unfoldable pub next_loop : ℕ → ℕ → (ℕ → List ℕ) → List ℕ → HashIterator
next_loop left bucket buckets (x ∷ xs) = record { bucket = bucket; elem = at x }
next_loop zero bucket buckets [] = record { bucket = bucket + 1; elem = null }
next_loop (suc left) bucket buckets [] = next_loop left (bucket + 1) buckets (buckets (bucket + 1))

unfoldable pub hash_next : Hash → HashIterator → HashIterator
hash_next h i =
    next_loop (h.bucket_cnt - i.bucket - 1) i.bucket h.buckets (behind i.elem (h.buckets i.bucket))

unfoldable pub hash_cur : HashIterator → Place
hash_cur i = i.elem

-- The element that the loop `while (hash_next (&i))` sees, if it goes on.
unfoldable pub seen : Place → List ℕ → List ℕ
seen head rest = []
seen (at e) rest = e ∷ rest
seen null rest = []

-- What that loop sees, at most `fuel` elements.
unfoldable pub visited : ℕ → Hash → HashIterator → List ℕ
visited zero h i = []
visited (suc fuel) h i =
    let rest = visited fuel h (hash_next h i) in seen (hash_cur (hash_next h i)) rest

absent-append :
    (h : Hash) (x : ℕ) (pre ys : List ℕ)
    → IsKeyed h
    → Apart h (pre ++ x ∷ ys)
    → In x pre
    → Unit {0}
    → ⊥
absent-append h x [] ys k a here = here
absent-append h x (p ∷ pre) ys k a (inl q) = λ u. absurd (
    cc (
      same_key_self h x k,
      subst (λ z. same_key h z x ≡ false) q
          (All-In (λ z. same_key h p z ≡ false) x (pre ++ x ∷ ys) a.0
            (In-append_right x pre (x ∷ ys) (inl refl))),
    ))
absent-append h x (p ∷ pre) ys k a (inr here) = absent-append h x pre ys k a.1 here

behind-append :
    (x : ℕ) (pre ys : List ℕ) → (In x pre → Unit {0} → ⊥) → behind (at x) (pre ++ x ∷ ys) ≡ ys
unfolding behind
behind-append x [] ys absent = rw (==_refl x) refl
behind-append x (p ∷ pre) ys absent =
    rw (==_ne p x (λ q. absurd (absent (inl q) tt)))
      (behind-append x pre ys (λ here. absent (inr here)))

-- Where the loop of `hash_next` ends: behind the last bucket, or at the next element.
pub data IsNext (left bucket : ℕ) (b : ℕ → List ℕ) (all : List ℕ) (i : HashIterator) : Type 0 where
  ended : all ≡ [] → i.elem ≡ null → IsNext left bucket b all i
  reached :
      (x : ℕ) (pre ys : List ℕ) (later : ℕ)
      → i.elem ≡ at x
      → b i.bucket ≡ pre ++ x ∷ ys
      → i.bucket + later ≡ bucket + left
      → all ≡ x ∷ ys ++ gather later (i.bucket + 1) b
      → IsNext left bucket b all i

next_loop_lem :
    (left bucket : ℕ) (b : ℕ → List ℕ) (pre xs : List ℕ)
    → b bucket ≡ pre ++ xs
    → IsNext left bucket b (xs ++ gather left (bucket + 1) b) (next_loop left bucket b xs)
unfolding next_loop
next_loop_lem left bucket b pre (x ∷ xs) e = reached x pre xs left refl e refl refl
next_loop_lem zero bucket b pre [] e = ended refl refl
next_loop_lem (suc left) bucket b pre [] e =
    again (next_loop_lem left (bucket + 1) b [] (b (bucket + 1)) refl)
  where
    again :
        IsNext left
          (bucket + 1)
          b
          (b (bucket + 1) ++ gather left (bucket + 1 + 1) b)
          (next_loop left (bucket + 1) b (b (bucket + 1)))
        → IsNext
            (suc left)
            bucket
            b
            (gather (suc left) (bucket + 1) b)
            (next_loop left (bucket + 1) b (b (bucket + 1)))
    again (ended e n) = ended e n
    again (reached x pre ys later at_x here sum rest) =
        reached x pre ys later at_x here (omega (arith, sum)) rest

gather_first : (n : ℕ) (b : ℕ → List ℕ) → 0 < n → gather n 0 b ≡ b 0 ++ gather (n - 1) 1 b
gather_first zero b pos = absurd (omega (arith, pos))
gather_first (suc n) b pos = ap (λ k. b 0 ++ gather k 1 b) (omega arith)

append_last : (x : ℕ) (pre ys : List ℕ) → (pre ++ x ∷ []) ++ ys ≡ pre ++ x ∷ ys
append_last x [] ys = refl
append_last x (p ∷ pre) ys = ap (◌∷◌ p) (append_last x pre ys)

module _ (h : Hash) (k : IsKeyed h) (p : IsPlaced h) where
  -- Behind an element of a bucket stand the ones that follow it.
  behind_element :
      (i : HashIterator) (x : ℕ) (pre ys : List ℕ)
      → i.bucket < h.bucket_cnt
      → i.elem ≡ at x
      → h.buckets i.bucket ≡ pre ++ x ∷ ys
      → behind i.elem (h.buckets i.bucket) ≡ ys
  behind_element i x pre ys lt at_x here =
      rw (at_x, here)
        (behind-append x pre ys
          (absent-append h x pre ys k (subst (λ zs. Apart h zs) here (p.different i.bucket lt))))

  visited-gather :
      (fuel left : ℕ) (i : HashIterator) (pre xs : List ℕ)
      → h.bucket_cnt - i.bucket - 1 ≡ left
      → i.bucket < h.bucket_cnt
      → behind i.elem (h.buckets i.bucket) ≡ xs
      → h.buckets i.bucket ≡ pre ++ xs
      → length (xs ++ gather left (i.bucket + 1) h.buckets) < fuel
      → visited fuel h i ≡ xs ++ gather left (i.bucket + 1) h.buckets
  unfolding visited hash_next seen hash_cur next_loop
  visited-gather zero left i pre xs el lt eb ep enough = absurd (omega (arith, enough))
  visited-gather (suc fuel) left i pre xs el lt eb ep enough =
      rw (el, eb)
        (step (λ later i' pre' ys. visited-gather fuel later i' pre' ys)
          (next_loop_lem left i.bucket h.buckets pre xs ep))
    where
      i' : HashIterator
      i' = next_loop left i.bucket h.buckets xs

      all : List ℕ
      all = xs ++ gather left (i.bucket + 1) h.buckets

      step :
          ((later : ℕ) (i' : HashIterator) (pre ys : List ℕ)
            → h.bucket_cnt - i'.bucket - 1 ≡ later
            → i'.bucket < h.bucket_cnt
            → behind i'.elem (h.buckets i'.bucket) ≡ ys
            → h.buckets i'.bucket ≡ pre ++ ys
            → length (ys ++ gather later (i'.bucket + 1) h.buckets) < fuel
            → visited fuel h i' ≡ ys ++ gather later (i'.bucket + 1) h.buckets)
          → IsNext left i.bucket h.buckets all i'
          → seen i'.elem (visited fuel h i') ≡ all
      step again (ended e n) = rw (n) (sym e)
      step again (reached x pre' ys later at_x here sum rest) =
          let in_range : i'.bucket < h.bucket_cnt = omega (arith, sum, el, lt) in
          let others : visited fuel h i' ≡ ys ++ gather later (i'.bucket + 1) h.buckets =
            again later i' (pre' ++ x ∷ []) ys (omega (arith, sum, el, lt)) in_range
              (behind_element i' x pre' ys in_range at_x here) (here ∙ sym (append_last x pre' ys))
              (omega (arith, enough, ap length rest)) in
          rw (at_x) (ap (λ zs. x ∷ zs) others ∙ sym rest)

  -- If the elements of h are placed (each in the bucket of its hash, no two of one key in a
  -- bucket, none null, at least one bucket) and the callbacks satisfy IsKeyed, then the loop of
  -- hash_first and hash_next ends after it has seen the elements of all buckets, each in its turn:
  -- more fuel than elements is enough.
  pub visited_lem :
      (fuel : ℕ)
      → length (gather h.bucket_cnt 0 h.buckets) < fuel
      → visited fuel h hash_first ≡ gather h.bucket_cnt 0 h.buckets
  unfolding hash_first behind
  visited_lem fuel enough =
      let first : gather h.bucket_cnt 0 h.buckets
          ≡ h.buckets 0 ++ gather (h.bucket_cnt - 1) 1 h.buckets =
        gather_first h.bucket_cnt h.buckets p.some_bucket in
      visited-gather fuel (h.bucket_cnt - 1) hash_first [] (h.buckets 0) (omega arith) p.some_bucket
        refl refl (omega (arith, enough, ap length first))
      ∙ sym first
