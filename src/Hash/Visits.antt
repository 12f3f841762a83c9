-- ===== src/Hash/Visits.antt =====
-- lib/kernel/hash.c: `hash_apply` and `hash_clear` call a function for each element of the table.
use junlge_pint_os.Common.{
  ℕ, zero, suc, ◌+◌, ◌<◌, ◌≡◌, refl, sym, ap, ◌∙◌, some, List, [], ◌∷◌, ◌++◌, ==_ne, arith, length,
}
use junlge_pint_os.Hash.{
  Hash, for_each, destroy, apply_loop, hash_apply, clear_loop, hash_clear, init_bucket,
  init_buckets,
}
use junlge_pint_os.Hash.Buckets.{gather}
use junlge_pint_os.Hash.Place.{Holds}
use junlge_pint_os.Hash.Remove.{IsTable}
use junlge_pint_os.Hash.Rehash.{init_buckets_lem}
use junlge_pint_os.Hash.Install.{empty-IsPlaced, nothing_held, gather_empty}

-- The buckets behind `i` are as they were when the loop comes to them.
gather-init_bucket :
    (left i k : ℕ) (b : ℕ → List ℕ) → k < i → gather left i (init_bucket k b) ≡ gather left i b
unfolding init_bucket
gather-init_bucket zero i k b lt = refl
gather-init_bucket (suc left) i k b lt =
    rw
      (
        ==_ne i k (λ q. omega (arith, lt, q)),
        gather-init_bucket left (i + 1) k b (omega (arith, lt)),
      )
      refl

module _ {ℓ} {S : Type ℓ} where
  for_each-append :
      (action : ℕ → S → S) (xs ys : List ℕ) (s : S)
      → for_each action (xs ++ ys) s ≡ for_each action ys (for_each action xs s)
  unfolding for_each
  for_each-append action [] ys s = refl
  for_each-append action (x ∷ xs) ys s = for_each-append action xs ys (action x s)

  apply_loop-gather :
      (left i : ℕ) (action : ℕ → S → S) (b : ℕ → List ℕ) (s : S)
      → apply_loop left i action b s ≡ for_each action (gather left i b) s
  unfolding apply_loop for_each
  apply_loop-gather zero i action b s = refl
  apply_loop-gather (suc left) i action b s =
      apply_loop-gather left (i + 1) action b (for_each action (b i) s)
      ∙ sym (for_each-append action (b i) (gather left (i + 1) b) s)

  -- The action is called for each element once, bucket by bucket.
  pub hash_apply_lem :
      (h : Hash) (action : ℕ → S → S) (s : S)
      → hash_apply h action s ≡ for_each action (gather h.bucket_cnt 0 h.buckets) s
  unfolding hash_apply
  hash_apply_lem h action s = apply_loop-gather h.bucket_cnt 0 action h.buckets s

  clear_loop-some :
      (left i : ℕ) (d : ℕ → S → S) (b : ℕ → List ℕ) (s : S)
      → clear_loop left i (some d) b s ≡ (init_buckets left i b, for_each d (gather left i b) s)
  unfolding clear_loop init_buckets destroy for_each
  clear_loop-some zero i d b s = refl
  clear_loop-some (suc left) i d b s =
      clear_loop-some left (i + 1) d (init_bucket i b) (for_each d (b i) s)
      ∙ rw
          (
            gather-init_bucket left (i + 1) i b (omega arith),
            for_each-append d (b i) (gather left (i + 1) b) s,
          )
          refl

  -- The destructor is called for each element once, bucket by bucket, and a table without elements is left.
  pub hash_clear_lem :
      (h : Hash) (destructor : ℕ → S → S) (s : S)
      → IsTable h
      → ((hash_clear h (some destructor) s).1
          ≡ for_each destructor (gather h.bucket_cnt 0 h.buckets) s)
        × IsTable (hash_clear h (some destructor) s).0
        × ((x : ℕ) → Holds (hash_clear h (some destructor) s).0 x → Unit {0} → ⊥)
        × ((hash_clear h (some destructor) s).0.elem_cnt ≡ 0)
  unfolding hash_clear
  hash_clear_lem h d s t = rw (clear_loop-some h.bucket_cnt 0 d h.buckets s) (
    refl,
    record {
      is_placed = empty-IsPlaced cleared empty t.is_placed.some_bucket;
      sized = t.sized;
      counted =
          ap length (
            sym
              (gather_empty h.bucket_cnt 0 cleared.buckets (λ j lt. empty j (omega (arith, lt)))));
    },
    nothing_held cleared empty,
    refl,
  )
    where
      cleared : Hash
      cleared = record h { buckets = init_buckets h.bucket_cnt 0 h.buckets; elem_cnt = 0 }

      empty : (i : ℕ) → i < h.bucket_cnt → init_buckets h.bucket_cnt 0 h.buckets i ≡ []
      empty i lt =
          init_buckets_lem h.bucket_cnt 0 h.buckets i (λ below. absurd (omega (arith, below)))
            (omega (arith, lt))
