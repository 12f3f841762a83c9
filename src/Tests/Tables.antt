-- ===== src/Tests/Tables.antt =====
-- lib/kernel/hash.c on a table of numbers.
use junlge_pint_os.Common.{
  ℕ, suc, ◌+◌, ◌≡◌, ◌≢◌, refl, subst, true, ◌⊎◌, ◌↔◌, none, some, List, [], ◌∷◌, length, ltb, ◌==◌,
  if◌then◌else◌, arith,
}
use junlge_pint_os.Hash.{
  Hash, same_key, find_bucket, find_elem, insert_elem, push_front, init_bucket, init_buckets,
  clear_loop, destroy, hash_init, hash_clear, empty_table, hash_find, hash_insert, hash_delete,
  hash_replace, rehash, ideal_cnt, power_loop, is_power_of_2, turn_off_least_1bit, for_each,
}
use junlge_pint_os.Hash.Keys.{IsKeyed}
use junlge_pint_os.Hash.Buckets.{gather}
use junlge_pint_os.Hash.Place.{Holds}
use junlge_pint_os.Hash.Remove.{IsTable}
use junlge_pint_os.Hash.Install.{IsUpdate, IsKeyed-same, hash_init_lem, rehash_lem}
use junlge_pint_os.Hash.Table.{hash_find_lem, hash_insert_lem}
use junlge_pint_os.Hash.Change.{hash_delete_lem, hash_replace_lem}
use junlge_pint_os.Hash.Iterator.{hash_first, visited, visited_lem}
use junlge_pint_os.Hash.Visits.{hash_clear_lem}

-- What malloc gave, which nobody initialised.
abbrev garbage : ℕ → List ℕ
garbage i = i ∷ 99 ∷ []

abbrev start : Hash
start = record {
  elem_cnt = 0;
  bucket_cnt = 4;
  buckets = init_buckets 4 0 garbage;
  hash = λ e. e;
  less = ltb;
}

hash_init-start : hash_init (some garbage) (λ e. e) ltb ≡ some start
unfolding hash_init hash_clear empty_table clear_loop destroy init_buckets
hash_init-start = refl

start-IsTable : IsTable start
start-IsTable =
    let made = hash_init_lem garbage (λ e. e) ltb in
    subst IsTable (cc (made.1, hash_init-start)) made.2

start-IsKeyed : IsKeyed start
unfolding same_key
start-IsKeyed = record {
  irreflexive = λ a. ground arith;
  transitive = λ a b c ab bc. ground (arith, ab, bc);
  hashed = λ a b ab. ground (arith, ab);
}

-- With the elements 5 and 9, which go to one bucket.
abbrev one : Hash
one = (hash_insert none start 5).1

abbrev two : Hash
two = (hash_insert none one 9).1

one-IsUpdate : IsUpdate start one (λ x. Holds start x ⊎ ((hash_find start 5 ≡ 0) × (5 ≡ x)))
one-IsUpdate = (hash_insert_lem start start-IsKeyed start-IsTable none 5 (λ q. omega (arith, q))).1

one-IsKeyed : IsKeyed one
one-IsKeyed = IsKeyed-same start one one-IsUpdate.same_hash one-IsUpdate.same_less start-IsKeyed

hash_insert_example :
    ((hash_insert none one 9).0 ≡ hash_find one 9)
    × IsUpdate one (hash_insert none one 9).1 (λ x. Holds one x ⊎ ((hash_find one 9 ≡ 0) × (9 ≡ x)))
    × ((hash_insert none one 9).1.elem_cnt
        ≡ (if hash_find one 9 == 0 then one.elem_cnt + 1 else one.elem_cnt))
hash_insert_example =
    hash_insert_lem one one-IsKeyed one-IsUpdate.is_table none 9 (λ q. omega (arith, q))

two-IsKeyed : IsKeyed two
two-IsKeyed =
    IsKeyed-same one two hash_insert_example.1.same_hash hash_insert_example.1.same_less one-IsKeyed

two-IsTable : IsTable two
two-IsTable = hash_insert_example.1.is_table

find_in_two : hash_find two 5 ≡ 5
unfolding hash_find hash_insert find_bucket find_elem same_key insert_elem rehash ideal_cnt
    power_loop is_power_of_2 turn_off_least_1bit push_front init_buckets init_bucket
find_in_two = refl

hash_find_example : (hash_find two 5 ≡ 5) ↔ (Holds two 5 × (same_key two 5 5 ≡ true))
hash_find_example = hash_find_lem two two-IsKeyed two-IsTable 5 5 (λ q. omega (arith, q))

hash_delete_example :
    ((hash_delete none two 5).0 ≡ hash_find two 5)
    × IsUpdate two (hash_delete none two 5).1 (λ x. Holds two x × (x ≢ hash_find two 5))
    × ((hash_delete none two 5).1.elem_cnt + (if hash_find two 5 == 0 then 0 else 1) ≡ two.elem_cnt)
hash_delete_example = hash_delete_lem two two-IsKeyed two-IsTable none 5

hash_replace_example :
    ((hash_replace (some garbage) two 5).0 ≡ hash_find two 5)
    × IsUpdate two
        (hash_replace (some garbage) two 5).1
        (λ x. (Holds two x × (x ≢ hash_find two 5)) ⊎ (5 ≡ x))
    × ((hash_replace (some garbage) two 5).1.elem_cnt
        ≡ (if hash_find two 5 == 0 then two.elem_cnt + 1 else two.elem_cnt))
hash_replace_example =
    hash_replace_lem two two-IsKeyed two-IsTable (some garbage) 5 (λ q. omega (arith, q))

rehash_example :
    IsUpdate two (rehash (some garbage) two) (Holds two)
    × ((rehash (some garbage) two).elem_cnt ≡ two.elem_cnt)
rehash_example = rehash_lem (some garbage) two two-IsKeyed two-IsTable

visited_example :
    visited (suc (length (gather two.bucket_cnt 0 two.buckets))) two hash_first
    ≡ gather two.bucket_cnt 0 two.buckets
visited_example =
    visited_lem two two-IsKeyed two-IsTable.is_placed
      (suc (length (gather two.bucket_cnt 0 two.buckets))) (omega arith)

-- The destructor counts its calls.
hash_clear_example :
    ((hash_clear two (some (λ e n. suc n)) 0).1
      ≡ for_each (λ e n. suc n) (gather two.bucket_cnt 0 two.buckets) 0)
    × IsTable (hash_clear two (some (λ e n. suc n)) 0).0
    × ((x : ℕ) → Holds (hash_clear two (some (λ e n. suc n)) 0).0 x → Unit {0} → ⊥)
    × ((hash_clear two (some (λ e n. suc n)) 0).0.elem_cnt ≡ 0)
hash_clear_example = hash_clear_lem two (λ e n. suc n) 0 two-IsTable

ideal_cnt_run : ideal_cnt 30 ≡ 8
unfolding ideal_cnt power_loop is_power_of_2 turn_off_least_1bit
ideal_cnt_run = refl
