-- ===== src/Hash.antt =====
-- lib/kernel/hash.c. An element is its address, 0 is null. A bucket is the sequence of its elements;
-- the links of a list are the matter of Lists. `hash` and `less` are the callbacks of the table,
-- `aux` included. What malloc gives is an argument: nothing, or an array that nobody initialised.
-- A callback that acts on elements acts on a state. That rehash frees the old buckets in the end does
-- not change the table.
pub mod Keys
pub mod Buckets
pub mod Place
pub mod Remove
pub mod Rehash
pub mod Install
pub mod Table
pub mod Change
pub mod Visits
pub mod Iterator
pub mod Values
use Prim.Native.Nat.{bit_and, bit_xor}
use junlge_pint_os.Common.{
  ℕ, zero, suc, ◌+◌, ◌-◌, ◌*◌, ◌/◌, ◌%◌, ◌^◌, Bool, true, false, not, ◌&&◌, Option, none, some,
  List, [], ◌∷◌, ltb, ◌==◌, if◌then◌else◌,
}

pub record Hash : Type 0 where
  pub elem_cnt : ℕ
  pub bucket_cnt : ℕ
  pub buckets : ℕ → List ℕ
  pub hash : ℕ → ℕ
  pub less : ℕ → ℕ → Bool

-- `list_init (&buckets[i])`.
unfoldable pub init_bucket : ℕ → (ℕ → List ℕ) → ℕ → List ℕ
init_bucket i buckets j = if j == i then [] else buckets j

-- `for (i = 0; i < cnt; i++) list_init (&buckets[i]);` from `i` on, over the buckets left.
unfoldable pub init_buckets : ℕ → ℕ → (ℕ → List ℕ) → ℕ → List ℕ
init_buckets zero i buckets = buckets
init_buckets (suc left) i buckets = init_buckets left (i + 1) (init_bucket i buckets)

unfoldable pub push_front : ℕ → ℕ → (ℕ → List ℕ) → ℕ → List ℕ
push_front i e buckets j = if j == i then e ∷ buckets j else buckets j

-- A sequence without an element.
unfoldable pub without : ℕ → List ℕ → List ℕ
without e [] = []
without e (x ∷ xs) = if x == e then xs else x ∷ without e xs

module _ {ℓ} {S : Type ℓ} where
  -- `destructor` or an action, called for each element of a bucket from its front on.
  unfoldable pub for_each : (ℕ → S → S) → List ℕ → S → S
  for_each action [] s = s
  for_each action (e ∷ es) s = for_each action es (action e s)

  unfoldable pub destroy : Option (ℕ → S → S) → List ℕ → S → S
  destroy none bucket s = s
  destroy (some destructor) bucket s = for_each destructor bucket s

  -- From bucket `i` on, over the buckets left.
  unfoldable pub clear_loop : ℕ → ℕ → Option (ℕ → S → S) → (ℕ → List ℕ) → S → (ℕ → List ℕ) × S
  clear_loop zero i destructor buckets s = (buckets, s)
  clear_loop (suc left) i destructor buckets s =
      clear_loop left (i + 1) destructor (init_bucket i buckets) (destroy destructor (buckets i) s)

  unfoldable pub hash_clear : Hash → Option (ℕ → S → S) → S → Hash × S
  hash_clear h destructor s =
      let cleared = clear_loop h.bucket_cnt 0 destructor h.buckets s in
      (record h { buckets = cleared.0; elem_cnt = 0 }, cleared.1)

  -- With the state that the final `free` of the buckets leaves.
  unfoldable pub hash_destroy : (S → S) → Hash → Option (ℕ → S → S) → S → S
  hash_destroy free h none s = free s
  hash_destroy free h (some destructor) s = free (hash_clear h (some destructor) s).1

  unfoldable pub apply_loop : ℕ → ℕ → (ℕ → S → S) → (ℕ → List ℕ) → S → S
  apply_loop zero i action buckets s = s
  apply_loop (suc left) i action buckets s =
      apply_loop left (i + 1) action buckets (for_each action (buckets i) s)

  unfoldable pub hash_apply : Hash → (ℕ → S → S) → S → S
  hash_apply h action s = apply_loop h.bucket_cnt 0 action h.buckets s

unfoldable pub empty_table : (ℕ → List ℕ) → (ℕ → ℕ) → (ℕ → ℕ → Bool) → Hash
empty_table buckets hash less = record {
  elem_cnt = 0;
  bucket_cnt = 4;
  buckets = buckets;
  hash = hash;
  less = less;
}

-- `none` where malloc fails and the result is false.
unfoldable pub hash_init : Option (ℕ → List ℕ) → (ℕ → ℕ) → (ℕ → ℕ → Bool) → Option Hash
hash_init none hash less = none
hash_init (some fresh) hash less = some (hash_clear {S = ℕ} (empty_table fresh hash less) none 0).0

unfoldable pub find_bucket : Hash → ℕ → ℕ
find_bucket h e = bit_and (h.hash e) (h.bucket_cnt - 1)

-- The elements that neither is less than the other.
unfoldable pub same_key : Hash → ℕ → ℕ → Bool
same_key h a b = not (h.less a b) && not (h.less b a)

unfoldable pub find_elem : Hash → List ℕ → ℕ → ℕ
find_elem h [] e = 0
find_elem h (hi ∷ bucket) e =
    let rest = find_elem h bucket e in if same_key h hi e then hi else rest

unfoldable pub turn_off_least_1bit : ℕ → ℕ
turn_off_least_1bit x = bit_and x (x - 1)

unfoldable pub is_power_of_2 : ℕ → Bool
is_power_of_2 x = not (x == 0) && (turn_off_least_1bit x == 0)

-- `while (!is_power_of_2 (n)) n = turn_off_least_1bit (n);` on fuel.
unfoldable pub power_loop : ℕ → ℕ → ℕ
power_loop zero n = n
power_loop (suc fuel) n =
    let rest = power_loop fuel (turn_off_least_1bit n) in if not (is_power_of_2 n) then rest else n

-- The number of buckets for a number of elements. Each round makes it less, so it is enough fuel.
unfoldable pub ideal_cnt : ℕ → ℕ
ideal_cnt elem_cnt =
    let new_bucket_cnt = if ltb (elem_cnt / 2) 4 then 4 else elem_cnt / 2 in
    power_loop new_bucket_cnt new_bucket_cnt

-- Moves the elements of an old bucket, the first one first.
unfoldable pub move_bucket : List ℕ → Hash → Hash
move_bucket [] h = h
move_bucket (e ∷ es) h =
    move_bucket es (record h { buckets = push_front (find_bucket h e) e h.buckets })

-- From the old bucket `i` on, over the buckets left.
unfoldable pub move_loop : ℕ → ℕ → (ℕ → List ℕ) → Hash → Hash
move_loop zero i old_buckets h = h
move_loop (suc left) i old_buckets h =
    move_loop left (i + 1) old_buckets (move_bucket (old_buckets i) h)

unfoldable pub install : Option (ℕ → List ℕ) → ℕ → Hash → Hash
install none new_bucket_cnt h = h
install (some fresh) new_bucket_cnt h =
    move_loop h.bucket_cnt 0 h.buckets
      (record h { buckets = init_buckets new_bucket_cnt 0 fresh; bucket_cnt = new_bucket_cnt })

unfoldable pub rehash : Option (ℕ → List ℕ) → Hash → Hash
rehash room h =
    if ideal_cnt h.elem_cnt == h.bucket_cnt then h else install room (ideal_cnt h.elem_cnt) h

unfoldable pub insert_elem : Hash → ℕ → ℕ → Hash
insert_elem h bucket e = record h {
  elem_cnt = h.elem_cnt + 1;
  buckets = push_front bucket e h.buckets;
}

-- `list_remove` takes the element off the bucket that links it.
unfoldable pub remove_elem : Hash → ℕ → Hash
remove_elem h e = record h { elem_cnt = h.elem_cnt - 1; buckets = λ i. without e (h.buckets i) }

unfoldable pub hash_find : Hash → ℕ → ℕ
hash_find h e = find_elem h (h.buckets (find_bucket h e)) e

unfoldable pub hash_insert : Option (ℕ → List ℕ) → Hash → ℕ → ℕ × Hash
hash_insert room h new =
    let old = find_elem h (h.buckets (find_bucket h new)) new in
    (old, rehash room (if old == 0 then insert_elem h (find_bucket h new) new else h))

unfoldable pub hash_replace : Option (ℕ → List ℕ) → Hash → ℕ → ℕ × Hash
hash_replace room h new =
    let old = find_elem h (h.buckets (find_bucket h new)) new in
    let h' = if not (old == 0) then remove_elem h old else h in
    (old, rehash room (insert_elem h' (find_bucket h new) new))

unfoldable pub hash_delete : Option (ℕ → List ℕ) → Hash → ℕ → ℕ × Hash
hash_delete room h e =
    let found = find_elem h (h.buckets (find_bucket h e)) e in
    (found, if not (found == 0) then rehash room (remove_elem h found) else h)

unfoldable pub hash_size : Hash → ℕ
hash_size h = h.elem_cnt

unfoldable pub hash_empty : Hash → Bool
hash_empty h = h.elem_cnt == 0

abbrev pub fnv_64_prime : ℕ
fnv_64_prime = 1099511628211

abbrev pub fnv_64_basis : ℕ
fnv_64_basis = 14695981039346656037

-- `hash = (hash * FNV_64_PRIME) ^ byte`.
unfoldable pub fnv_step : ℕ → ℕ → ℕ
fnv_step hash byte = bit_xor (hash * fnv_64_prime % 2 ^ 64) byte

unfoldable pub fnv_loop : ℕ → ℕ → ℕ → (ℕ → ℕ) → ℕ
fnv_loop zero buf hash m = hash
fnv_loop (suc size) buf hash m = fnv_loop size (buf + 1) (fnv_step hash (m buf)) m

unfoldable pub hash_bytes : ℕ → ℕ → (ℕ → ℕ) → ℕ
hash_bytes buf size m = fnv_loop size buf fnv_64_basis m

-- On fuel: `none` where the end of the string lies beyond it.
unfoldable pub string_loop : ℕ → ℕ → ℕ → (ℕ → ℕ) → Option ℕ
string_loop zero s hash m = none
string_loop (suc fuel) s hash m =
    let rest = string_loop fuel (s + 1) (fnv_step hash (m s)) m in
    if not (m s == 0) then rest else some hash

unfoldable pub hash_string : ℕ → ℕ → (ℕ → ℕ) → Option ℕ
hash_string fuel s m = string_loop fuel s fnv_64_basis m

-- The four bytes of an int, lowest first, stand at the address 0 of a memory of their own.
unfoldable pub hash_int : ℕ → ℕ
hash_int i = hash_bytes 0 4 (λ a. i / 256 ^ a % 256)
