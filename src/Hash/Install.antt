-- ===== src/Hash/Install.antt =====
-- lib/kernel/hash.c: `hash_init` makes an empty table, and `rehash` keeps the elements.
use junlge_pint_os.Common.{
  ℕ, zero, suc, ◌+◌, ◌<◌, ◌≡◌, ◌≢◌, refl, sym, ap, ◌∙◌, subst, Bool, true, not, ◌&&◌, ◌⊎◌, ◌↔◌, inl,
  inr, Option, none, some, List, [], In, length, ◌==◌, arith, Bool-cases,
}
use junlge_pint_os.Hash.{
  Hash, same_key, init_bucket, init_buckets, is_power_of_2, ideal_cnt, turn_off_least_1bit, install,
  rehash, hash_init, hash_clear, clear_loop, destroy, empty_table,
}
use junlge_pint_os.Hash.Keys.{IsKeyed, Apart}
use junlge_pint_os.Hash.Buckets.{gather, Stands, In-gather, gather-In}
use junlge_pint_os.Hash.Place.{Holds, IsPlaced, All-of}
use junlge_pint_os.Hash.Remove.{IsTable}
use junlge_pint_os.Hash.Rehash.{
  IsMoved, ideal_cnt_lem, move_bucket_lem, move_loop-gather, init_buckets_lem, Apart-gather,
}

-- `h'` is a table with the callbacks of `h` and with the elements that satisfy `P`.
pub record IsUpdate (h h' : Hash) (P : ℕ → Type 0) : Type 0 where
  pub is_table : IsTable h'
  pub holds : (x : ℕ) → Holds h' x ↔ P x
  pub same_hash : h'.hash ≡ h.hash
  pub same_less : h'.less ≡ h.less

same_key-less : (h h' : Hash) (a b : ℕ) → h'.less ≡ h.less → same_key h' a b ≡ same_key h a b
unfolding same_key
same_key-less h h' a b el = ap (λ l. not (l a b) && not (l b a)) el

pub IsKeyed-same : (h h' : Hash) → h'.hash ≡ h.hash → h'.less ≡ h.less → IsKeyed h → IsKeyed h'
IsKeyed-same h h' eh el k = record {
  irreflexive = λ a. rw (el) (k.irreflexive a);
  transitive =
      λ a b c ab bc. same a c ∙ k.transitive a b c (sym (same a b) ∙ ab) (sym (same b c) ∙ bc);
  hashed = λ a b ab. rw (eh) (k.hashed a b (sym (same a b) ∙ ab));
}
  where
    same : (a b : ℕ) → same_key h' a b ≡ same_key h a b
    same a b = same_key-less h h' a b el

pub gather_empty :
    (left i : ℕ) (b : ℕ → List ℕ) → ((j : ℕ) → j < i + left → b j ≡ []) → gather left i b ≡ []
gather_empty zero i b h = refl
gather_empty (suc left) i b h =
    rw (h i (omega arith), gather_empty left (i + 1) b (λ j lt. h j (omega (arith, lt)))) refl

-- A table of empty buckets.
module _ (h : Hash) (empty : (i : ℕ) → i < h.bucket_cnt → h.buckets i ≡ []) where
  nothing_in : (i x : ℕ) → i < h.bucket_cnt → In x (h.buckets i) → Unit {0} → ⊥
  nothing_in i x lt here = subst (λ ys. In x ys) (empty i lt) here

  pub nothing_held : (x : ℕ) → Holds h x → Unit {0} → ⊥
  nothing_held x held = nothing_in held.0 x (omega (arith, held.2)) held.3

  pub empty-IsPlaced : 0 < h.bucket_cnt → IsPlaced h
  empty-IsPlaced pos = record {
    some_bucket = pos;
    placed = λ i x lt here. absurd (nothing_in i x lt here tt);
    different = λ i lt. subst (λ ys. Apart h ys) (sym (empty i lt)) tt;
    not_null = λ i x lt here. absurd (nothing_in i x lt here tt);
  }

-- Clearing without a destructor makes every bucket empty.
clear_loop-none :
    (left i : ℕ) (b : ℕ → List ℕ) → clear_loop {S = ℕ} left i none b 0 ≡ (init_buckets left i b, 0)
unfolding clear_loop init_buckets destroy
clear_loop-none zero i b = refl
clear_loop-none (suc left) i b = clear_loop-none left (i + 1) (init_bucket i b)

-- With memory, `hash_init` makes a table without elements.
pub hash_init_lem :
    (fresh : ℕ → List ℕ) (hash : ℕ → ℕ) (less : ℕ → ℕ → Bool)
    → (h : Hash) × (hash_init (some fresh) hash less ≡ some h)
      × IsTable h
      × ((x : ℕ) → Holds h x → Unit {0} → ⊥)
      × (h.elem_cnt ≡ 0)
      × (h.hash ≡ hash)
      × (h.less ≡ less)
unfolding hash_init hash_clear empty_table is_power_of_2 turn_off_least_1bit
hash_init_lem fresh hash less = (
  made,
  rw (clear_loop-none 4 0 fresh) refl,
  record {
    is_placed = empty-IsPlaced made empty (omega arith);
    sized = refl;
    counted = ap length (sym (gather_empty 4 0 made.buckets (λ j lt. empty j (omega (arith, lt)))));
  },
  nothing_held made empty,
  refl,
  refl,
  refl,
)
  where
    made : Hash
    made = record {
      elem_cnt = 0;
      bucket_cnt = 4;
      buckets = init_buckets 4 0 fresh;
      hash = hash;
      less = less;
    }

    empty : (i : ℕ) → i < 4 → init_buckets 4 0 fresh i ≡ []
    empty i lt =
        init_buckets_lem 4 0 fresh i (λ below. absurd (omega (arith, below))) (omega (arith, lt))

module _ (h : Hash) (k : IsKeyed h) (t : IsTable h) (fresh : ℕ → List ℕ) (n : ℕ) (pos : 0 < n) where
  -- The table with `n` empty buckets, into which the elements are moved.
  emptied : Hash
  emptied = record h { buckets = init_buckets n 0 fresh; bucket_cnt = n }

  elements : List ℕ
  elements = gather h.bucket_cnt 0 h.buckets

  emptied_bucket : (i : ℕ) → i < n → init_buckets n 0 fresh i ≡ []
  emptied_bucket i lt =
      init_buckets_lem n 0 fresh i (λ below. absurd (omega (arith, below))) (omega (arith, lt))

  not_held : (x : ℕ) → Holds emptied x → Unit {0} → ⊥
  unfolding emptied
  not_held = nothing_held emptied emptied_bucket

  Apart-emptied : (xs : List ℕ) → Apart h xs → Apart emptied xs
  unfolding emptied same_key
  Apart-emptied xs a = a

  install-IsMoved : IsMoved emptied elements (install (some fresh) n h)
  unfolding emptied elements install
  install-IsMoved = rw (move_loop-gather h.bucket_cnt 0 h.buckets emptied) (
      move_bucket_lem elements emptied (empty-IsPlaced emptied emptied_bucket pos)
        (All-of (λ e. e ≢ 0) elements
          (λ e here. not_zero e (In-gather h.bucket_cnt 0 h.buckets e here)))
        (Apart-emptied elements (Apart-gather h h.bucket_cnt 0 k t.is_placed (omega arith)))
        (λ e here x held. absurd (not_held x held tt)))
    where
      not_zero : (e : ℕ) → Stands h.bucket_cnt 0 h.buckets e → e ≢ 0
      not_zero e held = t.is_placed.not_null held.0 e (omega (arith, held.2)) held.3

  install_lem :
      is_power_of_2 n ≡ true
      → IsUpdate h (install (some fresh) n h) (Holds h)
        × ((install (some fresh) n h).elem_cnt ≡ h.elem_cnt)
  unfolding emptied elements
  install_lem power = (
    record {
      is_table = record {
        is_placed = moved.is_placed;
        sized = rw (moved.same_bucket_cnt) power;
        counted = moved.same_cnt ∙ t.counted ∙ sym (moved.total ∙ none_before);
      };
      holds = λ x. (
        λ held. there x ((moved.holds x).0 held),
        λ held. (moved.holds x).1 (inr (gather-In h.bucket_cnt 0 h.buckets x held)),
      );
      same_hash = moved.same_hash;
      same_less = moved.same_less;
    },
    moved.same_cnt,
  )
    where
      moved : IsMoved emptied elements (install (some fresh) n h)
      moved = install-IsMoved

      none_before : length (gather n 0 (init_buckets n 0 fresh)) + length elements ≡ length elements
      none_before = omega (
        arith,
        ap length (
            gather_empty n 0 (init_buckets n 0 fresh)
              (λ j lt. emptied_bucket j (omega (arith, lt)))),
      )

      there : (x : ℕ) → Holds emptied x ⊎ In x elements → Holds h x
      there x (inl held) = absurd (not_held x held tt)
      there x (inr here) = In-gather h.bucket_cnt 0 h.buckets x here

update_self : (h : Hash) → IsTable h → IsUpdate h h (Holds h)
update_self h t = record {
  is_table = t;
  holds = λ x. (λ held. held, λ held. held);
  same_hash = refl;
  same_less = refl;
}

-- If h is a table and its callbacks satisfy IsKeyed, then rehash, whether it gets memory or not,
-- leaves a table with the same callbacks, the same elements and the same elem_cnt.
pub rehash_lem :
    (room : Option (ℕ → List ℕ)) (h : Hash)
    → IsKeyed h
    → IsTable h
    → IsUpdate h (rehash room h) (Holds h) × ((rehash room h).elem_cnt ≡ h.elem_cnt)
unfolding rehash install
rehash_lem room h k t = elim (Bool-cases (ideal_cnt h.elem_cnt == h.bucket_cnt)) [
  | inl q ↦ rw (q) (update_self h t, refl)
  | inr q ↦ rw (q) (grown room)
]
  where
    grown :
        (room : Option (ℕ → List ℕ))
        → IsUpdate h (install room (ideal_cnt h.elem_cnt) h) (Holds h)
          × ((install room (ideal_cnt h.elem_cnt) h).elem_cnt ≡ h.elem_cnt)
    grown none = (update_self h t, refl)
    grown (some fresh) =
        install_lem h k t fresh (ideal_cnt h.elem_cnt) (ideal_cnt_lem h.elem_cnt).1
          (ideal_cnt_lem h.elem_cnt).0
