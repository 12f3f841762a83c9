-- ===== src/Hash/Table.antt =====
-- lib/kernel/hash.c: the table as a set of elements, one for each key, that the calls look up and
-- change.
use junlge_pint_os.Common.{
  ℕ, ◌+◌, ◌<◌, ◌≡◌, ◌≢◌, refl, sym, ◌∙◌, subst, true, false, ◌⊎◌, ◌↔◌, inl, inr, Option, List, In,
  All, All-In, ◌==◌, ==_ne, if◌then◌else◌, Bool-cases,
}
use junlge_pint_os.Hash.{Hash, same_key, find_bucket, insert_elem, rehash, hash_find, hash_insert}
use junlge_pint_os.Hash.Keys.{
  IsKeyed, same_key_swap, find_bucket-lt, find_bucket-same_key, find_elem_cases, find_elem_hit,
}
use junlge_pint_os.Hash.Place.{Holds, Holds-bucket, bucket-Holds}
use junlge_pint_os.Hash.Remove.{IsTable, insert_elem_lem}
use junlge_pint_os.Hash.Install.{IsUpdate, IsKeyed-same, rehash_lem}

-- Nothing of the key is in the table, or the element of the key that is in it.
pub data Found (h : Hash) (e : ℕ) : Type 0 where
  missing : hash_find h e ≡ 0 → ((x : ℕ) → Holds h x → same_key h x e ≡ false) → Found h e
  present :
      hash_find h e ≢ 0 → Holds h (hash_find h e) → same_key h (hash_find h e) e ≡ true → Found h e

module _ (h : Hash) (k : IsKeyed h) (t : IsTable h) where
  in_range : (e : ℕ) → find_bucket h e < h.bucket_cnt
  in_range e = find_bucket-lt h e t.is_placed.some_bucket

  -- An element of the key of `e` stands in the bucket of `e`.
  Holds-same_key :
      (x e : ℕ) → Holds h x → same_key h x e ≡ true → In x (h.buckets (find_bucket h e))
  Holds-same_key x e held hit =
      subst (λ i. In x (h.buckets i)) (find_bucket-same_key h x e k hit)
        (Holds-bucket h x t.is_placed held)

  pub find : (e : ℕ) → Found h e
  unfolding hash_find
  find e = by_cases (find_elem_cases h (h.buckets (find_bucket h e)) e)
    where
      by_cases :
          ((hash_find h e ≡ 0) × All (λ x. same_key h x e ≡ false) (h.buckets (find_bucket h e)))
            ⊎ (In (hash_find h e) (h.buckets (find_bucket h e))
                × (same_key h (hash_find h e) e ≡ true))
          → Found h e
      by_cases (inl p) = missing p.0 (λ x held. elim (Bool-cases (same_key h x e)) [
        | inr q ↦ q
        | inl q ↦
            All-In (λ y. same_key h y e ≡ false) x (h.buckets (find_bucket h e)) p.1
              (Holds-same_key x e held q)
      ])
      by_cases (inr p) =
          present (t.is_placed.not_null (find_bucket h e) (hash_find h e) (in_range e) p.0)
            (bucket-Holds h (hash_find h e) (find_bucket h e) (in_range e) p.0) p.1

  -- If h is a table and its callbacks satisfy IsKeyed, then for x that is not null, hash_find for
  -- e returns x exactly when x is an element of the table and has the key of e.
  pub hash_find_lem :
      (e x : ℕ) → x ≢ 0 → (hash_find h e ≡ x) ↔ (Holds h x × (same_key h x e ≡ true))
  unfolding hash_find
  hash_find_lem e x ne = (λ q. there q (find e), λ both. back both.0 both.1)
    where
      there : hash_find h e ≡ x → Found h e → Holds h x × (same_key h x e ≡ true)
      there q (missing z all) = absurd (ne (sym q ∙ z))
      there q (present nz held hit) =
          (subst (λ y. Holds h y) q held, subst (λ y. same_key h y e ≡ true) q hit)

      back : Holds h x → same_key h x e ≡ true → hash_find h e ≡ x
      back held hit =
          find_elem_hit h (h.buckets (find_bucket h e)) x e k
            (t.is_placed.different (find_bucket h e) (in_range e)) (Holds-same_key x e held hit) hit

  -- The rehashing at the end of a call.
  pub rehashed :
      (room : Option (ℕ → List ℕ)) (h' : Hash) (P : ℕ → Type 0)
      → IsUpdate h h' P
      → IsUpdate h (rehash room h') P × ((rehash room h').elem_cnt ≡ h'.elem_cnt)
  rehashed room h' P u =
      let r = rehash_lem room h' (IsKeyed-same h h' u.same_hash u.same_less k) u.is_table in
      (
        record {
          is_table = r.0.is_table;
          holds = λ x. (
            λ held. (u.holds x).0 ((r.0.holds x).0 held),
            λ p. (r.0.holds x).1 ((u.holds x).1 p),
          );
          same_hash = r.0.same_hash ∙ u.same_hash;
          same_less = r.0.same_less ∙ u.same_less;
        },
        r.1,
      )

  -- If h is a table (each element in the bucket of its hash, no two of one key, their number in
  -- elem_cnt, a power of 2 as the number of buckets), its callbacks satisfy IsKeyed (less is
  -- irreflexive, to have the same key is transitive, and elements of the same key have the same
  -- hash), and new is not null, then, whether rehash gets memory or not, hash_insert returns what
  -- hash_find finds for new, and leaves a table with the same callbacks that holds the elements of
  -- h, and new if nothing was found; elem_cnt is one more in that case and unchanged otherwise.
  pub hash_insert_lem :
      (room : Option (ℕ → List ℕ)) (new : ℕ)
      → new ≢ 0
      → ((hash_insert room h new).0 ≡ hash_find h new)
        × IsUpdate h
            (hash_insert room h new).1
            (λ x. Holds h x ⊎ ((hash_find h new ≡ 0) × (new ≡ x)))
        × ((hash_insert room h new).1.elem_cnt
            ≡ (if hash_find h new == 0 then h.elem_cnt + 1 else h.elem_cnt))
  unfolding hash_insert hash_find insert_elem
  hash_insert_lem room new ne = let result = by_cases (find new) in (refl, result.0, result.1)
    where
      by_cases :
          Found h new
          → IsUpdate h
              (hash_insert room h new).1
              (λ x. Holds h x ⊎ ((hash_find h new ≡ 0) × (new ≡ x)))
            × ((hash_insert room h new).1.elem_cnt
                ≡ (if hash_find h new == 0 then h.elem_cnt + 1 else h.elem_cnt))
      by_cases (missing z all) =
          let inserted =
            insert_elem_lem h new t ne (λ x held. same_key_swap h new x ∙ all x held) in
          rw (z) (
            rehashed room (insert_elem h (find_bucket h new) new) _ (record {
              is_table = inserted.0;
              holds = λ x. (
                λ held. elim ((inserted.1 x).0 held) [ inl old ↦ inl old | inr q ↦ inr (refl, q) ],
                λ either. elim either [
                  | inl old ↦ (inserted.1 x).1 (inl old)
                  | inr q ↦ (inserted.1 x).1 (inr q.1)
                ],
              );
              same_hash = refl;
              same_less = refl;
            }))
      by_cases (present nz held hit) = rw (==_ne (hash_find h new) 0 nz) (
          rehashed room h _ (record {
            is_table = t;
            holds = λ x.
                (λ old. inl old, λ either. elim either [ inl old ↦ old | inr q ↦ absurd (nz q.0) ]);
            same_hash = refl;
            same_less = refl;
          }))
