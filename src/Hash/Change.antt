-- ===== src/Hash/Change.antt =====
-- lib/kernel/hash.c: `hash_delete` and `hash_replace`, which take an element out.
use junlge_pint_os.Common.{
  ℕ, ◌+◌, ◌≡◌, ◌≢◌, refl, sym, ◌∙◌, ◌⊎◌, inl, inr, Option, List, ◌==◌, ==_ne, if◌then◌else◌, arith,
  Bool-cases,
}
use junlge_pint_os.Hash.{
  Hash, same_key, find_bucket, insert_elem, remove_elem, hash_find, hash_replace, hash_delete,
}
use junlge_pint_os.Hash.Keys.{IsKeyed, same_key_swap}
use junlge_pint_os.Hash.Place.{Holds, Fresh}
use junlge_pint_os.Hash.Remove.{IsTable, insert_elem_lem, remove_elem_lem}
use junlge_pint_os.Hash.Install.{IsUpdate}
use junlge_pint_os.Hash.Table.{Found, missing, present, find, hash_find_lem, rehashed}

module _ (h : Hash) (k : IsKeyed h) (t : IsTable h) where
  -- If h is a table and its callbacks satisfy IsKeyed, then, whether rehash gets memory or not,
  -- hash_delete returns what hash_find finds for e, and leaves a table with the same callbacks
  -- that holds the elements of h other than the one returned; elem_cnt is one less if something
  -- was found and unchanged otherwise.
  pub hash_delete_lem :
      (room : Option (ℕ → List ℕ)) (e : ℕ)
      → ((hash_delete room h e).0 ≡ hash_find h e)
        × IsUpdate h (hash_delete room h e).1 (λ x. Holds h x × (x ≢ hash_find h e))
        × ((hash_delete room h e).1.elem_cnt + (if hash_find h e == 0 then 0 else 1) ≡ h.elem_cnt)
  unfolding hash_delete hash_find remove_elem
  hash_delete_lem room e = let result = by_cases (find h k t e) in (refl, result.0, result.1)
    where
      by_cases :
          Found h e
          → IsUpdate h (hash_delete room h e).1 (λ x. Holds h x × (x ≢ hash_find h e))
            × ((hash_delete room h e).1.elem_cnt + (if hash_find h e == 0 then 0 else 1)
                ≡ h.elem_cnt)
      by_cases (missing z all) = rw (z) (
        record {
          is_table = t;
          holds = λ x. (
            λ held. (held, t.is_placed.not_null held.0 x (omega (arith, held.2)) held.3),
            λ both. both.0,
          );
          same_hash = refl;
          same_less = refl;
        },
        omega arith,
      )
      by_cases (present nz held hit) =
          let out = remove_elem_lem h (hash_find h e) k t held in
          let result =
            rehashed h k t room (remove_elem h (hash_find h e))
              (λ x. Holds h x × (x ≢ hash_find h e))
              (record { is_table = out.0; holds = out.1; same_hash = refl; same_less = refl }) in
          rw (==_ne (hash_find h e) 0 nz) (result.0, omega (arith, result.1, out.2))

  -- What is in the table without the element of the key of `new` has other keys.
  Fresh-remove_elem :
      (new : ℕ) → Holds h (hash_find h new) → Fresh (remove_elem h (hash_find h new)) new
  unfolding same_key remove_elem
  Fresh-remove_elem new found x held =
      let out = remove_elem_lem h (hash_find h new) k t found in
      let both = (out.1 x).0 held in
      elim (Bool-cases (same_key h x new)) [
        | inr q ↦ same_key_swap h new x ∙ q
        | inl q ↦ absurd (
            both.1 (
              sym (
                (hash_find_lem h k t new x
                    (t.is_placed.not_null both.0.0 x (omega (arith, both.0.2)) both.0.3)).1
                  (both.0, q))))
      ]

  -- If h is a table, its callbacks satisfy IsKeyed, and new is not null, then, whether rehash gets
  -- memory or not, hash_replace returns what hash_find finds for new, and leaves a table with the
  -- same callbacks that holds new and the elements of h other than the one returned; elem_cnt is
  -- one more if nothing was found and unchanged otherwise.
  pub hash_replace_lem :
      (room : Option (ℕ → List ℕ)) (new : ℕ)
      → new ≢ 0
      → ((hash_replace room h new).0 ≡ hash_find h new)
        × IsUpdate h
            (hash_replace room h new).1
            (λ x. (Holds h x × (x ≢ hash_find h new)) ⊎ (new ≡ x))
        × ((hash_replace room h new).1.elem_cnt
            ≡ (if hash_find h new == 0 then h.elem_cnt + 1 else h.elem_cnt))
  unfolding hash_replace hash_find insert_elem remove_elem find_bucket
  hash_replace_lem room new ne =
      let result = by_cases (find h k t new) in (refl, result.0, result.1)
    where
      by_cases :
          Found h new
          → IsUpdate h
              (hash_replace room h new).1
              (λ x. (Holds h x × (x ≢ hash_find h new)) ⊎ (new ≡ x))
            × ((hash_replace room h new).1.elem_cnt
                ≡ (if hash_find h new == 0 then h.elem_cnt + 1 else h.elem_cnt))
      by_cases (missing z all) =
          let in_ = insert_elem_lem h new t ne (λ x held. same_key_swap h new x ∙ all x held) in
          rw (z) (
            rehashed h k t room (insert_elem h (find_bucket h new) new) _ (record {
              is_table = in_.0;
              holds = λ x. (
                λ held. elim ((in_.1 x).0 held) [
                  | inl old ↦ inl (old, t.is_placed.not_null old.0 x (omega (arith, old.2)) old.3)
                  | inr q ↦ inr q
                ],
                λ either. elim either [
                  | inl old ↦ (in_.1 x).1 (inl old.0)
                  | inr q ↦ (in_.1 x).1 (inr q)
                ],
              );
              same_hash = refl;
              same_less = refl;
            }))
      by_cases (present nz held hit) =
          let out = remove_elem_lem h (hash_find h new) k t held in
          let in_ =
            insert_elem_lem (remove_elem h (hash_find h new)) new out.0 ne
              (Fresh-remove_elem new held) in
          let result =
            rehashed h k t room
              (insert_elem (remove_elem h (hash_find h new)) (find_bucket h new) new)
              (λ x. (Holds h x × (x ≢ hash_find h new)) ⊎ (new ≡ x))
              (record {
                is_table = in_.0;
                holds = λ x. (
                  λ still. elim ((in_.1 x).0 still) [
                    | inl old ↦ inl ((out.1 x).0 old)
                    | inr q ↦ inr q
                  ],
                  λ either. elim either [
                    | inl both ↦ (in_.1 x).1 (inl ((out.1 x).1 both))
                    | inr q ↦ (in_.1 x).1 (inr q)
                  ],
                );
                same_hash = refl;
                same_less = refl;
              }) in
          rw (==_ne (hash_find h new) 0 nz) (result.0, omega (arith, result.1, out.2))
