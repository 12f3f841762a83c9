-- ===== src/Lists/Edit.antt =====
-- lib/kernel/list.c: `list_insert` and `list_remove` as operations on a sequence.
use junlge_pint_os.Common.{
  ℕ, ◌+◌, ◌≡◌, ◌≢◌, sym, ap, ◌∙◌, true, not, ◌||◌, List, [], ◌∷◌, ◌++◌, ◌==◌, ==_ne, Distinct, ok,
  assert_then, arith, All-append_left, All-append_right,
}
use junlge_pint_os.Lists.{
  Heap, write, set_prev, set_next, is_interior, is_tail, list_insert, list_remove,
}
use junlge_pint_os.Lists.Chain.{
  Chain, last, front, Fresh, last-Fresh, front-Fresh, prev-front, Inserts, Removes,
}
use junlge_pint_os.Lists.Links.{next-elem, Chain-Inserts, Chain-Removes}
use junlge_pint_os.Lists.Members.{All-insert, All-remove, Distinct-insert, Distinct-remove}

-- The list at `l` links the elements `xs`, in this order.
pub record IsList (h : Heap) (l : ℕ) (xs : List ℕ) : Type 0 where
  pub links : Chain h l xs (l + 16)
  pub apart : Distinct (l ∷ xs)
  pub tail_apart : Fresh (l + 16) (l ∷ xs)
  pub not_null : Fresh 0 (l ∷ xs)
  pub first : h.prev l ≡ 0
  pub end : h.next (l + 16) ≡ 0

-- The elements that may be put into a list.
abbrev pub New : ℕ → ℕ → List ℕ → Type 0
New elem l xs = Fresh elem (l ∷ xs) × (elem ≢ l + 16) × (elem ≢ 0)

passes : (h : Heap) (b : ℕ) → b ≢ 0 → h.prev b ≢ 0 → (is_interior h b || is_tail h b) ≡ true
unfolding is_interior is_tail
passes h b ne ne' = ground (arith, ne, ne')

-- The heap that `list_insert` leaves.
inserted : Heap → ℕ → ℕ → Heap
inserted h b elem =
    set_prev b elem (
      set_next (write h.prev elem (h.prev b) b) elem (set_next elem b (set_prev elem (h.prev b) h)))

inserted-Inserts :
    (h : Heap) (b elem : ℕ) → elem ≢ b → elem ≢ h.prev b → Inserts h (inserted h b elem) b elem
unfolding inserted
inserted-Inserts h b elem ne ne' = record {
  prev_elem = ground (arith, ne);
  next_elem = ground (arith, ne, ne');
  next_before = ground (arith, ne, ne');
  prev_b = ground arith;
  prev_other = λ u p q. ground (arith, p, q);
  next_other = λ u p q. ground (arith, ne, p, q);
}

removed : Heap → ℕ → Heap
removed h elem =
    let h1 = set_next (h.prev elem) (h.next elem) h in set_prev (h1.next elem) (h1.prev elem) h1

removed-Removes : (h : Heap) (elem : ℕ) → h.prev elem ≢ elem → Removes h (removed h elem) elem
unfolding removed
removed-Removes h elem ne = record {
  next_before = ground arith;
  prev_after = ground (arith, ne);
  prev_other = λ u p. ground (arith, ne, p);
  next_other = λ u p. ground (arith, p);
}

module _ (h : Heap) (l : ℕ) (xs ys : List ℕ) (elem : ℕ) where
  -- If the list at l links the elements xs ++ ys, and elem is not null and neither an element nor
  -- an end of the list, then list_insert before the first of ys (or before the tail, where ys is
  -- empty) returns, and the list links xs ++ elem :: ys, forwards and backwards.
  pub list_insert_lem :
      IsList h l (xs ++ ys)
      → New elem l (xs ++ ys)
      → (h' : Heap) × (list_insert (front ys (l + 16)) elem h ≡ ok h')
        × IsList h' l (xs ++ elem ∷ ys)
  unfolding list_insert inserted
  list_insert_lem v new =
      let b = front ys (l + 16) in
      let before_is = prev-front h l xs ys (l + 16) v.links in
      let null_b : 0 ≢ b =
        front-Fresh 0 (l + 16) ys (omega arith)
          (All-append_right (λ u. 0 ≢ u) xs ys v.not_null.1) in
      let null_before =
        last-Fresh 0 l xs v.not_null.0 (All-append_left (λ u. 0 ≢ u) xs ys v.not_null.1) in
      let elem_b =
        front-Fresh elem (l + 16) ys new.1 (All-append_right (λ u. elem ≢ u) xs ys new.0.1) in
      let elem_before =
        last-Fresh elem l xs new.0.0 (All-append_left (λ u. elem ≢ u) xs ys new.0.1) in
      let tail_before =
        last-Fresh (l + 16) l xs v.tail_apart.0
          (All-append_left (λ u. l + 16 ≢ u) xs ys v.tail_apart.1) in
      let head_b =
        front-Fresh l (l + 16) ys (omega arith) (All-append_right (λ u. l ≢ u) xs ys v.apart.0) in
      let ins = inserted-Inserts h b elem elem_b (λ q. elem_before (q ∙ before_is)) in
      (
        inserted h b elem,
        assert_then (is_interior h b || is_tail h b) _
              (passes h b (λ q. null_b (sym q)) (λ q. null_before (sym q ∙ before_is)))
            ∙ assert_then (not (elem == 0)) _ (ap not (==_ne elem 0 new.2)),
        record {
          links =
              Chain-Inserts h (inserted h b elem) elem l xs ys (l + 16) v.links ins v.apart
                v.tail_apart new.0 new.1;
          apart = Distinct-insert elem (l ∷ xs) ys new.0 v.apart;
          tail_apart =
              All-insert (λ u. l + 16 ≢ u) elem (l ∷ xs) ys (λ q. new.1 (sym q)) v.tail_apart;
          not_null = All-insert (λ u. 0 ≢ u) elem (l ∷ xs) ys (λ q. new.2 (sym q)) v.not_null;
          first = ins.prev_other l new.0.0 (λ q. head_b (sym q)) ∙ v.first;
          end = ins.next_other (l + 16) new.1 (λ q. tail_before (sym q ∙ before_is)) ∙ v.end;
        },
      )

  -- If the list at l links the elements xs ++ elem :: ys, then list_remove of elem returns the
  -- first of ys (or the tail, where ys is empty), and the list links xs ++ ys, forwards and
  -- backwards.
  pub list_remove_lem :
      IsList h l (xs ++ elem ∷ ys)
      → (h' : Heap) × (list_remove elem h ≡ ok (front ys (l + 16), h')) × IsList h' l (xs ++ ys)
  unfolding list_remove removed is_interior front
  list_remove_lem v =
      let before_is = prev-front-elem v in
      let after_is = next-elem h l xs elem ys (l + 16) v.links in
      let null_before : 0 ≢ h.prev elem = λ q.
        last-Fresh 0 l xs v.not_null.0 (All-append_left (λ u. 0 ≢ u) xs (elem ∷ ys) v.not_null.1)
          (q ∙ before_is) in
      let not_nulls = All-append_right (λ u. 0 ≢ u) xs (elem ∷ ys) v.not_null.1 in
      let null_after : 0 ≢ h.next elem =
        λ q. front-Fresh 0 (l + 16) ys (omega arith) not_nulls.1 (q ∙ after_is) in
      let elem_before : h.prev elem ≢ elem = λ q.
        last-Fresh elem l xs
          (λ r. (All-append_right (λ u. l ≢ u) xs (elem ∷ ys) v.apart.0).0 (sym r))
          (fresh_left xs v.apart.1) (sym q ∙ before_is) in
      let head_after : l ≢ h.next elem = λ q.
        front-Fresh l (l + 16) ys (omega arith)
          (All-append_right (λ u. l ≢ u) xs (elem ∷ ys) v.apart.0).1 (q ∙ after_is) in
      let tail_before : l + 16 ≢ h.prev elem = λ q.
        last-Fresh (l + 16) l xs v.tail_apart.0
          (All-append_left (λ u. l + 16 ≢ u) xs (elem ∷ ys) v.tail_apart.1) (q ∙ before_is) in
      let rem = removed-Removes h elem elem_before in
      (
        removed h elem,
        assert_then (is_interior h elem) _ (
              interior (λ q. not_nulls.0 (sym q)) (λ q. null_before (sym q))
                (λ q. null_after (sym q)))
            ∙ ap (λ n. ok (n, removed h elem)) (rem_self elem_before ∙ after_is),
        record {
          links =
              Chain-Removes h (removed h elem) elem l xs ys (l + 16) v.links rem v.apart
                v.tail_apart;
          apart = Distinct-remove elem (l ∷ xs) ys v.apart;
          tail_apart = All-remove (λ u. l + 16 ≢ u) elem (l ∷ xs) ys v.tail_apart;
          not_null = All-remove (λ u. 0 ≢ u) elem (l ∷ xs) ys v.not_null;
          first = rem.prev_other l (λ q. head_after (sym q)) ∙ v.first;
          end = rem.next_other (l + 16) (λ q. tail_before (sym q)) ∙ v.end;
        },
      )
    where
      prev-front-elem : IsList h l (xs ++ elem ∷ ys) → h.prev elem ≡ last l xs
      prev-front-elem v = prev-front h l xs (elem ∷ ys) (l + 16) v.links

      interior : elem ≢ 0 → h.prev elem ≢ 0 → h.next elem ≢ 0 → is_interior h elem ≡ true
      interior a b c = ground (arith, a, b, c)

      rem_self : h.prev elem ≢ elem → (removed h elem).next elem ≡ h.next elem
      rem_self ne = ground (arith, ne)

      fresh_left : (zs : List ℕ) → Distinct (zs ++ elem ∷ ys) → Fresh elem zs
      fresh_left [] d = tt
      fresh_left (z ∷ zs) d =
          (λ q. (All-append_right (λ u. z ≢ u) zs (elem ∷ ys) d.0).0 (sym q), fresh_left zs d.1)
