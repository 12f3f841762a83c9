-- ===== src/Lists/Ends.antt =====
-- lib/kernel/list.c: the two ends of a list.
use mathlib.Core.List.{append-nil}
use junlge_pint_os.Common.{
  ℕ, ◌+◌, ◌≡◌, ◌≢◌, refl, sym, ◌∙◌, subst, List, [], ◌∷◌, ◌++◌, ==_ne, arith, ok,
}
use junlge_pint_os.Lists.{
  Heap, list_insert, list_push_front, list_push_back, list_begin, list_front, list_back, list_empty,
  list_pop_front, list_pop_back, list_init,
}
use junlge_pint_os.Lists.Chain.{Chain, front, Fresh}
use junlge_pint_os.Lists.Links.{next-first}
use junlge_pint_os.Lists.Edit.{IsList, New, list_insert_lem, list_remove_lem}

prev-end : (h : Heap) (p : ℕ) (xs : List ℕ) (x e : ℕ) → Chain h p (xs ++ x ∷ []) e → h.prev e ≡ x
unfolding Chain
prev-end h p [] x e c = c.2.1
prev-end h p (y ∷ ys) x e c = prev-end h y ys x e c.2

front-append_Fresh :
    (a e : ℕ) (xs : List ℕ) (x : ℕ) → Fresh a (xs ++ x ∷ []) → a ≢ front (xs ++ x ∷ []) e
unfolding front
front-append_Fresh a e [] x f = f.0
front-append_Fresh a e (y ∷ ys) x f = f.0

-- If the list at l links the elements xs, and elem is not null and neither an element nor an end
-- of the list, list_push_back returns and the list links xs ++ elem :: [].
pub list_push_back_lem :
    (h : Heap) (l : ℕ) (xs : List ℕ) (elem : ℕ)
    → IsList h l xs
    → New elem l xs
    → (h' : Heap) × (list_push_back l elem h ≡ ok h') × IsList h' l (xs ++ elem ∷ [])
unfolding list_push_back front
list_push_back_lem h l xs elem v new =
    list_insert_lem h l xs [] elem (subst (IsList h l) (sym (append-nil xs)) v)
      (subst (New elem l) (sym (append-nil xs)) new)

-- If the list at l links the elements xs, and elem is not null and neither an element nor an end
-- of the list, list_push_front returns and the list links elem :: xs.
pub list_push_front_lem :
    (h : Heap) (l : ℕ) (xs : List ℕ) (elem : ℕ)
    → IsList h l xs
    → New elem l xs
    → (h' : Heap) × (list_push_front l elem h ≡ ok h') × IsList h' l (elem ∷ xs)
unfolding list_push_front list_begin
list_push_front_lem h l xs elem v new =
    subst (λ b. (h' : Heap) × (list_insert b elem h ≡ ok h') × IsList h' l (elem ∷ xs))
      (sym (next-first h l xs (l + 16) v.links)) (list_insert_lem h l [] xs elem v new)

-- If the list at l links the elements x :: xs, list_pop_front returns x and the list links xs.
pub list_pop_front_lem :
    (h : Heap) (l x : ℕ) (xs : List ℕ)
    → IsList h l (x ∷ xs)
    → (h' : Heap) × (list_pop_front l h ≡ ok (x, h')) × IsList h' l xs
unfolding list_pop_front list_front list_empty list_begin Chain
list_pop_front_lem h l x xs v =
    let run = list_remove_lem h l [] xs x v in
    (run.0, rw (v.links.0, ==_ne x (l + 16) (λ q. v.tail_apart.1.0 (sym q)), run.1) refl, run.2)

-- If the list at l links the elements xs ++ x :: [], list_pop_back returns x and the list links
-- xs.
pub list_pop_back_lem :
    (h : Heap) (l : ℕ) (xs : List ℕ) (x : ℕ)
    → IsList h l (xs ++ x ∷ [])
    → (h' : Heap) × (list_pop_back l h ≡ ok (x, h')) × IsList h' l xs
unfolding list_pop_back list_back list_empty list_begin front
list_pop_back_lem h l xs x v =
    let run = list_remove_lem h l xs [] x v in
    (
      run.0,
      rw (==_ne (h.next l) (l + 16) some_element, prev-end h l xs x (l + 16) v.links, run.1) refl,
      subst (IsList run.0 l) (append-nil xs) run.2,
    )
  where
    some_element : h.next l ≢ l + 16
    some_element q =
        front-append_Fresh (l + 16) (l + 16) xs x v.tail_apart.1
          (sym q ∙ next-first h l (xs ++ x ∷ []) (l + 16) v.links)

-- At an address that is not null, list_init makes a list that links no elements.
pub list_init_lem : (h : Heap) (l : ℕ) → l ≢ 0 → IsList (list_init l h) l []
unfolding list_init Chain
list_init_lem h l ne = record {
  links = (ground arith, ground arith);
  apart = (tt, tt);
  tail_apart = (omega arith, tt);
  not_null = (λ q. ne (sym q), tt);
  first = ground arith;
  end = ground arith;
}
