-- ===== src/Lists/Size.antt =====
-- lib/kernel/list.c: the loop of `list_size`.
use junlge_pint_os.Common.{
  ℕ, zero, suc, ◌+◌, ◌<◌, ◌≡◌, ◌≢◌, refl, sym, ap, ◌∙◌, Bool, true, false, ◌||◌, List, [], ◌∷◌,
  ==_ne, ==_refl, arith, length, All, ok,
}
use junlge_pint_os.Lists.{Heap, size_loop, list_size, list_begin, list_next, is_interior, is_head}
use junlge_pint_os.Lists.Chain.{Chain, Fresh, front-Fresh}
use junlge_pint_os.Lists.Links.{next-first}
use junlge_pint_os.Lists.Edit.{IsList}

pub or_true : (b : Bool) → (b || true) ≡ true
or_true true = refl
or_true false = refl

interior : (h : Heap) (u : ℕ) → u ≢ 0 → h.prev u ≢ 0 → h.next u ≢ 0 → is_interior h u ≡ true
unfolding is_interior
interior h u a b c = ground (arith, a, b, c)

-- The elements between the ends of a chain are interior ones.
pub Chain-is_interior :
    (h : Heap) (p : ℕ) (xs : List ℕ) (e : ℕ)
    → Chain h p xs e
    → p ≢ 0
    → e ≢ 0
    → Fresh 0 xs
    → All (λ u. is_interior h u ≡ true) xs
unfolding Chain
Chain-is_interior h p [] e c np ne f = tt
Chain-is_interior h p (x ∷ xs) e c np ne f = (
  interior h x (λ q. f.0 (sym q)) (λ q. np (sym c.1 ∙ q))
      (λ q. front-Fresh 0 e xs (λ r. ne (sym r)) f.1 (sym q ∙ next-first h x xs e c.2)),
  Chain-is_interior h x xs e c.2 (λ q. f.0 (sym q)) ne f.1,
)

-- The loop of `list_size` passes the element `x` that `p` links to.
size_loop_lem :
    (h : Heap) (l p : ℕ) (xs : List ℕ) (fuel cnt : ℕ)
    → Chain h p xs (l + 16)
    → All (λ u. is_interior h u ≡ true) xs
    → Fresh (l + 16) xs
    → length xs < fuel
    → size_loop fuel l (h.next p) cnt h ≡ ok (cnt + length xs)
unfolding size_loop list_next Chain
size_loop_lem h l p [] zero cnt c i f lt = absurd (omega (arith, lt))
size_loop_lem h l p [] (suc fuel) cnt c i f lt = rw (c.0, ==_refl (l + 16)) (ap ok (omega arith))
size_loop_lem h l p (x ∷ xs) zero cnt c i f lt = absurd (omega (arith, lt))
size_loop_lem h l p (x ∷ xs) (suc fuel) cnt c i f lt =
    let more : size_loop fuel l (h.next x) (cnt + 1) h ≡ ok (cnt + 1 + length xs) =
      size_loop_lem h l x xs fuel (cnt + 1) c.2 i.1 f.1 (omega (arith, lt)) in
    rw (c.0, ==_ne x (l + 16) (λ q. f.0 (sym q)), i.0, or_true (is_head h x))
      (more ∙ ap ok (omega arith))

-- If the list at l links the elements xs, the loop of list_size ends after as many rounds as there
-- are elements, and list_size returns their number: more fuel than elements is enough.
pub list_size_lem :
    (h : Heap) (l : ℕ) (xs : List ℕ) (fuel : ℕ)
    → IsList h l xs
    → length xs < fuel
    → list_size fuel l h ≡ ok (length xs)
unfolding list_size list_begin
list_size_lem h l xs fuel v lt =
    size_loop_lem h l l xs fuel 0 v.links
      (Chain-is_interior h l xs (l + 16) v.links (λ q. v.not_null.0 (sym q)) (omega arith)
        v.not_null.1)
      v.tail_apart.1 lt
    ∙ ap ok (omega arith)
