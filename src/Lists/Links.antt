-- ===== src/Lists/Links.antt =====
-- lib/kernel/list.c: changes of the links, and the sequence that they link.
use junlge_pint_os.Common.{
  ℕ, ◌≡◌, ◌≢◌, sym, ap, ◌∙◌, List, [], ◌∷◌, ◌++◌, Distinct, All-append_left, All-append_right,
  All-zip, All-map_in,
}
use junlge_pint_os.Lists.{Heap}
use junlge_pint_os.Lists.Chain.{
  Chain, front, Fresh, last-Fresh, front-Fresh, prev-front, Chain-frame, Inserts, Removes,
}

pub next-first : (h : Heap) (p : ℕ) (ys : List ℕ) (e : ℕ) → Chain h p ys e → h.next p ≡ front ys e
unfolding Chain front
next-first h p [] e c = c.0
next-first h p (y ∷ ys) e c = c.0

-- What follows an element in its chain.
pub next-elem :
    (h : Heap) (p : ℕ) (xs : List ℕ) (elem : ℕ) (ys : List ℕ) (e : ℕ)
    → Chain h p (xs ++ elem ∷ ys) e
    → h.next elem ≡ front ys e
unfolding Chain
next-elem h p [] elem ys e c = next-first h elem ys e c.2
next-elem h p (x ∷ xs) elem ys e c = next-elem h x xs elem ys e c.2

module _ (h h' : Heap) (elem : ℕ) where
  pub Chain-Inserts :
      (p : ℕ) (xs ys : List ℕ) (e : ℕ)
      → Chain h p (xs ++ ys) e
      → Inserts h h' (front ys e) elem
      → Distinct (p ∷ (xs ++ ys))
      → Fresh e (p ∷ (xs ++ ys))
      → Fresh elem (p ∷ (xs ++ ys))
      → elem ≢ e
      → Chain h' p (xs ++ elem ∷ ys) e
  unfolding Chain front
  Chain-Inserts p [] [] e c ins d fe fx ne =
      (sym (ap h'.next c.1) ∙ ins.next_before, ins.prev_elem ∙ c.1, (ins.next_elem, ins.prev_b))
  Chain-Inserts p [] (y ∷ ys) e c ins d fe fx ne = (
    sym (ap h'.next c.1) ∙ ins.next_before,
    ins.prev_elem ∙ c.1,
    (
      ins.next_elem,
      ins.prev_b,
      Chain-frame h h' y ys e (ins.next_other y fx.1.0 (λ q. d.0.0 (sym c.1 ∙ q)))
          (All-zip (λ u. elem ≢ u) (λ u. p ≢ u) (λ u. h'.next u ≡ h.next u) ys
            (λ u a b. ins.next_other u a (λ q. b (sym c.1 ∙ q))) fx.1.1 d.0.1)
          (All-zip (λ u. elem ≢ u) (λ u. y ≢ u) (λ u. h'.prev u ≡ h.prev u) ys
            (λ u a b. ins.prev_other u a b) fx.1.1 d.1.0)
          (ins.prev_other e ne (λ q. fe.1.0 (sym q))) c.2,
    ),
  )
  Chain-Inserts p (x ∷ xs) ys e c ins d fe fx ne = (
    ins.next_other p fx.0 (λ q.
          last-Fresh p x xs d.0.0 (All-append_left (λ u. p ≢ u) xs ys d.0.1)
            (sym q ∙ prev-front h x xs ys e c.2))
        ∙ c.0,
    ins.prev_other x fx.1.0 (λ q.
          front-Fresh x e ys (λ r. fe.1.0 (sym r)) (All-append_right (λ u. x ≢ u) xs ys d.1.0)
            (sym q))
        ∙ c.1,
    Chain-Inserts x xs ys e c.2 ins d.1 fe.1 fx.1 ne,
  )

  pub Chain-Removes :
      (p : ℕ) (xs ys : List ℕ) (e : ℕ)
      → Chain h p (xs ++ elem ∷ ys) e
      → Removes h h' elem
      → Distinct (p ∷ (xs ++ elem ∷ ys))
      → Fresh e (p ∷ (xs ++ elem ∷ ys))
      → Chain h' p (xs ++ ys) e
  unfolding Chain front
  Chain-Removes p [] [] e c rem d fe = (
    sym (ap h'.next c.1) ∙ rem.next_before ∙ c.2.0,
    sym (ap h'.prev c.2.0) ∙ rem.prev_after ∙ c.1,
  )
  Chain-Removes p [] (y ∷ ys) e c rem d fe = (
    sym (ap h'.next c.1) ∙ rem.next_before ∙ c.2.0,
    sym (ap h'.prev c.2.0) ∙ rem.prev_after ∙ c.1,
    Chain-frame h h' y ys e (rem.next_other y (λ q. d.0.1.0 (sym c.1 ∙ q)))
        (All-map_in (λ u. p ≢ u) (λ u. h'.next u ≡ h.next u) ys
          (λ u a. rem.next_other u (λ q. a (sym c.1 ∙ q))) d.0.1.1)
        (All-map_in (λ u. y ≢ u) (λ u. h'.prev u ≡ h.prev u) ys
          (λ u a. rem.prev_other u (λ q. a (sym c.2.0 ∙ q))) d.1.1.0)
        (rem.prev_other e (λ q. fe.1.1.0 (sym q ∙ c.2.0))) c.2.2,
  )
  Chain-Removes p (x ∷ xs) ys e c rem d fe = (
    rem.next_other p (λ q.
          last-Fresh p x xs d.0.0 (All-append_left (λ u. p ≢ u) xs (elem ∷ ys) d.0.1)
            (sym q ∙ prev-front h x xs (elem ∷ ys) e c.2))
        ∙ c.0,
    rem.prev_other x (λ q.
          front-Fresh x e ys (λ r. fe.1.0 (sym r))
            (All-append_right (λ u. x ≢ u) xs (elem ∷ ys) d.1.0).1
            (sym q ∙ next-elem h x xs elem ys e c.2))
        ∙ c.1,
    Chain-Removes x xs ys e c.2 rem d.1 fe.1,
  )
