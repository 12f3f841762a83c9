-- ===== src/Lists/Chain.antt =====
-- lib/kernel/list.c: the sequence of elements that a list links.
use junlge_pint_os.Common.{ℕ, ◌≡◌, ◌≢◌, ◌∙◌, List, [], ◌∷◌, ◌++◌, All}
use junlge_pint_os.Lists.{Heap}

-- From `p` the links lead through `xs` to `e`, and back.
unfoldable pub Chain : Heap → ℕ → List ℕ → ℕ → Type 0
Chain h p [] e = (h.next p ≡ e) × (h.prev e ≡ p)
Chain h p (x ∷ xs) e = (h.next p ≡ x) × (h.prev x ≡ p) × Chain h x xs e

-- The last of `p ∷ xs`, and the first of `xs ++ e ∷ []`.
unfoldable pub last : ℕ → List ℕ → ℕ
last p [] = p
last p (x ∷ xs) = last x xs

unfoldable pub front : List ℕ → ℕ → ℕ
front [] e = e
front (x ∷ xs) e = x

-- `a` is none of `xs`.
abbrev pub Fresh : ℕ → List ℕ → Type 0
Fresh a xs = All (λ u. a ≢ u) xs

pub last-Fresh : (a p : ℕ) (xs : List ℕ) → a ≢ p → Fresh a xs → a ≢ last p xs
unfolding last
last-Fresh a p [] ne h = ne
last-Fresh a p (x ∷ xs) ne h = last-Fresh a x xs h.0 h.1

pub front-Fresh : (a e : ℕ) (xs : List ℕ) → a ≢ e → Fresh a xs → a ≢ front xs e
unfolding front
front-Fresh a e [] ne h = ne
front-Fresh a e (x ∷ xs) ne h = h.0

-- What lies before and behind a place of a chain.
pub prev-front :
    (h : Heap) (p : ℕ) (xs ys : List ℕ) (e : ℕ)
    → Chain h p (xs ++ ys) e
    → h.prev (front ys e) ≡ last p xs
unfolding Chain last front
prev-front h p [] [] e c = c.1
prev-front h p [] (y ∷ ys) e c = c.1
prev-front h p (x ∷ xs) ys e c = prev-front h x xs ys e c.2

pub next-last :
    (h : Heap) (p : ℕ) (xs ys : List ℕ) (e : ℕ)
    → Chain h p (xs ++ ys) e
    → h.next (last p xs) ≡ front ys e
unfolding Chain last front
next-last h p [] [] e c = c.0
next-last h p [] (y ∷ ys) e c = c.0
next-last h p (x ∷ xs) ys e c = next-last h x xs ys e c.2

-- A chain survives changes elsewhere.
pub Chain-frame :
    (h h' : Heap) (p : ℕ) (xs : List ℕ) (e : ℕ)
    → h'.next p ≡ h.next p
    → All (λ u. h'.next u ≡ h.next u) xs
    → All (λ u. h'.prev u ≡ h.prev u) xs
    → h'.prev e ≡ h.prev e
    → Chain h p xs e
    → Chain h' p xs e
unfolding Chain
Chain-frame h h' p [] e np nx px pe c = (np ∙ c.0, pe ∙ c.1)
Chain-frame h h' p (x ∷ xs) e np nx px pe c =
    (np ∙ c.0, px.0 ∙ c.1, Chain-frame h h' x xs e nx.0 nx.1 px.1 pe c.2)

-- What `list_insert` of `elem` before `b` changes.
pub record Inserts (h h' : Heap) (b elem : ℕ) : Type 0 where
  pub prev_elem : h'.prev elem ≡ h.prev b
  pub next_elem : h'.next elem ≡ b
  pub next_before : h'.next (h.prev b) ≡ elem
  pub prev_b : h'.prev b ≡ elem
  pub prev_other : (u : ℕ) → elem ≢ u → b ≢ u → h'.prev u ≡ h.prev u
  pub next_other : (u : ℕ) → elem ≢ u → h.prev b ≢ u → h'.next u ≡ h.next u

-- What `list_remove` of `elem` changes.
pub record Removes (h h' : Heap) (elem : ℕ) : Type 0 where
  pub next_before : h'.next (h.prev elem) ≡ h.next elem
  pub prev_after : h'.prev (h.next elem) ≡ h.prev elem
  pub prev_other : (u : ℕ) → h.next elem ≢ u → h'.prev u ≡ h.prev u
  pub next_other : (u : ℕ) → h.prev elem ≢ u → h'.next u ≡ h.next u
