-- ===== src/Lists/Members.antt =====
-- Members of a sequence with one element put in or taken out.
use junlge_pint_os.Common.{ℕ, ◌≢◌, sym, List, [], ◌∷◌, ◌++◌, All, Distinct}
use junlge_pint_os.Lists.Chain.{Fresh}

pub All-insert {κ} :
    (P : ℕ → Type κ) (a : ℕ) (xs ys : List ℕ) → P a → All P (xs ++ ys) → All P (xs ++ a ∷ ys)
All-insert P a [] ys p h = (p, h)
All-insert P a (x ∷ xs) ys p h = (h.0, All-insert P a xs ys p h.1)

pub All-remove {κ} :
    (P : ℕ → Type κ) (a : ℕ) (xs ys : List ℕ) → All P (xs ++ a ∷ ys) → All P (xs ++ ys)
All-remove P a [] ys h = h.1
All-remove P a (x ∷ xs) ys h = (h.0, All-remove P a xs ys h.1)

pub Distinct-insert :
    (a : ℕ) (xs ys : List ℕ) → Fresh a (xs ++ ys) → Distinct (xs ++ ys) → Distinct (xs ++ a ∷ ys)
Distinct-insert a [] ys f d = (f, d)
Distinct-insert a (x ∷ xs) ys f d =
    (All-insert (λ u. x ≢ u) a xs ys (λ e. f.0 (sym e)) d.0, Distinct-insert a xs ys f.1 d.1)

pub Distinct-remove : (a : ℕ) (xs ys : List ℕ) → Distinct (xs ++ a ∷ ys) → Distinct (xs ++ ys)
Distinct-remove a [] ys d = d.1
Distinct-remove a (x ∷ xs) ys d = (All-remove (λ u. x ≢ u) a xs ys d.0, Distinct-remove a xs ys d.1)
