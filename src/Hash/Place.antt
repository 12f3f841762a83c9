-- ===== src/Hash/Place.antt =====
-- lib/kernel/hash.c: each element stands in the bucket of its hash, and what putting one in or
-- taking one out does to that.
use native.Mathlib.Decide.{ℕ_discrete}
use junlge_pint_os.Common.{
  ℕ, ◌<◌, ◌≡◌, ◌≢◌, refl, sym, ap, ◌∙◌, subst, false, ◌⊎◌, ◌↔◌, inl, inr, List, [], ◌∷◌, In, All,
  arith,
}
use junlge_pint_os.Hash.{Hash, same_key, find_bucket, push_front}
use junlge_pint_os.Hash.Keys.{Apart, find_bucket-lt}
use junlge_pint_os.Hash.Buckets.{Stands, push_front_self, push_front_other}

-- `x` is an element of the table.
abbrev pub Holds : Hash → ℕ → Type 0
Holds h x = Stands h.bucket_cnt 0 h.buckets x

pub record IsPlaced (h : Hash) : Type 0 where
  pub some_bucket : 0 < h.bucket_cnt
  pub placed : (i x : ℕ) → i < h.bucket_cnt → In x (h.buckets i) → find_bucket h x ≡ i
  pub different : (i : ℕ) → i < h.bucket_cnt → Apart h (h.buckets i)
  pub not_null : (i x : ℕ) → i < h.bucket_cnt → In x (h.buckets i) → x ≢ 0

-- An element stands in the bucket of its hash.
pub Holds-bucket : (h : Hash) (x : ℕ) → IsPlaced h → Holds h x → In x (h.buckets (find_bucket h x))
Holds-bucket h x p held =
    subst (λ i. In x (h.buckets i)) (sym (p.placed held.0 x (omega (arith, held.2)) held.3)) held.3

pub bucket-Holds : (h : Hash) (x i : ℕ) → i < h.bucket_cnt → In x (h.buckets i) → Holds h x
bucket-Holds h x i lt here = (i, omega arith, omega (arith, lt), here)

pub All-of : (P : ℕ → Type 0) (xs : List ℕ) → ((x : ℕ) → In x xs → P x) → All P xs
All-of P [] f = tt
All-of P (x ∷ xs) f = (f x (inl refl), All-of P xs (λ y p. f y (inr p)))

-- No element of the table has the key of `e`.
abbrev pub Fresh : Hash → ℕ → Type 0
Fresh h e = (x : ℕ) → Holds h x → same_key h e x ≡ false

In-push_front :
    (k e j x : ℕ) (b : ℕ → List ℕ) → In x (push_front k e b j) → ((e ≡ x) × (j ≡ k)) ⊎ In x (b j)
In-push_front k e j x b h = elim (ℕ_discrete j k) [
  | yes q ↦ first q (subst (λ ys. In x ys) (ap (push_front k e b) q ∙ push_front_self k e b) h)
  | no ne ↦ inr (subst (λ ys. In x ys) (push_front_other k e j b ne) h)
]
  where
    first : j ≡ k → In x (e ∷ b k) → ((e ≡ x) × (j ≡ k)) ⊎ In x (b j)
    first q (inl p) = inl (p, q)
    first q (inr p) = inr (subst (λ i. In x (b i)) (sym q) p)

push_front-In : (k e j x : ℕ) (b : ℕ → List ℕ) → In x (b j) → In x (push_front k e b j)
push_front-In k e j x b h = elim (ℕ_discrete j k) [
  | yes q ↦
      subst (λ ys. In x ys) (sym (ap (push_front k e b) q ∙ push_front_self k e b))
        (inr (subst (λ i. In x (b i)) q h))
  | no ne ↦ subst (λ ys. In x ys) (sym (push_front_other k e j b ne)) h
]

-- The table with `e` at the front of its bucket.
abbrev pub pushed : Hash → ℕ → Hash
pushed h e = record h { buckets = push_front (find_bucket h e) e h.buckets }

pub pushed-IsPlaced : (h : Hash) (e : ℕ) → IsPlaced h → e ≢ 0 → Fresh h e → IsPlaced (pushed h e)
unfolding find_bucket same_key
pushed-IsPlaced h e p ne fresh = record {
  some_bucket = p.some_bucket;
  placed = λ i x lt here. placed_in i x lt (In-push_front (find_bucket h e) e i x h.buckets here);
  different = λ i lt. apart_in i lt (ℕ_discrete i (find_bucket h e));
  not_null =
      λ i x lt here. not_null_in i x lt (In-push_front (find_bucket h e) e i x h.buckets here);
}
  where
    placed_in :
        (i x : ℕ)
        → i < h.bucket_cnt
        → ((e ≡ x) × (i ≡ find_bucket h e)) ⊎ In x (h.buckets i)
        → find_bucket h x ≡ i
    placed_in i x lt (inl q) = ap (find_bucket h) (sym q.0) ∙ sym q.1
    placed_in i x lt (inr here) = p.placed i x lt here

    not_null_in :
        (i x : ℕ)
        → i < h.bucket_cnt
        → ((e ≡ x) × (i ≡ find_bucket h e)) ⊎ In x (h.buckets i)
        → x ≢ 0
    not_null_in i x lt (inl q) = λ z. ne (q.0 ∙ z)
    not_null_in i x lt (inr here) = p.not_null i x lt here

    apart_in :
        (i : ℕ)
        → i < h.bucket_cnt
        → Dec (i ≡ find_bucket h e)
        → Apart h (push_front (find_bucket h e) e h.buckets i)
    apart_in i lt (no other) =
        subst (λ ys. Apart h ys) (sym (push_front_other (find_bucket h e) e i h.buckets other))
          (p.different i lt)
    apart_in i lt (yes q) =
        subst (λ ys. Apart h ys)
          (sym (
            ap (push_front (find_bucket h e) e h.buckets) q
            ∙ push_front_self (find_bucket h e) e h.buckets))
          (
            All-of (λ y. same_key h e y ≡ false) (h.buckets (find_bucket h e))
                (λ y here. fresh y (bucket-Holds h y (find_bucket h e) in_range here)),
            p.different (find_bucket h e) in_range,
          )
      where
        in_range : find_bucket h e < h.bucket_cnt
        in_range = subst (λ j. j < h.bucket_cnt) q lt

pub pushed-Holds : (h : Hash) (e x : ℕ) → IsPlaced h → Holds (pushed h e) x ↔ (Holds h x ⊎ (e ≡ x))
pushed-Holds h e x p = (there, back)
  where
    split :
        (i : ℕ)
        → i < h.bucket_cnt
        → ((e ≡ x) × (i ≡ find_bucket h e)) ⊎ In x (h.buckets i)
        → Holds h x ⊎ (e ≡ x)
    split i lt (inl q) = inr q.0
    split i lt (inr here) = inl (bucket-Holds h x i lt here)

    there : Holds (pushed h e) x → Holds h x ⊎ (e ≡ x)
    there held =
        split held.0 (omega (arith, held.2))
          (In-push_front (find_bucket h e) e held.0 x h.buckets held.3)

    back : Holds h x ⊎ (e ≡ x) → Holds (pushed h e) x
    back (inl held) =
        (held.0, held.1, held.2, push_front-In (find_bucket h e) e held.0 x h.buckets held.3)
    back (inr q) =
        bucket-Holds (pushed h e) x (find_bucket h e) (find_bucket-lt h e p.some_bucket)
          (subst (λ ys. In x ys) (sym (push_front_self (find_bucket h e) e h.buckets)) (inl q))
