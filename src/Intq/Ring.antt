-- ===== src/Intq/Ring.antt =====
-- devices/intq.c: the bytes that a ring holds, as a list.
use junlge_pint_os.Common.{
  ℕ, zero, suc, ◌+◌, ◌-◌, ◌%◌, ◌<◌, ◌≡◌, ◌≢◌, refl, ap, ◌∙◌, List, [], ◌∷◌, ◌++◌, length, ==_ne,
  arith,
}
use junlge_pint_os.Threads.State.{update}
use junlge_pint_os.Intq.{Intq}

-- The `n` bytes from the position `pos` on, round the ring.
unfoldable pub items : ℕ → ℕ → (ℕ → ℕ) → List ℕ
items pos zero buf = []
items pos (suc n) buf = buf pos ∷ items ((pos + 1) % 64) n buf

-- How many bytes are in the queue, and which, oldest first.
abbrev pub count : Intq → ℕ
count q = (q.head + 64 - q.tail) % 64

abbrev pub contents : Intq → List ℕ
contents q = items q.tail (count q) q.buf

pub record IsRing (q : Intq) : Type 0 where
  pub head_in : q.head < 64
  pub tail_in : q.tail < 64

pub length-items : (pos n : ℕ) (buf : ℕ → ℕ) → length (items pos n buf) ≡ n
unfolding items
length-items pos zero buf = refl
length-items pos (suc n) buf = rw (length-items ((pos + 1) % 64) n buf)

pub items_snoc :
    (pos n : ℕ) (buf : ℕ → ℕ)
    → pos < 64
    → items pos (suc n) buf ≡ items pos n buf ++ buf ((pos + n) % 64) ∷ []
unfolding items
items_snoc pos zero buf h = ap (λ i. buf i ∷ []) (omega arith)
items_snoc pos (suc n) buf h =
    ap (λ l. buf pos ∷ l)
      (items_snoc ((pos + 1) % 64) n buf (omega arith)
        ∙ ap (λ i. items ((pos + 1) % 64) n buf ++ buf i ∷ []) {x = ((pos + 1) % 64 + n) % 64}
            {y = (pos + suc n) % 64} (omega arith))

-- A write to a slot outside the range does not show.
pub items-update :
    (pos n slot byte : ℕ) (buf : ℕ → ℕ)
    → pos < 64
    → ((i : ℕ) → i < n → (pos + i) % 64 ≢ slot)
    → items pos n (update buf slot byte) ≡ items pos n buf
unfolding items
items-update pos zero slot byte buf h out = refl
items-update pos (suc n) slot byte buf h out =
    rw (==_ne slot pos (λ e. out 0 (omega arith) (omega (arith, e)))) (
      ap (λ l. buf pos ∷ l)
        (items-update ((pos + 1) % 64) n slot byte buf (omega arith)
          (λ i lt e. out (suc i) (omega arith) (omega (arith, e)))))

pub items_uncons :
    (pos n byte : ℕ) (rest : List ℕ) (buf : ℕ → ℕ)
    → items pos n buf ≡ byte ∷ rest
    → (n ≢ 0) × (buf pos ≡ byte) × (items ((pos + 1) % 64) (n - 1) buf ≡ rest)
unfolding items
items_uncons pos zero byte rest buf e = cc e
items_uncons pos (suc n) byte rest buf e = (
  λ z. omega (arith, z),
  cc e,
  ap (λ k. items ((pos + 1) % 64) k buf) {x = suc n - 1} {y = n} (omega arith) ∙ cc e,
)
