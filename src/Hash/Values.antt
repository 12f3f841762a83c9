-- ===== src/Hash/Values.antt =====
-- lib/kernel/hash.c: the hash functions that the table offers.
use junlge_pint_os.Common.{
  ℕ, zero, suc, ◌+◌, ◌<◌, ◌≡◌, refl, sym, ◌∙◌, some, List, [], ◌∷◌, length, ==_ne, arith,
}
use junlge_pint_os.Strings.Text.{Text}
use junlge_pint_os.Hash.{fnv_step, fnv_64_basis, fnv_loop, hash_bytes, string_loop, hash_string}

string_loop_lem :
    (m : ℕ → ℕ) (cs : List ℕ) (s hash fuel : ℕ)
    → Text m s cs
    → length cs < fuel
    → string_loop fuel s hash m ≡ some (fnv_loop (length cs) s hash m)
unfolding string_loop fnv_loop
string_loop_lem m cs s hash zero h lt = absurd (omega (arith, lt))
string_loop_lem m [] s hash (suc fuel) h lt = rw (h) refl
string_loop_lem m (c ∷ cs) s hash (suc fuel) h lt =
    rw (==_ne (m s) 0 (λ q. h.1 (sym h.0 ∙ q)))
      (string_loop_lem m cs (s + 1) (fnv_step hash (m s)) fuel h.2 (omega (arith, lt)))

-- If the string cs stands at s and there is more fuel than its length, hash_string returns what
-- hash_bytes returns for the bytes of cs.
pub hash_string_lem :
    (m : ℕ → ℕ) (cs : List ℕ) (s fuel : ℕ)
    → Text m s cs
    → length cs < fuel
    → hash_string fuel s m ≡ some (hash_bytes s (length cs) m)
unfolding hash_string hash_bytes
hash_string_lem m cs s fuel h lt = string_loop_lem m cs s fnv_64_basis fuel h lt
