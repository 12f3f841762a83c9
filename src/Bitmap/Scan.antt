-- ===== src/Bitmap/Scan.antt =====
-- lib/kernel/bitmap.c: searching for a group of equal bits.
use native.Mathlib.Decide.{dec_le, ℕ_discrete}
use junlge_pint_os.Common.{
  ℕ, zero, suc, ◌+◌, ◌-◌, ◌≤◌, ◌<◌, ◌≡◌, ◌≢◌, refl, ap, ◌∙◌, subst, Bool, not, ◌⊎◌, inl, inr, ok,
  le→leb, lt→leb_false, Bool-cases, ==_ne, arith,
}
use junlge_pint_os.Bitmap.{Bitmap, bitmap_error, scan_loop, bitmap_scan, bitmap_scan_and_flip}
use junlge_pint_os.Bitmap.Bit.{bit, IsValid}
use junlge_pint_os.Bitmap.Range.{Fills, bitmap_contains_lem, bitmap_set_multiple_lem}

-- The `cnt` bits from `idx` lie in the bitmap and have the value `v`.
pub record Group (b : Bitmap) (cnt : ℕ) (v : Bool) (idx : ℕ) : Type 0 where
  pub within : idx + cnt ≤ b.bit_cnt
  pub equal : (j : ℕ) → idx ≤ j → j < idx + cnt → bit b j ≡ v

-- What a search from `start` returns: the first group, or BITMAP_ERROR where there is none.
pub data Scanned (b : Bitmap) (start cnt : ℕ) (v : Bool) (r : ℕ) : Type 0 where
  found :
      r ≢ bitmap_error
      → start ≤ r
      → Group b cnt v r
      → ((i : ℕ) → start ≤ i → i < r → ¬ (Group b cnt v i))
      → Scanned b start cnt v r
  nothing : r ≡ bitmap_error → ((i : ℕ) → start ≤ i → ¬ (Group b cnt v i)) → Scanned b start cnt v r

module _ (b : Bitmap) (cnt : ℕ) (v : Bool) (valid : IsValid b) where
  Scanned-skip : (i r : ℕ) → ¬ (Group b cnt v i) → Scanned b (i + 1) cnt v r → Scanned b i cnt v r
  Scanned-skip i r no_group (found ne lo g first) = found ne (omega arith) g λ j p q.
      elim (ℕ_discrete i j) [
        | yes e ↦ subst (λ k. ¬ (Group b cnt v k)) e no_group
        | no far ↦ first j (omega arith) q
      ]
  Scanned-skip i r no_group (nothing e none_later) = nothing e λ j p. elim (ℕ_discrete i j) [
    | yes q ↦ subst (λ k. ¬ (Group b cnt v k)) q no_group
    | no far ↦ none_later j (omega arith)
  ]

  scan_loop_lem :
      (left i : ℕ)
      → i + left ≡ b.bit_cnt + 1 - cnt
      → cnt ≤ b.bit_cnt
      → (r : ℕ) × (scan_loop b cnt v left i ≡ ok r) × Scanned b i cnt v r
  unfolding scan_loop
  scan_loop_lem zero i e fits = (bitmap_error, refl, nothing refl λ j p g. omega (arith, g.within))
  scan_loop_lem (suc left) i e fits =
      let here = bitmap_contains_lem b i cnt (not v) valid (omega arith) in
      elim (Bool-cases here.0) [
        | inl hit ↦
            let rest = scan_loop_lem left (i + 1) (omega arith) fits in
            let w = here.2.hit hit in
            (
              rest.0,
              rw (here.1, hit) rest.1,
              Scanned-skip i rest.0 (λ g. clash v (bit b w.0) w.3 (g.equal w.0 w.1 w.2)) rest.2,
            )
        | inr miss ↦ (
          i,
          rw (here.1, miss),
          found (omega (arith, valid.small)) (omega arith)
              (record { within = omega arith; equal = λ j p q. here.2.miss miss j p q ∙ not-not v })
              (λ j p q. absurd (omega arith)),
        )
      ]
    where
      clash : (u x : Bool) → x ≡ not u → x ≡ u → ⊥
      clash u x p q = ground arith

      not-not : (u : Bool) → not (not u) ≡ u
      not-not u = ground arith

  no_rounds :
      (start : ℕ)
      → b.bit_cnt + 1 - cnt < start
      → cnt ≤ b.bit_cnt
      → scan_loop b cnt v (b.bit_cnt - cnt + 1 - start) start ≡ ok bitmap_error
  unfolding scan_loop
  no_rounds start h fits = ap (λ k. scan_loop b cnt v k start) {y = 0} (omega arith)

  -- From a start inside a valid bitmap, bitmap_scan returns the least index from there on that
  -- begins a group of cnt bits of the value, or BITMAP_ERROR where there is none.
  pub bitmap_scan_lem :
      (start : ℕ)
      → start ≤ b.bit_cnt
      → (r : ℕ) × (bitmap_scan b start cnt v ≡ ok r) × Scanned b start cnt v r
  unfolding bitmap_scan
  bitmap_scan_lem start h = elim (dec_le cnt b.bit_cnt) [
    | yes fits ↦ elim (dec_le start (b.bit_cnt + 1 - cnt)) [
      | yes p ↦
          let run = scan_loop_lem (b.bit_cnt - cnt + 1 - start) start (omega arith) fits in
          (run.0, rw (le→leb start b.bit_cnt h, le→leb cnt b.bit_cnt fits) run.1, run.2)
      | no p ↦ (
        bitmap_error,
        rw (
          le→leb start b.bit_cnt h,
          le→leb cnt b.bit_cnt fits,
          no_rounds start (omega arith) fits,
        ),
        nothing refl λ j q g. omega (arith, g.within),
      )
    ]
    | no big ↦ (
      bitmap_error,
      rw (le→leb start b.bit_cnt h, lt→leb_false cnt b.bit_cnt (omega arith)),
      nothing refl λ j q g. omega (arith, g.within),
    )
  ]

  -- From a start inside a valid bitmap, bitmap_scan_and_flip returns the least index from there on
  -- that begins a group of cnt bits of the value, and flips exactly that group; where there is
  -- none it returns BITMAP_ERROR and the bitmap is unchanged.
  pub bitmap_scan_and_flip_lem :
      (start : ℕ)
      → start ≤ b.bit_cnt
      → (r : ℕ) × (b' : Bitmap) × (bitmap_scan_and_flip b start cnt v ≡ ok (r, b'))
        × Scanned b start cnt v r
        × ((r ≡ bitmap_error) × (b' ≡ b) ⊎ (r ≢ bitmap_error) × Fills b r (r + cnt) (not v) b')
  unfolding bitmap_scan_and_flip
  bitmap_scan_and_flip_lem start h = let run = bitmap_scan_lem start h in flipped run.0 run.1 run.2
    where
      flipped :
          (r : ℕ)
          → bitmap_scan b start cnt v ≡ ok r
          → Scanned b start cnt v r
          → (r : ℕ) × (b' : Bitmap) × (bitmap_scan_and_flip b start cnt v ≡ ok (r, b'))
            × Scanned b start cnt v r
            × ((r ≡ bitmap_error) × (b' ≡ b) ⊎ (r ≢ bitmap_error) × Fills b r (r + cnt) (not v) b')
      flipped r e (found ne lo g first) =
          let set = bitmap_set_multiple_lem b r cnt (not v) valid g.within in
          (r, set.0, rw (e, ==_ne r bitmap_error ne, set.1), found ne lo g first, inr (ne, set.2))
      flipped r e (nothing q none_left) = (r, b, rw (e, q), nothing q none_left, inl (q, refl))
