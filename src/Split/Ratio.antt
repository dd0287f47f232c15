-- ===== src/Split/Ratio.antt =====
-- Ratios and the clamps of split.rs, whatever the floating-point type.
use kitmux_linux.Base.{◌≡◌, true, arith}
use kitmux_linux.Float.{Float, clamp}
use kitmux_linux.Split.{valid_ratio, finite_ratio_or_default, clamp_to_bounds}

module _ (F : Type 0) ⦃f : Float F⦄ where
  -- Clamping a number to an interval of [0, 1] gives a valid ratio.
  clamp_bounds :
      (x lo hi : F)
      → f.number x ≡ true
      → f.number lo ≡ true
      → f.number hi ≡ true
      → f.le lo hi ≡ true
      → (f.le lo (clamp x lo hi) ≡ true) × (f.le (clamp x lo hi) hi ≡ true)
  unfolding clamp
  clamp_bounds x lo hi nx nl nh h =
      ground (arith, f.lt-le x lo, f.lt-le hi x, f.le_refl lo, f.le_refl hi)

  finite-clamp :
      (x lo hi : F)
      → f.number x ≡ true
      → f.finite lo ≡ true
      → f.finite hi ≡ true
      → f.le lo hi ≡ true
      → f.finite (clamp x lo hi) ≡ true
  finite-clamp x lo hi nx nl nh h =
      let b = clamp_bounds x lo hi nx (f.number-finite lo nl) (f.number-finite hi nh) h in
      f.finite_between lo (clamp x lo hi) hi nl nh b.0 b.1

  zero-le-one : f.le f.zero f.one ≡ true
  zero-le-one = f.le_trans f.zero f.half f.one f.zero-le-half f.half-le-one

  -- A value that is clamped to finite bounds is a valid ratio.
  pub clamp_to_bounds-valid :
      (x lo hi : F)
      → f.number x ≡ true
      → f.number lo ≡ true
      → f.number hi ≡ true
      → valid_ratio (clamp_to_bounds x (lo, hi)) ≡ true
  unfolding clamp_to_bounds valid_ratio
  clamp_to_bounds-valid x lo hi nx nl nh =
      let z = f.finite-zero in
      let o = f.finite-one in
      let nz = f.number-finite f.zero z in
      let no' = f.number-finite f.one o in
      let lower = clamp lo f.zero f.one in
      let fl = finite-clamp lo f.zero f.one nl z o zero-le-one in
      let bl = clamp_bounds lo f.zero f.one nl nz no' zero-le-one in
      let upper = clamp hi lower f.one in
      let fu = finite-clamp hi lower f.one nh fl o bl.1 in
      let bu = clamp_bounds hi lower f.one nh (f.number-finite lower fl) no' bl.1 in
      let fr = finite-clamp x lower upper nx fl fu bu.0 in
      let br =
        clamp_bounds x lower upper nx (f.number-finite lower fl) (f.number-finite upper fu) bu.0 in
      let low = f.le_trans f.zero lower (clamp x lower upper) bl.0 br.0 in
      let high = f.le_trans (clamp x lower upper) upper f.one br.1 bu.1 in ground arith

  pub default-valid : valid_ratio (finite_ratio_or_default f.half) ≡ true
  unfolding finite_ratio_or_default valid_ratio
  default-valid =
      let h = f.number-finite f.half f.finite-half in
      let z = f.number-finite f.zero f.finite-zero in
      let o = f.number-finite f.one f.finite-one in
      let b = clamp_bounds f.half f.zero f.one h z o zero-le-one in
      let c = finite-clamp f.half f.zero f.one h f.finite-zero f.finite-one zero-le-one in
      ground (arith, f.finite-half)
