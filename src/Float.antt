-- ===== src/Float.antt =====
-- The `f64` operations that kitmux-linux/rust/model/src uses, as an interface: the type and its
-- operations are parameters of the model, with the laws of IEEE 754 that the proofs rely on.
use kitmux_linux.Base.{◌≡◌, Bool, true, not, if◌then◌else◌}
use kitmux_linux.Base.Int.{ℤ}

pub record Float (F : Type 0) : Type 0 where
  pub zero : F
  pub half : F
  pub one : F
  pub tenth : F
  pub nine_tenths : F
  -- `is_finite`, the negation of `is_nan`, `<=` and `<`.
  pub finite : F → Bool
  pub number : F → Bool
  pub le : F → F → Bool
  pub lt : F → F → Bool
  pub add : F → F → F
  pub sub : F → F → F
  pub mul : F → F → F
  pub div : F → F → F
  pub max : F → F → F
  pub min : F → F → F
  -- `f64::from` at an `i32`, and `round() as i32`.
  pub of_int : ℤ → F
  pub round : F → ℤ
  pub number-finite : (x : F) → finite x ≡ true → number x ≡ true
  pub number-add : (x y : F) → finite x ≡ true → finite y ≡ true → number (add x y) ≡ true
  -- On numbers `<` is the negation of the reversed `<=`, and `<=` is reflexive.
  pub lt-le : (x y : F) → number x ≡ true → number y ≡ true → lt x y ≡ not (le y x)
  pub le_refl : (x : F) → number x ≡ true → le x x ≡ true
  -- What lies between two finite values is finite.
  pub finite_between :
      (x y z : F)
      → finite x ≡ true
      → finite z ≡ true
      → le x y ≡ true
      → le y z ≡ true
      → finite y ≡ true
  -- A comparison with a NaN is false.
  pub number-le : (x y : F) → le x y ≡ true → (number x ≡ true) × (number y ≡ true)
  pub le_trans : (x y z : F) → le x y ≡ true → le y z ≡ true → le x z ≡ true
  pub finite-zero : finite zero ≡ true
  pub finite-half : finite half ≡ true
  pub finite-one : finite one ≡ true
  pub zero-le-half : le zero half ≡ true
  pub half-le-one : le half one ≡ true

module _ {F : Type 0} ⦃f : Float F⦄ where
  -- `f64::clamp`, which panics unless lower <= upper.
  unfoldable pub clamp : F → F → F → F
  clamp x lower upper = if f.lt x lower then lower else if f.lt upper x then upper else x
