-- ===== src/Platform/Decimal.antt =====
-- Numbers in decimal.
use kitmux_linux.Base.{
  ℕ, zero, suc, ◌+◌, ◌/◌, ◌%◌, ◌≡◌, ◌≤◌, ◌<◌, refl, Bool, false, [], ◌∷◌, arith,
}
use kitmux_linux.Text.{Text, byte_len, char_len, any}
use kitmux_linux.Platform.{digits, decimal}

-- A test that no digit satisfies.
module _ (test : ℕ → Bool) (digit : (d : ℕ) → d < 10 → test (48 + d) ≡ false) where
  digits_lem :
      (fuel n : ℕ) (rest : Text)
      → any test rest ≡ false
      → (byte_len (digits fuel 10 n rest) ≤ fuel + byte_len rest)
        × (any test (digits fuel 10 n rest) ≡ false)
  unfolding digits byte_len char_len any
  digits_lem zero n rest h = (omega arith, h)
  digits_lem (suc fuel) n rest h =
      let small : n % 10 < 10 = omega arith in
      let d = digit (n % 10) small in
      let (le, plain) = digits_lem fuel (n / 10) ((48 + n % 10) ∷ rest) (ground (arith, h, d)) in
      ground (arith, small, d, le, plain, h)

  pub decimal_lem : (n : ℕ) → (byte_len (decimal n) ≤ 20) × (any test (decimal n) ≡ false)
  unfolding decimal any byte_len
  decimal_lem n = let (le, plain) = digits_lem 20 n [] refl in (le, plain)
