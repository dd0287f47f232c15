-- ===== src/Base/Int.antt =====
-- Signed integers over the native numbers, and `i32` arithmetic, which wraps around in a release
-- build (the crates do not ask for overflow checks).
use kitmux_linux.Base.Tests.{ltb, leb, if◌then◌else◌}
use Prim.Native.Nat.{ℕ, suc, ◌+◌, ◌-◌, ◌*◌, ◌%◌, ◌^◌, ◌≤◌, ◌<◌}
use mathlib.Core.Path.{◌≡◌}
use mathlib.Core.Bool.{Bool}
use native.Mathlib.Omega.{arith}

-- `negsuc n` is -(n + 1).
pub data ℤ : Type 0 where
  pos : ℕ → ℤ
  negsuc : ℕ → ℤ

abbrev pub pos_part : ℤ → ℕ
pos_part (pos n) = n
pos_part (negsuc n) = 0

abbrev pub neg_part : ℤ → ℕ
neg_part (pos n) = 0
neg_part (negsuc n) = suc n

-- a - b, as an integer.
abbrev pub sub_ℕ : ℕ → ℕ → ℤ
sub_ℕ a b = if leb b a then pos (a - b) else negsuc (b - a - 1)

infix 50 ◌≤ℤ◌
abbrev pub ◌≤ℤ◌ : ℤ → ℤ → Type 0
a ≤ℤ b = pos_part a + neg_part b ≤ pos_part b + neg_part a

infix 50 ◌<ℤ◌
abbrev pub ◌<ℤ◌ : ℤ → ℤ → Type 0
a <ℤ b = pos_part a + neg_part b < pos_part b + neg_part a

abbrev pub ltb_ℤ : ℤ → ℤ → Bool
ltb_ℤ a b = ltb (pos_part a + neg_part b) (pos_part b + neg_part a)

abbrev pub leb_ℤ : ℤ → ℤ → Bool
leb_ℤ a b = leb (pos_part a + neg_part b) (pos_part b + neg_part a)

-- The value with the same residue modulo 2 ^ 32 in [-2 ^ 31, 2 ^ 31).
unfoldable pub wrap_i32 : ℤ → ℤ
wrap_i32 a =
    let u = (pos_part a + 2 ^ 32 - neg_part a % 2 ^ 32) % 2 ^ 32 in
    if ltb u (2 ^ 31) then pos u else negsuc (2 ^ 32 - u - 1)

abbrev pub IsI32 : ℤ → Type 0
IsI32 a = (pos_part a < 2 ^ 31) × (neg_part a ≤ 2 ^ 31)

-- `i32` addition, subtraction and multiplication.
unfoldable pub add_i32 : ℤ → ℤ → ℤ
add_i32 a b = wrap_i32 (sub_ℕ (pos_part a + pos_part b) (neg_part a + neg_part b))

unfoldable pub sub_i32 : ℤ → ℤ → ℤ
sub_i32 a b = wrap_i32 (sub_ℕ (pos_part a + neg_part b) (neg_part a + pos_part b))

unfoldable pub mul_i32 : ℤ → ℤ → ℤ
mul_i32 a b = wrap_i32 (
    sub_ℕ (pos_part a * pos_part b + neg_part a * neg_part b)
      (pos_part a * neg_part b + neg_part a * pos_part b))

unfoldable pub max_ℤ : ℤ → ℤ → ℤ
max_ℤ a b = if ltb_ℤ a b then b else a

unfoldable pub min_ℤ : ℤ → ℤ → ℤ
min_ℤ a b = if ltb_ℤ b a then b else a

-- `Ord::clamp`, which panics unless lower <= upper.
unfoldable pub clamp_ℤ : ℤ → ℤ → ℤ → ℤ
clamp_ℤ a lower upper = if ltb_ℤ a lower then lower else if ltb_ℤ upper a then upper else a

-- In range the wrapped value is the value.
pub wrap_i32_id : (a : ℤ) → IsI32 a → wrap_i32 a ≡ a
unfolding wrap_i32
wrap_i32_id (pos n) h = ground arith
wrap_i32_id (negsuc n) h = ground arith

abbrev InRange : ℕ → ℕ → Type 0
InRange p n = (p < n + 2 ^ 31) × (n ≤ p + 2 ^ 31)

sub_ℕ-IsI32 : (p n : ℕ) → InRange p n → IsI32 (sub_ℕ p n)
sub_ℕ-IsI32 p n h = ground arith

-- Without overflow the operations are those of the integers.
pub add_i32_parts :
    (a b : ℤ)
    → (pos_part a + pos_part b < neg_part a + neg_part b + 2 ^ 31)
    → (neg_part a + neg_part b ≤ pos_part a + pos_part b + 2 ^ 31)
    → pos_part (add_i32 a b) + neg_part a + neg_part b
      ≡ neg_part (add_i32 a b) + pos_part a + pos_part b
unfolding add_i32
add_i32_parts a b h k =
    rw (wrap_i32_id _ (sub_ℕ-IsI32 (pos_part a + pos_part b) (neg_part a + neg_part b) (h, k)))
      (ground arith)

pub sub_i32_parts :
    (a b : ℤ)
    → (pos_part a + neg_part b < neg_part a + pos_part b + 2 ^ 31)
    → (neg_part a + pos_part b ≤ pos_part a + neg_part b + 2 ^ 31)
    → pos_part (sub_i32 a b) + neg_part a + pos_part b
      ≡ neg_part (sub_i32 a b) + pos_part a + neg_part b
unfolding sub_i32
sub_i32_parts a b h k =
    rw (wrap_i32_id _ (sub_ℕ-IsI32 (pos_part a + neg_part b) (neg_part a + pos_part b) (h, k)))
      (ground arith)

pub eq_of_parts : (a b : ℤ) → pos_part a + neg_part b ≡ pos_part b + neg_part a → a ≡ b
eq_of_parts a b h = ground arith
