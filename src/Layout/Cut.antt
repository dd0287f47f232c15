-- ===== src/Layout/Cut.antt =====
-- One split along its axis: the two lengths and the divider.
use kitmux_linux.Base.{ℕ, ◌+◌, ◌-◌, ◌^◌, ◌≤◌, ◌<◌, min, ◌≡◌, refl, inl, inr, Bool-cases, arith}
use kitmux_linux.Base.Int.{
  ℤ, pos, pos_part, sub_ℕ, leb_ℤ, add_i32, sub_i32, max_ℤ, min_ℤ, clamp_ℤ, wrap_i32_id,
}
use kitmux_linux.Float.{Float}
use kitmux_linux.Split.{SplitAxis}
use kitmux_linux.Layout.{
  PixelSize, PixelRect, first_length, size_along, rect_along, child_rects, split_rects,
}

pub add_i32-pos : (a b : ℕ) → a + b < 2 ^ 31 → add_i32 (pos a) (pos b) ≡ pos (a + b)
unfolding add_i32
add_i32-pos a b h =
    let e : sub_ℕ (a + b) (0 + 0) ≡ pos (a + b) = ground arith in
    rw (e, wrap_i32_id (pos (a + b)) (omega arith)) refl

pub sub_i32-pos : (a b : ℕ) → b ≤ a → a < 2 ^ 31 → sub_i32 (pos a) (pos b) ≡ pos (a - b)
unfolding sub_i32
sub_i32-pos a b h k =
    let e : sub_ℕ (a + 0) (0 + b) ≡ pos (a - b) = ground arith in
    rw (e, wrap_i32_id (pos (a - b)) (omega arith)) refl

min_ℤ-pos : (a b : ℕ) → min_ℤ (pos a) (pos b) ≡ pos (min a b)
unfolding min_ℤ
min_ℤ-pos a b = ground arith

pub max_ℤ-pos : (a : ℕ) → max_ℤ (pos a) (pos 0) ≡ pos a
unfolding max_ℤ
max_ℤ-pos a = ground arith

-- A length between two bounds.
abbrev pub Within : ℕ → ℕ → ℤ → Type 0
Within lo hi a = (c : ℕ) × (a ≡ pos c) × (lo ≤ c) × (c ≤ hi)

clamp-Within : (a : ℤ) (lo hi : ℕ) → lo ≤ hi → Within lo hi (clamp_ℤ a (pos lo) (pos hi))
unfolding clamp_ℤ
clamp-Within a lo hi h =
    (pos_part (clamp_ℤ a (pos lo) (pos hi)), ground arith, ground arith, ground arith)

module _ {F : Type 0} ⦃f : Float F⦄ where
  -- The first child gets a length within the usable one; where both minima fit, both are kept.
  pub first_length-Within :
      (ratio : F) (u m n : ℕ)
      → u < 2 ^ 31
      → m + n < 2 ^ 31
      → (l : ℕ) × (first_length ratio (pos u) (pos m) (pos n) ≡ pos l)
        × (l ≤ u)
        × (m + n ≤ u → (m ≤ l) × (l + n ≤ u))
  unfolding first_length
  first_length-Within ratio u m n hu h =
      let fit = leb_ℤ (pos (m + n)) (pos u) in
      let desired = f.round (f.mul (f.of_int (pos u)) ratio) in
      let share = f.round (
        f.div (f.mul (f.of_int (pos u)) (f.of_int (pos m)))
          (f.of_int (max_ℤ (pos (m + n)) (pos 1)))) in
      rw (add_i32-pos m n h) (elim (Bool-cases fit) [
        | inl e ↦
            let le : m + n ≤ u = ground arith in
            let (c, ec, lo, hi) = clamp-Within desired m (u - n) (omega arith) in
            (c, rw (e, sub_i32-pos u n (omega arith) hu) ec, omega arith, λ _. (lo, omega arith))
        | inr e ↦
            let gt : u < m + n = ground arith in
            elim (Bool-cases (leb_ℤ (pos 2) (pos u))) [
              | inl e' ↦
                  let two : 2 ≤ u = ground arith in
                  let (c, ec, lo, hi) = clamp-Within share 1 (u - 1) (omega arith) in
                  (
                    c,
                    rw (e, e', sub_i32-pos u 1 (omega arith) hu) ec,
                    omega arith,
                    λ k. absurd (omega arith),
                  )
              | inr e' ↦ (u, rw (e, e'), omega arith, λ k. absurd (omega arith))
            ]
      ])

module _ {F : Type 0} ⦃f : Float F⦄ where
  -- The three lengths of a split add up to the rectangle's; the divider takes the gap where there is
  -- room for it.
  pub split_rects_lem :
      (axis : SplitAxis) (ratio : F) (rect : PixelRect) (g : ℕ) (first second : PixelSize)
      (w m n : ℕ)
      → rect_along axis rect ≡ pos w
      → size_along axis first ≡ pos m
      → size_along axis second ≡ pos n
      → w < 2 ^ 31
      → m + n < 2 ^ 31
      → (l d k : ℕ) × (split_rects axis ratio rect (pos g) first second
          ≡ child_rects axis rect (pos l) (pos d) (pos k))
        × (l + d + k ≡ w)
        × (m + g + n ≤ w → (m ≤ l) × (n ≤ k))
  unfolding split_rects
  split_rects_lem axis ratio rect g first second w m n ew em en hw h =
      let (l, el, lu, fit) = first_length-Within ratio (w - min g w) m n (omega arith) h in
      let e₁ : min_ℤ (pos g) (pos w) ≡ pos (min g w) = min_ℤ-pos g w in
      (
        l,
        min g w,
        w - min g w - l,
        rw (
          ew,
          em,
          en,
          e₁,
          sub_i32-pos w (min g w) (omega arith) hw,
          max_ℤ-pos (w - min g w),
          el,
          sub_i32-pos (w - min g w) l lu (omega arith),
        ),
        omega arith,
        λ k. let f = fit (omega arith) in (f.0, omega (arith, f.1)),
      )
