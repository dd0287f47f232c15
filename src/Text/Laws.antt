-- ===== src/Text/Laws.antt =====
-- The laws of texts.
use kitmux_linux.Base.{◌≡◌, refl, true, ◌↔◌, [], ◌∷◌, ◌++◌, arith, ==_iff, ℕ, ◌+◌, Bool, ◌||◌}
use kitmux_linux.Text.{Text, same_text, byte_len, any}

pub same_text_refl : (a : Text) → same_text a a ≡ true
unfolding same_text
same_text_refl [] = refl
same_text_refl (x ∷ xs) = ground (arith, same_text_refl xs)

pub same_text_sound : (a b : Text) → same_text a b ≡ true → a ≡ b
unfolding same_text
same_text_sound [] [] h = refl
same_text_sound [] (y ∷ ys) h = absurd (ground arith)
same_text_sound (x ∷ xs) [] h = absurd (ground arith)
same_text_sound (x ∷ xs) (y ∷ ys) h =
    let e : x ≡ y = (==_iff x y).0 (ground arith) in
    let r = same_text_sound xs ys (ground arith) in rw (e, r) refl

pub same_text_iff : (a b : Text) → (same_text a b ≡ true) ↔ (a ≡ b)
same_text_iff a b = (same_text_sound a b, λ e. rw e (same_text_refl b))

pub byte_len-append : (a b : Text) → byte_len (a ++ b) ≡ byte_len a + byte_len b
unfolding byte_len
byte_len-append [] b = omega arith
byte_len-append (c ∷ a) b = omega (arith, byte_len-append a b)

pub any-append : (test : ℕ → Bool) (a b : Text) → any test (a ++ b) ≡ (any test a || any test b)
unfolding any
any-append test [] b = refl
any-append test (c ∷ a) b = ground (arith, any-append test a b)
