-- ===== src/Text.antt =====
-- Texts, the lists of their characters, and what the crates call of `str` and `char`.
use Prim.Native.Char.{code}
use Prim.Native.String.{String}
use kitmux_linux.Base.{
  ℕ, zero, suc, ◌+◌, Bool, true, false, ◌&&◌, ◌||◌, Option, none, some, List, [], ◌∷◌, ◌==◌, leb,
  if◌then◌else◌,
}
use mathlib.Core.List.{reverse}
use mathlib.Core.Option
pub mod Laws
pub mod Trim

abbrev pub Text : Type 0
Text = List ℕ

-- A literal.
abbrev pub codes : String → Text
codes literal = elim literal [ String.[] ↦ [] | String.◌∷◌ first (rest → tail) ↦ code first ∷ tail ]

-- `str::len`: the bytes of the UTF-8 encoding.
unfoldable pub char_len : ℕ → ℕ
char_len c = if leb c 0x7f then 1 else if leb c 0x7ff then 2 else if leb c 0xffff then 3 else 4

unfoldable pub byte_len : Text → ℕ
byte_len [] = 0
byte_len (c ∷ cs) = char_len c + byte_len cs

unfoldable pub is_empty : Text → Bool
is_empty [] = true
is_empty (c ∷ cs) = false

unfoldable pub starts_with : Text → Text → Bool
starts_with cs [] = true
starts_with [] (p ∷ ps) = false
starts_with (c ∷ cs) (p ∷ ps) = c == p && starts_with cs ps

-- `str::contains` with a text.
unfoldable pub contains : Text → Text → Bool
unfolding starts_with
contains [] part = starts_with [] part
contains (c ∷ cs) part = starts_with (c ∷ cs) part || contains cs part

-- `split_once` with a character.
unfoldable pub split_once : ℕ → Text → Option (Text × Text)
split_once sep [] = none
split_once sep (c ∷ cs) =
    if c == sep then some ([], cs) else Option.map (λ (a, b). (c ∷ a, b)) (split_once sep cs)

-- `char::is_ascii_alphabetic`, `is_ascii_digit` and `is_ascii_alphanumeric`.
unfoldable pub is_ascii_alphabetic : ℕ → Bool
is_ascii_alphabetic c = (leb 65 c && leb c 90) || (leb 97 c && leb c 122)

unfoldable pub is_ascii_digit : ℕ → Bool
is_ascii_digit c = leb 48 c && leb c 57

unfoldable pub is_ascii_alphanumeric : ℕ → Bool
unfolding is_ascii_alphabetic is_ascii_digit
is_ascii_alphanumeric c = is_ascii_alphabetic c || is_ascii_digit c

-- `char::is_whitespace`: the property White_Space.
unfoldable pub is_whitespace : ℕ → Bool
is_whitespace c =
    (leb 9 c && leb c 13)
    || c == 0x20
    || c == 0x85
    || c == 0xa0
    || c == 0x1680
    || (leb 0x2000 c && leb c 0x200a)
    || c == 0x2028
    || c == 0x2029
    || c == 0x202f
    || c == 0x205f
    || c == 0x3000

-- `char::is_control`: the category Cc.
unfoldable pub is_control : ℕ → Bool
is_control c = leb c 0x1f || (leb 0x7f c && leb c 0x9f)

unfoldable pub trim_start : Text → Text
trim_start [] = []
trim_start (c ∷ cs) = let rest = trim_start cs in if is_whitespace c then rest else c ∷ cs

unfoldable pub trim : Text → Text
unfolding trim_start
trim value = reverse (trim_start (reverse (trim_start value)))

unfoldable pub drop : ℕ → Text → Text
drop zero cs = cs
drop (suc n) [] = []
drop (suc n) (c ∷ cs) = drop n cs

unfoldable pub any : (ℕ → Bool) → Text → Bool
any test [] = false
any test (c ∷ cs) = test c || any test cs

unfoldable pub take : ℕ → Text → Text
take zero cs = []
take (suc n) [] = []
take (suc n) (c ∷ cs) = c ∷ take n cs

-- Equality of texts.
unfoldable pub same_text : Text → Text → Bool
same_text [] [] = true
same_text (a ∷ as') (b ∷ bs) = a == b && same_text as' bs
same_text _ _ = false
