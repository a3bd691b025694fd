-- ===== src/Text.antt =====
-- Texts as lists of UTF-16 code units, for the code that walks or matches them: the character
-- classes, `trim` and the anchored patterns that the program's regular expressions need.
use signalstack_sms.Prelude.{
  ℕ, ◌-◌, Bool, true, false, ◌&&◌, ◌||◌, List, [], ◌∷◌, leb, ◌==◌, if◌then◌else◌, length, all,
}
use mathlib.Core.List.{reverse}

abbrev pub Text : Type 0
Text = List ℕ

abbrev pub between : ℕ → ℕ → ℕ → Bool
between lo hi c = leb lo c && leb c hi

unfoldable pub is_digit : ℕ → Bool
is_digit c = between b'0' b'9' c

unfoldable pub is_upper : ℕ → Bool
is_upper c = between b'A' b'Z' c

unfoldable pub is_lower : ℕ → Bool
is_lower c = between b'a' b'z' c

-- `[0-9a-f]` under the flag `i`
unfoldable pub is_hex : ℕ → Bool
unfolding is_digit
is_hex c = is_digit c || between b'a' b'f' c || between b'A' b'F' c

-- White space and line terminators, as `String.prototype.trim` and `\s` read them.
unfoldable pub is_space : ℕ → Bool
is_space c =
    between 9 13 c
    || c == 32
    || c == 0xa0
    || c == 0x1680
    || between 0x2000 0x200a c
    || between 0x2028 0x2029 c
    || c == 0x202f
    || c == 0x205f
    || c == 0x3000
    || c == 0xfeff

unfoldable pub trim_start : Text → Text
trim_start [] = []
trim_start (c ∷ s) = if is_space c then trim_start s else c ∷ s

unfoldable pub trim : Text → Text
trim s = reverse (trim_start (reverse (trim_start s)))

-- `toUpperCase` of a text of ASCII letters.
unfoldable pub to_upper : ℕ → ℕ
unfolding is_lower
to_upper c = if is_lower c then c - 32 else c

-- `^[A-Z][A-Z0-9_]{lo,hi}$`
unfoldable pub is_safe_code : ℕ → ℕ → Text → Bool
unfolding is_upper is_digit
is_safe_code lo hi [] = false
is_safe_code lo hi (c ∷ s) =
    is_upper c && all (λ d. is_upper d || is_digit d || d == b'_') s && between lo hi (length s)

-- A text that has one character of each class, in order, and no more.
unfoldable pub matches_shape : List (ℕ → Bool) → Text → Bool
matches_shape [] [] = true
matches_shape (p ∷ shape) (c ∷ s) = p c && matches_shape shape s
matches_shape _ _ = false
