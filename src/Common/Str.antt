-- ===== src/Common/Str.antt =====
-- Python's `str` as its list of code points, and the methods of it that the program calls.
use Prim.Native.Nat.{ℕ, ◌+◌}
use Prim.Native.Char.{code}
use Prim.Native.String.{String}
use mathlib.Core.Bool.{Bool, true, false, ◌&&◌, ◌||◌}
use mathlib.Core.List.{List, [], ◌∷◌, map}
use ai_m_os.Common.Tests.{leb, ◌==◌, if◌then◌else◌}

abbrev pub Text : Type 0
Text = List ℕ

-- The text that a literal of the source stands for.
abbrev pub codes : String → Text
codes String.[] = []
codes (String.◌∷◌ c s) = code c ∷ codes s

unfoldable pub text_eq : Text → Text → Bool
text_eq [] [] = true
text_eq (a ∷ s) (b ∷ t) = a == b && text_eq s t
text_eq _ _ = false

unfoldable pub starts_with : Text → Text → Bool
starts_with s [] = true
starts_with [] (_ ∷ _) = false
starts_with (a ∷ s) (b ∷ t) = a == b && starts_with s t

-- `p in s`
unfoldable pub has_part : Text → Text → Bool
unfolding starts_with
has_part [] p = starts_with [] p
has_part (a ∷ s) p = starts_with (a ∷ s) p || has_part s p

-- `str.isspace` of one character.
unfoldable pub is_space : ℕ → Bool
is_space c =
    (leb 9 c && leb c 13)
    || (leb 28 c && leb c 32)
    || c == 0x85
    || c == 0xa0
    || c == 0x1680
    || (leb 0x2000 c && leb c 0x200a)
    || c == 0x2028
    || c == 0x2029
    || c == 0x202f
    || c == 0x205f
    || c == 0x3000

-- Where `str.splitlines` breaks.
unfoldable pub is_line_break : ℕ → Bool
is_line_break c =
    (leb 10 c && leb c 13) || (leb 28 c && leb c 30) || c == 0x85 || c == 0x2028 || c == 0x2029

-- Put a character in front of the first piece.
abbrev pub onto_head : ℕ → List Text → List Text
onto_head c [] = (c ∷ []) ∷ []
onto_head c (p ∷ ps) = (c ∷ p) ∷ ps

abbrev pub starts_apart : (ℕ → Bool) → Text → Bool
starts_apart p [] = true
starts_apart p (c ∷ s) = p c

-- `s.split()`
unfoldable pub split_words : Text → List Text
unfolding is_space
split_words [] = []
split_words (c ∷ s) =
    let rest = split_words s in
    if is_space c
    then rest
    else if starts_apart is_space s
    then (c ∷ []) ∷ rest
    else onto_head c rest

-- `s.split(sep)` for a separator of one character
unfoldable pub split_on : ℕ → Text → List Text
split_on sep [] = [] ∷ []
split_on sep (c ∷ s) = let rest = split_on sep s in if c == sep then [] ∷ rest else onto_head c rest

-- `s.splitlines()`, or a walk over the lines of a file, by where it breaks. A text that ends in a
-- break has no empty line after it.
unfoldable pub split_lines : (ℕ → Bool) → Text → List Text
split_lines p [] = []
split_lines p (c ∷ s) = let rest = split_lines p s in if p c then [] ∷ rest else onto_head c rest

abbrev pub is_newline : ℕ → Bool
is_newline c = c == 10

-- `lstrip` and `rstrip`, by the characters that go.
unfoldable pub strip_left : (ℕ → Bool) → Text → Text
strip_left p [] = []
strip_left p (c ∷ s) = let rest = strip_left p s in if p c then rest else c ∷ s

unfoldable pub strip_right : (ℕ → Bool) → Text → Text
strip_right p [] = []
strip_right p (c ∷ s) =
    let rest = strip_right p s in elim rest [ [] ↦ if p c then [] else c ∷ [] | d ∷ t ↦ c ∷ d ∷ t ]

-- `s.strip()`
unfoldable pub strip : Text → Text
unfolding strip_left strip_right is_space
strip s = strip_right is_space (strip_left is_space s)

-- `s.lower()` on ASCII letters.
unfoldable pub lower : Text → Text
lower = map λ c. if leb b'A' c && leb c b'Z' then c + 32 else c

abbrev pub is_digit : ℕ → Bool
is_digit c = leb b'0' c && leb c b'9'

abbrev pub all_digits : Text → Bool
all_digits [] = true
all_digits (c ∷ s) = is_digit c && all_digits s

-- `s.isdigit()` on ASCII text.
unfoldable pub is_digits : Text → Bool
is_digits [] = false
is_digits (c ∷ s) = all_digits (c ∷ s)
