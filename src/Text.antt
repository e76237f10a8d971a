-- ===== src/Text.antt =====
-- Text as the list of its bytes: the helpers of src/core/range_parse.h and of
-- src/core/range_holdem.cpp that read it, with the members of std::string that they call.
use xia_pl.Base.{
  ℕ, ◌+◌, Bool, false, ◌&&◌, ◌||◌, ◌==◌, leb, ltb, if◌then◌else◌, Option, none, some, List, [], ◌∷◌,
}
use mathlib.Core.List.{reverse}

abbrev pub Text : Type 0
Text = List ℕ

-- std::isspace in the "C" locale
unfoldable pub is_space : ℕ → Bool
is_space c = c == 32 || (leb 9 c && leb c 13)

-- the loop over `begin`
unfoldable pub drop_spaces : Text → Text
unfolding is_space
drop_spaces [] = []
drop_spaces (c ∷ cs) = if is_space c then drop_spaces cs else c ∷ cs

-- the loop over `end` walks from the right
unfoldable pub trim : Text → Text
unfolding drop_spaces
trim text = reverse (drop_spaces (reverse (drop_spaces text)))

-- `find(c)` with what stands before and after the place; `none` for npos
unfoldable pub split_at : ℕ → Text → Option (Text × Text)
split_at c [] = none
split_at c (x ∷ xs) =
    if x == c
    then some ([], xs)
    else elim (split_at c xs) [ none ↦ none | some (before, after) ↦ some (x ∷ before, after) ]

unfoldable pub has_char : ℕ → Text → Bool
has_char c [] = false
has_char c (x ∷ xs) = x == c || has_char c xs

-- `back` and `pop_back` in one; `none` for the empty text
unfoldable pub pop_char : Text → Option (Text × ℕ)
pop_char [] = none
pop_char (x ∷ xs) = elim (pop_char xs) [
  | none ↦ some ([], x)
  | some (front, last) ↦ some (x ∷ front, last)
]

unfoldable pub is_ascii_digit : ℕ → Bool
is_ascii_digit c = leb b'0' c && leb c b'9'

-- the loops over digits: how many, and what stands after them
unfoldable pub count_digits : Text → ℕ × Text
unfolding is_ascii_digit
count_digits [] = (0, [])
count_digits (c ∷ cs) =
    let (n, rest) = count_digits cs in if is_ascii_digit c then (n + 1, rest) else (0, c ∷ cs)

-- the sign that may stand after an `e`
skip_sign : Text → ℕ × Text
skip_sign [] = (0, [])
skip_sign (c ∷ cs) = if c == b'+' || c == b'-' then (1, cs) else (0, c ∷ cs)

-- the exponent after `mantissa_end`
exponent_prefix : ℕ → Text → ℕ
unfolding skip_sign count_digits
exponent_prefix mantissa_end [] = mantissa_end
exponent_prefix mantissa_end (c ∷ cs) =
    let (sign, rest) = skip_sign cs in
    let digits = (count_digits rest).0 in
    if (c == b'e' || c == b'E') && ltb 0 digits
    then mantissa_end + 1 + sign + digits
    else mantissa_end

-- the point and the digits after it
fraction : Text → ℕ × ℕ × Text
unfolding count_digits
fraction [] = (0, 0, [])
fraction (c ∷ cs) =
    let (n, rest) = count_digits cs in if c == b'.' then (1, n, rest) else (0, 0, c ∷ cs)

unfoldable pub decimal_literal_prefix : Text → ℕ
unfolding count_digits fraction exponent_prefix
decimal_literal_prefix text =
    let (whole, after_whole) = count_digits text in
    let (point, part, after_part) = fraction after_whole in
    if whole + part == 0 then 0 else exponent_prefix (whole + point + part) after_part
