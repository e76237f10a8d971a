-- ===== src/PloRange.antt =====
-- src/core/range_plo.cpp: the notation of PLO ranges, up to the items. A text is the list of its bytes.
pub mod Patterns
pub mod Progressions
pub mod Merge
pub mod Hands
use xia_pl.Base.{
  ℕ, suc, ◌+◌, ◌-◌, ◌/◌, ◌%◌, Bool, true, false, ◌&&◌, ◌||◌, ◌==◌, leb, if◌then◌else◌, Option, none,
  some, List, [], ◌∷◌, ◌++◌, map, length, get_or, String,
}
use xia_pl.Base.Errors.{
  Result, ok, err, Exception, invalid_argument_of, Piece, lit, bytes, num, throw_if, ◌>>=◌, ◌>>◌,
}
use xia_pl.Text.{Text, is_space, trim, split_at}
use xia_pl.Weights.{Weights}
use xia_pl.Range.Parse.{
  WeightRangeError, not_a_number, trailing_characters, out_of_range, out_of_bounds, is_rank_char,
  parse_range_weight,
}

-- The hints that end the messages.
abbrev pub syntax_summary : String
syntax_summary =
    "a PLO item is 4 rank symbols ('2'-'9', 'T', 'J', 'Q', 'K', 'A' or '*') with an optional \"ds\" / \"ss\" / \"r\" suit suffix, an exact 4-card hand (e.g. \"AsAdKhKc\"), or a progression (e.g. \"JJ**+\", \"JT98-8765\")"

abbrev wildcard_hint : String
wildcard_hint =
    "'x' is not part of the v0.1 notation; write '*' for an unknown card, or a \"ds\" / \"ss\" / \"r\" suffix to constrain suits"

abbrev percentile_hint : String
percentile_hint =
    "'%' percentile ranges are not supported in v0.1 (there is no ranking table); spell the hands out as patterns instead"

abbrev weight_hint : String
weight_hint =
    "':' here is a weight separator; boolean AND is not supported in v0.1 (write e.g. \"AA**:0.5\", weight in (0.0, 1.0])"

abbrev hex_digits : Text
hex_digits =
    b'0' ∷ b'1' ∷ b'2' ∷ b'3' ∷ b'4' ∷ b'5' ∷ b'6' ∷ b'7' ∷ b'8' ∷ b'9' ∷ b'A' ∷ b'B' ∷ b'C' ∷ b'D'
    ∷ b'E' ∷ b'F' ∷ []

unfoldable pub escape_byte : ℕ → Text
escape_byte byte =
    if leb 32 byte && leb byte 126
    then byte ∷ []
    else 92 ∷ b'x' ∷ get_or hex_digits (byte / 16) 0 ∷ get_or hex_digits (byte % 16) 0 ∷ []

unfoldable pub escape_text : Text → Text
unfolding escape_byte
escape_text [] = []
escape_text (c ∷ cs) = escape_byte c ++ escape_text cs

-- Of a message only the texts can hold bytes that are to be escaped.
unfoldable pub escape_piece : Piece → Piece
escape_piece (lit s) = lit s
escape_piece (bytes t) = bytes (escape_text t)
escape_piece (num n) = num n

unfoldable pub item_error : Text → List Piece → Exception
item_error item detail =
    invalid_argument_of
      (map escape_piece (lit "PLO range item \"" ∷ bytes item ∷ lit "\": " ∷ detail))

unfoldable pub range_error : List Piece → Exception
range_error detail = invalid_argument_of (map escape_piece (lit "PLO range: " ∷ detail))

unfoldable pub is_rank_symbol : ℕ → Bool
is_rank_symbol c = c == b'*' || is_rank_char c

unfoldable pub ascii_lower : ℕ → ℕ
ascii_lower c = if leb b'A' c && leb c b'Z' then c - b'A' + b'a' else c

pub record Item {ℓ} (W : Type ℓ) : Type ℓ where
  pub text : Text
  pub body : Text
  pub weight : W

-- what `split_items` finds between the commas, from `pos` on
pieces : Text → List Text
pieces [] = [] ∷ []
pieces (c ∷ cs) =
    if c == b','
    then [] ∷ pieces cs
    else elim (pieces cs) [ [] ↦ (c ∷ []) ∷ [] | p ∷ ps ↦ (c ∷ p) ∷ ps ]

-- the loop over the pieces, after `count` items
keep_items : ℕ → List Text → Result (List Text)
keep_items count [] = ok []
keep_items count (p ∷ ps) = do
  let item = trim p
  throw_if (length item == 0) (
      range_error (
        lit "item "
        ∷ num (count + 1)
        ∷ lit
            " is empty; items are separated by ',' and every item must hold a hand, pattern or progression"
        ∷ []))
  rest ← keep_items (count + 1) ps
  ok (item ∷ rest)

unfoldable pub split_items : Text → Result (List Text)
unfolding pieces keep_items
split_items text = keep_items 0 (pieces text)

-- the lambda of `parse_weight`
report_weight : Text → WeightRangeError → Text → Exception
report_weight item not_a_number v =
    item_error item (lit "\"" ∷ bytes v ∷ lit "\" is not a number; " ∷ lit weight_hint ∷ [])
report_weight item trailing_characters v =
    item_error item
      (lit "weight \"" ∷ bytes v ∷ lit "\" has trailing characters; " ∷ lit weight_hint ∷ [])
report_weight item out_of_range v = item_error item (
    lit "weight \"" ∷ bytes v ∷ lit "\" is out of the representable range; " ∷ lit weight_hint ∷ [])
report_weight item out_of_bounds v =
    item_error item
      (lit "weight \"" ∷ bytes v ∷ lit "\" is not in (0.0, 1.0]; " ∷ lit weight_hint ∷ [])

is_reserved : ℕ → Bool
is_reserved c = c == b'!' || c == b'$' || c == b'@' || c == b'(' || c == b')'

-- the loop over the body
unfoldable pub reject_reserved_characters : Text → Text → Result (Unit {0})
unfolding is_reserved
reject_reserved_characters item [] = ok tt
reject_reserved_characters item (c ∷ cs) = do
  throw_if (c == b'%') (item_error item (lit percentile_hint ∷ []))
  throw_if (c == b'x' || c == b'X') (item_error item (lit wildcard_hint ∷ []))
  throw_if (is_reserved c) (
      item_error item (
        lit "'"
        ∷ bytes (c ∷ [])
        ∷ lit "' is reserved for future syntax and is not part of v0.1; "
        ∷ lit syntax_summary
        ∷ []))
  reject_reserved_characters item cs

-- the loop of `parse_item` over the body
unfoldable pub reject_spaces : Text → Text → Result (Unit {0})
reject_spaces item [] = ok tt
reject_spaces item (c ∷ cs) =
    throw_if (is_space c)
      (item_error item (lit "whitespace is allowed around ',' and ':' only" ∷ []))
    >> reject_spaces item cs

-- what parse_item asks of the body
unfoldable pub check_body : Text → Text → Result (Unit {0})
check_body raw body = do
  throw_if (length body == 0)
      (item_error raw (lit "the notation is empty; " ∷ lit syntax_summary ∷ []))
  reject_spaces raw body
  reject_reserved_characters raw body

module _ {ℓ} {W : Type ℓ} ⦃w : Weights W⦄ where
  unfoldable pub parse_weight : Text → Text → Result W
  unfolding report_weight
  parse_weight item weight_text = do
    let value = trim weight_text
    throw_if (length value == 0)
        (item_error item (lit "the weight after ':' is empty; " ∷ lit weight_hint ∷ []))
    parse_range_weight value (report_weight item)

  unfoldable pub parse_item : Text → Result (Item W)
  parse_item raw = elim (split_at b':' raw) [
    | none ↦ check_body raw raw >> ok (record { text = raw; body = raw; weight = w.unit })
    | some (before, after) ↦ do
      check_body raw (trim before)
      weight ← parse_weight raw after
      ok (record { text = raw; body = trim before; weight = weight })
  ]
