-- ===== src/Range/Parse.antt =====
-- The range notation of Hold'em: src/core/range.cpp from `split_tokens` to `parse_holdem_range`, the
-- weights of src/core/range_parse.h and src/core/range_holdem.cpp, and try_parse_range. The PLO parser
-- is an argument.
pub mod Accepted
use xia_pl.Base.{
  ℕ, Bool, true, false, not, ◌&&◌, ◌||◌, ◌==◌, ◌!=◌, if◌then◌else◌, Option, none, some, List, [],
  ◌∷◌, ◌++◌, length, get_or, ◌⊎◌, inl, inr,
}
use xia_pl.Base.Errors.{
  Result, ok, err, Exception, invalid_argument, invalid_argument_of, runtime_error,
  runtime_error_of, lit, bytes, throw_if, ◌>>=◌, ◌>>◌,
}
use xia_pl.Base.Sets.{contains}
use xia_pl.Chars.{try_rank_from_char, try_suit_from_char}
use xia_pl.Card.{from_string}
use xia_pl.Mask.{cards_to_mask}
use xia_pl.Judge.{GameType, plo, holdem}
use xia_pl.Text.{Text, trim, split_at, has_char, decimal_literal_prefix}
use xia_pl.Holdem.Masks.{expand_range_token_to_masks}
use xia_pl.Weights.{Weights}
use xia_pl.Range.{Combo, Range, make_range}

-- The pieces between commas, as `find` cuts them.
pieces : Text → List Text
pieces [] = [] ∷ []
pieces (c ∷ cs) =
    if c == b','
    then [] ∷ pieces cs
    else elim (pieces cs) [ [] ↦ (c ∷ []) ∷ [] | p ∷ ps ↦ (c ∷ p) ∷ ps ]

-- A piece that is empty once trimmed is left out.
keep_tokens : List Text → List Text
keep_tokens [] = []
keep_tokens (p ∷ ps) =
    let rest = keep_tokens ps in if length (trim p) != 0 then trim p ∷ rest else rest

unfoldable pub split_tokens : Text → List Text
unfolding pieces keep_tokens
split_tokens text = keep_tokens (pieces text)

unfoldable pub is_rank_char : ℕ → Bool
is_rank_char c = elim (try_rank_from_char c) [ some v ↦ true | none ↦ false ]

unfoldable pub is_suit_char : ℕ → Bool
is_suit_char c = elim (try_suit_from_char c) [ some v ↦ true | none ↦ false ]

unfoldable pub is_exact_combo_token : Text → Bool
unfolding is_rank_char is_suit_char
is_exact_combo_token token =
    length token == 4
    && is_rank_char (get_or token 0 0)
    && is_suit_char (get_or token 1 0)
    && is_rank_char (get_or token 2 0)
    && is_suit_char (get_or token 3 0)

unfoldable pub parse_exact_combo_mask : Text → Result ℕ
parse_exact_combo_mask token = do
  first ← from_string (get_or token 0 0 ∷ get_or token 1 0 ∷ [])
  second ← from_string (get_or token 2 0 ∷ get_or token 3 0 ∷ [])
  throw_if (first.id == second.id)
      (invalid_argument_of (lit "range token contains duplicate cards: " ∷ bytes token ∷ []))
  cards_to_mask (first ∷ second ∷ [])

unfoldable pub expand_holdem_token : Text → Result (List ℕ)
expand_holdem_token notation =
    if is_exact_combo_token notation
    then parse_exact_combo_mask notation >>= (λ mask. ok (mask ∷ []))
    else expand_range_token_to_masks notation

pub data WeightRangeError : Type 0 where
  not_a_number trailing_characters out_of_range out_of_bounds : WeightRangeError

-- the lambda of `parse_weight`
unfoldable pub report : WeightRangeError → Text → Exception
report not_a_number v = invalid_argument_of (lit "range weight is not a number: " ∷ bytes v ∷ [])
report trailing_characters v =
    invalid_argument_of (lit "range weight has trailing characters: " ∷ bytes v ∷ [])
report out_of_range v =
    invalid_argument_of (lit "range weight is out of the representable range: " ∷ bytes v ∷ [])
report out_of_bounds v = invalid_argument "range weight must be in (0.0, 1.0]"

-- The text, its weight and `notation` of ParsedToken.
pub record ParsedToken {ℓ} (W : Type ℓ) : Type ℓ where
  pub notation : Text
  pub weight : W

module _ {ℓ} {W : Type ℓ} ⦃w : Weights W⦄ where
  -- `none` of `read` is a stream that fails.
  unfoldable pub parse_weight_literal : Text → (WeightRangeError ⊎ W)
  parse_weight_literal text =
      let end = decimal_literal_prefix text in
      if end == 0
      then inl not_a_number
      else if end != length text
      then inl trailing_characters
      else elim (w.read text) [ none ↦ inl out_of_range | some value ↦ inr value ]

  unfoldable pub parse_range_weight : Text → (WeightRangeError → Text → Exception) → Result W
  parse_range_weight value rep = elim (parse_weight_literal value) [
    | inl e ↦ err (rep e value)
    | inr weight ↦
        if not (w.is_finite weight) || not (w.lt w.nought weight) || w.lt w.unit weight
        then err (rep out_of_bounds value)
        else ok weight
  ]

  unfoldable pub parse_weight : Text → Result W
  unfolding parse_range_weight
  parse_weight text = do
    let value = trim text
    throw_if (length value == 0) (invalid_argument "range weight is empty")
    parse_range_weight value report

  unfoldable pub parse_weighted_token : Text → Result (ParsedToken W)
  parse_weighted_token token = elim (split_at b':' token) [
    | none ↦ ok (record { notation = trim token; weight = w.unit })
    | some (before, after) ↦ do
      throw_if (has_char b':' after) (
          invalid_argument_of
            (lit "range token contains multiple ':' separators: " ∷ bytes token ∷ []))
      throw_if (length (trim before) == 0) (invalid_argument "range notation is empty")
      weight ← parse_weight (trim after)
      ok (record { notation = trim before; weight = weight })
  ]

  -- the loop over `masks`: the set of what was seen, and the combos
  unfoldable pub add_masks : List ℕ → W → List ℕ → List (Combo W) → Result (List ℕ × List (Combo W))
  add_masks [] weight seen combos = ok (seen, combos)
  add_masks (m ∷ ms) weight seen combos = do
    throw_if (contains m seen) (invalid_argument "range contains duplicate combo")
    add_masks ms weight (m ∷ seen) (combos ++ (record { mask = m; weight = weight }) ∷ [])

  -- the loop over the tokens
  unfoldable pub parse_tokens : List Text → List ℕ → List (Combo W) → Result (List (Combo W))
  unfolding add_masks
  parse_tokens [] seen combos = ok combos
  parse_tokens (t ∷ ts) seen combos = do
    parsed ← parse_weighted_token t
    masks ← expand_holdem_token parsed.notation
    throw_if (length masks == 0)
        (invalid_argument_of (lit "range token produced no combos: " ∷ bytes parsed.notation ∷ []))
    (seen', combos') ← add_masks masks parsed.weight seen combos
    parse_tokens ts seen' combos'

  unfoldable pub parse_holdem_range : Text → Result (List (Combo W))
  unfolding parse_tokens
  parse_holdem_range text = parse_tokens (split_tokens text) [] []

  module _ (parse_plo_range : Text → Result (List (Combo W))) where
    unfoldable pub range_from_string : Text → GameType → Result (Range W)
    unfolding parse_holdem_range
    range_from_string text plo = do combos ← parse_plo_range text; make_range combos plo
    range_from_string text holdem = do combos ← parse_holdem_range text; make_range combos holdem

    -- The handlers take an std::invalid_argument; no std::out_of_range is thrown in the model.
    unfoldable pub try_parse_range : Text → Result (Option (Range W))
    unfolding range_from_string
    try_parse_range text = elim (range_from_string text holdem) [
      | ok r ↦ ok (some r)
      | err (invalid_argument m) ↦ ok none
      | err (invalid_argument_of m) ↦ ok none
      | err (runtime_error m) ↦ err (runtime_error m)
      | err (runtime_error_of m) ↦ err (runtime_error_of m)
    ]
