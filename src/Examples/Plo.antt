-- ===== src/Examples/Plo.antt =====
-- The notation of PLO ranges at concrete texts.
use xia_pl.Base.{ℕ, ◌+◌, ◌-◌, ◌^◌, ◌≡◌, refl, inl, ◌==◌, true, ltb, none, List, [], ◌∷◌, get_or}
use xia_pl.Base.Int.{pos}
use xia_pl.Base.Errors.{ok}
use xia_pl.Chars.{try_rank_from_char, try_suit_from_char}
use xia_pl.Card.{try_parse_card, card_of_ints}
use xia_pl.Text.{Text, is_space, trim, split_at, has_char}
use xia_pl.Judge.{plo}
use xia_pl.Weights.{Weights}
use xia_pl.Range.{Combo}
use xia_pl.Range.Parse.{range_from_string, is_rank_char}
use xia_pl.PloPattern.{PloPattern, any, make_plo_pattern, sort_down}
use xia_pl.PloRange.{
  split_items, parse_item, check_body, reject_spaces, reject_reserved_characters, is_rank_symbol,
  ascii_lower,
}
use xia_pl.PloRange.Patterns.{
  looks_like_exact_hand, parse_exact_hand, add_exact_cards, rank_symbol_value, all_rank_symbols,
  same_text, core_and_suit, check_core, parse_pattern,
}
use xia_pl.PloRange.Progressions.{
  expand_item, progression_form, is_no_form, same_form, same_suit, reaches, shift_ranks,
  shift_pattern, span_patterns, check_span_texts, check_span_ends, open_patterns,
  expand_span_progression,
}
use xia_pl.PloRange.Progressions.Span.{length-expand_span_progression}
use xia_pl.PloRange.Progressions.Rounds.{open_patterns-rounds}
use xia_pl.PloRange.Merge.{
  WeightText, parse_items, merge_items, merge_masks, find_entry, combos_of, parse_plo_range,
}
use xia_pl.PloRange.Merge.Claims.{Claimed, parse_plo_range-Claimed}
use xia_pl.PloRange.Merge.Accepted.{range_from_string-parse_plo_range}

-- Whole numbers are weights.
instance abbrev counts : Weights ℕ
counts = record {
  nought = 0;
  unit = 1;
  lt = ltb;
  minus = ◌-◌;
  plus = ◌+◌;
  is_finite = λ _. true;
  read = λ _. none;
}

instance abbrev count_texts : WeightText ℕ
count_texts = record { same = ◌==◌; format = λ _. [] }

-- "AcAdAhAs, 2c3c4c5c, AsAhAdAc"
abbrev three_hands : Text
three_hands =
    b'A' ∷ b'c' ∷ b'A' ∷ b'd' ∷ b'A' ∷ b'h' ∷ b'A' ∷ b's' ∷ b',' ∷ b' ' ∷ b'2' ∷ b'c' ∷ b'3' ∷ b'c'
    ∷ b'4' ∷ b'c' ∷ b'5' ∷ b'c' ∷ b',' ∷ b' ' ∷ b'A' ∷ b's' ∷ b'A' ∷ b'h' ∷ b'A' ∷ b'd' ∷ b'A'
    ∷ b'c' ∷ []

abbrev two_combos : List (Combo ℕ)
two_combos =
    record { mask = 15; weight = 1 }
    ∷ record { mask = 2 ^ 12 + 2 ^ 25 + 2 ^ 38 + 2 ^ 51; weight = 1 }
    ∷ []

three_hands_parse : parse_plo_range three_hands ≡ ok two_combos
unfolding parse_plo_range split_items trim parse_items parse_item split_at check_body reject_spaces
    reject_reserved_characters merge_items expand_item looks_like_exact_hand parse_exact_hand
    add_exact_cards merge_masks find_entry combos_of try_parse_card card_of_ints is_space
    try_rank_from_char try_suit_from_char
three_hands_parse = refl

parse_plo_range-Claimed_example : Claimed three_hands two_combos
parse_plo_range-Claimed_example = parse_plo_range-Claimed three_hands two_combos three_hands_parse

range_from_string-parse_plo_range_example :
    range_from_string parse_plo_range three_hands plo
    ≡ ok (record { combos = two_combos; game = plo })
range_from_string-parse_plo_range_example =
    range_from_string-parse_plo_range three_hands two_combos three_hands_parse

-- "JJ**" and "99**"
abbrev jacks : Text
jacks = b'J' ∷ b'J' ∷ b'*' ∷ b'*' ∷ []

abbrev nines : Text
nines = b'9' ∷ b'9' ∷ b'*' ∷ b'*' ∷ []

abbrev pair_pattern : ℕ → PloPattern
pair_pattern r = record { ranks = r ∷ r ∷ 0 ∷ 0 ∷ []; suit = any }

open_patterns-rounds_example :
    open_patterns (14 + 7) (pair_pattern 11) (pos 1) (pos 0)
    ≡ open_patterns 14 (pair_pattern 11) (pos 1) (pos 0)
unfolding parse_pattern core_and_suit check_core make_plo_pattern is_rank_symbol is_rank_char
    try_rank_from_char rank_symbol_value sort_down progression_form is_no_form all_rank_symbols
    same_text ascii_lower
open_patterns-rounds_example =
    open_patterns-rounds [] jacks (pair_pattern 11) (pos 1) 7 refl refl (inl refl)

span_parse :
    expand_span_progression [] jacks nines
    ≡ ok (pair_pattern 11 ∷ pair_pattern 10 ∷ pair_pattern 9 ∷ [])
unfolding expand_span_progression check_span_texts check_span_ends span_patterns shift_pattern
    shift_ranks parse_pattern core_and_suit check_core make_plo_pattern is_rank_symbol is_rank_char
    try_rank_from_char rank_symbol_value sort_down progression_form is_no_form has_char same_form
    same_suit reaches all_rank_symbols same_text ascii_lower
span_parse = refl

length-expand_span_progression_example :
    (left : PloPattern) × (right : PloPattern) × (parse_pattern [] jacks ≡ ok left)
    × (parse_pattern [] nines ≡ ok right)
    × (3 + get_or right.ranks 0 0 ≡ get_or left.ranks 0 0 + 1)
length-expand_span_progression_example =
    length-expand_span_progression [] jacks nines
      (pair_pattern 11 ∷ pair_pattern 10 ∷ pair_pattern 9 ∷ []) span_parse
