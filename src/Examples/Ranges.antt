-- ===== src/Examples/Ranges.antt =====
-- The theorems on ranges, canonical forms, boards and patterns at concrete inputs.

use xia_pl.Base.{
  List, ℕ, ◌+◌, ◌-◌, ◌^◌, ◌≤◌, bit_or, ◌≡◌, ◌↔◌, refl, true, ltb, none, [], ◌∷◌, up_from, All,
  arith,
}
use xia_pl.Base.Errors.{ok}
use xia_pl.Base.Words.{popcount}
use xia_pl.Base.Sets.{contains}
use xia_pl.Mask.{cards_to_mask, mask_to_ids, popcount64}
use xia_pl.Judge.{holdem, cards_per_hand}
use xia_pl.Weights.{Weights}
use xia_pl.Range.{make_range, validate_combo_masks, Range}
use xia_pl.Range.SetOps.{range_union, range_intersection, range_difference}
use xia_pl.Range.SetOps.Laws.{union_weight, intersection_weight, difference_weight}
use xia_pl.Range.SetOps.Total.{
  IsRange, Gives, range_union_lem, range_intersection_lem, range_difference_lem,
}
use xia_pl.Range.Parse.{
  range_from_string, parse_holdem_range, parse_weighted_token, expand_holdem_token, split_tokens,
  is_exact_combo_token, parse_exact_combo_mask, parse_tokens, add_masks,
}
use xia_pl.Text.{trim, split_at}
use xia_pl.Chars.{try_rank_from_char, try_suit_from_char}
use xia_pl.Card.{from_string, get_rank_int, get_suit_int, card_of_ints}
use xia_pl.Range.Parse.Accepted.{range_from_string-IsRange}
use xia_pl.Canonicalize.{
  canonicalize_hero_and_board_strict, canonicalize_board, pack_hero_board, unpack_hero_board,
}
use xia_pl.Canonicalize.Strict.{SameUpToSuits, strict_iff, strict-board}
use xia_pl.Canonicalize.Packing.{unpack-pack}
use xia_pl.PloPattern.{PloPattern, plo_pattern_matches, plo_suit_qualifier_matches, double_suited}
use xia_pl.PloPattern.Laws.{slots, of_rank, suit_counts, plo_pattern_matches_iff}

-- Whole numbers are weights.
instance abbrev counts : Weights ℕ
counts = record {
  nought = 0;
  unit = 1;
  lt = ltb;
  minus = ◌-◌;
  plus = ◌+◌;
  is_finite = λ _. true;
  read = λ _. none;
}

-- two hands each, one of them the same
abbrev left_range : Range ℕ
left_range = record {
  combos =
      record { mask = 2 ^ 5 + 2 ^ 9; weight = 3 }
      ∷ record { mask = 2 ^ 1 + 2 ^ 2; weight = 4 }
      ∷ [];
  game = holdem;
}

abbrev right_range : Range ℕ
right_range = record {
  combos =
      record { mask = 2 ^ 1 + 2 ^ 2; weight = 1 }
      ∷ record { mask = 2 ^ 40 + 2 ^ 41; weight = 2 }
      ∷ [];
  game = holdem;
}

left_range-IsRange : IsRange left_range
unfolding popcount64 popcount contains cards_per_hand
left_range-IsRange = record { sized = (refl, (refl, tt)); distinct = (refl, (refl, tt)) }

right_range-IsRange : IsRange right_range
unfolding popcount64 popcount contains cards_per_hand
right_range-IsRange = record { sized = (refl, (refl, tt)); distinct = (refl, (refl, tt)) }

range_union_lem_example :
    Gives union_weight (range_union left_range right_range) left_range right_range
range_union_lem_example =
    range_union_lem left_range right_range left_range-IsRange right_range-IsRange refl

range_intersection_lem_example :
    Gives intersection_weight (range_intersection left_range right_range) left_range right_range
range_intersection_lem_example =
    range_intersection_lem left_range right_range left_range-IsRange right_range-IsRange refl

range_difference_lem_example :
    Gives difference_weight (range_difference left_range right_range) left_range right_range
range_difference_lem_example =
    range_difference_lem left_range right_range left_range-IsRange right_range-IsRange refl

strict_iff_example :
    (canonicalize_hero_and_board_strict (2 ^ 12 + 2 ^ 25) (2 ^ 0 + 2 ^ 14 + 2 ^ 30)
      ≡ canonicalize_hero_and_board_strict (2 ^ 38 + 2 ^ 51) (2 ^ 26 + 2 ^ 40 + 2 ^ 4))
    ↔ SameUpToSuits
        (2 ^ 12 + 2 ^ 25)
        (2 ^ 0 + 2 ^ 14 + 2 ^ 30)
        (2 ^ 38 + 2 ^ 51)
        (2 ^ 26 + 2 ^ 40 + 2 ^ 4)
strict_iff_example =
    strict_iff (2 ^ 12 + 2 ^ 25) (2 ^ 0 + 2 ^ 14 + 2 ^ 30) (2 ^ 38 + 2 ^ 51)
      (2 ^ 26 + 2 ^ 40 + 2 ^ 4)

strict-board_example :
    (canonicalize_hero_and_board_strict (2 ^ 12 + 2 ^ 25) (2 ^ 0 + 2 ^ 14 + 2 ^ 30)).board_mask
    ≡ canonicalize_board (2 ^ 0 + 2 ^ 14 + 2 ^ 30)
strict-board_example = strict-board (2 ^ 12 + 2 ^ 25) (2 ^ 0 + 2 ^ 14 + 2 ^ 30)

unpack-pack_example :
    unpack_hero_board (pack_hero_board (bit_or (2 ^ 3) (2 ^ 20)) (2 ^ 0 + 2 ^ 30 + 2 ^ 40))
    ≡ record { hero_mask = bit_or (2 ^ 3) (2 ^ 20); board_mask = 2 ^ 0 + 2 ^ 30 + 2 ^ 40 }
unpack-pack_example =
    unpack-pack 3 20 (omega arith) (omega arith) (2 ^ 0 + 2 ^ 30 + 2 ^ 40) (omega arith) refl

-- AK and two other cards, double suited
abbrev aces : PloPattern
aces = record { ranks = 14 ∷ 13 ∷ 0 ∷ 0 ∷ []; suit = double_suited }

plo_pattern_matches_iff_example :
    (plo_pattern_matches aces (2 ^ 12 + 2 ^ 11 + 2 ^ 13 + 2 ^ 14) ≡ true) ↔ (
      All
        (λ r. slots r aces.ranks ≤ of_rank r (mask_to_ids (2 ^ 12 + 2 ^ 11 + 2 ^ 13 + 2 ^ 14)))
        (up_from 13 2)
      × (plo_suit_qualifier_matches
            (suit_counts (mask_to_ids (2 ^ 12 + 2 ^ 11 + 2 ^ 13 + 2 ^ 14)))
            double_suited
          ≡ true))
plo_pattern_matches_iff_example =
    plo_pattern_matches_iff aces (2 ^ 12 + 2 ^ 11 + 2 ^ 13 + 2 ^ 14) (omega arith)
      (omega arith, (omega arith, (omega arith, (omega arith, tt))))

-- AsKs, with the weight of a token that has none, and 2c3d at weight 1
abbrev two_hands : Range ℕ
two_hands = record {
  combos =
      record { mask = 2 ^ 50 + 2 ^ 51; weight = 1 }
      ∷ record { mask = 2 ^ 0 + 2 ^ 14; weight = 1 }
      ∷ [];
  game = holdem;
}

abbrev two_hands_text : List ℕ
two_hands_text = b'A' ∷ b's' ∷ b'K' ∷ b's' ∷ b',' ∷ b' ' ∷ b'2' ∷ b'c' ∷ b'3' ∷ b'd' ∷ []

two_hands-read : range_from_string (λ _. ok []) two_hands_text holdem ≡ ok two_hands
unfolding range_from_string parse_holdem_range make_range parse_weighted_token expand_holdem_token
    split_tokens is_exact_combo_token parse_exact_combo_mask parse_tokens trim split_at
    try_rank_from_char try_suit_from_char from_string cards_to_mask add_masks validate_combo_masks
    popcount64 popcount get_rank_int get_suit_int card_of_ints contains cards_per_hand
two_hands-read = refl

range_from_string-IsRange_example : IsRange two_hands × (two_hands.game ≡ holdem)
range_from_string-IsRange_example =
    range_from_string-IsRange (λ _. ok []) two_hands_text two_hands two_hands-read
