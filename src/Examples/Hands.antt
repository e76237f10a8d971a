-- ===== src/Examples/Hands.antt =====
-- The theorems on hands, masks and cards at concrete inputs.
use xia_pl.Base.{
  ℕ, ◌+◌, ◌/◌, ◌^◌, ◌≤◌, ◌<◌, min, ◌≡◌, ◌⊎◌, ◌↔◌, true, ltb, none, some, List, [], ◌∷◌, ◌++◌, map,
  length, get_elem?, All, arith,
}
use mathlib.Core.List.{reverse}
use xia_pl.Base.Int.{pos, pos_part}
use xia_pl.Base.Errors.{ok, err, Exception}
use xia_pl.Base.Bits.{test_bit}
use xia_pl.Base.Words.{popcount}
use xia_pl.Base.Sets.{contains, AscendingFrom}
use xia_pl.Card.{Card, from_string, to_string, try_parse_card}
use xia_pl.Card.Text.{IsCard, from_string-to_string, try_parse_card-from_string}
use xia_pl.Mask.{mask_to_ids, ids_to_mask, cards_to_mask}
use xia_pl.Mask.Laws.{ids_to_mask-mask_to_ids, cards_to_mask_lem}
use xia_pl.HandValue.{HandValue, hand_lt}
use xia_pl.Evaluator.{eval_score7, decode_score, straight_high}
use xia_pl.Evaluator.Straight.{highest_straight, straight_high-eq-highest_straight}
use xia_pl.Evaluator.Category.{poker_category, category-eval_score7}
use xia_pl.Evaluator.Decode.{hand_lt-decode_score}
use xia_pl.Judge.{mask_to_indices, winner_mask_from_scores}
use xia_pl.Judge.Winners.{winners_iff}
use xia_pl.Deck.Invariant.{IsDeck, created, removed, dealt_ids, Reached-IsDeck}
use xia_pl.Deck.SetCards.{set_cards_lem, invalid_card_error, duplicate_card_error}
use xia_pl.Deck.{Deck, remove_cards, set_cards, deal_ids, deal_mask, reset, size}
use xia_pl.Deck.Dealing.{deal_ids_lem, deal_mask-deal_ids}

-- aces full of kings, with two spare cards
abbrev full_house_mask : ℕ
full_house_mask = 2 ^ 12 + 2 ^ 25 + 2 ^ 38 + 2 ^ 11 + 2 ^ 24 + 2 ^ 0 + 2 ^ 14

few_cards : popcount 52 full_house_mask ≤ 7
unfolding popcount
few_cards = omega arith

category-eval_score7_example : eval_score7 full_house_mask / 2 ^ 20 ≡ poker_category full_house_mask
category-eval_score7_example = category-eval_score7 full_house_mask few_cards

hand_lt-decode_score_example :
    hand_lt (decode_score 0x2E0000) (decode_score 0x7ED000) ≡ ltb 0x2E0000 0x7ED000
hand_lt-decode_score_example = hand_lt-decode_score 0x2E0000 0x7ED000 (omega arith) (omega arith)

straight_high-eq-highest_straight_example : straight_high 0x100F ≡ highest_straight 0x100F 10
straight_high-eq-highest_straight_example = straight_high-eq-highest_straight 0x100F (omega arith)

-- Players 0 and 2 tie.
abbrev scores : List ℕ
scores = 0x7ED000 ∷ 0x2E0000 ∷ 0x7ED000 ∷ []

winners_iff_example :
    (contains 2 (mask_to_indices (winner_mask_from_scores scores)) ≡ true)
    ↔ ((s : ℕ) × (get_elem? scores 2 ≡ some s) × (0 < s) × All (λ t. t ≤ s) scores)
winners_iff_example = winners_iff scores 2 (omega arith)

ids_to_mask-mask_to_ids_example :
    ids_to_mask (map pos (mask_to_ids 0x8000000000005)) ≡ ok 0x8000000000005
ids_to_mask-mask_to_ids_example = ids_to_mask-mask_to_ids 0x8000000000005 (omega arith)

abbrev three_ids : List ℕ
three_ids = 0 ∷ 2 ∷ 51 ∷ []

three_ids-AscendingFrom : AscendingFrom 0 three_ids
three_ids-AscendingFrom = (omega arith, (omega arith, (omega arith, tt)))

abbrev ace_of_spades : Card
ace_of_spades = record { id = 51 }

cards_to_mask_lem_example : (cards_to_mask (ace_of_spades ∷ []) ≡ ok (2 ^ 51)) ↔ (
    All (λ c. c.id < 52) (ace_of_spades ∷ [])
    × ((i : ℕ) → test_bit (2 ^ 51) i ≡ contains i (map (λ c. c.id) (ace_of_spades ∷ []))))
cards_to_mask_lem_example = cards_to_mask_lem (ace_of_spades ∷ []) (2 ^ 51)

from_string-to_string_example : from_string (to_string ace_of_spades) ≡ ok ace_of_spades
from_string-to_string_example = from_string-to_string ace_of_spades (omega arith)

try_parse_card-from_string_example :
    ((c : Card) × (from_string (65 ∷ 115 ∷ []) ≡ ok c)
      × (try_parse_card (65 ∷ 115 ∷ []) ≡ ok (some c))
      × IsCard c)
    ⊎ ((e : Exception) × (from_string (65 ∷ 115 ∷ []) ≡ err e)
        × (try_parse_card (65 ∷ 115 ∷ []) ≡ ok none))
try_parse_card-from_string_example = try_parse_card-from_string (65 ∷ 115 ∷ [])

abbrev pair_of : ℕ → HandValue
pair_of r = record { category = 2; kickers = r ∷ 9 ∷ 5 ∷ 3 ∷ 0 ∷ []; kicker_count = 4 }

deal_ids_lem_example :
    ((deal_ids reset (pos 5)).1.card_ids ++ reverse (deal_ids reset (pos 5)).0 ≡ reset.card_ids)
    × (length (deal_ids reset (pos 5)).0 ≡ min (pos_part (pos 5)) (size reset))
deal_ids_lem_example = deal_ids_lem reset (pos 5)

deal_mask-deal_ids_example :
    ((deal_mask reset (pos 3)).1 ≡ (deal_ids reset (pos 3)).1)
    × (test_bit (deal_mask reset (pos 3)).0 50 ≡ contains 50 (deal_ids reset (pos 3)).0)
deal_mask-deal_ids_example = deal_mask-deal_ids reset (pos 3) 50

-- the deck without the ace of spades, after three cards
abbrev used_deck : Deck
used_deck = (deal_ids (remove_cards reset (ace_of_spades ∷ [])) (pos 3)).1

Reached-IsDeck_example : IsDeck used_deck.card_ids
Reached-IsDeck_example =
    Reached-IsDeck used_deck (dealt_ids (removed created (ace_of_spades ∷ [])) (pos 3))

abbrev deuce_of_clubs : Card
deuce_of_clubs = record { id = 0 }

set_cards_lem_example :
    (IsDeck (map (λ c. c.id) (ace_of_spades ∷ ace_of_spades ∷ []))
      × (set_cards reset (ace_of_spades ∷ ace_of_spades ∷ [])
          ≡ ok (record { card_ids = map (λ c. c.id) (ace_of_spades ∷ ace_of_spades ∷ []) })))
    ⊎ ((¬ IsDeck (map (λ c. c.id) (ace_of_spades ∷ ace_of_spades ∷ [])))
        × ((set_cards reset (ace_of_spades ∷ ace_of_spades ∷ []) ≡ err invalid_card_error)
            ⊎ (set_cards reset (ace_of_spades ∷ ace_of_spades ∷ []) ≡ err duplicate_card_error)))
set_cards_lem_example = set_cards_lem reset (ace_of_spades ∷ ace_of_spades ∷ [])
