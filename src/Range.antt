-- ===== src/Range.antt =====
-- include/xiapl/range.h and src/core/range.cpp: class Range, over the weights of Weights. A range that
-- the constructor accepts is a value; the combos and the game cannot be changed afterwards.
pub mod Parse
pub mod SetOps
use xia_pl.Base.{
  ℕ, zero, suc, ◌+◌, ◌-◌, ◌^◌, bit_and, bit_or, Bool, ◌==◌, ◌!=◌, if◌then◌else◌, List, [], ◌∷◌,
  ◌++◌, map, flat_map, up_from,
}
use xia_pl.Base.Errors.{
  Result, ok, err, invalid_argument_of, Piece, lit, bytes, num, throw_if, ◌>>=◌, ◌>>◌,
}
use xia_pl.Base.Words.{pop_bits}
use xia_pl.Card.{Card, to_string}
use xia_pl.Mask.{full_deck_mask, popcount64}
use xia_pl.Judge.{GameType, plo, holdem, cards_per_hand}
use xia_pl.Weights.{Weights}

pub record Combo {ℓ} (W : Type ℓ) : Type ℓ where
  pub mask : ℕ
  pub weight : W

pub record Range {ℓ} (W : Type ℓ) : Type ℓ where
  pub combos : List (Combo W)
  pub game : GameType

-- the text of the cards, in the order of the loop over `rest`
card_texts : List ℕ → List ℕ
card_texts [] = []
card_texts (id ∷ ids) = to_string (record { id = id }) ++ card_texts ids

unfoldable pub describe_mask : ℕ → List Piece
unfolding card_texts
describe_mask mask =
    if bit_and mask (2 ^ 64 - 1 - full_deck_mask) != 0
    then lit "#" ∷ num mask ∷ []
    else bytes (card_texts (pop_bits 64 64 mask)) ∷ []

module _ {ℓ} {W : Type ℓ} where
  unfoldable pub validate_combo_masks : List (Combo W) → GameType → Result (Unit {0})
  validate_combo_masks [] game = ok tt
  validate_combo_masks (c ∷ cs) game = do
    throw_if (popcount64 c.mask != cards_per_hand game) (
        invalid_argument_of (
          lit "Range: combo " ∷ describe_mask c.mask
          ++ lit " has "
            ∷ num (popcount64 c.mask)
            ∷ lit " cards, expected "
            ∷ num (cards_per_hand game)
            ∷ lit " for this GameType"
            ∷ []))
    validate_combo_masks cs game

  -- Range(combos, game)
  unfoldable pub make_range : List (Combo W) → GameType → Result (Range W)
  unfolding validate_combo_masks
  make_range combos game =
      validate_combo_masks combos game >> ok (record { combos = combos; game = game })

  -- the loop of `valid_combos`
  live_combos : List (Combo W) → ℕ → List (Combo W)
  live_combos [] dead_mask = []
  live_combos (c ∷ cs) dead_mask =
      let rest = live_combos cs dead_mask in
      if bit_and c.mask dead_mask == 0 then c ∷ rest else rest

  unfoldable pub valid_combos : Range W → ℕ → List (Combo W)
  unfolding live_combos
  valid_combos r dead_mask = live_combos r.combos dead_mask

module _ {ℓ} {W : Type ℓ} ⦃w : Weights W⦄ where
  -- the loops of `all_holdem_combos`
  unfoldable pub all_holdem_combos : List (Combo W)
  all_holdem_combos =
      flat_map
        (λ first.
          map (λ second. record { mask = bit_or (2 ^ first) (2 ^ second); weight = w.unit })
            (up_from (51 - first) (first + 1)))
        (up_from 52 0)

  -- the loops of `all_plo_combos`
  unfoldable pub all_plo_combos : List (Combo W)
  all_plo_combos =
      flat_map
        (λ c3.
          flat_map
            (λ c2.
              flat_map
                (λ c1.
                  map
                    (λ c0. record {
                      mask = bit_or (bit_or (bit_or (2 ^ c0) (2 ^ c1)) (2 ^ c2)) (2 ^ c3);
                      weight = w.unit;
                    })
                    (up_from c1 0))
                (up_from (c2 - 1) 1))
            (up_from (c3 - 2) 2))
        (up_from 49 3)

  unfoldable pub all : GameType → Result (Range W)
  unfolding make_range
  all plo = make_range all_plo_combos plo
  all holdem = make_range all_holdem_combos holdem

  -- the loop of `total_weight`
  add_weights : W → List (Combo W) → ℕ → W
  add_weights total [] dead_mask = total
  add_weights total (c ∷ cs) dead_mask =
      add_weights (if bit_and c.mask dead_mask == 0 then w.plus total c.weight else total) cs
        dead_mask

  unfoldable pub total_weight : Range W → ℕ → W
  unfolding add_weights
  total_weight r dead_mask = add_weights w.nought r.combos dead_mask
