-- ===== src/Preflop.antt =====
-- src/core/preflop_rank.cpp: the best starting hands by the table of ranks, which is generated data and a
-- parameter: its labels, best first.
use xia_pl.Base.{ℕ, not, ◌&&◌, List, [], ◌∷◌, ◌++◌, length, take, String}
use xia_pl.Base.Errors.{Result, ok, err, invalid_argument_of, lit, bytes, throw_if, ◌>>=◌, ◌>>◌}
use xia_pl.Judge.{GameType, plo, holdem}
use xia_pl.Text.{Text}
use xia_pl.Weights.{Weights}
use xia_pl.Range.{Combo, Range, make_range}
use xia_pl.Range.Parse.{range_from_string}
use xia_pl.Range.SetOps.{sort_combos}

-- What is done with `top_percent` beyond Weights: its text by std::to_string, and the product with a size,
-- cut off to a whole number.
pub record Percents {ℓ} (W : Type ℓ) : Type ℓ where
  pub text : W → Text
  pub portion : ℕ → W → ℕ

require_holdem_ranking : GameType → String → Result (Unit {0})
require_holdem_ranking holdem fn_name = ok tt
require_holdem_ranking plo fn_name = err (
    invalid_argument_of (
      lit fn_name
      ∷ lit
          ": only Hold'em starting hands are ranked in xiapl 0.1 (PLO percentile selection needs a versioned ranking table, deferred to 0.2); pass game=GameType::Holdem or build the range with Range::from_string(text, GameType::Plo)"
      ∷ []))

module _ {ℓ} {W : Type ℓ} ⦃w : Weights W⦄ ⦃p : Percents W⦄ where
  validate_top_percent : W → String → Result (Unit {0})
  validate_top_percent top_percent fn_name =
      throw_if (not (w.lt w.nought top_percent && not (w.lt w.unit top_percent))) (
        invalid_argument_of (
          lit fn_name
          ∷ lit ": top_percent must be in (0.0, 1.0], got "
          ∷ bytes (p.text top_percent)
          ∷ []))

  module _ (table : List Text) (parse_plo_range : Text → Result (List (Combo W))) where
    unfoldable pub rank_starting_hands : W → GameType → Result (List Text)
    unfolding require_holdem_ranking validate_top_percent
    rank_starting_hands top_percent game = do
      require_holdem_ranking game "rank_starting_hands"
      validate_top_percent top_percent "rank_starting_hands"
      ok (take (p.portion (length table) top_percent) table)

    -- the loop over the labels
    unfoldable pub label_combos : List Text → GameType → Result (List (Combo W))
    label_combos [] game = ok []
    label_combos (label ∷ labels) game = do
      label_range ← range_from_string parse_plo_range label game
      rest ← label_combos labels game
      ok (label_range.combos ++ rest)

    unfoldable pub generate_top_percent_range : W → GameType → Result (Range W)
    unfolding require_holdem_ranking validate_top_percent
    generate_top_percent_range top_percent game = do
      require_holdem_ranking game "generate_top_percent_range"
      validate_top_percent top_percent "generate_top_percent_range"
      labels ← rank_starting_hands top_percent game
      combos ← label_combos labels game
      make_range (sort_combos combos) game
