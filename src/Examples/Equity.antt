-- ===== src/Examples/Equity.antt =====
-- The equity of two hands on a river board.
use xia_pl.Base.{
  ℕ, zero, suc, List, ◌+◌, ◌-◌, ◌*◌, ◌/◌, ◌^◌, ◌≡◌, refl, true, false, ltb, Option, none, [], ◌∷◌,
}
use xia_pl.Base.Int.{pos}
use xia_pl.Base.Errors.{Result, ok}
use xia_pl.Base.Words.{popcount, pop_bits}
use xia_pl.Mask.{popcount64}
use xia_pl.Judge.{holdem}
use xia_pl.BoardSample.{
  build_used_mask, add_holes, validate_equity_input, board_run_is_exact, board_space_count,
  deck_indices_of,
}
use xia_pl.Weights.{Weights}
use xia_pl.Equity.{Shares}
use xia_pl.Equity.Stats.{Stats, HuStats, SimulationOptions, EquityResult, deck_without, runs_exact}
use xia_pl.Equity.Runs.{
  CalculateEquity, SimulateHeadsUp, SimulateMultiway, enumerated, simulated, heads_up, computed,
}
use xia_pl.Equity.HeadsUp.{SameReport, SimulateHeadsUp-SimulateMultiway}

-- Whole numbers stand for doubles.
instance abbrev pub counts : Weights ℕ
counts = record {
  nought = 0;
  unit = 1;
  lt = ltb;
  minus = ◌-◌;
  plus = ◌+◌;
  is_finite = λ _. true;
  read = λ _. none;
}

instance abbrev pub whole_shares : Shares ℕ
whole_shares = record {
  divide = λ a b. a / b;
  times = ◌*◌;
  of_count = λ n. n;
  sqrt = λ a. a;
  quarter = 0;
}

abbrev pub aces : ℕ
aces = 2 ^ 12 + 2 ^ 25

abbrev pub kings : ℕ
kings = 2 ^ 11 + 2 ^ 24

abbrev pub river : ℕ
river = 2 ^ 0 + 2 ^ 15 + 2 ^ 30 + 2 ^ 46 + 2 ^ 35

abbrev all_cards : ℕ
all_cards = aces + kings + river

abbrev options : SimulationOptions
options = record { iterations = pos 0; seed = 1; deterministic = true; threads = pos 1 }

abbrev one_thread :
    (r : Result (Option (EquityResult ℕ))) × CalculateEquity 8
      (aces ∷ kings ∷ [])
      river
      options
      holdem
      5
      8
      r
unfolding validate_equity_input build_used_mask add_holes popcount64 popcount board_run_is_exact
    deck_indices_of pop_bits
one_thread = (_, computed _ refl (heads_up all_cards _ refl refl refl (enumerated refl refl)))

abbrev two_handed :
    (r : Result (Option (HuStats ℕ))) × SimulateHeadsUp 8 aces kings 0 river
      (deck_without all_cards)
      0
      8
      (pos 1)
      r
unfolding popcount64 popcount board_run_is_exact deck_indices_of pop_bits
two_handed = (_, enumerated refl refl)

abbrev multi_handed :
    (r : Result (Option (Stats ℕ))) × SimulateMultiway 8
      (aces ∷ kings ∷ [])
      0
      river
      false
      0
      8
      (pos 4)
      r
unfolding build_used_mask add_holes popcount64 popcount board_run_is_exact deck_indices_of pop_bits
multi_handed = (_, simulated all_cards true _ refl refl refl (enumerated refl refl))

SimulateHeadsUp-SimulateMultiway_example : SameReport two_handed.0 multi_handed.0
unfolding build_used_mask add_holes popcount64 popcount
SimulateHeadsUp-SimulateMultiway_example =
    SimulateHeadsUp-SimulateMultiway 8 aces kings 0 river all_cards 0 8 8 (pos 1) (pos 4)
      two_handed.0 multi_handed.0 refl refl refl two_handed.1 multi_handed.1

-- PLO hands of four cards each, the cards in order, for `left` players
abbrev plo_hands : ℕ → ℕ → List ℕ
plo_hands zero i = []
plo_hands (suc left) i = 15 * 2 ^ (4 * i) ∷ plo_hands left (i + 1)

-- Twelve PLO hands are accepted before the flop and leave four cards for a board of five, which counts as an
-- exact run of no boards.
twelve_accepted : validate_equity_input (plo_hands 12 0) 0 true "calculate_equity" ≡ ok (2 ^ 48 - 1)
unfolding validate_equity_input build_used_mask add_holes popcount64 popcount
twelve_accepted = refl

twelve_exact : runs_exact (deck_without (2 ^ 48 - 1)) 5 1000 ≡ true
unfolding board_run_is_exact board_space_count deck_indices_of pop_bits
twelve_exact = refl
