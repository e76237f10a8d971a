-- ===== src/Equity/Stats.antt =====
-- What the equity calls of src/core/equity_hands.cpp make of their counters, and what they return.
use xia_pl.Base.{
  ℕ, ◌+◌, ◌-◌, ◌^◌, bit_and, Bool, not, ◌&&◌, ◌==◌, ltb, if◌then◌else◌, Option, none, some, List,
  [], ◌∷◌, map, length, get_or, replicate,
}
use xia_pl.Base.Int.{ℤ, pos}
use xia_pl.Base.Errors.{Result, ok, err}
use xia_pl.Mask.{full_deck_mask, popcount64}
use xia_pl.BoardSample.{deck_indices_of, board_space_count, board_run_is_exact}
use xia_pl.Weights.{Weights, weight_max}
use xia_pl.Equity.{Shares}
use xia_pl.Equity.Trials.{Counters, HuCounters}

pub record Stats (W : Type 0) : Type 0 where
  pub winrates : List W
  pub equities : List W
  pub std_errors : List W
  pub chop_rate : W
  pub trials : ℕ
  pub exact : Bool

pub record HuStats (W : Type 0) : Type 0 where
  pub hero_winrate : W
  pub chop_rate : W
  pub trials : ℕ
  pub exact : Bool

-- A row of compute_player_equities.
pub record PlayerRow (W : Type 0) : Type 0 where
  pub hole_mask : ℕ
  pub villains : List ℕ
  pub winrate : W
  pub equity : W
  pub std_error : W

pub record PlayerEquities (W : Type 0) : Type 0 where
  pub rows : List (PlayerRow W)
  pub chop_rate : W
  pub trials : ℕ
  pub exact : Bool

pub record SimulationOptions : Type 0 where
  pub iterations : ℤ
  pub seed : ℕ
  pub deterministic : Bool
  pub threads : ℤ

pub record PlayerEquity (W : Type 0) : Type 0 where
  pub winrate : W
  pub equity : W
  pub std_error : W

pub record EquityResult (W : Type 0) : Type 0 where
  pub players : List (PlayerEquity W)
  pub chop_rate : W
  pub trials : ℕ
  pub exact : Bool

abbrev pub map_option {ℓ κ} : {A : Type ℓ} {B : Type κ} → (A → B) → Option A → Option B
map_option f none = none
map_option f (some a) = some (f a)

-- An exception of the reduction passes on like one of a chunk.
abbrev pub join {ℓ} : {A : Type ℓ} → Result (Result A) → Result A
join (err e) = err e
join (ok r) = r

abbrev pub strip : List ℕ → List ℕ
strip holes = map (λ h. bit_and h full_deck_mask) holes

abbrev pub deck_without : ℕ → List ℕ
deck_without used_mask = deck_indices_of (bit_and full_deck_mask (2 ^ 64 - 1 - used_mask))

-- `players_hole_masks` without the entry at i, from index j on
unfoldable pub others : ℕ → ℕ → List ℕ → List ℕ
others i j [] = []
others i j (h ∷ hs) =
    let rest = others i (j + 1) hs in if i == j then rest else bit_and h full_deck_mask ∷ rest

module _ {W : Type 0} ⦃w : Weights W⦄ ⦃s : Shares W⦄ where
  -- `sqrt(var / trials)`, where `var` is kept from falling below 0
  unfoldable pub std_error_of : W → W → ℕ → W
  std_error_of mean mean_sq trials =
      let var = w.minus mean_sq (s.times mean mean) in
      s.sqrt (s.divide (if w.lt var w.nought then w.nought else var) (s.of_count trials))

  -- the loop over the players
  unfoldable pub errors_of : List W → List W → ℕ → List W
  unfolding std_error_of
  errors_of [] sums trials = []
  errors_of (x ∷ xs) [] trials = []
  errors_of (x ∷ xs) (q ∷ qs) trials =
      std_error_of (s.divide x (s.of_count trials)) (s.divide q (s.of_count trials)) trials
      ∷ errors_of xs qs trials

  abbrev pub zeros : ℕ → List W
  zeros n = replicate n w.nought

  -- what simulate_multiway makes of its totals
  unfoldable pub stats_of : ℕ → Bool → Counters W → Stats W
  unfolding errors_of
  stats_of n exact c =
      let over = λ (x : W). s.divide x (s.of_count c.trials) in
      let some_trials = ltb 0 c.trials in
      record {
        winrates = if some_trials then map (λ k. over (s.of_count k)) c.win_counts else zeros n;
        equities = if some_trials then map over c.equity_sum else zeros n;
        std_errors =
            if some_trials && not exact
            then errors_of c.equity_sum c.equity_sum_sq c.trials
            else zeros n;
        chop_rate = if some_trials then over (s.of_count c.chop_count) else w.nought;
        trials = c.trials;
        exact = exact;
      }

  unfoldable pub hu_stats_of : Bool → HuCounters → HuStats W
  hu_stats_of exact c =
      let over = λ (x : W). s.divide x (s.of_count c.trials) in
      let some_trials = ltb 0 c.trials in
      record {
        hero_winrate = if some_trials then over (s.of_count c.hero_wins) else w.nought;
        chop_rate = if some_trials then over (s.of_count c.chops) else w.nought;
        trials = c.trials;
        exact = exact;
      }

abbrev pub expected_hole : Bool → ℕ
expected_hole use_plo = if use_plo then 4 else 2

abbrev pub board_count : ℕ → ℕ
board_count fixed = popcount64 (bit_and fixed full_deck_mask)

module _ (deck : List ℕ) (draws iterations : ℕ) where
  abbrev pub runs_exact : Bool
  runs_exact = board_run_is_exact iterations (board_space_count (length deck) (pos draws))

-- The rows of compute_player_equities.
module _ {W : Type 0} ⦃w : Weights W⦄ ⦃s : Shares W⦄ where
  unfoldable pub heads_up_equities : ℕ → ℕ → HuStats W → PlayerEquities W
  heads_up_equities hero_mask vill_mask hu =
      let hero_equity = w.plus hu.hero_winrate (s.divide hu.chop_rate (s.of_count 2)) in
      let vill_winrate = w.minus (w.minus w.unit hu.hero_winrate) hu.chop_rate in
      let mean_sq = w.plus hu.hero_winrate (s.times s.quarter hu.chop_rate) in
      let std_error =
        if not hu.exact && ltb 0 hu.trials
        then std_error_of hero_equity mean_sq hu.trials
        else w.nought in
      record {
        rows =
            record {
              hole_mask = hero_mask;
              villains = vill_mask ∷ [];
              winrate = hu.hero_winrate;
              equity = hero_equity;
              std_error = std_error;
            }
            ∷ record {
              hole_mask = vill_mask;
              villains = hero_mask ∷ [];
              winrate =
                  if w.lt vill_winrate w.nought
                  then weight_max w.nought vill_winrate
                  else vill_winrate;
              equity = w.minus w.unit hero_equity;
              std_error = std_error;
            }
            ∷ [];
        chop_rate = hu.chop_rate;
        trials = hu.trials;
        exact = hu.exact;
      }

  -- the loop over the players, from player i on
  unfoldable pub rows_of : List ℕ → ℕ → List ℕ → Stats W → List (PlayerRow W)
  unfolding others
  rows_of holes i [] st = []
  rows_of holes i (h ∷ hs) st =
      record {
        hole_mask = bit_and h full_deck_mask;
        villains = others i 0 holes;
        winrate = get_or st.winrates i w.nought;
        equity = get_or st.equities i w.nought;
        std_error = get_or st.std_errors i w.nought;
      }
      ∷ rows_of holes (i + 1) hs st

  unfoldable pub multiway_equities : List ℕ → Stats W → PlayerEquities W
  unfolding rows_of
  multiway_equities holes st = record {
    rows = rows_of holes 0 holes st;
    chop_rate = st.chop_rate;
    trials = st.trials;
    exact = st.exact;
  }

  -- what calculate_equity takes over
  unfoldable pub equity_result : PlayerEquities W → EquityResult W
  equity_result pe = record {
    players =
        map (λ r. record { winrate = r.winrate; equity = r.equity; std_error = r.std_error })
          pe.rows;
    chop_rate = pe.chop_rate;
    trials = pe.trials;
    exact = pe.exact;
  }

-- `!use_plo && num_players == 2`
abbrev pub is_heads_up : Bool → List ℕ → Bool
is_heads_up use_plo holes = not use_plo && length holes == 2
