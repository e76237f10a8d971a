-- ===== src/Equity.antt =====
-- src/core/equity_hands.cpp: the equity of fixed hands. Trials has the counters and the trials of both
-- simulators, Stats what is made of them,
-- Runs the simulators and calculate_equity.
pub mod Trials
pub mod Stats
pub mod Room
pub mod Runs
pub mod Serial
pub mod Agreement
pub mod HeadsUp
pub mod Totals
pub mod Errors
pub mod Tally
use xia_pl.Base.{ℕ}

-- What the simulators do with a `double` beyond Weights: quotient, product, the conversion from a
-- count, std::sqrt and the constant 0.25.
pub record Shares {ℓ} (W : Type ℓ) : Type ℓ where
  pub divide : W → W → W
  pub times : W → W → W
  pub of_count : ℕ → W
  pub sqrt : W → W
  pub quarter : W
