-- ===== src/Weights.antt =====
-- What the program does with a `double` weight: the constants 0.0 and 1.0, comparison, difference and
-- sum, std::isfinite, and reading one from a text by a stream in the classic locale. The type and
-- its operations are a parameter.
use xia_pl.Base.{ℕ, Bool, if◌then◌else◌, Option, List}

pub record Weights {ℓ} (W : Type ℓ) : Type ℓ where
  pub nought : W
  pub unit : W
  pub lt : W → W → Bool
  pub minus : W → W → W
  pub plus : W → W → W
  pub is_finite : W → Bool
  pub read : List ℕ → Option W

module _ {ℓ} {W : Type ℓ} ⦃w : Weights W⦄ where
  -- std::max and std::min
  unfoldable pub weight_max : W → W → W
  weight_max a b = if w.lt a b then b else a

  unfoldable pub weight_min : W → W → W
  weight_min a b = if w.lt b a then b else a

  abbrev pub is_positive : W → Bool
  is_positive a = w.lt w.nought a
