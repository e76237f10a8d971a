-- ===== src/Range/SetOps.antt =====
-- src/core/range_setops.cpp: union, intersection and difference of ranges. std::sort is an insertion
-- sort; on combos of different masks every sort gives the same list, and on others the callers throw.
pub mod Laws
pub mod Total
use xia_pl.Base.{
  ℕ, zero, suc, ◌+◌, Bool, not, ◌&&◌, ◌==◌, ◌!=◌, ltb, if◌then◌else◌, List, [], ◌∷◌, ◌++◌, String,
}
use xia_pl.Base.Errors.{Result, ok, err, invalid_argument_of, Piece, lit, throw_if, ◌>>=◌, ◌>>◌}
use xia_pl.Judge.{GameType, plo, holdem}
use xia_pl.Weights.{Weights, weight_max, weight_min, is_positive}
use xia_pl.Range.{Combo, Range, describe_mask, make_range}

unfoldable pub game_name : GameType → String
game_name plo = "PLO"
game_name holdem = "Hold'em"

unfoldable pub same_game : GameType → GameType → Bool
same_game plo plo = Bool.true
same_game plo holdem = Bool.false
same_game holdem plo = Bool.false
same_game holdem holdem = Bool.true

module _ {ℓ} {W : Type ℓ} where
  require_same_game : Range W → Range W → String → Result (Unit {0})
  unfolding same_game
  require_same_game a b fn_name = throw_if (not (same_game a.game b.game)) (
      invalid_argument_of (
        lit fn_name
        ∷ lit ": left range is "
        ∷ lit (game_name a.game)
        ∷ lit " but right range is "
        ∷ lit (game_name b.game)
        ∷ lit "; both ranges must be the same game"
        ∷ []))

  unfoldable pub insert_combo : Combo W → List (Combo W) → List (Combo W)
  insert_combo c [] = c ∷ []
  insert_combo c (d ∷ ds) = if ltb d.mask c.mask then d ∷ insert_combo c ds else c ∷ d ∷ ds

  unfoldable pub sort_combos : List (Combo W) → List (Combo W)
  unfolding insert_combo
  sort_combos [] = []
  sort_combos (c ∷ cs) = insert_combo c (sort_combos cs)

  -- the loop over neighbours
  unfoldable pub check_duplicates : List (Combo W) → String → Result (Unit {0})
  check_duplicates [] fn_name = ok tt
  check_duplicates (c ∷ []) fn_name = ok tt
  check_duplicates (c ∷ d ∷ ds) fn_name = do
    throw_if (c.mask == d.mask) (
        invalid_argument_of
          (lit fn_name ∷ lit ": duplicate combo " ∷ describe_mask d.mask ++ lit " in operand" ∷ []))
    check_duplicates (d ∷ ds) fn_name

  unfoldable pub sort_and_check_duplicates : List (Combo W) → String → Result (List (Combo W))
  unfolding sort_combos check_duplicates
  sort_and_check_duplicates combos fn_name =
      let sorted = sort_combos combos in check_duplicates sorted fn_name >> ok sorted

module _ {ℓ} {W : Type ℓ} ⦃w : Weights W⦄ where
  -- `if (weight > 0.0) result.push_back(...)`, in front of what comes later
  unfoldable pub push : ℕ → W → List (Combo W) → List (Combo W)
  push mask weight rest =
      if is_positive weight then record { mask = mask; weight = weight } ∷ rest else rest

  -- the loops that copy what is left
  unfoldable pub push_all : List (Combo W) → List (Combo W)
  unfolding push
  push_all [] = []
  push_all (x ∷ xs) = push x.mask x.weight (push_all xs)

  unfoldable pub merge_union : List (Combo W) → List (Combo W) → List (Combo W)
  unfolding push_all push weight_max
  merge_union [] ys = push_all ys
  merge_union (x ∷ xs) [] = push_all (x ∷ xs)
  merge_union (x ∷ xs) (y ∷ ys) =
      let left = push x.mask x.weight (merge_union xs (y ∷ ys)) in
      let right = push y.mask y.weight (merge_union (x ∷ xs) ys) in
      let both = push x.mask (weight_max x.weight y.weight) (merge_union xs ys) in
      if ltb x.mask y.mask then left else if ltb y.mask x.mask then right else both

  unfoldable pub merge_intersection : List (Combo W) → List (Combo W) → List (Combo W)
  unfolding push weight_min
  merge_intersection [] ys = []
  merge_intersection (x ∷ xs) [] = []
  merge_intersection (x ∷ xs) (y ∷ ys) =
      let left = merge_intersection xs (y ∷ ys) in
      let right = merge_intersection (x ∷ xs) ys in
      let both = push x.mask (weight_min x.weight y.weight) (merge_intersection xs ys) in
      if ltb x.mask y.mask then left else if ltb y.mask x.mask then right else both

  unfoldable pub merge_difference : List (Combo W) → List (Combo W) → List (Combo W)
  unfolding push_all push weight_max
  merge_difference [] ys = []
  merge_difference (x ∷ xs) [] = push_all (x ∷ xs)
  merge_difference (x ∷ xs) (y ∷ ys) =
      let left = push x.mask x.weight (merge_difference xs (y ∷ ys)) in
      let right = merge_difference (x ∷ xs) ys in
      let difference = weight_max w.nought (w.minus x.weight y.weight) in
      let both = push x.mask difference (merge_difference xs ys) in
      if ltb x.mask y.mask then left else if ltb y.mask x.mask then right else both

  -- The three operations share their checks.
  combine :
      (List (Combo W) → List (Combo W) → List (Combo W))
      → String
      → Range W
      → Range W
      → Result (Range W)
  unfolding require_same_game sort_and_check_duplicates make_range
  combine merge fn_name a b = do
    require_same_game a b fn_name
    left ← sort_and_check_duplicates a.combos fn_name
    right ← sort_and_check_duplicates b.combos fn_name
    make_range (merge left right) a.game

  unfoldable pub range_union : Range W → Range W → Result (Range W)
  unfolding combine
  range_union a b = combine merge_union "range_union" a b

  unfoldable pub range_intersection : Range W → Range W → Result (Range W)
  unfolding combine
  range_intersection a b = combine merge_intersection "range_intersection" a b

  unfoldable pub range_difference : Range W → Range W → Result (Range W)
  unfolding combine
  range_difference a b = combine merge_difference "range_difference" a b
