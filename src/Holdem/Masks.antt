-- ===== src/Holdem/Masks.antt =====
-- expand_notation_to_masks and expand_range_token_to_masks of src/core/range_holdem.cpp.
use xia_pl.Base.{
  ℕ, ◌+◌, ◌-◌, ◌*◌, ◌^◌, bit_or, Bool, true, false, ◌&&◌, ◌||◌, ◌==◌, ◌!=◌, ltb, if◌then◌else◌,
  List, [], ◌∷◌, ◌++◌, length, get_or, up_from,
}
use xia_pl.Base.Errors.{Result, ok, invalid_argument, throw_if, ◌>>=◌, ◌>>◌}
use xia_pl.Text.{Text}
use xia_pl.Holdem.{char_to_rank, expand_range_token_to_notations}

abbrev num_suits : ℕ
num_suits = 4

-- the lambda `card_id`
abbrev card_id : ℕ → ℕ → ℕ
card_id rank suit = suit * 13 + (rank - 2)

abbrev two_cards : ℕ → ℕ → ℕ → ℕ → ℕ
two_cards rank1 suit1 rank2 suit2 = bit_or (2 ^ card_id rank1 suit1) (2 ^ card_id rank2 suit2)

-- the loops over `s2` and over `s1` for a pair
pair_with : ℕ → ℕ → List ℕ → List ℕ
pair_with rank s1 [] = []
pair_with rank s1 (s2 ∷ suits) = two_cards rank s1 rank s2 ∷ pair_with rank s1 suits

unfoldable pub pair_masks : ℕ → List ℕ → List ℕ
unfolding pair_with
pair_masks rank [] = []
pair_masks rank (s1 ∷ suits) = pair_with rank s1 suits ++ pair_masks rank suits

unfoldable pub suited_masks : ℕ → ℕ → List ℕ → List ℕ
suited_masks hi lo [] = []
suited_masks hi lo (s ∷ suits) = two_cards hi s lo s ∷ suited_masks hi lo suits

-- the loops over `s2` and over `s1` for an offsuit hand
offsuit_with : ℕ → ℕ → ℕ → List ℕ → List ℕ
offsuit_with hi lo s1 [] = []
offsuit_with hi lo s1 (s2 ∷ suits) =
    let rest = offsuit_with hi lo s1 suits in
    if s1 == s2 then rest else two_cards hi s1 lo s2 ∷ rest

unfoldable pub offsuit_masks : ℕ → ℕ → List ℕ → List ℕ
unfolding offsuit_with up_from
offsuit_masks hi lo [] = []
offsuit_masks hi lo (s1 ∷ suits) =
    offsuit_with hi lo s1 (up_from num_suits 0) ++ offsuit_masks hi lo suits

-- the checks of the suffix
notation_type : Text → Bool → Result ℕ
notation_type notation true = ok 0
notation_type notation false =
    let t = get_or notation 2 0 in
    do
      throw_if (ltb (length notation) 3)
          (invalid_argument "non-pair starting hand notation must end with 's' or 'o'")
      throw_if (t != b's' && t != b'S' && t != b'o' && t != b'O')
          (invalid_argument "non-pair starting hand must end with 's' or 'o'")
      ok t

unfoldable pub expand_notation_to_masks : Text → Result (List ℕ)
unfolding notation_type pair_masks suited_masks offsuit_masks up_from
expand_notation_to_masks notation = do
  throw_if (ltb (length notation) 2) (invalid_argument "notation too short for starting hand")
  r1 ← char_to_rank (get_or notation 0 0)
  r2 ← char_to_rank (get_or notation 1 0)
  let hi = if ltb r1 r2 then r2 else r1
  let lo = if ltb r1 r2 then r1 else r2
  type ← notation_type notation (hi == lo)
  let suits = up_from num_suits 0
  ok (
      if hi == lo
      then pair_masks hi suits
      else if type == b's' || type == b'S'
      then suited_masks hi lo suits
      else offsuit_masks hi lo suits)

-- std::set<std::uint64_t>: an ascending list
unfoldable pub set_insert : ℕ → List ℕ → List ℕ
set_insert m [] = m ∷ []
set_insert m (x ∷ xs) =
    if ltb m x then m ∷ x ∷ xs else if m == x then x ∷ xs else x ∷ set_insert m xs

unfoldable pub set_insert_all : List ℕ → List ℕ → List ℕ
unfolding set_insert
set_insert_all [] set = set
set_insert_all (m ∷ ms) set = set_insert_all ms (set_insert m set)

-- the loop over the notations
masks_of : List Text → List ℕ → Result (List ℕ)
unfolding set_insert_all
masks_of [] set = ok set
masks_of (n ∷ ns) set = do
  masks ← expand_notation_to_masks n
  masks_of ns (set_insert_all masks set)

unfoldable pub expand_range_token_to_masks : Text → Result (List ℕ)
unfolding masks_of
expand_range_token_to_masks token = do
  notations ← expand_range_token_to_notations token
  masks_of notations []
