-- ===== src/Mask.antt =====
-- The mask functions of include/xiapl/utils.h and src/core/utils.cpp. A mask is a `uint64_t`; a
-- shift count is a checked id below 52, so that `1ULL << id` is 2 ^ id.
pub mod Laws
use xia_pl.Base.{
  ℕ, zero, suc, ◌+◌, ◌-◌, ◌^◌, bit_and, bit_or, Bool, not, ◌||◌, ◌==◌, ◌!=◌, leb, ltb,
  if◌then◌else◌, Option, none, some, List, [], ◌∷◌, length, get_or, set,
}
use xia_pl.Base.Int.{ℤ, pos, pos_part, ltb_ℤ}
use xia_pl.Base.Errors.{Result, ok, err, invalid_argument, throw_if, ◌>>◌}
use xia_pl.Base.Words.{popcount, countr_zero, countl_zero}
use xia_pl.Card.{Card, from_id}

abbrev pub full_deck_mask : ℕ
full_deck_mask = 2 ^ 52 - 1

unfoldable pub is_valid_card_id : ℕ → Bool
is_valid_card_id id = ltb id 52

unfoldable pub popcount64 : ℕ → ℕ
popcount64 x = popcount 64 x

unfoldable pub ctz64 : ℕ → ℕ
ctz64 x = countr_zero 64 x

unfoldable pub clz64 : ℕ → ℕ
clz64 x = countl_zero 64 x

unfoldable pub clz32 : ℕ → ℕ
clz32 x = countl_zero 32 x

pub card_to_mask : Card → Result ℕ
unfolding is_valid_card_id
card_to_mask c =
    throw_if (not (is_valid_card_id c.id)) (invalid_argument "card_to_mask: invalid Card id")
    >> ok (2 ^ c.id)

-- the loop of `cards_to_mask`
or_cards : ℕ → List Card → Result ℕ
unfolding is_valid_card_id
or_cards mask [] = ok mask
or_cards mask (c ∷ cs) =
    throw_if (not (is_valid_card_id c.id)) (invalid_argument "cards_to_mask: invalid Card id")
    >> or_cards (bit_or mask (2 ^ c.id)) cs

unfoldable pub cards_to_mask : List Card → Result ℕ
unfolding or_cards
cards_to_mask cards = or_cards 0 cards

-- the loop of `mask_to_cards` at `id`, with `left` rounds to go
pick_cards : ℕ → ℕ → ℕ → List Card
pick_cards zero id mask = []
pick_cards (suc left) id mask =
    let rest = pick_cards left (id + 1) mask in
    if bit_and mask (2 ^ id) != 0 then from_id id ∷ rest else rest

pub mask_to_cards : ℕ → List Card
mask_to_cards mask = pick_cards 52 0 mask

-- the loop of `mask_to_ids`
pick_ids : ℕ → ℕ → ℕ → List ℕ
pick_ids zero id mask = []
pick_ids (suc left) id mask =
    let rest = pick_ids left (id + 1) mask in if bit_and mask (2 ^ id) != 0 then id ∷ rest else rest

pub mask_to_ids : ℕ → List ℕ
mask_to_ids mask = pick_ids 52 0 mask

-- the loop of `ids_to_mask`; an `int` may be negative
or_ids : ℕ → List ℤ → Result ℕ
or_ids mask [] = ok mask
or_ids mask (id ∷ ids) =
    throw_if (ltb_ℤ id (pos 0) || not (ltb_ℤ id (pos 52)))
      (invalid_argument "ids_to_mask: id out of range ([0, 52))")
    >> or_ids (bit_or mask (2 ^ pos_part id)) ids

pub ids_to_mask : List ℤ → Result ℕ
ids_to_mask ids = or_ids 0 ids

unfoldable pub masks_overlap : ℕ → ℕ → Bool
masks_overlap a b = bit_and a b != 0

-- the loop over `j`, with `left` rounds to go
unfoldable pub restart : ℕ → ℕ → List ℕ → List ℕ
restart zero j indices = indices
restart (suc left) j indices = restart left (j + 1) (set indices j (get_or indices (j - 1) 0 + 1))

-- The loop over `i`, from `left - 1` down to 0; `k` is added on both sides of the test, so that the
-- difference cannot go below 0. `none` is the `false` of the source, which leaves the vector as it
-- is.
unfoldable pub advance : ℕ → List ℕ → ℕ → Option (List ℕ)
advance zero indices n_total = none
advance (suc i) indices n_total =
    let k = length indices in
    let rest = advance i indices n_total in
    if ltb (get_or indices i 0 + k) (n_total + i)
    then some (restart (k - (i + 1)) (i + 1) (set indices i (get_or indices i 0 + 1)))
    else rest

unfoldable pub next_combination : List ℕ → ℕ → Option (List ℕ)
next_combination indices n_total = advance (length indices) indices n_total
