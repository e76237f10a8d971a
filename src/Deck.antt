-- ===== src/Deck.antt =====
-- include/xiapl/deck.h and src/core/deck.cpp. std::shuffle is an argument. The deck is the vector of its
-- ids, the last of which is dealt first.
pub mod Dealing
pub mod Invariant
pub mod SetCards
use xia_pl.Base.{
  ℕ, zero, suc, ◌+◌, ◌^◌, bit_and, bit_or, Bool, not, ◌==◌, ◌!=◌, leb, ltb, if◌then◌else◌, Option,
  none, some, List, [], ◌∷◌, ◌++◌, map, length,
}
use xia_pl.Base.Int.{ℤ, pos, pos_part, ltb_ℤ}
use xia_pl.Base.Errors.{Result, ok, err, invalid_argument, throw_if, ◌>>=◌, ◌>>◌}
use xia_pl.Card.{Card, from_id, invalid_card, to_string}
use xia_pl.Mask.{is_valid_card_id}
use xia_pl.Rng.{FastRng, seed}

pub record Deck : Type 0 where
  pub card_ids : List ℕ

-- `back` and `pop_back` of a vector; `none` for the empty one
unfoldable pub pop_back : List ℕ → Option (ℕ × List ℕ)
pop_back [] = none
pop_back (x ∷ xs) = elim (pop_back xs) [ none ↦ some (x, []) | some (y, ys) ↦ some (y, x ∷ ys) ]

-- the loop that deals, with `left` rounds to go
unfoldable pub deal_loop : ℕ → List ℕ → List ℕ × List ℕ
deal_loop zero ids = ([], ids)
deal_loop (suc left) ids = elim (pop_back ids) [
  | none ↦ ([], ids)
  | some (id, rest) ↦ (id ∷ (deal_loop left rest).0, (deal_loop left rest).1)
]

unfoldable pub deal_ids : Deck → ℤ → List ℕ × Deck
deal_ids d n =
    let (dealt, rest) = deal_loop (pos_part n) d.card_ids in (dealt, record { card_ids = rest })

unfoldable pub deal : Deck → ℤ → List Card × Deck
deal d n =
    let (dealt, rest) = deal_loop (pos_part n) d.card_ids in
    (map from_id dealt, record { card_ids = rest })

-- the loop of `reset` at `id`
unfoldable pub ids_from : ℕ → ℕ → List ℕ
ids_from zero id = []
ids_from (suc left) id = id ∷ ids_from left (id + 1)

-- reset(false), which is also Deck()
unfoldable pub reset : Deck
unfolding ids_from
reset = record { card_ids = ids_from 52 0 }

-- shuffle(), with the generator that std::random_device seeds, and reset(true)
module _ {ℓ} {G : Type ℓ} (std_shuffle : G → List ℕ → List ℕ) where
  unfoldable pub shuffle_by : G → Deck → Deck
  shuffle_by rng d = record { card_ids = std_shuffle rng d.card_ids }

  unfoldable pub reset_shuffled : G → Deck
  reset_shuffled rng = shuffle_by rng reset

-- shuffle(seed)
unfoldable pub shuffle : (FastRng → List ℕ → List ℕ) → Deck → ℕ → Deck
shuffle std_shuffle d seed_value = shuffle_by std_shuffle (seed seed_value) d

-- `find` and `erase`
unfoldable pub erase_first : ℕ → List ℕ → List ℕ
erase_first id [] = []
erase_first id (x ∷ xs) = if x == id then xs else x ∷ erase_first id xs

unfoldable pub remove_loop : List Card → List ℕ → List ℕ
remove_loop [] ids = ids
remove_loop (c ∷ cs) ids = remove_loop cs (erase_first c.id ids)

unfoldable pub remove_cards : Deck → List Card → Deck
unfolding remove_loop
remove_cards d to_remove = record { card_ids = remove_loop to_remove d.card_ids }

unfoldable pub size : Deck → ℕ
size d = length d.card_ids

pub get_cards : Deck → List Card
get_cards d = map from_id d.card_ids

-- the validating loop of `set_cards`
unfoldable pub check_cards : ℕ → List Card → Result (Unit {0})
check_cards seen [] = ok tt
check_cards seen (c ∷ cs) = do
  throw_if (not (is_valid_card_id c.id)) (invalid_argument "Deck::set_cards: invalid Card id")
  throw_if (bit_and seen (2 ^ c.id) != 0) (invalid_argument "Deck::set_cards: duplicate card")
  check_cards (bit_or seen (2 ^ c.id)) cs

unfoldable pub set_cards : Deck → List Card → Result Deck
set_cards d new_cards =
    check_cards 0 new_cards >> ok (record { card_ids = map (λ c. c.id) new_cards })

-- Deck(cards)
unfoldable pub deck_of_cards : List Card → Result Deck
unfolding set_cards
deck_of_cards cards = set_cards (record { card_ids = [] }) cards

pub empty : Deck → Bool
empty d = length d.card_ids == 0

pub has_cards : Deck → ℤ → Bool
has_cards d n = not (ltb_ℤ (pos (length d.card_ids)) n)

unfoldable pub deal_one : Deck → Card × Deck
deal_one d = elim (pop_back d.card_ids) [
  | none ↦ (invalid_card, d)
  | some (id, rest) ↦ (from_id id, record { card_ids = rest })
]

unfoldable pub burn : Deck → ℤ → Deck
unfolding deal
burn d n = (deal d n).1

-- `none` is the -1 of the source.
unfoldable pub deal_one_id : Deck → Option ℕ × Deck
deal_one_id d = elim (pop_back d.card_ids) [
  | none ↦ (none, d)
  | some (id, rest) ↦ (some id, record { card_ids = rest })
]

-- the loop of `deal_mask`
unfoldable pub mask_loop : ℕ → ℕ → List ℕ → ℕ × List ℕ
mask_loop zero mask ids = (mask, ids)
mask_loop (suc left) mask ids = elim (pop_back ids) [
  | none ↦ (mask, ids)
  | some (id, rest) ↦ mask_loop left (bit_or mask (2 ^ id)) rest
]

unfoldable pub deal_mask : Deck → ℤ → ℕ × Deck
deal_mask d n =
    let (mask, rest) = mask_loop (pos_part n) 0 d.card_ids in (mask, record { card_ids = rest })

repr_of : List ℕ → List ℕ
repr_of [] = []
repr_of (id ∷ ids) = to_string (from_id id) ++ repr_of ids

pub repr : Deck → List ℕ
repr d = repr_of d.card_ids
