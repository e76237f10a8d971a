-- ===== src/PloPattern.antt =====
-- src/core/plo_pattern.h: the rank patterns of PLO hands. The asserts are the contract of the callers.
pub mod Laws
use xia_pl.Base.{
  ℕ, zero, suc, ◌+◌, ◌-◌, ◌/◌, ◌%◌, ◌^◌, bit_or, Bool, true, false, ◌&&◌, ◌==◌, leb, ltb,
  if◌then◌else◌, List, [], ◌∷◌, get_or, set, replicate, up_from, flat_map,
}
use xia_pl.Base.Words.{pop_bits}

pub data SuitQualifier : Type 0 where
  any double_suited single_suited rainbow : SuitQualifier

pub record PloPattern : Type 0 where
  pub ranks : List ℕ
  pub suit : SuitQualifier

-- std::sort with std::greater, on numbers
unfoldable pub insert_down : ℕ → List ℕ → List ℕ
insert_down x [] = x ∷ []
insert_down x (y ∷ ys) = if ltb x y then y ∷ insert_down x ys else x ∷ y ∷ ys

unfoldable pub sort_down : List ℕ → List ℕ
unfolding insert_down
sort_down [] = []
sort_down (x ∷ xs) = insert_down x (sort_down xs)

unfoldable pub make_plo_pattern : List ℕ → SuitQualifier → PloPattern
unfolding sort_down
make_plo_pattern ranks suit = record { ranks = sort_down ranks; suit = suit }

-- the tests of the sorted multiplicities
shape_matches : List ℕ → SuitQualifier → Bool
shape_matches h any = true
shape_matches h double_suited = get_or h 0 0 == 2 && get_or h 1 0 == 2
shape_matches h single_suited = get_or h 0 0 == 2 && get_or h 1 0 == 1 && get_or h 2 0 == 1
shape_matches h rainbow =
    get_or h 0 0 == 1 && get_or h 1 0 == 1 && get_or h 2 0 == 1 && get_or h 3 0 == 1

unfoldable pub plo_suit_qualifier_matches : List ℕ → SuitQualifier → Bool
unfolding sort_down shape_matches
plo_suit_qualifier_matches suit_counts q = shape_matches (sort_down suit_counts) q

-- `counts[i] += 1`
abbrev pub bump : List ℕ → ℕ → List ℕ
bump counts i = set counts i (get_or counts i 0 + 1)

-- the loop over `rest`, from the ids of the hand: the counts of suits and of ranks
unfoldable pub count_cards : List ℕ → List ℕ → List ℕ → List ℕ × List ℕ
count_cards [] suit_count rank_count = (suit_count, rank_count)
count_cards (id ∷ ids) suit_count rank_count =
    count_cards ids (bump suit_count (id / 13)) (bump rank_count (id % 13 + 2))

-- the loop over the slots
unfoldable pub count_required : List ℕ → List ℕ → List ℕ
count_required [] required = required
count_required (r ∷ ranks) required =
    count_required ranks (if r == 0 then required else bump required r)

-- the loop over the ranks, with `left` to go
unfoldable pub enough_cards : ℕ → ℕ → List ℕ → List ℕ → Bool
enough_cards zero r required rank_count = true
enough_cards (suc left) r required rank_count =
    let rest = enough_cards left (r + 1) required rank_count in
    if ltb (get_or rank_count r 0) (get_or required r 0) then false else rest

unfoldable pub plo_pattern_matches : PloPattern → ℕ → Bool
plo_pattern_matches p mask =
    let (suit_count, rank_count) =
      count_cards (pop_bits 64 64 mask) (replicate 4 0) (replicate 15 0) in
    let required = count_required p.ranks (replicate 15 0) in
    if enough_cards 13 2 required rank_count
    then plo_suit_qualifier_matches suit_count p.suit
    else false

-- the innermost loop, over c0
unfoldable pub push_matches : (ℕ → Bool) → ℕ → List ℕ → List ℕ
push_matches test m1 [] = []
push_matches test m1 (c0 ∷ cs) =
    let rest = push_matches test m1 cs in
    if test (bit_or m1 (2 ^ c0)) then bit_or m1 (2 ^ c0) ∷ rest else rest

unfoldable pub expand_plo_pattern : PloPattern → List ℕ
unfolding push_matches
expand_plo_pattern p =
    flat_map
      (λ c3.
        flat_map
          (λ c2.
            flat_map
              (λ c1.
                push_matches (plo_pattern_matches p) (bit_or (bit_or (2 ^ c3) (2 ^ c2)) (2 ^ c1))
                  (up_from c1 0))
              (up_from (c2 - 1) 1))
          (up_from (c3 - 2) 2))
      (up_from 49 3)
