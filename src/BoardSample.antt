-- ===== src/BoardSample.antt =====
-- src/core/board_sample.h: checking the players' masks, and the boards of a simulation. A callback is
-- the list of the boards that it is called with, in order.
pub mod Used
pub mod Cards
pub mod Reads
use xia_pl.Base.{
  ℕ, zero, suc, ◌+◌, ◌-◌, ◌*◌, ◌/◌, ◌^◌, bit_and, bit_or, Bool, not, ◌&&◌, ◌||◌, ◌==◌, ◌!=◌, leb,
  ltb, if◌then◌else◌, Option, none, some, List, [], ◌∷◌, length, get_elem?, set, ◌%◌, String,
  up_from,
}
use xia_pl.Base.Int.{ℤ, pos, negsuc, pos_part, ltb_ℤ}
use xia_pl.Base.Errors.{
  Result, ok, err, invalid_argument_of, runtime_error_of, lit, num, throw_if, ◌>>=◌, ◌>>◌,
}
use xia_pl.Base.Words.{pop_bits}
use xia_pl.Mask.{full_deck_mask, popcount64, next_combination}
use xia_pl.Judge.{max_seats, max_mask_players}
use xia_pl.Rng.{FastRng, bounded}

-- the loop of `build_used_mask`
unfoldable pub add_holes : List ℕ → String → ℕ → ℕ → Result ℕ
add_holes [] caller_name expected used_mask = ok used_mask
add_holes (h ∷ hs) caller_name expected used_mask =
    let m = bit_and h full_deck_mask in
    do
      throw_if (ltb 0 expected && popcount64 m != expected)
          (runtime_error_of (lit caller_name ∷ lit ": invalid hole mask card count" ∷ []))
      throw_if (expected == 0 && m == 0)
          (runtime_error_of (lit caller_name ∷ lit ": player hole mask is empty" ∷ []))
      throw_if (bit_and used_mask m != 0) (
          runtime_error_of
            (lit caller_name ∷ lit ": overlapping cards between players or board" ∷ []))
      add_holes hs caller_name expected (bit_or used_mask m)

unfoldable pub build_used_mask : List ℕ → ℕ → String → ℕ → Result ℕ
build_used_mask players_hole_masks board_mask caller_name expected_cards_per_hand =
    add_holes players_hole_masks caller_name expected_cards_per_hand
      (bit_and board_mask full_deck_mask)

unfoldable pub validate_board_count : ℕ → String → Result (Unit {0})
validate_board_count board_mask caller_name =
    let board_count = popcount64 (bit_and board_mask full_deck_mask) in
    throw_if (board_count != 0 && (ltb board_count 3 || ltb 5 board_count)) (
      runtime_error_of
        (lit caller_name ∷ lit ": board must have 0 (preflop) or 3-5 (flop/turn/river) cards" ∷ []))

unfoldable pub validate_equity_input : List ℕ → ℕ → Bool → String → Result ℕ
unfolding validate_board_count
validate_equity_input [] board_mask use_plo caller_name = ok (bit_and board_mask full_deck_mask)
validate_equity_input (h ∷ hs) board_mask use_plo caller_name =
    let num_players = length (h ∷ hs) in
    let max_players = if use_plo then max_mask_players else max_seats in
    do
      validate_board_count board_mask caller_name
      throw_if (ltb max_players num_players) (
          invalid_argument_of (
            lit caller_name
            ∷ lit ": at most "
            ∷ num max_players
            ∷ lit " players supported for "
            ∷ lit (if use_plo then "PLO" else "Hold'em")
            ∷ lit " (got "
            ∷ num num_players
            ∷ lit ")"
            ∷ []))
      build_used_mask (h ∷ hs) board_mask caller_name (if use_plo then 4 else 2)

-- A 64-bit word has at most 64 bits to pop.
unfoldable pub deck_indices_of : ℕ → List ℕ
deck_indices_of remain_mask = pop_bits 64 64 remain_mask

-- The loop over `i`, with `left` rounds to go; by the contract no product overflows.
binomial_loop : ℕ → ℕ → ℕ → ℕ → ℕ
binomial_loop zero i n result = result
binomial_loop (suc left) i n result = binomial_loop left (i + 1) n (result * (n - i) / (i + 1))

unfoldable pub binomial_coefficient : ℕ → ℕ → ℕ
unfolding binomial_loop
binomial_coefficient n k =
    let k' = if ltb (n - k) k then n - k else k in
    if ltb n k then 0 else if k == 0 || k == n then 1 else binomial_loop k' 0 n 1

unfoldable pub board_space_count : ℕ → ℤ → ℕ
unfolding binomial_coefficient
board_space_count deck_size num_to_draw =
    if not (ltb_ℤ (pos 0) num_to_draw)
    then 1
    else binomial_coefficient deck_size (pos_part num_to_draw)

unfoldable pub board_run_is_exact : ℕ → ℕ → Bool
board_run_is_exact iterations space = iterations == 0 || leb space iterations

-- `board_mask |= (1ULL << deck_indices[idx])` for each idx; `none` for an index past the end, which
-- the source leaves undefined
unfoldable pub add_cards : ℕ → List ℕ → List ℕ → Option ℕ
add_cards board_mask deck_indices [] = some board_mask
add_cards board_mask deck_indices (idx ∷ comb) = elim (get_elem? deck_indices idx) [
  | none ↦ none
  | some id ↦ add_cards (bit_or board_mask (2 ^ id)) deck_indices comb
]

-- The do-while loop, on fuel; `none` means that the fuel ran out or that a read is past the end.
unfoldable pub enumerate_from : ℕ → List ℕ → ℕ → List ℕ → Option (List ℕ)
unfolding add_cards
enumerate_from zero deck_indices fixed comb = none
enumerate_from (suc fuel) deck_indices fixed comb = elim (add_cards fixed deck_indices comb) [
  | none ↦ none
  | some board ↦ elim (next_combination comb (length deck_indices)) [
    | none ↦ some (board ∷ [])
    | some comb' ↦ elim (enumerate_from fuel deck_indices fixed comb') [
      | none ↦ none
      | some boards ↦ some (board ∷ boards)
    ]
  ]
]

unfoldable pub enumerate_boards : ℕ → List ℕ → ℤ → ℕ → Option (List ℕ)
unfolding enumerate_from
enumerate_boards fuel deck_indices num_to_draw fixed_board_mask =
    if not (ltb_ℤ (pos 0) num_to_draw)
    then some (fixed_board_mask ∷ [])
    else enumerate_from fuel deck_indices fixed_board_mask (up_from (pos_part num_to_draw) 0)

-- One board: the loop over k, with `left` rounds to go, on the deck as it is. The draws take fuel;
-- `none` also for a read past the end, which a deck with cards enough to draw does not meet.
unfoldable pub draw_board : ℕ → ℕ → ℕ → List ℕ → ℕ → FastRng → Option (ℕ × List ℕ × FastRng)
draw_board fuel zero k deck board_mask rng = some (board_mask, deck, rng)
draw_board fuel (suc left) k deck board_mask rng =
    elim (bounded fuel ((length deck + 2 ^ 32 - k) % 2 ^ 32) rng) [
      | none ↦ none
      | some (r, rng') ↦
          let j = (k + r) % 2 ^ 32 in
          elim (get_elem? deck j) [
            | none ↦ none
            | some picked ↦ elim (get_elem? deck k) [
              | none ↦ none
              | some top ↦
                  draw_board fuel left (k + 1) (set (set deck j top) k picked)
                    (bit_or board_mask (2 ^ picked)) rng'
            ]
          ]
    ]

-- The loop over the iterations, with `iterations` to go.
unfoldable pub sample_boards : ℕ → List ℕ → ℕ → ℕ → ℕ → FastRng → Option (List ℕ × FastRng)
unfolding draw_board
sample_boards fuel deck num_to_draw zero fixed rng = some ([], rng)
sample_boards fuel deck num_to_draw (suc iterations) fixed rng =
    elim (draw_board fuel num_to_draw 0 deck fixed rng) [
      | none ↦ none
      | some (board, deck', rng') ↦
          elim (sample_boards fuel deck' num_to_draw iterations fixed rng') [
            | none ↦ none
            | some (boards, last) ↦ some (board ∷ boards, last)
          ]
    ]

-- The flag `out_was_exact` and the boards.
unfoldable pub enumerate_or_sample_boards :
    ℕ → List ℕ → ℤ → ℕ → ℕ → FastRng → Bool × Option (List ℕ × FastRng)
unfolding board_space_count board_run_is_exact enumerate_boards sample_boards
enumerate_or_sample_boards fuel deck_indices num_to_draw iterations fixed rng =
    let use_exact =
      board_run_is_exact iterations (board_space_count (length deck_indices) num_to_draw) in
    (
      use_exact,
      if use_exact
          then elim (enumerate_boards fuel deck_indices num_to_draw fixed) [
            | none ↦ none
            | some boards ↦ some (boards, rng)
          ]
          else sample_boards fuel deck_indices (pos_part num_to_draw) iterations fixed rng,
    )
