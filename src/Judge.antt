-- ===== src/Judge.antt =====
-- src/core/eval.cpp and the PLO scoring of src/core/eval_internal.h. Masks are below 2 ^ 64. The
-- arrays of fixed size are lists of what is written to them.
pub mod Winners
use xia_pl.Base.{
  ℕ, zero, suc, ◌+◌, ◌-◌, ◌^◌, bit_and, bit_or, Bool, ◌&&◌, ◌||◌, ◌==◌, ◌!=◌, leb, ltb,
  if◌then◌else◌, List, [], ◌∷◌, ◌++◌, map, length, String,
}
use xia_pl.Base.Errors.{
  Result, ok, err, Exception, runtime_error, invalid_argument, runtime_error_of, lit, throw_if,
  ◌>>=◌, ◌>>◌,
}
use xia_pl.Base.Words.{pop_bits}
use xia_pl.Card.{Card}
use xia_pl.Mask.{full_deck_mask, popcount64, ctz64, cards_to_mask}
use xia_pl.HandValue.{HandValue}
use xia_pl.Evaluator.{eval_score7, decode_score}

pub data GameType : Type 0 where
  holdem plo : GameType

unfoldable pub cards_per_hand : GameType → ℕ
cards_per_hand plo = 4
cards_per_hand holdem = 2

-- the loop of `extract_card_ids` with `capacity` places left
unfoldable pub extract_card_ids : ℕ → ℕ → List ℕ
extract_card_ids zero mask = []
extract_card_ids (suc capacity) mask =
    let rest = extract_card_ids capacity (bit_and mask (mask - 1)) in
    if mask == 0 then [] else ctz64 mask ∷ rest

-- the loops over `k`, over `j` and over `i`
triples_of : ℕ → ℕ → List ℕ → List ℕ
triples_of i j [] = []
triples_of i j (k ∷ ids) = bit_or (bit_or (2 ^ i) (2 ^ j)) (2 ^ k) ∷ triples_of i j ids

triples_from : ℕ → List ℕ → List ℕ
triples_from i [] = []
triples_from i (j ∷ ids) = triples_of i j ids ++ triples_from i ids

triples : List ℕ → List ℕ
triples [] = []
triples (i ∷ ids) = triples_from i ids ++ triples ids

pub plo_board_triples : ℕ → List ℕ
plo_board_triples board_mask = triples (extract_card_ids 5 board_mask)

-- the loop over the triples, over `j` and over `i`; `best` is carried through
best_triple : ℕ → List ℕ → ℕ → ℕ
best_triple hole_two [] best = best
best_triple hole_two (t ∷ ts) best =
    let s = eval_score7 (bit_or hole_two t) in
    best_triple hole_two ts (if ltb best s then s else best)

best_pair : ℕ → List ℕ → List ℕ → ℕ → ℕ
best_pair i [] ts best = best
best_pair i (j ∷ ids) ts best = best_pair i ids ts (best_triple (bit_or (2 ^ i) (2 ^ j)) ts best)

best_hole : List ℕ → List ℕ → ℕ → ℕ
best_hole [] ts best = best
best_hole (i ∷ ids) ts best = best_hole ids ts (best_pair i ids ts best)

pub plo_score_triples : ℕ → List ℕ → ℕ
plo_score_triples hole_mask ts = best_hole (extract_card_ids 4 hole_mask) ts 0

pub plo_score : ℕ → ℕ → ℕ
plo_score hole_mask board_mask = plo_score_triples hole_mask (plo_board_triples board_mask)

abbrev pub max_seats : ℕ
max_seats = 10

abbrev pub max_mask_players : ℕ
max_mask_players = 32

-- the loop of `validate_player_masks`
check_holes : ℕ → List ℕ → ℕ → String → Result (Unit {0})
check_holes used [] expected caller_name = ok tt
check_holes used (m ∷ ms) expected caller_name =
    let hole = bit_and m full_deck_mask in
    do
      throw_if (popcount64 hole != expected)
          (runtime_error_of (lit caller_name ∷ lit ": invalid hole card count" ∷ []))
      throw_if (bit_and used hole != 0)
          (runtime_error_of (lit caller_name ∷ lit ": overlapping cards" ∷ []))
      check_holes (bit_or used hole) ms expected caller_name

bad_board : ℕ → Bool
bad_board board_count = ltb board_count 3 || ltb 5 board_count

pub validate_player_masks : List ℕ → ℕ → ℕ → String → Result (Unit {0})
validate_player_masks holes board_mask expected caller_name = do
  throw_if (bad_board (popcount64 (bit_and board_mask full_deck_mask)))
      (runtime_error_of (lit caller_name ∷ lit " requires 3 to 5 board cards" ∷ []))
  throw_if (length holes == 0)
      (runtime_error_of (lit caller_name ∷ lit " requires at least one player" ∷ []))
  check_holes (bit_and board_mask full_deck_mask) holes expected caller_name

-- the first loop of `winner_mask_from_scores`
unfoldable pub best_score : List ℕ → ℕ → ℕ
best_score [] best = best
best_score (s ∷ ss) best = best_score ss (if ltb best s then s else best)

-- the second loop, at index i
unfoldable pub collect_winners : List ℕ → ℕ → ℕ → ℕ → ℕ
collect_winners [] i best winners = winners
collect_winners (s ∷ ss) i best winners =
    collect_winners ss (i + 1) best (if s == best then bit_or winners (2 ^ i) else winners)

unfoldable pub winner_mask_from_scores : List ℕ → ℕ
winner_mask_from_scores scores =
    let best = best_score scores 0 in if best == 0 then 0 else collect_winners scores 0 best 0

-- A 32-bit word has at most 32 bits to pop.
unfoldable pub mask_to_indices : ℕ → List ℕ
mask_to_indices winners = pop_bits 64 32 winners

unfoldable pub score_players_holdem : List ℕ → ℕ → Result (List ℕ)
score_players_holdem holes board_mask =
    throw_if (ltb max_seats (length holes)) (runtime_error "judge_holdem_mask: too many players")
    >> ok (map (λ h. eval_score7 (bit_or board_mask h)) holes)

unfoldable pub score_players_plo : List ℕ → ℕ → List ℕ
score_players_plo holes board_mask =
    let ts = plo_board_triples (bit_and board_mask full_deck_mask) in
    map (λ h. plo_score_triples (bit_and h full_deck_mask) ts) holes

unfoldable pub judge_holdem_mask : List ℕ → ℕ → Result ℕ
judge_holdem_mask [] board_mask = ok 0
judge_holdem_mask (h ∷ hs) board_mask = do
  scores ← score_players_holdem (h ∷ hs) board_mask
  ok (winner_mask_from_scores scores)

unfoldable pub judge_plo_mask : List ℕ → ℕ → Result ℕ
judge_plo_mask [] board_mask = ok 0
judge_plo_mask (h ∷ hs) board_mask =
    throw_if (ltb max_mask_players (length (h ∷ hs)))
      (runtime_error "judge_plo_mask: too many players")
    >> ok (winner_mask_from_scores (score_players_plo (h ∷ hs) board_mask))

-- the loops that fill `stripped`
strip_holdem : List ℕ → Result (List ℕ)
strip_holdem [] = ok []
strip_holdem (m ∷ ms) = do
  throw_if (bit_and m full_deck_mask == 0)
      (runtime_error "judge_holdem_masks: player hole mask is empty")
  rest ← strip_holdem ms
  ok (bit_and m full_deck_mask ∷ rest)

strip_plo : List ℕ → Result (List ℕ)
strip_plo [] = ok []
strip_plo (m ∷ ms) = do
  throw_if (popcount64 (bit_and m full_deck_mask) != 4)
      (runtime_error "judge_plo_masks: each player must have exactly 4 hole cards in mask")
  rest ← strip_plo ms
  ok (bit_and m full_deck_mask ∷ rest)

judge_holdem_masks : List ℕ → ℕ → Result (List ℕ)
judge_holdem_masks [] board_mask = ok []
judge_holdem_masks (h ∷ hs) board_mask =
    let board = bit_and board_mask full_deck_mask in
    do
      throw_if (bad_board (popcount64 board))
          (runtime_error "judge_holdem_masks expects 3 to 5 board cards")
      stripped ← strip_holdem (h ∷ hs)
      winners ← judge_holdem_mask stripped board
      ok (mask_to_indices winners)

judge_plo_masks : List ℕ → ℕ → Result (List ℕ)
judge_plo_masks [] board_mask = ok []
judge_plo_masks (h ∷ hs) board_mask =
    let board = bit_and board_mask full_deck_mask in
    do
      throw_if (bad_board (popcount64 board))
          (runtime_error "judge_plo_masks expects 3 to 5 board cards")
      stripped ← strip_plo (h ∷ hs)
      winners ← judge_plo_mask stripped board
      ok (mask_to_indices winners)

evaluate_hand_holdem : ℕ → ℕ → Result HandValue
evaluate_hand_holdem board_mask hole_mask = do
  throw_if (bad_board (popcount64 (bit_and board_mask full_deck_mask)))
      (runtime_error "evaluate_hand requires 3 to 5 board cards")
  throw_if (popcount64 (bit_and hole_mask full_deck_mask) != 2)
      (runtime_error "evaluate_hand: Hold'em requires exactly 2 hole cards")
  throw_if (bit_and board_mask hole_mask != 0)
      (runtime_error "evaluate_hand: board and hole overlap")
  ok (decode_score (eval_score7 (bit_or board_mask hole_mask)))

evaluate_hand_plo : ℕ → ℕ → Result HandValue
evaluate_hand_plo board_mask hole_mask = do
  throw_if (bad_board (popcount64 (bit_and board_mask full_deck_mask)))
      (runtime_error "evaluate_hand requires 3 to 5 board cards")
  throw_if (popcount64 (bit_and hole_mask full_deck_mask) != 4)
      (runtime_error "evaluate_hand: PLO requires exactly 4 hole cards")
  throw_if (bit_and board_mask hole_mask != 0)
      (runtime_error "evaluate_hand: board and hole overlap")
  let best = plo_score (bit_and hole_mask full_deck_mask) (bit_and board_mask full_deck_mask)
  throw_if (best == 0) (runtime_error "evaluate_hand: no hand evaluated")
  ok (decode_score best)

judge_holdem : List ℕ → ℕ → Result (List ℕ)
judge_holdem holes board_mask =
    validate_player_masks holes board_mask 2 "judge (Hold'em)"
    >> judge_holdem_masks holes board_mask

judge_plo : List ℕ → ℕ → Result (List ℕ)
judge_plo holes board_mask =
    validate_player_masks holes board_mask 4 "judge (PLO)" >> judge_plo_masks holes board_mask

pub evaluate_cards : List Card → Result HandValue
evaluate_cards cards = do
  throw_if (ltb (length cards) 5 || ltb 7 (length cards))
      (runtime_error "evaluate_cards requires 5 to 7 cards")
  mask ← cards_to_mask cards
  throw_if (popcount64 mask != length cards)
      (invalid_argument "evaluate_cards: duplicate cards in input")
  ok (decode_score (eval_score7 mask))

pub evaluate_mask : ℕ → Result HandValue
evaluate_mask card_mask =
    let mask = bit_and card_mask full_deck_mask in
    do
      throw_if (ltb (popcount64 mask) 5 || ltb 7 (popcount64 mask))
          (runtime_error "evaluate_mask requires 5 to 7 cards")
      ok (decode_score (eval_score7 mask))

pub evaluate_hand : ℕ → ℕ → GameType → Result HandValue
evaluate_hand board_mask hole_mask plo = evaluate_hand_plo board_mask hole_mask
evaluate_hand board_mask hole_mask holdem = evaluate_hand_holdem board_mask hole_mask

pub judge : List ℕ → ℕ → GameType → Result (List ℕ)
judge holes board_mask plo = judge_plo holes board_mask
judge holes board_mask holdem = judge_holdem holes board_mask
