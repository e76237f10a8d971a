-- ===== src/Equity/Room.antt =====
-- The cards that the players and the board of src/core/equity_hands.cpp leave in the deck.
use xia_pl.Base.{
  ℕ, zero, suc, ◌+◌, ◌-◌, ◌*◌, ◌/◌, ◌^◌, ◌≤◌, ◌<◌, bit_and, bit_or, ◌≡◌, refl, ap, ◌∙◌, sym, true,
  false, ◌&&◌, ◌==◌, ◌!=◌, ltb, ◌||◌, if◌then◌else◌, Bool, List, [], ◌∷◌, length, arith, Bool-cases,
  inl, inr, String,
}
use xia_pl.Base.Errors.{ok, ok_inj}
use xia_pl.Base.Bits.{bit_and_low-eq-mod}
use xia_pl.Base.Words.{popcount, popcount-le, bit_and_comm, pop_bits-eq-set_bits, length-set_bits}
use xia_pl.Mask.{full_deck_mask, popcount64}
use xia_pl.Evaluator.Lanes.{popcount_wide, popcount_low_mask}
use xia_pl.BoardSample.{
  add_holes, build_used_mask, deck_indices_of, validate_board_count, validate_equity_input,
}
use xia_pl.Judge.{max_seats, max_mask_players}
use xia_pl.BoardSample.Used.{cards_of, build_used_mask_iff, hole-lt, bit_or-lt}
use xia_pl.Equity.Stats.{deck_without, board_count, expected_hole}
use native.Mathlib.Nat.{pow-suc}

popcount-complement :
    (w v m : ℕ) → w ≤ v → m < 2 ^ v → popcount w (2 ^ v - 1 - m) + popcount w m ≡ w
unfolding popcount
popcount-complement zero v m le lt = refl
popcount-complement (suc w) zero m le lt = absurd (omega arith)
popcount-complement (suc w) (suc v) m le lt =
    let half : (2 ^ suc v - 1 - m) / 2 ≡ 2 ^ v - 1 - m / 2 = omega (arith, pow-suc 2 v) in
    rw half (
      omega (
        arith,
        pow-suc 2 v,
        popcount-complement w v (m / 2) (omega arith) (omega (arith, pow-suc 2 v)),
      ))

length-deck_without :
    (used : ℕ) → used < 2 ^ 52 → length (deck_without used) + popcount 52 used ≡ 52
unfolding deck_indices_of
length-deck_without used lt =
    let rest : ℕ = 2 ^ 64 - 1 - used in
    let m : ℕ = bit_and full_deck_mask rest in
    let swap : m ≡ bit_and rest full_deck_mask = bit_and_comm full_deck_mask rest in
    let small : m < 2 ^ 52 = omega (arith, swap, hole-lt rest) in
    let count : length (deck_without used) ≡ popcount 64 m =
      ap length (pop_bits-eq-set_bits 64 64 m (omega arith) (popcount-le 64 m))
      ∙ length-set_bits 64 0 m in
    omega (
      arith,
      count,
      popcount_wide 64 52 m (omega arith) small,
      ap (popcount 52) swap,
      popcount_low_mask 52 rest,
      popcount-complement 52 64 used (omega arith) (omega arith),
    )

cards_of-lt : (hs : List ℕ) (used : ℕ) → used < 2 ^ 52 → cards_of hs used < 2 ^ 52
unfolding cards_of
cards_of-lt [] used lt = lt
cards_of-lt (h ∷ hs) used lt =
    cards_of-lt hs (bit_or used (bit_and h full_deck_mask)) (bit_or-lt used _ lt (hole-lt h))

add_holes-eq-cards_of :
    (hs : List ℕ) (caller_name : String) (expected used v : ℕ)
    → add_holes hs caller_name expected used ≡ ok v
    → v ≡ cards_of hs used
unfolding add_holes cards_of
add_holes-eq-cards_of [] n k used v e = sym (ok_inj used v e)
add_holes-eq-cards_of (h ∷ hs) n k used v e =
    let m : ℕ = bit_and h full_deck_mask in
    elim (Bool-cases (ltb 0 k && popcount64 m != k)) [
      | inl p ↦ absurd (cc (rw p at e))
      | inr p ↦ elim (Bool-cases (k == 0 && m == 0)) [
        | inl q ↦ absurd (cc (rw (p, q) at e))
        | inr q ↦ elim (Bool-cases (bit_and used m != 0)) [
          | inl r ↦ absurd (cc (rw (p, q, r) at e))
          | inr r ↦ add_holes-eq-cards_of hs n k (bit_or used m) v (rw (p, q, r) at e)
        ]
      ]
    ]

-- Where the hands have at most 47 cards, the deck that is left completes the board.
pub deck_without-completes :
    (hs : List ℕ) (board used expected : ℕ) (caller_name : String)
    → 0 < expected
    → expected * length hs ≤ 47
    → build_used_mask hs board caller_name expected ≡ ok used
    → ltb (length (deck_without used)) (5 - board_count board) ≡ false
unfolding build_used_mask popcount64
deck_without-completes hs board used expected n more few e =
    let on_board : ℕ = bit_and board full_deck_mask in
    let same : used ≡ cards_of hs on_board = add_holes-eq-cards_of hs n expected on_board used e in
    let size = ((build_used_mask_iff expected n more hs board).0 (rw same at e)).1 in
    let small : used < 2 ^ 52 = rw same (cards_of-lt hs on_board (hole-lt board)) in
    ground (
      arith,
      length-deck_without used small,
      ap (popcount 52) same,
      size,
      popcount-le 52 used,
      popcount_wide 64 52 on_board (omega arith) (hole-lt board),
    )

abbrev pub max_players : Bool → ℕ
max_players use_plo = if use_plo then max_mask_players else max_seats

pub add_holes_caller :
    (hs : List ℕ) (caller_name caller_name' : String) (expected used v : ℕ)
    → add_holes hs caller_name expected used ≡ ok v
    → add_holes hs caller_name' expected used ≡ ok v
unfolding add_holes
add_holes_caller [] n n' k used v e = e
add_holes_caller (h ∷ hs) n n' k used v e =
    let m : ℕ = bit_and h full_deck_mask in
    elim (Bool-cases (ltb 0 k && popcount64 m != k)) [
      | inl p ↦ absurd (cc (rw p at e))
      | inr p ↦ elim (Bool-cases (k == 0 && m == 0)) [
        | inl q ↦ absurd (cc (rw (p, q) at e))
        | inr q ↦ elim (Bool-cases (bit_and used m != 0)) [
          | inl r ↦ absurd (cc (rw (p, q, r) at e))
          | inr r ↦ rw (p, q, r) (add_holes_caller hs n n' k (bit_or used m) v (rw (p, q, r) at e))
        ]
      ]
    ]

pub validated :
    (h : ℕ) (hs : List ℕ) (board used : ℕ) (use_plo : Bool) (caller_name : String)
    → validate_equity_input (h ∷ hs) board use_plo caller_name ≡ ok used
    → (ltb (max_players use_plo) (length (h ∷ hs)) ≡ false)
      × (build_used_mask (h ∷ hs) board caller_name (expected_hole use_plo) ≡ ok used)
unfolding validate_equity_input validate_board_count
validated h hs board used use_plo n e =
    let k : ℕ = popcount64 (bit_and board full_deck_mask) in
    elim (Bool-cases (k != 0 && (ltb k 3 || ltb 5 k))) [
      | inl p ↦ absurd (cc (rw p at e))
      | inr p ↦ elim (Bool-cases (ltb (max_players use_plo) (length (h ∷ hs)))) [
        | inl q ↦ absurd (cc (rw (p, q) at e))
        | inr q ↦ (q, rw (p, q) at e)
      ]
    ]

pub full_deck_twice :
    (b : ℕ) → bit_and (bit_and b full_deck_mask) full_deck_mask ≡ bit_and b full_deck_mask
full_deck_twice b =
    omega (arith, bit_and_low-eq-mod 52 b, bit_and_low-eq-mod 52 (bit_and b full_deck_mask))

pub expected_hole_pos : (use_plo : Bool) → 0 < expected_hole use_plo
expected_hole_pos true = omega arith
expected_hole_pos false = omega arith

-- An accepted input with at most 47 hole cards leaves cards enough to complete the board.
pub accepted-completes :
    (holes : List ℕ) (board used : ℕ) (use_plo : Bool) (caller_name : String)
    → (length holes == 0) ≡ false
    → validate_equity_input holes board use_plo caller_name ≡ ok used
    → expected_hole use_plo * length holes ≤ 47
    → ltb (length (deck_without used)) (5 - board_count board) ≡ false
accepted-completes [] board used use_plo n some_holes e few = absurd (ground arith)
accepted-completes (h ∷ hs) board used use_plo n some_holes e few =
    deck_without-completes (h ∷ hs) board used (expected_hole use_plo) n (expected_hole_pos use_plo)
      few (validated h hs board used use_plo n e).1
