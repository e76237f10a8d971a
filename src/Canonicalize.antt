-- ===== src/Canonicalize.antt =====
-- src/core/canonicalize.cpp: the canonical form of a hand and a board under relabelling of the suits,
-- the notation of a hand, and the packed key. A four-entry array that an insertion sort fills is held
-- as its sorted part, from the right end.
pub mod Order
pub mod Form
pub mod Packing
pub mod Strict
pub mod FlatSet
pub mod Situations
use mathlib.Core.List.{reverse}
use xia_pl.Base.{
  ℕ, zero, suc, ◌+◌, ◌-◌, ◌*◌, ◌/◌, ◌%◌, ◌^◌, bit_and, bit_or, bit_xor, Bool, true, false, not,
  ◌&&◌, ◌||◌, ◌==◌, ◌!=◌, leb, ltb, if◌then◌else◌, Option, none, some, List, [], ◌∷◌, ◌++◌, length,
  get_or, set, replicate, up_from,
}
use xia_pl.Base.Int.{ℤ, pos, negsuc, ltb_ℤ}
use xia_pl.Base.Errors.{
  Result, ok, err, Exception, invalid_argument, invalid_argument_of, Piece, lit, bytes, num,
  throw_if, ◌>>=◌, ◌>>◌,
}
use xia_pl.Chars.{rank_to_char}
use xia_pl.Card.{Card, rank, suit}
use xia_pl.Mask.{clz32, ctz64, clz64, cards_to_mask, mask_to_cards}
use xia_pl.Text.{Text}

pub record HeroBoardMask : Type 0 where
  pub hero_mask : ℕ
  pub board_mask : ℕ

-- `pat_b[s]`, `pat_h[s]` and `pat[s]`
unfoldable pub pattern_of : ℕ → ℕ → ℕ
pattern_of mask s = bit_and (mask / 2 ^ (s * 13)) 0x1FFF % 2 ^ 32

-- The inner loop of the insertion sorts: what stands left of `cur`, nearest first, moves right
-- while `shifts` holds of it.
unfoldable pub insert_sorted {ℓ} : {A : Type ℓ} → (A → A → Bool) → A → List A → List A
insert_sorted shifts cur [] = cur ∷ []
insert_sorted shifts cur (x ∷ xs) =
    if shifts x cur then x ∷ insert_sorted shifts cur xs else cur ∷ x ∷ xs

-- The outer loop, from the entries still to insert.
unfoldable pub insert_each {ℓ} : {A : Type ℓ} → (A → A → Bool) → List A → List A → List A
unfolding insert_sorted
insert_each shifts [] sorted = sorted
insert_each shifts (x ∷ xs) sorted = insert_each shifts xs (insert_sorted shifts x sorted)

-- the sorted array of four suits
unfoldable pub sort_suits : (ℕ → ℕ → Bool) → List ℕ
unfolding insert_each
sort_suits shifts = reverse (insert_each shifts (0 ∷ 1 ∷ 2 ∷ 3 ∷ []) [])

-- `for (i = 0; i < 4; ++i) suit_map[ord[i]] = i;`
unfoldable pub fill_suit_map : ℕ → List ℕ → List ℕ → List ℕ
fill_suit_map i [] suit_map = suit_map
fill_suit_map i (s ∷ ord) suit_map = fill_suit_map (i + 1) ord (set suit_map s i)

unfoldable pub suit_map_of : List ℕ → List ℕ
unfolding fill_suit_map
suit_map_of ord = fill_suit_map 0 ord (replicate 4 0)

-- The last loop, with `left` suits to go: pattern s is written at its new place.
unfoldable pub place_patterns : ℕ → ℕ → ℕ → List ℕ → ℕ → ℕ
place_patterns zero s mask suit_map canon = canon
place_patterns (suc left) s mask suit_map canon =
    place_patterns left (s + 1) mask suit_map
      (bit_or canon (pattern_of mask s * 2 ^ (get_or suit_map s 0 * 13)))

unfoldable pub relabel : ℕ → List ℕ → ℕ
unfolding suit_map_of place_patterns
relabel mask ord = place_patterns 4 0 mask (suit_map_of ord) 0

-- top_rank, the lambda; -1 for the empty pattern
abbrev top_rank : ℕ → ℤ
top_rank p = if p != 0 then pos (31 - clz32 p) else negsuc 0

abbrev present : ℤ → Bool
present r = not (ltb_ℤ r (pos 0))

abbrev differ_ℤ : ℤ → ℤ → Bool
differ_ℤ a b = ltb_ℤ a b || ltb_ℤ b a

-- prev_first, the lambda, on the keys of two suits
prev_first : ℕ → ℕ → ℕ → ℕ → Bool
prev_first hero_mask board_mask a b =
    let max_b = λ (s : ℕ). top_rank (pattern_of board_mask s) in
    let max_h = λ (s : ℕ). top_rank (pattern_of hero_mask s) in
    if (present (max_b a) && not (present (max_b b)))
      || (not (present (max_b a)) && present (max_b b))
    then present (max_b a)
    else if present (max_b a)
    then (if differ_ℤ (max_b a) (max_b b) then ltb_ℤ (max_b b) (max_b a) else ltb a b)
    else if differ_ℤ (max_h a) (max_h b)
    then ltb_ℤ (max_h b) (max_h a)
    else ltb a b

unfoldable pub canonicalize_hero_and_board : ℕ → ℕ → HeroBoardMask
unfolding prev_first sort_suits relabel
canonicalize_hero_and_board hero_mask board_mask =
    let ord = sort_suits (λ a cur. not (prev_first hero_mask board_mask a cur)) in
    record { hero_mask = relabel hero_mask ord; board_mask = relabel board_mask ord }

-- `key[s]`
unfoldable pub suit_key : ℕ → ℕ → ℕ → ℕ
suit_key hero_mask board_mask s =
    bit_or (pattern_of board_mask s * 2 ^ 13 % 2 ^ 32) (pattern_of hero_mask s)

unfoldable pub canonicalize_hero_and_board_strict : ℕ → ℕ → HeroBoardMask
unfolding sort_suits relabel suit_key
canonicalize_hero_and_board_strict hero_mask board_mask =
    let ord =
      sort_suits
        (λ a cur. ltb (suit_key hero_mask board_mask a) (suit_key hero_mask board_mask cur)) in
    record { hero_mask = relabel hero_mask ord; board_mask = relabel board_mask ord }

-- The mask, and the suit map that canonicalize_board_core fills.
unfoldable pub canonicalize_board_with_suit_map : ℕ → ℕ × List ℕ
unfolding sort_suits relabel suit_map_of
canonicalize_board_with_suit_map board_mask =
    let ord = sort_suits (λ a cur. ltb (pattern_of board_mask a) (pattern_of board_mask cur)) in
    (relabel board_mask ord, suit_map_of ord)

unfoldable pub canonicalize_board : ℕ → ℕ
unfolding canonicalize_board_with_suit_map
canonicalize_board board_mask = (canonicalize_board_with_suit_map board_mask).0

unfoldable pub legacy_canonicalize_board : ℕ → ℕ
unfolding canonicalize_hero_and_board
legacy_canonicalize_board board_mask = (canonicalize_hero_and_board 0 board_mask).board_mask

-- The enumeration has one legal value, 2; a cast can give any other.
abbrev pub strict : ℕ
strict = 2

removed_legacy : List Piece → Exception
removed_legacy what = invalid_argument_of (
    lit "canonicalization version " ∷ what
    ++ lit
        " was removed: this build cannot reproduce its keys, so every lookup against a legacy-keyed artefact would miss. Rebuild the artefact with the strict (canon=2) form, or read it with a build from before the removal."
      ∷ [])

pub canon_version_from_u32 : ℕ → Result ℕ
unfolding removed_legacy
canon_version_from_u32 v =
    if v == 2
    then ok strict
    else if v == 1
    then err (removed_legacy (lit "1 (legacy)" ∷ []))
    else err (
        invalid_argument_of (
          lit "unknown canonicalization version "
          ∷ num v
          ∷ lit " (this build understands 2=strict)"
          ∷ []))

pub canonicalize_hero_and_board_v : ℕ → ℕ → ℕ → Result HeroBoardMask
canonicalize_hero_and_board_v hero_mask board_mask version =
    if version == strict
    then ok (canonicalize_hero_and_board_strict hero_mask board_mask)
    else err (
        invalid_argument_of (
          lit "canonicalize_hero_and_board_v: unknown canonicalization version "
          ∷ num version
          ∷ []))

pub canonicalize_hero_and_board_cards : List Card → List Card → Result (List Card × List Card)
canonicalize_hero_and_board_cards hero_hand board = do
  hero_mask ← cards_to_mask hero_hand
  board_mask ← cards_to_mask board
  let canon = canonicalize_hero_and_board hero_mask board_mask
  ok (mask_to_cards canon.hero_mask, mask_to_cards canon.board_mask)

pub canonicalize_board_cards : List Card → Result (List Card)
canonicalize_board_cards board = do
  board_mask ← cards_to_mask board
  ok (mask_to_cards (canonicalize_board board_mask))

-- the notation of two cards
hand_text : Card → Card → Text
hand_text c1 c2 =
    let swapped = ltb (rank c1) (rank c2) in
    let hi = if swapped then c2 else c1 in
    let lo = if swapped then c1 else c2 in
    let both = rank_to_char (rank hi) ∷ rank_to_char (rank lo) ∷ [] in
    if rank hi == rank lo then both else both ++ (if suit hi == suit lo then b's' else b'o') ∷ []

unfoldable pub canonicalize_hand : List Card → Result Text
unfolding hand_text
canonicalize_hand (c1 ∷ c2 ∷ []) = ok (hand_text c1 c2)
canonicalize_hand _ = err (invalid_argument "canonicalize_hand expects exactly 2 cards")

unfoldable pub canonicalize_hand_mask : ℕ → Result Text
canonicalize_hand_mask hero_mask = canonicalize_hand (mask_to_cards hero_mask)

unfoldable pub pack_hero_board : ℕ → ℕ → ℕ
pack_hero_board hero_mask board_mask =
    let combined = bit_or hero_mask board_mask in
    let lo = ctz64 hero_mask in
    let hi = 63 - clz64 hero_mask in
    bit_or (bit_or combined (lo * 2 ^ 52 % 2 ^ 64)) (hi * 2 ^ 58 % 2 ^ 64)

unfoldable pub unpack_hero_board : ℕ → HeroBoardMask
unpack_hero_board packed =
    let combined = bit_and packed (2 ^ 52 - 1) in
    let lo = bit_and (packed / 2 ^ 52) 0x3F in
    let hi = bit_and (packed / 2 ^ 58) 0x3F in
    let hero_mask = bit_or (2 ^ lo) (2 ^ hi) in
    record { hero_mask = hero_mask; board_mask = bit_xor combined hero_mask }
