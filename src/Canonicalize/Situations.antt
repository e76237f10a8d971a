-- ===== src/Canonicalize/Situations.antt =====
-- generate_canonical_situations of src/core/canonicalize.cpp. A thread writes only to its own set, so
-- the sets are what each thread makes of its pairs. `hardware` is what
-- std::thread::hardware_concurrency gives. A result `none` stands for fuel that does not last or for a set
-- that is full.
pub mod Threads
use xia_pl.Base.{
  ℕ, zero, suc, ◌+◌, ◌-◌, ◌/◌, ◌%◌, ◌^◌, bit_or, Bool, ◌||◌, ◌==◌, ◌!=◌, ltb, if◌then◌else◌, Option,
  none, some, List, [], ◌∷◌, ◌++◌, map, length, get_or, up_from, flat_map, take, min,
}
use xia_pl.Base.Int.{ℤ, pos, pos_part, ltb_ℤ}
use xia_pl.Base.Errors.{
  Result, ok, err, invalid_argument, invalid_argument_of, lit, num, throw_if, ◌>>=◌, ◌>>◌,
}
use xia_pl.Mask.{next_combination}
use xia_pl.Canonicalize.{
  HeroBoardMask, strict, canon_version_from_u32, canonicalize_hero_and_board_strict,
  pack_hero_board, unpack_hero_board,
}
use xia_pl.Canonicalize.FlatSet.{FlatU64Set, new_set, insert, insert_all, for_each}

pub record HeroPair : Type 0 where
  pub lo : ℕ
  pub hi : ℕ

-- the loop that fills `remaining_ids`
unfoldable pub remaining_ids : ℕ → ℕ → List ℕ → List ℕ
remaining_ids lo hi [] = []
remaining_ids lo hi (id ∷ ids) =
    let rest = remaining_ids lo hi ids in if id == lo || id == hi then rest else id ∷ rest

-- the loop over `i` that puts the board together
unfoldable pub board_of : List ℕ → List ℕ → ℕ → ℕ
board_of ids [] board_mask = board_mask
board_of ids (i ∷ idx) board_mask = board_of ids idx (bit_or board_mask (2 ^ get_or ids i 0))

-- the key of one board
unfoldable pub situation_key : ℕ → ℕ → ℕ
situation_key hero_mask board_mask =
    let canon = canonicalize_hero_and_board_strict hero_mask board_mask in
    pack_hero_board canon.hero_mask canon.board_mask

-- the do-while loop
unfoldable pub run_boards : ℕ → ℕ → List ℕ → List ℕ → FlatU64Set → Option FlatU64Set
run_boards zero hero_mask ids idx out_set = none
run_boards (suc fuel) hero_mask ids idx out_set =
    elim (insert out_set (situation_key hero_mask (board_of ids idx 0))) [
      | none ↦ none
      | some out_set' ↦ elim (next_combination idx (length ids)) [
        | none ↦ some out_set'
        | some idx' ↦ run_boards fuel hero_mask ids idx' out_set'
      ]
    ]

unfoldable pub enumerate_hero_pair : ℕ → HeroPair → ℕ → ℕ → FlatU64Set → Result (Option FlatU64Set)
enumerate_hero_pair fuel pair board_size version out_set =
    if version == strict
    then ok (
        run_boards fuel (bit_or (2 ^ pair.lo) (2 ^ pair.hi))
          (remaining_ids pair.lo pair.hi (up_from 52 0)) (up_from board_size 0) out_set)
    else err (
        invalid_argument_of (
          lit "generate_canonical_situations: unknown canonicalization version "
          ∷ num version
          ∷ []))

-- the lambda `worker` on the pairs of its range
unfoldable pub worker : ℕ → ℕ → ℕ → List HeroPair → FlatU64Set → Result (Option FlatU64Set)
worker fuel board_size version [] s = ok (some s)
worker fuel board_size version (p ∷ ps) s = enumerate_hero_pair fuel p board_size version s >>= λ o.
    elim o [ none ↦ ok none | some s' ↦ worker fuel board_size version ps s' ]

unfoldable pub hero_pairs : List HeroPair
hero_pairs =
    flat_map (λ i. map (λ j. record { lo = i; hi = j }) (up_from (51 - i) (i + 1))) (up_from 52 0)

unfoldable pub thread_count : ℕ → ℕ
thread_count hardware = let hw = if hardware == 0 then 1 else hardware in min hw 4

-- the elements from `begin` on
unfoldable pub skip {ℓ} : {A : Type ℓ} → ℕ → List A → List A
skip zero xs = xs
skip (suc n) [] = []
skip (suc n) (x ∷ xs) = skip n xs

-- The loop that starts the threads, with `left` of them to go: the ranges of pairs from `begin` on.
unfoldable pub ranges_from {ℓ} : {A : Type ℓ} → ℕ → ℕ → ℕ → ℕ → ℕ → List A → List (List A)
ranges_from zero base excess t begin pairs = []
ranges_from (suc left) base excess t begin pairs =
    let share = base + (if ltb t excess then 1 else 0) in
    take share (skip begin pairs) ∷ ranges_from left base excess (t + 1) (begin + share) pairs

-- the range of each thread
unfoldable pub ranges {ℓ} : {A : Type ℓ} → ℕ → List A → List (List A)
ranges n_threads pairs =
    if n_threads == 1
    then pairs ∷ []
    else ranges_from n_threads (length pairs / n_threads) (length pairs % n_threads) 0 0 pairs

-- what the threads leave in their sets
unfoldable pub local_sets : ℕ → ℕ → ℕ → ℕ → List (List HeroPair) → Result (Option (List FlatU64Set))
local_sets fuel board_size version reserve [] = ok (some [])
local_sets fuel board_size version reserve (r ∷ rs) = elim (new_set reserve) [
  | none ↦ ok none
  | some empty ↦ worker fuel board_size version r empty >>= λ o.
      local_sets fuel board_size version reserve rs >>= λ os. elim o [
        | none ↦ ok none
        | some s ↦ elim os [ none ↦ ok none | some ss ↦ ok (some (s ∷ ss)) ]
      ]
]

-- the merge into `unique_set`
unfoldable pub merge_sets : List FlatU64Set → FlatU64Set → Option FlatU64Set
merge_sets [] unique_set = some unique_set
merge_sets (s ∷ ss) unique_set = elim (insert_all unique_set (for_each s)) [
  | none ↦ none
  | some u ↦ merge_sets ss u
]

unfoldable pub final_reserve : ℕ → ℕ
final_reserve board_size =
    if board_size == 3 then 1350000 else if board_size == 4 then 14500000 else 130000000

-- the merged set and what it is unpacked to
unfoldable pub unpack_all : Option FlatU64Set → Option (List HeroBoardMask)
unpack_all none = none
unpack_all (some unique_set) = some (map unpack_hero_board (for_each unique_set))

unfoldable pub generate_canonical_situations : ℕ → ℕ → ℤ → ℕ → Result (Option (List HeroBoardMask))
generate_canonical_situations fuel hardware board_size version = do
  throw_if (ltb_ℤ board_size (pos 3) || ltb_ℤ (pos 5) board_size) (
      invalid_argument
        "generate_canonical_situations: board_size must be 3 (flop), 4 (turn), or 5 (river)")
  _ ← canon_version_from_u32 version
  let size = pos_part board_size
  let reserve = final_reserve size
  sets ← local_sets fuel size version reserve (ranges (thread_count hardware) hero_pairs)
  ok (elim sets [
    | none ↦ none
    | some ss ↦ elim (new_set reserve) [ none ↦ none | some u ↦ unpack_all (merge_sets ss u) ]
  ])
