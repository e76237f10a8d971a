-- ===== src/Evaluator.antt =====
-- src/core/eval_core.h: the score of a 5 to 7 card mask. The straight table is the function that
-- fills it, since `kStraightHigh[m]` is read at 13-bit masks only. An `int` here is never negative
-- where it is read.
pub mod Straight
pub mod Lanes
pub mod Multiplicity
pub mod Category
pub mod Decode
pub mod Positive
use xia_pl.Base.{
  ℕ, zero, suc, ◌+◌, ◌-◌, ◌*◌, ◌/◌, ◌%◌, ◌^◌, bit_and, bit_or, Bool, ◌==◌, ◌!=◌, leb, if◌then◌else◌,
  List, [], ◌∷◌,
}
use xia_pl.Mask.{popcount64, clz32}
use xia_pl.HandValue.{
  HandValue, high_card, one_pair, two_pair, three_of_a_kind, straight, flush, full_house,
  four_of_a_kind, straight_flush,
}

-- The loop over `h` from `left + 3` down to 4; `hi` is 0 when no run of five is found.
straight_run : ℕ → ℕ → ℕ
straight_run zero m = 0
straight_run (suc left) m =
    let rest = straight_run left m in
    let h = left + 4 in let p = 0x1F * 2 ^ (h - 4) in if bit_and m p == p then h + 2 else rest

abbrev wheel : ℕ
wheel = bit_or (1 * 2 ^ 12) 0x0F

-- one entry of make_straight_lut
unfoldable pub straight_high : ℕ → ℕ
unfolding straight_run
straight_high m =
    let hi = straight_run 9 m in
    if hi == 0 then (if bit_and m wheel == wheel then 5 else hi) else hi

-- x << k on 32 bits, and ~x
abbrev pub shl32 : ℕ → ℕ → ℕ
shl32 x k = x * 2 ^ k % 2 ^ 32

abbrev pub not32 : ℕ → ℕ
not32 x = 2 ^ 32 - 1 - x

unfoldable pub score_top_rank : ℕ → ℕ
score_top_rank m = 31 - clz32 m + 2

-- The loop of `score_take_top` with `n` rounds to go. `nib` is not read once it has passed 0.
unfoldable pub score_take_top : ℕ → ℕ → ℕ → ℕ → ℕ
score_take_top m zero s nib = s
score_take_top m (suc n) s nib =
    let b = 31 - clz32 m in
    let rest =
      score_take_top (bit_and m (not32 (shl32 1 b))) n (bit_or s (shl32 (b + 2) (nib * 4)))
        (nib - 1) in
    if m == 0 then s else rest

-- the lane of suit `s`
unfoldable pub lane : ℕ → ℕ → ℕ
lane mask s = bit_and (mask / 2 ^ (13 * s)) 0x1FFF

-- the lambda `make`
abbrev pub make : ℕ → ℕ
make c = shl32 c 20

-- `fm`
unfoldable pub flush_mask : ℕ → ℕ → ℕ → ℕ → ℕ
flush_mask s0 s1 s2 s3 =
    if leb 5 (popcount64 s0)
    then s0
    else if leb 5 (popcount64 s1)
    then s1
    else if leb 5 (popcount64 s2)
    then s2
    else if leb 5 (popcount64 s3)
    then s3
    else 0

-- `c1` to `c4`, as the four lanes are taken in
pub record Multiplicities : Type 0 where
  pub c1 : ℕ
  pub c2 : ℕ
  pub c3 : ℕ
  pub c4 : ℕ

unfoldable pub multiplicities : ℕ → ℕ → ℕ → ℕ → Multiplicities
multiplicities s0 s1 s2 s3 =
    let c1 = s0 in
    let c2 = bit_and c1 s1 in
    let c1 = bit_or c1 s1 in
    let c3 = bit_and c2 s2 in
    let c2 = bit_or c2 (bit_and c1 s2) in
    let c1 = bit_or c1 s2 in
    let c4 = bit_and c3 s3 in
    let c3 = bit_or c3 (bit_and c2 s3) in
    let c2 = bit_or c2 (bit_and c1 s3) in
    let c1 = bit_or c1 s3 in record { c1 = c1; c2 = c2; c3 = c3; c4 = c4 }

-- `return` of the flush branch
unfoldable pub score_flush : ℕ → ℕ
score_flush fm =
    let h = straight_high fm in
    if h != 0 then bit_or (make straight_flush) (shl32 h 16) else score_take_top fm 5 (make flush) 4

unfoldable pub score_quads : ℕ → ℕ → ℕ
score_quads c1 c4 =
    let q = score_top_rank c4 in
    score_take_top (bit_and c1 (not32 c4)) 1 (bit_or (make four_of_a_kind) (shl32 q 16)) 3

unfoldable pub score_trips : ℕ → ℕ → ℕ → ℕ
score_trips c1 c2 c3 =
    let t = score_top_rank c3 in
    let rest_pairs = bit_and c2 (not32 (shl32 1 (t - 2))) in
    if rest_pairs != 0
    then bit_or (bit_or (make full_house) (shl32 t 16)) (shl32 (score_top_rank rest_pairs) 12)
    else score_take_top (bit_and c1 (not32 (shl32 1 (t - 2)))) 2
        (bit_or (make three_of_a_kind) (shl32 t 16)) 3

unfoldable pub score_pairs : ℕ → ℕ → ℕ
score_pairs c1 c2 =
    let p1 = score_top_rank c2 in
    let c2b = bit_and c2 (not32 (shl32 1 (p1 - 2))) in
    let p2 = score_top_rank c2b in
    let rest = bit_and c1 (not32 (shl32 1 (p1 - 2))) in
    if c2b != 0
    then score_take_top (bit_and rest (not32 (shl32 1 (p2 - 2)))) 1
        (bit_or (bit_or (make two_pair) (shl32 p1 16)) (shl32 p2 12)) 2
    else score_take_top rest 3 (bit_or (make one_pair) (shl32 p1 16)) 3

-- the branches below the flush
unfoldable pub score_ranks : Multiplicities → ℕ
score_ranks m =
    let h = straight_high m.c1 in
    if h != 0
    then bit_or (make straight) (shl32 h 16)
    else if m.c4 != 0
    then score_quads m.c1 m.c4
    else if m.c3 != 0
    then score_trips m.c1 m.c2 m.c3
    else if m.c2 != 0
    then score_pairs m.c1 m.c2
    else score_take_top m.c1 5 (make high_card) 4

unfoldable pub eval_score7 : ℕ → ℕ
eval_score7 mask =
    let s0 = lane mask 0 in
    let s1 = lane mask 1 in
    let s2 = lane mask 2 in
    let s3 = lane mask 3 in
    let fm = flush_mask s0 s1 s2 s3 in
    if fm != 0 then score_flush fm else score_ranks (multiplicities s0 s1 s2 s3)

abbrev nibble : ℕ → ℕ → ℕ
nibble score i = bit_and (score / 2 ^ ((4 - i) * 4)) 0xF % 2 ^ 8

-- `count` after the rounds up to index i
count_used : ℕ → ℕ → ℕ
count_used score zero = 0
count_used score (suc i) = if nibble score i != 0 then i + 1 else count_used score i

unfoldable pub decode_score : ℕ → HandValue
unfolding count_used
decode_score score = record {
  category = score / 2 ^ 20 % 2 ^ 8;
  kickers = nibble score 0 ∷ nibble score 1 ∷ nibble score 2 ∷ nibble score 3 ∷ nibble score 4 ∷ [];
  kicker_count = count_used score 5 % 2 ^ 8;
}
