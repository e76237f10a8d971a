-- ===== src/Evaluator/Category.antt =====
-- The category of the score against the usual order of poker hands. The evaluator tests the flush
-- before four of a kind and the full house, and the straight before them too.
use xia_pl.Base.{
  ℕ, ◌+◌, ◌-◌, ◌/◌, ◌^◌, ◌≤◌, ◌<◌, bit_and, bit_or, ◌≡◌, ◌≢◌, refl, ap, ◌∙◌, true, ◌&&◌, ◌||◌, ◌!=◌,
  leb, if◌then◌else◌, arith,
}
use xia_pl.Base.Bits.{test_bit, test_bit-bit_and, test_bit-bit_or, lt_of_test_bit, test_bit_above}
use xia_pl.Base.Words.{popcount, popcount-zero, popcount-eq-zero, bit_and-le}
use xia_pl.Mask.{popcount64}
use xia_pl.Evaluator.{
  lane, shl32, not32, score_top_rank, straight_high, flush_mask, multiplicities, score_flush,
  score_quads, score_trips, score_pairs, score_ranks, eval_score7,
}
use xia_pl.Evaluator.Straight.{straight_high-le, straight_needs_five}
use xia_pl.Evaluator.Lanes.{
  lane-lt, popcount_wide, popcount-lanes, popcount_clear, category-bit_or, category-score_take_top,
  score_top_rank_lem, score_top_rank-le,
}
use xia_pl.Evaluator.Multiplicity.{
  ranks_with, ranks_with-popcount, ranks_with_mono, popcount-le-ranks_with,
  multiplicities-ranks_with,
}
use xia_pl.HandValue.{
  high_card, one_pair, two_pair, three_of_a_kind, straight, flush, full_house, four_of_a_kind,
  straight_flush,
}

-- The first category in the usual order that the cards make: `n k` ranks are held in at least `k`
-- suits, `all` holds the ranks at hand.
unfoldable pub poker_category : ℕ → ℕ
poker_category mask =
    let s0 = lane mask 0 in
    let s1 = lane mask 1 in
    let s2 = lane mask 2 in
    let s3 = lane mask 3 in
    let n = λ (k : ℕ). ranks_with 13 k s0 s1 s2 s3 in
    let all = bit_or (bit_or (bit_or s0 s1) s2) s3 in
    let is_straight = λ (m : ℕ). straight_high m != 0 in
    let is_flush = λ (m : ℕ). leb 5 (popcount 13 m) in
    if is_straight s0 || is_straight s1 || is_straight s2 || is_straight s3
    then straight_flush
    else if leb 1 (n 4)
    then four_of_a_kind
    else if leb 1 (n 3) && leb 2 (n 2)
    then full_house
    else if is_flush s0 || is_flush s1 || is_flush s2 || is_flush s3
    then flush
    else if is_straight all
    then straight
    else if leb 1 (n 3)
    then three_of_a_kind
    else if leb 2 (n 2)
    then two_pair
    else if leb 1 (n 2)
    then one_pair
    else high_card

bit_or-lt : (a b : ℕ) → a < 2 ^ 13 → b < 2 ^ 13 → bit_or a b < 2 ^ 13
bit_or-lt a b h k =
    lt_of_test_bit 13 _ (λ i l.
      ground (arith, test_bit-bit_or a b i, test_bit_above 13 a i h, test_bit_above 13 b i k))

bit_and-lt : (a b : ℕ) → a < 2 ^ 13 → bit_and a b < 2 ^ 13
bit_and-lt a b h = omega (arith, bit_and-le a b)

-- Something is left without one rank when there are two.
clear_ne_zero :
    (m b : ℕ)
    → m < 2 ^ 13
    → b < 13
    → test_bit m b ≡ true
    → (bit_and m (not32 (shl32 1 b)) != 0) ≡ leb 2 (popcount 13 m)
clear_ne_zero m b h lt set = ground (
  arith,
  popcount_clear m b h lt set,
  popcount-eq-zero 13 (bit_and m (not32 (shl32 1 b))) (bit_and-lt m _ h),
  ap (popcount 13) {x = bit_and m (not32 (shl32 1 b))} {y = 0},
  popcount-zero 13,
)

-- The masks stay within 13 bits, and each lies within the one before it.
multiplicities_lt :
    (s0 s1 s2 s3 : ℕ)
    → s0 < 2 ^ 13
    → s1 < 2 ^ 13
    → s2 < 2 ^ 13
    → s3 < 2 ^ 13
    → let m = multiplicities s0 s1 s2 s3 in
      (m.c1 < 2 ^ 13) × (m.c2 < 2 ^ 13) × (m.c3 < 2 ^ 13) × (m.c4 < 2 ^ 13)
unfolding multiplicities
multiplicities_lt s0 s1 s2 s3 h0 h1 h2 h3 = (
  bit_or-lt _ s3 (bit_or-lt _ s2 (bit_or-lt s0 s1 h0 h1) h2) h3,
  bit_or-lt _ _ (bit_or-lt _ _ (bit_and-lt s0 s1 h0) (bit_and-lt _ s2 (bit_or-lt s0 s1 h0 h1)))
      (bit_and-lt _ s3 (bit_or-lt _ s2 (bit_or-lt s0 s1 h0 h1) h2)),
  bit_or-lt _ _ (bit_and-lt _ s2 (bit_and-lt s0 s1 h0)) (
      bit_and-lt _ s3
        (bit_or-lt _ _ (bit_and-lt s0 s1 h0) (bit_and-lt _ s2 (bit_or-lt s0 s1 h0 h1)))),
  bit_and-lt _ s3 (bit_and-lt _ s2 (bit_and-lt s0 s1 h0)),
)

c3-within-c2 :
    (s0 s1 s2 s3 i : ℕ)
    → let m = multiplicities s0 s1 s2 s3 in test_bit m.c3 i ≡ true → test_bit m.c2 i ≡ true
unfolding multiplicities
c3-within-c2 s0 s1 s2 s3 i = simp (test_bit-bit_and, test_bit-bit_or) (ground arith)

category_flush :
    (fm : ℕ)
    → fm < 2 ^ 13
    → score_flush fm / 2 ^ 20 ≡ (if straight_high fm != 0 then straight_flush else flush)
unfolding score_flush
category_flush fm h = ground (
  arith,
  straight_high-le fm h,
  category-bit_or (shl32 straight_flush 20) (shl32 (straight_high fm) 16),
  category-score_take_top 5 fm (shl32 flush 20) 4 h,
)

category_quads :
    (c1 c4 : ℕ) → c1 < 2 ^ 13 → c4 < 2 ^ 13 → c4 ≢ 0 → score_quads c1 c4 / 2 ^ 20 ≡ four_of_a_kind
unfolding score_quads
category_quads c1 c4 h k ne =
    category-score_take_top 1 (bit_and c1 (not32 c4)) _ 3 (omega (arith, bit_and-le c1 (not32 c4)))
      (omega arith)
    ∙ category-bit_or (shl32 four_of_a_kind 20) (shl32 (score_top_rank c4) 16)
        (omega (arith, score_top_rank_lem c4 k ne))

category_trips :
    (c1 c2 c3 : ℕ)
    → c1 < 2 ^ 13
    → c2 < 2 ^ 13
    → c3 < 2 ^ 13
    → c3 ≢ 0
    → ((i : ℕ) → test_bit c3 i ≡ true → test_bit c2 i ≡ true)
    → score_trips c1 c2 c3 / 2 ^ 20
      ≡ (if leb 2 (popcount 13 c2) then full_house else three_of_a_kind)
unfolding score_trips
category_trips c1 c2 c3 h1 h2 h3 ne sub =
    let top = score_top_rank_lem c3 h3 ne in
    let two = clear_ne_zero c2 (score_top_rank c3 - 2) h2 (omega arith) (sub _ top.2) in
    rw two (
      ground (
        arith,
        category-bit_or (bit_or (shl32 full_house 20) (shl32 (score_top_rank c3) 16))
            (shl32 (score_top_rank (bit_and c2 (not32 (shl32 1 (score_top_rank c3 - 2))))) 12),
        category-bit_or (shl32 full_house 20) (shl32 (score_top_rank c3) 16),
        category-bit_or (shl32 three_of_a_kind 20) (shl32 (score_top_rank c3) 16),
        score_top_rank-le (bit_and c2 (not32 (shl32 1 (score_top_rank c3 - 2))))
            (bit_and-lt c2 _ h2),
        category-score_take_top 2 (bit_and c1 (not32 (shl32 1 (score_top_rank c3 - 2))))
            (bit_or (shl32 three_of_a_kind 20) (shl32 (score_top_rank c3) 16)) 3
            (bit_and-lt c1 _ h1),
      ))

category_pairs :
    (c1 c2 : ℕ)
    → c1 < 2 ^ 13
    → c2 < 2 ^ 13
    → c2 ≢ 0
    → score_pairs c1 c2 / 2 ^ 20 ≡ (if leb 2 (popcount 13 c2) then two_pair else one_pair)
unfolding score_pairs
category_pairs c1 c2 h1 h2 ne =
    let top = score_top_rank_lem c2 h2 ne in
    let b = score_top_rank c2 - 2 in
    let c2b = bit_and c2 (not32 (shl32 1 (score_top_rank c2 - 2))) in
    let rest = bit_and c1 (not32 (shl32 1 (score_top_rank c2 - 2))) in
    let two = clear_ne_zero c2 (score_top_rank c2 - 2) h2 (omega arith) top.2 in
    rw two (
      ground (
        arith,
        category-bit_or (bit_or (shl32 two_pair 20) (shl32 (score_top_rank c2) 16))
            (shl32 (score_top_rank c2b) 12),
        category-bit_or (shl32 two_pair 20) (shl32 (score_top_rank c2) 16),
        category-bit_or (shl32 one_pair 20) (shl32 (score_top_rank c2) 16),
        score_top_rank-le c2b (bit_and-lt c2 _ h2),
        category-score_take_top 1 (bit_and rest (not32 (shl32 1 (score_top_rank c2b - 2))))
            (bit_or (bit_or (shl32 two_pair 20) (shl32 (score_top_rank c2) 16))
              (shl32 (score_top_rank c2b) 12))
            2 (bit_and-lt rest _ (bit_and-lt c1 _ h1)),
        category-score_take_top 3 rest (bit_or (shl32 one_pair 20) (shl32 (score_top_rank c2) 16)) 3
            (bit_and-lt c1 _ h1),
      ))

ne_zero : (m : ℕ) → m < 2 ^ 13 → (m != 0) ≡ leb 1 (popcount 13 m)
ne_zero m h =
    ground (arith, popcount-eq-zero 13 m h, ap (popcount 13) {x = m} {y = 0}, popcount-zero 13)

category_ranks :
    (s0 s1 s2 s3 : ℕ)
    → s0 < 2 ^ 13
    → s1 < 2 ^ 13
    → s2 < 2 ^ 13
    → s3 < 2 ^ 13
    → let m = multiplicities s0 s1 s2 s3 in
      score_ranks m / 2 ^ 20 ≡ (
        if straight_high m.c1 != 0
        then straight
        else if leb 1 (popcount 13 m.c4)
        then four_of_a_kind
        else if leb 1 (popcount 13 m.c3)
        then (if leb 2 (popcount 13 m.c2) then full_house else three_of_a_kind)
        else if leb 1 (popcount 13 m.c2)
        then (if leb 2 (popcount 13 m.c2) then two_pair else one_pair)
        else high_card)
unfolding score_ranks
category_ranks s0 s1 s2 s3 h0 h1 h2 h3 =
    let m = multiplicities s0 s1 s2 s3 in
    let lt = multiplicities_lt s0 s1 s2 s3 h0 h1 h2 h3 in
    ground (
      arith,
      straight_high-le m.c1 lt.0,
      category-bit_or (shl32 straight 20) (shl32 (straight_high m.c1) 16),
      ne_zero m.c4 lt.3,
      ne_zero m.c3 lt.2,
      ne_zero m.c2 lt.1,
      category_quads m.c1 m.c4 lt.0 lt.3,
      category_trips m.c1 m.c2 m.c3 lt.0 lt.1 lt.2,
      c3-within-c2 s0 s1 s2 s3,
      category_pairs m.c1 m.c2 lt.0 lt.1,
      category-score_take_top 5 m.c1 (shl32 high_card 20) 4 lt.0,
    )

union : (s0 s1 s2 s3 : ℕ) → (multiplicities s0 s1 s2 s3).c1 ≡ bit_or (bit_or (bit_or s0 s1) s2) s3
unfolding multiplicities
union s0 s1 s2 s3 = refl

module _ (mask : ℕ) (few : popcount 52 mask ≤ 7) where
  abbrev s0 : ℕ
  s0 = lane mask 0

  abbrev s1 : ℕ
  s1 = lane mask 1

  abbrev s2 : ℕ
  s2 = lane mask 2

  abbrev s3 : ℕ
  s3 = lane mask 3

  abbrev all : ℕ
  all = bit_or (bit_or (bit_or s0 s1) s2) s3

  abbrev n : ℕ → ℕ
  n k = ranks_with 13 k s0 s1 s2 s3

  -- The counts of ranks are bounded by the seven cards, and a straight or a flush takes five.
  record Counts : Type 0 where
    total : n 1 + n 2 + n 3 + n 4 ≤ 7
    three : n 4 ≤ n 3
    two : n 3 ≤ n 2
    spread : popcount 13 s0 + popcount 13 s1 + popcount 13 s2 + popcount 13 s3 ≤ 7
    first : popcount 13 s0 ≤ n 1
    second : popcount 13 s1 ≤ n 1
    third : popcount 13 s2 ≤ n 1
    fourth : popcount 13 s3 ≤ n 1
    run0 : straight_high s0 ≢ 0 → 5 ≤ popcount 13 s0
    run1 : straight_high s1 ≢ 0 → 5 ≤ popcount 13 s1
    run2 : straight_high s2 ≢ 0 → 5 ≤ popcount 13 s2
    run3 : straight_high s3 ≢ 0 → 5 ≤ popcount 13 s3
    run : straight_high all ≢ 0 → 5 ≤ n 1

  counts : Counts
  counts = record {
    total = omega (arith, ranks_with-popcount 13 s0 s1 s2 s3, popcount-lanes mask);
    three = ranks_with_mono 13 3 s0 s1 s2 s3;
    two = ranks_with_mono 13 2 s0 s1 s2 s3;
    spread = omega (arith, popcount-lanes mask);
    first = (popcount-le-ranks_with 13 s0 s1 s2 s3).0;
    second = (popcount-le-ranks_with 13 s0 s1 s2 s3).1;
    third = (popcount-le-ranks_with 13 s0 s1 s2 s3).2;
    fourth = (popcount-le-ranks_with 13 s0 s1 s2 s3).3;
    run0 = straight_needs_five s0 (lane-lt mask 0);
    run1 = straight_needs_five s1 (lane-lt mask 1);
    run2 = straight_needs_five s2 (lane-lt mask 2);
    run3 = straight_needs_five s3 (lane-lt mask 3);
    run = λ ne. omega (
      arith,
      straight_needs_five all
          (bit_or-lt _ s3
            (bit_or-lt _ s2 (bit_or-lt s0 s1 (lane-lt mask 0) (lane-lt mask 1)) (lane-lt mask 2))
            (lane-lt mask 3))
          ne,
      ap (popcount 13) (union s0 s1 s2 s3),
      multiplicities-ranks_with 13 s0 s1 s2 s3,
    );
  }

  wide : (s : ℕ) → popcount64 (lane mask s) ≡ popcount 13 (lane mask s)
  unfolding popcount64
  wide s = popcount_wide 64 13 (lane mask s) (omega arith) (lane-lt mask s)

  popcount_pos : (m : ℕ) → 5 ≤ popcount 13 m → m ≢ 0
  popcount_pos m h e = omega (arith, ap (popcount 13) e, popcount-zero 13)

  -- Up to seven cards get the category that comes first in the usual order, although the evaluator
  -- asks for them in another.
  pub category-eval_score7 : eval_score7 mask / 2 ^ 20 ≡ poker_category mask
  unfolding eval_score7 poker_category flush_mask
  category-eval_score7 =
      let c = counts in
      let m = multiplicities s0 s1 s2 s3 in
      ground (
        arith,
        c.total,
        c.three,
        c.two,
        c.spread,
        c.first,
        c.second,
        c.third,
        c.fourth,
        c.run0,
        c.run1,
        c.run2,
        c.run3,
        c.run,
        wide 0,
        wide 1,
        wide 2,
        wide 3,
        category_flush s0 (lane-lt mask 0),
        category_flush s1 (lane-lt mask 1),
        category_flush s2 (lane-lt mask 2),
        category_flush s3 (lane-lt mask 3),
        popcount_pos s0,
        popcount_pos s1,
        popcount_pos s2,
        popcount_pos s3,
        union s0 s1 s2 s3,
        multiplicities-ranks_with 13 s0 s1 s2 s3,
        category_ranks s0 s1 s2 s3 (lane-lt mask 0) (lane-lt mask 1) (lane-lt mask 2)
            (lane-lt mask 3),
      )
