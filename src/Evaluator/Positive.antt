-- ===== src/Evaluator/Positive.antt =====
-- eval_score7 of src/core/eval_core.h gives no score of 0, which stands for a seat that cannot win.
use xia_pl.Base.{
  ℕ, zero, suc, ◌-◌, ◌<◌, bit_and, bit_or, ◌≢◌, ap, ◌==◌, ◌!=◌, arith, Bool-cases, inl, inr,
}
use xia_pl.Base.Bits.{test_bit, test_bit_ext, test_bit-bit_or, test_bit-zero}
use xia_pl.Evaluator.{
  Multiplicities, eval_score7, lane, flush_mask, multiplicities, score_flush, score_ranks,
  score_quads, score_trips, score_pairs, score_take_top, score_top_rank, straight_high, shl32,
  not32,
}

bit_or_ne_zero : (a b : ℕ) → a ≢ 0 → bit_or a b ≢ 0
bit_or_ne_zero a b ne z = ne (
    test_bit_ext a 0
      (λ i. ground (arith, test_bit-bit_or a b i, ap (λ m. test_bit m i) z, test_bit-zero i)))

score_take_top_ne_zero : (n m s nib : ℕ) → s ≢ 0 → score_take_top m n s nib ≢ 0
unfolding score_take_top
score_take_top_ne_zero zero m s nib ne = ne
score_take_top_ne_zero (suc n) m s nib ne = elim (Bool-cases (m == 0)) [
  | inl e ↦ rw e ne
  | inr e ↦ rw e (score_take_top_ne_zero n _ _ (nib - 1) (bit_or_ne_zero s _ ne))
]

score_flush_ne_zero : (fm : ℕ) → score_flush fm ≢ 0
unfolding score_flush
score_flush_ne_zero fm = elim (Bool-cases (straight_high fm != 0)) [
  | inl e ↦ rw e (bit_or_ne_zero _ _ (omega arith))
  | inr e ↦ rw e (score_take_top_ne_zero 5 fm _ 4 (omega arith))
]

score_trips_ne_zero : (c1 c2 c3 : ℕ) → score_trips c1 c2 c3 ≢ 0
unfolding score_trips
score_trips_ne_zero c1 c2 c3 =
    elim (Bool-cases (bit_and c2 (not32 (shl32 1 (score_top_rank c3 - 2))) != 0)) [
      | inl e ↦ rw e (bit_or_ne_zero _ _ (bit_or_ne_zero _ _ (omega arith)))
      | inr e ↦ rw e (score_take_top_ne_zero 2 _ _ 3 (bit_or_ne_zero _ _ (omega arith)))
    ]

score_pairs_ne_zero : (c1 c2 : ℕ) → score_pairs c1 c2 ≢ 0
unfolding score_pairs
score_pairs_ne_zero c1 c2 =
    elim (Bool-cases (bit_and c2 (not32 (shl32 1 (score_top_rank c2 - 2))) != 0)) [
      | inl e ↦
          rw e
            (score_take_top_ne_zero 1 _ _ 2 (bit_or_ne_zero _ _ (bit_or_ne_zero _ _ (omega arith))))
      | inr e ↦ rw e (score_take_top_ne_zero 3 _ _ 3 (bit_or_ne_zero _ _ (omega arith)))
    ]

score_ranks_ne_zero : (m : Multiplicities) → score_ranks m ≢ 0
unfolding score_ranks score_quads
score_ranks_ne_zero m = elim (Bool-cases (straight_high m.c1 != 0)) [
  | inl e ↦ rw e (bit_or_ne_zero _ _ (omega arith))
  | inr e ↦ elim (Bool-cases (m.c4 != 0)) [
    | inl f ↦ rw (e, f) (score_take_top_ne_zero 1 _ _ 3 (bit_or_ne_zero _ _ (omega arith)))
    | inr f ↦ elim (Bool-cases (m.c3 != 0)) [
      | inl g ↦ rw (e, f, g) (score_trips_ne_zero m.c1 m.c2 m.c3)
      | inr g ↦ elim (Bool-cases (m.c2 != 0)) [
        | inl h ↦ rw (e, f, g, h) (score_pairs_ne_zero m.c1 m.c2)
        | inr h ↦ rw (e, f, g, h) (score_take_top_ne_zero 5 m.c1 _ 4 (omega arith))
      ]
    ]
  ]
]

-- Every mask has a score above 0.
pub eval_score7_pos : (mask : ℕ) → 0 < eval_score7 mask
unfolding eval_score7
eval_score7_pos mask =
    let ranks =
      score_ranks_ne_zero
        (multiplicities (lane mask 0) (lane mask 1) (lane mask 2) (lane mask 3)) in
    let suited =
      score_flush_ne_zero (flush_mask (lane mask 0) (lane mask 1) (lane mask 2) (lane mask 3)) in
    ground (arith, ranks, suited)
