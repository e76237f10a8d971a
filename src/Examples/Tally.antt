-- ===== src/Examples/Tally.antt =====
-- A chunk of two trials that draw the last card.
use xia_pl.Base.{ℕ, ◌+◌, ◌^◌, refl, false, [], ◌∷◌}
use xia_pl.Base.Words.{popcount, countl_zero, bit_width, countr_zero}
use xia_pl.Mask.{popcount64, clz32, ctz64}
use xia_pl.Rng.{FastRng, bounded, next, reject, rotl, threshold}
use xia_pl.Evaluator.{
  eval_score7, flush_mask, lane, score_ranks, straight_high, multiplicities, score_pairs,
  score_top_rank, score_quads, score_trips, score_flush, score_take_top,
}
use xia_pl.Judge.{
  judge_holdem_mask, score_players_holdem, winner_mask_from_scores, best_score, collect_winners,
}
use xia_pl.BoardSample.{sample_boards, draw_board}
use xia_pl.Equity.Trials.{Counters, run_chunk, run_trials, run_trial, count_winners, add_shares}
use xia_pl.Equity.Tally.{Tallied, run_chunk-Tallied}
use xia_pl.Examples.Equity.{counts, whole_shares, aces, kings}

abbrev turn : ℕ
turn = 2 ^ 0 + 2 ^ 15 + 2 ^ 30 + 2 ^ 46

abbrev some_rng : FastRng
some_rng = record { state0 = 1; state1 = 2; state2 = 3; state3 = 4 }

abbrev two_wins : Counters ℕ
two_wins = record {
  win_counts = 2 ∷ 0 ∷ [];
  equity_sum = 2 ∷ 0 ∷ [];
  equity_sum_sq = 2 ∷ 0 ∷ [];
  chop_count = 0;
  trials = 2;
}

run_chunk-Tallied_example : Tallied 2 two_wins
unfolding bounded next reject rotl threshold run_chunk sample_boards draw_board run_trials run_trial
    count_winners add_shares judge_holdem_mask score_players_holdem winner_mask_from_scores
    best_score collect_winners eval_score7 flush_mask popcount64 popcount lane score_ranks
    straight_high multiplicities score_pairs score_top_rank score_quads score_trips score_flush
    clz32 countl_zero bit_width score_take_top ctz64 countr_zero
run_chunk-Tallied_example =
    run_chunk-Tallied 8 false (aces ∷ kings ∷ []) (20 ∷ 21 ∷ 22 ∷ 23 ∷ []) 1 turn 2 some_rng
      two_wins refl
