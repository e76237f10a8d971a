-- ===== src/Equity/Agreement.antt =====
-- The two simulators of src/core/equity_hands.cpp on two Hold'em hands: simulate_heads_up counts what
-- simulate_multiway counts.
use xia_pl.Base.{
  ℕ, ◌<◌, bit_or, ◌≡◌, refl, ap, ◌∙◌, false, ◌==◌, ltb, if◌then◌else◌, List, [], ◌∷◌, arith,
  Bool-cases, inl, inr,
}
use xia_pl.Base.Errors.{ok}
use xia_pl.Base.Words.{countr_zero}
use xia_pl.Mask.{ctz64, popcount64}
use xia_pl.Evaluator.{eval_score7}
use xia_pl.Evaluator.Positive.{eval_score7_pos}
use xia_pl.Judge.{
  judge_holdem_mask, score_players_holdem, winner_mask_from_scores, best_score, collect_winners,
  mask_to_indices,
}
use xia_pl.Weights.{Weights}
use xia_pl.Equity.{Shares}
use xia_pl.Equity.Trials.{
  Counters, HuCounters, new_counters, add_shares, count_winners, run_trial, run_trials, new_hu,
  hu_trial, hu_trials, add_u64,
}

two_winners :
    (s t : ℕ)
    → 0 < s
    → 0 < t
    → winner_mask_from_scores (s ∷ t ∷ []) ≡ (if ltb t s then 1 else if s == t then 3 else 2)
unfolding winner_mask_from_scores best_score collect_winners
two_winners s t p q = ground arith

judge_two :
    (h v b : ℕ)
    → judge_holdem_mask (h ∷ v ∷ []) b
      ≡ ok (
          if ltb (eval_score7 (bit_or b v)) (eval_score7 (bit_or b h))
          then 1
          else if eval_score7 (bit_or b h) == eval_score7 (bit_or b v)
          then 3
          else 2)
unfolding judge_holdem_mask score_players_holdem
judge_two h v b = ap ok (
    two_winners (eval_score7 (bit_or b h)) (eval_score7 (bit_or b v)) (eval_score7_pos (bit_or b h))
      (eval_score7_pos (bit_or b v)))

module _ {W : Type 0} ⦃w : Weights W⦄ ⦃s : Shares W⦄ where
  -- Shares are no wins, no chops and no trials.
  pub add_shares-counts :
      (share : W) (is : List ℕ) (c : Counters W)
      → ((add_shares share is c).win_counts ≡ c.win_counts)
        × ((add_shares share is c).chop_count ≡ c.chop_count)
        × ((add_shares share is c).trials ≡ c.trials)
  unfolding add_shares
  add_shares-counts share [] c = (refl, refl, refl)
  add_shares-counts share (i ∷ is) c = add_shares-counts share is _

  -- The counters of the two simulators after the same boards.
  pub record Agree (c : Counters W) (d : HuCounters) : Type 0 where
    pub vill_wins : ℕ
    pub wins : c.win_counts ≡ d.hero_wins ∷ vill_wins ∷ []
    pub chops : c.chop_count ≡ d.chops
    pub trials : c.trials ≡ d.trials

  trial-Agree :
      (h v b : ℕ) (c : Counters W) (d : HuCounters)
      → Agree c d
      → (c' : Counters W) × (run_trial false (h ∷ v ∷ []) c b ≡ ok c') × Agree c' (hu_trial h v d b)
  unfolding run_trial hu_trial count_winners ctz64 countr_zero
  trial-Agree h v b c d a =
      let x : ℕ = eval_score7 (bit_or b h) in
      let y : ℕ = eval_score7 (bit_or b v) in
      elim (Bool-cases (ltb y x)) [
        | inl p ↦
            rw (judge_two h v b, p)
              (
                _,
                refl,
                record {
                  vill_wins = a.vill_wins;
                  wins = rw a.wins refl;
                  chops = a.chops;
                  trials = ap (λ z. add_u64 z 1) a.trials;
                },
              )
        | inr p ↦ elim (Bool-cases (x == y)) [
          | inl q ↦
              let keep =
                add_shares-counts (s.divide w.unit (s.of_count (popcount64 3))) (mask_to_indices 3)
                  c in
              rw (judge_two h v b, p, q)
                (
                  _,
                  refl,
                  record {
                    vill_wins = a.vill_wins;
                    wins = keep.0 ∙ a.wins;
                    chops = ap (λ z. add_u64 z 1) (keep.1 ∙ a.chops);
                    trials = ap (λ z. add_u64 z 1) (keep.2 ∙ a.trials);
                  },
                )
          | inr q ↦
              rw (judge_two h v b, p, q)
                (
                  _,
                  refl,
                  record {
                    vill_wins = add_u64 a.vill_wins 1;
                    wins = rw a.wins refl;
                    chops = a.chops;
                    trials = ap (λ z. add_u64 z 1) a.trials;
                  },
                )
        ]
      ]

  pub trials-Agree :
      (h v : ℕ) (bs : List ℕ) (c : Counters W) (d : HuCounters)
      → Agree c d
      → (c' : Counters W) × (run_trials false (h ∷ v ∷ []) c bs ≡ ok c')
        × Agree c' (hu_trials h v d bs)
  unfolding run_trials hu_trials
  trials-Agree h v [] c d a = (c, refl, a)
  trials-Agree h v (b ∷ bs) c d a =
      let (c1, e, a1) = trial-Agree h v b c d a in
      let (c2, f, a2) = trials-Agree h v bs c1 (hu_trial h v d b) a1 in (c2, rw e f, a2)

  pub new-Agree : Agree (new_counters 2) new_hu
  new-Agree = record { vill_wins = 0; wins = refl; chops = refl; trials = refl }
