-- ===== src/Equity/Tally.antt =====
-- What the counters of simulate_multiway in src/core/equity_hands.cpp add up to.
use xia_pl.Base.{
  ℕ, zero, suc, ◌+◌, ◌-◌, ◌%◌, ◌^◌, ◌≤◌, ◌<◌, bit_and, bit_or, ◌≡◌, ◌≢◌, refl, sym, ap, subst, ◌∙◌,
  Bool, true, false, ◌==◌, ltb, if◌then◌else◌, some, List, [], ◌∷◌, map, length, get_or, set,
  replicate, length-set, length-replicate, arith, Bool-cases, Option-cases, inl, inr,
}
use xia_pl.Base.Errors.{ok, bind_ok, ok_inj}
use xia_pl.Evaluator.{eval_score7}
use xia_pl.Mask.{ctz64, popcount64, full_deck_mask}
use xia_pl.Rng.{FastRng}
use xia_pl.Judge.{
  max_seats, max_mask_players, judge_holdem_mask, judge_plo_mask, score_players_holdem,
  score_players_plo, mask_to_indices, winner_mask_from_scores, plo_score_triples, plo_board_triples,
}
use xia_pl.Judge.Winners.{ctz64-winner_mask-lt}
use xia_pl.BoardSample.{sample_boards}
use xia_pl.Weights.{Weights}
use xia_pl.Equity.{Shares}
use xia_pl.Equity.Trials.{
  Counters, add_u64, new_counters, count_winners, run_trial, run_trials, run_chunk,
}
use xia_pl.Equity.Agreement.{add_shares-counts}

unfoldable pub sum : List ℕ → ℕ
sum [] = 0
sum (x ∷ xs) = x + sum xs

sum-zeros : (n : ℕ) → sum (replicate n 0) ≡ 0
unfolding sum
sum-zeros zero = refl
sum-zeros (suc n) = omega (arith, sum-zeros n)

-- One win more, the wrap-around of a count included.
sum-set :
    (xs : List ℕ) (i : ℕ)
    → i < length xs
    → sum (set xs i (add_u64 (get_or xs i 0) 1)) % 2 ^ 64 ≡ (sum xs + 1) % 2 ^ 64
unfolding sum
sum-set [] i h = absurd (omega arith)
sum-set (x ∷ xs) zero h = omega arith
sum-set (x ∷ xs) (suc i) h = omega (arith, sum-set xs i (omega arith))

-- A mask of winners that names one of n players, or nobody.
abbrev LowestBelow : ℕ → ℕ → Type 0
LowestBelow n winners = winners ≢ 0 → ctz64 winners < n

length-map_scores : (f : ℕ → ℕ) (hs : List ℕ) → length (map f hs) ≡ length hs
length-map_scores f [] = refl
length-map_scores f (h ∷ hs) = ap suc (length-map_scores f hs)

scores_below :
    (f : ℕ → ℕ) (hs : List ℕ)
    → length hs ≤ 32
    → LowestBelow (length hs) (winner_mask_from_scores (map f hs))
scores_below f hs h n =
    let e = length-map_scores f hs in
    omega (arith, e, ctz64-winner_mask-lt (map f hs) (omega (arith, e)) n)

judge_below :
    (use_plo : Bool) (holes : List ℕ) (b winners : ℕ)
    → (if use_plo then judge_plo_mask holes b else judge_holdem_mask holes b) ≡ ok winners
    → LowestBelow (length holes) winners
unfolding judge_plo_mask judge_holdem_mask score_players_holdem score_players_plo
judge_below true [] b winners e = λ n. absurd (n (sym (ok_inj 0 winners e)))
judge_below false [] b winners e = λ n. absurd (n (sym (ok_inj 0 winners e)))
judge_below true (h ∷ hs) b winners e = elim (Bool-cases (ltb max_mask_players (length (h ∷ hs)))) [
  | inl many ↦ absurd (cc (rw many at e))
  | inr few ↦ subst (LowestBelow (length (h ∷ hs))) (ok_inj _ winners (rw few at e)) (
      scores_below
        (λ x.
          plo_score_triples (bit_and x full_deck_mask)
            (plo_board_triples (bit_and b full_deck_mask)))
        (h ∷ hs) (ground arith))
]
judge_below false (h ∷ hs) b winners e = elim (Bool-cases (ltb max_seats (length (h ∷ hs)))) [
  | inl many ↦ absurd (cc (rw many at e))
  | inr few ↦
      subst (LowestBelow (length (h ∷ hs))) (ok_inj _ winners (rw few at e))
        (scores_below (λ x. eval_score7 (bit_or b x)) (h ∷ hs) (ground arith))
]

module _ {W : Type 0} ⦃w : Weights W⦄ ⦃s : Shares W⦄ where
  -- Every trial that counts is a win of one player or a chop, in words of 64 bits.
  pub record Tallied (n : ℕ) (c : Counters W) : Type 0 where
    pub players : length c.win_counts ≡ n
    pub tally : (sum c.win_counts + c.chop_count) % 2 ^ 64 ≡ c.trials % 2 ^ 64

  count_winners-Tallied :
      (n : ℕ) (c : Counters W) (winners : ℕ)
      → LowestBelow n winners
      → Tallied n c
      → Tallied n (count_winners c winners)
  unfolding count_winners
  count_winners-Tallied n c winners below v = elim (Bool-cases (winners == 0)) [
    | inl e ↦ rw e v
    | inr e ↦
        let i : ℕ = ctz64 winners in
        let lt : i < n = below (ground arith) in
        elim (Bool-cases (bit_and winners (winners - 1) == 0)) [
          | inl f ↦
              rw (e, f)
                (record {
                  players = length-set c.win_counts i _ ∙ v.players;
                  tally = omega (arith, v.tally, sum-set c.win_counts i (omega (arith, v.players)));
                })
          | inr f ↦
              let keep =
                add_shares-counts (s.divide w.unit (s.of_count (popcount64 winners)))
                  (mask_to_indices winners) c in
              rw (e, f)
                (record {
                  players = ap length keep.0 ∙ v.players;
                  tally = rw (keep.0, keep.1, keep.2) (omega (arith, v.tally));
                })
        ]
  ]

  run_trials-Tallied :
      (use_plo : Bool) (holes bs : List ℕ) (c c' : Counters W)
      → Tallied (length holes) c
      → run_trials use_plo holes c bs ≡ ok c'
      → Tallied (length holes) c'
  unfolding run_trials run_trial
  run_trials-Tallied use_plo holes [] c c' v e = subst (Tallied (length holes)) (ok_inj c c' e) v
  run_trials-Tallied use_plo holes (b ∷ bs) c c' v e =
      let (c1, f, g) = bind_ok (run_trial use_plo holes c b) _ c' e in
      let (winners, a, q) =
        bind_ok (if use_plo then judge_plo_mask holes b else judge_holdem_mask holes b) _ c1 f in
      let one =
        count_winners-Tallied (length holes) c winners (judge_below use_plo holes b winners a) v in
      run_trials-Tallied use_plo holes bs c1 c'
        (subst (Tallied (length holes)) (ok_inj (count_winners c winners) c1 q) one) g

  -- In the counters that a chunk of a simulation returns, the wins of all players and the chops add up
  -- to the trials counted, as words of 64 bits, and there is a count of wins for each player.
  pub run_chunk-Tallied :
      (fuel : ℕ) (use_plo : Bool) (holes deck : List ℕ) (draws fixed trials : ℕ) (rng : FastRng)
      (c : Counters W)
      → run_chunk fuel use_plo holes deck draws fixed trials rng ≡ ok (some c)
      → Tallied (length holes) c
  unfolding run_chunk
  run_chunk-Tallied fuel use_plo holes deck draws fixed trials rng c e =
      elim (Option-cases (sample_boards fuel deck draws trials fixed rng)) [
        | inl f ↦ absurd (cc (rw (run_chunk, f) at e))
        | inr (drawn, f) ↦
            let (c', g, q) =
              bind_ok (run_trials use_plo holes (new_counters (length holes)) drawn.0) _ (some c)
                (rw (run_chunk, f) at e) in
            let same : c' ≡ c = cc in
            subst (Tallied (length holes)) same (
              run_trials-Tallied use_plo holes drawn.0 (new_counters (length holes)) c'
                (record {
                  players = length-replicate (length holes) 0;
                  tally = omega (arith, sum-zeros (length holes));
                })
                g)
      ]
