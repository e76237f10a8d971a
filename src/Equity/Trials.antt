-- ===== src/Equity/Trials.antt =====
-- The counters and the trials of simulate_multiway and simulate_heads_up in src/core/equity_hands.cpp.
-- A chunk that runs out of the fuel of its draws gives `none`.
use xia_pl.Base.{
  ℕ, ◌+◌, ◌-◌, bit_and, bit_or, Bool, ◌==◌, ◌!=◌, ltb, if◌then◌else◌, Option, none, some, List, [],
  ◌∷◌, length, get_or, set, replicate,
}
use xia_pl.Base.Errors.{Result, ok, err, runtime_error, throw_if, ◌>>=◌, ◌>>◌}
use xia_pl.Mask.{popcount64, ctz64}
use xia_pl.Evaluator.{eval_score7}
use xia_pl.Judge.{judge_holdem_mask, judge_plo_mask, mask_to_indices}
use xia_pl.Chunks.{u64}
use xia_pl.BoardSample.{sample_boards}
use xia_pl.Rng.{FastRng}
use xia_pl.Weights.{Weights}
use xia_pl.Equity.{Shares}

pub record Counters (W : Type 0) : Type 0 where
  pub win_counts : List ℕ
  pub equity_sum : List W
  pub equity_sum_sq : List W
  pub chop_count : ℕ
  pub trials : ℕ

-- The counters of simulate_heads_up.
pub record HuCounters : Type 0 where
  pub hero_wins : ℕ
  pub chops : ℕ
  pub trials : ℕ

-- `total[i] += c[i]` for each i
unfoldable pub add_lists {ℓ} : {A : Type ℓ} → (A → A → A) → List A → List A → List A
add_lists add [] ys = []
add_lists add (x ∷ xs) [] = x ∷ xs
add_lists add (x ∷ xs) (y ∷ ys) = add x y ∷ add_lists add xs ys

abbrev pub add_u64 : ℕ → ℕ → ℕ
add_u64 a b = u64 (a + b)

module _ {W : Type 0} ⦃w : Weights W⦄ ⦃s : Shares W⦄ where
  -- Counters(n)
  abbrev pub new_counters : ℕ → Counters W
  new_counters n = record {
    win_counts = replicate n 0;
    equity_sum = replicate n w.nought;
    equity_sum_sq = replicate n w.nought;
    chop_count = 0;
    trials = 0;
  }

  -- `sums[i] += v`
  abbrev pub add_at : List W → ℕ → W → List W
  add_at sums i v = set sums i (w.plus (get_or sums i w.nought) v)

  -- the loop over the winners who share the pot
  unfoldable pub add_shares : W → List ℕ → Counters W → Counters W
  add_shares share [] c = c
  add_shares share (i ∷ is) c = add_shares share is (record c {
    equity_sum = add_at c.equity_sum i share;
    equity_sum_sq = add_at c.equity_sum_sq i (s.times share share);
  })

  -- `run_trial` of simulate_multiway, once the winners are known
  unfoldable pub count_winners : Counters W → ℕ → Counters W
  unfolding add_shares
  count_winners c winners =
      let i = ctz64 winners in
      let share = s.divide w.unit (s.of_count (popcount64 winners)) in
      let shared = add_shares share (mask_to_indices winners) c in
      if winners == 0
      then c
      else if bit_and winners (winners - 1) == 0
      then record {
        win_counts = set c.win_counts i (add_u64 (get_or c.win_counts i 0) 1);
        equity_sum = add_at c.equity_sum i w.unit;
        equity_sum_sq = add_at c.equity_sum_sq i w.unit;
        chop_count = c.chop_count;
        trials = add_u64 c.trials 1;
      }
      else record shared {
        chop_count = add_u64 shared.chop_count 1;
        trials = add_u64 shared.trials 1;
      }

  unfoldable pub run_trial : Bool → List ℕ → Counters W → ℕ → Result (Counters W)
  run_trial use_plo holes c board_mask = do
    winners ←
        (if use_plo then judge_plo_mask holes board_mask else judge_holdem_mask holes board_mask)
    ok (count_winners c winners)

  -- the trials of a list of boards, in order
  unfoldable pub run_trials : Bool → List ℕ → Counters W → List ℕ → Result (Counters W)
  run_trials use_plo holes c [] = ok c
  run_trials use_plo holes c (b ∷ bs) = do
    c' ← run_trial use_plo holes c b
    run_trials use_plo holes c' bs

  -- the lambda that runs one chunk
  unfoldable pub run_chunk :
      ℕ → Bool → List ℕ → List ℕ → ℕ → ℕ → ℕ → FastRng → Result (Option (Counters W))
  run_chunk fuel use_plo holes deck num_to_draw fixed chunk_trials rng =
      elim (sample_boards fuel deck num_to_draw chunk_trials fixed rng) [
        | none ↦ ok none
        | some (boards, last) ↦ do
          c ← run_trials use_plo holes (new_counters (length holes)) boards
          ok (some c)
      ]

  abbrev pub add_counters : Counters W → Counters W → Counters W
  add_counters t c = record {
    win_counts = add_lists add_u64 t.win_counts c.win_counts;
    equity_sum = add_lists w.plus t.equity_sum c.equity_sum;
    equity_sum_sq = add_lists w.plus t.equity_sum_sq c.equity_sum_sq;
    chop_count = add_u64 t.chop_count c.chop_count;
    trials = add_u64 t.trials c.trials;
  }

  -- the lambda that reduces a chunk into the totals
  unfoldable pub reduce_chunk :
      ℕ → Result (Option (Counters W)) → Option (Counters W) → Result (Option (Counters W))
  reduce_chunk n (err e) c = err e
  reduce_chunk n (ok none) c = ok none
  reduce_chunk n (ok (some t)) none = ok none
  reduce_chunk n (ok (some t)) (some c) =
      throw_if (length c.win_counts != n)
        (runtime_error "simulate_multiway: chunk result was never stored")
      >> ok (some (add_counters t c))

abbrev pub new_hu : HuCounters
new_hu = record { hero_wins = 0; chops = 0; trials = 0 }

-- `run_trial` of simulate_heads_up
unfoldable pub hu_trial : ℕ → ℕ → HuCounters → ℕ → HuCounters
hu_trial hero_mask vill_mask c board_mask =
    let hero_score = eval_score7 (bit_or board_mask hero_mask) in
    let vill_score = eval_score7 (bit_or board_mask vill_mask) in
    record {
      hero_wins = if ltb vill_score hero_score then add_u64 c.hero_wins 1 else c.hero_wins;
      chops =
          if ltb vill_score hero_score
          then c.chops
          else if hero_score == vill_score
          then add_u64 c.chops 1
          else c.chops;
      trials = add_u64 c.trials 1;
    }

unfoldable pub hu_trials : ℕ → ℕ → HuCounters → List ℕ → HuCounters
hu_trials hero_mask vill_mask c [] = c
hu_trials hero_mask vill_mask c (b ∷ bs) =
    hu_trials hero_mask vill_mask (hu_trial hero_mask vill_mask c b) bs

unfoldable pub hu_chunk : ℕ → ℕ → ℕ → List ℕ → ℕ → ℕ → ℕ → FastRng → Result (Option HuCounters)
hu_chunk fuel hero_mask vill_mask deck num_to_draw fixed chunk_trials rng =
    elim (sample_boards fuel deck num_to_draw chunk_trials fixed rng) [
      | none ↦ ok none
      | some (boards, last) ↦ ok (some (hu_trials hero_mask vill_mask new_hu boards))
    ]

unfoldable pub hu_reduce : Option HuCounters → Option HuCounters → Option HuCounters
hu_reduce none c = none
hu_reduce (some t) none = none
hu_reduce (some t) (some c) = some (record {
  hero_wins = add_u64 t.hero_wins c.hero_wins;
  chops = add_u64 t.chops c.chops;
  trials = add_u64 t.trials c.trials;
})
