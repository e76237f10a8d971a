-- ===== src/Equity/Serial.antt =====
-- The outcomes of the equity calls of src/core/equity_hands.cpp do not depend on the threads: each is
-- what one thread would give.
use xia_pl.Base.{
  ℕ, ◌-◌, ◌*◌, ◌≤◌, ◌≡◌, refl, ap, sym, ◌∙◌, Bool, true, false, ◌==◌, ltb, if◌then◌else◌, Option,
  some, List, [], bit_and, length, get_or,
}
use xia_pl.Base.Int.{ℤ, pos, pos_part, ltb_ℤ}
use xia_pl.Base.Errors.{Result, ok, err, runtime_error, ◌>>=◌}
use xia_pl.Mask.{full_deck_mask, popcount64}
use xia_pl.Judge.{GameType}
use xia_pl.Chunks.Driver.{serial_outcome, outcome_of_run}
use xia_pl.BoardSample.{build_used_mask, validate_equity_input, enumerate_boards}
use xia_pl.Weights.{Weights}
use xia_pl.Equity.{Shares}
use xia_pl.Equity.Trials.{
  Counters, new_counters, run_chunk, reduce_chunk, new_hu, hu_trials, hu_chunk, hu_reduce,
}
use xia_pl.Equity.Stats.{
  Stats, HuStats, PlayerEquities, SimulationOptions, EquityResult, map_option, join, strip,
  deck_without, stats_of, hu_stats_of, runs_exact, expected_hole, board_count, zeros,
  heads_up_equities, multiway_equities, equity_result, is_heads_up,
}
use xia_pl.Equity.Runs.{
  exact_totals, MultiwayTotals, SimulateMultiway, SimulateHeadsUp, ComputeEquities, CalculateEquity,
  enumerated, sampled, undefined, nobody, rejected, overfull, simulated, heads_up, multiway,
  negative, computed, is_plo, resolve_master_seed, master_seed_of,
}
use xia_pl.Equity.Room.{deck_without-completes, accepted-completes, expected_hole_pos}

module _ {W : Type 0} ⦃w : Weights W⦄ ⦃s : Shares W⦄ (fuel : ℕ) (holes : List ℕ)
    (iterations fixed : ℕ) (use_plo : Bool) (master_seed : ℕ) where
  unfoldable pub multiway_totals : List ℕ → Result (Option (Counters W))
  multiway_totals deck =
      if runs_exact deck (5 - board_count fixed) iterations
      then exact_totals fuel holes iterations fixed use_plo master_seed deck
      else join (
          serial_outcome (some (new_counters 0))
            (run_chunk fuel use_plo (strip holes) deck (5 - board_count fixed) fixed)
            (reduce_chunk (length holes)) (ok (some (new_counters (length holes)))) iterations
            master_seed)

  unfoldable pub multiway_outcome : Result (Option (Stats W))
  multiway_outcome =
      if length holes == 0
      then ok (
          some (record {
            winrates = [];
            equities = [];
            std_errors = [];
            chop_rate = w.nought;
            trials = 0;
            exact = false;
          }))
      else elim (build_used_mask holes fixed "simulate_multiway" (expected_hole use_plo)) [
        | err e ↦ err e
        | ok used ↦
            if ltb 5 (board_count fixed)
            then ok (
                some (record {
                  winrates = zeros (length holes);
                  equities = zeros (length holes);
                  std_errors = zeros (length holes);
                  chop_rate = w.nought;
                  trials = 0;
                  exact = false;
                }))
            else (multiway_totals (deck_without used) >>= λ o. ok (
                map_option
                  (stats_of (length holes)
                    (runs_exact (deck_without used) (5 - board_count fixed) iterations))
                  o))
      ]

  multiway_totals_lem :
      (deck : List ℕ) (auto_threads : ℕ) (threads : ℤ) (exact : Bool)
      (t : Result (Option (Counters W)))
      → MultiwayTotals fuel holes iterations fixed use_plo master_seed deck auto_threads threads
          exact t
      → ltb (length deck) (5 - board_count fixed) ≡ false
      → (exact ≡ runs_exact deck (5 - board_count fixed) iterations) × (t ≡ multiway_totals deck)
  unfolding multiway_totals
  multiway_totals_lem deck auto_threads threads exact t (enumerated e f) enough = rw e (refl, refl)
  multiway_totals_lem deck auto_threads threads exact t (undefined e f u) enough =
      absurd (cc (f, enough))
  multiway_totals_lem deck auto_threads threads exact t (sampled e r run) enough =
      rw e
        (refl, ap join (outcome_of_run _ _ _ _ iterations master_seed auto_threads threads r run))

  pub multiway_outcome_lem :
      (auto_threads : ℕ) (threads : ℤ) (r : Result (Option (Stats W)))
      → SimulateMultiway fuel holes iterations fixed use_plo master_seed auto_threads threads r
      → ((used : ℕ)
          → build_used_mask holes fixed "simulate_multiway" (expected_hole use_plo) ≡ ok used
          → ltb (length (deck_without used)) (5 - board_count fixed) ≡ false)
      → r ≡ multiway_outcome
  unfolding multiway_outcome
  multiway_outcome_lem auto_threads threads r (nobody e) enough = rw e refl
  multiway_outcome_lem auto_threads threads r (rejected x e f) enough = rw (e, f) refl
  multiway_outcome_lem auto_threads threads r (overfull used e f g) enough = rw (e, f, g) refl
  multiway_outcome_lem auto_threads threads r (simulated used exact t e f g run) enough =
      let p =
        multiway_totals_lem (deck_without used) auto_threads threads exact t run (enough used f) in
      rw (e, f, g, p.0, p.1) refl

module _ {W : Type 0} ⦃w : Weights W⦄ ⦃s : Shares W⦄ (fuel hero_mask vill_mask iterations fixed : ℕ)
    (deck : List ℕ) (master_seed : ℕ) where
  unfoldable pub heads_up_outcome : Result (Option (HuStats W))
  heads_up_outcome =
      if runs_exact deck (5 - popcount64 fixed) iterations
      then ok (
          map_option (λ boards. hu_stats_of true (hu_trials hero_mask vill_mask new_hu boards))
            (enumerate_boards fuel deck (pos (5 - popcount64 fixed)) fixed))
      else (serial_outcome (some new_hu)
            (hu_chunk fuel hero_mask vill_mask deck (5 - popcount64 fixed) fixed) hu_reduce
            (some new_hu) iterations master_seed
          >>= λ o. ok (map_option (hu_stats_of false) o))

  pub heads_up_outcome_lem :
      (auto_threads : ℕ) (threads : ℤ) (r : Result (Option (HuStats W)))
      → SimulateHeadsUp fuel hero_mask vill_mask iterations fixed deck master_seed auto_threads
          threads r
      → ltb (length deck) (5 - popcount64 fixed) ≡ false
      → r ≡ heads_up_outcome
  unfolding heads_up_outcome
  heads_up_outcome_lem auto_threads threads r (enumerated e f) enough = rw e refl
  heads_up_outcome_lem auto_threads threads r (undefined e f u) enough = absurd (cc (f, enough))
  heads_up_outcome_lem auto_threads threads r (sampled e t run) enough = rw e (
      ap (λ x. x >>= λ o. ok (map_option (hu_stats_of false) o))
        (outcome_of_run _ _ _ _ iterations master_seed auto_threads threads t run))

module _ {W : Type 0} ⦃w : Weights W⦄ ⦃s : Shares W⦄ (fuel : ℕ) (holes : List ℕ)
    (iterations fixed : ℕ) (use_plo : Bool) (master_seed : ℕ) where
  abbrev heads_up_rows : ℕ → Result (Option (PlayerEquities W))
  heads_up_rows used =
      heads_up_outcome fuel (get_or (strip holes) 0 0) (get_or (strip holes) 1 0) iterations
        (bit_and fixed full_deck_mask) (deck_without used) master_seed
      >>= λ o.
          ok
            (map_option (heads_up_equities (get_or (strip holes) 0 0) (get_or (strip holes) 1 0)) o)

  unfoldable pub equities_outcome : Result (Option (PlayerEquities W))
  equities_outcome =
      if length holes == 0
      then ok (some (record { rows = []; chop_rate = w.nought; trials = 0; exact = false }))
      else elim (validate_equity_input holes fixed use_plo "calculate_equity") [
        | err e ↦ err e
        | ok used ↦
            if is_heads_up use_plo holes
            then heads_up_rows used
            else (multiway_outcome fuel holes iterations (bit_and fixed full_deck_mask) use_plo
                  master_seed
                >>= λ o. ok (map_option (multiway_equities holes) o))
      ]

  equities_outcome_lem :
      (auto_threads : ℕ) (threads : ℤ) (r : Result (Option (PlayerEquities W)))
      → ComputeEquities fuel holes iterations fixed use_plo master_seed auto_threads threads r
      → ((used : ℕ)
          → validate_equity_input holes fixed use_plo "calculate_equity" ≡ ok used
          → expected_hole use_plo * length holes ≤ 47)
      → r ≡ equities_outcome
  unfolding equities_outcome
  equities_outcome_lem auto_threads threads r (nobody e) few = rw e refl
  equities_outcome_lem auto_threads threads r (rejected x e f) few = rw (e, f) refl
  equities_outcome_lem auto_threads threads r (heads_up used t e f g run) few =
      rw (e, f, g)
        (ap
          (λ x. x >>= λ o. ok (
            map_option (heads_up_equities (get_or (strip holes) 0 0) (get_or (strip holes) 1 0)) o))
          (heads_up_outcome_lem fuel _ _ iterations _ (deck_without used) master_seed auto_threads
            threads t run
            (accepted-completes holes fixed used use_plo "calculate_equity" e f (few used f))))
  equities_outcome_lem auto_threads threads r (multiway used t e f g run) few =
      rw (e, f, g)
        (ap (λ x. x >>= λ o. ok (map_option (multiway_equities holes) o))
          (multiway_outcome_lem fuel holes iterations _ use_plo master_seed auto_threads threads t
            run
            (λ used' q.
              deck_without-completes holes (bit_and fixed full_deck_mask) used'
                (expected_hole use_plo) "simulate_multiway" (expected_hole_pos use_plo) (few used f)
                q)))

module _ {W : Type 0} ⦃w : Weights W⦄ ⦃s : Shares W⦄ (fuel : ℕ) (holes : List ℕ) (board_mask : ℕ)
    (options : SimulationOptions) (game : GameType) (random_seed : ℕ) where
  unfoldable pub equity_outcome : Result (Option (EquityResult W))
  equity_outcome =
      if ltb_ℤ options.iterations (pos 0)
      then err (runtime_error "calculate_equity: iterations must be >= 0")
      else (equities_outcome fuel holes (pos_part options.iterations) board_mask (is_plo game)
            (master_seed_of options random_seed)
          >>= λ o. ok (map_option equity_result o))

  pub equity_outcome_lem :
      (auto_threads : ℕ) (r : Result (Option (EquityResult W)))
      → CalculateEquity fuel holes board_mask options game random_seed auto_threads r
      → ((used : ℕ)
          → validate_equity_input holes board_mask (is_plo game) "calculate_equity" ≡ ok used
          → expected_hole (is_plo game) * length holes ≤ 47)
      → r ≡ equity_outcome
  unfolding equity_outcome
  equity_outcome_lem auto_threads r (negative e) few = rw e refl
  equity_outcome_lem auto_threads r (computed t e run) few = rw e (
      ap (λ x. x >>= λ o. ok (map_option equity_result o))
        (equities_outcome_lem fuel holes _ board_mask _ _ auto_threads options.threads t run few))

module _ {W : Type 0} ⦃w : Weights W⦄ ⦃s : Shares W⦄ where
  -- A deterministic call of calculate_equity, all its threads started, has one outcome, whatever numbers of
  -- threads are asked for or found, however they interleave, and whatever std::random_device gives, unless
  -- it is accepted with more than 47 hole cards.
  pub CalculateEquity-eq :
      (fuel : ℕ) (holes : List ℕ) (board_mask : ℕ) (options : SimulationOptions) (game : GameType)
      (threads' : ℤ) (random_seed random_seed' auto_threads auto_threads' : ℕ)
      (r r' : Result (Option (EquityResult W)))
      → options.deterministic ≡ true
      → ((used : ℕ)
          → validate_equity_input holes board_mask (is_plo game) "calculate_equity" ≡ ok used
          → expected_hole (is_plo game) * length holes ≤ 47)
      → CalculateEquity fuel holes board_mask options game random_seed auto_threads r
      → CalculateEquity fuel holes board_mask
          (record options { threads = threads' })
          game
          random_seed'
          auto_threads'
          r'
      → r ≡ r'
  unfolding equity_outcome master_seed_of resolve_master_seed
  CalculateEquity-eq fuel holes board_mask options game threads' random_seed random_seed'
        auto_threads auto_threads' r r' det few run run' =
      equity_outcome_lem fuel holes board_mask options game random_seed auto_threads r run few
      ∙ rw det refl
      ∙ sym (
          equity_outcome_lem fuel holes board_mask (record options { threads = threads' }) game
            random_seed' auto_threads' r' run' few)
