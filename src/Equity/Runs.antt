-- ===== src/Equity/Runs.antt =====
-- simulate_multiway, simulate_heads_up, compute_player_equities and calculate_equity of
-- src/core/equity_hands.cpp. A relation holds of the outcomes that a call can have, over the schedules
-- of its threads; `none` is an outcome for which the fuel did not last. An enumeration of a deck with
-- fewer cards than the board lacks reads past the end of deck_indices, which is undefined behaviour:
-- such a run may have any outcome.
use xia_pl.Base.{
  ℕ, ◌-◌, bit_and, ◌≡◌, Bool, true, false, ◌==◌, ltb, if◌then◌else◌, Option, none, some, List, [],
  length, get_or,
}
use xia_pl.Base.Int.{ℤ, pos, pos_part, ltb_ℤ}
use xia_pl.Base.Errors.{Result, ok, err, Exception, runtime_error, ◌>>=◌}
use xia_pl.Mask.{full_deck_mask, popcount64}
use xia_pl.Judge.{GameType, plo, holdem}
use xia_pl.Chunks.Driver.{RunMcChunks}
use xia_pl.BoardSample.{build_used_mask, validate_equity_input, enumerate_boards}
use xia_pl.Weights.{Weights}
use xia_pl.Equity.{Shares}
use xia_pl.Equity.Trials.{
  Counters, HuCounters, new_counters, run_trials, run_chunk, reduce_chunk, new_hu, hu_trials,
  hu_chunk, hu_reduce,
}
use xia_pl.Equity.Stats.{
  Stats, HuStats, PlayerEquities, SimulationOptions, EquityResult, map_option, join, strip,
  deck_without, zeros, stats_of, hu_stats_of, expected_hole, board_count, runs_exact,
  heads_up_equities, multiway_equities, equity_result, is_heads_up,
}

-- simulate_multiway
module _ {W : Type 0} ⦃w : Weights W⦄ ⦃s : Shares W⦄ (fuel : ℕ) (holes : List ℕ)
    (iterations fixed : ℕ) (use_plo : Bool) (master_seed : ℕ) where
  -- the totals of the enumeration
  unfoldable pub exact_totals : List ℕ → Result (Option (Counters W))
  exact_totals deck = elim (enumerate_boards fuel deck (pos (5 - board_count fixed)) fixed) [
    | none ↦ ok none
    | some boards ↦ do
      c ← run_trials use_plo (strip holes) (new_counters (length holes)) boards
      ok (some c)
  ]

  pub data MultiwayTotals (deck : List ℕ) (auto_threads : ℕ) (threads : ℤ)
      : Bool → Result (Option (Counters W)) → Type 0 where
    enumerated :
        runs_exact deck (5 - board_count fixed) iterations ≡ true
        → ltb (length deck) (5 - board_count fixed) ≡ false
        → MultiwayTotals deck auto_threads threads true (exact_totals deck)
    undefined :
        runs_exact deck (5 - board_count fixed) iterations ≡ true
        → ltb (length deck) (5 - board_count fixed) ≡ true
        → (t : Result (Option (Counters W))) → MultiwayTotals deck auto_threads threads true t
    sampled :
        runs_exact deck (5 - board_count fixed) iterations ≡ false
        → (r : Result (Result (Option (Counters W))))
        → RunMcChunks
            (some (new_counters 0))
            (run_chunk fuel use_plo (strip holes) deck (5 - board_count fixed) fixed)
            (reduce_chunk (length holes))
            (ok (some (new_counters (length holes))))
            iterations
            master_seed
            auto_threads
            threads
            r
        → MultiwayTotals deck auto_threads threads false (join r)

  pub data SimulateMultiway (auto_threads : ℕ) (threads : ℤ)
      : Result (Option (Stats W)) → Type 0 where
    nobody :
        (length holes == 0) ≡ true
        → SimulateMultiway auto_threads threads (
            ok (
              some (record {
                winrates = [];
                equities = [];
                std_errors = [];
                chop_rate = w.nought;
                trials = 0;
                exact = false;
              })))
    rejected :
        (e : Exception)
        → (length holes == 0) ≡ false
        → build_used_mask holes fixed "simulate_multiway" (expected_hole use_plo) ≡ err e
        → SimulateMultiway auto_threads threads (err e)
    overfull :
        (used : ℕ)
        → (length holes == 0) ≡ false
        → build_used_mask holes fixed "simulate_multiway" (expected_hole use_plo) ≡ ok used
        → ltb 5 (board_count fixed) ≡ true
        → SimulateMultiway auto_threads threads (
            ok (
              some (record {
                winrates = zeros (length holes);
                equities = zeros (length holes);
                std_errors = zeros (length holes);
                chop_rate = w.nought;
                trials = 0;
                exact = false;
              })))
    simulated :
        (used : ℕ) (exact : Bool) (t : Result (Option (Counters W)))
        → (length holes == 0) ≡ false
        → build_used_mask holes fixed "simulate_multiway" (expected_hole use_plo) ≡ ok used
        → ltb 5 (board_count fixed) ≡ false
        → MultiwayTotals (deck_without used) auto_threads threads exact t
        → SimulateMultiway auto_threads threads
            (t >>= λ o. ok (map_option (stats_of (length holes) exact) o))

-- simulate_heads_up, where `fixed` has at most 5 cards
module _ {W : Type 0} ⦃w : Weights W⦄ ⦃s : Shares W⦄ (fuel hero_mask vill_mask iterations fixed : ℕ)
    (deck : List ℕ) (master_seed : ℕ) where
  pub data SimulateHeadsUp (auto_threads : ℕ) (threads : ℤ)
      : Result (Option (HuStats W)) → Type 0 where
    enumerated :
        runs_exact deck (5 - popcount64 fixed) iterations ≡ true
        → ltb (length deck) (5 - popcount64 fixed) ≡ false
        → SimulateHeadsUp auto_threads threads (
            ok (
              map_option
                (λ boards. hu_stats_of true (hu_trials hero_mask vill_mask new_hu boards))
                (enumerate_boards fuel deck (pos (5 - popcount64 fixed)) fixed)))
    undefined :
        runs_exact deck (5 - popcount64 fixed) iterations ≡ true
        → ltb (length deck) (5 - popcount64 fixed) ≡ true
        → (r : Result (Option (HuStats W))) → SimulateHeadsUp auto_threads threads r
    sampled :
        runs_exact deck (5 - popcount64 fixed) iterations ≡ false
        → (r : Result (Option HuCounters))
        → RunMcChunks
            (some new_hu)
            (hu_chunk fuel hero_mask vill_mask deck (5 - popcount64 fixed) fixed)
            hu_reduce
            (some new_hu)
            iterations
            master_seed
            auto_threads
            threads
            r
        → SimulateHeadsUp auto_threads threads (r >>= λ o. ok (map_option (hu_stats_of false) o))

-- compute_player_equities
module _ {W : Type 0} ⦃w : Weights W⦄ ⦃s : Shares W⦄ (fuel : ℕ) (holes : List ℕ)
    (iterations fixed : ℕ) (use_plo : Bool) (master_seed : ℕ) where
  pub data ComputeEquities (auto_threads : ℕ) (threads : ℤ)
      : Result (Option (PlayerEquities W)) → Type 0 where
    nobody :
        (length holes == 0) ≡ true
        → ComputeEquities auto_threads threads
            (ok (some (record { rows = []; chop_rate = w.nought; trials = 0; exact = false })))
    rejected :
        (e : Exception)
        → (length holes == 0) ≡ false
        → validate_equity_input holes fixed use_plo "calculate_equity" ≡ err e
        → ComputeEquities auto_threads threads (err e)
    heads_up :
        (used : ℕ) (r : Result (Option (HuStats W)))
        → (length holes == 0) ≡ false
        → validate_equity_input holes fixed use_plo "calculate_equity" ≡ ok used
        → is_heads_up use_plo holes ≡ true
        → SimulateHeadsUp fuel
            (get_or (strip holes) 0 0)
            (get_or (strip holes) 1 0)
            iterations
            (bit_and fixed full_deck_mask)
            (deck_without used)
            master_seed
            auto_threads
            threads
            r
        → ComputeEquities auto_threads threads (
            r >>= λ o. ok (
              map_option
                (heads_up_equities (get_or (strip holes) 0 0) (get_or (strip holes) 1 0))
                o))
    multiway :
        (used : ℕ) (r : Result (Option (Stats W)))
        → (length holes == 0) ≡ false
        → validate_equity_input holes fixed use_plo "calculate_equity" ≡ ok used
        → is_heads_up use_plo holes ≡ false
        → SimulateMultiway fuel holes iterations
            (bit_and fixed full_deck_mask)
            use_plo
            master_seed
            auto_threads
            threads
            r
        → ComputeEquities auto_threads threads
            (r >>= λ o. ok (map_option (multiway_equities holes) o))

-- `random_seed` is what two draws of std::random_device give.
unfoldable pub resolve_master_seed : SimulationOptions → ℕ → ℕ
resolve_master_seed options random_seed =
    if options.deterministic then options.seed else random_seed

unfoldable pub master_seed_of : SimulationOptions → ℕ → ℕ
unfolding resolve_master_seed
master_seed_of options random_seed =
    if pos_part options.iterations == 0 then 0 else resolve_master_seed options random_seed

abbrev pub is_plo : GameType → Bool
is_plo plo = true
is_plo holdem = false

-- calculate_equity
module _ {W : Type 0} ⦃w : Weights W⦄ ⦃s : Shares W⦄ (fuel : ℕ) (holes : List ℕ) (board_mask : ℕ)
    (options : SimulationOptions) (game : GameType) (random_seed : ℕ) where
  pub data CalculateEquity (auto_threads : ℕ) : Result (Option (EquityResult W)) → Type 0 where
    negative :
        ltb_ℤ options.iterations (pos 0) ≡ true
        → CalculateEquity auto_threads
            (err (runtime_error "calculate_equity: iterations must be >= 0"))
    computed :
        (r : Result (Option (PlayerEquities W)))
        → ltb_ℤ options.iterations (pos 0) ≡ false
        → ComputeEquities fuel holes
            (pos_part options.iterations)
            board_mask
            (is_plo game)
            (master_seed_of options random_seed)
            auto_threads
            options.threads
            r
        → CalculateEquity auto_threads (r >>= λ o. ok (map_option equity_result o))
