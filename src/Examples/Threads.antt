-- ===== src/Examples/Threads.antt =====
-- calculate_equity on two hands before the flop: 65537 sampled trials, in two chunks, on one thread and on two.
use xia_pl.Base.{ℕ, ◌+◌, ◌≡◌, refl, true, Option, some, [], ◌∷◌, arith}
use xia_pl.Base.Int.{pos}
use xia_pl.Base.Errors.{Result}
use xia_pl.Base.Words.{popcount, pop_bits}
use xia_pl.Mask.{popcount64}
use xia_pl.Judge.{holdem}
use xia_pl.Chunks.{chunk_count, resolve_mc_threads, spawn}
use xia_pl.Chunks.Progress.{Reach-AllStopped}
use xia_pl.Chunks.Driver.{RunMcChunks, serial, parallel, finished, chunk_body}
use xia_pl.BoardSample.{
  build_used_mask, add_holes, validate_equity_input, board_run_is_exact, board_space_count,
  deck_indices_of,
}
use xia_pl.Equity.Trials.{HuCounters, new_hu, hu_chunk, hu_reduce}
use xia_pl.Equity.Stats.{SimulationOptions, EquityResult, deck_without}
use xia_pl.Equity.Runs.{CalculateEquity, sampled, heads_up, computed, master_seed_of}
use xia_pl.Equity.Serial.{CalculateEquity-eq}
use xia_pl.Examples.Equity.{counts, whole_shares, aces, kings}

abbrev options : SimulationOptions
options = record { iterations = pos 65537; seed = 7; deterministic = true; threads = pos 1 }

abbrev dealt : ℕ
dealt = aces + kings

abbrev body : ℕ → Result (Option HuCounters)
body =
    chunk_body (some new_hu) (hu_chunk 8 aces kings (deck_without dealt) 5 0) hu_reduce
      (some new_hu) 65537 7

abbrev serial_run :
    (r : Result (Option HuCounters)) × RunMcChunks
      (some new_hu)
      (hu_chunk 8 aces kings (deck_without dealt) 5 0)
      hu_reduce
      (some new_hu)
      65537
      7
      8
      (pos 1)
      r
unfolding chunk_count resolve_mc_threads
serial_run = (_, finished _ (serial 1 (omega arith)))

abbrev parallel_run :
    (r : Result (Option HuCounters)) × RunMcChunks
      (some new_hu)
      (hu_chunk 8 aces kings (deck_without dealt) 5 0)
      hu_reduce
      (some new_hu)
      65537
      7
      16
      (pos 2)
      r
unfolding chunk_count resolve_mc_threads
parallel_run =
    let (t, reach, stop) = Reach-AllStopped (some new_hu) 2 body (spawn (some new_hu) 2 body 2) in
    (_, finished _ (parallel 2 t (omega arith) reach stop))

abbrev one_thread :
    (r : Result (Option (EquityResult ℕ))) × CalculateEquity 8
      (aces ∷ kings ∷ [])
      0
      options
      holdem
      5
      8
      r
unfolding validate_equity_input build_used_mask add_holes popcount64 popcount board_run_is_exact
    board_space_count deck_indices_of pop_bits master_seed_of serial_run
one_thread = (_, computed _ refl (heads_up dealt _ refl refl refl (sampled refl _ serial_run.1)))

abbrev two_threads :
    (r : Result (Option (EquityResult ℕ))) × CalculateEquity 8
      (aces ∷ kings ∷ [])
      0
      (record options { threads = pos 2 })
      holdem
      9
      16
      r
unfolding validate_equity_input build_used_mask add_holes popcount64 popcount board_run_is_exact
    board_space_count deck_indices_of pop_bits master_seed_of parallel_run
two_threads = (_, computed _ refl (heads_up dealt _ refl refl refl (sampled refl _ parallel_run.1)))

CalculateEquity-eq_example : one_thread.0 ≡ two_threads.0
CalculateEquity-eq_example =
    CalculateEquity-eq 8 (aces ∷ kings ∷ []) 0 options holdem (pos 2) 5 9 8 16 one_thread.0
      two_threads.0 refl (λ used e. omega arith) one_thread.1 two_threads.1
