-- ===== src/Chunks/Driver.antt =====
-- run_mc_chunks of src/core/mc_chunking.h: the seeded chunks, the worker threads and the reduction in
-- the order of the chunks. `auto_threads` is what the environment and the hardware give.
use xia_pl.Base.{ℕ, ◌≤◌, ◌<◌, ◌≡◌, refl, ap, sym, ◌∙◌, none, List, [], ◌∷◌, replicate, arith}
use xia_pl.Base.Int.{ℤ}
use xia_pl.Base.Errors.{Result, ok, ◌>>=◌}
use xia_pl.Rng.{FastRng, seed}
use xia_pl.Chunks.{
  State, spawn, Reach, AllStopped, after_join, run_chunks_serial, chunk_count, chunk_trials,
  resolve_mc_threads, derive_chunk_seed,
}
use xia_pl.Chunks.Agreement.{run_chunks_parallel-serial}

module _ {C : Type 0} (unfilled : C) (num_chunks : ℕ) (body : ℕ → Result C) where
  -- The outcomes that run_chunks_parallel can have, if all its threads are started.
  pub data Outcome : ℕ → Result (List C) → Type 0 where
    serial :
        (nthreads : ℕ)
        → nthreads ≤ 1
        → Outcome nthreads (
            run_chunks_serial unfilled num_chunks body num_chunks 0 (replicate num_chunks unfilled))
    parallel :
        (nthreads : ℕ) (s : State C)
        → 1 < nthreads
        → Reach unfilled num_chunks body (spawn unfilled num_chunks body nthreads) s
        → AllStopped unfilled num_chunks body s
        → Outcome nthreads (after_join unfilled num_chunks body none s)

  outcome_lem :
      (nthreads : ℕ) (r : Result (List C))
      → Outcome nthreads r
      → r ≡ run_chunks_serial unfilled num_chunks body num_chunks 0 (replicate num_chunks unfilled)
  outcome_lem nthreads r (serial _ h) = refl
  outcome_lem nthreads r (parallel _ s h reach stop) =
      run_chunks_parallel-serial unfilled num_chunks body nthreads s (omega (arith, h)) reach stop

module _ {C A : Type 0} (unfilled : C) (run_chunk : ℕ → FastRng → Result C) (reduce : A → C → A)
    (begin : A) (total_trials master_seed : ℕ) where
  -- the lambda that runs chunk k
  abbrev pub chunk_body : ℕ → Result C
  chunk_body k = run_chunk (chunk_trials total_trials k) (seed (derive_chunk_seed master_seed k))

  -- the loop over `chunk_results`
  unfoldable pub reduce_all : A → List C → A
  reduce_all a [] = a
  reduce_all a (c ∷ cs) = reduce_all (reduce a c) cs

  -- The outcomes that run_mc_chunks can have with `threads`.
  pub data RunMcChunks (auto_threads : ℕ) (threads : ℤ) : Result A → Type 0 where
    finished :
        (r : Result (List C))
        → Outcome unfilled
            (chunk_count total_trials)
            chunk_body
            (resolve_mc_threads auto_threads threads total_trials (chunk_count total_trials))
            r
        → RunMcChunks auto_threads threads (r >>= λ cs. ok (reduce_all begin cs))

  -- What one thread would give.
  abbrev pub serial_outcome : Result A
  serial_outcome =
      run_chunks_serial unfilled (chunk_count total_trials) chunk_body (chunk_count total_trials) 0
        (replicate (chunk_count total_trials) unfilled)
      >>= λ cs. ok (reduce_all begin cs)

  pub outcome_of_run :
      (auto_threads : ℕ) (threads : ℤ) (a : Result A)
      → RunMcChunks auto_threads threads a
      → a ≡ serial_outcome
  outcome_of_run auto_threads threads a (finished r o) =
      ap (λ x. x >>= λ cs. ok (reduce_all begin cs))
        (outcome_lem unfilled (chunk_count total_trials) chunk_body _ r o)

  -- Two runs with the same seed, all of whose threads start, have the same outcome, whatever numbers
  -- of threads are asked for or found, and however their threads interleave.
  pub RunMcChunks-eq :
      (auto_threads auto_threads' : ℕ) (threads threads' : ℤ) (a a' : Result A)
      → RunMcChunks auto_threads threads a
      → RunMcChunks auto_threads' threads' a'
      → a ≡ a'
  RunMcChunks-eq auto_threads auto_threads' threads threads' a a' run run' =
      outcome_of_run auto_threads threads a run
      ∙ sym (outcome_of_run auto_threads' threads' a' run')
