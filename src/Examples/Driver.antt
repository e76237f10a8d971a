-- ===== src/Examples/Driver.antt =====
-- The Monte Carlo driver at a concrete run: 65537 trials, in two chunks.
use xia_pl.Base.{ℕ, zero, suc, ◌+◌, ◌≡◌, refl, some, get_elem?, arith}
use xia_pl.Base.Int.{pos}
use xia_pl.Base.Errors.{Result, ok}
use xia_pl.Rng.{FastRng}
use xia_pl.Chunks.{
  Worker, stopped, State, spawn, fetch, finish, Reach, here, next, fetches, finishes, chunk_count,
  chunk_trials, resolve_mc_threads,
}
use xia_pl.Chunks.Driver.{serial, parallel, chunk_body, RunMcChunks, finished, RunMcChunks-eq}

-- A chunk counts its trials.
abbrev count_trials : ℕ → FastRng → Result ℕ
count_trials trials rng = ok trials

abbrev trials_body : ℕ → Result ℕ
trials_body = chunk_body 0 count_trials ◌+◌ 0 65537 1

abbrev t0 : State ℕ
t0 = spawn 0 2 trials_body 2

abbrev t1 : State ℕ
t1 = fetch 0 2 trials_body t0 0

abbrev t2 : State ℕ
t2 = fetch 0 2 trials_body t1 1

abbrev t3 : State ℕ
t3 = finish 0 2 trials_body t2 1 1

abbrev t4 : State ℕ
t4 = finish 0 2 trials_body t3 0 0

abbrev t5 : State ℕ
t5 = fetch 0 2 trials_body t4 0

abbrev t6 : State ℕ
t6 = fetch 0 2 trials_body t5 1

both_workers : Reach 0 2 trials_body t0 t6
unfolding spawn fetch finish chunk_trials
both_workers =
    next
      (next
        (next
          (next (next (next here (fetches 0 refl refl)) (fetches 1 refl refl))
            (finishes 1 1 refl refl))
          (finishes 0 0 refl refl))
        (fetches 0 refl refl))
      (fetches 1 refl refl)

both_stopped : (w : ℕ) (v : Worker) → get_elem? t6.workers w ≡ some v → v ≡ stopped
unfolding spawn fetch finish chunk_trials
both_stopped zero v h = cc
both_stopped (suc zero) v h = cc
both_stopped (suc (suc w)) v h = cc

-- on one thread
abbrev one_thread : (r : Result ℕ) × RunMcChunks 0 count_trials ◌+◌ 0 65537 1 8 (pos 1) r
unfolding chunk_count resolve_mc_threads
one_thread = (_, finished _ (serial 1 (omega arith)))

-- on two threads, by the schedule above
abbrev two_threads : (r : Result ℕ) × RunMcChunks 0 count_trials ◌+◌ 0 65537 1 8 (pos 2) r
unfolding chunk_count resolve_mc_threads
two_threads = (_, finished _ (parallel 2 t6 (omega arith) both_workers both_stopped))

RunMcChunks-eq_example : one_thread.0 ≡ two_threads.0
RunMcChunks-eq_example =
    RunMcChunks-eq 0 count_trials ◌+◌ 0 65537 1 8 8 (pos 1) (pos 2) one_thread.0 two_threads.0
      one_thread.1 two_threads.1
