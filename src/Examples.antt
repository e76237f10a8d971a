-- ===== src/Examples.antt =====
-- The theorems on chunks at concrete inputs.
mod Driver
mod Hands
mod Ranges
mod Sampling
mod Equity
mod Threads
mod Tally
mod Plo
mod Sets
use xia_pl.Base.{
  ℕ, zero, suc, ◌+◌, ◌*◌, ◌/◌, ◌%◌, ◌^◌, ◌≤◌, ◌<◌, min, ◌≡◌, ◌≢◌, ◌⊎◌, ◌↔◌, inl, inr, refl, Bool,
  true, false, ltb, Option, none, some, List, [], ◌∷◌, ◌++◌, map, length, replicate, get_elem?, All,
  arith,
}
use xia_pl.Base.Int.{ℤ, pos, negsuc, pos_part}
use xia_pl.Base.Errors.{Result, ok, err, Exception, runtime_error}
use xia_pl.Base.Bits.{test_bit}
use xia_pl.Base.Words.{popcount}
use xia_pl.Base.Sets.{contains, AscendingFrom}
use xia_pl.Chunks.{
  Worker, idle, running, stopped, State, spawn, fetch, finish, Step, fetches, finishes, Reach, here,
  next, AllStopped, after_join, run_chunks_serial, chunk_count, chunk_trials, resolve_mc_threads,
}
use xia_pl.Chunks.Agreement.{run_chunks_parallel-serial}
use xia_pl.Chunks.Progress.{steps_left, Step-steps_left, Reach-AllStopped}
use xia_pl.Chunks.Seeds.{trials_before, chunks-total, chunk_trials_bounds}

-- Chunk 0 returns 10 and chunk 1 throws.
abbrev chunk_error : Exception
chunk_error = runtime_error "chunk 1"

unfoldable body : ℕ → Result ℕ
body zero = ok 10
body (suc k) = err chunk_error

-- Two workers and two chunks: worker 1 draws chunk 0, worker 0 draws chunk 1 and throws, worker 1
-- ends and finds no more.
abbrev s0 : State ℕ
s0 = spawn 0 2 body 2

abbrev s1 : State ℕ
s1 = fetch 0 2 body s0 1

abbrev s2 : State ℕ
s2 = fetch 0 2 body s1 0

abbrev s3 : State ℕ
s3 = finish 0 2 body s2 0 1

abbrev s4 : State ℕ
s4 = finish 0 2 body s3 1 0

abbrev s5 : State ℕ
s5 = fetch 0 2 body s4 1

s0-Step : Step 0 2 body s0 s1
unfolding spawn
s0-Step = fetches 1 refl refl

schedule : Reach 0 2 body s0 s5
unfolding spawn fetch finish body
schedule =
    next
      (next (next (next (next here s0-Step) (fetches 0 refl refl)) (finishes 0 1 refl refl))
        (finishes 1 0 refl refl))
      (fetches 1 refl refl)

all_stopped : (w : ℕ) (v : Worker) → get_elem? s5.workers w ≡ some v → v ≡ stopped
unfolding spawn fetch finish body
all_stopped zero v h = cc
all_stopped (suc zero) v h = cc
all_stopped (suc (suc w)) v h = cc

run_chunks_parallel-serial_example :
    after_join 0 2 body none s5 ≡ run_chunks_serial 0 2 body 2 0 (replicate 2 0)
run_chunks_parallel-serial_example =
    run_chunks_parallel-serial 0 2 body 2 s5 (omega arith) schedule all_stopped

Step-steps_left_example : steps_left 0 2 body s1 < steps_left 0 2 body s0
Step-steps_left_example = Step-steps_left 0 2 body s0 s1 s0-Step

Reach-AllStopped_example : (t : State ℕ) × Reach 0 2 body s2 t × AllStopped 0 2 body t
Reach-AllStopped_example = Reach-AllStopped 0 2 body s2

chunks-total_example : trials_before 200000 (chunk_count 200000) ≡ 200000
chunks-total_example = chunks-total 200000 (omega arith)

chunk_trials_bounds_example : (1 ≤ chunk_trials 200000 3) × (chunk_trials 200000 3 ≤ 65536)
unfolding chunk_count
chunk_trials_bounds_example = chunk_trials_bounds 200000 3 (omega arith) (omega arith)
