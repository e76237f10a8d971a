-- ===== src/Chunks/Seeds.antt =====
-- Seeds, thread counts and the split of the trials into chunks.
use xia_pl.Base.{ℕ, zero, suc, ◌+◌, ◌-◌, ◌*◌, ◌/◌, ◌%◌, ◌^◌, ◌≤◌, ◌<◌, min, ◌≡◌, arith}
use xia_pl.Base.Int.{ℤ}
use xia_pl.Chunks.{resolve_mc_threads, chunk_count, chunk_trials, mc_chunk_trials}

-- With a chunk to run, at least one worker is started and at most one for each chunk.
resolve_mc_threads_bounds :
    (auto_threads : ℕ) (option : ℤ) (total chunks : ℕ)
    → 1 ≤ chunks
    → (1 ≤ resolve_mc_threads auto_threads option total chunks)
      × (resolve_mc_threads auto_threads option total chunks ≤ chunks)
unfolding resolve_mc_threads
resolve_mc_threads_bounds auto_threads option total chunks h = (ground arith, ground arith)

-- The trials of the first `k` chunks.
unfoldable pub trials_before : ℕ → ℕ → ℕ
trials_before total zero = 0
trials_before total (suc k) = trials_before total k + chunk_trials total k

trials_before-min : (total k : ℕ) → trials_before total k ≡ min total (k * mc_chunk_trials)
unfolding trials_before chunk_trials
trials_before-min total zero = omega arith
trials_before-min total (suc k) = omega (arith, trials_before-min total k)

-- Where the rounding up does not wrap, the chunks together run exactly the trials asked for.
pub chunks-total :
    (total : ℕ) → total + 65535 < 2 ^ 64 → trials_before total (chunk_count total) ≡ total
unfolding chunk_count
chunks-total total h = omega (arith, trials_before-min total ((total + 65536 - 1) % 2 ^ 64 / 65536))

-- Every chunk of a run has at least one trial and at most 65536.
pub chunk_trials_bounds :
    (total k : ℕ)
    → k < chunk_count total
    → total + 65535 < 2 ^ 64
    → (1 ≤ chunk_trials total k) × (chunk_trials total k ≤ 65536)
unfolding chunk_count chunk_trials
chunk_trials_bounds total k l h = (omega arith, omega arith)
