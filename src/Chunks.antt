-- ===== src/Chunks.antt =====
-- src/core/mc_chunking.h: the chunked Monte Carlo driver. `body k` is what chunk k returns or
-- throws; by the driver's contract it is a function of k alone. The environment and the hardware
-- are read by `auto_threads`, a parameter.
pub mod Schedule
pub mod Agreement
pub mod Progress
pub mod Seeds
pub mod Driver
pub mod Related
use xia_pl.Base.{
  ℕ, zero, suc, ◌+◌, ◌-◌, ◌*◌, ◌/◌, ◌%◌, ◌^◌, ◌≤◌, ◌<◌, min, bit_xor, ◌≡◌, Bool, ◌==◌, leb, ltb,
  if◌then◌else◌, Option, none, some, List, [], ◌∷◌, replicate, set, get_elem?,
}
use xia_pl.Base.Int.{ℤ, pos, negsuc, pos_part, ltb_ℤ}
use xia_pl.Base.Errors.{Result, ok, err, Exception, ◌>>=◌}

abbrev pub mc_chunk_trials : ℕ
mc_chunk_trials = 2 ^ 16

abbrev pub mc_auto_thread_min_trials : ℕ
mc_auto_thread_min_trials = 200000

abbrev pub u64 : ℕ → ℕ
u64 x = x % 2 ^ 64

unfoldable pub splitmix64_mix : ℕ → ℕ
splitmix64_mix z =
    let a = u64 (bit_xor z (z / 2 ^ 30) * 0xBF58476D1CE4E5B9) in
    let b = u64 (bit_xor a (a / 2 ^ 27) * 0x94D049BB133111EB) in bit_xor b (b / 2 ^ 31)

unfoldable pub derive_chunk_seed : ℕ → ℕ → ℕ
derive_chunk_seed s k =
    if k == 0 then s else splitmix64_mix (u64 (s + u64 (u64 (k + 1) * 0x9E3779B97F4A7C15)))

-- A `want` that is not positive is caught at the end; `auto_threads` is a positive `int`.
unfoldable pub resolve_mc_threads : ℕ → ℤ → ℕ → ℕ → ℕ
resolve_mc_threads auto_threads threads_option total_trials num_chunks =
    if leb num_chunks 1
    then 1
    else (let want =
          if ltb_ℤ (pos 0) threads_option
          then pos_part threads_option
          else if ltb_ℤ threads_option (pos 0)
          then 1
          else if leb mc_auto_thread_min_trials total_trials
          then auto_threads
          else 1 in
        let capped = if ltb num_chunks want then num_chunks else want in
        if ltb capped 1 then 1 else capped)

-- What a worker thread is about to do: draw a chunk index, run chunk k, or nothing more.
pub data Worker : Type 0 where
  idle : Worker
  running : ℕ → Worker
  stopped : Worker

pub record State (C : Type 0) : Type 0 where
  pub next_chunk : ℕ
  pub workers : List Worker
  pub chunk_results : List C
  pub chunk_errors : List (Option Exception)

-- the first recorded exception, in chunk order
unfoldable pub first_error : List (Option Exception) → Option Exception
first_error [] = none
first_error (some e ∷ es) = some e
first_error (none ∷ es) = first_error es

module _ {C : Type 0} (unfilled : C) (num_chunks : ℕ) (body : ℕ → Result C) where
  -- `nthreads <= 1`: chunk k and those after it, `left` in all
  unfoldable pub run_chunks_serial : ℕ → ℕ → List C → Result (List C)
  run_chunks_serial zero k results = ok results
  run_chunks_serial (suc left) k results = do
    c ← body k
    run_chunks_serial left (k + 1) (set results k c)

  unfoldable pub spawn : ℕ → State C
  spawn nthreads = record {
    next_chunk = 0;
    workers = replicate nthreads idle;
    chunk_results = replicate num_chunks unfilled;
    chunk_errors = replicate num_chunks none;
  }

  -- Worker w draws an index with `fetch_add`, and stops when there is none left.
  unfoldable pub fetch : State C → ℕ → State C
  fetch s w =
      if leb num_chunks s.next_chunk
      then record s { next_chunk = s.next_chunk + 1; workers = set s.workers w stopped }
      else record s {
        next_chunk = s.next_chunk + 1;
        workers = set s.workers w (running s.next_chunk);
      }

  -- Worker w comes to the end of chunk k: its result goes to slot k, or its exception does, and
  -- the worker stops.
  unfoldable pub finish : State C → ℕ → ℕ → State C
  finish s w k = elim (body k) [
    | ok c ↦ record s { workers = set s.workers w idle; chunk_results = set s.chunk_results k c }
    | err e ↦ record s {
      workers = set s.workers w stopped;
      chunk_errors = set s.chunk_errors k (some e);
    }
  ]

  -- One step of one worker; which worker is up to the scheduler.
  pub data Step (s t : State C) : Type 0 where
    fetches : (w : ℕ) → get_elem? s.workers w ≡ some idle → t ≡ fetch s w → Step s t
    finishes : (w k : ℕ) → get_elem? s.workers w ≡ some (running k) → t ≡ finish s w k → Step s t

  pub data Reach (s : State C) : State C → Type 0 where
    here : Reach s s
    next : {t u : State C} → Reach s t → Step t u → Reach s u

  -- Every worker can be joined.
  abbrev pub AllStopped : State C → Type 0
  AllStopped s = (w : ℕ) (v : Worker) → get_elem? s.workers w ≡ some v → v ≡ stopped

  -- After the joins: the exception of a failed spawn, else the first of the chunks' exceptions,
  -- else the results.
  unfoldable pub after_join : Option Exception → State C → Result (List C)
  after_join (some e) s = err e
  after_join none s = elim (first_error s.chunk_errors) [
    | some e ↦ err e
    | none ↦ ok s.chunk_results
  ]

-- The chunks of a run: how many, and how many trials chunk k has.
unfoldable pub chunk_count : ℕ → ℕ
chunk_count total_trials = u64 (total_trials + mc_chunk_trials - 1) / mc_chunk_trials

unfoldable pub chunk_trials : ℕ → ℕ → ℕ
chunk_trials total_trials k = min mc_chunk_trials (total_trials - k * mc_chunk_trials)
