-- ===== src/Chunks/Agreement.antt =====
-- However the workers are scheduled, the outcome is that of the serial loop.
use xia_pl.Base.{
  ℕ, zero, suc, ◌+◌, ◌≤◌, ◌<◌, ◌≡◌, inl, inr, refl, ap, sym, ◌∙◌, Option, none, some, List, [], ◌∷◌,
  length, replicate, set, get_elem?, arith, length-set, length-replicate, get_elem?-set_self,
  get_elem?-set_ne, get_elem?_ext,
}
use xia_pl.Base.Errors.{Result, ok, Exception}
use xia_pl.Chunks.{
  Worker, idle, running, stopped, State, spawn, fetch, finish, fetches, finishes, Reach, here, next,
  AllStopped, run_chunks_serial, first_error, after_join,
}
use xia_pl.Chunks.Schedule.{HasRun, Inv, Reach-Inv}
use native.Mathlib.Decide.{ℕ_discrete, dec_lt}

-- Scanning the slots finds the exception at the lowest index.
first_error-some :
    (es : List (Option Exception)) (k : ℕ) (e : Exception)
    → ((i : ℕ) → i < k → get_elem? es i ≡ some none)
    → get_elem? es k ≡ some (some e)
    → first_error es ≡ some e
unfolding first_error
first_error-some [] k e below at = cc
first_error-some (some x ∷ es) zero e below at = cc
first_error-some (some x ∷ es) (suc k) e below at = cc (below 0 (omega arith))
first_error-some (none ∷ es) zero e below at = cc
first_error-some (none ∷ es) (suc k) e below at =
    first_error-some es k e (λ i h. below (suc i) (omega arith)) at

first_error-none :
    (es : List (Option Exception))
    → ((i : ℕ) → i < length es → get_elem? es i ≡ some none)
    → first_error es ≡ none
unfolding first_error
first_error-none [] h = refl
first_error-none (some x ∷ es) h = cc (h 0 (omega arith))
first_error-none (none ∷ es) h = first_error-none es (λ i l. h (suc i) (omega arith))

get_elem?_beyond {ℓ} : {A : Type ℓ} (xs : List A) (i : ℕ) → length xs ≤ i → get_elem? xs i ≡ none
get_elem?_beyond [] i h = refl
get_elem?_beyond (x ∷ xs) zero h = absurd (omega arith)
get_elem?_beyond (x ∷ xs) (suc i) h = get_elem?_beyond xs i (omega arith)

module _ {C : Type 0} (unfilled : C) (num_chunks : ℕ) (body : ℕ → Result C) where
  module _ (s : State C) (v : Inv unfilled num_chunks body s)
      (stop : AllStopped unfilled num_chunks body s) (w : ℕ)
      (halted : get_elem? s.workers w ≡ some stopped) where
    -- A chunk has run if no chunk before it throws.
    complete :
        (k : ℕ)
        → k < num_chunks
        → ((i : ℕ) → i < k → (c : C) × (body i ≡ ok c))
        → HasRun unfilled num_chunks body s k
    complete k lt fine = elim (dec_lt k s.next_chunk) [
      | yes before ↦ elim (v.drawn k lt before) [
        | inl run ↦ run
        | inr ((w', g), q) ↦ cc (stop w' (running k) g)
      ]
      | no after ↦ elim (v.reason w halted) [
        | inl over ↦ absurd (omega arith)
        | inr (j, e, lt', b) ↦ cc (b, (fine j (omega arith)).1)
      ]
    ]

    filled :
        (k : ℕ) (results : List C)
        → k + 0 ≡ num_chunks
        → length results ≡ num_chunks
        → ((i : ℕ) → i < k → get_elem? results i ≡ get_elem? s.chunk_results i)
        → (i : ℕ) → get_elem? s.chunk_results i ≡ get_elem? results i
    filled k results e l h i = elim (dec_lt i k) [
      | yes a ↦ sym (h i a)
      | no a ↦
          get_elem?_beyond s.chunk_results i (omega (arith, v.results_length))
          ∙ sym (get_elem?_beyond results i (omega arith))
    ]

    -- what the serial loop has done before chunk k, as the slots show it
    abbrev Matches : List C → ℕ → Type 0
    Matches results i =
        ((c : C) × (body i ≡ ok c))
        × (get_elem? results i ≡ get_elem? s.chunk_results i)
        × (get_elem? s.chunk_errors i ≡ some none)

    stored :
        (k : ℕ) (results : List C) (c : C)
        → length results ≡ num_chunks
        → body k ≡ ok c
        → get_elem? s.chunk_results k ≡ some c
        → get_elem? s.chunk_errors k ≡ some none
        → k < num_chunks
        → ((i : ℕ) → i < k → Matches results i)
        → (i : ℕ) → i < k + 1
        → Matches (set results k c) i
    stored k results c l b r q lt done i h = elim (ℕ_discrete k i) [
      | yes p ↦ rw (← p) ((c, b), get_elem?-set_self results k c (omega arith) ∙ sym r, q)
      | no ne ↦ let d = done i (omega arith) in (d.0, get_elem?-set_ne results k i c ne ∙ d.1, d.2)
    ]

    agree :
        (left k : ℕ) (results : List C)
        → k + left ≡ num_chunks
        → length results ≡ num_chunks
        → ((i : ℕ) → i < k → Matches results i)
        → after_join unfilled num_chunks body none s
          ≡ run_chunks_serial unfilled num_chunks body left k results
    unfolding after_join run_chunks_serial
    agree zero k results e l done = ground (
      arith,
      first_error-none s.chunk_errors (λ i h. (done i (omega (arith, v.errors_length))).2),
      get_elem?_ext s.chunk_results results (λ i. filled k results e l (λ j h. (done j h).1) i),
    )
    agree (suc left) k results e l done = elim (complete k (omega arith) (λ i h. (done i h).0)) [
      | inl (c, b, r, q) ↦
          rw (b, run_chunks_serial)
            (agree left (k + 1) (set results k c) (omega arith) (length-set results k c ∙ l)
              (λ i h. stored k results c l b r q (omega arith) done i h))
      | inr (x, b, q) ↦
          rw
            (
              b,
              run_chunks_serial,
              first_error-some s.chunk_errors k x (λ i h. (done i h).2) q,
              after_join,
            )
            refl
    ]

  Reach-length :
      (nthreads : ℕ) {s : State C}
      → Reach unfilled num_chunks body (spawn unfilled num_chunks body nthreads) s
      → length s.workers ≡ nthreads
  unfolding spawn fetch finish
  Reach-length nthreads here = length-replicate nthreads idle
  Reach-length nthreads (next {t} r (fetches w h e)) = ground (
    arith,
    e,
    Reach-length nthreads r,
    length-set t.workers w stopped,
    length-set t.workers w (running t.next_chunk),
  )
  Reach-length nthreads (next {t} r (finishes w k h e)) = ground (
    arith,
    e,
    Reach-length nthreads r,
    length-set t.workers w stopped,
    length-set t.workers w idle,
  )

  first_worker :
      (ws : List Worker)
      → 0 < length ws
      → ((v : Worker) → get_elem? ws 0 ≡ some v → v ≡ stopped)
      → get_elem? ws 0 ≡ some stopped
  first_worker [] h stop = absurd (omega arith)
  first_worker (x ∷ xs) h stop = ap some (stop x refl)

  -- With at least one worker thread and no failed spawn, however the workers' steps interleave,
  -- once all of them have stopped the run has the outcome of the serial loop: the same results in
  -- the same slots, or the exception of the lowest chunk that throws.
  pub run_chunks_parallel-serial :
      (nthreads : ℕ) (s : State C)
      → 0 < nthreads
      → Reach unfilled num_chunks body (spawn unfilled num_chunks body nthreads) s
      → AllStopped unfilled num_chunks body s
      → after_join unfilled num_chunks body none s
        ≡ run_chunks_serial unfilled num_chunks body num_chunks 0 (replicate num_chunks unfilled)
  run_chunks_parallel-serial nthreads s pos r stop =
      agree s (Reach-Inv unfilled num_chunks body nthreads r) stop 0
        (first_worker s.workers (omega (arith, Reach-length nthreads r)) (stop 0)) num_chunks 0
        (replicate num_chunks unfilled) (omega arith) (length-replicate num_chunks unfilled)
        (λ i h. absurd (omega arith))
