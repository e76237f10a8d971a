-- ===== src/Chunks/Schedule.antt =====
-- What holds after any steps of the workers.
use xia_pl.Base.{
  ℕ, zero, suc, ◌+◌, ◌≤◌, ◌<◌, ◌≡◌, ◌≢◌, ◌⊎◌, inl, inr, refl, ap, sym, ◌∙◌, leb, none, some, List,
  [], ◌∷◌, length, replicate, set, get_elem?, arith, length-set, length-replicate,
  get_elem?-set_self, get_elem?-set_ne, get_elem?-replicate, Bool-cases,
}
use xia_pl.Base.Errors.{Result, ok, err, Exception}
use xia_pl.Chunks.{
  Worker, idle, running, stopped, State, spawn, fetch, finish, fetches, finishes, Reach, here, next,
}
use native.Mathlib.Decide.{ℕ_discrete}

pub lt_length {ℓ} :
    {A : Type ℓ} (xs : List A) (i : ℕ) {v : A} → get_elem? xs i ≡ some v → i < length xs
lt_length [] i h = cc
lt_length (x ∷ xs) zero h = omega arith
lt_length (x ∷ xs) (suc i) h = omega (arith, lt_length xs i h)

elem_of_replicate {ℓ} :
    {A : Type ℓ} (n i : ℕ) (a : A) {v : A} → get_elem? (replicate n a) i ≡ some v → v ≡ a
elem_of_replicate zero i a h = cc
elem_of_replicate (suc n) zero a h = cc
elem_of_replicate (suc n) (suc i) a h = elem_of_replicate n i a h

set_cases {ℓ} :
    {A : Type ℓ} (xs : List A) (i : ℕ) (x : A) (j : ℕ) {v : A}
    → get_elem? (set xs i x) j ≡ some v
    → (v ≡ x) ⊎ (get_elem? xs j ≡ some v)
set_cases [] i x j h = cc
set_cases (y ∷ ys) zero x zero h = inl cc
set_cases (y ∷ ys) zero x (suc j) h = inr h
set_cases (y ∷ ys) (suc i) x zero h = inr h
set_cases (y ∷ ys) (suc i) x (suc j) h = set_cases ys i x j h

still_running :
    (ws : List Worker) (w : ℕ) (x u : Worker) (j : ℕ)
    → get_elem? ws w ≡ some u
    → u ≢ running j
    → (w' : ℕ) × (get_elem? ws w' ≡ some (running j))
    → (w' : ℕ) × (get_elem? (set ws w x) w' ≡ some (running j))
still_running ws w x u j h ne (w', g) =
    (w', get_elem?-set_ne ws w w' x (λ e. ne (cc (h, g, ap (get_elem? ws) e))) ∙ g)

pub Result-cases {ℓ} :
    {A : Type ℓ} (r : Result A) → ((a : A) × (r ≡ ok a)) ⊎ ((e : Exception) × (r ≡ err e))
Result-cases (ok a) = inl (a, refl)
Result-cases (err e) = inr (e, refl)

module _ {C : Type 0} (unfilled : C) (num_chunks : ℕ) (body : ℕ → Result C) where
  -- Chunk k has run: its result or its exception stands in slot k.
  abbrev pub HasRun : State C → ℕ → Type 0
  HasRun s k =
      ((c : C) × (body k ≡ ok c)
        × (get_elem? s.chunk_results k ≡ some c)
        × (get_elem? s.chunk_errors k ≡ some none))
      ⊎ ((e : Exception) × (body k ≡ err e) × (get_elem? s.chunk_errors k ≡ some (some e)))

  abbrev pub IsRunning : State C → ℕ → Type 0
  IsRunning s k = (w : ℕ) × (get_elem? s.workers w ≡ some (running k))

  -- A worker stops only when the chunks have run out or one of them has thrown.
  abbrev pub HasReason : State C → Type 0
  HasReason s =
      (num_chunks ≤ s.next_chunk)
      ⊎ ((k : ℕ) × (e : Exception) × (k < s.next_chunk) × (body k ≡ err e))

  pub record Inv (s : State C) : Type 0 where
    pub results_length : length s.chunk_results ≡ num_chunks
    pub errors_length : length s.chunk_errors ≡ num_chunks
    pub no_error :
        (k : ℕ) → k < num_chunks → s.next_chunk ≤ k → get_elem? s.chunk_errors k ≡ some none
    pub drawn :
        (k : ℕ)
        → k < num_chunks
        → k < s.next_chunk
        → HasRun s k ⊎ (IsRunning s k × (get_elem? s.chunk_errors k ≡ some none))
    pub in_range :
        (w k : ℕ) → get_elem? s.workers w ≡ some (running k) → (k < num_chunks) × (k < s.next_chunk)
    pub reason : (w : ℕ) → get_elem? s.workers w ≡ some stopped → HasReason s

  spawn-Inv : (nthreads : ℕ) → Inv (spawn unfilled num_chunks body nthreads)
  unfolding spawn
  spawn-Inv nthreads = record {
    results_length = length-replicate num_chunks unfilled;
    errors_length = length-replicate num_chunks none;
    no_error = λ k h _. get_elem?-replicate num_chunks k none h;
    drawn = λ k h l. absurd (omega arith);
    in_range = λ w k h. ground (arith, elem_of_replicate nthreads w idle h);
    reason = λ w h. ground (arith, elem_of_replicate nthreads w idle h);
  }

  module _ (s : State C) (w : ℕ) (h : get_elem? s.workers w ≡ some idle) (v : Inv s) where
    others_run :
        (x : Worker) (j : ℕ)
        → IsRunning s j
        → (w' : ℕ) × (get_elem? (set s.workers w x) w' ≡ some (running j))
    others_run x j = still_running s.workers w x idle j h (λ e. cc)

    draw-Inv :
        s.next_chunk < num_chunks
        → Inv (record s {
          next_chunk = s.next_chunk + 1;
          workers = set s.workers w (running s.next_chunk);
        })
    draw-Inv more = record {
      results_length = v.results_length;
      errors_length = v.errors_length;
      no_error = λ j a b. v.no_error j a (omega arith);
      drawn = λ j a b. elim (ℕ_discrete j s.next_chunk) [
        | yes e ↦ inr (
          (
            w,
            get_elem?-set_self s.workers w _ (lt_length _ w h) ∙ ap (λ t. some (running t)) (sym e),
          ),
          v.no_error j a (omega arith),
        )
        | no ne ↦ elim (v.drawn j a (omega arith)) [
          | inl done ↦ inl done
          | inr r ↦ inr (others_run _ j r.0, r.1)
        ]
      ];
      in_range = λ w' j g. elim (set_cases s.workers w (running s.next_chunk) w' g) [
        | inl e ↦ ground arith
        | inr old ↦ (omega (arith, v.in_range w' j old), omega (arith, v.in_range w' j old))
      ];
      reason = λ w' g. elim (set_cases s.workers w (running s.next_chunk) w' g) [
        | inl e ↦ cc
        | inr old ↦ later (v.reason w' old)
      ];
    }
      where
        later :
            HasReason s
            → HasReason (record s {
              next_chunk = s.next_chunk + 1;
              workers = set s.workers w (running s.next_chunk);
            })
        later (inl a) = inl (omega arith)
        later (inr (k, e, lt, b)) = inr (k, e, omega arith, b)

    stop-Inv :
        num_chunks ≤ s.next_chunk
        → Inv (record s { next_chunk = s.next_chunk + 1; workers = set s.workers w stopped })
    stop-Inv over = record {
      results_length = v.results_length;
      errors_length = v.errors_length;
      no_error = λ j a b. v.no_error j a (omega arith);
      drawn = λ j a b. elim (v.drawn j a (omega arith)) [
        | inl done ↦ inl done
        | inr r ↦ inr (others_run stopped j r.0, r.1)
      ];
      in_range = λ w' j g. elim (set_cases s.workers w stopped w' g) [
        | inl e ↦ cc
        | inr old ↦ (omega (arith, v.in_range w' j old), omega (arith, v.in_range w' j old))
      ];
      reason = λ w' g. inl (omega arith);
    }

    fetch-Inv : Inv (fetch unfilled num_chunks body s w)
    unfolding fetch
    fetch-Inv = elim (Bool-cases (leb num_chunks s.next_chunk)) [
      | inl over ↦ rw (over, fetch) (stop-Inv (ground arith))
      | inr more ↦ rw (more, fetch) (draw-Inv (ground arith))
    ]

  module _ (s : State C) (w k : ℕ) (h : get_elem? s.workers w ≡ some (running k)) (v : Inv s) where
    other_runs :
        (x : Worker) (j : ℕ)
        → k ≢ j
        → IsRunning s j
        → (w' : ℕ) × (get_elem? (set s.workers w x) w' ≡ some (running j))
    other_runs x j ne = still_running s.workers w x (running k) j h (λ e. ne (ground arith))

    stored-Inv :
        (c : C)
        → body k ≡ ok c
        → Inv (record s { workers = set s.workers w idle; chunk_results = set s.chunk_results k c })
    stored-Inv c b = record {
      results_length = length-set s.chunk_results k c ∙ v.results_length;
      errors_length = v.errors_length;
      no_error = v.no_error;
      drawn = λ j a l. elim (ℕ_discrete k j) [
        | yes p ↦ inl (inl (rw (← p) (c, b, get_elem?-set_self s.chunk_results k c room, quiet)))
        | no ne ↦ elim (v.drawn j a l) [
          | inl (inl (c', b', r', e')) ↦
              inl (inl (c', b', get_elem?-set_ne s.chunk_results k j c ne ∙ r', e'))
          | inl (inr x) ↦ inl (inr x)
          | inr r ↦ inr (other_runs idle j ne r.0, r.1)
        ]
      ];
      in_range = λ w' j g. elim (set_cases s.workers w idle w' g) [
        | inl e ↦ cc
        | inr old ↦ v.in_range w' j old
      ];
      reason =
          λ w' g. elim (set_cases s.workers w idle w' g) [ inl e ↦ cc | inr old ↦ v.reason w' old ];
    }
      where
        room : k < length s.chunk_results
        room = omega (arith, v.results_length, v.in_range w k h)

        quiet : get_elem? s.chunk_errors k ≡ some none
        quiet = elim (v.drawn k (v.in_range w k h).0 (v.in_range w k h).1) [
          | inl (inl (c', b', r', e')) ↦ e'
          | inl (inr (e', b', r')) ↦ cc
          | inr r ↦ r.1
        ]

    thrown-Inv :
        (e : Exception)
        → body k ≡ err e
        → Inv (record s {
          workers = set s.workers w stopped;
          chunk_errors = set s.chunk_errors k (some e);
        })
    thrown-Inv e b = record {
      results_length = v.results_length;
      errors_length = length-set s.chunk_errors k (some e) ∙ v.errors_length;
      no_error = λ j a l.
          get_elem?-set_ne s.chunk_errors k j (some e) (λ p. omega (arith, p, v.in_range w k h))
          ∙ v.no_error j a l;
      drawn = λ j a l. elim (ℕ_discrete k j) [
        | yes p ↦ inl (inr (rw (← p) (e, b, get_elem?-set_self s.chunk_errors k (some e) room)))
        | no ne ↦ elim (v.drawn j a l) [
          | inl (inl (c', b', r', e')) ↦
              inl (inl (c', b', r', get_elem?-set_ne s.chunk_errors k j (some e) ne ∙ e'))
          | inl (inr (e', b', r')) ↦
              inl (inr (e', b', get_elem?-set_ne s.chunk_errors k j (some e) ne ∙ r'))
          | inr r ↦
              inr
                (other_runs stopped j ne r.0, get_elem?-set_ne s.chunk_errors k j (some e) ne ∙ r.1)
        ]
      ];
      in_range = λ w' j g. elim (set_cases s.workers w stopped w' g) [
        | inl p ↦ cc
        | inr old ↦ v.in_range w' j old
      ];
      reason = λ w' g. inr (k, e, (v.in_range w k h).1, b);
    }
      where
        room : k < length s.chunk_errors
        room = omega (arith, v.errors_length, v.in_range w k h)

    finish-Inv : Inv (finish unfilled num_chunks body s w k)
    unfolding finish
    finish-Inv = elim (Result-cases (body k)) [
      | inl (c, b) ↦ rw (b, finish) (stored-Inv c b)
      | inr (e, b) ↦ rw (b, finish) (thrown-Inv e b)
    ]

  pub Reach-Inv :
      (nthreads : ℕ) {s : State C}
      → Reach unfilled num_chunks body (spawn unfilled num_chunks body nthreads) s
      → Inv s
  Reach-Inv nthreads here = spawn-Inv nthreads
  Reach-Inv nthreads (next {t} r (fetches w h e)) = rw e (fetch-Inv t w h (Reach-Inv nthreads r))
  Reach-Inv nthreads (next {t} r (finishes w k h e)) =
      rw e (finish-Inv t w k h (Reach-Inv nthreads r))
