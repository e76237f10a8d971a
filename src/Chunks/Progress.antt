-- ===== src/Chunks/Progress.antt =====
-- Every schedule of the workers ends.
use xia_pl.Base.{
  ℕ, zero, suc, ◌+◌, ◌-◌, ◌*◌, ◌<◌, ◌≡◌, ◌⊎◌, inl, inr, refl, ap, some, List, [], ◌∷◌, set,
  get_elem?, arith,
}
use xia_pl.Base.Errors.{Result}
use xia_pl.Chunks.{
  Worker, idle, running, stopped, State, fetch, finish, Step, fetches, finishes, AllStopped, Reach,
  here, next,
}

unfoldable pub worker_weight : Worker → ℕ
worker_weight idle = 1
worker_weight (running k) = 2
worker_weight stopped = 0

unfoldable pub weight : List Worker → ℕ
unfolding worker_weight
weight [] = 0
weight (x ∷ xs) = worker_weight x + weight xs

weight-set :
    (ws : List Worker) (w : ℕ) (u x : Worker)
    → get_elem? ws w ≡ some u
    → weight (set ws w x) + worker_weight u ≡ weight ws + worker_weight x
unfolding weight
weight-set [] w u x h = cc
weight-set (y ∷ ys) zero u x h = ground (arith, ap worker_weight {x = y} {y = u})
weight-set (y ∷ ys) (suc w) u x h = omega (arith, weight-set ys w u x h)

module _ {C : Type 0} (unfilled : C) (num_chunks : ℕ) (body : ℕ → Result C) where
  -- The steps that are still to come, at most.
  unfoldable pub steps_left : State C → ℕ
  steps_left s = 2 * (num_chunks - s.next_chunk) + weight s.workers

  -- Every step of a worker lowers `steps_left`, so no schedule goes on for ever.
  pub Step-steps_left :
      (s t : State C) → Step unfilled num_chunks body s t → steps_left t < steps_left s
  unfolding steps_left fetch finish worker_weight
  Step-steps_left s t (fetches w h e) = ground (
    arith,
    e,
    weight-set s.workers w idle stopped h,
    weight-set s.workers w idle (running s.next_chunk) h,
  )
  Step-steps_left s t (finishes w k h e) = ground (
    arith,
    e,
    weight-set s.workers w (running k) stopped h,
    weight-set s.workers w (running k) idle h,
  )

  find_step :
      (s : State C) (ws : List Worker)
      → ((w : ℕ) (v : Worker) → get_elem? ws w ≡ some v → v ≡ stopped)
        ⊎ ((w : ℕ) × ((get_elem? ws w ≡ some idle)
              ⊎ ((k : ℕ) × (get_elem? ws w ≡ some (running k)))))
  find_step s [] = inl (λ w v h. cc)
  find_step s (idle ∷ ws) = inr (0, inl refl)
  find_step s (running k ∷ ws) = inr (0, inr (k, refl))
  find_step s (stopped ∷ ws) = elim (find_step s ws) [
    | inl all ↦ inl (go all)
    | inr (w, d) ↦ inr (suc w, d)
  ]
    where
      go :
          ((w : ℕ) (v : Worker) → get_elem? ws w ≡ some v → v ≡ stopped)
          → (w : ℕ) (v : Worker) → get_elem? (stopped ∷ ws) w ≡ some v
          → v ≡ stopped
      go all zero v h = cc
      go all (suc w) v h = all w v h

  -- In every state either all workers have stopped or some worker can take a step: the run never
  -- gets stuck.
  AllStopped-or-Step :
      (s : State C)
      → AllStopped unfilled num_chunks body s ⊎ ((t : State C) × Step unfilled num_chunks body s t)
  AllStopped-or-Step s = elim (find_step s s.workers) [
    | inl all ↦ inl all
    | inr (w, inl h) ↦ inr (fetch unfilled num_chunks body s w, fetches w h refl)
    | inr (w, inr (k, h)) ↦ inr (finish unfilled num_chunks body s w k, finishes w k h refl)
  ]

  prepend :
      {s t u : State C}
      → Step unfilled num_chunks body s t
      → Reach unfilled num_chunks body t u
      → Reach unfilled num_chunks body s u
  prepend first here = next here first
  prepend first (next r last) = next (prepend first r) last

  run_out :
      (n : ℕ) (s : State C)
      → steps_left s < n
      → (t : State C) × Reach unfilled num_chunks body s t × AllStopped unfilled num_chunks body t
  run_out zero s h = absurd (omega arith)
  run_out (suc n) s h = elim (AllStopped-or-Step s) [
    | inl all ↦ (s, here, all)
    | inr (t, step) ↦
        let (u, r, all) = run_out n t (omega (arith, Step-steps_left s t step)) in
        (u, prepend step r, all)
  ]

  -- From every state some schedule of the workers leads to a state in which all of them have stopped.
  pub Reach-AllStopped :
      (s : State C)
      → (t : State C) × Reach unfilled num_chunks body s t × AllStopped unfilled num_chunks body t
  Reach-AllStopped s = run_out (suc (steps_left s)) s (omega arith)
