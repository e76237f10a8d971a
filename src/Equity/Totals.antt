-- ===== src/Equity/Totals.antt =====
-- The chunks and the totals of simulate_multiway in src/core/equity_hands.cpp for as many players as
-- there may be: no exception is thrown.
use xia_pl.Base.{
  ℕ, suc, ◌-◌, bit_and, ◌≡◌, refl, sym, ap, ◌∙◌, Bool, true, false, ◌==◌, ◌!=◌, ltb, if◌then◌else◌,
  Option, none, some, List, [], ◌∷◌, length, length-set, length-replicate, subst, arith, Bool-cases,
  inl, inr,
}
use xia_pl.Base.Int.{pos}
use xia_pl.Base.Errors.{Result, ok, ◌>>=◌}
use xia_pl.Rng.{FastRng}
use xia_pl.Judge.{judge_holdem_mask, judge_plo_mask, score_players_holdem, mask_to_indices}
use xia_pl.Chunks.Driver.{serial_outcome}
use xia_pl.Chunks.Related.{Both, serial_outcome-related}
use xia_pl.BoardSample.{sample_boards, enumerate_boards}
use xia_pl.Weights.{Weights}
use xia_pl.Equity.{Shares}
use xia_pl.Equity.Trials.{
  Counters, add_u64, add_lists, new_counters, count_winners, run_trial, run_trials, run_chunk,
  reduce_chunk,
}
use xia_pl.Equity.Stats.{join, strip, board_count, runs_exact}
use xia_pl.Equity.Runs.{exact_totals}
use xia_pl.Equity.Room.{max_players}
use xia_pl.Equity.Serial.{multiway_totals}
use xia_pl.Equity.Agreement.{add_shares-counts}

pub Returns : {A : Type 0} → Result A → Type 0
Returns {A} r = (a : A) × (r ≡ ok a)

judge_Returns :
    (use_plo : Bool) (holes : List ℕ) (b : ℕ)
    → ltb (max_players use_plo) (length holes) ≡ false
    → Returns (if use_plo then judge_plo_mask holes b else judge_holdem_mask holes b)
unfolding Returns judge_plo_mask judge_holdem_mask score_players_holdem
judge_Returns true [] b e = (_, refl)
judge_Returns true (h ∷ hs) b e = rw e (_, refl)
judge_Returns false [] b e = (_, refl)
judge_Returns false (h ∷ hs) b e = rw e (_, refl)

length-add_lists :
    (xs ys : List ℕ) → length xs ≡ length ys → length (add_lists add_u64 xs ys) ≡ length xs
unfolding add_lists
length-add_lists [] ys e = refl
length-add_lists (x ∷ xs) [] e = refl
length-add_lists (x ∷ xs) (y ∷ ys) e = ap suc (length-add_lists xs ys (omega arith))

length-strip : (holes : List ℕ) → length (strip holes) ≡ length holes
length-strip [] = refl
length-strip (h ∷ hs) = ap suc (length-strip hs)

module _ {W : Type 0} ⦃w : Weights W⦄ ⦃s : Shares W⦄ where
  -- as many counts as players
  pub data Sized (n : ℕ) : Option (Counters W) → Type 0 where
    out_of_fuel : Sized n none
    sized : {c : Counters W} → length c.win_counts ≡ n → Sized n (some c)

  length-count_winners :
      (c : Counters W) (winners : ℕ)
      → length (count_winners c winners).win_counts ≡ length c.win_counts
  unfolding count_winners
  length-count_winners c winners = elim (Bool-cases (winners == 0)) [
    | inl e ↦ rw e refl
    | inr e ↦ elim (Bool-cases (bit_and winners (winners - 1) == 0)) [
      | inl f ↦ rw (e, f) (length-set c.win_counts _ _)
      | inr f ↦ rw (e, f) (ap length (add_shares-counts _ (mask_to_indices winners) c).0)
    ]
  ]

  run_trials_sized :
      (use_plo : Bool) (holes bs : List ℕ) (c : Counters W)
      → ltb (max_players use_plo) (length holes) ≡ false
      → (c' : Counters W) × (run_trials use_plo holes c bs ≡ ok c')
        × (length c'.win_counts ≡ length c.win_counts)
  unfolding run_trials run_trial Returns
  run_trials_sized use_plo holes [] c few = (c, refl, refl)
  run_trials_sized use_plo holes (b ∷ bs) c few =
      let (m, e) = judge_Returns use_plo holes b few in
      let (c', f, l) = run_trials_sized use_plo holes bs (count_winners c m) few in
      (c', rw e f, l ∙ length-count_winners c m)

  chunk_Both :
      (fuel : ℕ) (use_plo : Bool) (holes deck : List ℕ) (draws fixed trials : ℕ) (rng : FastRng)
      → ltb (max_players use_plo) (length holes) ≡ false
      → Both
          (λ c (u : Unit {0}). Sized (length holes) c)
          (run_chunk fuel use_plo holes deck draws fixed trials rng)
          (ok tt)
  unfolding run_chunk
  chunk_Both fuel use_plo holes deck draws fixed trials rng few =
      elim (sample_boards fuel deck draws trials fixed rng)
        as (λ x.
          Both (λ c (u : Unit {0}). Sized (length holes) c)
            (elim x [
              | none ↦ ok none
              | some (boards, last) ↦
                  (run_trials use_plo holes (new_counters (length holes)) boards >>= λ c.
                  ok (some c))
            ])
            (ok tt)) [
              | none ↦ record {
                left = none;
                right = tt;
                left_ok = refl;
                right_ok = refl;
                related = out_of_fuel;
              }
              | some (boards, last) ↦
                  let (c, e, l) =
                    run_trials_sized use_plo holes boards (new_counters (length holes)) few in
                  record {
                    left = some c;
                    right = tt;
                    left_ok = rw e refl;
                    right_ok = refl;
                    related = sized (l ∙ length-replicate (length holes) 0);
                  }
            ]

  -- The totals so far are no exception and have as many counts as players.
  pub data SizedTotals (n : ℕ) : Result (Option (Counters W)) → Unit {0} → Type 0 where
    totals : {o : Option (Counters W)} → Sized n o → SizedTotals n (ok o) tt

  reduce-SizedTotals :
      (n : ℕ) (a : Result (Option (Counters W))) (u : Unit {0}) (c : Option (Counters W))
      (v : Unit {0})
      → SizedTotals n a u
      → Sized n c
      → SizedTotals n (reduce_chunk n a c) tt
  unfolding reduce_chunk
  reduce-SizedTotals n a u c v (totals out_of_fuel) q = totals out_of_fuel
  reduce-SizedTotals n a u c v (totals (sized p)) out_of_fuel = totals out_of_fuel
  reduce-SizedTotals n a u c v (totals (sized {c = t} p)) (sized {c = d} q) =
      let same : (length d.win_counts != n) ≡ false = ground arith in
      rw same (totals (sized (length-add_lists t.win_counts d.win_counts (p ∙ sym q) ∙ p)))

  ok_of_totals :
      (n : ℕ) (a : Result (Option (Counters W))) (u : Unit {0})
      → SizedTotals n a u
      → (o : Option (Counters W)) × (a ≡ ok o)
  ok_of_totals n a u (totals {o = o} p) = (o, refl)

  module _ (fuel iterations fixed master_seed : ℕ) (use_plo : Bool) (holes deck : List ℕ)
      (few : ltb (max_players use_plo) (length holes) ≡ false) where
    exact_ok :
        (o : Option (Counters W)) × (exact_totals fuel holes iterations fixed use_plo master_seed
            deck
          ≡ ok o)
    unfolding exact_totals
    exact_ok =
        elim (enumerate_boards fuel deck (pos (5 - board_count fixed)) fixed)
          as (λ x.
            (o : Option (Counters W)) × ((elim x [
              | none ↦ ok none
              | some boards ↦
                  (run_trials use_plo (strip holes) (new_counters (length holes)) boards >>= λ c.
                  ok (some c))
            ])
              ≡ ok o)) [
                | none ↦ (none, refl)
                | some boards ↦
                    let (c, e, l) =
                      run_trials_sized use_plo (strip holes) boards (new_counters (length holes))
                        (rw (length-strip holes) few) in
                    (some c, rw e refl)
              ]

    sampled_ok :
        (o : Option (Counters W)) × (join (
            serial_outcome
              (some (new_counters 0))
              (run_chunk fuel use_plo (strip holes) deck (5 - board_count fixed) fixed)
              (reduce_chunk (length holes))
              (ok (some (new_counters (length holes))))
              iterations
              master_seed)
          ≡ ok o)
    sampled_ok =
        let n : ℕ = length holes in
        let (a, b, e, f, t) =
          serial_outcome-related (λ c (u : Unit {0}). Sized n c) (SizedTotals n)
            (some (new_counters 0)) tt _ (λ k r. ok tt) (reduce_chunk n) (λ u v. tt)
            (ok (some (new_counters n))) tt iterations master_seed (reduce-SizedTotals n)
            (λ trials rng.
              subst
                (λ m.
                  Both (λ c (u : Unit {0}). Sized m c)
                    (run_chunk fuel use_plo (strip holes) deck (5 - board_count fixed) fixed trials
                      rng)
                    (ok tt))
                (length-strip holes)
                (chunk_Both fuel use_plo (strip holes) deck (5 - board_count fixed) fixed trials rng
                  (rw (length-strip holes) few)))
            (totals (sized (length-replicate n 0))) in
        let (o, g) = ok_of_totals n a b t in (o, rw (e, g) refl)

    pub multiway_totals_ok :
        (o : Option (Counters W)) × (multiway_totals fuel holes iterations fixed use_plo master_seed
            deck
          ≡ ok o)
    unfolding multiway_totals
    multiway_totals_ok = elim (Bool-cases (runs_exact deck (5 - board_count fixed) iterations)) [
      | inl e ↦ let (o, f) = exact_ok in (o, rw e f)
      | inr e ↦ let (o, f) = sampled_ok in (o, rw e f)
    ]
