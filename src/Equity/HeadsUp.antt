-- ===== src/Equity/HeadsUp.antt =====
-- simulate_heads_up of src/core/equity_hands.cpp against simulate_multiway: the optimised routine for two
-- Hold'em hands and the general one.
use xia_pl.Base.{
  ℕ, ◌-◌, bit_and, ◌≡◌, refl, ap, sym, Bool, true, false, ltb, Option, none, some, List, [], ◌∷◌,
  length, arith, Bool-cases, inl, inr,
}
use xia_pl.Base.Int.{ℤ, pos}
use xia_pl.Base.Errors.{Result, ok, ◌>>=◌}
use xia_pl.Mask.{full_deck_mask, popcount64}
use xia_pl.Rng.{FastRng}
use xia_pl.Chunks.Driver.{serial_outcome}
use xia_pl.Chunks.Related.{Both, serial_outcome-related}
use xia_pl.BoardSample.{build_used_mask, sample_boards, enumerate_boards}
use xia_pl.Weights.{Weights}
use xia_pl.Equity.{Shares}
use xia_pl.Equity.Trials.{
  Counters, HuCounters, add_lists, add_u64, new_counters, run_trials, run_chunk, reduce_chunk,
  new_hu, hu_trials, hu_chunk, hu_reduce,
}
use xia_pl.Equity.Stats.{
  Stats, HuStats, map_option, join, strip, deck_without, stats_of, hu_stats_of, runs_exact,
  board_count,
}
use xia_pl.Equity.Runs.{exact_totals, SimulateMultiway, SimulateHeadsUp}
use xia_pl.Equity.Serial.{
  multiway_totals, multiway_outcome, heads_up_outcome, multiway_outcome_lem, heads_up_outcome_lem,
}
use xia_pl.Equity.Room.{deck_without-completes}
use xia_pl.Equity.Agreement.{Agree, trials-Agree, new-Agree}

module _ {W : Type 0} ⦃w : Weights W⦄ ⦃s : Shares W⦄ where
  -- Both runs lack the fuel, or both have counters, which agree.
  pub data SameCounts : Option (Counters W) → Option HuCounters → Type 0 where
    out_of_fuel : SameCounts none none
    counted : {c : Counters W} {d : HuCounters} → Agree c d → SameCounts (some c) (some d)

  pub data SameTotals : Result (Option (Counters W)) → Option HuCounters → Type 0 where
    totals :
        {o : Option (Counters W)} {d : Option HuCounters} → SameCounts o d → SameTotals (ok o) d

  chunk-SameCounts :
      (fuel h v : ℕ) (deck : List ℕ) (draws fixed trials : ℕ) (rng : FastRng)
      → Both SameCounts
          (run_chunk fuel false (h ∷ v ∷ []) deck draws fixed trials rng)
          (hu_chunk fuel h v deck draws fixed trials rng)
  unfolding run_chunk hu_chunk
  chunk-SameCounts fuel h v deck draws fixed trials rng =
      elim (sample_boards fuel deck draws trials fixed rng)
        as (λ x.
          Both SameCounts
            (elim x [
              | none ↦ ok none
              | some (boards, last) ↦
                  (run_trials false (h ∷ v ∷ []) (new_counters (length (h ∷ v ∷ []))) boards
                    >>= λ c. ok (some c))
            ])
            (elim x [
              | none ↦ ok none
              | some (boards, last) ↦ ok (some (hu_trials h v new_hu boards))
            ])) [
              | none ↦ record {
                left = none;
                right = none;
                left_ok = refl;
                right_ok = refl;
                related = out_of_fuel;
              }
              | some (boards, last) ↦
                  let (c, e, a) = trials-Agree h v boards (new_counters 2) new_hu new-Agree in
                  record {
                    left = some c;
                    right = _;
                    left_ok = rw e refl;
                    right_ok = refl;
                    related = counted a;
                  }
            ]

  reduce-SameTotals :
      (a : Result (Option (Counters W))) (b : Option HuCounters) (c : Option (Counters W))
      (d : Option HuCounters)
      → SameTotals a b
      → SameCounts c d
      → SameTotals (reduce_chunk 2 a c) (hu_reduce b d)
  unfolding reduce_chunk hu_reduce add_lists
  reduce-SameTotals a b c d (totals out_of_fuel) q = totals out_of_fuel
  reduce-SameTotals a b c d (totals (counted p)) out_of_fuel = totals out_of_fuel
  reduce-SameTotals a b c d (totals (counted p)) (counted q) = rw q.wins (
      totals (
        counted (record {
          vill_wins = add_u64 p.vill_wins q.vill_wins;
          wins = rw p.wins refl;
          chops = rw (p.chops, q.chops) refl;
          trials = rw (p.trials, q.trials) refl;
        })))

  -- What the two simulators report of their runs.
  pub data SameReport : Result (Option (HuStats W)) → Result (Option (Stats W)) → Type 0 where
    out_of_fuel : SameReport (ok none) (ok none)
    reported :
        {hu : HuStats W} {multi : Stats W} (vill_winrate : W)
        → multi.winrates ≡ hu.hero_winrate ∷ vill_winrate ∷ []
        → multi.chop_rate ≡ hu.chop_rate
        → multi.trials ≡ hu.trials
        → multi.exact ≡ hu.exact
        → SameReport (ok (some hu)) (ok (some multi))

  counts-SameReport :
      (exact : Bool) (o : Option (Counters W)) (d : Option HuCounters)
      → SameCounts o d
      → SameReport (ok (map_option (hu_stats_of exact) d)) (ok (map_option (stats_of 2 exact) o))
  unfolding hu_stats_of stats_of
  counts-SameReport exact o d out_of_fuel = out_of_fuel
  counts-SameReport exact o d (counted {d = d'} p) = elim (Bool-cases (ltb 0 d'.trials)) [
    | inl e ↦
        reported (s.divide (s.of_count p.vill_wins) (s.of_count d'.trials))
          (rw (p.trials, e, p.wins) refl) (rw (p.trials, e, p.chops) refl) p.trials refl
    | inr e ↦ reported w.nought (rw (p.trials, e) refl) (rw (p.trials, e) refl) p.trials refl
  ]

  join-SameReport :
      (a : Result (Option (Counters W))) (b : Option HuCounters)
      → SameTotals a b
      → SameReport
          (ok (map_option (hu_stats_of false) b))
          (a >>= λ o. ok (map_option (stats_of 2 false) o))
  join-SameReport a b (totals {o = o} p) = counts-SameReport false o b p

  module _ (fuel h v iterations fixed master_seed : ℕ) (deck : List ℕ) where
    enumerated-SameReport :
        SameReport
          (ok (
            map_option
              (λ boards.
                hu_stats_of true
                  (hu_trials (bit_and h full_deck_mask) (bit_and v full_deck_mask) new_hu boards))
              (enumerate_boards fuel deck (pos (5 - board_count fixed)) fixed)))
          (exact_totals fuel (h ∷ v ∷ []) iterations fixed false master_seed deck >>= λ o.
            ok (map_option (stats_of 2 true) o))
    unfolding exact_totals
    enumerated-SameReport =
        elim (enumerate_boards fuel deck (pos (5 - board_count fixed)) fixed)
          as (λ x.
            SameReport
              (ok (
                map_option
                  (λ boards.
                    hu_stats_of true (
                      hu_trials (bit_and h full_deck_mask) (bit_and v full_deck_mask) new_hu
                        boards))
                  x))
              ((elim x [
                | none ↦ ok none
                | some boards ↦
                    (run_trials false (strip (h ∷ v ∷ [])) (new_counters 2) boards >>= λ c.
                    ok (some c))
              ])
                >>= λ o. ok (map_option (stats_of 2 true) o))) [
                  | none ↦ out_of_fuel
                  | some boards ↦
                      let (c, e, a) =
                        trials-Agree {W = W} (bit_and h full_deck_mask) (bit_and v full_deck_mask)
                          boards (new_counters 2) new_hu new-Agree in
                      rw e (counts-SameReport true _ _ (counted a))
                ]

    sampled-SameReport :
        SameReport
          (serial_outcome
              (some new_hu)
              (hu_chunk fuel
                (bit_and h full_deck_mask)
                (bit_and v full_deck_mask)
                deck
                (5 - board_count fixed)
                fixed)
              hu_reduce
              (some new_hu)
              iterations
              master_seed
            >>= λ o. ok (map_option (hu_stats_of false) o))
          (join (
              serial_outcome
                (some (new_counters 0))
                (run_chunk fuel false (strip (h ∷ v ∷ [])) deck (5 - board_count fixed) fixed)
                (reduce_chunk 2)
                (ok (some (new_counters 2)))
                iterations
                master_seed)
            >>= λ o. ok (map_option (stats_of 2 false) o))
    sampled-SameReport =
        let (a, b, e, f, same) =
          serial_outcome-related SameCounts SameTotals (some (new_counters 0)) (some new_hu) _ _
            (reduce_chunk 2) hu_reduce (ok (some (new_counters 2))) (some new_hu) iterations
            master_seed reduce-SameTotals
            (chunk-SameCounts fuel (bit_and h full_deck_mask) (bit_and v full_deck_mask) deck
              (5 - board_count fixed) fixed)
            (totals (counted new-Agree)) in
        rw (e, f) (join-SameReport a b same)

  -- On two hands and a board of at most five cards that build_used_mask accepts, with the iterations
  -- and the seed the same, simulate_heads_up and simulate_multiway have the same outcome, whatever the threads
  -- of each: both report, with the hero's win rate, the chop rate, the number of trials and exactness equal, or
  -- both run out of fuel.
  pub SimulateHeadsUp-SimulateMultiway :
      (fuel h v iterations fixed used master_seed auto_threads auto_threads' : ℕ)
      (threads threads' : ℤ) (r : Result (Option (HuStats W))) (r' : Result (Option (Stats W)))
      → bit_and fixed full_deck_mask ≡ fixed
      → build_used_mask (h ∷ v ∷ []) fixed "simulate_multiway" 2 ≡ ok used
      → ltb 5 (board_count fixed) ≡ false
      → SimulateHeadsUp fuel
          (bit_and h full_deck_mask)
          (bit_and v full_deck_mask)
          iterations
          fixed
          (deck_without used)
          master_seed
          auto_threads
          threads
          r
      → SimulateMultiway fuel
          (h ∷ v ∷ [])
          iterations
          fixed
          false
          master_seed
          auto_threads'
          threads'
          r'
      → SameReport r r'
  unfolding heads_up_outcome multiway_outcome multiway_totals
  SimulateHeadsUp-SimulateMultiway fuel h v iterations fixed used master_seed auto_threads
        auto_threads' threads threads' r r' full e five run run' =
      let holes : List ℕ = h ∷ v ∷ [] in
      let deck : List ℕ = deck_without used in
      let enough = λ (u : ℕ) (b : build_used_mask holes fixed "simulate_multiway" 2 ≡ ok u).
        deck_without-completes holes fixed u 2 "simulate_multiway" (omega arith) (omega arith) b in
      rw
        (
          heads_up_outcome_lem fuel _ _ iterations fixed deck master_seed auto_threads threads r run
              (rw (ap popcount64 (sym full)) (enough used e)),
          multiway_outcome_lem fuel holes iterations fixed false master_seed auto_threads' threads'
              r' run' enough,
          e,
          five,
        )
        (elim (Bool-cases (runs_exact deck (5 - board_count fixed) iterations)) [
          | inl p ↦
              rw (heads_up_outcome, ap popcount64 (sym full), p)
                (enumerated-SameReport fuel h v iterations fixed master_seed deck)
          | inr p ↦
              rw (heads_up_outcome, ap popcount64 (sym full), p)
                (sampled-SameReport fuel h v iterations fixed master_seed deck)
        ])
