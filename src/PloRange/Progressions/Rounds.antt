-- ===== src/PloRange/Progressions/Rounds.antt =====
-- The loop of an open progression in src/core/range_plo.cpp.
use xia_pl.Base.{
  ℕ, zero, suc, ◌+◌, ◌≤◌, ◌≡◌, ◌≢◌, ◌⊎◌, inl, inr, refl, ap, ◌∙◌, true, false, ◌&&◌, ◌==◌, ◌!=◌,
  ltb, none, List, [], ◌∷◌, get_or, All, arith, Option-cases,
}
use xia_pl.Base.Int.{ℤ, pos, negsuc, ◌+ℤ◌}
use xia_pl.Base.Errors.{ok}
use xia_pl.Text.{Text}
use xia_pl.PloPattern.{PloPattern}
use xia_pl.PloRange.Patterns.{parse_pattern}
use xia_pl.PloRange.Progressions.{
  shift_ranks, shift_pattern, progression_form, is_no_form, open_patterns,
}
use xia_pl.PloRange.Progressions.Shifts.{
  Legal, parse_pattern-Legal, down, up-add, out_of_range, up-out_of_range, shift_ranks-down,
  Legal-le,
}

first_rank : (p : PloPattern) → is_no_form (progression_form p) ≡ false → get_or p.ranks 0 0 ≢ 0
unfolding progression_form is_no_form
first_rank p e z =
    let no_pair : (get_or p.ranks 0 0 != 0) ≡ false = ground arith in
    let no_rundown : (get_or p.ranks 3 0 != 0
          && get_or p.ranks 1 0 + 1 == get_or p.ranks 0 0
          && get_or p.ranks 2 0 + 2 == get_or p.ranks 0 0
          && get_or p.ranks 3 0 + 3 == get_or p.ranks 0 0)
        ≡ false =
      ground arith in
    absurd (cc (rw (no_pair, no_rundown) at e))

above_none :
    (rs : List ℕ) (d : ℕ)
    → All Legal rs
    → get_or rs 0 0 ≢ 0
    → 13 ≤ d
    → shift_ranks rs (pos d) ≡ none
unfolding shift_ranks
above_none [] d a n h = absurd (n refl)
above_none (r ∷ rs) d a n h =
    let nz : (r == 0) ≡ false = ground arith in
    let two : 2 ≤ r = elim a.0 [ inl z ↦ absurd (n z) | inr l ↦ l.0 ] in
    let far : out_of_range (pos r +ℤ pos d) ≡ true =
      ap out_of_range (up-add r d) ∙ up-out_of_range (r + d) (omega arith) in
    rw (nz, far) refl

below_none :
    (rs : List ℕ) (d : ℕ)
    → All Legal rs
    → get_or rs 0 0 ≢ 0
    → 13 ≤ d
    → shift_ranks rs (down d) ≡ none
below_none [] d a n h = absurd (n refl)
below_none (r ∷ rs) d a n h =
    let nz : (r == 0) ≡ false = ground arith in
    let le : r ≤ 14 = Legal-le r a.0 in
    let low : ltb r (d + 2) ≡ true = ground arith in shift_ranks-down r rs d le ∙ rw (nz, low) refl

down-next : (k : ℕ) → down k +ℤ negsuc 0 ≡ down (suc k)
unfolding down
down-next zero = refl
down-next (suc k) =
    let z : ltb (0 + 0) (suc k + 1) ≡ true = ground arith in rw z (ap negsuc (omega arith))

pattern_above_none :
    (p : PloPattern) (d : ℕ)
    → All Legal p.ranks
    → get_or p.ranks 0 0 ≢ 0
    → 13 ≤ d
    → shift_pattern p (pos d) ≡ none
unfolding shift_pattern
pattern_above_none p d a n h = rw (shift_pattern, above_none p.ranks d a n h) refl

pattern_below_none :
    (p : PloPattern) (d : ℕ)
    → All Legal p.ranks
    → get_or p.ranks 0 0 ≢ 0
    → 13 ≤ d
    → shift_pattern p (down d) ≡ none
unfolding shift_pattern
pattern_below_none p d a n h = rw (shift_pattern, below_none p.ranks d a n h) refl

module _ (start : PloPattern) (step : ℤ) (delta : ℕ → ℤ)
    (next : (k : ℕ) → delta k +ℤ step ≡ delta (suc k))
    (gone : (k : ℕ) → 13 ≤ k → shift_pattern start (delta k) ≡ none) where
  open_patterns-enough :
      (left more k : ℕ)
      → 14 ≤ k + left
      → open_patterns (left + more) start step (delta k) ≡ open_patterns left start step (delta k)
  unfolding open_patterns
  open_patterns-enough zero zero k h = refl
  open_patterns-enough zero (suc more) k h =
      let plus : zero + suc more ≡ suc more = omega arith in
      rw plus (rw (open_patterns, gone k (omega arith)) refl)
  open_patterns-enough (suc left) more k h =
      let plus : suc left + more ≡ suc (left + more) = omega arith in
      let ih = open_patterns-enough left more (suc k) (omega arith) in
      rw plus (elim (Option-cases (shift_pattern start (delta k))) [
        | inl f ↦ rw (open_patterns, f) refl
        | inr (p, f) ↦ rw (open_patterns, f, next k) (ap (◌∷◌ p) ih)
      ])

-- The loop of an open progression ends within 14 rounds, upwards and downwards: more rounds would give no more
-- patterns.
pub open_patterns-rounds :
    (item base : Text) (start : PloPattern) (step : ℤ) (more : ℕ)
    → parse_pattern item base ≡ ok start
    → is_no_form (progression_form start) ≡ false
    → (step ≡ pos 1) ⊎ (step ≡ negsuc 0)
    → open_patterns (14 + more) start step (pos 0) ≡ open_patterns 14 start step (pos 0)
unfolding down
open_patterns-rounds item base start step more e form (inl up) =
    let legal = parse_pattern-Legal item base start e in
    open_patterns-enough start step pos (λ k. rw up (up-add k 1 ∙ ap pos (omega arith)))
      (λ k. pattern_above_none start k legal (first_rank start form)) 14 more 0 (omega arith)
open_patterns-rounds item base start step more e form (inr dn) =
    let legal = parse_pattern-Legal item base start e in
    open_patterns-enough start step down (λ k. rw dn (down-next k))
      (λ k. pattern_below_none start k legal (first_rank start form)) 14 more 0 (omega arith)
