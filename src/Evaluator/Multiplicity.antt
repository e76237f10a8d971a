-- ===== src/Evaluator/Multiplicity.antt =====
-- The multiplicity masks c1 to c4 of src/core/eval_core.h, against a count of the suits that hold
-- each rank.
use xia_pl.Base.{
  ℕ, zero, suc, ◌+◌, ◌/◌, ◌%◌, ◌≤◌, min, max, bit_and, bit_or, ◌≡◌, refl, leb, if◌then◌else◌, arith,
}
use xia_pl.Base.Bits.{bit_and_step, bit_or_step}
use xia_pl.Base.Words.{popcount}
use xia_pl.Evaluator.{multiplicities}

-- How many of the `w` ranks are held in at least `k` of the four suits.
unfoldable pub ranks_with : ℕ → ℕ → ℕ → ℕ → ℕ → ℕ → ℕ
ranks_with zero k s0 s1 s2 s3 = 0
ranks_with (suc w) k s0 s1 s2 s3 =
    (if leb k (s0 % 2 + s1 % 2 + s2 % 2 + s3 % 2) then 1 else 0)
    + ranks_with w k (s0 / 2) (s1 / 2) (s2 / 2) (s3 / 2)

-- Each card is counted once: at the first, second, third or fourth suit of its rank.
pub ranks_with-popcount :
    (w s0 s1 s2 s3 : ℕ)
    → ranks_with w 1 s0 s1 s2 s3
        + ranks_with w 2 s0 s1 s2 s3
        + ranks_with w 3 s0 s1 s2 s3
        + ranks_with w 4 s0 s1 s2 s3
      ≡ popcount w s0 + popcount w s1 + popcount w s2 + popcount w s3
unfolding ranks_with popcount
ranks_with-popcount zero s0 s1 s2 s3 = refl
ranks_with-popcount (suc w) s0 s1 s2 s3 =
    ground (arith, ranks_with-popcount w (s0 / 2) (s1 / 2) (s2 / 2) (s3 / 2))

pub ranks_with_mono :
    (w k s0 s1 s2 s3 : ℕ) → ranks_with w (suc k) s0 s1 s2 s3 ≤ ranks_with w k s0 s1 s2 s3
unfolding ranks_with
ranks_with_mono zero k s0 s1 s2 s3 = omega arith
ranks_with_mono (suc w) k s0 s1 s2 s3 =
    ground (arith, ranks_with_mono w k (s0 / 2) (s1 / 2) (s2 / 2) (s3 / 2))

-- The ranks of one suit are among the ranks held at all.
pub popcount-le-ranks_with :
    (w s0 s1 s2 s3 : ℕ)
    → (popcount w s0 ≤ ranks_with w 1 s0 s1 s2 s3)
      × (popcount w s1 ≤ ranks_with w 1 s0 s1 s2 s3)
      × (popcount w s2 ≤ ranks_with w 1 s0 s1 s2 s3)
      × (popcount w s3 ≤ ranks_with w 1 s0 s1 s2 s3)
unfolding ranks_with popcount
popcount-le-ranks_with zero s0 s1 s2 s3 = omega arith
popcount-le-ranks_with (suc w) s0 s1 s2 s3 =
    ground (arith, popcount-le-ranks_with w (s0 / 2) (s1 / 2) (s2 / 2) (s3 / 2))

and_half : (a b : ℕ) → bit_and a b / 2 ≡ bit_and (a / 2) (b / 2)
and_half a b = omega (arith, bit_and_step a b)

or_half : (a b : ℕ) → bit_or a b / 2 ≡ bit_or (a / 2) (b / 2)
or_half a b = omega (arith, bit_or_step a b)

-- Halving the four lanes halves the four masks.
multiplicities_half :
    (s0 s1 s2 s3 : ℕ)
    → let m = multiplicities s0 s1 s2 s3 in
      let n = multiplicities (s0 / 2) (s1 / 2) (s2 / 2) (s3 / 2) in
      (m.c1 / 2 ≡ n.c1) × (m.c2 / 2 ≡ n.c2) × (m.c3 / 2 ≡ n.c3) × (m.c4 / 2 ≡ n.c4)
unfolding multiplicities
multiplicities_half s0 s1 s2 s3 =
    (simp or_half, simp (and_half, or_half), simp (and_half, or_half), simp and_half)

and_low : (a b : ℕ) → bit_and a b % 2 ≡ min (a % 2) (b % 2)
and_low a b = omega (arith, bit_and_step a b)

or_low : (a b : ℕ) → bit_or a b % 2 ≡ max (a % 2) (b % 2)
or_low a b = omega (arith, bit_or_step a b)

at_least : ℕ → ℕ → ℕ
at_least k n = if leb k n then 1 else 0

-- The lowest bit of each mask compares the number of suits with the lowest rank.
multiplicities_low :
    (s0 s1 s2 s3 : ℕ)
    → let m = multiplicities s0 s1 s2 s3 in
      let n = s0 % 2 + s1 % 2 + s2 % 2 + s3 % 2 in
      (m.c1 % 2 ≡ at_least 1 n)
      × (m.c2 % 2 ≡ at_least 2 n)
      × (m.c3 % 2 ≡ at_least 3 n)
      × (m.c4 % 2 ≡ at_least 4 n)
unfolding multiplicities at_least
multiplicities_low s0 s1 s2 s3 = (
  simp or_low (ground arith),
  simp (and_low, or_low) (ground arith),
  simp (and_low, or_low) (ground arith),
  simp and_low (ground arith),
)

-- The set bits of c1, c2, c3 and c4 are as many as the ranks held in at least one, two, three and four suits.
pub multiplicities-ranks_with :
    (w s0 s1 s2 s3 : ℕ)
    → let m = multiplicities s0 s1 s2 s3 in
      (popcount w m.c1 ≡ ranks_with w 1 s0 s1 s2 s3)
      × (popcount w m.c2 ≡ ranks_with w 2 s0 s1 s2 s3)
      × (popcount w m.c3 ≡ ranks_with w 3 s0 s1 s2 s3)
      × (popcount w m.c4 ≡ ranks_with w 4 s0 s1 s2 s3)
unfolding popcount ranks_with at_least
multiplicities-ranks_with zero s0 s1 s2 s3 = (refl, refl, refl, refl)
multiplicities-ranks_with (suc w) s0 s1 s2 s3 =
    let ih = multiplicities-ranks_with w (s0 / 2) (s1 / 2) (s2 / 2) (s3 / 2) in
    let half = multiplicities_half s0 s1 s2 s3 in
    let low = multiplicities_low s0 s1 s2 s3 in
    (
      rw (half.0, low.0) (omega (arith, ih.0)),
      rw (half.1, low.1) (omega (arith, ih.1)),
      rw (half.2, low.2) (omega (arith, ih.2)),
      rw (half.3, low.3) (omega (arith, ih.3)),
    )
