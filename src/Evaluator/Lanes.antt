-- ===== src/Evaluator/Lanes.antt =====
-- The suit lanes of a mask, and the packing of the score.
use native.Mathlib.Nat.{
  pow-suc, pow-succ', one-le-pow, suc-add, pow-le-pow_right, div-div-eq-div-mul,
}
use xia_pl.Base.{
  ℕ, zero, suc, ◌+◌, ◌-◌, ◌*◌, ◌/◌, ◌%◌, ◌^◌, ◌≤◌, ◌<◌, bit_and, bit_or, ◌≡◌, ◌≢◌, refl, ap, sym,
  ◌∙◌, true, not, ◌&&◌, ◌==◌, ltb, arith, Bool-cases, ==_iff, inl, inr,
}
use xia_pl.Base.Bits.{
  bit_and_step, test_bit, test_bit_ext, test_bit-bit_and, test_bit-bit_or, test_bit-shift_right,
  test_bit_above, test_bit-low_mask, lt_of_test_bit, test_bit-complement, test_bit-two_pow,
  bit_and-two_pow_ne_zero,
}
use xia_pl.Base.Words.{
  popcount, popcount-zero, popcount-bit_or, popcount-two_pow, bit_width, countl_zero, bit_and-le,
}
use xia_pl.Mask.{clz32}
use xia_pl.Evaluator.{lane, shl32, not32, score_top_rank, score_take_top}

pub bit_and-low_mask : (k m : ℕ) → bit_and m (2 ^ k - 1) < 2 ^ k
bit_and-low_mask k m =
    lt_of_test_bit k _
      (λ i h. ground (arith, test_bit-bit_and m (2 ^ k - 1) i, test_bit-low_mask k i))

pub lane-lt : (mask s : ℕ) → lane mask s < 2 ^ 13
unfolding lane
lane-lt mask s = bit_and-low_mask 13 (mask / 2 ^ (13 * s))

-- Bits above a word add nothing to its count.
pub popcount_wide : (v w m : ℕ) → w ≤ v → m < 2 ^ w → popcount v m ≡ popcount w m
unfolding popcount
popcount_wide v zero m h lt = let e : m ≡ 0 = omega arith in rw e (popcount-zero v)
popcount_wide zero (suc w) m h lt = absurd (omega arith)
popcount_wide (suc v) (suc w) m h lt =
    omega (arith, popcount_wide v w (m / 2) (omega arith) (omega (arith, pow-suc 2 w)))

pub popcount_low_mask : (w m : ℕ) → popcount w (bit_and m (2 ^ w - 1)) ≡ popcount w m
unfolding popcount
popcount_low_mask zero m = refl
popcount_low_mask (suc w) m =
    let e : (2 ^ suc w - 1) / 2 ≡ 2 ^ w - 1 = omega (arith, pow-suc 2 w, one-le-pow w 2) in
    let p : bit_and m (2 ^ suc w - 1) / 2 ≡ bit_and (m / 2) (2 ^ w - 1) =
      omega (arith, bit_and_step m (2 ^ suc w - 1), ap (bit_and (m / 2)) e) in
    let q : (2 ^ suc w - 1) % 2 ≡ 1 = omega (arith, pow-suc 2 w, one-le-pow w 2) in
    rw p (omega (arith, bit_and_step m (2 ^ suc w - 1), popcount_low_mask w (m / 2)))

pub popcount_split : (v w m : ℕ) → popcount (v + w) m ≡ popcount v m + popcount w (m / 2 ^ v)
unfolding popcount
popcount_split zero w m =
    let e : m / 2 ^ 0 ≡ m = omega arith in
    let z : 0 + w ≡ w = omega arith in rw (e, z) (omega arith)
popcount_split (suc v) w m =
    let e : m / 2 ^ suc v ≡ m / 2 / 2 ^ v =
      rw (pow-succ' 2 v) (sym (div-div-eq-div-mul m 2 (2 ^ v))) in
    rw (e, suc-add v w) (omega (arith, popcount_split v w (m / 2)))

-- The cards of a mask are those of its four lanes.
pub popcount-lanes :
    (mask : ℕ)
    → popcount 52 mask
      ≡ popcount 13 (lane mask 0)
        + popcount 13 (lane mask 1)
        + popcount 13 (lane mask 2)
        + popcount 13 (lane mask 3)
unfolding lane
popcount-lanes mask =
    let e : mask / 2 ^ (13 * 0) ≡ mask = omega arith in
    omega (
      arith,
      popcount_split 13 39 mask,
      popcount_split 13 26 (mask / 2 ^ 13),
      popcount_split 13 13 (mask / 2 ^ 13 / 2 ^ 13),
      ap (popcount 13) (div-div-eq-div-mul mask (2 ^ 13) (2 ^ 13)),
      ap (popcount 26) (div-div-eq-div-mul mask (2 ^ 13) (2 ^ 13)),
      ap (popcount 13) (
          ap (λ k. k / 2 ^ 13) (div-div-eq-div-mul mask (2 ^ 13) (2 ^ 13))
          ∙ div-div-eq-div-mul mask (2 ^ 26) (2 ^ 13)),
      popcount_low_mask 13 (mask / 2 ^ (13 * 0)),
      popcount_low_mask 13 (mask / 2 ^ (13 * 1)),
      popcount_low_mask 13 (mask / 2 ^ (13 * 2)),
      popcount_low_mask 13 (mask / 2 ^ (13 * 3)),
      ap (popcount 13) e,
    )

bit_width-zero : (w : ℕ) → bit_width w 0 ≡ 0
unfolding bit_width
bit_width-zero zero = refl
bit_width-zero (suc w) = refl

pub bit_width_pos : (w m : ℕ) → m ≢ 0 → m < 2 ^ w → 0 < bit_width w m
unfolding bit_width
bit_width_pos zero m ne h = absurd (omega arith)
bit_width_pos (suc w) m ne h = ground arith

pub top_bit : (w m : ℕ) → m ≢ 0 → m < 2 ^ w → test_bit m (bit_width w m - 1) ≡ true
unfolding bit_width test_bit
top_bit zero m ne h = absurd (omega arith)
top_bit (suc w) m ne h = elim (Bool-cases (m / 2 == 0)) [
  | inl low ↦
      let e : m ≡ 1 = ground arith in let z : bit_width w 0 ≡ 0 = bit_width-zero w in rw (e, z) refl
  | inr more ↦
      let q : m / 2 ≢ 0 = ground arith in
      let lt : m / 2 < 2 ^ w = omega (arith, pow-suc 2 w) in
      let pos : 0 < bit_width w (m / 2) = bit_width_pos w (m / 2) q lt in
      let n : bit_width (suc w) m - 1 ≡ suc (bit_width w (m / 2) - 1) = ground arith in
      rw n (top_bit w (m / 2) q lt)
]

pub bit_width-le : (k w m : ℕ) → m < 2 ^ k → bit_width w m ≤ k
unfolding bit_width
bit_width-le k zero m h = omega arith
bit_width-le zero (suc w) m h = ground arith
bit_width-le (suc k) (suc w) m h =
    ground (arith, bit_width-le k w (m / 2) (omega (arith, pow-suc 2 k)))

pow-lt-pow_right : (b : ℕ) {k : ℕ} → b < k → 2 ^ b < 2 ^ k
pow-lt-pow_right b {k} h =
    let p : 2 ^ suc b ≤ 2 ^ k = pow-le-pow_right {n = 2} (omega arith) h in
    omega (arith, pow-suc 2 b, one-le-pow b 2)

shl32-one : (b : ℕ) → b < 32 → shl32 1 b ≡ 2 ^ b
shl32-one b h = omega (arith, pow-lt-pow_right b {k = 32} h)

test_bit-clear :
    (m b i : ℕ)
    → b < 13
    → test_bit (bit_and m (not32 (shl32 1 b))) i ≡ (test_bit m i && (ltb i 32 && not (i == b)))
test_bit-clear m b i lt =
    let e : shl32 1 b ≡ 2 ^ b = shl32-one b (omega arith) in
    rw e (
      ground (
        arith,
        test_bit-bit_and m (not32 (2 ^ b)) i,
        test_bit-complement 32 (2 ^ b) i (pow-lt-pow_right b {k = 32} (omega arith)),
        test_bit-two_pow b i,
      ))

clear_back :
    (m b i : ℕ)
    → m < 2 ^ 13
    → b < 13
    → test_bit m b ≡ true
    → test_bit (bit_or (bit_and m (not32 (shl32 1 b))) (2 ^ b)) i ≡ test_bit m i
clear_back m b i h lt set = elim (Bool-cases (i == b)) [
  | inl e ↦
      let p : i ≡ b = (==_iff i b).0 e in
      ground (
        arith,
        ap (test_bit m) p,
        test_bit-bit_or (bit_and m (not32 (shl32 1 b))) (2 ^ b) i,
        test_bit-two_pow b i,
      )
  | inr e ↦ ground (
    arith,
    test_bit-bit_or (bit_and m (not32 (shl32 1 b))) (2 ^ b) i,
    test_bit-two_pow b i,
    test_bit-clear m b i lt,
    test_bit_above 13 m i h,
  )
]

-- `m & ~(1 << b)` loses one card where bit `b` is set.
pub popcount_clear :
    (m b : ℕ)
    → m < 2 ^ 13
    → b < 13
    → test_bit m b ≡ true
    → popcount 13 m ≡ popcount 13 (bit_and m (not32 (shl32 1 b))) + 1
popcount_clear m b h lt set =
    let back : bit_or (bit_and m (not32 (shl32 1 b))) (2 ^ b) ≡ m =
      test_bit_ext _ m (λ i. clear_back m b i h lt set) in
    let apart : bit_and (bit_and m (not32 (shl32 1 b))) (2 ^ b) ≡ 0 =
      ground (
        arith,
        bit_and-two_pow_ne_zero (bit_and m (not32 (shl32 1 b))) b,
        test_bit-clear m b b lt,
      ) in
    omega (
      arith,
      popcount-bit_or 13 (bit_and m (not32 (shl32 1 b))) (2 ^ b),
      ap (popcount 13) back,
      ap (popcount 13) apart,
      popcount-zero 13,
      popcount-two_pow 13 b lt,
    )

-- The score's top nibble is not touched by what is or-ed in below it.
pub category-bit_or : (s x : ℕ) → x < 2 ^ 20 → bit_or s x / 2 ^ 20 ≡ s / 2 ^ 20
category-bit_or s x h = test_bit_ext _ _ (λ i. ground (
  arith,
  test_bit-shift_right (bit_or s x) 20 i,
  test_bit-shift_right s 20 i,
  test_bit-bit_or s x (i + 20),
  test_bit_above 20 x (i + 20) h,
))

pub score_top_rank-le : (m : ℕ) → m < 2 ^ 13 → score_top_rank m ≤ 33
unfolding score_top_rank
score_top_rank-le m h = omega arith

top_rank_bit : (m : ℕ) → m < 2 ^ 13 → m ≢ 0 → 31 - clz32 m ≡ bit_width 32 m - 1
unfolding clz32 countl_zero
top_rank_bit m h ne = omega (arith, bit_width-le 13 32 m h, bit_width_pos 32 m ne (omega arith))

-- The best rank of a lane that is not empty is one of its ranks.
pub score_top_rank_lem :
    (m : ℕ)
    → m < 2 ^ 13
    → m ≢ 0
    → (2 ≤ score_top_rank m) × (score_top_rank m ≤ 14) × (test_bit m (score_top_rank m - 2) ≡ true)
unfolding score_top_rank
score_top_rank_lem m h ne =
    let b : 31 - clz32 m ≡ bit_width 32 m - 1 = top_rank_bit m h ne in
    let c : 31 - clz32 m + 2 - 2 ≡ bit_width 32 m - 1 = omega arith in
    (omega arith, omega (arith, bit_width-le 13 32 m h), rw c (top_bit 32 m ne (omega arith)))

nibble_fits : (r nib : ℕ) → r ≤ 14 → nib ≤ 4 → shl32 r (nib * 4) < 2 ^ 20
nibble_fits r nib h k =
    let p : 2 ^ (nib * 4) ≤ 2 ^ 16 =
      pow-le-pow_right {n = 2} (omega arith) {i = nib * 4} {j = 16} (omega arith) in
    let q : r * 2 ^ (nib * 4) ≤ 14 * 2 ^ 16 = grind arith in omega arith

pub category-score_take_top :
    (n m s nib : ℕ) → m < 2 ^ 13 → nib ≤ 4 → score_take_top m n s nib / 2 ^ 20 ≡ s / 2 ^ 20
unfolding score_take_top score_top_rank
category-score_take_top zero m s nib h k = refl
category-score_take_top (suc n) m s nib h k = elim (Bool-cases (m == 0)) [
  | inl done ↦ rw done refl
  | inr more ↦
      let ne : m ≢ 0 = ground arith in
      let fits : shl32 (31 - clz32 m + 2) (nib * 4) < 2 ^ 20 =
        nibble_fits (31 - clz32 m + 2) nib (score_top_rank_lem m h ne).1 k in
      rw more (
        category-score_take_top n (bit_and m (not32 (shl32 1 (31 - clz32 m))))
          (bit_or s (shl32 (31 - clz32 m + 2) (nib * 4))) (nib - 1)
          (omega (arith, bit_and-le m (not32 (shl32 1 (31 - clz32 m))))) (omega arith)
        ∙ category-bit_or s (shl32 (31 - clz32 m + 2) (nib * 4)) fits)
]
