-- ===== src/Evaluator/Straight.antt =====
-- `straight_high` of src/core/eval_core.h, checked over every 13-bit rank mask.
use xia_pl.Base.{
  ℕ, zero, suc, ◌+◌, ◌-◌, ◌^◌, ◌≤◌, ◌<◌, ◌≡◌, ◌≢◌, refl, Bool, true, ◌&&◌, ◌||◌, ◌==◌, leb,
  if◌then◌else◌, arith, all_below, all_below_sound, ==_iff,
}
use native.Mathlib.Decide.{dec_lt}
use xia_pl.Base.Bits.{test_bit}
use xia_pl.Base.Words.{popcount}
use xia_pl.Evaluator.{straight_high}

-- The rank `r` from 2 to 14 is in the mask; the ace also counts as rank 1.
unfoldable pub has_rank : ℕ → ℕ → Bool
has_rank m r = if r == 1 then test_bit m 12 else test_bit m (r - 2)

-- The five ranks from `h` downwards are in the mask.
unfoldable pub is_straight : ℕ → ℕ → Bool
unfolding has_rank
is_straight m h =
    has_rank m h
    && has_rank m (h - 1)
    && has_rank m (h - 2)
    && has_rank m (h - 3)
    && has_rank m (h - 4)

-- The highest straight among those to `h + 4`, or 0.
unfoldable pub highest_straight : ℕ → ℕ → ℕ
unfolding is_straight
highest_straight m zero = 0
highest_straight m (suc h) =
    let lower = highest_straight m h in if is_straight m (suc h + 4) then suc h + 4 else lower

agrees : ℕ → ℕ → Bool
agrees base m = straight_high (base + m) == highest_straight (base + m) 10

straight_table0 : all_below 2048 (agrees 0) ≡ true
unfolding agrees straight_high highest_straight test_bit all_below
straight_table0 = refl

straight_table1 : all_below 2048 (agrees 2048) ≡ true
unfolding agrees straight_high highest_straight test_bit all_below
straight_table1 = refl

straight_table2 : all_below 2048 (agrees 4096) ≡ true
unfolding agrees straight_high highest_straight test_bit all_below
straight_table2 = refl

straight_table3 : all_below 2048 (agrees 6144) ≡ true
unfolding agrees straight_high highest_straight test_bit all_below
straight_table3 = refl

at_base : (base m : ℕ) → base ≤ m → agrees base (m - base) ≡ true → agrees 0 m ≡ true
unfolding agrees
at_base base m h e = let p : base + (m - base) ≡ 0 + m = omega arith in rw (← p) e

agree : (m : ℕ) → m < 2 ^ 13 → agrees 0 m ≡ true
agree m h = elim (dec_lt m 2048) [
  | yes a ↦ all_below_sound 2048 _ m straight_table0 a
  | no a ↦ elim (dec_lt m 4096) [
    | yes b ↦
        at_base 2048 m (omega arith)
          (all_below_sound 2048 _ (m - 2048) straight_table1 (omega arith))
    | no b ↦ elim (dec_lt m 6144) [
      | yes c ↦
          at_base 4096 m (omega arith)
            (all_below_sound 2048 _ (m - 4096) straight_table2 (omega arith))
      | no c ↦
          at_base 6144 m (omega arith)
            (all_below_sound 2048 _ (m - 6144) straight_table3 (omega arith))
    ]
  ]
]

-- On every 13-bit rank mask `straight_high` is the highest rank of five in a row, an ace below the
-- two included, and 0 where there is none.
pub straight_high-eq-highest_straight :
    (m : ℕ) → m < 2 ^ 13 → straight_high m ≡ highest_straight m 10
unfolding agrees
straight_high-eq-highest_straight m h =
    let e : 0 + m ≡ m = omega arith in
    rw e at ((==_iff (straight_high (0 + m)) (highest_straight (0 + m) 10)).0 (agree m h))

size_table : all_below 8192 (λ m. (straight_high m == 0) || leb 5 (popcount 13 m)) ≡ true
unfolding straight_high popcount all_below
size_table = refl

bound_table : all_below 8192 (λ m. leb (straight_high m) 14) ≡ true
unfolding straight_high all_below
bound_table = refl

pub straight_high-le : (m : ℕ) → m < 2 ^ 13 → straight_high m ≤ 14
straight_high-le m h = ground (arith, all_below_sound 8192 _ m bound_table)

pub straight_needs_five : (m : ℕ) → m < 2 ^ 13 → straight_high m ≢ 0 → 5 ≤ popcount 13 m
straight_needs_five m h ne = ground (arith, all_below_sound 8192 _ m size_table)
