-- ===== src/Canonicalize/Form.antt =====
-- The relabelled mask as a function of the suits' order, in src/core/canonicalize.cpp.
use mathlib.Core.List.{reverse}
use xia_pl.Base.{ℕ, ◌+◌, ◌*◌, ◌/◌, ◌%◌, ◌^◌, ◌<◌, bit_or, ◌≡◌, Bool, List, [], ◌∷◌, map, arith, All}
use xia_pl.Base.Bits.{test_bit, test_bit_ext, test_bit-bit_or, test_bit-zero, bit_and_low-eq-mod}
use xia_pl.Canonicalize.{pattern_of, insert_sorted, sort_suits, place_patterns, relabel}
use xia_pl.Canonicalize.Order.{inserts, insert_sorted_cases}

pub pattern_of-eq : (mask s : ℕ) → pattern_of mask s ≡ mask / 2 ^ (s * 13) % 2 ^ 13
unfolding pattern_of
pattern_of-eq mask s = omega (arith, bit_and_low-eq-mod 13 (mask / 2 ^ (s * 13)))

pub pattern_of-lt : (mask s : ℕ) → pattern_of mask s < 2 ^ 13
pattern_of-lt mask s = omega (arith, pattern_of-eq mask s)

-- The mask with the patterns `ps` at the suits from `j` on.
unfoldable pub emit : ℕ → List ℕ → ℕ
emit j [] = 0
emit j (p ∷ ps) = bit_or (p * 2 ^ (j * 13)) (emit (j + 1) ps)

-- A predicate on the sorted suits is checked at all orders of four.
pub sort_suits_cases :
    (P : List ℕ → Type 0) (shifts : ℕ → ℕ → Bool)
    → All
        (λ l1. All (λ l2. All (λ l3. P (reverse l3)) (inserts 3 l2)) (inserts 2 l1))
        (inserts 1 (0 ∷ []))
    → P (sort_suits shifts)
unfolding sort_suits insert_sorted
sort_suits_cases P shifts a =
    insert_sorted_cases shifts (λ l. P (reverse l)) 3 _
      (insert_sorted_cases shifts (λ l. All (λ l3. P (reverse l3)) (inserts 3 l)) 2 _
        (insert_sorted_cases shifts
          (λ l. All (λ l2. All (λ l3. P (reverse l3)) (inserts 3 l2)) (inserts 2 l)) 1 (0 ∷ []) a))

abbrev EmitsBit : ℕ → ℕ → List ℕ → Type 0
EmitsBit mask i ord =
    test_bit (relabel mask ord) i ≡ test_bit (emit 0 (map (pattern_of mask) ord)) i

emits_bit :
    (mask i : ℕ)
    → All
        (λ l1. All (λ l2. All (λ l3. EmitsBit mask i (reverse l3)) (inserts 3 l2)) (inserts 2 l1))
        (inserts 1 (0 ∷ []))
unfolding relabel emit place_patterns
emits_bit mask i = simp (test_bit-bit_or, test_bit-zero) (ground arith)

-- Whatever the order of the suits, the pattern of the i-th suit in it is written at suit i.
pub relabel-emit :
    (mask : ℕ) (shifts : ℕ → ℕ → Bool)
    → relabel mask (sort_suits shifts) ≡ emit 0 (map (pattern_of mask) (sort_suits shifts))
relabel-emit mask shifts =
    test_bit_ext _ _ (λ i. sort_suits_cases (EmitsBit mask i) shifts (emits_bit mask i))
