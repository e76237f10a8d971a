-- ===== src/Base/Words.antt =====
-- The functions of <bit> on a word of `w` bits, and the list of the set bits of a word, to which
-- each loop over a mask is related.
use xia_pl.Base.{
  ℕ, zero, suc, ◌+◌, ◌-◌, ◌*◌, ◌/◌, ◌%◌, ◌^◌, ◌≤◌, ◌<◌, bit_and, bit_or, ◌≡◌, refl, true, ◌==◌,
  if◌then◌else◌, arith, Bool-cases, ◌≢◌, inl, inr, sym, ap, List, [], ◌∷◌, length,
}
use xia_pl.Base.Bits.{
  bit_and_step, bit_or_step, test_bit, test_bit-bit_and, test_bit_ext, test_bit-zero,
}
use native.Mathlib.Nat.{pow-suc}

-- std::popcount
unfoldable pub popcount : ℕ → ℕ → ℕ
popcount zero m = 0
popcount (suc w) m = m % 2 + popcount w (m / 2)

-- std::countr_zero; `w` for the word 0
unfoldable pub countr_zero : ℕ → ℕ → ℕ
countr_zero zero m = 0
countr_zero (suc w) m = if m % 2 == 1 then 0 else suc (countr_zero w (m / 2))

-- std::bit_width of a word of `w` bits: one more than the highest set bit, 0 for the word 0
unfoldable pub bit_width : ℕ → ℕ → ℕ
bit_width zero m = 0
bit_width (suc w) m = if m == 0 then 0 else suc (bit_width w (m / 2))

-- std::countl_zero
unfoldable pub countl_zero : ℕ → ℕ → ℕ
countl_zero w m = w - bit_width w m

-- The set bits among the lowest `w`, ascending, each with `k` added.
unfoldable pub set_bits : ℕ → ℕ → ℕ → List ℕ
set_bits zero k m = []
set_bits (suc w) k m =
    let rest = set_bits w (k + 1) (m / 2) in if m % 2 == 1 then k ∷ rest else rest

pub popcount-zero : (w : ℕ) → popcount w 0 ≡ 0
unfolding popcount
popcount-zero zero = refl
popcount-zero (suc w) = omega (arith, popcount-zero w)

pub length-set_bits : (w k m : ℕ) → length (set_bits w k m) ≡ popcount w m
unfolding set_bits popcount
length-set_bits zero k m = refl
length-set_bits (suc w) k m = ground (arith, length-set_bits w (k + 1) (m / 2))

bit_and_self : (a : ℕ) → bit_and a a ≡ a
bit_and_self a = test_bit_ext _ a (λ i. ground (arith, test_bit-bit_and a a i))

pub bit_and_comm : (a b : ℕ) → bit_and a b ≡ bit_and b a
bit_and_comm a b =
    test_bit_ext _ _ (λ i. ground (arith, test_bit-bit_and a b i, test_bit-bit_and b a i))

zero_bit_and : (b : ℕ) → bit_and 0 b ≡ 0
zero_bit_and b = test_bit_ext _ 0 (λ i. ground (arith, test_bit-bit_and 0 b i, test_bit-zero i))

bit_and-le_fuel : (n a b : ℕ) → a ≤ n → bit_and a b ≤ a
bit_and-le_fuel zero zero b h = omega (arith, zero_bit_and b)
bit_and-le_fuel zero (suc a) b h = absurd (omega arith)
bit_and-le_fuel (suc n) zero b h = omega (arith, zero_bit_and b)
bit_and-le_fuel (suc n) (suc a) b h =
    omega (arith, bit_and_step (suc a) b, bit_and-le_fuel n (suc a / 2) (b / 2) (omega arith))

pub bit_and-le : (a b : ℕ) → bit_and a b ≤ a
bit_and-le a b = bit_and-le_fuel a a b (omega arith)

pub bit_and_pred-lt : (m : ℕ) → m ≢ 0 → bit_and m (m - 1) < m
bit_and_pred-lt m ne = omega (arith, bit_and_comm m (m - 1), bit_and-le (m - 1) m)

pop_odd : (m : ℕ) → m % 2 ≡ 1 → bit_and m (m - 1) ≡ m - 1
pop_odd m h =
    let e : (m - 1) / 2 ≡ m / 2 = omega arith in
    omega (arith, bit_and_step m (m - 1), ap (bit_and (m / 2)) e, bit_and_self (m / 2))

pop_even : (m : ℕ) → m % 2 ≡ 0 → m ≢ 0 → bit_and m (m - 1) ≡ bit_and (m / 2) (m / 2 - 1) * 2
pop_even m h ne =
    let e : (m - 1) / 2 ≡ m / 2 - 1 = omega arith in
    omega (arith, bit_and_step m (m - 1), ap (bit_and (m / 2)) e)

-- `m & (m - 1)` drops the lowest set bit, which stands at `countr_zero`.
pub set_bits_pop :
    (w k m : ℕ)
    → m ≢ 0
    → m < 2 ^ w
    → set_bits w k m ≡ (k + countr_zero w m) ∷ set_bits w k (bit_and m (m - 1))
unfolding set_bits countr_zero
set_bits_pop zero k m ne h = absurd (omega arith)
set_bits_pop (suc w) k m ne h = elim (Bool-cases (m % 2 == 1)) [
  | inl odd ↦
      let p : (m - 1) % 2 ≡ 0 = ground arith in
      let q : (m - 1) / 2 ≡ m / 2 = ground arith in
      rw (pop_odd m (ground arith), odd, p, q) (ground arith)
  | inr even ↦
      let a : m % 2 ≡ 0 = ground arith in
      let p : bit_and (m / 2) (m / 2 - 1) * 2 % 2 ≡ 0 = omega arith in
      let q : bit_and (m / 2) (m / 2 - 1) * 2 / 2 ≡ bit_and (m / 2) (m / 2 - 1) = omega arith in
      rw (pop_even m a ne, a, p, q)
        (ground (arith, set_bits_pop w (k + 1) (m / 2) (omega arith) (omega (arith, pow-suc 2 w))))
]

pub popcount_pop :
    (w m : ℕ) → m ≢ 0 → m < 2 ^ w → popcount w m ≡ suc (popcount w (bit_and m (m - 1)))
popcount_pop w m ne h = omega (
  arith,
  length-set_bits w 0 m,
  length-set_bits w 0 (bit_and m (m - 1)),
  ap length (set_bits_pop w 0 m ne h),
)

set_bits-zero : (w k : ℕ) → set_bits w k 0 ≡ []
unfolding set_bits
set_bits-zero zero k = refl
set_bits-zero (suc w) k = set_bits-zero w (k + 1)

nil_of_length : (xs : List ℕ) → length xs ≡ 0 → xs ≡ []
nil_of_length [] h = refl
nil_of_length (x ∷ xs) h = absurd (omega arith)

-- A loop that pops the lowest bit until the word is 0. The fuel bounds the rounds.
unfoldable pub pop_bits : ℕ → ℕ → ℕ → List ℕ
pop_bits w zero m = []
pop_bits w (suc fuel) m =
    let rest = pop_bits w fuel (bit_and m (m - 1)) in if m == 0 then [] else countr_zero w m ∷ rest

-- With fuel for each set bit the loop visits the set bits, in ascending order.
pub pop_bits-eq-set_bits :
    (w fuel m : ℕ) → m < 2 ^ w → popcount w m ≤ fuel → pop_bits w fuel m ≡ set_bits w 0 m
unfolding pop_bits
pop_bits-eq-set_bits w zero m h enough =
    sym (nil_of_length (set_bits w 0 m) (omega (arith, length-set_bits w 0 m)))
pop_bits-eq-set_bits w (suc fuel) m h enough = elim (Bool-cases (m == 0)) [
  | inl done ↦ let e : m ≡ 0 = ground arith in rw (done, e) (sym (set_bits-zero w 0))
  | inr more ↦
      let ne : m ≢ 0 = ground arith in
      rw (more, set_bits_pop w 0 m ne h)
        (ground (
          arith,
          pop_bits-eq-set_bits w fuel (bit_and m (m - 1)),
          popcount_pop w m ne h,
          bit_and_pred-lt m ne,
        ))
]

-- What two words have between them is counted once in `|` and once in `&`.
pub popcount-bit_or :
    (w a b : ℕ) → popcount w (bit_or a b) + popcount w (bit_and a b) ≡ popcount w a + popcount w b
unfolding popcount
popcount-bit_or zero a b = refl
popcount-bit_or (suc w) a b =
    let p : bit_or a b / 2 ≡ bit_or (a / 2) (b / 2) = omega (arith, bit_or_step a b) in
    let q : bit_and a b / 2 ≡ bit_and (a / 2) (b / 2) = omega (arith, bit_and_step a b) in
    rw (p, q) (omega (arith, bit_or_step a b, bit_and_step a b, popcount-bit_or w (a / 2) (b / 2)))

pub popcount-two_pow : (w k : ℕ) → k < w → popcount w (2 ^ k) ≡ 1
unfolding popcount
popcount-two_pow zero k h = absurd (omega arith)
popcount-two_pow (suc w) zero h = omega (arith, popcount-zero w)
popcount-two_pow (suc w) (suc k) h =
    let e : 2 ^ suc k / 2 ≡ 2 ^ k = omega (arith, pow-suc 2 k) in
    rw e (omega (arith, pow-suc 2 k, popcount-two_pow w k (omega arith)))

pub popcount-le : (w m : ℕ) → popcount w m ≤ w
unfolding popcount
popcount-le zero m = omega arith
popcount-le (suc w) m = omega (arith, popcount-le w (m / 2))

pub popcount-eq-zero : (w m : ℕ) → m < 2 ^ w → popcount w m ≡ 0 → m ≡ 0
unfolding popcount
popcount-eq-zero zero m h e = omega arith
popcount-eq-zero (suc w) m h e =
    omega (arith, popcount-eq-zero w (m / 2) (omega (arith, pow-suc 2 w)) (omega arith))

-- The lowest set bit is a set bit.
pub test_bit-countr_zero : (w m : ℕ) → m ≢ 0 → m < 2 ^ w → test_bit m (countr_zero w m) ≡ true
unfolding countr_zero test_bit
test_bit-countr_zero zero m ne h = absurd (omega arith)
test_bit-countr_zero (suc w) m ne h = elim (Bool-cases (m % 2 == 1)) [
  | inl odd ↦ rw (odd, countr_zero) odd
  | inr even ↦
      rw (even, countr_zero)
        (test_bit-countr_zero w (m / 2) (ground arith) (omega (arith, pow-suc 2 w)))
]
