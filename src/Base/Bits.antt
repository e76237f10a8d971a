-- ===== src/Base/Bits.antt =====
-- Machine words as native numbers: single bits, and what `&`, `|`, `^`, shifts and the
-- functions of <bit> do to them. Step has the lowest digit of each native operation.
mod Step
pub use Step.{bit_and_step, bit_or_step, bit_xor_step}
use native.Mathlib.Nat.{
  mul_assoc, mod-eq_of_lt, add-mul-mod_self_right, mod-lt, mod-add-div', pow-suc, pow-succ',
  add-zero, add-suc, div-div-eq-div-mul, one-le-pow,
}
use xia_pl.Base.{
  ℕ, zero, suc, ◌+◌, ◌-◌, ◌*◌, ◌/◌, ◌%◌, ◌^◌, ◌≤◌, ◌<◌, bit_and, bit_or, bit_xor, ◌≡◌, refl, Bool,
  true, false, not, ◌&&◌, ◌||◌, ◌==◌, ltb, if◌then◌else◌, arith, Bool-cases, ==_iff, ◌≢◌, inl, inr,
  sym, ◌∙◌, ap, xor, ◌!=◌,
}

-- Bit `i` of `m`.
unfoldable pub test_bit : ℕ → ℕ → Bool
test_bit m zero = m % 2 == 1
test_bit m (suc i) = test_bit (m / 2) i

pub test_bit-bit_and : (a b i : ℕ) → test_bit (bit_and a b) i ≡ test_bit a i && test_bit b i
unfolding test_bit
test_bit-bit_and a b zero = ground (arith, bit_and_step a b)
test_bit-bit_and a b (suc i) =
    let e : bit_and a b / 2 ≡ bit_and (a / 2) (b / 2) = omega (arith, bit_and_step a b) in
    rw e (test_bit-bit_and (a / 2) (b / 2) i)

pub test_bit-bit_or : (a b i : ℕ) → test_bit (bit_or a b) i ≡ test_bit a i || test_bit b i
unfolding test_bit
test_bit-bit_or a b zero = ground (arith, bit_or_step a b)
test_bit-bit_or a b (suc i) =
    let e : bit_or a b / 2 ≡ bit_or (a / 2) (b / 2) = omega (arith, bit_or_step a b) in
    rw e (test_bit-bit_or (a / 2) (b / 2) i)

-- Two words with the same bits are equal. The fuel bounds both.
test_bit_ext_fuel : (n a b : ℕ) → a ≤ n → b ≤ n → ((i : ℕ) → test_bit a i ≡ test_bit b i) → a ≡ b
unfolding test_bit
test_bit_ext_fuel zero a b p q h = omega arith
test_bit_ext_fuel (suc n) zero zero p q h = refl
test_bit_ext_fuel (suc n) a b p q h =
    ground
      (arith, h 0, test_bit_ext_fuel n (a / 2) (b / 2) (omega arith) (omega arith) (λ i. h (suc i)))

pub test_bit_ext : (a b : ℕ) → ((i : ℕ) → test_bit a i ≡ test_bit b i) → a ≡ b
test_bit_ext a b h = test_bit_ext_fuel (a + b) a b (omega arith) (omega arith) h

pub test_bit-zero : (i : ℕ) → test_bit 0 i ≡ false
unfolding test_bit
test_bit-zero zero = refl
test_bit-zero (suc i) = test_bit-zero i

-- `1 << k` has bit `k` alone.
pub test_bit-two_pow : (k i : ℕ) → test_bit (2 ^ k) i ≡ (i == k)
unfolding test_bit
test_bit-two_pow zero zero = refl
test_bit-two_pow zero (suc i) = ground (arith, test_bit-zero i)
test_bit-two_pow (suc k) zero = ground (arith, pow-suc 2 k)
test_bit-two_pow (suc k) (suc i) =
    let e : 2 ^ suc k / 2 ≡ 2 ^ k = omega (arith, pow-suc 2 k) in
    rw e (ground (arith, test_bit-two_pow k i))

pub test_bit-shift_right : (m k i : ℕ) → test_bit (m / 2 ^ k) i ≡ test_bit m (i + k)
unfolding test_bit
test_bit-shift_right m zero i = let e : m / 2 ^ 0 ≡ m = omega arith in rw (e, add-zero i)
test_bit-shift_right m (suc k) i =
    let e : m / 2 ^ suc k ≡ m / 2 / 2 ^ k =
      rw (pow-succ' 2 k) (sym (div-div-eq-div-mul m 2 (2 ^ k))) in
    rw (e, add-suc i k) (test_bit-shift_right (m / 2) k i)

-- A word below `2 ^ w` has its bits below `w`.
pub test_bit_above : (w m i : ℕ) → m < 2 ^ w → w ≤ i → test_bit m i ≡ false
unfolding test_bit
test_bit_above zero m i h k = let e : m ≡ 0 = omega arith in rw e (test_bit-zero i)
test_bit_above (suc w) m zero h k = absurd (omega arith)
test_bit_above (suc w) m (suc i) h k =
    test_bit_above w (m / 2) i (omega (arith, pow-suc 2 w)) (omega arith)

-- A word with its bits below `w` is below `2 ^ w`.
pub lt_of_test_bit : (w m : ℕ) → ((i : ℕ) → w ≤ i → test_bit m i ≡ false) → m < 2 ^ w
unfolding test_bit
lt_of_test_bit zero m h =
    let e : m ≡ 0 = test_bit_ext m 0 (λ i. h i (omega arith) ∙ sym (test_bit-zero i)) in
    omega (arith, e)
lt_of_test_bit (suc w) m h =
    omega (arith, pow-suc 2 w, lt_of_test_bit w (m / 2) (λ i k. h (suc i) (omega arith)))

-- The complement of `x` within `w` bits.
pub test_bit-complement :
    (w x i : ℕ) → x < 2 ^ w → test_bit (2 ^ w - 1 - x) i ≡ (ltb i w && not (test_bit x i))
unfolding test_bit
test_bit-complement zero x i h =
    let e : 2 ^ 0 - 1 - x ≡ 0 = omega arith in rw (e, test_bit-zero i) (ground arith)
test_bit-complement (suc w) x zero h = ground (arith, pow-suc 2 w, one-le-pow w 2)
test_bit-complement (suc w) x (suc i) h =
    let e : (2 ^ suc w - 1 - x) / 2 ≡ 2 ^ w - 1 - x / 2 =
      omega (arith, pow-suc 2 w, one-le-pow w 2) in
    rw e (ground (arith, test_bit-complement w (x / 2) i (omega (arith, pow-suc 2 w))))

pub test_bit-low_mask : (w i : ℕ) → test_bit (2 ^ w - 1) i ≡ ltb i w
test_bit-low_mask w i =
    let e : 2 ^ w - 1 - 0 ≡ 2 ^ w - 1 = omega arith in
    let h : test_bit (2 ^ w - 1 - 0) i ≡ (ltb i w && not (test_bit 0 i)) =
      test_bit-complement w 0 i (one-le-pow w 2 (omega arith)) in
    ground (arith, h, e, test_bit-zero i)

pub test_bit-bit_xor : (a b i : ℕ) → test_bit (bit_xor a b) i ≡ xor (test_bit a i) (test_bit b i)
unfolding test_bit
test_bit-bit_xor a b zero = ground (arith, bit_xor_step a b)
test_bit-bit_xor a b (suc i) =
    let e : bit_xor a b / 2 ≡ bit_xor (a / 2) (b / 2) = omega (arith, bit_xor_step a b) in
    rw e (test_bit-bit_xor (a / 2) (b / 2) i)

-- A word with a set bit is not zero.
pub test_bit_ne_zero : (m i : ℕ) → test_bit m i ≡ true → m ≢ 0
test_bit_ne_zero m i h e = ground (arith, test_bit-zero i, ap (λ k. test_bit k i) e)

absent : (m i : ℕ) → test_bit m i ≡ false → (j : ℕ) → test_bit (bit_and m (2 ^ i)) j ≡ test_bit 0 j
absent m i h j = elim (Bool-cases (j == i)) [
  | inl e ↦
      let p : j ≡ i = (==_iff j i).0 e in
      ground (arith, test_bit-bit_and m (2 ^ i) j, test_bit-zero j, ap (test_bit m) p)
  | inr e ↦ ground (arith, test_bit-bit_and m (2 ^ i) j, test_bit-two_pow i j, test_bit-zero j)
]

-- `m & (1 << i)` is not zero just when bit `i` is set.
pub bit_and-two_pow_ne_zero : (m i : ℕ) → (bit_and m (2 ^ i) != 0) ≡ test_bit m i
bit_and-two_pow_ne_zero m i = elim (Bool-cases (test_bit m i)) [
  | inl h ↦ ground (
    arith,
    test_bit_ne_zero (bit_and m (2 ^ i)) i,
    test_bit-bit_and m (2 ^ i) i,
    test_bit-two_pow i i,
  )
  | inr h ↦ let e : bit_and m (2 ^ i) ≡ 0 = test_bit_ext _ 0 (λ j. absent m i h j) in ground arith
]

-- Masks with no bit in common.
pub bit_and-eq-zero : (a b : ℕ) → bit_and a b ≡ 0 → (i : ℕ) → (test_bit a i && test_bit b i) ≡ false
bit_and-eq-zero a b h i = sym (test_bit-bit_and a b i) ∙ ap (λ m. test_bit m i) h ∙ test_bit-zero i

-- A word put above another is added to it.
pub bit_or-eq-add : (k a b : ℕ) → a < 2 ^ k → bit_or a (b * 2 ^ k) ≡ a + b * 2 ^ k
bit_or-eq-add zero a b h =
    let e : a ≡ 0 = omega arith in
    let m : b * 2 ^ 0 ≡ b = omega arith in
    rw (e, m)
      (test_bit_ext _ _ (λ i. test_bit-bit_or 0 b i ∙ ap (λ t. t || test_bit b i) (test_bit-zero i))
        ∙ omega arith)
bit_or-eq-add (suc k) a b h =
    let half : b * 2 ^ suc k / 2 ≡ b * 2 ^ k =
      omega (arith, ap (λ t. b * t) (pow-suc 2 k), mul_assoc b (2 ^ k) 2) in
    let even : b * 2 ^ suc k % 2 ≡ 0 =
      omega (arith, ap (λ t. b * t) (pow-suc 2 k), mul_assoc b (2 ^ k) 2) in
    omega (
      arith,
      bit_or_step a (b * 2 ^ suc k),
      ap (bit_or (a / 2)) half,
      even,
      ap (λ t. b * t) (pow-suc 2 k),
      mul_assoc b (2 ^ k) 2,
      bit_or-eq-add k (a / 2) b (omega (arith, pow-suc 2 k)),
    )

-- The lowest digit of a remainder by a power of two.
mod_step : (k m : ℕ) → m % 2 ^ suc k ≡ m / 2 % 2 ^ k * 2 + m % 2
mod_step k m =
    let r : ℕ = m / 2 % 2 ^ k in
    let q : ℕ = m / 2 / 2 ^ k in
    let lt : r < 2 ^ k = mod-lt (m / 2) (one-le-pow k 2 (omega arith)) in
    let e : m ≡ (r * 2 + m % 2) + q * 2 ^ suc k =
      omega (
        arith,
        mod-add-div' (m / 2) (2 ^ k),
        ap (λ t. q * t) (pow-suc 2 k),
        mul_assoc q (2 ^ k) 2,
      ) in
    ap (λ t. t % 2 ^ suc k) e
    ∙ add-mul-mod_self_right (r * 2 + m % 2) q (2 ^ suc k)
    ∙ mod-eq_of_lt (omega (arith, pow-suc 2 k))

-- A mask of low bits takes a remainder.
pub bit_and_low-eq-mod : (k m : ℕ) → bit_and m (2 ^ k - 1) ≡ m % 2 ^ k
bit_and_low-eq-mod zero m =
    let z : bit_and m 0 ≡ 0 =
      test_bit_ext _ 0 (λ i. ground (arith, test_bit-bit_and m 0 i, test_bit-zero i)) in
    z ∙ omega arith
bit_and_low-eq-mod (suc k) m =
    let e : (2 ^ suc k - 1) / 2 ≡ 2 ^ k - 1 = omega (arith, pow-suc 2 k, one-le-pow k 2) in
    omega (
      arith,
      bit_and_step m (2 ^ suc k - 1),
      ap (bit_and (m / 2)) e,
      bit_and_low-eq-mod k (m / 2),
      mod_step k m,
      pow-suc 2 k,
      one-le-pow k 2,
    )
