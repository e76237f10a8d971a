-- ===== src/Base/Bits/Step.antt =====
-- The lowest digit of each bit operation, and what is left of it. The operations are recursions on
-- binary digits that carry fuel; any fuel that is not below the first word gives the same digits.
use Prim.Native.Nat.{
  min, max, differ, digits, bitwise, bit_and-bitwise, bit_or-bitwise, bit_xor-bitwise,
}
use xia_pl.Base.{
  ℕ, zero, suc, ◌+◌, ◌*◌, ◌/◌, ◌%◌, ◌≤◌, ◌<◌, bit_and, bit_or, bit_xor, ◌≡◌, refl, arith,
}

same_digits :
    (low : ℕ → ℕ) (op : ℕ → ℕ → ℕ) (x fuel spare y : ℕ)
    → x ≤ fuel
    → x ≤ spare
    → digits low op fuel x y ≡ digits low op spare x y
same_digits low op zero zero zero y h k = refl
same_digits low op zero zero (suc spare) y h k = refl
same_digits low op zero (suc fuel) zero y h k = refl
same_digits low op zero (suc fuel) (suc spare) y h k = refl
same_digits low op (suc x) zero spare y h k = absurd (omega arith)
same_digits low op (suc x) (suc fuel) zero y h k = absurd (omega arith)
same_digits low op (suc x) (suc fuel) (suc spare) y h k =
    let half = suc x / 2 in
    rw (same_digits low op half fuel spare (y / 2) (omega arith) (omega arith)) refl

lowest_digit :
    (low : ℕ → ℕ) (op : ℕ → ℕ → ℕ) (x y : ℕ)
    → bitwise low op (suc x) y ≡ bitwise low op (suc x / 2) (y / 2) * 2 + op (suc x % 2) (y % 2)
lowest_digit low op x y =
    let half = suc x / 2 in
    let fuel = same_digits low op half x half (y / 2) (omega arith) (omega arith) in
    omega (arith, fuel)

pub bit_and_step : (x y : ℕ) → bit_and x y ≡ bit_and (x / 2) (y / 2) * 2 + min (x % 2) (y % 2)
bit_and_step zero y = simp bit_and-bitwise (omega arith)
bit_and_step (suc x) y = let e = lowest_digit (λ _. 0) min x y in simp bit_and-bitwise e

differ_digits : (x y : ℕ) → x < 2 → y < 2 → differ x y ≡ (x + y) % 2
differ_digits zero y h k = omega arith
differ_digits (suc zero) zero h k = refl
differ_digits (suc zero) (suc zero) h k = refl
differ_digits (suc zero) (suc (suc y)) h k = absurd (omega arith)
differ_digits (suc (suc x)) y h k = absurd (omega arith)

pub bit_xor_step : (x y : ℕ) → bit_xor x y ≡ bit_xor (x / 2) (y / 2) * 2 + (x % 2 + y % 2) % 2
bit_xor_step zero y = simp bit_xor-bitwise (omega arith)
bit_xor_step (suc x) y =
    let e = lowest_digit (λ n. n) differ x y in
    let d = differ_digits (suc x % 2) (y % 2) (omega arith) (omega arith) in
    simp bit_xor-bitwise (omega (arith, e, d))

pub bit_or_step : (x y : ℕ) → bit_or x y ≡ bit_or (x / 2) (y / 2) * 2 + max (x % 2) (y % 2)
bit_or_step zero y = simp bit_or-bitwise (omega arith)
bit_or_step (suc x) y = let e = lowest_digit (λ n. n) max x y in simp bit_or-bitwise e
