-- ===== src/Evaluator/Decode.antt =====
-- `decode_score` of src/core/eval_core.h: comparing packed scores compares the decoded hands.
use xia_pl.Base.{
  ℕ, suc, ◌+◌, ◌*◌, ◌/◌, ◌%◌, ◌^◌, ◌≤◌, ◌<◌, bit_and, ◌≡◌, ap, sym, ◌∙◌, ltb, arith, List, [], ◌∷◌,
  ap₂, get_or,
}
use native.Mathlib.Nat.{mul-le-mul_right}
use xia_pl.Base.Bits.{bit_and_step, test_bit_ext, test_bit-bit_and, test_bit-zero}
use xia_pl.HandValue.{lexicographical_compare, hand_lt}
use xia_pl.HandValue.Order.{kickers_eq_iff}
use xia_pl.Evaluator.{decode_score}

bit_and-zero : (a : ℕ) → bit_and a 0 ≡ 0
bit_and-zero a = test_bit_ext _ 0 (λ i. ground (arith, test_bit-bit_and a 0 i, test_bit-zero i))

bit_and_fifteen : (a : ℕ) → bit_and a 0xF ≡ a % 16
bit_and_fifteen a = omega (
  arith,
  bit_and_step a 15,
  bit_and_step (a / 2) 7,
  bit_and_step (a / 2 / 2) 3,
  bit_and_step (a / 2 / 2 / 2) 1,
  bit_and-zero (a / 2 / 2 / 2 / 2),
)

-- The parts of a decoded score, as arithmetic.
pub decode_score_parts :
    (s : ℕ)
    → s < 2 ^ 24
    → ((decode_score s).category ≡ s / 2 ^ 20)
      × ((decode_score s).kickers
          ≡ (s / 2 ^ 16 % 16)
            ∷ (s / 2 ^ 12 % 16)
            ∷ (s / 2 ^ 8 % 16)
            ∷ (s / 2 ^ 4 % 16)
            ∷ (s % 16)
            ∷ [])
unfolding decode_score
decode_score_parts s h = (
  omega arith,
  ground (
    arith,
    bit_and_fifteen (s / 2 ^ 16),
    bit_and_fifteen (s / 2 ^ 12),
    bit_and_fifteen (s / 2 ^ 8),
    bit_and_fifteen (s / 2 ^ 4),
    bit_and_fifteen (s / 2 ^ 0),
  ),
)

mul_step : (m d e x y : ℕ) → d < e → x < m → d * m + x < e * m + y
mul_step m d e x y h k = let p : suc d * m ≤ e * m = mul-le-mul_right m h in omega (arith, p)

-- One more digit in front, with place value `m`.
lex_step :
    (m d e x y : ℕ) (xs ys : List ℕ)
    → x < m
    → y < m
    → lexicographical_compare xs ys ≡ ltb x y
    → lexicographical_compare (d ∷ xs) (e ∷ ys) ≡ ltb (d * m + x) (e * m + y)
unfolding lexicographical_compare
lex_step m d e x y xs ys h k ih =
    ground (arith, mul_step m d e x y, mul_step m e d y x, ap (λ (t : ℕ). t * m) {x = d} {y = e})

abbrev digits : ℕ → List ℕ
digits s =
    (s / 2 ^ 16 % 16) ∷ (s / 2 ^ 12 % 16) ∷ (s / 2 ^ 8 % 16) ∷ (s / 2 ^ 4 % 16) ∷ (s % 16) ∷ []

last_digit : (x y : ℕ) → lexicographical_compare (x ∷ []) (y ∷ []) ≡ ltb x y
unfolding lexicographical_compare
last_digit x y = ground arith

-- Five hexadecimal digits compare as the number that they make.
lex_digits :
    (s t : ℕ) → lexicographical_compare (digits s) (digits t) ≡ ltb (s % 2 ^ 20) (t % 2 ^ 20)
lex_digits s t =
    let e1 : lexicographical_compare ((s % 16) ∷ []) ((t % 16) ∷ []) ≡ ltb (s % 16) (t % 16) =
      last_digit (s % 16) (t % 16) in
    let e2 =
      lex_step 16 (s / 2 ^ 4 % 16) (t / 2 ^ 4 % 16) (s % 16) (t % 16) _ _ (omega arith)
        (omega arith) e1 in
    let e3 =
      lex_step 256 (s / 2 ^ 8 % 16) (t / 2 ^ 8 % 16) _ _ _ _ (omega arith) (omega arith) e2 in
    let e4 =
      lex_step 4096 (s / 2 ^ 12 % 16) (t / 2 ^ 12 % 16) _ _ _ _ (omega arith) (omega arith) e3 in
    let e5 =
      lex_step 65536 (s / 2 ^ 16 % 16) (t / 2 ^ 16 % 16) _ _ _ _ (omega arith) (omega arith) e4 in
    e5 ∙ ap₂ ltb (join s) (join t)
  where
    join :
        (s : ℕ)
        → s / 2 ^ 16 % 16 * 65536
            + (s / 2 ^ 12 % 16 * 4096 + (s / 2 ^ 8 % 16 * 256 + (s / 2 ^ 4 % 16 * 16 + s % 16)))
          ≡ s % 2 ^ 20
    join s = omega arith

abbrev number_of : List ℕ → ℕ
number_of xs =
    get_or xs 0 0 * 65536
    + (get_or xs 1 0 * 4096 + (get_or xs 2 0 * 256 + (get_or xs 3 0 * 16 + get_or xs 4 0)))

number-digits : (s : ℕ) → number_of (digits s) ≡ s % 2 ^ 20
number-digits s = omega arith

digits_mod : (s : ℕ) → digits s ≡ digits (s % 2 ^ 20)
digits_mod s = ground arith

-- Packed scores below 2 ^ 24 stand in the order of the hands that they decode to.
pub hand_lt-decode_score :
    (s t : ℕ) → s < 2 ^ 24 → t < 2 ^ 24 → hand_lt (decode_score s) (decode_score t) ≡ ltb s t
unfolding hand_lt
hand_lt-decode_score s t h k =
    let p = decode_score_parts s h in
    let q = decode_score_parts t k in
    let same : s ≡ t → (decode_score s).kicker_count ≡ (decode_score t).kicker_count =
      ap (λ n. (decode_score n).kicker_count) in
    let lex = lex_digits s t in
    let equal = kickers_eq_iff (digits s) (digits t) in
    let lists : digits s ≡ digits t → s % 2 ^ 20 ≡ t % 2 ^ 20 =
      λ e. sym (number-digits s) ∙ ap number_of e ∙ number-digits t in
    let back : s % 2 ^ 20 ≡ t % 2 ^ 20 → digits s ≡ digits t =
      λ e. digits_mod s ∙ ap digits e ∙ sym (digits_mod t) in
    rw (p.0, p.1, q.0, q.1) (ground (arith, same, lex, equal.0, equal.1, lists, back))
