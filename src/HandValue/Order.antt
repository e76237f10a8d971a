-- ===== src/HandValue/Order.antt =====
-- The comparison of hand values is a strict total order.
use xia_pl.Base.{ℕ, ◌≡◌, ◌↔◌, ◌⊎◌, refl, true, false, List, [], ◌∷◌, arith}
use xia_pl.HandValue.{HandValue, kickers_eq, lexicographical_compare, hand_eq, hand_lt}

pub kickers_eq_iff : (xs ys : List ℕ) → (kickers_eq xs ys ≡ true) ↔ (xs ≡ ys)
unfolding kickers_eq
kickers_eq_iff [] [] = ground arith
kickers_eq_iff [] (y ∷ ys) = ground arith
kickers_eq_iff (x ∷ xs) [] = ground arith
kickers_eq_iff (x ∷ xs) (y ∷ ys) = ground (arith, kickers_eq_iff xs ys)

lex_trans :
    (xs ys zs : List ℕ)
    → lexicographical_compare xs ys ≡ true
    → lexicographical_compare ys zs ≡ true
    → lexicographical_compare xs zs ≡ true
unfolding lexicographical_compare
lex_trans [] [] [] h k = cc
lex_trans [] (y ∷ ys) [] h k = cc
lex_trans [] ys (z ∷ zs) h k = refl
lex_trans (x ∷ xs) [] zs h k = cc
lex_trans (x ∷ xs) (y ∷ ys) [] h k = cc
lex_trans (x ∷ xs) (y ∷ ys) (z ∷ zs) h k = ground (arith, lex_trans xs ys zs)

lex_irrefl : (xs : List ℕ) → lexicographical_compare xs xs ≡ false
unfolding lexicographical_compare
lex_irrefl [] = refl
lex_irrefl (x ∷ xs) = ground (arith, lex_irrefl xs)

lex_total :
    (xs ys : List ℕ)
    → (lexicographical_compare xs ys ≡ true)
      ⊎ (kickers_eq xs ys ≡ true)
      ⊎ (lexicographical_compare ys xs ≡ true)
unfolding lexicographical_compare kickers_eq
lex_total [] [] = ground arith
lex_total [] (y ∷ ys) = ground arith
lex_total (x ∷ xs) [] = ground arith
lex_total (x ∷ xs) (y ∷ ys) = ground (arith, lex_total xs ys)

-- `operator==` is equality of the three parts.
pub hand_eq_iff : (a b : HandValue) → (hand_eq a b ≡ true) ↔ (a ≡ b)
unfolding hand_eq
hand_eq_iff a b = ground (arith, kickers_eq_iff a.kickers b.kickers)

-- `operator<` is transitive.
hand_lt_trans : (a b c : HandValue) → hand_lt a b ≡ true → hand_lt b c ≡ true → hand_lt a c ≡ true
unfolding hand_lt
hand_lt_trans a b c h k = ground (
  arith,
  lex_irrefl a.kickers,
  lex_trans a.kickers b.kickers c.kickers,
  kickers_eq_iff a.kickers b.kickers,
  kickers_eq_iff b.kickers c.kickers,
  kickers_eq_iff a.kickers c.kickers,
)

-- Exactly one of `a < b`, `a == b` and `b < a` holds.
hand_trichotomy :
    (a b : HandValue)
    → ((hand_lt a b ≡ true) × (hand_eq a b ≡ false) × (hand_lt b a ≡ false))
      ⊎ ((hand_lt a b ≡ false) × (hand_eq a b ≡ true) × (hand_lt b a ≡ false))
      ⊎ ((hand_lt a b ≡ false) × (hand_eq a b ≡ false) × (hand_lt b a ≡ true))
unfolding hand_lt hand_eq
hand_trichotomy a b = ground (
  arith,
  lex_irrefl a.kickers,
  lex_total a.kickers b.kickers,
  lex_trans a.kickers b.kickers a.kickers,
  kickers_eq_iff a.kickers b.kickers,
  kickers_eq_iff b.kickers a.kickers,
)
