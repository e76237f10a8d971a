-- ===== src/Base/Sets.antt =====
-- Sets of small numbers as ascending lists, and as the words whose bits they are.
use xia_pl.Base.{
  ℕ, zero, suc, ◌+◌, ◌/◌, ◌%◌, ◌^◌, ◌≤◌, ◌<◌, bit_and, bit_or, ◌≡◌, refl, Bool, true, false, ◌&&◌,
  ◌||◌, ◌==◌, ltb, arith, Bool-cases, inl, inr, ap, ap₂, List, [], ◌∷◌, length, All,
}
use xia_pl.Base.Bits.{test_bit, test_bit-bit_or, test_bit-two_pow, bit_and-two_pow_ne_zero}
use xia_pl.Base.Words.{popcount, set_bits, popcount-bit_or, popcount-two_pow, popcount-zero}

-- std::find on a vector of ids
unfoldable pub contains : ℕ → List ℕ → Bool
contains x [] = false
contains x (y ∷ ys) = x == y || contains x ys

abbrev pub AscendingFrom : ℕ → List ℕ → Type 0
AscendingFrom k [] = Unit
AscendingFrom k (x ∷ xs) = (k ≤ x) × AscendingFrom (x + 1) xs

abbrev pub Distinct : List ℕ → Type 0
Distinct [] = Unit
Distinct (x ∷ xs) = (contains x xs ≡ false) × Distinct xs

AscendingFrom-mono : (j k : ℕ) (xs : List ℕ) → j ≤ k → AscendingFrom k xs → AscendingFrom j xs
AscendingFrom-mono j k [] h a = tt
AscendingFrom-mono j k (x ∷ xs) h a = (omega arith, a.1)

pub set_bits-AscendingFrom : (w k m : ℕ) → AscendingFrom k (set_bits w k m)
unfolding set_bits
set_bits-AscendingFrom zero k m = tt
set_bits-AscendingFrom (suc w) k m = elim (Bool-cases (m % 2 == 1)) [
  | inl odd ↦ rw (odd, set_bits) (omega arith, set_bits-AscendingFrom w (k + 1) (m / 2))
  | inr even ↦
      rw (even, set_bits)
        (AscendingFrom-mono k (k + 1) _ (omega arith) (set_bits-AscendingFrom w (k + 1) (m / 2)))
]

-- Below the start of an ascending list nothing is found.
pub contains_below : (i k : ℕ) (xs : List ℕ) → AscendingFrom k xs → i < k → contains i xs ≡ false
unfolding contains
contains_below i k [] a h = refl
contains_below i k (x ∷ xs) a h = ground (arith, contains_below i (x + 1) xs a.1)

pub contains-set_bits :
    (w i k m : ℕ) → contains (i + k) (set_bits w k m) ≡ (ltb i w && test_bit m i)
unfolding contains set_bits test_bit
contains-set_bits zero i k m = ground arith
contains-set_bits (suc w) zero k m =
    let gone : contains (0 + k) (set_bits w (k + 1) (m / 2)) ≡ false =
      contains_below (0 + k) (k + 1) _ (set_bits-AscendingFrom w (k + 1) (m / 2)) (omega arith) in
    ground (arith, gone)
contains-set_bits (suc w) (suc i) k m =
    let e : i + (k + 1) ≡ suc i + k = omega arith in
    let ih : contains (suc i + k) (set_bits w (k + 1) (m / 2)) ≡ (ltb i w && test_bit (m / 2) i) =
      rw (← e) (contains-set_bits w i (k + 1) (m / 2)) in
    ground (arith, ih)

-- An ascending list is determined by its members.
pub AscendingFrom-ext :
    (k : ℕ) (xs ys : List ℕ)
    → AscendingFrom k xs
    → AscendingFrom k ys
    → ((i : ℕ) → contains i xs ≡ contains i ys)
    → xs ≡ ys
unfolding contains
AscendingFrom-ext k [] [] a b h = refl
AscendingFrom-ext k [] (y ∷ ys) a b h = ground (arith, h y)
AscendingFrom-ext k (x ∷ xs) [] a b h = ground (arith, h x)
AscendingFrom-ext k (x ∷ xs) (y ∷ ys) a b h =
    let e : x ≡ y =
      ground (arith, h x, h y, contains_below x (y + 1) ys b.1, contains_below y (x + 1) xs a.1) in
    let tails : xs ≡ ys = AscendingFrom-ext (x + 1) xs ys a.1 (rw e b.1) (λ i.
      ground (arith, e, h i, contains_below i (x + 1) xs a.1, contains_below i (y + 1) ys b.1)) in
    ap₂ ◌∷◌ e tails

-- The word whose bits are those of `acc` and the listed ones: `mask |= 1 << id` for each id.
unfoldable pub or_bits : ℕ → List ℕ → ℕ
or_bits acc [] = acc
or_bits acc (id ∷ ids) = or_bits (bit_or acc (2 ^ id)) ids

pub test_bit-or_bits :
    (acc : ℕ) (ids : List ℕ) (i : ℕ)
    → test_bit (or_bits acc ids) i ≡ (test_bit acc i || contains i ids)
unfolding or_bits contains
test_bit-or_bits acc [] i = ground arith
test_bit-or_bits acc (id ∷ ids) i = ground (
  arith,
  test_bit-or_bits (bit_or acc (2 ^ id)) ids i,
  test_bit-bit_or acc (2 ^ id) i,
  test_bit-two_pow id i,
)

pub contains-lt : (n i : ℕ) (xs : List ℕ) → All (λ x. x < n) xs → contains i xs ≡ true → i < n
unfolding contains
contains-lt n i [] a h = cc
contains-lt n i (x ∷ xs) a h = ground (arith, contains-lt n i xs a.1)

still_absent :
    (acc id : ℕ) (ids : List ℕ)
    → contains id ids ≡ false
    → All (λ x. test_bit acc x ≡ false) ids
    → All (λ x. test_bit (bit_or acc (2 ^ id)) x ≡ false) ids
unfolding contains
still_absent acc id [] d f = tt
still_absent acc id (x ∷ xs) d f = (
  ground (arith, test_bit-bit_or acc (2 ^ id) x, test_bit-two_pow id x, f.0),
  still_absent acc id xs (ground arith) f.1,
)

-- Distinct bits are counted one by one.
pub popcount-or_bits :
    (w acc : ℕ) (ids : List ℕ)
    → Distinct ids
    → All (λ x. x < w) ids
    → All (λ x. test_bit acc x ≡ false) ids
    → popcount w (or_bits acc ids) ≡ popcount w acc + length ids
unfolding or_bits
popcount-or_bits w acc [] d a f = omega arith
popcount-or_bits w acc (id ∷ ids) d a f =
    let gone : bit_and acc (2 ^ id) ≡ 0 = ground (arith, bit_and-two_pow_ne_zero acc id, f.0) in
    omega (
      arith,
      popcount-or_bits w (bit_or acc (2 ^ id)) ids d.1 a.1 (still_absent acc id ids d.0 f.1),
      popcount-bit_or w acc (2 ^ id),
      popcount-two_pow w id a.0,
      ap (popcount w) gone,
      popcount-zero w,
    )
