-- ===== src/Canonicalize/Packing.antt =====
-- pack_hero_board and unpack_hero_board of src/core/canonicalize.cpp.
use xia_pl.Base.{
  ℕ, zero, suc, ◌+◌, ◌-◌, ◌*◌, ◌/◌, ◌%◌, ◌^◌, ◌<◌, bit_and, bit_or, bit_xor, ◌≡◌, ◌≢◌, refl, ap,
  sym, ◌∙◌, true, false, ◌==◌, ◌||◌, arith,
}
use xia_pl.Base.Bits.{
  test_bit, test_bit_ext, test_bit-bit_or, test_bit-bit_xor, test_bit-two_pow, test_bit-zero,
  test_bit_above, lt_of_test_bit, bit_or-eq-add, bit_and_low-eq-mod, bit_and-eq-zero,
  test_bit_ne_zero,
}
use xia_pl.Base.Words.{countr_zero, bit_width, countl_zero}
use xia_pl.Mask.{ctz64, clz64}
use xia_pl.Canonicalize.{pack_hero_board, unpack_hero_board}

-- The lowest set bit is where std::countr_zero says.
countr_zero-eq :
    (w k m : ℕ)
    → k < w
    → test_bit m k ≡ true
    → ((i : ℕ) → i < k → test_bit m i ≡ false)
    → countr_zero w m ≡ k
unfolding countr_zero test_bit
countr_zero-eq zero k m h b f = absurd (omega arith)
countr_zero-eq (suc w) zero m h b f = rw b refl
countr_zero-eq (suc w) (suc k) m h b f =
    rw (f 0 (omega arith))
      (ap suc (countr_zero-eq w k (m / 2) (omega arith) b (λ i l. f (suc i) (omega arith))))

bit_width-none : (w : ℕ) → bit_width w 0 ≡ 0
unfolding bit_width
bit_width-none zero = refl
bit_width-none (suc w) = refl

-- The highest set bit is one less than the bit width.
bit_width-eq :
    (w k m : ℕ)
    → k < w
    → test_bit m k ≡ true
    → ((i : ℕ) → k < i → test_bit m i ≡ false)
    → bit_width w m ≡ suc k
unfolding bit_width test_bit
bit_width-eq zero k m h b f = absurd (omega arith)
bit_width-eq (suc w) zero m h b f =
    let none : m / 2 ≡ 0 =
      test_bit_ext (m / 2) 0 (λ i. f (suc i) (omega arith) ∙ sym (test_bit-zero i)) in
    ground (arith, ap (bit_width w) none, bit_width-none w)
bit_width-eq (suc w) (suc k) m h b f =
    let ih : bit_width w (m / 2) ≡ suc k =
      bit_width-eq w k (m / 2) (omega arith) b (λ i l. f (suc i) (omega arith)) in
    let ne : m / 2 ≢ 0 = test_bit_ne_zero (m / 2) k b in ground (arith, ih, ne)

module _ (lo hi : ℕ) (ordered : lo < hi) (in_deck : hi < 52) where
  abbrev hero : ℕ
  hero = bit_or (2 ^ lo) (2 ^ hi)

  hero_bit : (i : ℕ) → test_bit hero i ≡ (i == lo || i == hi)
  hero_bit i =
      ground
        (arith, test_bit-bit_or (2 ^ lo) (2 ^ hi) i, test_bit-two_pow lo i, test_bit-two_pow hi i)

  low_card : ctz64 hero ≡ lo
  unfolding ctz64
  low_card =
      countr_zero-eq 64 lo hero (omega arith) (ground (arith, hero_bit lo))
        (λ i l. ground (arith, hero_bit i))

  high_card : 63 - clz64 hero ≡ hi
  unfolding clz64 countl_zero
  high_card =
      let e : bit_width 64 hero ≡ suc hi =
        bit_width-eq 64 hi hero (omega arith) (ground (arith, hero_bit hi))
          (λ i l. ground (arith, hero_bit i)) in
      omega (arith, e)

  -- Two cards of the deck and a board without them are read back from their packed key.
  pub unpack-pack :
      (board : ℕ)
      → board < 2 ^ 52
      → bit_and hero board ≡ 0
      → unpack_hero_board (pack_hero_board hero board)
        ≡ record { hero_mask = hero; board_mask = board }
  unfolding pack_hero_board unpack_hero_board
  unpack-pack board small apart =
      let both : ℕ = bit_or hero board in
      let fits : both < 2 ^ 52 = lt_of_test_bit 52 both (λ i l.
        ground
          (arith, test_bit-bit_or hero board i, hero_bit i, test_bit_above 52 board i small)) in
      let packed : ℕ = both + lo * 2 ^ 52 + hi * 2 ^ 58 in
      let a : lo * 2 ^ 52 % 2 ^ 64 ≡ lo * 2 ^ 52 = omega arith in
      let b : hi * 2 ^ 58 % 2 ^ 64 ≡ hi * 2 ^ 58 = omega arith in
      let c : bit_or both (lo * 2 ^ 52) ≡ both + lo * 2 ^ 52 = bit_or-eq-add 52 both lo fits in
      let d : bit_or (both + lo * 2 ^ 52) (hi * 2 ^ 58) ≡ packed =
        bit_or-eq-add 58 (both + lo * 2 ^ 52) hi (omega arith) in
      let low : bit_and packed (2 ^ 52 - 1) ≡ both = bit_and_low-eq-mod 52 packed ∙ omega arith in
      let first : bit_and (packed / 2 ^ 52) 0x3F ≡ lo =
        bit_and_low-eq-mod 6 (packed / 2 ^ 52) ∙ omega arith in
      let second : bit_and (packed / 2 ^ 58) 0x3F ≡ hi =
        bit_and_low-eq-mod 6 (packed / 2 ^ 58) ∙ omega arith in
      let rest : bit_xor both hero ≡ board = test_bit_ext _ board (λ i. ground (
        arith,
        test_bit-bit_xor both hero i,
        test_bit-bit_or hero board i,
        bit_and-eq-zero hero board apart i,
      )) in
      rw (low_card, high_card, a, b, c, d, low, first, second, rest) refl
