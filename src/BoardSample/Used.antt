-- ===== src/BoardSample/Used.antt =====
-- The check of the players' masks in src/core/board_sample.h.
use xia_pl.Base.{
  ℕ, suc, ◌+◌, ◌*◌, ◌^◌, ◌≤◌, ◌<◌, bit_and, bit_or, ◌≡◌, ◌≢◌, ◌↔◌, refl, ap, ◌∙◌, true, false, ◌==◌,
  ◌!=◌, ltb, List, [], ◌∷◌, length, arith, Bool-cases, inl, inr, All, String,
}
use xia_pl.Base.Errors.{ok}
use xia_pl.Base.Bits.{bit_and_low-eq-mod, lt_of_test_bit, test_bit-bit_or, test_bit_above}
use xia_pl.Base.Words.{popcount, popcount-bit_or, popcount-zero, popcount-eq-zero, bit_and-le}
use xia_pl.Mask.{full_deck_mask, popcount64}
use xia_pl.Evaluator.Lanes.{popcount_wide}
use xia_pl.BoardSample.{add_holes, build_used_mask}

-- All cards of the players and of `used`.
unfoldable pub cards_of : List ℕ → ℕ → ℕ
cards_of [] used = used
cards_of (h ∷ hs) used = cards_of hs (bit_or used (bit_and h full_deck_mask))

pub hole-lt : (h : ℕ) → bit_and h full_deck_mask < 2 ^ 52
hole-lt h = omega (arith, bit_and_low-eq-mod 52 h)

pub bit_or-lt : (a b : ℕ) → a < 2 ^ 52 → b < 2 ^ 52 → bit_or a b < 2 ^ 52
bit_or-lt a b h k =
    lt_of_test_bit 52 _ (λ i l.
      ground (arith, test_bit-bit_or a b i, test_bit_above 52 a i h, test_bit_above 52 b i k))

module _ (expected : ℕ) (caller_name : String) (more : 0 < expected) where
  -- Every player holds as many cards of the deck as expected.
  abbrev pub HaveCards : List ℕ → Type 0
  HaveCards = All (λ h. popcount 52 (bit_and h full_deck_mask) ≡ expected)

  popcount-cards_of-le :
      (hs : List ℕ) (used : ℕ)
      → HaveCards hs
      → popcount 52 (cards_of hs used) ≤ popcount 52 used + expected * length hs
  unfolding cards_of
  popcount-cards_of-le [] used a = omega arith
  popcount-cards_of-le (h ∷ hs) used a =
      let m : ℕ = bit_and h full_deck_mask in
      grind (arith, popcount-cards_of-le hs (bit_or used m) a.1, popcount-bit_or 52 used m, a.0)

  add_holes_iff :
      (hs : List ℕ) (used : ℕ)
      → used < 2 ^ 52
      → (add_holes hs caller_name expected used ≡ ok (cards_of hs used)) ↔ (
          HaveCards hs × (popcount 52 (cards_of hs used) ≡ popcount 52 used + expected * length hs))
  unfolding add_holes cards_of
  add_holes_iff [] used lt = (λ e. (tt, omega arith), λ p. refl)
  add_holes_iff (h ∷ hs) used lt =
      let m : ℕ = bit_and h full_deck_mask in
      let size : popcount64 m ≡ popcount 52 m =
        unfold popcount64 in popcount_wide 64 52 m (omega arith) (hole-lt h) in
      let grow = popcount-bit_or 52 used m in
      let on : ltb 0 expected ≡ true = ground arith in
      let off : (expected == 0) ≡ false = ground arith in
      let times : expected * suc (length hs) ≡ expected * length hs + expected = grind arith in
      elim (Bool-cases (popcount64 m != expected)) [
        | inl bad ↦ rw (on, bad) (λ e. cc, λ p. absurd (ground (arith, size, p.0.0)))
        | inr fine ↦ elim (Bool-cases (bit_and used m != 0)) [
          | inl overlap ↦
              let some_shared : popcount 52 (bit_and used m) ≢ 0 = λ z. ground (
                arith,
                popcount-eq-zero 52 (bit_and used m) (omega (arith, bit_and-le used m)) z,
              ) in
              rw (on, fine, off, overlap)
                (
                  λ e. cc,
                  λ p. absurd (
                      omega (
                        arith,
                        p.1,
                        p.0.0,
                        grow,
                        times,
                        some_shared,
                        popcount-cards_of-le hs (bit_or used m) p.0.1,
                      )),
                )
          | inr apart ↦
              let none_shared : bit_and used m ≡ 0 = ground arith in
              let z : popcount 52 (bit_and used m) ≡ 0 =
                ap (popcount 52) none_shared ∙ popcount-zero 52 in
              let sized : popcount 52 m ≡ expected = ground (arith, size) in
              let ih = add_holes_iff hs (bit_or used m) (bit_or-lt used m lt (hole-lt h)) in
              rw (on, fine, off, apart)
                (
                  λ e. let p = ih.0 e in ((sized, p.0), omega (arith, p.1, grow, z, sized, times)),
                  λ p. ih.1 (p.0.1, omega (arith, p.1, grow, z, sized, times)),
                )
        ]
      ]

  pub build_used_mask_iff :
      (hs : List ℕ) (board : ℕ)
      → let on_board = bit_and board full_deck_mask in
        (build_used_mask hs board caller_name expected ≡ ok (cards_of hs on_board)) ↔ (
          HaveCards hs
          × (popcount 52 (cards_of hs on_board) ≡ popcount 52 on_board + expected * length hs))
  unfolding build_used_mask
  build_used_mask_iff hs board = add_holes_iff hs (bit_and board full_deck_mask) (hole-lt board)
