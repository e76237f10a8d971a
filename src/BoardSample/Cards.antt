-- ===== src/BoardSample/Cards.antt =====
-- deck_indices_of of src/core/board_sample.h, against the conversion of masks in src/core/utils.cpp.
use xia_pl.Base.{ℕ, ◌+◌, ◌^◌, ◌≤◌, ◌<◌, ◌≡◌, ◌&&◌, ltb, sym, ◌∙◌, arith}
use xia_pl.Base.Bits.{test_bit, test_bit_above}
use xia_pl.Base.Words.{popcount-le, set_bits, pop_bits-eq-set_bits}
use xia_pl.Base.Sets.{contains, AscendingFrom-ext, set_bits-AscendingFrom, contains-set_bits}
use xia_pl.Mask.{mask_to_ids}
use xia_pl.Mask.Laws.{mask_to_ids-eq-set_bits}
use xia_pl.BoardSample.{deck_indices_of}

-- Bits above a word add none to its set bits.
set_bits_wide : (v w m : ℕ) → w ≤ v → m < 2 ^ w → set_bits v 0 m ≡ set_bits w 0 m
set_bits_wide v w m le lt =
    AscendingFrom-ext 0 _ _ (set_bits-AscendingFrom v 0 m) (set_bits-AscendingFrom w 0 m) (λ i.
      let e : i + 0 ≡ i = omega arith in
      let p : contains i (set_bits v 0 m) ≡ (ltb i v && test_bit m i) =
        rw e at (contains-set_bits v i 0 m) in
      let q : contains i (set_bits w 0 m) ≡ (ltb i w && test_bit m i) =
        rw e at (contains-set_bits w i 0 m) in
      ground (arith, p, q, test_bit_above w m i lt))

-- On masks of the deck the loop that pops the lowest bit gives the ids that the loop over the deck
-- gives, in the same order.
pub deck_indices_of-eq-mask_to_ids : (m : ℕ) → m < 2 ^ 52 → deck_indices_of m ≡ mask_to_ids m
unfolding deck_indices_of
deck_indices_of-eq-mask_to_ids m lt =
    pop_bits-eq-set_bits 64 64 m (omega arith) (popcount-le 64 m)
    ∙ set_bits_wide 64 52 m (omega arith) lt
    ∙ sym (mask_to_ids-eq-set_bits m)
