-- ===== src/Deck/Dealing.antt =====
-- Dealing takes cards off the end and loses none.
use mathlib.Core.List.{reverse, reverse-cons, append_assoc, append-nil}
use xia_pl.Base.{
  ℕ, zero, suc, ◌^◌, min, bit_or, ◌≡◌, ◌⊎◌, inl, inr, refl, ap, sym, ◌∙◌, none, some, List, [], ◌∷◌,
  ◌++◌, length, length-append, arith, Option-cases,
}
use xia_pl.Base.Int.{ℤ, pos_part}
use xia_pl.Base.Bits.{test_bit, test_bit-zero}
use xia_pl.Base.Sets.{contains, or_bits, test_bit-or_bits}
use xia_pl.Deck.{Deck, pop_back, deal_loop, deal_ids, mask_loop, deal_mask, size}

pub pop_back-cases :
    (ids : List ℕ)
    → ((ids ≡ []) × (pop_back ids ≡ none))
      ⊎ ((id : ℕ) × (rest : List ℕ) × (ids ≡ rest ++ id ∷ []) × (pop_back ids ≡ some (id, rest)))
unfolding pop_back
pop_back-cases [] = inl (refl, refl)
pop_back-cases (x ∷ xs) = elim (pop_back-cases xs) [
  | inl (e, p) ↦ inr (x, [], ap (◌∷◌ x) e, rw (p, pop_back) refl)
  | inr (id, rest, e, p) ↦ inr (id, x ∷ rest, ap (◌∷◌ x) e, rw (p, pop_back) refl)
]

take_last : (ids xs : List ℕ) (id : ℕ) → (ids ++ xs) ++ id ∷ [] ≡ ids ++ (xs ++ id ∷ [])
take_last ids xs id = append_assoc ids xs (id ∷ [])

pub deal_loop_lem :
    (n : ℕ) (ids : List ℕ)
    → ((deal_loop n ids).1 ++ reverse (deal_loop n ids).0 ≡ ids)
      × (length (deal_loop n ids).0 ≡ min n (length ids))
unfolding deal_loop
deal_loop_lem zero ids = (append-nil ids, omega arith)
deal_loop_lem (suc n) ids = elim (pop_back-cases ids) [
  | inl (e, p) ↦ rw (p, deal_loop, e) (refl, omega arith)
  | inr (id, rest, e, p) ↦
      rw (p, deal_loop)
        (
          rw (reverse-cons id (deal_loop n rest).0)
              (sym (take_last _ _ id) ∙ ap (λ l. l ++ id ∷ []) (deal_loop_lem n rest).0 ∙ sym e),
          rw e (omega (arith, length-append rest (id ∷ []), (deal_loop_lem n rest).1)),
        )
]

-- Dealing takes its ids off the end of the deck: the deck left and the ids dealt, last first, are
-- the deck there was. As many are dealt as asked for, or all of them, and none for a negative
-- number.
pub deal_ids_lem :
    (d : Deck) (n : ℤ)
    → ((deal_ids d n).1.card_ids ++ reverse (deal_ids d n).0 ≡ d.card_ids)
      × (length (deal_ids d n).0 ≡ min (pos_part n) (size d))
unfolding deal_ids size
deal_ids_lem d n = deal_loop_lem (pos_part n) d.card_ids

mask_loop-eq-or_bits :
    (n mask : ℕ) (ids : List ℕ)
    → ((mask_loop n mask ids).0 ≡ or_bits mask (deal_loop n ids).0)
      × ((mask_loop n mask ids).1 ≡ (deal_loop n ids).1)
unfolding mask_loop deal_loop or_bits
mask_loop-eq-or_bits zero mask ids = (refl, refl)
mask_loop-eq-or_bits (suc n) mask ids = elim (Option-cases (pop_back ids)) [
  | inl e ↦ rw (e, mask_loop, deal_loop) (refl, refl)
  | inr ((id, rest), e) ↦
      rw (e, mask_loop, deal_loop) (mask_loop-eq-or_bits n (bit_or mask (2 ^ id)) rest)
]

-- `deal_mask` leaves the deck that `deal_ids` leaves, and bit i of its mask is set just when id i
-- is dealt.
pub deal_mask-deal_ids :
    (d : Deck) (n : ℤ) (i : ℕ)
    → ((deal_mask d n).1 ≡ (deal_ids d n).1)
      × (test_bit (deal_mask d n).0 i ≡ contains i (deal_ids d n).0)
unfolding deal_mask deal_ids
deal_mask-deal_ids d n i =
    let e = mask_loop-eq-or_bits (pos_part n) 0 d.card_ids in
    (
      ap (λ l. record { card_ids = l }) e.1,
      rw e.0 (
          ground
            (arith, test_bit-or_bits 0 (deal_loop (pos_part n) d.card_ids).0 i, test_bit-zero i)),
    )
