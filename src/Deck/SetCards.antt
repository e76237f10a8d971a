-- ===== src/Deck/SetCards.antt =====
-- What set_cards of src/core/deck.cpp takes, and what it throws.
use xia_pl.Base.{
  ℕ, ◌^◌, bit_and, bit_or, ◌≡◌, refl, not, ◌!=◌, List, [], ◌∷◌, map, Bool-cases, inl, inr, ◌⊎◌,
}
use xia_pl.Base.Errors.{Result, ok, err, Exception, invalid_argument}
use xia_pl.Card.{Card}
use xia_pl.Mask.{is_valid_card_id}
use xia_pl.Deck.{Deck, check_cards, set_cards}
use xia_pl.Deck.Invariant.{IsDeck, check_cards_iff, none_seen}

abbrev pub invalid_card_error : Exception
invalid_card_error = invalid_argument "Deck::set_cards: invalid Card id"

abbrev pub duplicate_card_error : Exception
duplicate_card_error = invalid_argument "Deck::set_cards: duplicate card"

clash : (e : Exception) (r : Result (Unit {0})) → r ≡ err e → ¬ (r ≡ ok tt)
clash e r p q = cc (p, q)

check_cards-cases :
    (seen : ℕ) (cs : List Card)
    → (check_cards seen cs ≡ ok tt)
      ⊎ (check_cards seen cs ≡ err invalid_card_error)
      ⊎ (check_cards seen cs ≡ err duplicate_card_error)
unfolding check_cards
check_cards-cases seen [] = inl refl
check_cards-cases seen (c ∷ cs) = elim (Bool-cases (not (is_valid_card_id c.id))) [
  | inl bad ↦ rw bad (inr (inl refl))
  | inr valid ↦ elim (Bool-cases (bit_and seen (2 ^ c.id) != 0)) [
    | inl again ↦ rw (valid, again) (inr (inr refl))
    | inr new ↦ rw (valid, new) (check_cards-cases (bit_or seen (2 ^ c.id)) cs)
  ]
]

-- Either no card is listed twice, all are of the 52, and the deck has the cards as they stand; or a card is
-- listed twice or is not of the 52, and the call throws std::invalid_argument, with the message for
-- an invalid card or the one for a duplicate.
pub set_cards_lem :
    (d : Deck) (cs : List Card)
    → (IsDeck (map (λ c. c.id) cs)
        × (set_cards d cs ≡ ok (record { card_ids = map (λ c. c.id) cs })))
      ⊎ ((¬ IsDeck (map (λ c. c.id) cs))
          × ((set_cards d cs ≡ err invalid_card_error)
              ⊎ (set_cards d cs ≡ err duplicate_card_error)))
unfolding set_cards
set_cards_lem d cs =
    let check = check_cards_iff 0 cs in
    let rejected =
      λ (e : Exception) (p : check_cards 0 cs ≡ err e) (v : IsDeck (map (λ c. c.id) cs)).
        clash e (check_cards 0 cs) p (check.1 (v, none_seen (map (λ c. c.id) cs))) in
    elim (check_cards-cases 0 cs) [
      | inl p ↦ inl ((check.0 p).0, rw p refl)
      | inr (inl p) ↦ inr (rejected invalid_card_error p, inl (rw p refl))
      | inr (inr p) ↦ inr (rejected duplicate_card_error p, inr (rw p refl))
    ]
