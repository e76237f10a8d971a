-- ===== src/Mask/Laws.antt =====
-- The conversions between masks, ids and cards.
use xia_pl.Base.{
  ℕ, zero, suc, ◌+◌, ◌/◌, ◌%◌, ◌^◌, ◌<◌, bit_and, bit_or, ◌≡◌, ◌↔◌, refl, sym, ap, ◌∙◌, true, ◌&&◌,
  ◌==◌, ◌!=◌, ltb, List, [], ◌∷◌, map, All, arith,
}
use native.Mathlib.Nat.{pow-suc, zero-add, div-div-eq-div-mul}
use native.Mathlib.Numerals.{add-one}
use xia_pl.Base.Int.{pos}
use xia_pl.Base.Errors.{ok}
use xia_pl.Base.Bits.{
  test_bit, test_bit_ext, test_bit-zero, test_bit_above, test_bit-shift_right,
  bit_and-two_pow_ne_zero,
}
use xia_pl.Base.Words.{set_bits}
use xia_pl.Base.Sets.{
  contains, AscendingFrom, AscendingFrom-ext, set_bits-AscendingFrom, contains-set_bits, or_bits,
  test_bit-or_bits, contains-lt,
}
use xia_pl.Card.{Card, from_id}
use xia_pl.Mask.{
  pick_cards, pick_ids, or_ids, or_cards, mask_to_cards, mask_to_ids, ids_to_mask, cards_to_mask,
}

half_shift : (m k : ℕ) → m / 2 ^ (k + 1) ≡ m / 2 ^ k / 2
half_shift m k = rw (add-one k, pow-suc 2 k) (sym (div-div-eq-div-mul m (2 ^ k) 2))

bit_test : (m k : ℕ) → (bit_and m (2 ^ k) != 0) ≡ (m / 2 ^ k % 2 == 1)
unfolding test_bit
bit_test m k =
    let e : test_bit (m / 2 ^ k) 0 ≡ test_bit m k =
      test_bit-shift_right m k 0 ∙ ap (test_bit m) (zero-add k) in
    bit_and-two_pow_ne_zero m k ∙ sym e

pick_ids-eq-set_bits : (left id mask : ℕ) → pick_ids left id mask ≡ set_bits left id (mask / 2 ^ id)
unfolding pick_ids set_bits
pick_ids-eq-set_bits zero id mask = refl
pick_ids-eq-set_bits (suc left) id mask =
    rw (bit_test mask id, pick_ids-eq-set_bits left (id + 1) mask, half_shift mask id) refl

pub mask_to_ids-eq-set_bits : (m : ℕ) → mask_to_ids m ≡ set_bits 52 0 m
unfolding mask_to_ids
mask_to_ids-eq-set_bits m =
    let e : m / 2 ^ 0 ≡ m = omega arith in pick_ids-eq-set_bits 52 0 m ∙ ap (set_bits 52 0) e

pick_cards-eq-map :
    (left id mask : ℕ) → pick_cards left id mask ≡ map from_id (pick_ids left id mask)
unfolding pick_cards pick_ids
pick_cards-eq-map zero id mask = refl
pick_cards-eq-map (suc left) id mask = ground (arith, pick_cards-eq-map left (id + 1) mask)

-- The members of `mask_to_ids` are the set bits below 52.
pub contains-mask_to_ids : (m i : ℕ) → contains i (mask_to_ids m) ≡ (ltb i 52 && test_bit m i)
contains-mask_to_ids m i =
    let e : i + 0 ≡ i = omega arith in
    rw (mask_to_ids-eq-set_bits m) (rw e at (contains-set_bits 52 i 0 m))

pub mask_to_ids-AscendingFrom : (m : ℕ) → AscendingFrom 0 (mask_to_ids m)
mask_to_ids-AscendingFrom m = rw (mask_to_ids-eq-set_bits m) (set_bits-AscendingFrom 52 0 m)

All-lt_of_contains :
    (n : ℕ) (ids : List ℕ) → ((i : ℕ) → contains i ids ≡ true → i < n) → All (λ x. x < n) ids
unfolding contains
All-lt_of_contains n [] h = tt
All-lt_of_contains n (x ∷ xs) h =
    (h x (ground arith), All-lt_of_contains n xs (λ i e. h i (ground arith)))

pub mask_to_ids-lt : (m : ℕ) → All (λ x. x < 52) (mask_to_ids m)
mask_to_ids-lt m =
    All-lt_of_contains 52 (mask_to_ids m) (λ i h. ground (arith, contains-mask_to_ids m i))

or_ids-eq-or_bits :
    (acc : ℕ) (ids : List ℕ)
    → All (λ x. x < 52) ids
    → or_ids acc (map pos ids) ≡ ok (or_bits acc ids)
unfolding or_ids or_bits
or_ids-eq-or_bits acc [] h = refl
or_ids-eq-or_bits acc (id ∷ ids) h = ground (arith, or_ids-eq-or_bits (bit_or acc (2 ^ id)) ids h.1)

or_cards-eq-or_bits :
    (acc : ℕ) (cs : List Card)
    → All (λ c. c.id < 52) cs
    → or_cards acc cs ≡ ok (or_bits acc (map (λ c. c.id) cs))
unfolding or_cards or_bits
or_cards-eq-or_bits acc [] h = refl
or_cards-eq-or_bits acc (c ∷ cs) h =
    ground (arith, or_cards-eq-or_bits (bit_or acc (2 ^ c.id)) cs h.1)

or_cards-All : (acc m : ℕ) (cs : List Card) → or_cards acc cs ≡ ok m → All (λ c. c.id < 52) cs
unfolding or_cards
or_cards-All acc m [] h = tt
or_cards-All acc m (c ∷ cs) h =
    (ground arith, or_cards-All (bit_or acc (2 ^ c.id)) m cs (ground arith))

-- A set of bits below 52 is rebuilt from its members.
or_bits-mask_to_ids : (m : ℕ) → m < 2 ^ 52 → or_bits 0 (mask_to_ids m) ≡ m
or_bits-mask_to_ids m h = test_bit_ext _ m (λ i. ground (
  arith,
  test_bit-or_bits 0 (mask_to_ids m) i,
  contains-mask_to_ids m i,
  test_bit-zero i,
  test_bit_above 52 m i h,
))

-- `ids_to_mask` undoes `mask_to_ids` on every mask of the deck, without an exception.
pub ids_to_mask-mask_to_ids : (m : ℕ) → m < 2 ^ 52 → ids_to_mask (map pos (mask_to_ids m)) ≡ ok m
unfolding ids_to_mask
ids_to_mask-mask_to_ids m h =
    or_ids-eq-or_bits 0 (mask_to_ids m) (mask_to_ids-lt m) ∙ ap ok (or_bits-mask_to_ids m h)

-- `mask_to_ids` undoes `ids_to_mask` on every strictly ascending list of ids below 52, on which
-- `ids_to_mask` does not throw.
mask_to_ids-ids_to_mask :
    (ids : List ℕ)
    → AscendingFrom 0 ids
    → All (λ x. x < 52) ids
    → (m : ℕ) × (ids_to_mask (map pos ids) ≡ ok m) × (mask_to_ids m ≡ ids)
unfolding ids_to_mask
mask_to_ids-ids_to_mask ids a h = (
  or_bits 0 ids,
  or_ids-eq-or_bits 0 ids h,
  AscendingFrom-ext 0 _ ids (mask_to_ids-AscendingFrom _) a (λ i. ground (
    arith,
    contains-mask_to_ids (or_bits 0 ids) i,
    test_bit-or_bits 0 ids i,
    test_bit-zero i,
    contains-lt 52 i ids h,
  )),
)

-- `cards_to_mask` returns a mask exactly when every card has an id below 52; bit i of the mask is
-- then set just when a card with id i is listed.
pub cards_to_mask_lem :
    (cs : List Card) (m : ℕ)
    → (cards_to_mask cs ≡ ok m)
      ↔ (All (λ c. c.id < 52) cs × ((i : ℕ) → test_bit m i ≡ contains i (map (λ c. c.id) cs)))
unfolding cards_to_mask
cards_to_mask_lem cs m = (
  λ h.
      let v : All (λ c. c.id < 52) cs = or_cards-All 0 m cs h in
      (v, λ i. ground (arith, or_cards-eq-or_bits 0 cs v, bits i)),
  λ p. or_cards-eq-or_bits 0 cs p.0 ∙ ap ok (test_bit_ext _ m (λ i. bits i ∙ sym (p.1 i))),
)
  where
    bits : (i : ℕ) → test_bit (or_bits 0 (map (λ c. c.id) cs)) i ≡ contains i (map (λ c. c.id) cs)
    bits i = ground (arith, test_bit-or_bits 0 (map (λ c. c.id) cs) i, test_bit-zero i)

ids_of_from_id : (ids : List ℕ) → All (λ x. x < 52) ids → map (λ c. c.id) (map from_id ids) ≡ ids
unfolding from_id
ids_of_from_id [] h = refl
ids_of_from_id (x ∷ xs) h = ground (arith, ids_of_from_id xs h.1)

valid_from_id :
    (ids : List ℕ) → All (λ x. x < 52) ids → All (λ (c : Card). c.id < 52) (map from_id ids)
unfolding from_id
valid_from_id [] h = tt
valid_from_id (x ∷ xs) h = (ground arith, valid_from_id xs h.1)

-- `cards_to_mask` undoes `mask_to_cards` on every mask of the deck, without an exception.
cards_to_mask-mask_to_cards : (m : ℕ) → m < 2 ^ 52 → cards_to_mask (mask_to_cards m) ≡ ok m
unfolding cards_to_mask mask_to_cards mask_to_ids
cards_to_mask-mask_to_cards m h =
    let ids : List ℕ = mask_to_ids m in
    let lt : All (λ x. x < 52) ids = mask_to_ids-lt m in
    rw (pick_cards-eq-map 52 0 m) (
      or_cards-eq-or_bits 0 _ (valid_from_id ids lt)
      ∙ ap (λ l. ok (or_bits 0 l)) (ids_of_from_id ids lt)
      ∙ ap ok (or_bits-mask_to_ids m h))
