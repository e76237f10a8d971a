-- ===== src/PloPattern/Laws.antt =====
-- What a pattern of src/core/plo_pattern.h matches, and what it expands to.
use xia_pl.Base.{
  ℕ, zero, suc, ◌+◌, ◌/◌, ◌%◌, ◌^◌, ◌≤◌, ◌<◌, ◌≡◌, ◌↔◌, inl, inr, refl, ap, sym, ◌∙◌, Bool, true,
  false, ◌==◌, if◌then◌else◌, List, [], ◌∷◌, length, length-set, get_or, replicate, up_from, All,
  arith, Bool-cases,
}
use xia_pl.Mask.{mask_to_ids}
use xia_pl.Mask.Laws.{mask_to_ids-lt}
use xia_pl.BoardSample.{deck_indices_of}
use xia_pl.BoardSample.Cards.{deck_indices_of-eq-mask_to_ids}
use xia_pl.PloPattern.{
  PloPattern, bump, count_cards, count_required, enough_cards, plo_pattern_matches,
  plo_suit_qualifier_matches,
}

get_or-bump :
    (c : List ℕ) (i j : ℕ)
    → i < length c
    → get_or (bump c i) j 0 ≡ get_or c j 0 + (if i == j then 1 else 0)
get_or-bump [] i j h = absurd (omega arith)
get_or-bump (x ∷ xs) zero zero h = refl
get_or-bump (x ∷ xs) zero (suc j) h = ground arith
get_or-bump (x ∷ xs) (suc i) zero h = ground arith
get_or-bump (x ∷ xs) (suc i) (suc j) h = ground (arith, get_or-bump xs i j)

-- How many slots of the pattern ask for rank r, and how many cards are of rank r or of suit s.
unfoldable pub slots : ℕ → List ℕ → ℕ
slots r [] = 0
slots r (x ∷ xs) = (if x == r then 1 else 0) + slots r xs

unfoldable pub of_rank : ℕ → List ℕ → ℕ
of_rank r [] = 0
of_rank r (id ∷ ids) = (if id % 13 + 2 == r then 1 else 0) + of_rank r ids

unfoldable pub of_suit : ℕ → List ℕ → ℕ
of_suit s [] = 0
of_suit s (id ∷ ids) = (if id / 13 == s then 1 else 0) + of_suit s ids

length-count_cards : (ids sc rc : List ℕ) → length (count_cards ids sc rc).0 ≡ length sc
unfolding count_cards
length-count_cards [] sc rc = refl
length-count_cards (id ∷ ids) sc rc =
    length-count_cards ids (bump sc (id / 13)) (bump rc (id % 13 + 2)) ∙ length-set sc (id / 13) _

count_cards-rank :
    (ids sc rc : List ℕ) (r : ℕ)
    → length rc ≡ 15
    → get_or (count_cards ids sc rc).1 r 0 ≡ get_or rc r 0 + of_rank r ids
unfolding count_cards of_rank
count_cards-rank [] sc rc r h = omega arith
count_cards-rank (id ∷ ids) sc rc r h = ground (
  arith,
  count_cards-rank ids (bump sc (id / 13)) (bump rc (id % 13 + 2)) r
      (length-set rc (id % 13 + 2) _ ∙ h),
  get_or-bump rc (id % 13 + 2) r (omega arith),
)

count_cards-suit :
    (ids sc rc : List ℕ) (s : ℕ)
    → length sc ≡ 4
    → All (λ id. id < 52) ids
    → get_or (count_cards ids sc rc).0 s 0 ≡ get_or sc s 0 + of_suit s ids
unfolding count_cards of_suit
count_cards-suit [] sc rc s h a = omega arith
count_cards-suit (id ∷ ids) sc rc s h a = ground (
  arith,
  count_cards-suit ids (bump sc (id / 13)) (bump rc (id % 13 + 2)) s (length-set sc (id / 13) _ ∙ h)
      a.1,
  get_or-bump sc (id / 13) s (omega (arith, a.0)),
)

count_required-slots :
    (ranks req : List ℕ) (r : ℕ)
    → length req ≡ 15
    → 0 < r
    → All (λ x. x ≤ 14) ranks
    → get_or (count_required ranks req) r 0 ≡ get_or req r 0 + slots r ranks
unfolding count_required slots
count_required-slots [] req r h p a = omega arith
count_required-slots (x ∷ xs) req r h p a = elim (Bool-cases (x == 0)) [
  | inl e ↦ rw (e, count_required) (ground (arith, count_required-slots xs req r h p a.1))
  | inr e ↦
      rw (e, count_required)
        (ground (
          arith,
          count_required-slots xs (bump req x) r (length-set req x _ ∙ h) p a.1,
          get_or-bump req x r (omega (arith, a.0)),
        ))
]

enough_cards_iff :
    (left r : ℕ) (req rc : List ℕ)
    → (enough_cards left r req rc ≡ true)
      ↔ All (λ k. get_or req k 0 ≤ get_or rc k 0) (up_from left r)
unfolding enough_cards up_from
enough_cards_iff zero r req rc = (λ e. tt, λ a. refl)
enough_cards_iff (suc left) r req rc =
    let ih = enough_cards_iff left (r + 1) req rc in
    (λ e. (ground arith, ih.0 (ground arith)), λ a. ground (arith, a.0, ih.1 a.1))

All-change :
    (P Q : ℕ → Type 0) (left r : ℕ)
    → ((k : ℕ) → r ≤ k → P k → Q k)
    → All P (up_from left r)
    → All Q (up_from left r)
unfolding up_from
All-change P Q zero r f a = tt
All-change P Q (suc left) r f a =
    (f r (omega arith) a.0, All-change P Q left (r + 1) (λ k h. f k (omega arith)) a.1)

four_entries :
    (xs : List ℕ)
    → length xs ≡ 4
    → xs ≡ get_or xs 0 0 ∷ get_or xs 1 0 ∷ get_or xs 2 0 ∷ get_or xs 3 0 ∷ []
four_entries (a ∷ b ∷ c ∷ d ∷ []) h = refl
four_entries [] h = absurd (omega arith)
four_entries (a ∷ []) h = absurd (omega arith)
four_entries (a ∷ b ∷ []) h = absurd (omega arith)
four_entries (a ∷ b ∷ c ∷ []) h = absurd (omega arith)
four_entries (a ∷ b ∷ c ∷ d ∷ e ∷ xs) h = absurd (omega arith)

abbrev pub suit_counts : List ℕ → List ℕ
suit_counts ids = of_suit 0 ids ∷ of_suit 1 ids ∷ of_suit 2 ids ∷ of_suit 3 ids ∷ []

get_or-zeros : (n k : ℕ) → ◌≡◌ {A = ℕ} (get_or (replicate n 0) k 0) 0
get_or-zeros zero k = refl
get_or-zeros (suc n) zero = refl
get_or-zeros (suc n) (suc k) = get_or-zeros n k

counted-suits :
    (ids : List ℕ)
    → All (λ id. id < 52) ids
    → (count_cards ids (replicate 4 0) (replicate 15 0)).0 ≡ suit_counts ids
counted-suits ids small =
    let at : (s : ℕ)
        → get_or (count_cards ids (replicate 4 0) (replicate 15 0)).0 s 0 ≡ of_suit s ids =
      λ s. omega (
        arith,
        count_cards-suit ids (replicate 4 0) (replicate 15 0) s refl small,
        get_or-zeros 4 s,
      ) in
    four_entries _ (length-count_cards ids (replicate 4 0) (replicate 15 0))
    ∙ rw (at 0, at 1, at 2, at 3) refl

-- The counts that the code compares are the counts of slots and of cards.
covered_iff :
    (ranks ids : List ℕ)
    → All (λ x. x ≤ 14) ranks
    → (enough_cards 13 2
          (count_required ranks (replicate 15 0))
          (count_cards ids (replicate 4 0) (replicate 15 0)).1
        ≡ true)
      ↔ All (λ r. slots r ranks ≤ of_rank r ids) (up_from 13 2)
covered_iff ranks ids a =
    let required : List ℕ = count_required ranks (replicate 15 0) in
    let held : List ℕ = (count_cards ids (replicate 4 0) (replicate 15 0)).1 in
    let enough = enough_cards_iff 13 2 required held in
    let asked : (k : ℕ) → 2 ≤ k → get_or required k 0 ≡ slots k ranks = λ k h. omega (
      arith,
      count_required-slots ranks (replicate 15 0) k refl (omega arith) a,
      get_or-zeros 15 k,
    ) in
    let found : (k : ℕ) → get_or held k 0 ≡ of_rank k ids = λ k.
      omega
        (arith, count_cards-rank ids (replicate 4 0) (replicate 15 0) k refl, get_or-zeros 15 k) in
    (
      λ e. All-change _ _ 13 2 (λ k h le. omega (arith, asked k h, found k)) (enough.0 e),
      λ all. enough.1 (All-change _ _ 13 2 (λ k h le. omega (arith, asked k h, found k)) all),
    )

both_tests :
    {A : Type 0} {b c : Bool}
    → (b ≡ true) ↔ A
    → ((if b then c else false) ≡ true) ↔ (A × (c ≡ true))
both_tests {b} {c} f = elim (Bool-cases b) [
  | inl e ↦ (
    λ h. (f.0 e, sym (ap (λ x. if x then c else false) e) ∙ h),
    λ p. ap (λ x. if x then c else false) e ∙ p.1,
  )
  | inr e ↦ (λ h. absurd (ground arith), λ p. absurd (ground (arith, f.1 p.0)))
]

-- A pattern of ranks up to 14 matches a mask of the deck exactly when for every rank the hand holds at
-- least as many cards as the pattern has slots, in whatever order the slots stand, and the counts of
-- the suits have the shape.
pub plo_pattern_matches_iff :
    (p : PloPattern) (mask : ℕ)
    → mask < 2 ^ 52
    → All (λ x. x ≤ 14) p.ranks
    → (plo_pattern_matches p mask ≡ true) ↔ (
        All (λ r. slots r p.ranks ≤ of_rank r (mask_to_ids mask)) (up_from 13 2)
        × (plo_suit_qualifier_matches (suit_counts (mask_to_ids mask)) p.suit ≡ true))
unfolding plo_pattern_matches deck_indices_of
plo_pattern_matches_iff p mask lt a =
    let ids : List ℕ = mask_to_ids mask in
    let cover = covered_iff p.ranks ids a in
    rw (deck_indices_of-eq-mask_to_ids mask lt, counted-suits ids (mask_to_ids-lt mask))
      (both_tests cover)
