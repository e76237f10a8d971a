-- ===== src/BoardSample/Reads.antt =====
-- The reads of enumerate_boards in src/core/board_sample.h stay inside the deck.
use xia_pl.Base.{
  ℕ, zero, suc, ◌+◌, ◌-◌, ◌^◌, ◌≤◌, ◌<◌, bit_or, ◌≡◌, refl, ap, ◌==◌, ltb, if◌then◌else◌, Option,
  some, List, [], ◌∷◌, length, get_or, get_elem?, set, length-set, up_from, arith, Bool-cases, inl,
  inr, subst,
}
use xia_pl.Mask.{restart, advance, next_combination}
use xia_pl.BoardSample.{add_cards}

get_or-set :
    (xs : List ℕ) (i j v : ℕ)
    → i < length xs
    → get_or (set xs i v) j 0 ≡ (if i == j then v else get_or xs j 0)
get_or-set [] i j v h = absurd (omega arith)
get_or-set (x ∷ xs) zero zero v h = refl
get_or-set (x ∷ xs) zero (suc j) v h = ground arith
get_or-set (x ∷ xs) (suc i) zero v h = ground arith
get_or-set (x ∷ xs) (suc i) (suc j) v h = ground (arith, get_or-set xs i j v (omega arith))

-- k indices below n that leave room for those after them
pub record Fits (k n : ℕ) (comb : List ℕ) : Type 0 where
  pub size : length comb ≡ k
  pub room : (j : ℕ) → j < k → get_or comb j 0 + k ≤ n + j

Fits-set :
    (k n i v : ℕ) (comb : List ℕ) → i < k → v + k ≤ n + i → Fits k n comb → Fits k n (set comb i v)
Fits-set k n i v comb lt le f = record {
  size = omega (arith, length-set comb i v, f.size);
  room = λ j h. ground (arith, get_or-set comb i j v (omega (arith, f.size)), f.room j h);
}

Fits-restart :
    (left j k n : ℕ) (comb : List ℕ)
    → 0 < j
    → left + j ≤ k
    → Fits k n comb
    → Fits k n (restart left j comb)
unfolding restart
Fits-restart zero j k n comb pos le f = f
Fits-restart (suc left) j k n comb pos le f =
    Fits-restart left (j + 1) k n _ (omega arith) (omega arith) (
      Fits-set k n j (get_or comb (j - 1) 0 + 1) comb (omega arith)
        (omega (arith, f.room (j - 1) (omega arith))) f)

Fits-advance :
    (i k n : ℕ) (comb next : List ℕ)
    → i ≤ k
    → Fits k n comb
    → advance i comb n ≡ some next
    → Fits k n next
unfolding advance
Fits-advance zero k n comb next le f e = cc
Fits-advance (suc i) k n comb next le f e =
    elim (Bool-cases (ltb (get_or comb i 0 + length comb) (n + i))) [
      | inr full ↦ Fits-advance i k n comb next (omega arith) f (rw full at e)
      | inl more ↦
          let moved =
            Fits-set k n i (get_or comb i 0 + 1) comb (omega arith) (ground (arith, f.size)) f in
          subst (Fits k n) (some_inj _ next (rw more at e)) (
            Fits-restart (length comb - (i + 1)) (i + 1) k n _ (omega arith) (omega (arith, f.size))
              moved)
    ]
  where
    some_inj : (a b : List ℕ) → ◌≡◌ {A = Option (List ℕ)} (some a) (some b) → a ≡ b
    some_inj a b h = cc

-- The combinations that the do-while loop comes to.
pub data Visited (k n : ℕ) : List ℕ → Type 0 where
  first : Visited k n (up_from k 0)
  following :
      {comb next : List ℕ}
      → Visited k n comb
      → next_combination comb n ≡ some next
      → Visited k n next

length-up_from : (k i : ℕ) → length (up_from k i) ≡ k
unfolding up_from
length-up_from zero i = refl
length-up_from (suc k) i = ap suc (length-up_from k (i + 1))

get_or-up_from : (k i j : ℕ) → j < k → get_or (up_from k i) j 0 ≡ i + j
unfolding up_from
get_or-up_from zero i j h = absurd (omega arith)
get_or-up_from (suc k) i zero h = omega arith
get_or-up_from (suc k) i (suc j) h = omega (arith, get_or-up_from k (i + 1) j (omega arith))

Visited-Fits : (k n : ℕ) (comb : List ℕ) → k ≤ n → Visited k n comb → Fits k n comb
unfolding next_combination
Visited-Fits k n comb le first = record {
  size = length-up_from k 0;
  room = λ j h. omega (arith, get_or-up_from k 0 j h);
}
Visited-Fits k n comb le (following {comb = c} v e) =
    let f = Visited-Fits k n c le v in
    Fits-advance (length c) k n c comb (omega (arith, f.size)) f e

get_elem?_below : (xs : List ℕ) (i : ℕ) → i < length xs → (x : ℕ) × (get_elem? xs i ≡ some x)
get_elem?_below [] i h = absurd (omega arith)
get_elem?_below (x ∷ xs) zero h = (x, refl)
get_elem?_below (x ∷ xs) (suc i) h = get_elem?_below xs i (omega arith)

add_cards_below :
    (deck comb : List ℕ) (board : ℕ)
    → ((j : ℕ) → j < length comb → get_or comb j 0 < length deck)
    → (all : ℕ) × (add_cards board deck comb ≡ some all)
unfolding add_cards
add_cards_below deck [] board h = (board, refl)
add_cards_below deck (i ∷ comb) board h =
    let (x, e) = get_elem?_below deck i (h 0 (omega arith)) in
    let (all, p) =
      add_cards_below deck comb (bit_or board (2 ^ x)) (λ j l. h (suc j) (omega (arith, l))) in
    (all, rw (add_cards, e) p)

-- Where the deck has as many cards as are drawn, each combination that the enumeration comes to gives a
-- board: no read is past the end.
pub Visited-add_cards :
    (deck comb : List ℕ) (num_to_draw fixed : ℕ)
    → num_to_draw ≤ length deck
    → Visited num_to_draw (length deck) comb
    → (board : ℕ) × (add_cards fixed deck comb ≡ some board)
Visited-add_cards deck comb num_to_draw fixed le v =
    let f = Visited-Fits num_to_draw (length deck) comb le v in
    add_cards_below deck comb fixed
      (λ j l. omega (arith, f.size, f.room j (omega (arith, f.size, l))))
