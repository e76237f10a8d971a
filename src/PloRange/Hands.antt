-- ===== src/PloRange/Hands.antt =====
-- The masks that the items of src/core/range_plo.cpp expand to: hands of four cards.
use xia_pl.Base.{
  ℕ, zero, suc, ◌+◌, ◌-◌, ◌*◌, ◌^◌, ◌≤◌, ◌<◌, bit_and, bit_or, ◌≡◌, sym, ap, subst, ◌∙◌, Bool, true,
  false, ◌!=◌, if◌then◌else◌, List, [], ◌∷◌, length, All, All-append, flat_map, up_from, arith,
  Bool-cases, inl, inr,
}
use xia_pl.Base.Errors.{ok, ◌>>=◌, bind_ok, ok_inj}
use xia_pl.Base.Bits.{
  test_bit, test_bit-bit_or, test_bit-two_pow, bit_and-two_pow_ne_zero, lt_of_test_bit,
  test_bit_above,
}
use xia_pl.Base.Words.{popcount, popcount-bit_or, popcount-two_pow, popcount-zero}
use xia_pl.Evaluator.Lanes.{popcount_wide}
use xia_pl.Mask.{popcount64}
use xia_pl.Card.Text.{try_parse_card-from_string}
use xia_pl.Text.{Text}
use xia_pl.PloPattern.{PloPattern, plo_pattern_matches, push_matches, expand_plo_pattern}
use xia_pl.PloRange.Patterns.{all_cards, looks_like_exact_hand, add_exact_cards, parse_exact_hand}
use xia_pl.PloRange.Progressions.{body_patterns, expand_item}

-- n cards of the deck
unfoldable pub Cards : ℕ → ℕ → Type 0
Cards n m = (m < 2 ^ 52) × (popcount 52 m ≡ n)

no-Cards : Cards 0 0
unfolding Cards
no-Cards = (omega arith, popcount-zero 52)

one_card : (c : ℕ) → c < 52 → Cards 1 (2 ^ c)
unfolding Cards
one_card c h = (
  lt_of_test_bit 52 (2 ^ c) (λ i l. ground (arith, test_bit-two_pow c i)),
  popcount-two_pow 52 c h,
)

add_card :
    (n m c : ℕ) → Cards n m → c < 52 → test_bit m c ≡ false → Cards (n + 1) (bit_or m (2 ^ c))
unfolding Cards
add_card n m c k h fresh =
    let apart : bit_and m (2 ^ c) ≡ 0 = ground (arith, bit_and-two_pow_ne_zero m c) in
    let none_shared : popcount 52 (bit_and m (2 ^ c)) ≡ 0 =
      ap (popcount 52) apart ∙ popcount-zero 52 in
    (
      lt_of_test_bit 52 _ (λ i l.
          ground (
            arith,
            test_bit-bit_or m (2 ^ c) i,
            test_bit_above 52 m i k.0 l,
            test_bit-two_pow c i,
          )),
      omega (arith, popcount-bit_or 52 m (2 ^ c), none_shared, popcount-two_pow 52 c h, k.1),
    )

pub popcount64-Cards : (n m : ℕ) → Cards n m → popcount64 m ≡ n
unfolding Cards popcount64
popcount64-Cards n m k = popcount_wide 64 52 m (omega arith) k.0 ∙ k.1

All-flat_map :
    (P : ℕ → Type 0) (f : ℕ → List ℕ) (n lo : ℕ)
    → ((c : ℕ) → lo ≤ c → c < lo + n → All P (f c))
    → All P (flat_map f (up_from n lo))
unfolding up_from
All-flat_map P f zero lo h = tt
All-flat_map P f (suc n) lo h =
    All-append P (f lo) _ (h lo (omega arith) (omega arith))
      (All-flat_map P f n (lo + 1) (λ c a b. h c (omega arith) (omega arith)))

push_matches-Cards :
    (test : ℕ → Bool) (m1 n lo : ℕ)
    → ((c : ℕ) → c < lo + n → Cards 4 (bit_or m1 (2 ^ c)))
    → All (Cards 4) (push_matches test m1 (up_from n lo))
unfolding push_matches up_from
push_matches-Cards test m1 zero lo h = tt
push_matches-Cards test m1 (suc n) lo h =
    let rest = push_matches-Cards test m1 n (lo + 1) (λ c l. h c (omega arith)) in
    elim (Bool-cases (test (bit_or m1 (2 ^ lo)))) [
      | inl e ↦ rw (push_matches, e) (h lo (omega arith), rest)
      | inr e ↦ rw (push_matches, e) rest
    ]

four_apart :
    (a b c d : ℕ)
    → a < b
    → b < c
    → c < d
    → d < 52
    → Cards 4 (bit_or (bit_or (bit_or (2 ^ d) (2 ^ c)) (2 ^ b)) (2 ^ a))
four_apart a b c d ab bc cd h =
    let free = λ (k i : ℕ) (l : i < k).
      let e : test_bit (2 ^ k) i ≡ false = ground (arith, test_bit-two_pow k i) in e in
    let two = add_card 1 (2 ^ d) c (one_card d h) (omega arith) (free d c cd) in
    let three =
      add_card 2 _ b two (omega arith)
        (ground (arith, test_bit-bit_or (2 ^ d) (2 ^ c) b, free d b (omega arith), free c b bc)) in
    add_card 3 _ a three (omega arith) (
      ground (
        arith,
        test_bit-bit_or (bit_or (2 ^ d) (2 ^ c)) (2 ^ b) a,
        test_bit-bit_or (2 ^ d) (2 ^ c) a,
        free d a (omega arith),
        free c a (omega arith),
        free b a ab,
      ))

expand_plo_pattern-Cards : (p : PloPattern) → All (Cards 4) (expand_plo_pattern p)
unfolding expand_plo_pattern
expand_plo_pattern-Cards p = All-flat_map (Cards 4) _ 49 3 (λ d dl dh.
    All-flat_map (Cards 4) _ (d - 2) 2 (λ c cl ch. All-flat_map (Cards 4) _ (c - 1) 1 (λ b bl bh.
      push_matches-Cards (plo_pattern_matches p) _ b 0
        (λ a h. four_apart a b c d (omega arith) (ground arith) (ground arith) (omega arith)))))

patterns-Cards : (ps : List PloPattern) → All (Cards 4) (flat_map expand_plo_pattern ps)
patterns-Cards [] = tt
patterns-Cards (p ∷ ps) =
    All-append (Cards 4) (expand_plo_pattern p) _ (expand_plo_pattern-Cards p) (patterns-Cards ps)

exact-Cards :
    (item cs : Text) (n k mask m : ℕ)
    → length cs ≡ 2 * k
    → all_cards cs ≡ ok true
    → Cards n mask
    → add_exact_cards item cs mask ≡ ok m
    → Cards (n + k) m
unfolding all_cards add_exact_cards
exact-Cards item [] n k mask m l a h e =
    let zero_left : n ≡ n + k = omega arith in
    subst (λ x. Cards x m) zero_left (subst (Cards n) (ok_inj mask m e) h)
exact-Cards item (x ∷ []) n k mask m l a h e = absurd (omega arith)
exact-Cards item (x ∷ y ∷ cs) n zero mask m l a h e = absurd (omega arith)
exact-Cards item (x ∷ y ∷ cs) n (suc k) mask m l a h e =
    elim (try_parse_card-from_string (x ∷ y ∷ [])) [
      | inr (_, _, f) ↦ absurd (cc (rw f at a))
      | inl (c, _, f, card) ↦ elim (Bool-cases (bit_and mask (2 ^ c.id) != 0)) [
        | inl dup ↦ absurd (cc (rw (f, dup) at e))
        | inr new ↦
            let fresh : test_bit mask c.id ≡ false =
              sym (bit_and-two_pow_ne_zero mask c.id) ∙ new in
            let step : (n + 1) + k ≡ n + suc k = omega arith in
            subst (λ z. Cards z m) step
              (exact-Cards item cs (n + 1) k (bit_or mask (2 ^ c.id)) m (omega arith) (rw f at a)
                (add_card n mask c.id h card fresh) (rw (f, new) at e))
      ]
    ]

parse_exact_hand-Cards :
    (item body : Text) (m : ℕ)
    → looks_like_exact_hand body ≡ ok true
    → parse_exact_hand item body ≡ ok m
    → Cards 4 m
unfolding looks_like_exact_hand parse_exact_hand
parse_exact_hand-Cards item body m a e = elim (Bool-cases (length body != 8)) [
  | inl bad ↦ absurd (cc (rw bad at a))
  | inr good ↦ exact-Cards item body 0 4 0 m (ground arith) (rw good at a) no-Cards e
]

branches-Cards :
    (item body : Text) (exact : Bool) (ms : List ℕ)
    → looks_like_exact_hand body ≡ ok exact
    → (if exact
        then (parse_exact_hand item body >>= λ mask. ok (mask ∷ []))
        else (body_patterns item body >>= λ patterns. ok (flat_map expand_plo_pattern patterns)))
      ≡ ok ms
    → All (Cards 4) ms
branches-Cards item body true ms a e =
    let (m, f, g) = bind_ok (parse_exact_hand item body) _ ms e in
    subst (All (Cards 4)) (ok_inj (m ∷ []) ms g) (parse_exact_hand-Cards item body m a f, tt)
branches-Cards item body false ms a e =
    let (ps, f, g) = bind_ok (body_patterns item body) _ ms e in
    subst (All (Cards 4)) (ok_inj (flat_map expand_plo_pattern ps) ms g) (patterns-Cards ps)

pub expand_item-Cards :
    (item body : Text) (ms : List ℕ) → expand_item item body ≡ ok ms → All (Cards 4) ms
unfolding expand_item
expand_item-Cards item body ms e =
    let (exact, a, e1) = bind_ok (looks_like_exact_hand body) _ ms e in
    branches-Cards item body exact ms a e1
