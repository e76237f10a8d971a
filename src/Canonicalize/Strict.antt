-- ===== src/Canonicalize/Strict.antt =====
-- canonicalize_hero_and_board_strict and canonicalize_board of src/core/canonicalize.cpp as canonical
-- forms under relabelling of the suits.
use mathlib.Core.List.{Perm, reverse, reverse-cons, reverse_perm, map-append, map-map}
use mathlib.Core.List.Perm
use mathlib.Core.Path.{fun_ext}
use xia_pl.Base.{
  ℕ, ◌+◌, ◌*◌, ◌/◌, ◌%◌, ◌^◌, ◌≤◌, ◌<◌, bit_or, ◌≡◌, ◌↔◌, refl, ap, ap₂, sym, subst, ◌∙◌, Bool, ltb,
  List, [], ◌∷◌, ◌++◌, map, length, arith, All,
}
use xia_pl.Base.Bits.{test_bit_ext, test_bit-bit_or, test_bit-zero, bit_or-eq-add}
use xia_pl.Canonicalize.{
  pattern_of, insert_each, sort_suits, relabel, suit_key, canonicalize_hero_and_board_strict,
  canonicalize_board,
}
use xia_pl.Canonicalize.Order.{
  map-insert_each, insert_each-perm, insert_each_of_perm, map-insert_each_mono,
}
use xia_pl.Canonicalize.Form.{pattern_of-lt, emit, relabel-emit, sort_suits_cases}

bit_or_comm : (a b : ℕ) → bit_or a b ≡ bit_or b a
bit_or_comm a b =
    test_bit_ext _ _ (λ i. ground (arith, test_bit-bit_or a b i, test_bit-bit_or b a i))

bit_or_zero : (a : ℕ) → bit_or a 0 ≡ a
bit_or_zero a = test_bit_ext _ _ (λ i. ground (arith, test_bit-bit_or a 0 i, test_bit-zero i))

suit_key-eq : (h b s : ℕ) → suit_key h b s ≡ pattern_of h s + pattern_of b s * 2 ^ 13
unfolding suit_key
suit_key-eq h b s =
    let small : pattern_of b s * 2 ^ 13 % 2 ^ 32 ≡ pattern_of b s * 2 ^ 13 =
      omega (arith, pattern_of-lt b s) in
    rw small (
      bit_or_comm (pattern_of b s * 2 ^ 13) (pattern_of h s)
      ∙ bit_or-eq-add 13 (pattern_of h s) (pattern_of b s) (pattern_of-lt h s))

emit_four :
    (p0 p1 p2 p3 : ℕ)
    → p0 < 2 ^ 13
    → p1 < 2 ^ 13
    → p2 < 2 ^ 13
    → emit 0 (p0 ∷ p1 ∷ p2 ∷ p3 ∷ []) ≡ p0 + p1 * 2 ^ 13 + p2 * 2 ^ 26 + p3 * 2 ^ 39
unfolding emit
emit_four p0 p1 p2 p3 h0 h1 h2 =
    let a : bit_or (p2 * 2 ^ 26) (p3 * 2 ^ 39) ≡ (p2 + p3 * 2 ^ 13) * 2 ^ 26 =
      omega (arith, bit_or-eq-add 39 (p2 * 2 ^ 26) p3 (omega arith)) in
    let b : bit_or (p1 * 2 ^ 13) ((p2 + p3 * 2 ^ 13) * 2 ^ 26)
        ≡ (p1 + p2 * 2 ^ 13 + p3 * 2 ^ 26) * 2 ^ 13 =
      omega (arith, bit_or-eq-add 26 (p1 * 2 ^ 13) (p2 + p3 * 2 ^ 13) (omega arith)) in
    let e : p0 * 1 ≡ p0 = omega arith in
    rw (bit_or_zero (p3 * 2 ^ 39), a, b, e)
      (omega (arith, bit_or-eq-add 13 p0 (p1 + p2 * 2 ^ 13 + p3 * 2 ^ 26) h0))

-- Four patterns are read off the mask that they are written to.
emit_inj :
    (xs ys : List ℕ)
    → length xs ≡ 4
    → length ys ≡ 4
    → All (λ p. p < 2 ^ 13) xs
    → All (λ p. p < 2 ^ 13) ys
    → emit 0 xs ≡ emit 0 ys
    → xs ≡ ys
emit_inj (x0 ∷ x1 ∷ x2 ∷ x3 ∷ []) (y0 ∷ y1 ∷ y2 ∷ y3 ∷ []) m n a b e =
    let p = emit_four x0 x1 x2 x3 a.0 a.1.0 a.1.1.0 in
    let q = emit_four y0 y1 y2 y3 b.0 b.1.0 b.1.1.0 in
    let e0 : x0 ≡ y0 = omega (arith, e, p, q) in
    let e1 : x1 ≡ y1 = omega (arith, e, p, q) in
    let e2 : x2 ≡ y2 = omega (arith, e, p, q) in let e3 : x3 ≡ y3 = omega (arith, e, p, q) in cc
emit_inj [] ys m n a b e = absurd (omega arith)
emit_inj (x0 ∷ []) ys m n a b e = absurd (omega arith)
emit_inj (x0 ∷ x1 ∷ []) ys m n a b e = absurd (omega arith)
emit_inj (x0 ∷ x1 ∷ x2 ∷ []) ys m n a b e = absurd (omega arith)
emit_inj (x0 ∷ x1 ∷ x2 ∷ x3 ∷ x4 ∷ xs) ys m n a b e = absurd (omega arith)
emit_inj (x0 ∷ x1 ∷ x2 ∷ x3 ∷ []) [] m n a b e = absurd (omega arith)
emit_inj (x0 ∷ x1 ∷ x2 ∷ x3 ∷ []) (y0 ∷ []) m n a b e = absurd (omega arith)
emit_inj (x0 ∷ x1 ∷ x2 ∷ x3 ∷ []) (y0 ∷ y1 ∷ []) m n a b e = absurd (omega arith)
emit_inj (x0 ∷ x1 ∷ x2 ∷ x3 ∷ []) (y0 ∷ y1 ∷ y2 ∷ []) m n a b e = absurd (omega arith)
emit_inj (x0 ∷ x1 ∷ x2 ∷ x3 ∷ []) (y0 ∷ y1 ∷ y2 ∷ y3 ∷ y4 ∷ ys) m n a b e = absurd (omega arith)

-- What each suit holds of the board and of the hand.
abbrev pub holding : ℕ → ℕ → ℕ → ℕ × ℕ
holding hero_mask board_mask s = (pattern_of board_mask s, pattern_of hero_mask s)

abbrev pub holdings : ℕ → ℕ → List (ℕ × ℕ)
holdings hero_mask board_mask = map (holding hero_mask board_mask) (0 ∷ 1 ∷ 2 ∷ 3 ∷ [])

-- The suits of one situation, relabelled, are those of the other.
abbrev pub SameUpToSuits : ℕ → ℕ → ℕ → ℕ → Type 0
SameUpToSuits h b h' b' = Perm (holdings h b) (holdings h' b')

map-reverse {ℓ κ} :
    {A : Type ℓ} {B : Type κ} (f : A → B) (xs : List A) → map f (reverse xs) ≡ reverse (map f xs)
map-reverse f [] = refl
map-reverse f (x ∷ xs) =
    ap (map f) (reverse-cons x xs)
    ∙ map-append f (reverse xs) (x ∷ [])
    ∙ ap (λ l. l ++ f x ∷ []) (map-reverse f xs)
    ∙ sym (reverse-cons (f x) (map f xs))

sort_suits-perm : (shifts : ℕ → ℕ → Bool) → Perm (sort_suits shifts) (0 ∷ 1 ∷ 2 ∷ 3 ∷ [])
unfolding sort_suits
sort_suits-perm shifts =
    Perm.trans (reverse_perm _) (insert_each-perm shifts (0 ∷ 1 ∷ 2 ∷ 3 ∷ []) [])

length-sort_suits : (f : ℕ → ℕ) (shifts : ℕ → ℕ → Bool) → length (map f (sort_suits shifts)) ≡ 4
length-sort_suits f shifts = sort_suits_cases (λ l. length (map f l) ≡ 4) shifts (ground arith)

All-patterns : (mask : ℕ) (l : List ℕ) → All (λ p. p < 2 ^ 13) (map (pattern_of mask) l)
All-patterns mask [] = tt
All-patterns mask (s ∷ l) = (pattern_of-lt mask s, All-patterns mask l)

-- the order of the suits in the strict form
abbrev strict_shifts : ℕ → ℕ → ℕ → ℕ → Bool
strict_shifts h b a c = ltb (suit_key h b a) (suit_key h b c)

abbrev strict_order : ℕ → ℕ → List ℕ
strict_order h b = sort_suits (strict_shifts h b)

relabel_inj :
    (m n : ℕ) (r r' : ℕ → ℕ → Bool)
    → relabel m (sort_suits r) ≡ relabel n (sort_suits r')
    → map (pattern_of m) (sort_suits r) ≡ map (pattern_of n) (sort_suits r')
relabel_inj m n r r' e =
    emit_inj (map (pattern_of m) (sort_suits r)) (map (pattern_of n) (sort_suits r'))
      (length-sort_suits (pattern_of m) r) (length-sort_suits (pattern_of n) r')
      (All-patterns m (sort_suits r)) (All-patterns n (sort_suits r'))
      (sym (relabel-emit m r) ∙ e ∙ relabel-emit n r')

abbrev sorted_keys : List ℕ → List ℕ
sorted_keys ks = reverse (insert_each ltb ks [])

map-sort_suits :
    (key : ℕ → ℕ)
    → map key (sort_suits (λ a c. ltb (key a) (key c))) ≡ sorted_keys (map key (0 ∷ 1 ∷ 2 ∷ 3 ∷ []))
unfolding sort_suits
map-sort_suits key =
    map-reverse key (insert_each (λ a c. ltb (key a) (key c)) (0 ∷ 1 ∷ 2 ∷ 3 ∷ []) [])
    ∙ ap reverse (map-insert_each key ltb (0 ∷ 1 ∷ 2 ∷ 3 ∷ []) [])

abbrev keys : ℕ → ℕ → List ℕ
keys h b = map (suit_key h b) (0 ∷ 1 ∷ 2 ∷ 3 ∷ [])

abbrev high_part : ℕ → ℕ
high_part k = k / 2 ^ 13

abbrev low_part : ℕ → ℕ
low_part k = k % 2 ^ 13

high-suit_key : (h b s : ℕ) → pattern_of b s ≡ high_part (suit_key h b s)
high-suit_key h b s = omega (arith, suit_key-eq h b s, pattern_of-lt h s)

low-suit_key : (h b s : ℕ) → pattern_of h s ≡ low_part (suit_key h b s)
low-suit_key h b s = omega (arith, suit_key-eq h b s, pattern_of-lt h s)

map_parts :
    (f g key : ℕ → ℕ) (l : List ℕ) → ((s : ℕ) → f s ≡ g (key s)) → map f l ≡ map g (map key l)
map_parts f g key l e = ap (λ f. map f l) (fun_ext e) ∙ sym (map-map g key l)

-- The strict form is written from the keys in descending order.
strict-emit :
    (h b : ℕ)
    → canonicalize_hero_and_board_strict h b ≡ record {
      hero_mask = emit 0 (map low_part (sorted_keys (keys h b)));
      board_mask = emit 0 (map high_part (sorted_keys (keys h b)));
    }
unfolding canonicalize_hero_and_board_strict
strict-emit h b =
    let ord = strict_order h b in
    let sorted : map (suit_key h b) ord ≡ sorted_keys (keys h b) = map-sort_suits (suit_key h b) in
    let hero : relabel h ord ≡ emit 0 (map low_part (sorted_keys (keys h b))) =
      relabel-emit h (strict_shifts h b)
      ∙ ap (emit 0) (map_parts (pattern_of h) low_part (suit_key h b) ord (low-suit_key h b))
      ∙ ap (λ l. emit 0 (map low_part l)) sorted in
    let board : relabel b ord ≡ emit 0 (map high_part (sorted_keys (keys h b))) =
      relabel-emit b (strict_shifts h b)
      ∙ ap (emit 0) (map_parts (pattern_of b) high_part (suit_key h b) ord (high-suit_key h b))
      ∙ ap (λ l. emit 0 (map high_part l)) sorted in
    ap₂ (λ m n. record { hero_mask = m; board_mask = n }) hero board

keys-perm : (h b h' b' : ℕ) → SameUpToSuits h b h' b' → Perm (keys h b) (keys h' b')
keys-perm h b h' b' p =
    let value = λ (q : ℕ × ℕ). q.1 + q.0 * 2 ^ 13 in
    let of = λ (x y : ℕ). ap (λ f. map f (0 ∷ 1 ∷ 2 ∷ 3 ∷ [])) (fun_ext (suit_key-eq x y)) in
    subst (λ l. Perm l (keys h' b')) (sym (of h b))
      (subst (Perm (map value (holdings h b))) (sym (of h' b')) (Perm.map value p))

map_pairs :
    (f g f' g' : ℕ → ℕ) (xs ys : List ℕ)
    → map f xs ≡ map f' ys
    → map g xs ≡ map g' ys
    → map {B = ℕ × ℕ} (λ s. (f s, g s)) xs ≡ map {B = ℕ × ℕ} (λ s. (f' s, g' s)) ys
map_pairs f g f' g' [] [] p q = refl
map_pairs f g f' g' [] (y ∷ ys) p q = cc
map_pairs f g f' g' (x ∷ xs) [] p q = cc
map_pairs f g f' g' (x ∷ xs) (y ∷ ys) p q =
    let rest = map_pairs f g f' g' xs ys (cc) (cc) in
    let a : f x ≡ f' y = cc in
    let b : g x ≡ g' y = cc in
    let pair : ℕ → ℕ → ℕ × ℕ = λ m n. (m, n) in ap₂ ◌∷◌ (ap₂ pair a b) rest

-- The strict form is canonical: two situations have the same one exactly when some relabelling of
-- the suits takes the one to the other.
pub strict_iff :
    (h b h' b' : ℕ)
    → (canonicalize_hero_and_board_strict h b ≡ canonicalize_hero_and_board_strict h' b')
      ↔ SameUpToSuits h b h' b'
unfolding canonicalize_hero_and_board_strict
strict_iff h b h' b' = (
  λ e.
      let ord = strict_order h b in
      let ord' = strict_order h' b' in
      let same = λ (m n : ℕ). relabel_inj m n (strict_shifts h b) (strict_shifts h' b') in
      let pairs : map (holding h b) ord ≡ map (holding h' b') ord' =
        map_pairs (pattern_of b) (pattern_of h) (pattern_of b') (pattern_of h') ord ord'
          (same b b' (ap (λ r. r.board_mask) e)) (same h h' (ap (λ r. r.hero_mask) e)) in
      Perm.trans (Perm.symm (Perm.map (holding h b) (sort_suits-perm (strict_shifts h b)))) (
        subst (λ l. Perm l (holdings h' b')) (sym pairs)
          (Perm.map (holding h' b') (sort_suits-perm (strict_shifts h' b')))),
  λ p.
      let e : sorted_keys (keys h b) ≡ sorted_keys (keys h' b') =
        ap reverse (insert_each_of_perm (keys-perm h b h' b' p)) in
      strict-emit h b
      ∙ ap
          (λ l. record {
            hero_mask = emit 0 (map low_part l);
            board_mask = emit 0 (map high_part l);
          })
          e
      ∙ sym (strict-emit h' b'),
)

-- The board of the strict form is the canonical board, whatever the hand.
pub strict-board :
    (h b : ℕ) → (canonicalize_hero_and_board_strict h b).board_mask ≡ canonicalize_board b
unfolding canonicalize_board
strict-board h b =
    let mono = λ (m n : ℕ) (le : m ≤ n). let r : m / 2 ^ 13 ≤ n / 2 ^ 13 = omega arith in r in
    ap (λ r. r.board_mask) (strict-emit h b)
    ∙ ap (emit 0) (
        map-reverse high_part (insert_each ltb (keys h b) [])
        ∙ ap reverse (
            map-insert_each_mono high_part mono (keys h b) [] tt
            ∙ ap (λ l. insert_each ltb l [])
                (sym (
                  map_parts (pattern_of b) high_part (suit_key h b) (0 ∷ 1 ∷ 2 ∷ 3 ∷ [])
                    (high-suit_key h b))))
        ∙ sym (map-sort_suits (pattern_of b)))
    ∙ sym (relabel-emit b (λ a c. ltb (pattern_of b a) (pattern_of b c)))
