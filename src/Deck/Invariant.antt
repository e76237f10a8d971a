-- ===== src/Deck/Invariant.antt =====
-- What every deck of src/core/deck.cpp holds, whatever operations made it.
use mathlib.Core.List.{reverse}
use mathlib.Core.List.{Permᴰ}
use mathlib.Core.List.Permᴰ.{nil, cons, swap, trans}
use xia_pl.Base.{
  ℕ, zero, suc, ◌+◌, ◌^◌, ◌<◌, ◌≤◌, bit_or, ◌≡◌, ◌↔◌, refl, ap, sym, subst, ◌∙◌, false, ◌==◌, ltb,
  ◌||◌, List, [], ◌∷◌, ◌++◌, map, arith, All, Bool-cases, inl, inr,
}
use xia_pl.Base.Int.{ℤ}
use xia_pl.Base.Errors.{Result, ok, ◌>>◌, seq_ok, ok_inj}
use xia_pl.Base.Bits.{
  test_bit, test_bit-zero, test_bit-bit_or, test_bit-two_pow, bit_and-two_pow_ne_zero,
}
use xia_pl.Base.Sets.{contains, Distinct}
use xia_pl.Card.{Card}
use xia_pl.Mask.{is_valid_card_id}
use xia_pl.Deck.{
  Deck, deal_ids, deal, deal_one, deal_one_id, deal_mask, burn, reset, erase_first, remove_loop,
  remove_cards, check_cards, set_cards, shuffle_by, deck_of_cards, ids_from,
}
use xia_pl.Deck.Dealing.{pop_back-cases, deal_ids_lem, deal_mask-deal_ids}

-- No card twice, and none but the 52.
pub record IsDeck (ids : List ℕ) : Type 0 where
  pub distinct : Distinct ids
  pub small : All (λ id. id < 52) ids

-- The decks that the operations lead to, from the one that the constructor makes. std::shuffle
-- leaves a permutation.
pub data Reached : Deck → Type 1 where
  created : Reached reset
  made : {d : Deck} → (cs : List Card) → deck_of_cards cs ≡ ok d → Reached d
  shuffled :
      {G : Type 0} {d : Deck}
      → Reached d
      → (std_shuffle : G → List ℕ → List ℕ) (rng : G)
      → Permᴰ d.card_ids (std_shuffle rng d.card_ids)
      → Reached (shuffle_by std_shuffle rng d)
  dealt : {d : Deck} → Reached d → (n : ℤ) → Reached (deal d n).1
  dealt_ids : {d : Deck} → Reached d → (n : ℤ) → Reached (deal_ids d n).1
  dealt_mask : {d : Deck} → Reached d → (n : ℤ) → Reached (deal_mask d n).1
  dealt_one : {d : Deck} → Reached d → Reached (deal_one d).1
  dealt_one_id : {d : Deck} → Reached d → Reached (deal_one_id d).1
  burned : {d : Deck} → Reached d → (n : ℤ) → Reached (burn d n)
  removed : {d : Deck} → Reached d → (cs : List Card) → Reached (remove_cards d cs)
  replaced : {d e : Deck} → Reached d → (cs : List Card) → set_cards d cs ≡ ok e → Reached e

contains-append_left :
    (x : ℕ) (xs ys : List ℕ) → contains x (xs ++ ys) ≡ false → contains x xs ≡ false
unfolding contains
contains-append_left x [] ys h = refl
contains-append_left x (y ∷ xs) ys h = ground (arith, contains-append_left x xs ys)

Distinct-append_left : (xs ys : List ℕ) → Distinct (xs ++ ys) → Distinct xs
Distinct-append_left [] ys d = tt
Distinct-append_left (x ∷ xs) ys d =
    (contains-append_left x xs ys d.0, Distinct-append_left xs ys d.1)

All-append_left : (P : ℕ → Type 0) (xs ys : List ℕ) → All P (xs ++ ys) → All P xs
All-append_left P [] ys a = tt
All-append_left P (x ∷ xs) ys a = (a.0, All-append_left P xs ys a.1)

-- What is left of a deck from its start is a deck.
IsDeck-append_left : (ids xs ys : List ℕ) → xs ++ ys ≡ ids → IsDeck ids → IsDeck xs
IsDeck-append_left ids xs ys e v =
    let w : IsDeck (xs ++ ys) = subst IsDeck (sym e) v in
    record {
      distinct = Distinct-append_left xs ys w.distinct;
      small = All-append_left _ xs ys w.small;
    }

IsDeck-deal_ids : (d : Deck) (n : ℤ) → IsDeck d.card_ids → IsDeck (deal_ids d n).1.card_ids
IsDeck-deal_ids d n v =
    IsDeck-append_left d.card_ids (deal_ids d n).1.card_ids (reverse (deal_ids d n).0)
      (deal_ids_lem d n).0 v

contains-erase_first :
    (x id : ℕ) (ids : List ℕ) → contains x ids ≡ false → contains x (erase_first id ids) ≡ false
unfolding contains erase_first
contains-erase_first x id [] h = refl
contains-erase_first x id (y ∷ ids) h = ground (arith, contains-erase_first x id ids)

IsDeck-erase_first : (id : ℕ) (ids : List ℕ) → IsDeck ids → IsDeck (erase_first id ids)
unfolding erase_first
IsDeck-erase_first id [] v = v
IsDeck-erase_first id (x ∷ ids) v =
    let rest : IsDeck ids = record { distinct = v.distinct.1; small = v.small.1 } in
    let ih = IsDeck-erase_first id ids rest in
    elim (Bool-cases (x == id)) [
      | inl e ↦ rw e rest
      | inr e ↦ rw e (record {
        distinct = (contains-erase_first x id ids v.distinct.0, ih.distinct);
        small = (v.small.0, ih.small);
      })
    ]

IsDeck-remove_loop : (cs : List Card) (ids : List ℕ) → IsDeck ids → IsDeck (remove_loop cs ids)
unfolding remove_loop
IsDeck-remove_loop [] ids v = v
IsDeck-remove_loop (c ∷ cs) ids v =
    IsDeck-remove_loop cs (erase_first c.id ids) (IsDeck-erase_first c.id ids v)

contains-Permᴰ : {xs ys : List ℕ} (x : ℕ) → Permᴰ xs ys → contains x xs ≡ contains x ys
unfolding contains
contains-Permᴰ x nil = refl
contains-Permᴰ x (cons e p) = ground (arith, e, contains-Permᴰ x p)
contains-Permᴰ x (swap e f) = ground (arith, e, f)
contains-Permᴰ x (trans p q) = contains-Permᴰ x p ∙ contains-Permᴰ x q

IsDeck-Permᴰ : {xs ys : List ℕ} → Permᴰ xs ys → IsDeck xs → IsDeck ys
unfolding contains
IsDeck-Permᴰ nil v = v
IsDeck-Permᴰ (cons {a} {b} {l₁} {l₂} e p) v =
    let ih = IsDeck-Permᴰ p (record { distinct = v.distinct.1; small = v.small.1 }) in
    record {
      distinct =
          (ap (λ z. contains z l₂) (sym e) ∙ sym (contains-Permᴰ a p) ∙ v.distinct.0, ih.distinct);
      small = (omega (arith, e, v.small.0), ih.small);
    }
IsDeck-Permᴰ (swap {a} {b} {a'} {b'} {l} e f) v =
    let one : contains b l ≡ false = v.distinct.1.0 in
    let two : (a == b || contains a l) ≡ false = v.distinct.0 in
    record {
      distinct = (
        ground (arith, e, f, ap (λ z. contains z l) f),
        (ap (λ z. contains z l) (sym e) ∙ ground arith, v.distinct.1.1),
      );
      small = (omega (arith, f, v.small.1.0), (omega (arith, e, v.small.0), v.small.1.1));
    }
IsDeck-Permᴰ (trans p q) v = IsDeck-Permᴰ q (IsDeck-Permᴰ p v)

absent_iff :
    (seen id : ℕ) (ids : List ℕ)
    → All (λ x. test_bit (bit_or seen (2 ^ id)) x ≡ false) ids
      ↔ (All (λ x. test_bit seen x ≡ false) ids × (contains id ids ≡ false))
unfolding contains
absent_iff seen id [] = (λ a. (tt, refl), λ p. tt)
absent_iff seen id (x ∷ ids) =
    let ih = absent_iff seen id ids in
    let bit = test_bit-bit_or seen (2 ^ id) x in
    let one = test_bit-two_pow id x in
    (
      λ a. ((ground (arith, bit, a.0), (ih.0 a.1).0), ground (arith, bit, one, a.0, (ih.0 a.1).1)),
      λ p. (ground (arith, bit, one, p.0.0, p.1), ih.1 (p.0.1, ground (arith, p.1))),
    )

pub check_cards_iff :
    (seen : ℕ) (cs : List Card)
    → (check_cards seen cs ≡ ok tt)
      ↔ (IsDeck (map (λ c. c.id) cs) × All (λ x. test_bit seen x ≡ false) (map (λ c. c.id) cs))
unfolding check_cards is_valid_card_id
check_cards_iff seen [] = (λ e. (record { distinct = tt; small = tt }, tt), λ p. refl)
check_cards_iff seen (c ∷ cs) =
    let ih = check_cards_iff (bit_or seen (2 ^ c.id)) cs in
    let absent = absent_iff seen c.id (map (λ c. c.id) cs) in
    let bit = bit_and-two_pow_ne_zero seen c.id in
    elim (Bool-cases (ltb c.id 52)) [
      | inr big ↦ rw big (λ e. cc, λ p. absurd (ground (arith, p.0.small.0)))
      | inl fits ↦ elim (Bool-cases (test_bit seen c.id)) [
        | inl again ↦ rw (fits, bit, again) (λ e. cc, λ p. absurd (ground (arith, p.1.0)))
        | inr fresh ↦
            rw (fits, bit, fresh)
              (
                λ e.
                    let p = ih.0 e in
                    let q = absent.0 p.1 in
                    (
                      record { distinct = (q.1, p.0.distinct); small = (ground arith, p.0.small) },
                      (refl, q.0),
                    ),
                λ p. ih.1 (
                  record { distinct = p.0.distinct.1; small = p.0.small.1 },
                  absent.1 (p.1.1, p.0.distinct.0),
                ),
              )
      ]
    ]

pub none_seen : (ids : List ℕ) → All (λ x. test_bit 0 x ≡ false) ids
none_seen [] = tt
none_seen (x ∷ ids) = (test_bit-zero x, none_seen ids)

then_ok :
    {A : Type 0} (r : Result (Unit {0})) (a b : A) → (r >> ok a ≡ ok b) → (r ≡ ok tt) × (a ≡ b)
then_ok r a b e = let p = seq_ok r (ok a) b e in (p.0, ok_inj a b p.1)

IsDeck-set_cards : (d e : Deck) (cs : List Card) → set_cards d cs ≡ ok e → IsDeck e.card_ids
unfolding set_cards
IsDeck-set_cards d e cs h =
    let p = then_ok (check_cards 0 cs) _ e h in
    subst IsDeck (ap (λ x. x.card_ids) p.1) ((check_cards_iff 0 cs).0 p.0).0

IsDeck-pop_back : (ids rest : List ℕ) (id : ℕ) → ids ≡ rest ++ id ∷ [] → IsDeck ids → IsDeck rest
IsDeck-pop_back ids rest id e v = IsDeck-append_left ids rest (id ∷ []) (sym e) v

IsDeck-deal_one :
    (d : Deck)
    → IsDeck d.card_ids
    → IsDeck (deal_one d).1.card_ids × IsDeck (deal_one_id d).1.card_ids
unfolding deal_one deal_one_id
IsDeck-deal_one d v = elim (pop_back-cases d.card_ids) [
  | inl (e, p) ↦ rw (p, deal_one, deal_one_id) (v, v)
  | inr (id, rest, e, p) ↦
      let w = IsDeck-pop_back d.card_ids rest id e v in rw (p, deal_one, deal_one_id) (w, w)
]

contains-ids_from : (left k x : ℕ) → x < k → contains x (ids_from left k) ≡ false
unfolding ids_from contains
contains-ids_from zero k x h = refl
contains-ids_from (suc left) k x h = ground (arith, contains-ids_from left (k + 1) x (omega arith))

IsDeck-ids_from : (left k : ℕ) → k + left ≤ 52 → IsDeck (ids_from left k)
unfolding ids_from
IsDeck-ids_from zero k h = record { distinct = tt; small = tt }
IsDeck-ids_from (suc left) k h =
    let ih = IsDeck-ids_from left (k + 1) (omega arith) in
    record {
      distinct = (contains-ids_from left (k + 1) k (omega arith), ih.distinct);
      small = (omega arith, ih.small);
    }

-- Whatever operations a deck has gone through, shuffles that permute it included, it holds no card
-- twice, and none but the 52.
pub Reached-IsDeck : (d : Deck) → Reached d → IsDeck d.card_ids
unfolding deal deal_ids burn remove_cards reset shuffle_by deck_of_cards
Reached-IsDeck d created = IsDeck-ids_from 52 0 (omega arith)
Reached-IsDeck d (made cs h) = IsDeck-set_cards (record { card_ids = [] }) d cs h
Reached-IsDeck d (shuffled r std_shuffle rng p) = IsDeck-Permᴰ p (Reached-IsDeck _ r)
Reached-IsDeck d (dealt {d = e} r n) = IsDeck-deal_ids e n (Reached-IsDeck e r)
Reached-IsDeck d (dealt_ids {d = e} r n) = IsDeck-deal_ids e n (Reached-IsDeck e r)
Reached-IsDeck d (dealt_mask {d = e} r n) =
    subst (λ x. IsDeck x.card_ids) (sym (deal_mask-deal_ids e n 0).0)
      (IsDeck-deal_ids e n (Reached-IsDeck e r))
Reached-IsDeck d (dealt_one {d = e} r) = (IsDeck-deal_one e (Reached-IsDeck e r)).0
Reached-IsDeck d (dealt_one_id {d = e} r) = (IsDeck-deal_one e (Reached-IsDeck e r)).1
Reached-IsDeck d (burned {d = e} r n) = IsDeck-deal_ids e n (Reached-IsDeck e r)
Reached-IsDeck d (removed {d = e} r cs) = IsDeck-remove_loop cs e.card_ids (Reached-IsDeck e r)
Reached-IsDeck d (replaced {d = c} {e} r cs h) = IsDeck-set_cards c e cs h
