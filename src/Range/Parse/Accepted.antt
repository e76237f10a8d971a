-- ===== src/Range/Parse/Accepted.antt =====
-- The ranges that Range::from_string of src/core/range.cpp returns.
use xia_pl.Base.{
  ℕ, ◌≡◌, refl, sym, subst, ◌∙◌, false, ◌==◌, ◌!=◌, ◌||◌, List, [], ◌∷◌, ◌++◌, arith, All,
}
use xia_pl.Base.Errors.{Result, ok, bind_ok, seq_ok, throw_if_ok, ok_inj}
use xia_pl.Base.Sets.{contains, Distinct}
use xia_pl.Mask.{popcount64}
use xia_pl.Judge.{GameType, holdem, cards_per_hand}
use xia_pl.Text.{Text}
use xia_pl.Weights.{Weights}
use xia_pl.Range.{Combo, Range, validate_combo_masks, make_range}
use xia_pl.Range.SetOps.Total.{masks, IsRange}
use xia_pl.Range.Parse.{
  add_masks, parse_tokens, parse_holdem_range, parse_weighted_token, expand_holdem_token,
  split_tokens, range_from_string,
}

module _ {ℓ} {W : Type ℓ} where
  -- The set of the hands seen is that of the combos, and none is there twice.
  record Seen (seen : List ℕ) (combos : List (Combo W)) : Type 0 where
    distinct : Distinct (masks combos)
    same : (m : ℕ) → contains m seen ≡ contains m (masks combos)

  contains-append_one :
      (m : ℕ) (cs : List (Combo W)) (c : Combo W)
      → contains m (masks (cs ++ c ∷ [])) ≡ (m == c.mask || contains m (masks cs))
  unfolding contains
  contains-append_one m [] c = refl
  contains-append_one m (d ∷ cs) c = ground (arith, contains-append_one m cs c)

  Distinct-append_one :
      (cs : List (Combo W)) (c : Combo W)
      → Distinct (masks cs)
      → contains c.mask (masks cs) ≡ false
      → Distinct (masks (cs ++ c ∷ []))
  unfolding contains
  Distinct-append_one [] c d f = (refl, tt)
  Distinct-append_one (x ∷ cs) c d f = (
    ground (arith, contains-append_one x.mask cs c, d.0),
    Distinct-append_one cs c d.1 (ground arith),
  )

  sized_of_validate :
      (cs : List (Combo W)) (g : GameType)
      → validate_combo_masks cs g ≡ ok tt
      → All (λ m. popcount64 m ≡ cards_per_hand g) (masks cs)
  unfolding validate_combo_masks
  sized_of_validate [] g e = tt
  sized_of_validate (c ∷ cs) g e =
      let p = seq_ok _ (validate_combo_masks cs g) tt e in
      let fits : (popcount64 c.mask != cards_per_hand g) ≡ false = throw_if_ok _ _ p.0 in
      (ground arith, sized_of_validate cs g p.1)

module _ {ℓ} {W : Type ℓ} ⦃w : Weights W⦄ where
  add_masks-Seen :
      (ms : List ℕ) (weight : W) (seen : List ℕ) (combos : List (Combo W))
      (r : List ℕ × List (Combo W))
      → Seen seen combos
      → add_masks ms weight seen combos ≡ ok r
      → Seen r.0 r.1
  unfolding add_masks contains
  add_masks-Seen [] weight seen combos r v e =
      let p = ok_inj (seen, combos) r e in subst (λ q. Seen q.0 q.1) p v
  add_masks-Seen (m ∷ ms) weight seen combos r v e =
      let p =
        seq_ok _
          (add_masks ms weight (m ∷ seen) (combos ++ (record { mask = m; weight = weight }) ∷ [])) r
          e in
      let fresh : contains m seen ≡ false = throw_if_ok _ _ p.0 in
      add_masks-Seen ms weight (m ∷ seen) (combos ++ (record { mask = m; weight = weight }) ∷ []) r
        (record {
          distinct = Distinct-append_one combos _ v.distinct (sym (v.same m) ∙ fresh);
          same = λ x. ground (
            arith,
            contains-append_one x combos (record { mask = m; weight = weight }),
            v.same x,
          );
        })
        p.1

  parse_tokens-Distinct :
      (ts : List Text) (seen : List ℕ) (combos r : List (Combo W))
      → Seen seen combos
      → parse_tokens ts seen combos ≡ ok r
      → Distinct (masks r)
  unfolding parse_tokens
  parse_tokens-Distinct [] seen combos r v e =
      subst (λ q. Distinct (masks q)) (ok_inj combos r e) v.distinct
  parse_tokens-Distinct (t ∷ ts) seen combos r v e =
      let (parsed, e1, f1) = bind_ok (parse_weighted_token t) _ r e in
      let (ms, e2, f2) = bind_ok (expand_holdem_token parsed.notation) _ r f1 in
      let f3 = (seq_ok _ _ r f2).1 in
      let (next, e4, f4) = bind_ok (add_masks ms parsed.weight seen combos) _ r f3 in
      parse_tokens-Distinct ts next.0 next.1 r
        (add_masks-Seen ms parsed.weight seen combos next v e4) f4

  -- A range read from a Hold'em text has two cards in every hand, and lists none twice, also over
  -- tokens that overlap.
  pub range_from_string-IsRange :
      (parse_plo_range : Text → Result (List (Combo W))) (text : Text) (r : Range W)
      → range_from_string parse_plo_range text holdem ≡ ok r
      → IsRange r × (r.game ≡ holdem)
  unfolding range_from_string parse_holdem_range make_range
  range_from_string-IsRange parse_plo_range text r e =
      let (cs, e1, f1) = bind_ok (parse_holdem_range text) _ r e in
      let p = seq_ok (validate_combo_masks cs holdem) _ r f1 in
      let q = ok_inj _ r p.1 in
      let fresh : Seen {W = W} [] [] = record { distinct = tt; same = λ m. refl } in
      subst (λ x. IsRange x × (x.game ≡ holdem)) q
        (
          record {
            sized = sized_of_validate cs holdem p.0;
            distinct = parse_tokens-Distinct (split_tokens text) [] [] cs fresh e1;
          },
          refl,
        )
