-- ===== src/PloRange/Merge/Accepted.antt =====
-- The combos of parse_plo_range in src/core/range_plo.cpp are what the constructor of Range asks for.
use xia_pl.Base.{
  ℕ, ◌≡◌, refl, subst, false, ◌!=◌, ltb, List, [], ◌∷◌, All, arith, Bool-cases, Option-cases, inl,
  inr,
}
use xia_pl.Base.Errors.{ok, bind_ok, seq_ok, ok_inj}
use xia_pl.Mask.{popcount64}
use xia_pl.Judge.{plo, cards_per_hand}
use xia_pl.Text.{Text}
use xia_pl.Weights.{Weights}
use xia_pl.Range.{Combo, validate_combo_masks, make_range}
use xia_pl.Range.Parse.{range_from_string}
use xia_pl.PloRange.{Item, split_items}
use xia_pl.PloRange.Progressions.{expand_item}
use xia_pl.PloRange.Hands.{Cards, popcount64-Cards, expand_item-Cards}
use xia_pl.PloRange.Merge.{
  WeightText, Entry, find_entry, insert_combo, combos_of, merge_masks, merge_items, parse_items,
  parse_plo_range,
}

module _ {W : Type 0} where
  abbrev EntryHands : List (Entry W) → Type 0
  EntryHands = All (λ e. Cards 4 e.mask)

  abbrev Hands : List (Combo W) → Type 0
  Hands = All (λ c. Cards 4 c.mask)

  insert_combo-Hands :
      (c : Combo W) (cs : List (Combo W)) → Cards 4 c.mask → Hands cs → Hands (insert_combo c cs)
  unfolding insert_combo
  insert_combo-Hands c [] h a = (h, tt)
  insert_combo-Hands c (d ∷ ds) h a = elim (Bool-cases (ltb d.mask c.mask)) [
    | inl e ↦ rw e (a.0, insert_combo-Hands c ds h a.1)
    | inr e ↦ rw e (h, a)
  ]

  combos_of-Hands : (es : List (Entry W)) → EntryHands es → Hands (combos_of es)
  unfolding combos_of
  combos_of-Hands [] a = tt
  combos_of-Hands (e ∷ es) a = insert_combo-Hands _ (combos_of es) a.0 (combos_of-Hands es a.1)

  validate_Hands : (cs : List (Combo W)) → Hands cs → validate_combo_masks cs plo ≡ ok tt
  unfolding validate_combo_masks cards_per_hand
  validate_Hands [] a = refl
  validate_Hands (c ∷ cs) a =
      let fits : (popcount64 c.mask != 4) ≡ false = ground (arith, popcount64-Cards 4 c.mask a.0) in
      rw (fits, validate_Hands cs a.1) refl

module _ {W : Type 0} ⦃w : Weights W⦄ ⦃t : WeightText W⦄ where
  merge_masks-EntryHands :
      (item : Item W) (ms : List ℕ) (es es' : List (Entry W))
      → All (Cards 4) ms
      → EntryHands es
      → merge_masks item ms es ≡ ok es'
      → EntryHands es'
  unfolding merge_masks
  merge_masks-EntryHands item [] es es' a h e = subst EntryHands (ok_inj es es' e) h
  merge_masks-EntryHands item (m ∷ ms) es es' a h e = elim (Option-cases (find_entry m es)) [
    | inl f ↦
        merge_masks-EntryHands item ms (record { mask = m; item = item } ∷ es) es' a.1 (a.0, h)
          (rw (merge_masks, f) at e)
    | inr (first, f) ↦
        merge_masks-EntryHands item ms es es' a.1 h
          (seq_ok _ (merge_masks item ms es) es' (rw (merge_masks, f) at e)).1
  ]

  merge_items-EntryHands :
      (is : List (Item W)) (es es' : List (Entry W))
      → EntryHands es
      → merge_items is es ≡ ok es'
      → EntryHands es'
  unfolding merge_items
  merge_items-EntryHands [] es es' h e = subst EntryHands (ok_inj es es' e) h
  merge_items-EntryHands (i ∷ is) es es' h e =
      let (ms, x, e1) = bind_ok (expand_item i.text i.body) _ es' e in
      let (es1, y, e2) = bind_ok (merge_masks i ms es) _ es' e1 in
      merge_items-EntryHands is es1 es'
        (merge_masks-EntryHands i ms es es1 (expand_item-Cards i.text i.body ms x) h y) e2

  -- The combos of a text that the PLO parser accepts are never refused by the constructor of Range: every
  -- one has four cards.
  pub range_from_string-parse_plo_range :
      (text : Text) (combos : List (Combo W))
      → parse_plo_range text ≡ ok combos
      → range_from_string parse_plo_range text plo ≡ ok (record { combos = combos; game = plo })
  unfolding parse_plo_range range_from_string make_range
  range_from_string-parse_plo_range text combos e =
      let (raws, a, e1) = bind_ok (split_items text) _ combos e in
      let (items, b, e2) = bind_ok (parse_items raws) _ combos e1 in
      let (es, c, e3) = bind_ok (merge_items items []) _ combos e2 in
      let hands : Hands combos =
        subst Hands (ok_inj (combos_of es) combos e3)
          (combos_of-Hands es (merge_items-EntryHands items [] es tt c)) in
      rw (e, validate_Hands combos hands) refl
