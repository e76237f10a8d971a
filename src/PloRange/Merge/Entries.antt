-- ===== src/PloRange/Merge/Entries.antt =====
-- The map of parse_plo_range in src/core/range_plo.cpp: what merging an item does to it, and its combos.
use xia_pl.Base.{
  ℕ, ◌+◌, ◌≤◌, ◌≡◌, inl, inr, refl, sym, ap, ◌∙◌, true, false, ◌==◌, ltb, if◌then◌else◌, Option,
  none, some, List, [], ◌∷◌, All, arith, Bool-cases, Option-cases, subst,
}
use xia_pl.Base.Errors.{ok, seq_ok, throw_if_ok, ok_inj}
use xia_pl.Base.Sets.{contains, AscendingFrom}
use xia_pl.Weights.{Weights}
use xia_pl.Range.{Combo}
use xia_pl.Range.SetOps.Total.{masks}
use xia_pl.PloRange.{Item}
use xia_pl.PloRange.Merge.{WeightText, Entry, find_entry, insert_combo, combos_of, merge_masks}

module _ {W : Type 0} where
  unfoldable pub weight_of : ℕ → List (Combo W) → Option W
  weight_of m [] = none
  weight_of m (c ∷ cs) = if c.mask == m then some c.weight else weight_of m cs

  unfoldable pub weight_in : Option (Item W) → Option W
  weight_in none = none
  weight_in (some i) = some i.weight

  -- A second entry gives way to a first.
  abbrev pub orelse : Option (Item W) → Option (Item W) → Option (Item W)
  orelse none b = b
  orelse (some a) b = some a

  weight_of-insert_combo :
      (m : ℕ) (c : Combo W) (cs : List (Combo W))
      → weight_of m (insert_combo c cs) ≡ (if c.mask == m then some c.weight else weight_of m cs)
  unfolding weight_of insert_combo
  weight_of-insert_combo m c [] = refl
  weight_of-insert_combo m c (d ∷ ds) = elim (Bool-cases (ltb d.mask c.mask)) [
    | inl e ↦ elim (Bool-cases (d.mask == m)) [
      | inl f ↦ let other : (c.mask == m) ≡ false = ground arith in rw (e, weight_of, f, other) refl
      | inr f ↦ rw (e, weight_of, f) (weight_of-insert_combo m c ds)
    ]
    | inr e ↦ rw e refl
  ]

  pub weight_of-combos_of :
      (m : ℕ) (es : List (Entry W)) → weight_of m (combos_of es) ≡ weight_in (find_entry m es)
  unfolding combos_of find_entry weight_in weight_of
  weight_of-combos_of m [] = refl
  weight_of-combos_of m (e ∷ es) =
      weight_of-insert_combo m _ (combos_of es) ∙ elim (Bool-cases (e.mask == m)) [
        | inl f ↦ rw f refl
        | inr f ↦ rw f (weight_of-combos_of m es)
      ]

  -- No two entries have the same mask.
  abbrev pub Keyed : List (Entry W) → Type 0
  Keyed [] = Unit
  Keyed (e ∷ es) = (find_entry e.mask es ≡ none) × Keyed es

  AscendingFrom-insert_combo :
      (k : ℕ) (c : Combo W) (cs : List (Combo W))
      → k ≤ c.mask
      → weight_of c.mask cs ≡ none
      → AscendingFrom k (masks cs)
      → AscendingFrom k (masks (insert_combo c cs))
  unfolding insert_combo weight_of
  AscendingFrom-insert_combo k c [] h n a = (h, tt)
  AscendingFrom-insert_combo k c (d ∷ ds) h n a = elim (Bool-cases (ltb d.mask c.mask)) [
    | inl e ↦
        let other : (d.mask == c.mask) ≡ false = ground arith in
        rw (e, masks)
          (a.0, AscendingFrom-insert_combo (d.mask + 1) c ds (ground arith) (rw other at n) a.1)
    | inr e ↦ elim (Bool-cases (d.mask == c.mask)) [
      | inl f ↦ absurd (cc (rw f at n))
      | inr f ↦ rw (e, masks) (h, (ground arith, a.1))
    ]
  ]

  pub combos_of-AscendingFrom :
      (es : List (Entry W)) → Keyed es → AscendingFrom 0 (masks (combos_of es))
  unfolding combos_of weight_in
  combos_of-AscendingFrom [] k = tt
  combos_of-AscendingFrom (e ∷ es) k =
      AscendingFrom-insert_combo 0 _ (combos_of es) (omega arith)
        (weight_of-combos_of e.mask es ∙ ap weight_in k.0) (combos_of-AscendingFrom es k.1)

module _ {W : Type 0} ⦃w : Weights W⦄ ⦃t : WeightText W⦄ where
  -- The mask has an entry, of an item whose weight is that of `item`.
  pub data Agreed (o : Option (Item W)) (item : Item W) : Type 0 where
    claimed : o ≡ some item → Agreed o item
    shared :
        (first : Item W) → o ≡ some first → t.same first.weight item.weight ≡ true → Agreed o item

  pub Agreed-orelse :
      (o p : Option (Item W)) (item : Item W) → Agreed o item → Agreed (orelse o p) item
  Agreed-orelse (some i) p item a = a
  Agreed-orelse none p item (claimed e) = cc
  Agreed-orelse none p item (shared first e f) = cc

  pub orelse-none : (o : Option (Item W)) → orelse o none ≡ o
  orelse-none none = refl
  orelse-none (some i) = refl

  -- What merging one more item does to the map.
  pub record Merged (es es' : List (Entry W)) (item : Item W) (ms : List ℕ) : Type 0 where
    pub keyed : Keyed es'
    pub found :
        (m : ℕ)
        → find_entry m es' ≡ orelse (find_entry m es) (if contains m ms then some item else none)
    pub agreed : All (λ m. Agreed (find_entry m es') item) ms

  pub merge_masks-Merged :
      (item : Item W) (ms : List ℕ) (es es' : List (Entry W))
      → Keyed es
      → merge_masks item ms es ≡ ok es'
      → Merged es es' item ms
  unfolding merge_masks find_entry contains
  merge_masks-Merged item [] es es' k e =
      let p : es ≡ es' = ok_inj es es' e in
      subst (λ x. Merged es x item []) p
        (record { keyed = k; found = λ m. sym (orelse-none (find_entry m es)); agreed = tt })
  merge_masks-Merged item (m ∷ ms) es es' k e = elim (Option-cases (find_entry m es)) [
    | inl f ↦
        let v =
          merge_masks-Merged item ms (record { mask = m; item = item } ∷ es) es' (f, k)
            (rw (merge_masks, f) at e) in
        record {
          keyed = v.keyed;
          found = λ n. elim (Bool-cases (m == n)) [
            | inl g ↦
                let back : (n == m) ≡ true = ground arith in
                let same : m ≡ n = ground arith in
                let none_there : find_entry n es ≡ none =
                  ap (λ x. find_entry x es) (sym same) ∙ f in
                v.found n ∙ rw (g, back, none_there) refl
            | inr g ↦ let back : (n == m) ≡ false = ground arith in v.found n ∙ rw (g, back) refl
          ];
          agreed = (
            claimed (let self : (m == m) ≡ true = ground arith in v.found m ∙ rw self refl),
            v.agreed,
          );
        }
    | inr (first, f) ↦
        let q = seq_ok _ (merge_masks item ms es) es' (rw (merge_masks, f) at e) in
        let fits : t.same first.weight item.weight ≡ true = ground (arith, throw_if_ok _ _ q.0) in
        let v = merge_masks-Merged item ms es es' k q.1 in
        record {
          keyed = v.keyed;
          found = λ n. elim (Bool-cases (m == n)) [
            | inl g ↦
                let same : m ≡ n = ground arith in
                let there : find_entry n es ≡ some first =
                  ap (λ x. find_entry x es) (sym same) ∙ f in
                v.found n ∙ rw there refl
            | inr g ↦ let back : (n == m) ≡ false = ground arith in v.found n ∙ rw back refl
          ];
          agreed = (shared first (v.found m ∙ rw f refl) fits, v.agreed);
        }
  ]
