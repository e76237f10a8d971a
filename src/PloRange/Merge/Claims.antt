-- ===== src/PloRange/Merge/Claims.antt =====
-- What parse_plo_range of src/core/range_plo.cpp returns: the combos in the order of their masks, each
-- with the weight of the first item that claims it.
use xia_pl.Base.{
  ℕ, ◌≡◌, refl, sym, ap, ◌∙◌, Bool, true, false, if◌then◌else◌, Option, none, some, List, [], ◌∷◌,
  All, subst,
}
use xia_pl.Base.Errors.{ok, bind_ok, ok_inj}
use xia_pl.Base.Sets.{contains, AscendingFrom}
use xia_pl.Text.{Text}
use xia_pl.Weights.{Weights}
use xia_pl.Range.{Combo}
use xia_pl.Range.SetOps.Total.{masks}
use xia_pl.PloRange.{Item, split_items}
use xia_pl.PloRange.Progressions.{expand_item}
use xia_pl.PloRange.Merge.{
  WeightText, Entry, find_entry, combos_of, merge_masks, merge_items, parse_items, parse_plo_range,
}
use xia_pl.PloRange.Merge.Entries.{
  weight_of, weight_in, orelse, orelse-none, Keyed, weight_of-combos_of, combos_of-AscendingFrom,
  Agreed, Agreed-orelse, merge_masks-Merged,
}

-- An item with the masks that it expands to.
pub record Claim (W : Type 0) : Type 0 where
  pub item : Item W
  pub hands : List ℕ

module _ {W : Type 0} where
  -- The items, in order, with what expand_item gives for each.
  pub data Expands : List (Item W) → List (Claim W) → Type 0 where
    nil : Expands [] []
    cons :
        {i : Item W} {c : Claim W} {is : List (Item W)} {cs : List (Claim W)}
        → c.item ≡ i
        → expand_item i.text i.body ≡ ok c.hands
        → Expands is cs
        → Expands (i ∷ is) (c ∷ cs)

  -- The first item that expands to the mask.
  unfoldable pub first_claim : ℕ → List (Claim W) → Option (Item W)
  first_claim m [] = none
  first_claim m (c ∷ cs) = if contains m c.hands then some c.item else first_claim m cs

module _ {W : Type 0} ⦃w : Weights W⦄ ⦃t : WeightText W⦄ where
  Agreed-later :
      (m : ℕ) (es es' : List (Entry W)) (o : Option (Item W)) (item : Item W)
      → find_entry m es' ≡ orelse (find_entry m es) o
      → Agreed (find_entry m es) item
      → Agreed (find_entry m es') item
  Agreed-later m es es' o item e a =
      subst (λ x. Agreed x item) (sym e) (Agreed-orelse (find_entry m es) o item a)

  All-Agreed-later :
      (ms : List ℕ) (es es' : List (Entry W)) (o : ℕ → Option (Item W)) (item : Item W)
      → ((m : ℕ) → find_entry m es' ≡ orelse (find_entry m es) (o m))
      → All (λ m. Agreed (find_entry m es) item) ms
      → All (λ m. Agreed (find_entry m es') item) ms
  All-Agreed-later [] es es' o item e a = tt
  All-Agreed-later (m ∷ ms) es es' o item e a =
      (Agreed-later m es es' (o m) item (e m) a.0, All-Agreed-later ms es es' o item e a.1)

  -- What merging the items does to the map.
  record MergedAll (es es' : List (Entry W)) (is : List (Item W)) : Type 0 where
    claims : List (Claim W)
    expands : Expands is claims
    keyed : Keyed es'
    found : (m : ℕ) → find_entry m es' ≡ orelse (find_entry m es) (first_claim m claims)
    agreed : All (λ c. All (λ m. Agreed (find_entry m es') c.item) c.hands) claims

  orelse_assoc :
      (o p : Option (Item W)) (b : Bool) (i : Item W)
      → orelse (orelse o (if b then some i else none)) p ≡ orelse o (if b then some i else p)
  orelse_assoc (some a) p b i = refl
  orelse_assoc none p true i = refl
  orelse_assoc none p false i = refl

  merge_items-MergedAll :
      (is : List (Item W)) (es es' : List (Entry W))
      → Keyed es
      → merge_items is es ≡ ok es'
      → MergedAll es es' is
  unfolding merge_items first_claim
  merge_items-MergedAll [] es es' k e =
      subst (λ x. MergedAll es x []) (ok_inj es es' e)
        (record {
          claims = [];
          expands = nil;
          keyed = k;
          found = λ m. sym (orelse-none (find_entry m es));
          agreed = tt;
        })
  merge_items-MergedAll (i ∷ is) es es' k e =
      let (ms, x, e1) = bind_ok (expand_item i.text i.body) _ es' e in
      let (es1, y, e2) = bind_ok (merge_masks i ms es) _ es' e1 in
      let one = merge_masks-Merged i ms es es1 k y in
      let more = merge_items-MergedAll is es1 es' one.keyed e2 in
      record {
        claims = record { item = i; hands = ms } ∷ more.claims;
        expands = cons refl x more.expands;
        keyed = more.keyed;
        found = λ m.
            more.found m
            ∙ ap (λ o. orelse o (first_claim m more.claims)) (one.found m)
            ∙ orelse_assoc (find_entry m es) (first_claim m more.claims) (contains m ms) i;
        agreed = (All-Agreed-later ms es1 es' _ i more.found one.agreed, more.agreed);
      }

  -- The combos are those that the items of the text claim.
  pub record Claimed (text : Text) (combos : List (Combo W)) : Type 0 where
    pub raw_items : List Text
    pub items : List (Item W)
    pub claims : List (Claim W)
    pub split : split_items text ≡ ok raw_items
    pub parsed : parse_items raw_items ≡ ok items
    pub expands : Expands items claims
    pub ascending : AscendingFrom 0 (masks combos)
    pub weights : (m : ℕ) → weight_of m combos ≡ weight_in (first_claim m claims)
    pub agreed : All (λ c. All (λ m. Agreed (first_claim m claims) c.item) c.hands) claims

  All-Agreed-found :
      (cs : List (Claim W)) (es : List (Entry W)) (f : ℕ → Option (Item W))
      → ((m : ℕ) → find_entry m es ≡ f m)
      → All (λ c. All (λ m. Agreed (find_entry m es) c.item) c.hands) cs
      → All (λ c. All (λ m. Agreed (f m) c.item) c.hands) cs
  All-Agreed-found cs es f e a =
      subst (λ (g : ℕ → Option (Item W)). All (λ c. All (λ m. Agreed (g m) c.item) c.hands) cs)
        (λ i m. e m i) a

  -- The combos of a text that is accepted stand in ascending order of their masks, none twice. A mask is
  -- there exactly when an item expands to it, with the weight of the first item that does, and every
  -- other item that expands to it has a weight that compares equal.
  pub parse_plo_range-Claimed :
      (text : Text) (combos : List (Combo W))
      → parse_plo_range text ≡ ok combos
      → Claimed text combos
  unfolding parse_plo_range find_entry
  parse_plo_range-Claimed text combos e =
      let (raws, a, e1) = bind_ok (split_items text) _ combos e in
      let (items, b, e2) = bind_ok (parse_items raws) _ combos e1 in
      let (es, c, e3) = bind_ok (merge_items items []) _ combos e2 in
      let v = merge_items-MergedAll items [] es tt c in
      let same : combos_of es ≡ combos = ok_inj (combos_of es) combos e3 in
      record {
        raw_items = raws;
        items = items;
        claims = v.claims;
        split = a;
        parsed = b;
        expands = v.expands;
        ascending =
            subst (λ x. AscendingFrom 0 (masks x)) same (combos_of-AscendingFrom es v.keyed);
        weights = λ m.
            subst (λ x. weight_of m x ≡ weight_in (first_claim m v.claims)) same
              (weight_of-combos_of m es ∙ ap weight_in (v.found m));
        agreed = All-Agreed-found v.claims es _ v.found v.agreed;
      }
