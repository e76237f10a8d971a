-- ===== src/PloRange/Merge.antt =====
-- parse_plo_range of src/core/range_plo.cpp: the items are merged into a map, whose entries are sorted.
pub mod Entries
pub mod Claims
pub mod Accepted
use xia_pl.Base.{
  ℕ, zero, suc, ◌+◌, Bool, true, false, not, ◌==◌, ltb, if◌then◌else◌, Option, none, some, List, [],
  ◌∷◌, ◌++◌,
}
use xia_pl.Base.Errors.{Result, ok, err, Exception, lit, bytes, throw_if, ◌>>=◌, ◌>>◌}
use xia_pl.Text.{Text}
use xia_pl.Weights.{Weights}
use xia_pl.Range.{Combo, describe_mask}
use xia_pl.PloRange.{Item, range_error, split_items, parse_item}
use xia_pl.PloRange.Progressions.{expand_item}

-- What the merging does with a `double` beyond Weights: `==`, and its text by a stream with max_digits10
-- digits.
pub record WeightText {ℓ} (W : Type ℓ) : Type ℓ where
  pub same : W → W → Bool
  pub format : W → Text

-- An entry of the map with its key. The first item that claims the mask is kept as it is, where the
-- source keeps its index.
pub record Entry {ℓ} (W : Type ℓ) : Type ℓ where
  pub mask : ℕ
  pub item : Item W

module _ {ℓ} {W : Type ℓ} where
  -- `find` on the map
  unfoldable pub find_entry : ℕ → List (Entry W) → Option (Item W)
  find_entry mask [] = none
  find_entry mask (e ∷ es) = if e.mask == mask then some e.item else find_entry mask es

  -- std::sort by the mask
  unfoldable pub insert_combo : Combo W → List (Combo W) → List (Combo W)
  insert_combo c [] = c ∷ []
  insert_combo c (d ∷ ds) =
      let rest = insert_combo c ds in if ltb d.mask c.mask then d ∷ rest else c ∷ d ∷ ds

  -- the combos of the map, sorted
  unfoldable pub combos_of : List (Entry W) → List (Combo W)
  unfolding insert_combo
  combos_of [] = []
  combos_of (e ∷ es) =
      insert_combo (record { mask = e.mask; weight = e.item.weight }) (combos_of es)

module _ {ℓ} {W : Type ℓ} ⦃w : Weights W⦄ ⦃t : WeightText W⦄ where
  conflict : ℕ → Item W → Item W → Exception
  conflict mask first item = range_error (
      lit "conflicting weights for combo " ∷ describe_mask mask
      ++ lit ": item \""
        ∷ bytes first.text
        ∷ lit "\" gives weight "
        ∷ bytes (t.format first.weight)
        ∷ lit " but item \""
        ∷ bytes item.text
        ∷ lit "\" gives weight "
        ∷ bytes (t.format item.weight)
        ∷ lit " (equal weights merge silently; conflicting ones are an error)"
        ∷ [])

  -- the loop over the masks of an item
  unfoldable pub merge_masks : Item W → List ℕ → List (Entry W) → Result (List (Entry W))
  unfolding conflict
  merge_masks item [] merged = ok merged
  merge_masks item (m ∷ ms) merged = elim (find_entry m merged) [
    | none ↦ merge_masks item ms (record { mask = m; item = item } ∷ merged)
    | some first ↦
        throw_if (not (t.same first.weight item.weight)) (conflict m first item)
        >> merge_masks item ms merged
  ]

  -- the loop over the items
  unfoldable pub merge_items : List (Item W) → List (Entry W) → Result (List (Entry W))
  merge_items [] merged = ok merged
  merge_items (i ∷ is) merged = do
    masks ← expand_item i.text i.body
    merged' ← merge_masks i masks merged
    merge_items is merged'

  -- the loop that parses every item before any is expanded
  unfoldable pub parse_items : List Text → Result (List (Item W))
  parse_items [] = ok []
  parse_items (r ∷ rs) = do item ← parse_item r; items ← parse_items rs; ok (item ∷ items)

  unfoldable pub parse_plo_range : Text → Result (List (Combo W))
  parse_plo_range text = do
    raw_items ← split_items text
    items ← parse_items raw_items
    merged ← merge_items items []
    ok (combos_of merged)
