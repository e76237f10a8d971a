-- ===== src/Range/SetOps/Total.antt =====
-- range_union, range_intersection and range_difference of src/core/range_setops.cpp on valid ranges.
use xia_pl.Base.{
  ℕ, ◌+◌, ◌≤◌, ◌≡◌, refl, ap₂, ◌∙◌, true, false, ◌==◌, ◌!=◌, ◌||◌, ltb, Option, List, [], ◌∷◌, map,
  arith, Bool-cases, inl, inr, All, String,
}
use xia_pl.Base.Errors.{Result, ok}
use xia_pl.Base.Sets.{contains, Distinct}
use xia_pl.Mask.{popcount64}
use xia_pl.Judge.{GameType, plo, holdem, cards_per_hand}
use xia_pl.Weights.{Weights, weight_max, weight_min, is_positive}
use xia_pl.Range.{Combo, Range, validate_combo_masks, make_range}
use xia_pl.Range.SetOps.{
  push, push_all, merge_union, merge_intersection, merge_difference, insert_combo, sort_combos,
  check_duplicates, sort_and_check_duplicates, combine, require_same_game, same_game, range_union,
  range_intersection, range_difference,
}
use xia_pl.Range.SetOps.Laws.{
  weight_at, MasksFrom, union_weight, intersection_weight, difference_weight, weight_at-merge_union,
  weight_at-merge_intersection, weight_at-merge_difference,
}

same_game_refl : (g : GameType) → same_game g g ≡ true
unfolding same_game
same_game_refl plo = refl
same_game_refl holdem = refl

module _ {ℓ} {W : Type ℓ} where
  abbrev pub masks : List (Combo W) → List ℕ
  masks cs = map (λ c. c.mask) cs

  -- A range as the constructor leaves it, with no hand listed twice.
  pub record IsRange (r : Range W) : Type 0 where
    pub sized : All (λ m. popcount64 m ≡ cards_per_hand r.game) (masks r.combos)
    pub distinct : Distinct (masks r.combos)

  insert_combo_lem :
      (P : ℕ → Type 0) (k m : ℕ) (c : Combo W) (ds : List (Combo W))
      → (weight_at m (insert_combo c ds) ≡ weight_at m (c ∷ ds))
        × (contains m (masks (insert_combo c ds)) ≡ (m == c.mask || contains m (masks ds)))
        × (P c.mask → All P (masks ds) → All P (masks (insert_combo c ds)))
        × (k ≤ c.mask
            → MasksFrom k ds
            → contains c.mask (masks ds) ≡ false
            → MasksFrom k (insert_combo c ds))
  unfolding insert_combo weight_at contains
  insert_combo_lem P k m c [] = (refl, refl, λ p _. (p, tt), λ h _ _. (h, tt))
  insert_combo_lem P k m c (d ∷ ds) = elim (Bool-cases (ltb d.mask c.mask)) [
    | inl p ↦
        let ih = insert_combo_lem P (d.mask + 1) m c ds in
        rw p (
          ground (arith, ih.0),
          ground (arith, ih.1),
          λ a b. (b.0, ih.2 a b.1),
          λ h a n. (a.0, ih.3 (ground arith) a.1 (ground arith)),
        )
    | inr p ↦ rw p (refl, refl, λ a b. (a, b), λ h a n. (h, (ground arith, a.1)))
  ]

  sort_combos_lem :
      (P : ℕ → Type 0) (m : ℕ) (cs : List (Combo W))
      → (weight_at m (sort_combos cs) ≡ weight_at m cs)
        × (contains m (masks (sort_combos cs)) ≡ contains m (masks cs))
        × (All P (masks cs) → All P (masks (sort_combos cs)))
        × (Distinct (masks cs) → MasksFrom 0 (sort_combos cs))
  unfolding sort_combos weight_at contains
  sort_combos_lem P m [] = (refl, refl, λ a. a, λ a. a)
  sort_combos_lem P m (c ∷ cs) =
      let ih = sort_combos_lem P m cs in
      let at = sort_combos_lem P c.mask cs in
      let step = insert_combo_lem P 0 m c (sort_combos cs) in
      (
        ground (arith, step.0, ih.0),
        ground (arith, step.1, ih.1),
        λ a. step.2 a.0 (ih.2 a.1),
        λ d. step.3 (omega arith) (ih.3 d.1) (at.1 ∙ d.0),
      )

  check_duplicates-ok :
      (k : ℕ) (cs : List (Combo W)) (fn_name : String)
      → MasksFrom k cs
      → check_duplicates cs fn_name ≡ ok tt
  unfolding check_duplicates
  check_duplicates-ok k [] fn_name a = refl
  check_duplicates-ok k (c ∷ []) fn_name a = refl
  check_duplicates-ok k (c ∷ d ∷ ds) fn_name a =
      let ne : (c.mask == d.mask) ≡ false = ground arith in
      rw ne (check_duplicates-ok (c.mask + 1) (d ∷ ds) fn_name a.1)

  validate-ok :
      (cs : List (Combo W)) (g : GameType)
      → All (λ m. popcount64 m ≡ cards_per_hand g) (masks cs)
      → validate_combo_masks cs g ≡ ok tt
  unfolding validate_combo_masks
  validate-ok [] g a = refl
  validate-ok (c ∷ cs) g a =
      let e : (popcount64 c.mask != cards_per_hand g) ≡ false = ground (arith, a.0) in
      rw e (validate-ok cs g a.1)

module _ {ℓ} {W : Type ℓ} ⦃w : Weights W⦄ where
  All-push :
      (P : ℕ → Type 0) (mask : ℕ) (v : W) (rest : List (Combo W))
      → P mask
      → All P (masks rest)
      → All P (masks (push mask v rest))
  unfolding push
  All-push P mask v rest h a = elim (Bool-cases (is_positive v)) [
    | inl p ↦ rw p (h, a)
    | inr p ↦ rw p a
  ]

  All-push_all :
      (P : ℕ → Type 0) (cs : List (Combo W)) → All P (masks cs) → All P (masks (push_all cs))
  unfolding push_all
  All-push_all P [] a = tt
  All-push_all P (c ∷ cs) a = All-push P c.mask c.weight (push_all cs) a.0 (All-push_all P cs a.1)

  All-merge_union :
      (P : ℕ → Type 0) (xs ys : List (Combo W))
      → All P (masks xs)
      → All P (masks ys)
      → All P (masks (merge_union xs ys))
  unfolding merge_union
  All-merge_union P [] ys a b = All-push_all P ys b
  All-merge_union P (x ∷ xs) [] a b = All-push_all P (x ∷ xs) a
  All-merge_union P (x ∷ xs) (y ∷ ys) a b = elim (Bool-cases (ltb x.mask y.mask)) [
    | inl p ↦ rw p (All-push P x.mask x.weight _ a.0 (All-merge_union P xs (y ∷ ys) a.1 b))
    | inr p ↦ elim (Bool-cases (ltb y.mask x.mask)) [
      | inl q ↦ rw (p, q) (All-push P y.mask y.weight _ b.0 (All-merge_union P (x ∷ xs) ys a b.1))
      | inr q ↦
          rw (p, q)
            (All-push P x.mask (weight_max x.weight y.weight) _ a.0
              (All-merge_union P xs ys a.1 b.1))
    ]
  ]

  All-merge_intersection :
      (P : ℕ → Type 0) (xs ys : List (Combo W))
      → All P (masks xs)
      → All P (masks ys)
      → All P (masks (merge_intersection xs ys))
  unfolding merge_intersection
  All-merge_intersection P [] ys a b = tt
  All-merge_intersection P (x ∷ xs) [] a b = tt
  All-merge_intersection P (x ∷ xs) (y ∷ ys) a b = elim (Bool-cases (ltb x.mask y.mask)) [
    | inl p ↦ rw p ((All-merge_intersection P xs (y ∷ ys) a.1 b))
    | inr p ↦ elim (Bool-cases (ltb y.mask x.mask)) [
      | inl q ↦ rw (p, q) ((All-merge_intersection P (x ∷ xs) ys a b.1))
      | inr q ↦
          rw (p, q)
            (All-push P x.mask (weight_min x.weight y.weight) _ a.0
              (All-merge_intersection P xs ys a.1 b.1))
    ]
  ]

  All-merge_difference :
      (P : ℕ → Type 0) (xs ys : List (Combo W))
      → All P (masks xs)
      → All P (masks ys)
      → All P (masks (merge_difference xs ys))
  unfolding merge_difference
  All-merge_difference P [] ys a b = tt
  All-merge_difference P (x ∷ xs) [] a b = All-push_all P (x ∷ xs) a
  All-merge_difference P (x ∷ xs) (y ∷ ys) a b = elim (Bool-cases (ltb x.mask y.mask)) [
    | inl p ↦ rw p (All-push P x.mask x.weight _ a.0 (All-merge_difference P xs (y ∷ ys) a.1 b))
    | inr p ↦ elim (Bool-cases (ltb y.mask x.mask)) [
      | inl q ↦ rw (p, q) ((All-merge_difference P (x ∷ xs) ys a b.1))
      | inr q ↦
          rw (p, q)
            (All-push P x.mask (weight_max w.nought (w.minus x.weight y.weight)) _ a.0
              (All-merge_difference P xs ys a.1 b.1))
    ]
  ]

  -- What an operation gives on two ranges of one game: `spec` at each hand.
  abbrev pub Gives :
      (Option W → Option W → Option W) → Result (Range W) → Range W → Range W → Type ℓ
  Gives spec result a b =
      (r : Range W) × (result ≡ ok r)
      × (r.game ≡ a.game)
      × ((m : ℕ) → weight_at m r.combos ≡ spec (weight_at m a.combos) (weight_at m b.combos))

  module _ (merge : List (Combo W) → List (Combo W) → List (Combo W))
      (spec : Option W → Option W → Option W)
      (law : (m k : ℕ) (xs ys : List (Combo W))
        → MasksFrom k xs
        → MasksFrom k ys
        → weight_at m (merge xs ys) ≡ spec (weight_at m xs) (weight_at m ys))
      (keep : (P : ℕ → Type 0) (xs ys : List (Combo W))
        → All P (masks xs)
        → All P (masks ys)
        → All P (masks (merge xs ys))) where
    combine-Gives :
        (fn_name : String) (a b : Range W)
        → IsRange a
        → IsRange b
        → b.game ≡ a.game
        → Gives spec (combine merge fn_name a b) a b
    unfolding combine require_same_game sort_and_check_duplicates make_range
    combine-Gives fn_name a b va vb e =
        let sized = λ (m : ℕ). popcount64 m ≡ cards_per_hand a.game in
        let left : All sized (masks (sort_combos a.combos)) =
          (sort_combos_lem sized 0 a.combos).2 va.sized in
        let right : All sized (masks (sort_combos b.combos)) =
          (sort_combos_lem sized 0 b.combos).2 (rw (← e) vb.sized) in
        let up = (sort_combos_lem sized 0 a.combos).3 va.distinct in
        let vp = (sort_combos_lem sized 0 b.combos).3 vb.distinct in
        let merged = merge (sort_combos a.combos) (sort_combos b.combos) in
        (
          record { combos = merged; game = a.game },
          rw
              (
                e,
                same_game_refl a.game,
                check_duplicates-ok 0 _ fn_name up,
                check_duplicates-ok 0 _ fn_name vp,
                validate-ok merged a.game (keep sized _ _ left right),
              )
              refl,
          refl,
          λ m.
              law m 0 _ _ up vp
              ∙ ap₂ spec (sort_combos_lem sized m a.combos).0 (sort_combos_lem sized m b.combos).0,
        )

  -- The union of two valid ranges of one game is a range of that game. It has at each hand the greater
  -- of the two weights, or the one there is, and leaves out a weight that is not positive.
  pub range_union_lem :
      (a b : Range W)
      → IsRange a
      → IsRange b
      → b.game ≡ a.game
      → Gives union_weight (range_union a b) a b
  unfolding range_union
  range_union_lem a b =
      combine-Gives merge_union union_weight weight_at-merge_union All-merge_union "range_union" a b

  -- The intersection of two valid ranges of one game is a range of that game. It has the hands that
  -- both ranges have, at the lesser weight, and leaves out a weight that is not positive.
  pub range_intersection_lem :
      (a b : Range W)
      → IsRange a
      → IsRange b
      → b.game ≡ a.game
      → Gives intersection_weight (range_intersection a b) a b
  unfolding range_intersection
  range_intersection_lem a b =
      combine-Gives merge_intersection intersection_weight weight_at-merge_intersection
        All-merge_intersection "range_intersection" a b

  -- The difference of two valid ranges of one game is a range of that game. It has the hands of the
  -- left range, at the weight that is left after the right one's is taken off, and leaves out a
  -- weight that is not positive.
  pub range_difference_lem :
      (a b : Range W)
      → IsRange a
      → IsRange b
      → b.game ≡ a.game
      → Gives difference_weight (range_difference a b) a b
  unfolding range_difference
  range_difference_lem a b =
      combine-Gives merge_difference difference_weight weight_at-merge_difference
        All-merge_difference "range_difference" a b
