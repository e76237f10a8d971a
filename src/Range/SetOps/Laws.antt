-- ===== src/Range/SetOps/Laws.antt =====
-- The merges of src/core/range_setops.cpp, weight by weight.
use xia_pl.Base.{
  ℕ, ◌+◌, ◌≤◌, ◌<◌, ◌≡◌, refl, sym, ◌∙◌, ◌==◌, ltb, if◌then◌else◌, Option, none, some, List, [],
  ◌∷◌, arith, Bool-cases, inl, inr,
}
use xia_pl.Weights.{Weights, weight_max, weight_min, is_positive}
use xia_pl.Range.{Combo}
use xia_pl.Range.SetOps.{push, push_all, merge_union, merge_intersection, merge_difference}

module _ {ℓ} {W : Type ℓ} where
  -- The weight of a hand in a range.
  unfoldable pub weight_at : ℕ → List (Combo W) → Option W
  weight_at m [] = none
  weight_at m (c ∷ cs) = if c.mask == m then some c.weight else weight_at m cs

  -- The masks rise strictly, from `k` on.
  abbrev pub MasksFrom : ℕ → List (Combo W) → Type 0
  MasksFrom k [] = Unit
  MasksFrom k (c ∷ cs) = (k ≤ c.mask) × MasksFrom (c.mask + 1) cs

  pub MasksFrom-mono : (j k : ℕ) (cs : List (Combo W)) → j ≤ k → MasksFrom k cs → MasksFrom j cs
  MasksFrom-mono j k [] h a = tt
  MasksFrom-mono j k (c ∷ cs) h a = (omega arith, a.1)

  pub weight_at_below :
      (m k : ℕ) (cs : List (Combo W)) → MasksFrom k cs → m < k → weight_at m cs ≡ none
  unfolding weight_at
  weight_at_below m k [] a h = refl
  weight_at_below m k (c ∷ cs) a h = ground (arith, weight_at_below m (c.mask + 1) cs a.1)

module _ {ℓ} {W : Type ℓ} ⦃w : Weights W⦄ where
  -- A hand stays with a positive weight, and goes with any other.
  abbrev pub kept : Option W → Option W
  kept none = none
  kept (some v) = if is_positive v then some v else none

  abbrev pub union_weight : Option W → Option W → Option W
  union_weight none none = none
  union_weight none (some v) = kept (some v)
  union_weight (some u) none = kept (some u)
  union_weight (some u) (some v) = kept (some (weight_max u v))

  abbrev pub intersection_weight : Option W → Option W → Option W
  intersection_weight (some u) (some v) = kept (some (weight_min u v))
  intersection_weight none _ = none
  intersection_weight (some u) none = none

  abbrev pub difference_weight : Option W → Option W → Option W
  difference_weight none _ = none
  difference_weight (some u) none = kept (some u)
  difference_weight (some u) (some v) = kept (some (weight_max w.nought (w.minus u v)))

  weight_at-push :
      (m mask : ℕ) (v : W) (rest : List (Combo W))
      → MasksFrom (mask + 1) rest
      → weight_at m (push mask v rest) ≡ (if mask == m then kept (some v) else weight_at m rest)
  unfolding weight_at push
  weight_at-push m mask v rest a = ground (arith, weight_at_below m (mask + 1) rest a)

  MasksFrom-push :
      (k mask : ℕ) (v : W) (rest : List (Combo W))
      → k ≤ mask
      → MasksFrom (mask + 1) rest
      → MasksFrom k (push mask v rest)
  unfolding push
  MasksFrom-push k mask v rest h a = elim (Bool-cases (is_positive v)) [
    | inl p ↦ rw p (h, a)
    | inr p ↦ rw p (MasksFrom-mono k (mask + 1) rest (omega arith) a)
  ]

  MasksFrom-push_all : (k : ℕ) (cs : List (Combo W)) → MasksFrom k cs → MasksFrom k (push_all cs)
  unfolding push_all
  MasksFrom-push_all k [] a = tt
  MasksFrom-push_all k (c ∷ cs) a =
      MasksFrom-push k c.mask c.weight (push_all cs) a.0 (MasksFrom-push_all (c.mask + 1) cs a.1)

  weight_at-push_all :
      (m k : ℕ) (cs : List (Combo W))
      → MasksFrom k cs
      → weight_at m (push_all cs) ≡ kept (weight_at m cs)
  unfolding push_all weight_at
  weight_at-push_all m k [] a = refl
  weight_at-push_all m k (c ∷ cs) a = ground (
    arith,
    weight_at-push m c.mask c.weight (push_all cs) (MasksFrom-push_all (c.mask + 1) cs a.1),
    weight_at-push_all m (c.mask + 1) cs a.1,
  )

  union_weight-none :
      (o : Option W) → (union_weight none o ≡ kept o) × (union_weight o none ≡ kept o)
  union_weight-none none = (refl, refl)
  union_weight-none (some v) = (refl, refl)

  difference_weight-none : (o : Option W) → difference_weight o none ≡ kept o
  difference_weight-none none = refl
  difference_weight-none (some v) = refl

  intersection_weight-none : (o : Option W) → none ≡ intersection_weight o none
  intersection_weight-none none = refl
  intersection_weight-none (some v) = refl

  pub merge_union-MasksFrom :
      (k : ℕ) (xs ys : List (Combo W))
      → MasksFrom k xs
      → MasksFrom k ys
      → MasksFrom k (merge_union xs ys)
  unfolding merge_union
  merge_union-MasksFrom k [] ys a b = MasksFrom-push_all k ys b
  merge_union-MasksFrom k (x ∷ xs) [] a b = MasksFrom-push_all k (x ∷ xs) a
  merge_union-MasksFrom k (x ∷ xs) (y ∷ ys) a b = elim (Bool-cases (ltb x.mask y.mask)) [
    | inl p ↦ rw p (
        MasksFrom-push k x.mask x.weight _ a.0
          (merge_union-MasksFrom (x.mask + 1) xs (y ∷ ys) a.1 (ground arith, b.1)))
    | inr p ↦ elim (Bool-cases (ltb y.mask x.mask)) [
      | inl q ↦
          rw (p, q)
            (MasksFrom-push k y.mask y.weight _ b.0
              (merge_union-MasksFrom (y.mask + 1) (x ∷ xs) ys (ground arith, a.1) b.1))
      | inr q ↦
          let e : x.mask ≡ y.mask = ground arith in
          rw (p, q)
            (MasksFrom-push k x.mask (weight_max x.weight y.weight) _ a.0
              (merge_union-MasksFrom (x.mask + 1) xs ys a.1 (rw e b.1)))
    ]
  ]

  -- The union has at each hand the greater of the two weights, the one there is where the other range
  -- has none, and no hand whose weight is not positive.
  pub weight_at-merge_union :
      (m k : ℕ) (xs ys : List (Combo W))
      → MasksFrom k xs
      → MasksFrom k ys
      → weight_at m (merge_union xs ys) ≡ union_weight (weight_at m xs) (weight_at m ys)
  unfolding merge_union weight_at
  weight_at-merge_union m k [] ys a b =
      weight_at-push_all m k ys b ∙ sym (union_weight-none (weight_at m ys)).0
  weight_at-merge_union m k (x ∷ xs) [] a b =
      weight_at-push_all m k (x ∷ xs) a ∙ sym (union_weight-none (weight_at m (x ∷ xs))).1
  weight_at-merge_union m k (x ∷ xs) (y ∷ ys) a b = elim (Bool-cases (ltb x.mask y.mask)) [
    | inl p ↦
        let bs : MasksFrom (x.mask + 1) (y ∷ ys) = (ground arith, b.1) in
        let ih = weight_at-merge_union m (x.mask + 1) xs (y ∷ ys) a.1 bs in
        rw p (
          weight_at-push m x.mask x.weight _ (merge_union-MasksFrom (x.mask + 1) xs (y ∷ ys) a.1 bs)
          ∙ ground (arith, ih, weight_at_below m (y.mask + 1) ys b.1))
    | inr p ↦ elim (Bool-cases (ltb y.mask x.mask)) [
      | inl q ↦
          let as' : MasksFrom (y.mask + 1) (x ∷ xs) = (ground arith, a.1) in
          let ih = weight_at-merge_union m (y.mask + 1) (x ∷ xs) ys as' b.1 in
          rw (p, q)
            (weight_at-push m y.mask y.weight _
                (merge_union-MasksFrom (y.mask + 1) (x ∷ xs) ys as' b.1)
              ∙ ground (arith, ih, weight_at_below m (x.mask + 1) xs a.1))
      | inr q ↦
          let e : x.mask ≡ y.mask = ground arith in
          let bs : MasksFrom (x.mask + 1) ys = rw e b.1 in
          let ih = weight_at-merge_union m (x.mask + 1) xs ys a.1 bs in
          rw (p, q)
            (weight_at-push m x.mask (weight_max x.weight y.weight) _
                (merge_union-MasksFrom (x.mask + 1) xs ys a.1 bs)
              ∙ ground (arith, ih, e))
    ]
  ]

  pub merge_intersection-MasksFrom :
      (k : ℕ) (xs ys : List (Combo W))
      → MasksFrom k xs
      → MasksFrom k ys
      → MasksFrom k (merge_intersection xs ys)
  unfolding merge_intersection
  merge_intersection-MasksFrom k [] ys a b = tt
  merge_intersection-MasksFrom k (x ∷ xs) [] a b = tt
  merge_intersection-MasksFrom k (x ∷ xs) (y ∷ ys) a b = elim (Bool-cases (ltb x.mask y.mask)) [
    | inl p ↦ rw p (
        MasksFrom-mono k (x.mask + 1) _ (omega arith)
          (merge_intersection-MasksFrom (x.mask + 1) xs (y ∷ ys) a.1 (ground arith, b.1)))
    | inr p ↦ elim (Bool-cases (ltb y.mask x.mask)) [
      | inl q ↦
          rw (p, q)
            (MasksFrom-mono k (y.mask + 1) _ (omega arith)
              (merge_intersection-MasksFrom (y.mask + 1) (x ∷ xs) ys (ground arith, a.1) b.1))
      | inr q ↦
          let e : x.mask ≡ y.mask = ground arith in
          rw (p, q)
            (MasksFrom-push k x.mask (weight_min x.weight y.weight) _ a.0
              (merge_intersection-MasksFrom (x.mask + 1) xs ys a.1 (rw e b.1)))
    ]
  ]

  pub weight_at-merge_intersection :
      (m k : ℕ) (xs ys : List (Combo W))
      → MasksFrom k xs
      → MasksFrom k ys
      → weight_at m (merge_intersection xs ys)
        ≡ intersection_weight (weight_at m xs) (weight_at m ys)
  unfolding merge_intersection weight_at
  weight_at-merge_intersection m k [] ys a b = refl
  weight_at-merge_intersection m k (x ∷ xs) [] a b = intersection_weight-none (weight_at m (x ∷ xs))
  weight_at-merge_intersection m k (x ∷ xs) (y ∷ ys) a b = elim (Bool-cases (ltb x.mask y.mask)) [
    | inl p ↦
        let bs : MasksFrom (x.mask + 1) (y ∷ ys) = (ground arith, b.1) in
        let ih = weight_at-merge_intersection m (x.mask + 1) xs (y ∷ ys) a.1 bs in
        rw p (
          ground (
            arith,
            ih,
            weight_at_below m (y.mask + 1) ys b.1,
            weight_at_below m (x.mask + 1) xs a.1,
          ))
    | inr p ↦ elim (Bool-cases (ltb y.mask x.mask)) [
      | inl q ↦
          let as' : MasksFrom (y.mask + 1) (x ∷ xs) = (ground arith, a.1) in
          let ih = weight_at-merge_intersection m (y.mask + 1) (x ∷ xs) ys as' b.1 in
          rw (p, q)
            (ground (
              arith,
              ih,
              weight_at_below m (y.mask + 1) ys b.1,
              weight_at_below m (x.mask + 1) xs a.1,
            ))
      | inr q ↦
          let e : x.mask ≡ y.mask = ground arith in
          let bs : MasksFrom (x.mask + 1) ys = rw e b.1 in
          let ih = weight_at-merge_intersection m (x.mask + 1) xs ys a.1 bs in
          rw (p, q)
            (weight_at-push m x.mask (weight_min x.weight y.weight) _
                (merge_intersection-MasksFrom (x.mask + 1) xs ys a.1 bs)
              ∙ ground (arith, ih, e))
    ]
  ]

  pub merge_difference-MasksFrom :
      (k : ℕ) (xs ys : List (Combo W))
      → MasksFrom k xs
      → MasksFrom k ys
      → MasksFrom k (merge_difference xs ys)
  unfolding merge_difference
  merge_difference-MasksFrom k [] ys a b = tt
  merge_difference-MasksFrom k (x ∷ xs) [] a b = MasksFrom-push_all k (x ∷ xs) a
  merge_difference-MasksFrom k (x ∷ xs) (y ∷ ys) a b = elim (Bool-cases (ltb x.mask y.mask)) [
    | inl p ↦ rw p (
        MasksFrom-push k x.mask x.weight _ a.0
          (merge_difference-MasksFrom (x.mask + 1) xs (y ∷ ys) a.1 (ground arith, b.1)))
    | inr p ↦ elim (Bool-cases (ltb y.mask x.mask)) [
      | inl q ↦
          rw (p, q)
            (MasksFrom-mono k (y.mask + 1) _ (omega arith)
              (merge_difference-MasksFrom (y.mask + 1) (x ∷ xs) ys (ground arith, a.1) b.1))
      | inr q ↦
          let e : x.mask ≡ y.mask = ground arith in
          rw (p, q)
            (MasksFrom-push k x.mask (weight_max w.nought (w.minus x.weight y.weight)) _ a.0
              (merge_difference-MasksFrom (x.mask + 1) xs ys a.1 (rw e b.1)))
    ]
  ]

  pub weight_at-merge_difference :
      (m k : ℕ) (xs ys : List (Combo W))
      → MasksFrom k xs
      → MasksFrom k ys
      → weight_at m (merge_difference xs ys) ≡ difference_weight (weight_at m xs) (weight_at m ys)
  unfolding merge_difference weight_at
  weight_at-merge_difference m k [] ys a b = refl
  weight_at-merge_difference m k (x ∷ xs) [] a b =
      weight_at-push_all m k (x ∷ xs) a ∙ sym (difference_weight-none (weight_at m (x ∷ xs)))
  weight_at-merge_difference m k (x ∷ xs) (y ∷ ys) a b = elim (Bool-cases (ltb x.mask y.mask)) [
    | inl p ↦
        let bs : MasksFrom (x.mask + 1) (y ∷ ys) = (ground arith, b.1) in
        let ih = weight_at-merge_difference m (x.mask + 1) xs (y ∷ ys) a.1 bs in
        rw p (
          weight_at-push m x.mask x.weight _
            (merge_difference-MasksFrom (x.mask + 1) xs (y ∷ ys) a.1 bs)
          ∙ ground (arith, ih, weight_at_below m (y.mask + 1) ys b.1))
    | inr p ↦ elim (Bool-cases (ltb y.mask x.mask)) [
      | inl q ↦
          let as' : MasksFrom (y.mask + 1) (x ∷ xs) = (ground arith, a.1) in
          let ih = weight_at-merge_difference m (y.mask + 1) (x ∷ xs) ys as' b.1 in
          rw (p, q)
            (ground (
              arith,
              ih,
              weight_at_below m (y.mask + 1) ys b.1,
              weight_at_below m (x.mask + 1) xs a.1,
            ))
      | inr q ↦
          let e : x.mask ≡ y.mask = ground arith in
          let bs : MasksFrom (x.mask + 1) ys = rw e b.1 in
          let ih = weight_at-merge_difference m (x.mask + 1) xs ys a.1 bs in
          rw (p, q)
            (weight_at-push m x.mask (weight_max w.nought (w.minus x.weight y.weight)) _
                (merge_difference-MasksFrom (x.mask + 1) xs ys a.1 bs)
              ∙ ground (arith, ih, e))
    ]
  ]
