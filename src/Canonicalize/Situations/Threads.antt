-- ===== src/Canonicalize/Situations/Threads.antt =====
-- How generate_canonical_situations of src/core/canonicalize.cpp deals its pairs out to the threads.
use xia_pl.Base.{
  ℕ, zero, suc, ◌+◌, ◌-◌, ◌*◌, ◌/◌, ◌%◌, ◌≤◌, ◌<◌, ◌≡◌, refl, sym, ap, ◌∙◌, ◌==◌, ltb,
  if◌then◌else◌, List, [], ◌∷◌, ◌++◌, length, take, flat_map, arith, Bool-cases, inl, inr,
}
use native.Mathlib.Nat.{div-add-mod, mod-lt}
use xia_pl.Canonicalize.Situations.{skip, ranges_from, ranges}

module _ {A : Type 0} where
  abbrev pub all_of : List (List A) → List A
  all_of rs = flat_map (λ r. r) rs

  skip_all : (n : ℕ) (xs : List A) → length xs ≤ n → skip n xs ≡ []
  unfolding skip
  skip_all zero [] h = refl
  skip_all zero (x ∷ xs) h = absurd (omega arith)
  skip_all (suc n) [] h = refl
  skip_all (suc n) (x ∷ xs) h = skip_all n xs (omega arith)

  take_nil : (n : ℕ) → take {A = A} n [] ≡ []
  take_nil zero = refl
  take_nil (suc n) = refl

  skip_nil : (n : ℕ) → skip {A = A} n [] ≡ []
  unfolding skip
  skip_nil zero = refl
  skip_nil (suc n) = refl

  take-skip :
      (begin n : ℕ) (xs : List A) → take n (skip begin xs) ++ skip (begin + n) xs ≡ skip begin xs
  unfolding skip
  take-skip begin zero xs = let e : begin + 0 ≡ begin = omega arith in rw e refl
  take-skip begin (suc n) [] = rw (skip_nil begin, skip_nil (begin + suc n)) refl
  take-skip zero (suc n) (x ∷ xs) =
      let e : zero + suc n ≡ suc (zero + n) = omega arith in
      rw (e, skip) (ap (◌∷◌ x) (take-skip zero n xs))
  take-skip (suc begin) (suc n) (x ∷ xs) =
      let e : suc begin + suc n ≡ suc (begin + suc n) = omega arith in
      rw (e, skip) (take-skip begin (suc n) xs)

  ranges_from-all_of :
      (left base excess t begin : ℕ) (xs : List A)
      → excess ≤ t + left
      → begin + left * base + (excess - t) ≡ length xs
      → all_of (ranges_from left base excess t begin xs) ≡ skip begin xs
  unfolding ranges_from
  ranges_from-all_of zero base excess t begin xs h sum = sym (skip_all begin xs (omega arith))
  ranges_from-all_of (suc left) base excess t begin xs h sum =
      let share : ℕ = base + (if ltb t excess then 1 else 0) in
      let one : share + (excess - (t + 1)) ≡ base + (excess - t) = ground arith in
      let more : suc left * base ≡ left * base + base = grind arith in
      let ih =
        ranges_from-all_of left base excess (t + 1) (begin + share) xs (omega arith)
          (omega arith) in
      ap (λ r. take share (skip begin xs) ++ r) ih ∙ take-skip begin share xs

  append_nil : (xs : List A) → xs ++ [] ≡ xs
  append_nil [] = refl
  append_nil (x ∷ xs) = ap (◌∷◌ x) (append_nil xs)

  -- The ranges of one or more threads hold all pairs in order: none is left out, and none is dealt out twice.
  pub ranges-all_of :
      (n_threads : ℕ) (xs : List A) → 1 ≤ n_threads → all_of (ranges n_threads xs) ≡ xs
  unfolding ranges skip
  ranges-all_of n xs h = elim (Bool-cases (n == 1)) [
    | inl e ↦ rw e (append_nil xs)
    | inr e ↦
        let whole = div-add-mod (length xs) n in
        let rest : length xs % n < n = mod-lt (length xs) h in
        rw e
          (ranges_from-all_of n (length xs / n) (length xs % n) 0 0 xs (omega arith) (omega arith))
  ]
