-- ===== src/Chunks/Related.antt =====
-- Two jobs of the driver of src/core/mc_chunking.h whose chunks and reductions correspond.
use xia_pl.Base.{
  ℕ, zero, suc, ◌+◌, ◌≡◌, refl, ap, sym, ◌∙◌, List, [], ◌∷◌, ◌++◌, length, length-append,
  length-replicate, set, replicate, arith,
}
use xia_pl.Base.Errors.{Result, ok}
use xia_pl.Rng.{FastRng}
use xia_pl.Chunks.{run_chunks_serial, chunk_count}
use xia_pl.Chunks.Driver.{chunk_body, reduce_all, serial_outcome}

set-append {ℓ} :
    {A : Type ℓ} (xs : List A) (y a : A) (ys : List A)
    → set (xs ++ y ∷ ys) (length xs) a ≡ (xs ++ a ∷ []) ++ ys
set-append [] y a ys = refl
set-append (x ∷ xs) y a ys = ap (◌∷◌ x) (set-append xs y a ys)

module _ {C D : Type 0} (R : C → D → Type 0) where
  pub data Pairwise : List C → List D → Type 0 where
    nil : Pairwise [] []
    cons :
        {c : C} {d : D} {cs : List C} {ds : List D}
        → R c d
        → Pairwise cs ds
        → Pairwise (c ∷ cs) (d ∷ ds)

  Pairwise-append_one :
      {c : C} {d : D} {cs : List C} {ds : List D}
      → Pairwise cs ds
      → R c d
      → Pairwise (cs ++ c ∷ []) (ds ++ d ∷ [])
  Pairwise-append_one nil r = cons r nil
  Pairwise-append_one (cons q p) r = cons q (Pairwise-append_one p r)

  Pairwise-append_nil :
      {cs : List C} {ds : List D} → Pairwise cs ds → Pairwise (cs ++ []) (ds ++ [])
  Pairwise-append_nil nil = nil
  Pairwise-append_nil (cons q p) = cons q (Pairwise-append_nil p)

  -- Both return, with values that correspond.
  pub record Both (r : Result C) (q : Result D) : Type 0 where
    pub left : C
    pub right : D
    pub left_ok : r ≡ ok left
    pub right_ok : q ≡ ok right
    pub related : R left right

  module _ (unfilled : C) (unfilled' : D) (n : ℕ) (f : ℕ → Result C) (g : ℕ → Result D)
      (both : (k : ℕ) → Both (f k) (g k)) where
    serial-Pairwise :
        (left k : ℕ) (cs rest : List C) (ds rest' : List D)
        → length cs ≡ k
        → length ds ≡ k
        → length rest ≡ left
        → length rest' ≡ left
        → Pairwise cs ds
        → (xs : List C) × (ys : List D) × (run_chunks_serial unfilled n f left k (cs ++ rest)
            ≡ ok xs)
          × (run_chunks_serial unfilled' n g left k (ds ++ rest') ≡ ok ys)
          × Pairwise xs ys
    unfolding run_chunks_serial
    serial-Pairwise zero k cs [] ds [] a b p q r =
        (cs ++ [], ds ++ [], refl, refl, Pairwise-append_nil r)
    serial-Pairwise zero k cs (x ∷ xs) ds rest' a b p q r = absurd (omega arith)
    serial-Pairwise zero k cs [] ds (y ∷ ys) a b p q r = absurd (omega arith)
    serial-Pairwise (suc left) k cs [] ds rest' a b p q r = absurd (omega arith)
    serial-Pairwise (suc left) k cs (x ∷ xs) ds [] a b p q r = absurd (omega arith)
    serial-Pairwise (suc left) k cs (x ∷ xs) ds (y ∷ ys) a b p q r =
        let o = both k in
        let more =
          serial-Pairwise left (k + 1) (cs ++ o.left ∷ []) xs (ds ++ o.right ∷ []) ys
            (omega (arith, length-append cs (o.left ∷ [])))
            (omega (arith, length-append ds (o.right ∷ []))) (omega arith) (omega arith)
            (Pairwise-append_one r o.related) in
        let e : set (cs ++ x ∷ xs) k o.left ≡ (cs ++ o.left ∷ []) ++ xs =
          ap (λ j. set (cs ++ x ∷ xs) j o.left) (sym a) ∙ set-append cs x o.left xs in
        let e' : set (ds ++ y ∷ ys) k o.right ≡ (ds ++ o.right ∷ []) ++ ys =
          ap (λ j. set (ds ++ y ∷ ys) j o.right) (sym b) ∙ set-append ds y o.right ys in
        rw (o.left_ok, o.right_ok, e, e') more

  module _ {A B : Type 0} (S : A → B → Type 0) (unfilled : C) (unfilled' : D)
      (run_chunk : ℕ → FastRng → Result C) (run_chunk' : ℕ → FastRng → Result D)
      (reduce : A → C → A) (reduce' : B → D → B) (begin : A) (begin' : B)
      (total_trials master_seed : ℕ)
      (step : (a : A) (b : B) (c : C) (d : D) → S a b → R c d → S (reduce a c) (reduce' b d)) where
    reduce_all-related :
        (a : A) (b : B) (cs : List C) (ds : List D)
        → S a b
        → Pairwise cs ds
        → S
            (reduce_all unfilled run_chunk reduce begin total_trials master_seed a cs)
            (reduce_all unfilled' run_chunk' reduce' begin' total_trials master_seed b ds)
    unfolding reduce_all
    reduce_all-related a b cs ds h nil = h
    reduce_all-related a b (c ∷ cs) (d ∷ ds) h (cons r p) =
        reduce_all-related (reduce a c) (reduce' b d) cs ds (step a b c d h r) p

    -- Chunks that return values that correspond make runs that return values that correspond.
    pub serial_outcome-related :
        ((trials : ℕ) (rng : FastRng) → Both (run_chunk trials rng) (run_chunk' trials rng))
        → S begin begin'
        → (a : A) × (b : B) × (serial_outcome unfilled run_chunk reduce begin total_trials
              master_seed
            ≡ ok a)
          × (serial_outcome unfilled' run_chunk' reduce' begin' total_trials master_seed ≡ ok b)
          × S a b
    serial_outcome-related both h =
        let n : ℕ = chunk_count total_trials in
        let (xs, ys, e, e', p) =
          serial-Pairwise unfilled unfilled' n
            (chunk_body unfilled run_chunk reduce begin total_trials master_seed)
            (chunk_body unfilled' run_chunk' reduce' begin' total_trials master_seed)
            (λ k. both _ _) n 0 [] (replicate n unfilled) [] (replicate n unfilled') refl refl
            (length-replicate n unfilled) (length-replicate n unfilled') nil in
        (_, _, rw e refl, rw e' refl, reduce_all-related begin begin' xs ys h p)
