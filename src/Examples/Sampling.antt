-- ===== src/Examples/Sampling.antt =====
-- The theorems on the alias sampler at concrete inputs.
use xia_pl.Base.{
  ℕ, ◌+◌, ◌-◌, ◌*◌, ◌/◌, ◌%◌, ◌^◌, ◌≤◌, ◌≡◌, ◌!=◌, refl, true, false, ltb, none, some, List, [],
  ◌∷◌, arith,
}
use xia_pl.Base.Errors.{ok}
use xia_pl.Base.Sets.{contains}
use xia_pl.Rng.{seed, next}
use xia_pl.Weights.{Weights}
use xia_pl.AliasPicker.{
  Scaling, AliasPicker, make_alias_picker, pick, build_entries, fill_stacks, pair_loop, start,
  scale_weights, max_weight, sum_weights, all_equal,
}
use xia_pl.AliasPicker.Draws.{IsPicker, make_alias_picker_lem, pick-contains}

-- Whole numbers are weights.
instance abbrev whole : Weights ℕ
whole = record {
  nought = 0;
  unit = 1;
  lt = ltb;
  minus = ◌-◌;
  plus = ◌+◌;
  is_finite = λ _. true;
  read = λ _. none;
}

instance abbrev whole_scaling : Scaling ℕ
whole_scaling = record {
  differ = ◌!=◌;
  divide = ◌/◌;
  times = ◌*◌;
  of_size = λ n. n;
  bucket = λ word n. (word % (n + 1), 0);
}

-- two hands, of which the second is three times as likely
abbrev hands : List ℕ
hands = (2 ^ 0 + 2 ^ 1) ∷ (2 ^ 2 + 2 ^ 3) ∷ []

abbrev sampler : AliasPicker ℕ
sampler = record {
  entries =
      record { prob = 0; mask = 2 ^ 0 + 2 ^ 1; alias_mask = 2 ^ 2 + 2 ^ 3 }
      ∷ record { prob = 1; mask = 2 ^ 2 + 2 ^ 3; alias_mask = 2 ^ 2 + 2 ^ 3 }
      ∷ record { prob = 1; mask = 2 ^ 2 + 2 ^ 3; alias_mask = 2 ^ 2 + 2 ^ 3 }
      ∷ [];
  uniform_masks = [];
  first_mask = 2 ^ 0 + 2 ^ 1;
  n = 2;
  uniform = false;
}

sampler-made : make_alias_picker 2 hands (1 ∷ 3 ∷ []) ≡ ok (some sampler)
unfolding make_alias_picker build_entries fill_stacks pair_loop start scale_weights max_weight
    sum_weights all_equal
sampler-made = refl

sampler-pick : pick 8 sampler (seed 1) ≡ some (2 ^ 2 + 2 ^ 3, (next (seed 1)).1)
unfolding pick seed next
sampler-pick = refl

make_alias_picker_lem_example :
    (p : AliasPicker ℕ) × (make_alias_picker 2 hands (1 ∷ 3 ∷ []) ≡ ok (some p)) × IsPicker hands p
make_alias_picker_lem_example =
    make_alias_picker_lem 2 hands (1 ∷ 3 ∷ []) (omega arith) (omega arith) (omega arith)

bucket-le : (word n : ℕ) → word % (n + 1) ≤ n
bucket-le word n = omega arith

pick-contains_example : contains (2 ^ 2 + 2 ^ 3) hands ≡ true
pick-contains_example =
    pick-contains bucket-le 2 8 hands (1 ∷ 3 ∷ []) sampler (seed 1) (next (seed 1)).1
      (2 ^ 2 + 2 ^ 3) (omega arith) (omega arith) (omega arith) sampler-made sampler-pick
