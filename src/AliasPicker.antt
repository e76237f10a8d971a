-- ===== src/AliasPicker.antt =====
-- src/core/alias_picker.h: class AliasPicker, over the weights of Weights and the operations of Scaling.
-- There are as many weights as masks.
pub mod Entries
pub mod Draws
use xia_pl.Base.{
  ℕ, zero, suc, ◌+◌, ◌-◌, ◌/◌, ◌%◌, ◌^◌, Bool, ◌&&◌, ◌==◌, ltb, if◌then◌else◌, Option, none, some,
  List, [], ◌∷◌, ◌++◌, map, length, get_or, set, replicate,
}
use xia_pl.Base.Errors.{Result, ok, err, invalid_argument, throw_if, ◌>>◌}
use xia_pl.Rng.{FastRng, next, bounded}
use xia_pl.Weights.{Weights}

-- What the sampler does with a `double` beyond Weights: !=, quotient, product, the conversion from a
-- size, and the bucket and the coin that a random word gives for n buckets.
pub record Scaling {ℓ} (W : Type ℓ) : Type ℓ where
  pub differ : W → W → Bool
  pub divide : W → W → W
  pub times : W → W → W
  pub of_size : ℕ → W
  pub bucket : ℕ → ℕ → ℕ × W

pub record Entry {ℓ} (W : Type ℓ) : Type ℓ where
  pub prob : W
  pub mask : ℕ
  pub alias_mask : ℕ

pub record AliasPicker {ℓ} (W : Type ℓ) : Type ℓ where
  pub entries : List (Entry W)
  pub uniform_masks : List ℕ
  pub first_mask : ℕ
  pub n : ℕ
  pub uniform : Bool

-- The locals of the constructor: the scaled weights, the table, and the array of the two stacks with
-- their ends.
pub record Pairing {ℓ} (W : Type ℓ) : Type ℓ where
  pub scaled : List W
  pub entries : List (Entry W)
  pub work : List ℕ
  pub small_top : ℕ
  pub large_bot : ℕ

-- a loop that starts at index 1
abbrev from_second {ℓ} : {A : Type ℓ} → List A → List A
from_second [] = []
from_second (x ∷ xs) = xs

pub is_single {ℓ} : {W : Type ℓ} → AliasPicker W → Bool
is_single p = p.n == 1

module _ {ℓ} {W : Type ℓ} ⦃w : Weights W⦄ ⦃s : Scaling W⦄ where
  unfoldable pub all_equal : W → List W → Bool
  all_equal first [] = Bool.true
  all_equal first (x ∷ xs) =
      let rest = all_equal first xs in if s.differ x first then Bool.false else rest

  unfoldable pub max_weight : W → List W → W
  max_weight max_w [] = max_w
  max_weight max_w (x ∷ xs) = max_weight (if w.lt max_w x then x else max_w) xs

  unfoldable pub sum_weights : W → List W → W
  sum_weights sum [] = sum
  sum_weights sum (x ∷ xs) = sum_weights (w.plus sum x) xs

  unfoldable pub scale_weights : W → List W → ℕ → List W
  scale_weights first weights n =
      let max_w = max_weight first (from_second weights) in
      let scaled = map (λ x. s.divide x max_w) weights in
      let scale = s.divide (s.of_size n) (sum_weights w.nought scaled) in
      map (λ x. s.times x scale) scaled

  abbrev pub scaled_at : Pairing W → ℕ → W
  scaled_at st i = get_or st.scaled i w.nought

  -- the loop that sorts the indices from `i` into the stacks
  unfoldable pub fill_stacks : ℕ → ℕ → Pairing W → Pairing W
  fill_stacks zero i st = st
  fill_stacks (suc left) i st = fill_stacks left (i + 1) (
      if w.lt (scaled_at st i) w.unit
      then record {
        scaled = st.scaled;
        entries = st.entries;
        work = set st.work st.small_top i;
        small_top = st.small_top + 1;
        large_bot = st.large_bot;
      }
      else record {
        scaled = st.scaled;
        entries = st.entries;
        work = set st.work (st.large_bot - 1) i;
        small_top = st.small_top;
        large_bot = st.large_bot - 1;
      })

  unfoldable pub no_entry : Entry W
  no_entry = record { prob = w.unit; mask = 0; alias_mask = 0 }

  -- the body of the pairing loop
  unfoldable pub pair_step : List ℕ → Pairing W → Pairing W
  pair_step masks st =
      let i = get_or st.work (st.small_top - 1) 0 in
      let l = get_or st.work st.large_bot 0 in
      let old = get_or st.entries i no_entry in
      let entry : Entry W = record {
        prob = scaled_at st i;
        mask = old.mask;
        alias_mask = get_or masks l 0;
      } in
      let entries = set st.entries i entry in
      let rest = w.minus (w.plus (scaled_at st l) (scaled_at st i)) w.unit in
      let scaled = set st.scaled l rest in
      if w.lt rest w.unit
      then record {
        scaled = scaled;
        entries = entries;
        work = set st.work (st.small_top - 1) l;
        small_top = st.small_top - 1 + 1;
        large_bot = st.large_bot + 1;
      }
      else record {
        scaled = scaled;
        entries = entries;
        work = st.work;
        small_top = st.small_top - 1;
        large_bot = st.large_bot;
      }

  -- the pairing loop; `none` when the fuel ran out
  unfoldable pub pair_loop : ℕ → List ℕ → ℕ → Pairing W → Option (Pairing W)
  unfolding pair_step
  pair_loop zero masks n st = if ltb 0 st.small_top && ltb st.large_bot n then none else some st
  pair_loop (suc fuel) masks n st =
      let rest = pair_loop fuel masks n (pair_step masks st) in
      if ltb 0 st.small_top && ltb st.large_bot n then rest else some st

  unfoldable pub start : List ℕ → List W → ℕ → Pairing W
  start masks weights n = record {
    scaled = scale_weights (get_or weights 0 w.nought) weights n;
    entries = map (λ m. record { prob = w.unit; mask = m; alias_mask = m }) masks;
    work = replicate n 0;
    small_top = 0;
    large_bot = n;
  }

  -- the table, with its sentinel
  unfoldable pub build_entries : ℕ → List ℕ → List W → ℕ → Option (List (Entry W))
  unfolding start
  build_entries fuel masks weights n =
      elim (pair_loop fuel masks n (fill_stacks n 0 (start masks weights n))) [
        | none ↦ none
        | some st ↦ some (st.entries ++ get_or st.entries (n - 1) no_entry ∷ [])
      ]

  -- AliasPicker(masks, weights, n)
  unfoldable pub make_alias_picker : ℕ → List ℕ → List W → Result (Option (AliasPicker W))
  make_alias_picker fuel masks weights =
      let n = length masks % 2 ^ 32 in
      let built = build_entries fuel masks weights n in
      throw_if (length masks == 0) (invalid_argument "AliasPicker: n must be >= 1")
      >> (if all_equal (get_or weights 0 w.nought) (from_second weights)
          then ok (
              some (record {
                entries = [];
                uniform_masks = masks;
                first_mask = get_or masks 0 0;
                n = n;
                uniform = Bool.true;
              }))
          else elim built [
            | none ↦ ok none
            | some es ↦ ok (
                some (record {
                  entries = es;
                  uniform_masks = [];
                  first_mask = get_or masks 0 0;
                  n = n;
                  uniform = Bool.false;
                }))
          ])

  -- pick(rng)
  unfoldable pub pick : ℕ → AliasPicker W → FastRng → Option (ℕ × FastRng)
  pick fuel p rng =
      if p.uniform
      then elim (bounded fuel p.n rng) [
        | none ↦ none
        | some (i, rng') ↦ some (get_or p.uniform_masks i 0, rng')
      ]
      else (let (word, rng') = next rng in
          let (i, frac) = s.bucket word p.n in
          let e = get_or p.entries i no_entry in
          some ((if w.lt frac e.prob then e.mask else e.alias_mask), rng'))
