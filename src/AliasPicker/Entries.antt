-- ===== src/AliasPicker/Entries.antt =====
-- The table that the constructor of src/core/alias_picker.h builds: its loops end, the two stacks stay
-- apart, and every entry holds masks of the list.
use xia_pl.Base.{
  ℕ, zero, suc, ◌+◌, ◌-◌, ◌≤◌, ◌<◌, ◌≡◌, refl, ap, ◌∙◌, true, false, ◌&&◌, ltb, some, List, [], ◌∷◌,
  ◌++◌, map, length, length-set, length-append, length-replicate, get_or, set, replicate, arith,
  All, All-append, Bool-cases, inl, inr,
}
use xia_pl.Base.Sets.{contains}
use xia_pl.Weights.{Weights}
use xia_pl.AliasPicker.{
  Scaling, Entry, Pairing, fill_stacks, pair_step, pair_loop, start, build_entries, no_entry,
  scaled_at,
}

All-set {ℓ κ} :
    {A : Type ℓ} (P : A → Type κ) (xs : List A) (i : ℕ) (v : A)
    → P v
    → All P xs
    → All P (set xs i v)
All-set P [] i v p a = tt
All-set P (x ∷ xs) zero v p a = (p, a.1)
All-set P (x ∷ xs) (suc i) v p a = (a.0, All-set P xs i v p a.1)

pub All-get_or {ℓ κ} :
    {A : Type ℓ} (P : A → Type κ) (xs : List A) (i : ℕ) (d : A)
    → i < length xs
    → All P xs
    → P (get_or xs i d)
All-get_or P [] i d h a = absurd (omega arith)
All-get_or P (x ∷ xs) zero d h a = a.0
All-get_or P (x ∷ xs) (suc i) d h a = All-get_or P xs i d (omega arith) a.1

All-replicate_zero : (n m : ℕ) → 0 < m → All (λ i. i < m) (replicate n 0)
All-replicate_zero zero m h = tt
All-replicate_zero (suc n) m h = (h, All-replicate_zero n m h)

pub contains-get_or : (xs : List ℕ) (i d : ℕ) → i < length xs → contains (get_or xs i d) xs ≡ true
unfolding contains
contains-get_or [] i d h = absurd (omega arith)
contains-get_or (x ∷ xs) zero d h = ground arith
contains-get_or (x ∷ xs) (suc i) d h = ground (arith, contains-get_or xs i d)

All-contains :
    (ms more : List ℕ)
    → ((x : ℕ) → contains x ms ≡ true → contains x more ≡ true)
    → All (λ m. contains m more ≡ true) ms
unfolding contains
All-contains [] more f = tt
All-contains (m ∷ ms) more f =
    (f m (ground arith), All-contains ms more (λ x h. f x (ground arith)))

All-contains_self : (ms : List ℕ) → All (λ m. contains m ms ≡ true) ms
All-contains_self ms = All-contains ms ms (λ x h. h)

length-map {ℓ κ} :
    {A : Type ℓ} {B : Type κ} (f : A → B) (xs : List A) → length (map f xs) ≡ length xs
length-map f [] = refl
length-map f (x ∷ xs) = ap suc (length-map f xs)

module _ {ℓ} {W : Type ℓ} ⦃w : Weights W⦄ ⦃s : Scaling W⦄ (masks : List ℕ) where
  -- Both masks of an entry are of the list.
  abbrev pub OfMasks : Entry W → Type 0
  OfMasks e = (contains e.mask masks ≡ true) × (contains e.alias_mask masks ≡ true)

  own_masks :
      (p : W) (ms : List ℕ)
      → All (λ m. contains m masks ≡ true) ms
      → All OfMasks (map (λ m. record { prob = p; mask = m; alias_mask = m }) ms)
  own_masks p [] a = tt
  own_masks p (m ∷ ms) a = ((a.0, a.0), own_masks p ms a.1)

  -- What the loops keep: `held` indices are on the stacks, which do not reach into each other.
  record IsPairing (held : ℕ) (st : Pairing W) : Type 0 where
    count : st.small_top + (length masks - st.large_bot) ≡ held
    most : held ≤ length masks
    bot : st.large_bot ≤ length masks
    slots : length st.work ≡ length masks
    indices : All (λ i. i < length masks) st.work
    size : length st.entries ≡ length masks
    kept : All OfMasks st.entries

  fill_stacks-IsPairing :
      (left i : ℕ) (st : Pairing W)
      → i + left ≡ length masks
      → IsPairing i st
      → IsPairing (length masks) (fill_stacks left i st)
  unfolding fill_stacks
  fill_stacks-IsPairing zero i st e v = let h : i ≡ length masks = omega arith in rw h at v
  fill_stacks-IsPairing (suc left) i st e v = elim (Bool-cases (w.lt (scaled_at st i) w.unit)) [
    | inl p ↦ rw p (
        fill_stacks-IsPairing left (i + 1) _ (omega arith) (record {
          count = omega (arith, v.count);
          most = omega arith;
          bot = v.bot;
          slots = length-set st.work st.small_top i ∙ v.slots;
          indices = All-set _ st.work st.small_top i (omega arith) v.indices;
          size = v.size;
          kept = v.kept;
        }))
    | inr p ↦ rw p (
        fill_stacks-IsPairing left (i + 1) _ (omega arith) (record {
          count = omega (arith, v.count, v.bot);
          most = omega arith;
          bot = omega (arith, v.bot);
          slots = length-set st.work (st.large_bot - 1) i ∙ v.slots;
          indices = All-set _ st.work (st.large_bot - 1) i (omega arith) v.indices;
          size = v.size;
          kept = v.kept;
        }))
  ]

  -- A round of the pairing loop takes one index off the stacks for good.
  pair_step-IsPairing :
      (held : ℕ) (st : Pairing W)
      → 0 < st.small_top
      → st.large_bot < length masks
      → IsPairing held st
      → IsPairing (held - 1) (pair_step masks st)
  unfolding pair_step
  pair_step-IsPairing held st more room v =
      let i : ℕ = get_or st.work (st.small_top - 1) 0 in
      let l : ℕ = get_or st.work st.large_bot 0 in
      let i_small : i < length masks =
        All-get_or (λ i. i < length masks) st.work (st.small_top - 1) 0
          (omega (arith, v.slots, v.count, v.most)) v.indices in
      let l_small : l < length masks =
        All-get_or (λ i. i < length masks) st.work st.large_bot 0 (omega (arith, v.slots))
          v.indices in
      let old = All-get_or OfMasks st.entries i no_entry (omega (arith, v.size, i_small)) v.kept in
      let keep : (e : Entry W) → OfMasks e → All OfMasks (set st.entries i e) =
        λ e o. All-set OfMasks st.entries i e o v.kept in
      elim (Bool-cases (w.lt (w.minus (w.plus (scaled_at st l) (scaled_at st i)) w.unit) w.unit)) [
        | inl p ↦ rw p (record {
          count = omega (arith, v.count);
          most = omega (arith, v.most);
          bot = omega arith;
          slots = length-set st.work (st.small_top - 1) l ∙ v.slots;
          indices = All-set _ st.work (st.small_top - 1) l l_small v.indices;
          size = length-set st.entries i _ ∙ v.size;
          kept = keep _ (old.0, contains-get_or masks l 0 l_small);
        })
        | inr p ↦ rw p (record {
          count = omega (arith, v.count);
          most = omega (arith, v.most);
          bot = v.bot;
          slots = v.slots;
          indices = v.indices;
          size = length-set st.entries i _ ∙ v.size;
          kept = keep _ (old.0, contains-get_or masks l 0 l_small);
        })
      ]

  -- The pairing loop ends: fuel for the indices on the stacks is enough.
  pair_loop-IsPairing :
      (fuel held : ℕ) (st : Pairing W)
      → held ≤ fuel
      → IsPairing held st
      → (end : Pairing W) × (k : ℕ) × (pair_loop fuel masks (length masks) st ≡ some end)
        × IsPairing k end
  unfolding pair_loop
  pair_loop-IsPairing zero held st h v =
      let stop : (ltb 0 st.small_top && ltb st.large_bot (length masks)) ≡ false =
        ground (arith, v.count, h) in
      rw stop (st, held, refl, v)
  pair_loop-IsPairing (suc fuel) held st h v =
      elim (Bool-cases (ltb 0 st.small_top && ltb st.large_bot (length masks))) [
        | inr stop ↦ rw stop (st, held, refl, v)
        | inl more ↦
            let small : 0 < st.small_top = ground arith in
            let room : st.large_bot < length masks = ground arith in
            rw more (
              pair_loop-IsPairing fuel (held - 1) (pair_step masks st) (omega arith)
                (pair_step-IsPairing held st small room v))
      ]

  start-IsPairing :
      (weights : List W) → 0 < length masks → IsPairing 0 (start masks weights (length masks))
  unfolding start
  start-IsPairing weights more = record {
    count = omega arith;
    most = omega arith;
    bot = omega arith;
    slots = length-replicate (length masks) 0;
    indices = All-replicate_zero (length masks) (length masks) more;
    size = length-map _ masks;
    kept = own_masks w.unit masks (All-contains_self masks);
  }

  -- With fuel for every mask the table is built. It has an entry for each mask and the sentinel, and
  -- each of them holds masks of the list.
  pub build_entries_lem :
      (fuel : ℕ) (weights : List W)
      → 0 < length masks
      → length masks ≤ fuel
      → (es : List (Entry W)) × (build_entries fuel masks weights (length masks) ≡ some es)
        × (length es ≡ length masks + 1)
        × All OfMasks es
  unfolding build_entries
  build_entries_lem fuel weights more enough =
      let (end, k, e, v) =
        pair_loop-IsPairing fuel (length masks) _ enough
          (fill_stacks-IsPairing (length masks) 0 _ (omega arith) (start-IsPairing weights more)) in
      let last =
        All-get_or OfMasks end.entries (length masks - 1) no_entry (omega (arith, v.size)) v.kept in
      (
        end.entries ++ get_or end.entries (length masks - 1) no_entry ∷ [],
        rw (e, build_entries) refl,
        omega (
          arith,
          length-append end.entries (get_or end.entries (length masks - 1) no_entry ∷ []),
          v.size,
        ),
        All-append OfMasks end.entries _ v.kept (last, tt),
      )
