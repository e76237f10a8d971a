-- ===== src/AliasPicker/Draws.antt =====
-- The constructor of src/core/alias_picker.h and what pick gives.
use xia_pl.Base.{
  ℕ, ◌+◌, ◌^◌, ◌%◌, ◌≤◌, ◌<◌, ◌≡◌, refl, ap, sym, subst, ◌∙◌, Bool, true, false, ◌==◌,
  if◌then◌else◌, Option, none, some, List, length, get_or, arith, All, Bool-cases, inl, inr, ◌⊎◌,
  Option-cases,
}
use xia_pl.Base.Errors.{ok, ok_inj}
use xia_pl.Base.Sets.{contains}
use xia_pl.Rng.{FastRng, next, bounded}
use xia_pl.Rng.Bounded.{bounded-lt}
use xia_pl.Weights.{Weights}
use xia_pl.AliasPicker.{
  Scaling, Entry, AliasPicker, all_equal, from_second, build_entries, make_alias_picker, pick,
  no_entry,
}
use xia_pl.AliasPicker.Entries.{OfMasks, build_entries_lem, All-get_or, contains-get_or}

module _ {ℓ} {W : Type ℓ} ⦃w : Weights W⦄ ⦃s : Scaling W⦄ where
  -- The sampler holds the masks as they are, or a table of them with its sentinel.
  abbrev pub IsPicker : List ℕ → AliasPicker W → Type 0
  IsPicker masks p =
      (p.n ≡ length masks)
      × (((p.uniform ≡ true) × (p.uniform_masks ≡ masks))
          ⊎ ((p.uniform ≡ false)
              × (length p.entries ≡ length masks + 1)
              × All (OfMasks masks) p.entries))

  -- For 1 to 2 ^ 32 - 1 masks the constructor ends, with fuel for each of them. The sampler then has
  -- the masks themselves, or one entry for each and the sentinel, with no other mask in it.
  pub make_alias_picker_lem :
      (fuel : ℕ) (masks : List ℕ) (weights : List W)
      → 0 < length masks
      → length masks < 2 ^ 32
      → length masks ≤ fuel
      → (p : AliasPicker W) × (make_alias_picker fuel masks weights ≡ ok (some p))
        × IsPicker masks p
  unfolding make_alias_picker
  make_alias_picker_lem fuel masks weights more few enough =
      let n : length masks % 2 ^ 32 ≡ length masks = omega arith in
      let some_mask : (length masks == 0) ≡ false = ground arith in
      let (es, e, size, kept) = build_entries_lem masks fuel weights more enough in
      elim (Bool-cases (all_equal (get_or weights 0 w.nought) (from_second weights))) [
        | inl flat ↦ rw (some_mask, flat) (_, refl, (n, inl (refl, refl)))
        | inr uneven ↦
            let built : build_entries fuel masks weights (length masks % 2 ^ 32) ≡ some es =
              ap (build_entries fuel masks weights) n ∙ e in
            rw (some_mask, uneven, built) (_, refl, (n, inr (refl, size, kept)))
      ]

  either_mask :
      (masks : List ℕ) (b : Bool) (e : Entry W)
      → OfMasks masks e
      → contains (if b then e.mask else e.alias_mask) masks ≡ true
  either_mask masks true e o = o.0
  either_mask masks false e o = o.1

  IsPicker-pick :
      (bound : (word n : ℕ) → (s.bucket word n).0 ≤ n) (draws : ℕ) (masks : List ℕ)
      (p : AliasPicker W) (rng rng' : FastRng) (m : ℕ)
      → 0 < length masks
      → length masks < 2 ^ 32
      → IsPicker masks p
      → pick draws p rng ≡ some (m, rng')
      → contains m masks ≡ true
  unfolding pick
  IsPicker-pick bound draws masks p rng rng' m more few (size, inl (flat, same)) h =
      elim (Option-cases (bounded draws p.n rng)) [
        | inl stuck ↦
            let g : ◌≡◌ {A = Option (ℕ × FastRng)} none (some (m, rng')) = rw (flat, stuck) at h in
            cc
        | inr ((i, r), drawn) ↦
            let g : ◌≡◌ {A = Option (ℕ × FastRng)} (some (get_or p.uniform_masks i 0, r))
                (some (m, rng')) =
              rw (flat, drawn) at h in
            let lt : i < p.n =
              bounded-lt draws p.n rng i r (omega (arith, size)) (omega (arith, size)) drawn in
            let e : get_or masks i 0 ≡ m = ap (λ l. get_or l i 0) (sym same) ∙ cc in
            ap (λ x. contains x masks) (sym e) ∙ contains-get_or masks i 0 (omega (arith, lt, size))
      ]
  IsPicker-pick bound draws masks p rng rng' m more few (size, inr (uneven, len, kept)) h =
      let (word, r) = next rng in
      let i : ℕ = (s.bucket word p.n).0 in
      let entry : Entry W = get_or p.entries i no_entry in
      let of_masks : OfMasks masks entry =
        All-get_or (OfMasks masks) p.entries i no_entry (omega (arith, bound word p.n, size, len))
          kept in
      let chosen : ℕ =
        if w.lt (s.bucket word p.n).1 entry.prob then entry.mask else entry.alias_mask in
      let g : ◌≡◌ {A = Option (ℕ × FastRng)} (some (chosen, r)) (some (m, rng')) = rw uneven at h in
      let e : chosen ≡ m = cc in
      ap (λ x. contains x masks) (sym e)
      ∙ either_mask masks (w.lt (s.bucket word p.n).1 entry.prob) entry of_masks

  -- Whatever hand a sampler made for 1 to 2 ^ 32 - 1 masks draws is one of them, where the bucket of a
  -- word is at most the number of masks. The sentinel stands there.
  pub pick-contains :
      (bound : (word n : ℕ) → (s.bucket word n).0 ≤ n) (fuel draws : ℕ) (masks : List ℕ)
      (weights : List W) (p : AliasPicker W) (rng rng' : FastRng) (m : ℕ)
      → 0 < length masks
      → length masks < 2 ^ 32
      → length masks ≤ fuel
      → make_alias_picker fuel masks weights ≡ ok (some p)
      → pick draws p rng ≡ some (m, rng')
      → contains m masks ≡ true
  pick-contains bound fuel draws masks weights p rng rng' m more few enough made h =
      let (q, e, v) = make_alias_picker_lem fuel masks weights more few enough in
      let same : q ≡ p =
        let o : ◌≡◌ {A = Option (AliasPicker W)} (some q) (some p) =
          ok_inj (some q) (some p) (sym e ∙ made) in
        cc in
      IsPicker-pick bound draws masks p rng rng' m more few (subst (IsPicker masks) same v) h
