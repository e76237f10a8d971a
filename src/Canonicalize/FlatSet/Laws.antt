-- ===== src/Canonicalize/FlatSet/Laws.antt =====
-- FlatU64Set of src/core/canonicalize.cpp is a set: what insert does to it, in the terms of its keys.
use xia_pl.Base.{
  ℕ, zero, suc, ◌+◌, ◌-◌, ◌*◌, ◌%◌, ◌^◌, ◌≤◌, ◌<◌, bit_and, ◌≡◌, ◌≢◌, refl, sym, ap, subst, ◌∙◌,
  true, ◌||◌, ◌==◌, ltb, some, List, [], length, length-set, length-replicate, get_or, set,
  replicate, max, arith, Bool-cases, inl, inr,
}
use native.Mathlib.Nat.{mod-eq_of_lt, mod-lt, one-le-pow, pow-suc, pow-le-pow_right}
use xia_pl.Base.Bits.{bit_and_low-eq-mod}
use xia_pl.Base.Sets.{contains, Distinct}
use xia_pl.Canonicalize.FlatSet.{
  FlatU64Set, mix, insert_from, insert, keys, for_each, size, round_up, new_set,
}
use xia_pl.Canonicalize.FlatSet.Slots.{
  get_or-set_self, get_or-set_ne, get_or-past, contains-keys-set, length-keys-set,
  contains-keys-slot, empty_slot, OncePer, Distinct-keys, slot, slot-next, slot-reaches, slot-lt,
  slot-zero, get_or-zeros, keys-zeros,
}

home : ℕ → ℕ → ℕ
home k key = bit_and (mix key) (2 ^ k - 1)

-- The key m, which stands in slot p, is met there when it is looked for from its home.
abbrev Probed : ℕ → List ℕ → ℕ → ℕ → Type 0
Probed k t m p =
    (i : ℕ) × (i < 2 ^ k)
    × (slot (2 ^ k) (home k m) i ≡ p)
    × ((j : ℕ) → j < i → get_or t (slot (2 ^ k) (home k m) j) 0 ≢ 0)

-- A set with 2 ^ k slots. Between the home of a key and its slot no slot is empty.
pub record IsKeySet (k : ℕ) (s : FlatU64Set) : Type 0 where
  slots : length s.table ≡ 2 ^ k
  masked : s.mask ≡ 2 ^ k - 1
  once : OncePer s.table
  counted : s.count ≡ length (keys s.table)
  probed : (p : ℕ) → p < 2 ^ k → get_or s.table p 0 ≢ 0 → Probed k s.table (get_or s.table p 0) p

-- What inserting a key does.
pub record Inserted (k : ℕ) (s : FlatU64Set) (key : ℕ) (s' : FlatU64Set) : Type 0 where
  set' : IsKeySet k s'
  same_keys : (m : ℕ) → contains m (keys s'.table) ≡ (m == key || contains m (keys s.table))
  grows : length (keys s'.table) ≤ length (keys s.table) + 1

module _ (k : ℕ) (s : FlatU64Set) (v : IsKeySet k s) (key : ℕ) (n : key ≢ 0) where
  found_Inserted : (p : ℕ) → get_or s.table p 0 ≡ key → Inserted k s key s
  found_Inserted p e = record {
    set' = v;
    same_keys = λ m.
        let here : contains key (keys s.table) ≡ true =
          ap (λ z. contains z (keys s.table)) (sym e)
          ∙ contains-keys-slot s.table p (λ z. n (sym e ∙ z)) in
        elim (Bool-cases (m == key)) [
          | inl f ↦
              let same : m ≡ key = ground arith in
              ap (λ z. contains z (keys s.table)) same ∙ here ∙ rw f refl
          | inr f ↦ rw f refl
        ];
    grows = omega arith;
  }

  -- A free slot on the way to a key, and no sign of the key before it, mean that the key is not there.
  absent :
      (i : ℕ)
      → get_or s.table (slot (2 ^ k) (home k key) i) 0 ≡ 0
      → ((j : ℕ) → j < i → get_or s.table (slot (2 ^ k) (home k key) j) 0 ≢ key)
      → (q : ℕ) → get_or s.table q 0 ≢ key
  absent i e path q f = elim (Bool-cases (ltb q (2 ^ k))) [
    | inr far ↦ n (sym f ∙ get_or-past s.table q (let l = v.slots in ground arith))
    | inl near ↦
        let (i', l, at, before) =
          subst (λ m. Probed k s.table m q) f (v.probed q (ground arith) (λ z. n (sym f ∙ z))) in
        let there : get_or s.table (slot (2 ^ k) (home k key) i') 0 ≡ key =
          ap (λ z. get_or s.table z 0) at ∙ f in
        elim (Bool-cases (ltb i' i)) [
          | inl less ↦ path i' (ground arith) there
          | inr more ↦ elim (Bool-cases (i' == i)) [
            | inl same ↦
                let e' : i' ≡ i = ground arith in
                n (sym there ∙ ap (λ z. get_or s.table (slot (2 ^ k) (home k key) z) 0) e' ∙ e)
            | inr other ↦ before i (ground arith) e
          ]
        ]
  ]

  module _ (p : ℕ) (lt : p < length s.table) where
    still_taken : (z : ℕ) → get_or s.table z 0 ≢ 0 → get_or (set s.table p key) z 0 ≢ 0
    still_taken z taken e = elim (Bool-cases (p == z)) [
      | inl f ↦
          let same : p ≡ z = ground arith in
          n (
            sym (get_or-set_self s.table p key lt)
            ∙ ap (λ x. get_or (set s.table p key) x 0) same
            ∙ e)
      | inr f ↦
          let other : p ≢ z = ground arith in taken (sym (get_or-set_ne s.table p z key other) ∙ e)
    ]

    once_more : ((q : ℕ) → get_or s.table q 0 ≢ key) → OncePer (set s.table p key)
    unfolding OncePer
    once_more none_there a b taken e = elim (Bool-cases (p == a)) [
      | inl f ↦
          let same : p ≡ a = ground arith in
          let mine : get_or (set s.table p key) a 0 ≡ key =
            ap (λ x. get_or (set s.table p key) x 0) (sym same)
            ∙ get_or-set_self s.table p key lt in
          elim (Bool-cases (p == b)) [
            | inl g ↦ ground arith
            | inr g ↦
                let other : p ≢ b = ground arith in
                absurd (none_there b (sym (get_or-set_ne s.table p b key other) ∙ sym e ∙ mine))
          ]
      | inr f ↦
          let other : p ≢ a = ground arith in
          let his : get_or (set s.table p key) a 0 ≡ get_or s.table a 0 =
            get_or-set_ne s.table p a key other in
          elim (Bool-cases (p == b)) [
            | inl g ↦
                let same : p ≡ b = ground arith in
                absurd (
                  none_there a (
                    sym his
                    ∙ e
                    ∙ ap (λ x. get_or (set s.table p key) x 0) (sym same)
                    ∙ get_or-set_self s.table p key lt))
            | inr g ↦
                let other' : p ≢ b = ground arith in
                v.once a b (λ z. taken (his ∙ z))
                  (sym his ∙ e ∙ get_or-set_ne s.table p b key other')
          ]
    ]

    all_met :
        Probed k s.table key p
        → (q : ℕ) → q < 2 ^ k
        → get_or (set s.table p key) q 0 ≢ 0
        → Probed k (set s.table p key) (get_or (set s.table p key) q 0) q
    all_met new q l taken = elim (Bool-cases (p == q)) [
      | inl f ↦
          let same : p ≡ q = ground arith in
          let mine : key ≡ get_or (set s.table p key) q 0 =
            sym (get_or-set_self s.table p key lt)
            ∙ ap (λ x. get_or (set s.table p key) x 0) same in
          let (i, a, b, c) = new in
          subst (λ m. Probed k (set s.table p key) m q) mine
            (i, a, b ∙ same, λ j d. still_taken _ (c j d))
      | inr f ↦
          let other : p ≢ q = ground arith in
          let his : get_or s.table q 0 ≡ get_or (set s.table p key) q 0 =
            sym (get_or-set_ne s.table p q key other) in
          let (i, a, b, c) = v.probed q l (λ z. taken (sym his ∙ z)) in
          subst (λ m. Probed k (set s.table p key) m q) his (i, a, b, λ j d. still_taken _ (c j d))
    ]

  -- the set with the key in the empty slot of round i
  written_Inserted :
      (i : ℕ)
      → i < 2 ^ k
      → home k key < 2 ^ k
      → get_or s.table (slot (2 ^ k) (home k key) i) 0 ≡ 0
      → ((j : ℕ)
          → j < i
          → (get_or s.table (slot (2 ^ k) (home k key) j) 0 ≢ 0)
            × (get_or s.table (slot (2 ^ k) (home k key) j) 0 ≢ key))
      → Inserted k s key (record {
        table = set s.table (slot (2 ^ k) (home k key) i) key;
        mask = s.mask;
        count = s.count + 1;
      })
  written_Inserted i h hm e path =
      let p : ℕ = slot (2 ^ k) (home k key) i in
      let lt : p < 2 ^ k = slot-lt (2 ^ k) (home k key) i hm (omega arith) in
      let lt' : p < length s.table = omega (arith, v.slots) in
      record {
        set' = record {
          slots = length-set s.table p key ∙ v.slots;
          masked = v.masked;
          once = once_more p lt' (absent i e (λ j l. (path j l).1));
          counted = omega (arith, v.counted, length-keys-set s.table p key lt' e n);
          probed = all_met p lt' (i, h, refl, λ j l. (path j l).0);
        };
        same_keys = λ m. contains-keys-set s.table p key m lt' e n;
        grows = omega (arith, length-keys-set s.table p key lt' e n);
      }

  path_on :
      (i : ℕ)
      → ((j : ℕ)
          → j < i
          → (get_or s.table (slot (2 ^ k) (home k key) j) 0 ≢ 0)
            × (get_or s.table (slot (2 ^ k) (home k key) j) 0 ≢ key))
      → get_or s.table (slot (2 ^ k) (home k key) i) 0 ≢ 0
      → get_or s.table (slot (2 ^ k) (home k key) i) 0 ≢ key
      → (j : ℕ) → j < i + 1
      → (get_or s.table (slot (2 ^ k) (home k key) j) 0 ≢ 0)
        × (get_or s.table (slot (2 ^ k) (home k key) j) 0 ≢ key)
  path_on i path a b j l = elim (Bool-cases (ltb j i)) [
    | inl f ↦ path j (ground arith)
    | inr f ↦
        let same : i ≡ j = ground arith in
        subst
          (λ z.
            (get_or s.table (slot (2 ^ k) (home k key) z) 0 ≢ 0)
            × (get_or s.table (slot (2 ^ k) (home k key) z) 0 ≢ key))
          same (a, b)
  ]

  insert_from-Inserted :
      (left i : ℕ)
      → i + left ≡ 2 ^ k
      → home k key < 2 ^ k
      → length (keys s.table) < 2 ^ k
      → ((j : ℕ)
          → j < i
          → (get_or s.table (slot (2 ^ k) (home k key) j) 0 ≢ 0)
            × (get_or s.table (slot (2 ^ k) (home k key) j) 0 ≢ key))
      → (s' : FlatU64Set) × (insert_from left s key (slot (2 ^ k) (home k key) i) ≡ some s')
        × Inserted k s key s'
  unfolding insert_from
  insert_from-Inserted zero i sum hm room path =
      let (p, l, e) = empty_slot s.table (omega (arith, v.slots)) in
      let (j, jl, at) = slot-reaches (2 ^ k) (home k key) p hm (omega (arith, v.slots)) in
      absurd ((path j (omega arith)).0 (ap (λ z. get_or s.table z 0) at ∙ e))
  insert_from-Inserted (suc left) i sum hm room path =
      let p : ℕ = slot (2 ^ k) (home k key) i in
      let il : i < 2 ^ k = omega arith in
      elim (Bool-cases (get_or s.table p 0 == 0)) [
        | inl z ↦ rw (insert_from, z) (_, refl, written_Inserted i il hm (ground arith) path)
        | inr z ↦ elim (Bool-cases (get_or s.table p 0 == key)) [
          | inl f ↦ rw (insert_from, z, f) (s, refl, found_Inserted p (ground arith))
          | inr f ↦
              let step : bit_and (p + 1) s.mask ≡ slot (2 ^ k) (home k key) (i + 1) =
                ap (bit_and (p + 1)) v.masked ∙ slot-next k (home k key) i hm il in
              rw (insert_from, z, f, step)
                (insert_from-Inserted left (i + 1) (omega arith) hm room
                  (path_on i path (ground arith) (ground arith)))
        ]
      ]

home-lt : (k key : ℕ) → home k key < 2 ^ k
unfolding home
home-lt k key =
    rw (bit_and_low-eq-mod k (mix key)) (mod-lt (mix key) (one-le-pow k 2 (omega arith)))

-- Inserting a key other than 0 into a set that is not full ends within a round for each slot, and then the
-- set calls for_each for the keys that it had and the key, each once, and counts them.
pub insert_lem :
    (k : ℕ) (s : FlatU64Set) (key : ℕ)
    → IsKeySet k s
    → key ≢ 0
    → size s < 2 ^ k
    → (s' : FlatU64Set) × (insert s key ≡ some s')
      × IsKeySet k s'
      × ((m : ℕ) → contains m (for_each s') ≡ (m == key || contains m (for_each s)))
      × Distinct (for_each s')
      × (size s' ≡ length (for_each s'))
unfolding insert for_each size home slot
insert_lem k s key v n room =
    let start : bit_and (mix key) s.mask ≡ slot (2 ^ k) (home k key) 0 =
      ap (bit_and (mix key)) v.masked ∙ slot-zero (2 ^ k) (home k key) (home-lt k key) in
    let (s', e, i) =
      insert_from-Inserted k s v key n (2 ^ k) 0 (omega arith) (home-lt k key)
        (omega (arith, v.counted)) (λ j l. absurd (omega arith)) in
    (
      s',
      rw (v.slots, start) e,
      i.set',
      i.same_keys,
      Distinct-keys s'.table i.set'.once,
      i.set'.counted,
    )

pub empty-IsKeySet :
    (k : ℕ) → IsKeySet k (record { table = replicate (2 ^ k) 0; mask = 2 ^ k - 1; count = 0 })
unfolding OncePer
empty-IsKeySet k = record {
  slots = length-replicate (2 ^ k) 0;
  masked = refl;
  once = λ p q taken e. absurd (taken (get_or-zeros (2 ^ k) p));
  counted = sym (ap length (keys-zeros (2 ^ k)));
  probed = λ p l taken. absurd (taken (get_or-zeros (2 ^ k) p));
}

round_up_lem :
    (left j target : ℕ)
    → j + left ≡ 64
    → j ≤ 63
    → target ≤ 2 ^ 63
    → (k : ℕ) × (round_up left (2 ^ j) target ≡ some (2 ^ k)) × (target ≤ 2 ^ k)
unfolding round_up
round_up_lem zero j target sum jl tl = absurd (omega arith)
round_up_lem (suc left) j target sum jl tl = elim (Bool-cases (ltb (2 ^ j) target)) [
  | inr enough ↦ rw (round_up, enough) (j, refl, ground arith)
  | inl more ↦ elim (Bool-cases (j == 63)) [
    | inl top ↦ absurd (let e : j ≡ 63 = ground arith in let l = rw e at more in ground arith)
    | inr below ↦
        let small : j + 1 ≤ 63 = ground arith in
        let word : 2 ^ (j + 1) ≤ 2 ^ 63 =
          pow-le-pow_right (omega arith) {i = j + 1} {j = 63} small in
        let twice : 2 ^ j * 2 % 2 ^ 64 ≡ 2 ^ (j + 1) =
          ap (λ z. z % 2 ^ 64) (let e : 2 ^ j * 2 ≡ 2 ^ (j + 1) = grind (arith, pow-suc 2 j) in e)
          ∙ mod-eq_of_lt (omega arith) in
        rw (round_up, more, twice) (round_up_lem left (j + 1) target (omega arith) small tl)
  ]
]

-- For up to 2 ^ 62 expected keys the constructor ends, with an empty set that has at least two slots for
-- each of them.
pub new_set_lem :
    (expected : ℕ)
    → expected ≤ 2 ^ 62
    → (k : ℕ) × (s : FlatU64Set) × (new_set expected ≡ some s)
      × IsKeySet k s
      × (expected * 2 ≤ 2 ^ k)
      × (for_each s ≡ [])
      × (size s ≡ 0)
unfolding new_set for_each size
new_set_lem expected h =
    let target : ℕ = max (expected * 2 % 2 ^ 64) 16 in
    let (k, e, l) = round_up_lem 64 0 target refl (omega arith) (omega arith) in
    (k, _, rw (new_set, e) refl, empty-IsKeySet k, omega arith, keys-zeros (2 ^ k), refl)
