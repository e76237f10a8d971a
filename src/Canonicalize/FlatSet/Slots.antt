-- ===== src/Canonicalize/FlatSet/Slots.antt =====
-- The slots of a table of FlatU64Set in src/core/canonicalize.cpp: reading, writing, and the order in
-- which they are probed.
use xia_pl.Base.{
  ℕ, zero, suc, ◌+◌, ◌-◌, ◌%◌, ◌^◌, ◌≤◌, ◌<◌, bit_and, ◌≡◌, ◌≢◌, refl, sym, ap, ◌∙◌, true, false,
  ◌||◌, ◌==◌, ltb, if◌then◌else◌, List, [], ◌∷◌, length, get_or, set, replicate, arith, Bool-cases,
  inl, inr,
}
use native.Mathlib.Nat.{mod-eq_of_lt, mod_self}
use xia_pl.Base.Bits.{bit_and_low-eq-mod}
use xia_pl.Base.Sets.{contains, Distinct}
use xia_pl.Canonicalize.FlatSet.{keys}

pub get_or-set_self : (t : List ℕ) (p v : ℕ) → p < length t → get_or (set t p v) p 0 ≡ v
get_or-set_self [] p v h = absurd (omega arith)
get_or-set_self (x ∷ t) zero v h = refl
get_or-set_self (x ∷ t) (suc p) v h = get_or-set_self t p v (omega arith)

pub get_or-set_ne : (t : List ℕ) (p q v : ℕ) → p ≢ q → get_or (set t p v) q 0 ≡ get_or t q 0
get_or-set_ne [] p q v h = refl
get_or-set_ne (x ∷ t) zero zero v h = absurd (h refl)
get_or-set_ne (x ∷ t) zero (suc q) v h = refl
get_or-set_ne (x ∷ t) (suc p) zero v h = refl
get_or-set_ne (x ∷ t) (suc p) (suc q) v h = get_or-set_ne t p q v (λ e. h (ap suc e))

pub get_or-past : (t : List ℕ) (p : ℕ) → length t ≤ p → get_or t p 0 ≡ 0
get_or-past [] p h = refl
get_or-past (x ∷ t) zero h = absurd (omega arith)
get_or-past (x ∷ t) (suc p) h = get_or-past t p (omega arith)

-- A key written to an empty slot is one key more.
pub contains-keys-set :
    (t : List ℕ) (p key m : ℕ)
    → p < length t
    → get_or t p 0 ≡ 0
    → key ≢ 0
    → contains m (keys (set t p key)) ≡ (m == key || contains m (keys t))
unfolding contains keys
contains-keys-set [] p key m h e n = absurd (omega arith)
contains-keys-set (x ∷ t) zero key m h e n =
    let some_key : (key == 0) ≡ false = ground arith in
    let empty : (x == 0) ≡ true = ground arith in rw (keys, some_key, empty) refl
contains-keys-set (x ∷ t) (suc p) key m h e n =
    let ih = contains-keys-set t p key m (omega arith) e n in
    elim (Bool-cases (x == 0)) [
      | inl z ↦ rw (keys, z) ih
      | inr z ↦ rw (keys, z) (ground (arith, ih))
    ]

pub length-keys-set :
    (t : List ℕ) (p key : ℕ)
    → p < length t
    → get_or t p 0 ≡ 0
    → key ≢ 0
    → length (keys (set t p key)) ≡ length (keys t) + 1
unfolding keys
length-keys-set [] p key h e n = absurd (omega arith)
length-keys-set (x ∷ t) zero key h e n =
    let some_key : (key == 0) ≡ false = ground arith in
    let empty : (x == 0) ≡ true = ground arith in rw (keys, some_key, empty) (omega arith)
length-keys-set (x ∷ t) (suc p) key h e n =
    let ih = length-keys-set t p key (omega arith) e n in
    elim (Bool-cases (x == 0)) [
      | inl z ↦ rw (keys, z) ih
      | inr z ↦ rw (keys, z) (omega (arith, ih))
    ]

-- A key that stands in a slot is found, and a key that is found stands in a slot.
pub contains-keys-slot :
    (t : List ℕ) (p : ℕ) → get_or t p 0 ≢ 0 → contains (get_or t p 0) (keys t) ≡ true
unfolding contains keys
contains-keys-slot [] p n = absurd (n refl)
contains-keys-slot (x ∷ t) zero n =
    let some_key : (x == 0) ≡ false = ground arith in rw (keys, some_key) (ground arith)
contains-keys-slot (x ∷ t) (suc p) n =
    let ih = contains-keys-slot t p n in
    elim (Bool-cases (x == 0)) [
      | inl z ↦ rw (keys, z) ih
      | inr z ↦ rw (keys, z) (ground (arith, ih))
    ]

pub slot-contains-keys :
    (t : List ℕ) (m : ℕ)
    → contains m (keys t) ≡ true
    → (p : ℕ) × (p < length t) × (get_or t p 0 ≡ m) × (m ≢ 0)
unfolding contains keys
slot-contains-keys [] m e = cc
slot-contains-keys (x ∷ t) m e = elim (Bool-cases (x == 0)) [
  | inl z ↦
      let (p, a, b, c) = slot-contains-keys t m (rw (keys, z) at e) in (suc p, omega arith, b, c)
  | inr z ↦ elim (Bool-cases (m == x)) [
    | inl f ↦ (0, omega arith, ground arith, ground arith)
    | inr f ↦
        let (p, a, b, c) = slot-contains-keys t m (rw f at (rw (keys, z) at e)) in
        (suc p, omega arith, b, c)
  ]
]

pub empty_slot :
    (t : List ℕ) → length (keys t) < length t → (p : ℕ) × (p < length t) × (get_or t p 0 ≡ 0)
unfolding keys
empty_slot [] h = absurd (omega arith)
empty_slot (x ∷ t) h = elim (Bool-cases (x == 0)) [
  | inl z ↦ (0, omega arith, ground arith)
  | inr z ↦
      let (p, a, b) = empty_slot t (let h' = rw (keys, z) at h in omega arith) in
      (suc p, omega arith, b)
]

-- No slot has the key of another.
unfoldable pub OncePer : List ℕ → Type 0
OncePer t = (p q : ℕ) → get_or t p 0 ≢ 0 → get_or t p 0 ≡ get_or t q 0 → p ≡ q

pub Distinct-keys : (t : List ℕ) → OncePer t → Distinct (keys t)
unfolding OncePer keys
Distinct-keys [] once = tt
Distinct-keys (x ∷ t) once =
    let rest = Distinct-keys t (λ p q n e. let s = once (suc p) (suc q) n e in omega arith) in
    elim (Bool-cases (x == 0)) [
      | inl z ↦ rw (keys, z) rest
      | inr z ↦
          rw (keys, z)
            (
              elim (Bool-cases (contains x (keys t))) [
                | inl f ↦
                    let (p, a, b, c) = slot-contains-keys t x f in
                    let s = once 0 (suc p) c (sym b) in absurd (omega arith)
                | inr f ↦ f
              ],
              rest,
            )
    ]

-- The slot that is probed at round i from slot h on, in a table of n slots.
unfoldable pub slot : ℕ → ℕ → ℕ → ℕ
slot n h i = if ltb (h + i) n then h + i else h + i - n

pub slot-next :
    (k h i : ℕ)
    → h < 2 ^ k
    → i < 2 ^ k
    → bit_and (slot (2 ^ k) h i + 1) (2 ^ k - 1) ≡ slot (2 ^ k) h (i + 1)
unfolding slot
slot-next k h i a b =
    let n : ℕ = 2 ^ k in
    let x : ℕ = slot n h i + 1 in
    bit_and_low-eq-mod k x ∙ elim (Bool-cases (x == n)) [
      | inl e ↦ let full : x ≡ n = ground arith in ap (λ z. z % n) full ∙ mod_self n ∙ ground arith
      | inr e ↦ let lt : x < n = ground arith in mod-eq_of_lt lt ∙ ground arith
    ]

pub slot-reaches : (n h p : ℕ) → h < n → p < n → (i : ℕ) × (i < n) × (slot n h i ≡ p)
unfolding slot
slot-reaches n h p a b = elim (Bool-cases (ltb p h)) [
  | inl e ↦ (p + n - h, ground arith, ground arith)
  | inr e ↦ (p - h, ground arith, ground arith)
]

pub slot-lt : (n h i : ℕ) → h < n → i ≤ n → slot n h i < n
unfolding slot
slot-lt n h i a b = ground arith

pub slot-zero : (n h : ℕ) → h < n → h ≡ slot n h 0
unfolding slot
slot-zero n h a = ground arith

pub get_or-zeros : (n p : ℕ) → get_or (replicate n 0) p 0 ≡ zero
get_or-zeros zero p = refl
get_or-zeros (suc n) zero = refl
get_or-zeros (suc n) (suc p) = get_or-zeros n p

pub keys-zeros : (n : ℕ) → keys (replicate n 0) ≡ []
unfolding keys
keys-zeros zero = refl
keys-zeros (suc n) = keys-zeros n
