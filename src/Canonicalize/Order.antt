-- ===== src/Canonicalize/Order.antt =====
-- The insertion sorts of src/core/canonicalize.cpp: what they give depends on the keys alone, in any
-- order.
use mathlib.Core.List.{Perm, foldr, perm_middle}
use mathlib.Core.List.Perm
use xia_pl.Base.{
  ℕ, ◌≤◌, ◌≡◌, refl, ap, sym, ◌∙◌, Bool, ltb, List, [], ◌∷◌, map, arith, Bool-cases, inl, inr, All,
  ◌++◌,
}
use native.Mathlib.Nat.{ℕ_set}
use xia_pl.Canonicalize.{insert_sorted, insert_each}

map-insert_sorted {ℓ κ} :
    {A : Type ℓ} {B : Type κ} (f : A → B) (r : B → B → Bool) (x : A) (xs : List A)
    → map f (insert_sorted (λ a c. r (f a) (f c)) x xs) ≡ insert_sorted r (f x) (map f xs)
unfolding insert_sorted
map-insert_sorted f r x [] = refl
map-insert_sorted f r x (y ∷ ys) = elim (Bool-cases (r (f y) (f x))) [
  | inl e ↦ rw (e, map-insert_sorted f r x ys) refl
  | inr e ↦ rw e refl
]

-- Sorting by a key and taking the keys is sorting the keys.
pub map-insert_each {ℓ κ} :
    {A : Type ℓ} {B : Type κ} (f : A → B) (r : B → B → Bool) (xs sorted : List A)
    → map f (insert_each (λ a c. r (f a) (f c)) xs sorted) ≡ insert_each r (map f xs) (map f sorted)
unfolding insert_each
map-insert_each f r [] sorted = refl
map-insert_each f r (x ∷ xs) sorted =
    map-insert_each f r xs (insert_sorted (λ a c. r (f a) (f c)) x sorted)
    ∙ ap (insert_each r (map f xs)) (map-insert_sorted f r x sorted)

abbrev pub insert_key : ℕ → List ℕ → List ℕ
insert_key = insert_sorted ltb

insert_key_comm :
    (x y : ℕ) (l : List ℕ) → insert_key x (insert_key y l) ≡ insert_key y (insert_key x l)
unfolding insert_sorted
insert_key_comm x y [] = ground arith
insert_key_comm x y (z ∷ zs) = ground (arith, insert_key_comm x y zs)

insert_each_last :
    (x : ℕ) (xs l : List ℕ)
    → insert_each ltb xs (insert_key x l) ≡ insert_key x (insert_each ltb xs l)
unfolding insert_each
insert_each_last x [] l = refl
insert_each_last x (y ∷ ys) l =
    ap (insert_each ltb ys) (insert_key_comm y x l) ∙ insert_each_last x ys (insert_key y l)

insert_each-foldr : (xs l : List ℕ) → insert_each ltb xs l ≡ foldr insert_key l xs
unfolding insert_each
insert_each-foldr [] l = refl
insert_each-foldr (x ∷ xs) l = insert_each_last x xs l ∙ ap (insert_key x) (insert_each-foldr xs l)

insert_sorted-perm {ℓ} :
    {A : Type ℓ} (shifts : A → A → Bool) (x : A) (l : List A)
    → Perm (insert_sorted shifts x l) (x ∷ l)
unfolding insert_sorted
insert_sorted-perm shifts x [] = Perm.refl _
insert_sorted-perm shifts x (y ∷ ys) = elim (Bool-cases (shifts y x)) [
  | inl e ↦ rw e (Perm.trans (Perm.cons y (insert_sorted-perm shifts x ys)) (Perm.swap x y ys))
  | inr e ↦ rw e (Perm.refl _)
]

-- Sorting loses nothing.
pub insert_each-perm {ℓ} :
    {A : Type ℓ} (shifts : A → A → Bool) (xs l : List A) → Perm (insert_each shifts xs l) (xs ++ l)
unfolding insert_each
insert_each-perm shifts [] l = Perm.refl l
insert_each-perm shifts (x ∷ xs) l =
    Perm.trans (insert_each-perm shifts xs (insert_sorted shifts x l))
      (Perm.trans (Perm.append_left xs (insert_sorted-perm shifts x l)) (perm_middle xs l))

-- Keys in any order are sorted to the same list.
pub insert_each_of_perm :
    {xs ys : List ℕ} → Perm xs ys → insert_each ltb xs [] ≡ insert_each ltb ys []
insert_each_of_perm {xs} {ys} p =
    insert_each-foldr xs []
    ∙ Perm.foldr-eq (hlevel ℕ_set) insert_key insert_key_comm p []
    ∙ sym (insert_each-foldr ys [])

-- All ways to put an entry into a list.
abbrev pub inserts {ℓ} : {A : Type ℓ} → A → List A → List (List A)
inserts x [] = (x ∷ []) ∷ []
inserts x (y ∷ ys) = (x ∷ y ∷ ys) ∷ map (◌∷◌ y) (inserts x ys)

pub All-map {ℓ κ ι} :
    {A : Type ℓ} {B : Type κ} (P : B → Type ι) (f : A → B) (xs : List A)
    → All P (map f xs)
    → All (λ x. P (f x)) xs
All-map P f [] a = tt
All-map P f (x ∷ xs) a = (a.0, All-map P f xs a.1)

-- What holds of a list however an entry is put into it holds of a sorted one.
pub insert_sorted_cases {ℓ κ} :
    {A : Type ℓ} (shifts : A → A → Bool) (P : List A → Type κ) (x : A) (xs : List A)
    → All P (inserts x xs)
    → P (insert_sorted shifts x xs)
unfolding insert_sorted
insert_sorted_cases shifts P x [] a = a.0
insert_sorted_cases shifts P x (y ∷ ys) a = elim (Bool-cases (shifts y x)) [
  | inl e ↦
      rw e (insert_sorted_cases shifts (λ l. P (y ∷ l)) x ys (All-map P (◌∷◌ y) (inserts x ys) a.1))
  | inr e ↦ rw e a.0
]

-- In front of what is not less an entry stays in front.
insert_key_front : (v : ℕ) (l : List ℕ) → All (λ y. v ≤ y) l → insert_key v l ≡ v ∷ l
unfolding insert_sorted
insert_key_front v [] a = refl
insert_key_front v (y ∷ ys) a = ground (arith, a.0)

abbrev Rising : List ℕ → Type 0
Rising [] = Unit
Rising (y ∷ ys) = All (λ z. y ≤ z) ys × Rising ys

All-insert_key : (P : ℕ → Type 0) (x : ℕ) (l : List ℕ) → P x → All P l → All P (insert_key x l)
All-insert_key P x l p a = insert_sorted_cases ltb (All P) x l (all_inserts l a)
  where
    cons_all : (y : ℕ) (ls : List (List ℕ)) → P y → All (All P) ls → All (All P) (map (◌∷◌ y) ls)
    cons_all y [] q b = tt
    cons_all y (l' ∷ ls) q b = ((q, b.0), cons_all y ls q b.1)

    all_inserts : (l : List ℕ) → All P l → All (All P) (inserts x l)
    all_inserts [] a' = ((p, tt), tt)
    all_inserts (y ∷ ys) a' = ((p, a'), cons_all y (inserts x ys) a'.0 (all_inserts ys a'.1))

All-weaken : (P Q : ℕ → Type 0) (l : List ℕ) → ((y : ℕ) → P y → Q y) → All P l → All Q l
All-weaken P Q [] f a = tt
All-weaken P Q (y ∷ ys) f a = (f y a.0, All-weaken P Q ys f a.1)

Rising-insert_key : (x : ℕ) (l : List ℕ) → Rising l → Rising (insert_key x l)
unfolding insert_sorted
Rising-insert_key x [] r = (tt, tt)
Rising-insert_key x (y ∷ ys) r = elim (Bool-cases (ltb y x)) [
  | inl e ↦ rw e (All-insert_key (λ z. y ≤ z) x ys (ground arith) r.0, Rising-insert_key x ys r.1)
  | inr e ↦
      let le : x ≤ y = ground arith in
      rw e ((le, All-weaken (λ z. y ≤ z) (λ z. x ≤ z) ys (λ z q. omega arith) r.0), r)
]

module _ (g : ℕ → ℕ) (mono : (a b : ℕ) → a ≤ b → g a ≤ g b) where
  map-insert_key :
      (x : ℕ) (l : List ℕ) → Rising l → map g (insert_key x l) ≡ insert_key (g x) (map g l)
  unfolding insert_sorted
  map-insert_key x [] r = refl
  map-insert_key x (y ∷ ys) r =
      let ih = map-insert_key x ys r.1 in
      let front : g y ≡ g x → insert_key (g x) (map g ys) ≡ g x ∷ map g ys =
        λ e. insert_key_front (g x) (map g ys) (image ys r.0 e) in
      ground (arith, ih, front, mono y x, mono x y)
    where
      image : (zs : List ℕ) → All (λ z. y ≤ z) zs → g y ≡ g x → All (λ z. g x ≤ z) (map g zs)
      image [] a e = tt
      image (z ∷ zs) a e = (omega (arith, mono y z a.0), image zs a.1 e)

  -- Sorting and then taking the values of a monotone function is sorting the values.
  pub map-insert_each_mono :
      (xs l : List ℕ)
      → Rising l
      → map g (insert_each ltb xs l) ≡ insert_each ltb (map g xs) (map g l)
  unfolding insert_each
  map-insert_each_mono [] l r = refl
  map-insert_each_mono (x ∷ xs) l r =
      map-insert_each_mono xs (insert_key x l) (Rising-insert_key x l r)
      ∙ ap (insert_each ltb (map g xs)) (map-insert_key x l r)
