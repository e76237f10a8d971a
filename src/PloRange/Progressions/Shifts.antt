-- ===== src/PloRange/Progressions/Shifts.antt =====
-- How far a pattern of src/core/range_plo.cpp can be shifted.
use xia_pl.Base.{
  ℕ, zero, suc, ◌+◌, ◌≤◌, ◌<◌, ◌≡◌, ◌⊎◌, inl, inr, refl, sym, ap, ap₂, subst, ◌∙◌, Bool, true,
  false, ◌||◌, ◌==◌, ltb, if◌then◌else◌, Option, none, some, List, [], ◌∷◌, map, All, arith,
  Bool-cases, Option-cases,
}
use xia_pl.Base.Int.{ℤ, pos, negsuc, pos_part, ltb_ℤ, difference, ◌+ℤ◌, ◌-ℤ◌}
use xia_pl.Base.Errors.{ok, seq_ok, ok_inj}
use xia_pl.Chars.{try_rank_from_char}
use xia_pl.Chars.Tables.{try_rank_from_char_range}
use xia_pl.Text.{Text}
use xia_pl.PloPattern.{PloPattern, insert_down, sort_down, make_plo_pattern}
use xia_pl.PloRange.Patterns.{rank_symbol_value, core_and_suit, check_core, parse_pattern}
use xia_pl.PloRange.Progressions.{with_rank, shift_ranks}

-- 0 for the wildcard, or 2 to 14
abbrev pub Legal : ℕ → Type 0
Legal r = (r ≡ 0) ⊎ ((2 ≤ r) × (r ≤ 14))

rank_symbol_value-Legal : (c : ℕ) → Legal (rank_symbol_value c)
unfolding rank_symbol_value
rank_symbol_value-Legal c = elim (Bool-cases (c == b'*')) [
  | inl e ↦ rw e (inl refl)
  | inr e ↦ elim (Option-cases (try_rank_from_char c)) [
    | inl f ↦ rw (e, f) (inl refl)
    | inr (v, f) ↦ rw (e, f) (inr (try_rank_from_char_range c v f))
  ]
]

symbols-Legal : (cs : Text) → All Legal (map rank_symbol_value cs)
symbols-Legal [] = tt
symbols-Legal (c ∷ cs) = (rank_symbol_value-Legal c, symbols-Legal cs)

insert_down-Legal : (x : ℕ) (xs : List ℕ) → Legal x → All Legal xs → All Legal (insert_down x xs)
unfolding insert_down
insert_down-Legal x [] l a = (l, tt)
insert_down-Legal x (y ∷ ys) l a = elim (Bool-cases (ltb x y)) [
  | inl e ↦ rw e (a.0, insert_down-Legal x ys l a.1)
  | inr e ↦ rw e (l, a)
]

sort_down-Legal : (xs : List ℕ) → All Legal xs → All Legal (sort_down xs)
unfolding sort_down
sort_down-Legal [] a = tt
sort_down-Legal (x ∷ xs) a = insert_down-Legal x (sort_down xs) a.0 (sort_down-Legal xs a.1)

pub parse_pattern-Legal :
    (item body : Text) (p : PloPattern) → parse_pattern item body ≡ ok p → All Legal p.ranks
unfolding parse_pattern make_plo_pattern
parse_pattern-Legal item body p e =
    let core : Text = (core_and_suit body).0 in
    let q = ok_inj _ p (seq_ok (check_core item core) _ p e).1 in
    subst (λ x. All Legal x.ranks) q
      (sort_down-Legal (map rank_symbol_value core) (symbols-Legal core))

-- minus d
unfoldable pub down : ℕ → ℤ
down zero = pos 0
down (suc d) = negsuc d

pub up-add : (r d : ℕ) → pos r +ℤ pos d ≡ pos (r + d)
up-add r d = let z : ltb (r + d) 0 ≡ false = ground arith in rw z (ap pos (omega arith))

down-add : (r d : ℕ) → pos r +ℤ down d ≡ difference r d
unfolding down
down-add r zero = ap₂ difference (omega arith) refl
down-add r (suc d) = ap₂ difference (omega arith) (omega arith)

pub down-step : (d : ℕ) → down d -ℤ pos 1 ≡ down (suc d)
unfolding down
down-step zero = refl
down-step (suc d) =
    let z : ltb (0 + 0) (suc d + 1) ≡ true = ground arith in rw z (ap negsuc (omega arith))

abbrev pub out_of_range : ℤ → Bool
out_of_range x = ltb_ℤ x (pos 2) || ltb_ℤ (pos 14) x

pub up-out_of_range : (x : ℕ) → 14 < x → out_of_range (pos x) ≡ true
up-out_of_range x h = ground arith

down-out_of_range : (r d : ℕ) → r ≤ 14 → out_of_range (difference r d) ≡ ltb r (d + 2)
down-out_of_range r d h = elim (Bool-cases (ltb r d)) [
  | inl e ↦ rw e (ground arith)
  | inr e ↦ rw e (ground arith)
]

pub shift_ranks-down :
    (r : ℕ) (rs : List ℕ) (d : ℕ)
    → r ≤ 14
    → shift_ranks (r ∷ rs) (down d) ≡ (
        if r == 0
        then with_rank 0 (shift_ranks rs (down d))
        else if ltb r (d + 2)
        then none
        else with_rank (pos_part (difference r d)) (shift_ranks rs (down d)))
unfolding shift_ranks
shift_ranks-down r rs d h =
    ap
      (λ x.
        if r == 0
        then with_rank 0 (shift_ranks rs (down d))
        else if out_of_range x
        then none
        else with_rank (pos_part x) (shift_ranks rs (down d)))
      (down-add r d)
    ∙ rw (down-out_of_range r d h) refl

with_rank-some :
    (x : ℕ) (o : Option (List ℕ)) (out : List ℕ)
    → with_rank x o ≡ some out
    → (out' : List ℕ) × (o ≡ some out')
with_rank-some x none out e = cc
with_rank-some x (some o) out e = (o, refl)

pub Legal-le : (r : ℕ) → Legal r → r ≤ 14
Legal-le r (inl e) = omega arith
Legal-le r (inr h) = h.1

-- A pattern that can be shifted down as far as `last` can be shifted by less.
pub shifts_down :
    (rs : List ℕ) (d last : ℕ) (out : List ℕ)
    → All Legal rs
    → d ≤ last
    → shift_ranks rs (down last) ≡ some out
    → (out' : List ℕ) × (shift_ranks rs (down d) ≡ some out')
unfolding shift_ranks
shifts_down [] d last out a h e = ([], refl)
shifts_down (r ∷ rs) d last out a h e =
    let le : r ≤ 14 = Legal-le r a.0 in
    let e' = sym (shift_ranks-down r rs last le) ∙ e in
    rw (shift_ranks-down r rs d le) (elim (Bool-cases (r == 0)) [
      | inl z ↦
          let (out1, f) = with_rank-some 0 (shift_ranks rs (down last)) out (rw z at e') in
          let (out2, g) = shifts_down rs d last out1 a.1 h f in rw (z, g) (_, refl)
      | inr nz ↦ elim (Bool-cases (ltb r (last + 2))) [
        | inl low ↦ absurd (cc (rw (nz, low) at e'))
        | inr high ↦
            let fits : ltb r (d + 2) ≡ false = ground arith in
            let (out1, f) =
              with_rank-some _ (shift_ranks rs (down last)) out (rw (nz, high) at e') in
            let (out2, g) = shifts_down rs d last out1 a.1 h f in rw (nz, fits, g) (_, refl)
      ]
    ])
