-- ===== src/PloRange/Progressions/Span.antt =====
-- The loop of a '-' span in src/core/range_plo.cpp.
use xia_pl.Base.{
  ℕ, zero, suc, ◌+◌, ◌-◌, ◌≤◌, ◌≡◌, inl, inr, refl, sym, ap, ap₂, ◌∙◌, true, false, ◌||◌, ◌==◌, ltb,
  some, List, length, get_or, All, arith, Bool-cases, Option-cases,
}
use xia_pl.Base.Int.{ℤ, pos, neg_part, ltb_ℤ, difference}
use xia_pl.Base.Errors.{Exception, ok, throw_if, ◌>>◌, bind_ok, seq_ok, ok_inj}
use xia_pl.Text.{Text}
use xia_pl.PloPattern.{PloPattern}
use xia_pl.PloRange.Patterns.{parse_pattern}
use xia_pl.PloRange.Progressions.{
  shift_ranks, shift_pattern, progression_form, ProgressionForm, is_no_form, same_form, same_suit,
  reaches, span_delta, check_span_texts, check_span_ends, span_patterns, expand_span_progression,
}
use xia_pl.PloRange.Progressions.Shifts.{Legal, parse_pattern-Legal, down, down-step, shifts_down}

shift_pattern-some :
    (p : PloPattern) (delta : ℤ) (ranks : List ℕ)
    → reaches (shift_pattern p delta) ranks ≡ true
    → (out : List ℕ) × (shift_ranks p.ranks delta ≡ some out)
unfolding shift_pattern reaches
shift_pattern-some p delta ranks e = elim (Option-cases (shift_ranks p.ranks delta)) [
  | inl f ↦ absurd (cc (rw (shift_pattern, f, reaches) at e))
  | inr (out, f) ↦ (out, f)
]

length-span_patterns :
    (left k last : ℕ) (p : PloPattern) (out : List ℕ)
    → All Legal p.ranks
    → shift_ranks p.ranks (down last) ≡ some out
    → k + left ≡ last + 1
    → length (span_patterns left p (down k)) ≡ left
unfolding span_patterns shift_pattern
length-span_patterns zero k last p out a e h = refl
length-span_patterns (suc left) k last p out a e h =
    let (out', f) = shifts_down p.ranks k last out a (omega arith) e in
    rw (span_patterns, f, down-step k)
      (ap suc (length-span_patterns left (suc k) last p out a e (omega arith)))

difference-down : (a b : ℕ) → a ≤ b → difference a b ≡ down (b - a)
unfolding down
difference-down a b h = elim (Bool-cases (ltb a b)) [
  | inl e ↦ rw e (ap down (let s : suc (b - a - 1) ≡ b - a = ground arith in s))
  | inr e ↦ rw e (
      ap pos (let s : a - b ≡ 0 = ground arith in s)
      ∙ ap down (let s : 0 ≡ b - a = ground arith in s))
]

check_span_ends_lem :
    (item left_text right_text : Text) (left right : PloPattern)
    → check_span_ends item left_text right_text left right ≡ ok tt
    → (ltb_ℤ (pos 0) (span_delta left right) ≡ false)
      × (reaches (shift_pattern left (span_delta left right)) right.ranks ≡ true)
unfolding check_span_ends
check_span_ends_lem item left_text right_text left right e =
    let l : ProgressionForm = progression_form left in
    let r : ProgressionForm = progression_form right in
    elim (Bool-cases (is_no_form l || is_no_form r)) [
      | inl a ↦ absurd (cc (rw a at e))
      | inr a ↦ elim (Bool-cases (same_form l r)) [
        | inr b ↦ absurd (cc (rw (a, b) at e))
        | inl b ↦ elim (Bool-cases (same_suit left.suit right.suit)) [
          | inr c ↦ absurd (cc (rw (a, b, c) at e))
          | inl c ↦ elim (Bool-cases (ltb_ℤ (pos 0) (span_delta left right))) [
            | inl d ↦ absurd (cc (rw (a, b, c, d) at e))
            | inr d ↦
                elim (Bool-cases
                  (reaches (shift_pattern left (span_delta left right)) right.ranks)) [
                    | inl f ↦ (d, f)
                    | inr f ↦ absurd (cc (rw (a, b, c, d, f) at e))
                  ]
          ]
        ]
      ]
    ]

kept_ok :
    {A : Type 0} (xs : List A) (x : Exception) (out : List A)
    → throw_if (length xs == 1) x >> ok xs ≡ ok out
    → xs ≡ out
kept_ok xs x out e = elim (Bool-cases (length xs == 1)) [
  | inl f ↦ absurd (cc (rw f at e))
  | inr f ↦ ok_inj xs out (rw f at e)
]

span_delta-down :
    (left right : PloPattern)
    → ltb_ℤ (pos 0) (span_delta left right) ≡ false
    → (get_or right.ranks 0 0 ≤ get_or left.ranks 0 0)
      × (span_delta left right ≡ down (get_or left.ranks 0 0 - get_or right.ranks 0 0))
span_delta-down left right e =
    let a : ℕ = get_or right.ranks 0 0 in
    let b : ℕ = get_or left.ranks 0 0 in
    let plain : span_delta left right ≡ difference a b =
      ap₂ difference (omega arith) (omega arith) in
    let e' : ltb_ℤ (pos 0) (difference a b) ≡ false = ap (λ d. ltb_ℤ (pos 0) d) (sym plain) ∙ e in
    let le : a ≤ b = elim (Bool-cases (ltb a b)) [
      | inl f ↦ ground arith
      | inr f ↦ let g = rw f at e' in ground arith
    ] in
    (le, plain ∙ difference-down a b le)

neg_part-down : (d : ℕ) → neg_part (down d) ≡ d
unfolding down
neg_part-down zero = refl
neg_part-down (suc d) = refl

length-span :
    (item left_text right_text : Text) (left right : PloPattern)
    → All Legal left.ranks
    → check_span_ends item left_text right_text left right ≡ ok tt
    → length (span_patterns (neg_part (span_delta left right) + 1) left (pos 0))
        + get_or right.ranks 0 0
      ≡ get_or left.ranks 0 0 + 1
unfolding down
length-span item left_text right_text left right legal e =
    let ends = check_span_ends_lem item left_text right_text left right e in
    let (le, delta) = span_delta-down left right ends.0 in
    let d : ℕ = get_or left.ranks 0 0 - get_or right.ranks 0 0 in
    let (out, s) = shift_pattern-some left (span_delta left right) right.ranks ends.1 in
    let rounds : neg_part (span_delta left right) ≡ d = ap neg_part delta ∙ neg_part-down d in
    let s' : shift_ranks left.ranks (down d) ≡ some out =
      ap (shift_ranks left.ranks) (sym delta) ∙ s in
    let size = length-span_patterns (d + 1) 0 d left out legal s' (omega arith) in
    rw (rounds, size) (ground arith)

-- The loop of a '-' span from `left` to `right` gives a pattern in every round, as its assert says: the
-- progression has one pattern for each step from the first rank of one to that of the other.
pub length-expand_span_progression :
    (item left_text right_text : Text) (out : List PloPattern)
    → expand_span_progression item left_text right_text ≡ ok out
    → (left : PloPattern) × (right : PloPattern) × (parse_pattern item left_text ≡ ok left)
      × (parse_pattern item right_text ≡ ok right)
      × (length out + get_or right.ranks 0 0 ≡ get_or left.ranks 0 0 + 1)
unfolding expand_span_progression
length-expand_span_progression item left_text right_text out e =
    let e1 = seq_ok (check_span_texts item left_text right_text) _ out e in
    let (left, l, f) = bind_ok (parse_pattern item left_text) _ out e1.1 in
    let (right, r, g) = bind_ok (parse_pattern item right_text) _ out f in
    let h = seq_ok (check_span_ends item left_text right_text left right) _ out g in
    let same = kept_ok _ _ out h.1 in
    (
      left,
      right,
      l,
      r,
      ap (λ x. length x + get_or right.ranks 0 0) (sym same)
          ∙ length-span item left_text right_text left right
              (parse_pattern-Legal item left_text left l) h.0,
    )
