-- ===== src/PloRange/Progressions.antt =====
-- The progressions of src/core/range_plo.cpp and the expansion of an item.
pub mod Shifts
pub mod Span
pub mod Rounds
use xia_pl.Base.{
  ℕ, zero, suc, ◌+◌, ◌-◌, Bool, true, false, not, ◌&&◌, ◌||◌, ◌==◌, ◌!=◌, if◌then◌else◌, Option,
  none, some, List, [], ◌∷◌, ◌++◌, length, get_or, flat_map, String,
}
use xia_pl.Base.Int.{ℤ, pos, negsuc, pos_part, neg_part, ltb_ℤ, ◌+ℤ◌, ◌-ℤ◌}
use xia_pl.Base.Errors.{Result, ok, err, Exception, lit, bytes, throw_if, ◌>>=◌, ◌>>◌}
use xia_pl.Text.{Text, has_char, pop_char, split_at}
use xia_pl.PloPattern.{
  SuitQualifier, any, double_suited, single_suited, rainbow, PloPattern, make_plo_pattern,
  expand_plo_pattern,
}
use xia_pl.PloRange.{item_error}
use xia_pl.PloRange.Patterns.{parse_pattern, looks_like_exact_hand, parse_exact_hand}

abbrev progression_hint : String
progression_hint =
    "progressions are defined for pair patterns (\"JJ**\") and 4-card rundowns (\"JT98\") only"

pub data ProgressionForm : Type 0 where
  no_form pair rundown : ProgressionForm

unfoldable pub progression_form : PloPattern → ProgressionForm
progression_form p =
    let r = λ (i : ℕ). get_or p.ranks i 0 in
    if r 0 != 0 && r 0 == r 1 && r 2 == 0 && r 3 == 0
    then pair
    else if r 3 != 0 && r 1 + 1 == r 0 && r 2 + 2 == r 0 && r 3 + 3 == r 0
    then rundown
    else no_form

form_name : ProgressionForm → String
form_name pair = "a pair pattern (\"RR**\")"
form_name rundown = "a rundown (\"JT98\")"
form_name no_form = "none"

unfoldable pub is_no_form : ProgressionForm → Bool
is_no_form no_form = true
is_no_form pair = false
is_no_form rundown = false

-- `==` of the two enumerations
unfoldable pub same_form : ProgressionForm → ProgressionForm → Bool
same_form no_form no_form = true
same_form pair pair = true
same_form rundown rundown = true
same_form _ _ = false

unfoldable pub same_suit : SuitQualifier → SuitQualifier → Bool
same_suit any any = true
same_suit double_suited double_suited = true
same_suit single_suited single_suited = true
same_suit rainbow rainbow = true
same_suit _ _ = false

-- `ranks[i] = x`, where the ranks after it are out
abbrev pub with_rank : ℕ → Option (List ℕ) → Option (List ℕ)
with_rank x none = none
with_rank x (some out) = some (x ∷ out)

-- the loop over the ranks
unfoldable pub shift_ranks : List ℕ → ℤ → Option (List ℕ)
shift_ranks [] delta = some []
shift_ranks (r ∷ rs) delta =
    let rest = shift_ranks rs delta in
    let shifted = pos r +ℤ delta in
    if r == 0
    then with_rank 0 rest
    else if ltb_ℤ shifted (pos 2) || ltb_ℤ (pos 14) shifted
    then none
    else with_rank (pos_part shifted) rest

unfoldable pub shift_pattern : PloPattern → ℤ → Option PloPattern
unfolding shift_ranks
shift_pattern p delta = elim (shift_ranks p.ranks delta) [
  | none ↦ none
  | some ranks ↦ some (make_plo_pattern ranks p.suit)
]

degenerate_error : Text → Text → Exception
degenerate_error item base = item_error item (
    lit "the progression expands to the single pattern \""
    ∷ bytes base
    ∷ lit "\"; write the pattern on its own instead of using '+' / '-'"
    ∷ [])

-- the loop of expand_open_progression from `delta` on, with at most `left` rounds
unfoldable pub open_patterns : ℕ → PloPattern → ℤ → ℤ → List PloPattern
open_patterns zero start step delta = []
open_patterns (suc left) start step delta =
    let rest = open_patterns left start step (delta +ℤ step) in
    elim (shift_pattern start delta) [ none ↦ [] | some shifted ↦ shifted ∷ rest ]

-- A rank leaves 2 to 14 within 14 steps.
unfoldable pub expand_open_progression : Text → Text → ℤ → Result (List PloPattern)
unfolding progression_form is_no_form degenerate_error
expand_open_progression item base step = do
  throw_if (length base == 0) (
      item_error item (
        lit "a progression needs a pattern before '"
        ∷ lit (if ltb_ℤ (pos 0) step then "+" else "-")
        ∷ lit "'; "
        ∷ lit progression_hint
        ∷ []))
  start ← parse_pattern item base
  throw_if (is_no_form (progression_form start)) (
      item_error item (
        lit "\""
        ∷ bytes base
        ∷ lit "\" cannot carry a progression marker; "
        ∷ lit progression_hint
        ∷ []))
  let out = open_patterns 14 start step (pos 0)
  throw_if (length out == 1) (degenerate_error item base)
  ok out

-- The loop of expand_span_progression from d on, with `left` rounds to go; by the assert there is a
-- pattern in each.
unfoldable pub span_patterns : ℕ → PloPattern → ℤ → List PloPattern
span_patterns zero start d = []
span_patterns (suc left) start d =
    let rest = span_patterns left start (d -ℤ pos 1) in
    elim (shift_pattern start d) [ none ↦ rest | some shifted ↦ shifted ∷ rest ]

-- `==` of std::array
same_ranks : List ℕ → List ℕ → Bool
same_ranks [] [] = true
same_ranks [] (y ∷ ys) = false
same_ranks (x ∷ xs) [] = false
same_ranks (x ∷ xs) (y ∷ ys) = x == y && same_ranks xs ys

-- `reached && reached->ranks == ranks`
unfoldable pub reaches : Option PloPattern → List ℕ → Bool
unfolding same_ranks
reaches none ranks = false
reaches (some p) ranks = same_ranks p.ranks ranks

-- what expand_span_progression asks of the texts
unfoldable pub check_span_texts : Text → Text → Text → Result (Unit {0})
check_span_texts item left_text right_text = do
  throw_if (length left_text == 0 || length right_text == 0) (
      item_error item (
        lit "a '-' span needs a pattern on both sides (e.g. \"99**-66**\"); "
        ∷ lit progression_hint
        ∷ []))
  throw_if (has_char b'-' right_text)
      (item_error item (lit "a '-' span has exactly two endpoints; " ∷ lit progression_hint ∷ []))
  throw_if (has_char b'+' left_text || has_char b'+' right_text)
      (item_error item (lit "a '-' span cannot also carry '+'; " ∷ lit progression_hint ∷ []))

-- `right.ranks[0] - left.ranks[0]`
abbrev pub span_delta : PloPattern → PloPattern → ℤ
span_delta left right = pos (get_or right.ranks 0 0) -ℤ pos (get_or left.ranks 0 0)

-- what it asks of the patterns
unfoldable pub check_span_ends : Text → Text → Text → PloPattern → PloPattern → Result (Unit {0})
unfolding progression_form is_no_form same_form same_suit form_name reaches
check_span_ends item left_text right_text left right = do
  let left_form = progression_form left
  let right_form = progression_form right
  throw_if (is_no_form left_form || is_no_form right_form) (
      item_error item (
        lit "\""
        ∷ bytes left_text
        ∷ lit "-"
        ∷ bytes right_text
        ∷ lit "\" is not a progression; "
        ∷ lit progression_hint
        ∷ []))
  throw_if (not (same_form left_form right_form)) (
      item_error item (
        lit "span endpoints must have the same form, but \""
        ∷ bytes left_text
        ∷ lit "\" is "
        ∷ lit (form_name left_form)
        ∷ lit " while \""
        ∷ bytes right_text
        ∷ lit "\" is "
        ∷ lit (form_name right_form)
        ∷ []))
  throw_if (not (same_suit left.suit right.suit)) (
      item_error item (
        lit
          "span endpoints must carry the same suit suffix (\"ds\" / \"ss\" / \"r\" or none on both sides)"
        ∷ []))
  throw_if (ltb_ℤ (pos 0) (span_delta left right)) (
      item_error item (
        lit
          "a '-' span is written from the higher endpoint down (e.g. \"99**-66**\", \"JT98-8765\")"
        ∷ []))
  throw_if (not (reaches (shift_pattern left (span_delta left right)) right.ranks)) (
      item_error item (
        lit "span endpoints are not a uniform rank shift of each other; "
        ∷ lit progression_hint
        ∷ []))

unfoldable pub expand_span_progression : Text → Text → Text → Result (List PloPattern)
unfolding degenerate_error
expand_span_progression item left_text right_text = do
  check_span_texts item left_text right_text
  left ← parse_pattern item left_text
  right ← parse_pattern item right_text
  check_span_ends item left_text right_text left right
  let out = span_patterns (neg_part (span_delta left right) + 1) left (pos 0)
  throw_if (length out == 1) (degenerate_error item left_text)
  ok out

-- The patterns that a body stands for which is no exact hand. The body is not empty.
unfoldable pub body_patterns : Text → Text → Result (List PloPattern)
body_patterns item body = elim (pop_char body) [
  | none ↦ ok []
  | some (front, last) ↦
      if last == b'+'
      then expand_open_progression item front (pos 1)
      else if last == b'-'
      then expand_open_progression item front (negsuc 0)
      else elim (split_at b'-' body) [
        | some (before, after) ↦ expand_span_progression item before after
        | none ↦ parse_pattern item body >>= λ p. ok (p ∷ [])
      ]
]

unfoldable pub expand_item : Text → Text → Result (List ℕ)
expand_item item body = do
  exact ← looks_like_exact_hand body
  if exact
      then (parse_exact_hand item body >>= λ mask. ok (mask ∷ []))
      else (body_patterns item body >>= λ patterns. ok (flat_map expand_plo_pattern patterns))
