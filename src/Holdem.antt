-- ===== src/Holdem.antt =====
-- src/core/range_holdem.cpp: the tokens of a Hold'em range and the hands that they stand for. A rank
-- is 2 to 14 where the parser accepts it, so that the differences of ranks that the source takes as
-- `int` do not go below 0 where they are read, save for `gap`, which is written without one.
pub mod Masks
use xia_pl.Base.{
  ℕ, zero, suc, ◌+◌, ◌-◌, ◌*◌, ◌^◌, bit_or, Bool, true, false, not, ◌&&◌, ◌||◌, ◌==◌, ◌!=◌, leb,
  ltb, if◌then◌else◌, Option, none, some, List, [], ◌∷◌, ◌++◌, map, length, get_or, up_from,
}
use xia_pl.Base.Errors.{
  Result, ok, err, invalid_argument, invalid_argument_of, lit, bytes, throw_if, ◌>>=◌, ◌>>◌,
}
use xia_pl.Chars.{try_rank_from_char, rank_to_char}
use xia_pl.Text.{Text, trim, split_at, has_char, pop_char}

unfoldable pub char_to_rank : ℕ → Result ℕ
char_to_rank c = elim (try_rank_from_char c) [
  | some v ↦ ok v
  | none ↦ err (invalid_argument "invalid rank char")
]

-- `type` is the byte of 's' or of 'o', or 0 for both.
pub record BasicHandPattern : Type 0 where
  pub hi_rank : ℕ
  pub lo_rank : ℕ
  pub is_pair : Bool
  pub type : ℕ

-- the branches on `notation[2]`
hand_type : Text → Bool → Result ℕ
hand_type notation true = ok 0
hand_type notation false =
    let t = get_or notation 2 0 in
    if leb 3 (length notation)
    then (if t == b's' || t == b'S'
        then ok b's'
        else if t == b'o' || t == b'O'
        then ok b'o'
        else err (
            invalid_argument_of
              (lit "non-pair starting hand must end with 's' or 'o': " ∷ bytes notation ∷ [])))
    else ok 0

unfoldable pub parse_basic_hand_notation : Text → Result BasicHandPattern
unfolding char_to_rank hand_type
parse_basic_hand_notation notation = do
  throw_if (ltb (length notation) 2)
      (invalid_argument_of (lit "notation too short for starting hand: " ∷ bytes notation ∷ []))
  r1 ← char_to_rank (get_or notation 0 0)
  r2 ← char_to_rank (get_or notation 1 0)
  let hi = if ltb r1 r2 then r2 else r1
  let lo = if ltb r1 r2 then r1 else r2
  t ← hand_type notation (hi == lo)
  ok (record { hi_rank = hi; lo_rank = lo; is_pair = hi == lo; type = t })

pair_notation : ℕ → Text
pair_notation r = rank_to_char r ∷ rank_to_char r ∷ []

typed_notation : ℕ → ℕ → ℕ → Text
typed_notation hi lo type = rank_to_char hi ∷ rank_to_char lo ∷ type ∷ []

-- `for (r = hi; r >= lo; --r)`, for lo at least 1: the numbers, highest first
unfoldable pub ranks_down : ℕ → ℕ → List ℕ
ranks_down zero lo = []
ranks_down (suc r) lo = if leb lo (suc r) then suc r ∷ ranks_down r lo else []

-- the two pairs of a '-' token, in either order
pair_span : ℕ → ℕ → List Text
unfolding pair_notation ranks_down
pair_span l r =
    let hi = if ltb l r then r else l in
    let lo = if ltb l r then l else r in map pair_notation (ranks_down hi lo)

-- equal high ranks: the low ranks, in either order
kicker_span : ℕ → ℕ → ℕ → ℕ → List Text
unfolding typed_notation ranks_down
kicker_span hi lo1 lo2 type =
    let lo_start = if ltb lo1 lo2 then lo2 else lo1 in
    let lo_end = if ltb lo1 lo2 then lo1 else lo2 in
    map (λ lr. typed_notation hi lr type) (ranks_down lo_start lo_end)

-- The rest of the branch on two hands that are no pairs, after the swap: hi2 ≤ hi1. The gaps
-- hi1 - lo1 and hi2 - lo2 are compared crosswise.
ordered_span : Text → ℕ → ℕ → ℕ → ℕ → ℕ → Result (List Text)
unfolding kicker_span typed_notation ranks_down
ordered_span tok hi1 lo1 hi2 lo2 type =
    if hi1 == hi2
    then ok (kicker_span hi1 lo1 lo2 type)
    else if hi1 + lo2 != hi2 + lo1
    then err
        (invalid_argument_of (lit "'-' range for connectors must preserve gap: " ∷ bytes tok ∷ []))
    else ok (map (λ hr. typed_notation hr (hr - (hi1 - lo1)) type) (ranks_down hi1 hi2))

-- the two branches on `is_pair`
expand_span : Text → BasicHandPattern → BasicHandPattern → Result (List Text)
unfolding pair_span ordered_span
expand_span tok l r = if l.is_pair then ok (pair_span l.hi_rank r.hi_rank) else do
  throw_if (l.type != r.type) (
      invalid_argument_of
        (lit "'-' range non-pair must have same suitedness (s/o): " ∷ bytes tok ∷ []))
  throw_if (l.type != b's' && l.type != b'o')
      (invalid_argument_of (lit "'-' range non-pair must specify 's' or 'o': " ∷ bytes tok ∷ []))
  if ltb l.hi_rank r.hi_rank
      then ordered_span tok r.hi_rank r.lo_rank l.hi_rank l.lo_rank l.type
      else ordered_span tok l.hi_rank l.lo_rank r.hi_rank r.lo_rank l.type

expand_dash : Text → Text → Text → Result (List Text)
unfolding expand_span
expand_dash tok left right = do
  throw_if (length left == 0 || length right == 0)
      (invalid_argument_of (lit "invalid '-' range token: " ∷ bytes tok ∷ []))
  throw_if (has_char b'+' left || has_char b'+' right)
      (invalid_argument_of (lit "'-' range must not contain '+': " ∷ bytes tok ∷ []))
  l ← parse_basic_hand_notation left
  r ← parse_basic_hand_notation right
  throw_if ((l.is_pair && not r.is_pair) || (not l.is_pair && r.is_pair))
      (invalid_argument_of (lit "'-' range must be both pair or both non-pair: " ∷ bytes tok ∷ []))
  expand_span tok l r

-- the connector ladder, with `left` rounds to go
ladder_from : ℕ → ℕ → ℕ → List Text
unfolding typed_notation
ladder_from zero h type = []
ladder_from (suc left) h type =
    let rest = ladder_from left (h + 1) type in
    if ltb (h - 1) 2 then rest else typed_notation h (h - 1) type ∷ rest

-- a hand that is no pair, with '+'
expand_plus : Text → ℕ → ℕ → ℕ → Result (List Text)
unfolding typed_notation up_from ladder_from
expand_plus tok hi lo type =
    let kickers = map (λ lr. typed_notation hi lr type) (up_from (hi - lo) lo) in
    let ladder = ladder_from (15 - hi) hi type in
    if type == 0
    then (if hi != 14
        then err (
            invalid_argument_of
              (lit "unsupported unsuffixed '+' range (only AK+ is supported): " ∷ bytes tok ∷ []))
        else ok (typed_notation hi lo b's' ∷ typed_notation hi lo b'o' ∷ []))
    else if hi == 14
    then ok kickers
    else if (type == b's' || type == b'o') && hi - lo == 1
    then ok ladder
    else ok kickers

-- the branches on a token without '-'
expand_pattern : Text → Bool → BasicHandPattern → Result (List Text)
unfolding pair_notation typed_notation up_from expand_plus
expand_pattern tok has_plus p =
    if p.is_pair
    then (if has_plus
        then ok (map pair_notation (up_from (15 - p.hi_rank) p.hi_rank))
        else ok (pair_notation p.hi_rank ∷ []))
    else if has_plus
    then expand_plus tok p.hi_rank p.lo_rank p.type
    else if p.type == 0
    then ok (typed_notation p.hi_rank p.lo_rank b's' ∷ typed_notation p.hi_rank p.lo_rank b'o' ∷ [])
    else ok (typed_notation p.hi_rank p.lo_rank p.type ∷ [])

-- `has_plus` and `core`
plus_suffix : Text → Bool × Text
plus_suffix tok = elim (pop_char tok) [
  | none ↦ (false, tok)
  | some (front, last) ↦ if last == b'+' then (true, front) else (false, tok)
]

unfoldable pub expand_range_token_to_notations : Text → Result (List Text)
unfolding expand_dash expand_pattern plus_suffix
expand_range_token_to_notations tok = elim (split_at b'-' tok) [
  | some (left, right) ↦ expand_dash tok (trim left) (trim right)
  | none ↦ do
    let (has_plus, core) = plus_suffix tok
    p ← parse_basic_hand_notation core
    expand_pattern tok has_plus p
]
