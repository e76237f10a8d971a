-- ===== src/PloRange/Patterns.antt =====
-- The exact hands and the patterns of src/core/range_plo.cpp.
use xia_pl.Base.{
  ℕ, zero, suc, ◌+◌, ◌^◌, bit_and, bit_or, Bool, true, false, ◌&&◌, ◌||◌, ◌==◌, ◌!=◌, ltb,
  if◌then◌else◌, none, some, [], ◌∷◌, map, length, take, String,
}
use xia_pl.Base.Errors.{Result, ok, err, lit, bytes, num, throw_if, ◌>>=◌, ◌>>◌}
use xia_pl.Chars.{try_rank_from_char}
use xia_pl.Card.{to_string, try_parse_card}
use xia_pl.Text.{Text}
use xia_pl.Range.Parse.{is_suit_char}
use xia_pl.PloPattern.{
  SuitQualifier, any, double_suited, single_suited, rainbow, PloPattern, make_plo_pattern,
}
use xia_pl.PloRange.{syntax_summary, item_error, escape_byte, is_rank_symbol, ascii_lower}

abbrev pad_hint : String
pad_hint =
    "a rank pattern is exactly 4 symbols; pad the unknown cards with '*' (e.g. \"AA\" -> \"AA**\")"

abbrev too_many_hint : String
too_many_hint =
    "a PLO pattern has exactly 4 rank symbols, one per card (e.g. \"AA**\", \"AKQJ\"); drop the extra symbols"

abbrev suit_hint : String
suit_hint =
    "suits cannot be written inside a rank pattern; use a \"ds\" / \"ss\" / \"r\" suffix for the suit shape, or an exact 4-card hand (e.g. \"AsAdKhKc\") to name specific suits"

-- the loop of `looks_like_exact_hand`, two characters at a time
unfoldable pub all_cards : Text → Result Bool
all_cards [] = ok true
all_cards (a ∷ []) = ok true
all_cards (a ∷ b ∷ cs) =
    try_parse_card (a ∷ b ∷ []) >>= λ card. elim card [ none ↦ ok false | some c ↦ all_cards cs ]

unfoldable pub looks_like_exact_hand : Text → Result Bool
unfolding all_cards
looks_like_exact_hand body = if length body != 8 then ok false else all_cards body

-- The loop of `parse_exact_hand`, two characters at a time. The caller has seen that they are cards.
unfoldable pub add_exact_cards : Text → Text → ℕ → Result ℕ
add_exact_cards item [] mask = ok mask
add_exact_cards item (a ∷ []) mask = ok mask
add_exact_cards item (a ∷ b ∷ cs) mask = try_parse_card (a ∷ b ∷ []) >>= λ parsed. elim parsed [
  | none ↦ ok mask
  | some card ↦
      throw_if (bit_and mask (2 ^ card.id) != 0) (
        item_error item (
          lit "duplicate card \""
          ∷ bytes (to_string card)
          ∷ lit "\"; an exact PLO hand is 4 distinct cards"
          ∷ []))
      >> add_exact_cards item cs (bit_or mask (2 ^ card.id))
]

unfoldable pub parse_exact_hand : Text → Text → Result ℕ
parse_exact_hand item body = add_exact_cards item body 0

unfoldable pub rank_symbol_value : ℕ → ℕ
rank_symbol_value c = if c == b'*' then 0 else elim (try_rank_from_char c) [ none ↦ 0 | some v ↦ v ]

unfoldable pub all_rank_symbols : Text → Bool
all_rank_symbols [] = true
all_rank_symbols (c ∷ cs) = is_rank_symbol c && all_rank_symbols cs

-- `==` of std::string
unfoldable pub same_text : Text → Text → Bool
same_text [] [] = true
same_text [] (y ∷ ys) = false
same_text (x ∷ xs) [] = false
same_text (x ∷ xs) (y ∷ ys) = x == y && same_text xs ys

-- `text.substr(n)`
unfoldable pub drop : ℕ → Text → Text
drop zero text = text
drop (suc n) [] = []
drop (suc n) (c ∷ cs) = drop n cs

-- the lambda `suffix_is` with `four_symbols_then`
suffix_is : Text → Text → Bool
unfolding all_rank_symbols same_text drop
suffix_is body suffix =
    length body == 4 + length suffix
    && all_rank_symbols (take 4 body)
    && same_text (map ascii_lower (drop 4 body)) suffix

-- `core` and `suit`
unfoldable pub core_and_suit : Text → Text × SuitQualifier
unfolding suffix_is
core_and_suit body =
    if suffix_is body (b'd' ∷ b's' ∷ [])
    then (take 4 body, double_suited)
    else if suffix_is body (b's' ∷ b's' ∷ [])
    then (take 4 body, single_suited)
    else if suffix_is body (b'r' ∷ [])
    then (take 4 body, rainbow)
    else (body, any)

is_bare_suffix : Text → Bool
is_bare_suffix core =
    let lower = map ascii_lower core in
    same_text lower (b'r' ∷ [])
    || same_text lower (b'd' ∷ b's' ∷ [])
    || same_text lower (b's' ∷ b's' ∷ [])

-- the loop over `core`
reject_strange : Text → Text → Result (Unit {0})
reject_strange item [] = ok tt
reject_strange item (c ∷ cs) =
    let rest = reject_strange item cs in
    if is_rank_symbol c
    then rest
    else if is_suit_char c
    then err (
        item_error item
          (lit "unexpected suit letter '" ∷ bytes (c ∷ []) ∷ lit "'; " ∷ lit suit_hint ∷ []))
    else err (
        item_error item (
          lit "unexpected character '"
          ∷ bytes (escape_byte c)
          ∷ lit "'; "
          ∷ lit syntax_summary
          ∷ []))

-- what parse_pattern asks of `core`
unfoldable pub check_core : Text → Text → Result (Unit {0})
unfolding is_bare_suffix reject_strange
check_core item core = do
  throw_if (is_bare_suffix core) (
      item_error item (
        lit "\""
        ∷ bytes core
        ∷ lit "\" is a suit suffix, not a hand; it must follow 4 rank symbols (e.g. \"AKQJ"
        ∷ bytes core
        ∷ lit "\")"
        ∷ []))
  reject_strange item core
  throw_if (ltb (length core) 4) (
      item_error item (
        lit "\""
        ∷ bytes core
        ∷ lit "\" has "
        ∷ num (length core)
        ∷ lit " rank symbol(s); "
        ∷ lit pad_hint
        ∷ []))
  throw_if (ltb 4 (length core)) (
      item_error item (
        lit "\""
        ∷ bytes core
        ∷ lit "\" has "
        ∷ num (length core)
        ∷ lit " rank symbols; "
        ∷ lit too_many_hint
        ∷ []))

unfoldable pub parse_pattern : Text → Text → Result PloPattern
parse_pattern item body = do
  let (core, suit) = core_and_suit body
  check_core item core
  ok (make_plo_pattern (map rank_symbol_value core) suit)
