-- ===== src/HandValue.antt =====
-- include/xiapl/hand_value.h and src/core/hand_value.cpp. A category is
-- the `uint8_t` under the enumeration, which a cast can fill with any value.
pub mod Order
use xia_pl.Base.{
  ℕ, ◌+◌, ◌%◌, ◌^◌, Bool, true, false, not, ◌&&◌, ◌||◌, ◌==◌, ◌!=◌, leb, ltb, if◌then◌else◌, List,
  [], ◌∷◌, length, replicate, set, get_or, zero, suc, String, ◌++◌,
}
use xia_pl.Base.Int.{ℤ, pos, pos_part, ltb_ℤ}
use xia_pl.Base.Errors.{Result, ok, err, runtime_error, Piece, lit, num, throw_if, ◌>>=◌, ◌>>◌}

-- enum class HandCategory
abbrev pub high_card : ℕ
high_card = 1

abbrev pub one_pair : ℕ
one_pair = 2

abbrev pub two_pair : ℕ
two_pair = 3

abbrev pub three_of_a_kind : ℕ
three_of_a_kind = 4

abbrev pub straight : ℕ
straight = 5

abbrev pub flush : ℕ
flush = 6

abbrev pub full_house : ℕ
full_house = 7

abbrev pub four_of_a_kind : ℕ
four_of_a_kind = 8

abbrev pub straight_flush : ℕ
straight_flush = 9

-- `kickers` has five entries.
pub record HandValue : Type 0 where
  pub category : ℕ
  pub kickers : List ℕ
  pub kicker_count : ℕ

unfoldable pub is_valid_category : ℕ → Bool
is_valid_category category = leb 1 category && leb category 9

unfoldable pub kickers_eq : List ℕ → List ℕ → Bool
kickers_eq [] [] = true
kickers_eq [] (y ∷ ys) = false
kickers_eq (x ∷ xs) [] = false
kickers_eq (x ∷ xs) (y ∷ ys) = x == y && kickers_eq xs ys

-- std::lexicographical_compare
unfoldable pub lexicographical_compare : List ℕ → List ℕ → Bool
lexicographical_compare [] [] = false
lexicographical_compare [] (y ∷ ys) = true
lexicographical_compare (x ∷ xs) [] = false
lexicographical_compare (x ∷ xs) (y ∷ ys) =
    if ltb x y then true else if ltb y x then false else lexicographical_compare xs ys

unfoldable pub hand_eq : HandValue → HandValue → Bool
hand_eq lhs rhs =
    lhs.category == rhs.category
    && lhs.kicker_count == rhs.kicker_count
    && kickers_eq lhs.kickers rhs.kickers

unfoldable pub hand_ne : HandValue → HandValue → Bool
unfolding hand_eq
hand_ne lhs rhs = not (hand_eq lhs rhs)

unfoldable pub hand_lt : HandValue → HandValue → Bool
hand_lt lhs rhs =
    if lhs.category != rhs.category
    then ltb lhs.category rhs.category
    else if not (kickers_eq lhs.kickers rhs.kickers)
    then lexicographical_compare lhs.kickers rhs.kickers
    else ltb lhs.kicker_count rhs.kicker_count

unfoldable pub hand_gt : HandValue → HandValue → Bool
hand_gt lhs rhs = hand_lt rhs lhs

unfoldable pub hand_le : HandValue → HandValue → Bool
hand_le lhs rhs = not (hand_lt rhs lhs)

unfoldable pub hand_ge : HandValue → HandValue → Bool
hand_ge lhs rhs = not (hand_lt lhs rhs)

-- to_string(category)
abbrev pub category_text : ℕ → String
category_text category =
    if category == high_card
    then "High Card"
    else if category == one_pair
    then "One Pair"
    else if category == two_pair
    then "Two Pair"
    else if category == three_of_a_kind
    then "Three of a Kind"
    else if category == straight
    then "Straight"
    else if category == flush
    then "Flush"
    else if category == full_house
    then "Full House"
    else if category == four_of_a_kind
    then "Four of a Kind"
    else if category == straight_flush
    then "Straight Flush"
    else "Unknown"

-- the loop of `describe_hand` from index `i`
kicker_pieces : ℕ → ℕ → List ℕ → List Piece
kicker_pieces zero i kickers = []
kicker_pieces (suc left) i kickers =
    (if ltb 0 i then lit " " ∷ [] else [])
    ++ num (get_or kickers i 0) ∷ kicker_pieces left (i + 1) kickers

-- what is written to the stream
pub describe_hand : HandValue → List Piece
describe_hand value =
    lit (category_text value.category)
    ∷ (if ltb 0 value.kicker_count
        then lit " [" ∷ kicker_pieces value.kicker_count 0 value.kickers ++ lit "]" ∷ []
        else [])

-- the loop of `make_hand_value` at index `i`
fill_kickers : ℕ → List ℤ → HandValue → Result HandValue
fill_kickers i [] value = ok value
fill_kickers i (k ∷ ks) value =
    throw_if (ltb_ℤ k (pos 0) || ltb_ℤ (pos 14) k) (runtime_error "make_hand_value: invalid kicker")
    >> fill_kickers (i + 1) ks (record value { kickers = set value.kickers i (pos_part k % 2 ^ 8) })

pub make_hand_value : ℕ → List ℤ → Result HandValue
make_hand_value category kickers = do
  throw_if (not (is_valid_category category))
      (runtime_error "make_hand_value: invalid hand category")
  throw_if (ltb 5 (length kickers)) (runtime_error "make_hand_value: too many kickers")
  fill_kickers 0 kickers (record {
    category = category;
    kickers = replicate 5 0;
    kicker_count = length kickers % 2 ^ 8;
  })
