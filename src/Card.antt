-- ===== src/Card.antt =====
-- include/xiapl/card.h and src/core/card.cpp. An id is a `uint8_t`; 255 marks the invalid card.
-- Text is the list of its characters' codes.
pub mod Text
use xia_pl.Base.{
  ℕ, ◌+◌, ◌-◌, ◌*◌, ◌/◌, ◌%◌, ◌^◌, Bool, ◌&&◌, ◌||◌, ◌==◌, ◌!=◌, leb, ltb, if◌then◌else◌, Option,
  none, some, List, [], ◌∷◌, ◌++◌, length, get_or,
}
use xia_pl.Base.Int.{ℤ, pos, pos_part, ltb_ℤ}
use xia_pl.Base.Errors.{Result, ok, err, invalid_argument, throw_if, ◌>>=◌, ◌>>◌}
use xia_pl.Chars.{try_rank_from_char, try_suit_from_char}

pub record Card : Type 0 where
  pub id : ℕ

abbrev pub invalid_id : ℕ
invalid_id = 255

-- Card()
abbrev pub invalid_card : Card
invalid_card = record { id = invalid_id }

abbrev pub rank_chars : List ℕ
rank_chars =
    b'2' ∷ b'3' ∷ b'4' ∷ b'5' ∷ b'6' ∷ b'7' ∷ b'8' ∷ b'9' ∷ b'T' ∷ b'J' ∷ b'Q' ∷ b'K' ∷ b'A' ∷ []

abbrev pub suit_chars : List ℕ
suit_chars = b'c' ∷ b'd' ∷ b'h' ∷ b's' ∷ []

unfoldable pub get_suit_int : ℕ → Result ℕ
get_suit_int s = elim (try_suit_from_char s) [
  | some v ↦ ok v
  | none ↦ err (invalid_argument "Invalid suit char")
]

unfoldable pub get_rank_int : ℕ → Result ℕ
get_rank_int r = elim (try_rank_from_char r) [
  | some v ↦ ok v
  | none ↦ err (invalid_argument "Invalid rank char")
]

-- Card(IdType raw_id)
pub card_of_id : ℕ → Result Card
card_of_id raw_id =
    throw_if (raw_id != invalid_id && leb 52 raw_id)
      (invalid_argument "Card id must be 0..51 or INVALID_ID(255)")
    >> ok (record { id = raw_id })

-- Card(int rank, int suit). Past the test both are natural numbers.
unfoldable pub card_of_ints : ℤ → ℤ → Result Card
card_of_ints rank suit =
    throw_if (ltb_ℤ rank (pos 2) || ltb_ℤ (pos 14) rank || ltb_ℤ suit (pos 0) || ltb_ℤ (pos 3) suit)
      (invalid_argument "Invalid rank or suit")
    >> ok (record { id = (pos_part suit * 13 + (pos_part rank - 2)) % 2 ^ 8 })

-- Card(Rank rank, Suit suit). An enumeration may hold any value of its `uint8_t`.
pub card_of_enums : ℕ → ℕ → Result Card
card_of_enums r s =
    throw_if (ltb r 2 || ltb 14 r || ltb 3 s) (invalid_argument "Invalid Rank or Suit enum value")
    >> ok (record { id = (s * 13 + (r - 2)) % 2 ^ 8 })

unfoldable pub rank : Card → ℕ
rank c = c.id % 13 + 2

unfoldable pub suit : Card → ℕ
suit c = c.id / 13

abbrev invalid_text : List ℕ
invalid_text = b'I' ∷ b'n' ∷ b'v' ∷ b'a' ∷ b'l' ∷ b'i' ∷ b'd' ∷ []

unfoldable pub to_string : Card → List ℕ
unfolding rank suit
to_string c =
    if c.id == invalid_id
    then invalid_text
    else (let r_idx = rank c - 2 in
        let s_idx = suit c in get_or rank_chars r_idx 0 ∷ get_or suit_chars s_idx 0 ∷ [])

abbrev card_prefix : List ℕ
card_prefix = b'<' ∷ b'C' ∷ b'a' ∷ b'r' ∷ b'd' ∷ b' ' ∷ []

pub repr : Card → List ℕ
repr c =
    if c.id == invalid_id
    then card_prefix ++ invalid_text ++ b'>' ∷ []
    else card_prefix ++ to_string c ++ b'>' ∷ []

-- the two characters, once the length is 2
from_chars : ℕ → ℕ → Result Card
from_chars a b = do r ← get_rank_int a; s ← get_suit_int b; card_of_ints (pos r) (pos s)

unfoldable pub from_string : List ℕ → Result Card
unfolding from_chars
from_string s = do
  throw_if (length s != 2) (invalid_argument "Card string must be 2 characters")
  from_chars (get_or s 0 0) (get_or s 1 0)

unfoldable pub from_id : ℕ → Card
from_id id = if ltb id 52 then record { id = id } else invalid_card

-- `return Card(*rank, *suit)` would throw what the constructor throws; `Text` shows it never does.
of_parsed : Option ℕ → Option ℕ → Result (Option Card)
of_parsed none s = ok none
of_parsed (some r) none = ok none
of_parsed (some r) (some s) = card_of_ints (pos r) (pos s) >>= λ c. ok (some c)

unfoldable pub try_parse_card : List ℕ → Result (Option Card)
unfolding of_parsed
try_parse_card text =
    if length text != 2
    then ok none
    else of_parsed (try_rank_from_char (get_or text 0 0)) (try_suit_from_char (get_or text 1 0))
