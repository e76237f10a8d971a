-- ===== src/Card/Text.antt =====
-- Cards and their text.
use xia_pl.Base.{
  ℕ, ◌+◌, ◌-◌, ◌*◌, ◌<◌, ◌≡◌, ◌↔◌, ◌⊎◌, inl, inr, refl, Bool, Bool-cases, Option-cases, ◌!=◌,
  all_below, all_below_sound, true, false, ◌==◌, none, some, List, length, arith, get_or,
}
use xia_pl.Base.Int.{ℤ, pos}
use xia_pl.Base.Errors.{Result, Exception, invalid_argument, ok, err}
use xia_pl.Chars.{try_rank_from_char, try_suit_from_char}
use xia_pl.Chars.Tables.{try_rank_from_char_range, try_suit_from_char_range}
use xia_pl.Card.{
  Card, card_of_ints, rank, suit, to_string, get_rank_int, get_suit_int, from_string, from_chars,
  try_parse_card, of_parsed,
}

abbrev pub IsCard : Card → Type 0
IsCard c = c.id < 52

-- The constructor from a rank and a suit succeeds exactly on ranks 2 to 14 and suits 0 to 3; it
-- then gives the card of the deck whose accessors return that rank and that suit.
card_of_ints_iff :
    (r s : ℤ) (c : Card)
    → (card_of_ints r s ≡ ok c) ↔ (IsCard c × (r ≡ pos (rank c)) × (s ≡ pos (suit c)))
unfolding card_of_ints rank suit
card_of_ints_iff r s c = ground arith

reads_id : Result Card → ℕ → Bool
reads_id (ok c) i = c.id == i
reads_id (err e) i = false

reads_id_sound : (r : Result Card) (c : Card) → reads_id r c.id ≡ true → r ≡ ok c
unfolding reads_id
reads_id_sound (ok d) c h = ground arith
reads_id_sound (err e) c h = cc

text_table : all_below 52 (λ i. reads_id (from_string (to_string (record { id = i }))) i) ≡ true
unfolding all_below reads_id from_string from_chars to_string get_rank_int get_suit_int
    try_rank_from_char try_suit_from_char card_of_ints
text_table = refl

-- Every card of the deck reads back from its text.
pub from_string-to_string : (c : Card) → IsCard c → from_string (to_string c) ≡ ok c
from_string-to_string c h = reads_id_sound _ c (all_below_sound 52 _ c.id text_table h)

parsers_agree :
    (a b : ℕ)
    → ((c : Card) × (from_chars a b ≡ ok c)
        × (of_parsed (try_rank_from_char a) (try_suit_from_char b) ≡ ok (some c))
        × IsCard c)
      ⊎ ((e : Exception) × (from_chars a b ≡ err e)
          × (of_parsed (try_rank_from_char a) (try_suit_from_char b) ≡ ok none))
unfolding from_chars of_parsed get_rank_int get_suit_int
parsers_agree a b = elim (Option-cases (try_rank_from_char a)) [
  | inl e ↦ inr (invalid_argument "Invalid rank char", ground arith, ground arith)
  | inr (r, e) ↦ elim (Option-cases (try_suit_from_char b)) [
    | inl f ↦ inr (invalid_argument "Invalid suit char", ground arith, ground arith)
    | inr (s, f) ↦
        let made : card_of_ints (pos r) (pos s) ≡ ok (record { id = s * 13 + (r - 2) }) =
          unfold card_of_ints in
          ground (arith, try_rank_from_char_range a r e, try_suit_from_char_range b s f) in
        inl (
          record { id = s * 13 + (r - 2) },
          ground (arith, made),
          ground (arith, made),
          omega (arith, try_rank_from_char_range a r e, try_suit_from_char_range b s f),
        )
  ]
]

-- The two parsers agree: where one throws, the other returns nothing and does not throw, and
-- where they give a card it is the same card of the deck.
pub try_parse_card-from_string :
    (s : List ℕ)
    → ((c : Card) × (from_string s ≡ ok c) × (try_parse_card s ≡ ok (some c)) × IsCard c)
      ⊎ ((e : Exception) × (from_string s ≡ err e) × (try_parse_card s ≡ ok none))
unfolding from_string try_parse_card
try_parse_card-from_string s = elim (Bool-cases (length s != 2)) [
  | inl bad ↦ inr (invalid_argument "Card string must be 2 characters", ground arith, ground arith)
  | inr good ↦ rw good (parsers_agree (get_or s 0 0) (get_or s 1 0))
]
