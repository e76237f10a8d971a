-- ===== src/Chars/Tables.antt =====
-- What the two directions of the tables have to do with each other.
use xia_pl.Base.{
  ℕ, ◌≤◌, ◌≡◌, refl, ◌||◌, ◌==◌, ltb, Bool, true, false, Option, none, some, arith, all_below,
  all_below_sound,
}
use xia_pl.Chars.{try_rank_from_char, try_suit_from_char, rank_to_char, suit_to_char}

-- A parsed rank is from 2 to 14.
pub try_rank_from_char_range : (c r : ℕ) → try_rank_from_char c ≡ some r → (2 ≤ r) × (r ≤ 14)
unfolding try_rank_from_char
try_rank_from_char_range c r h = ground arith

-- A parsed suit is from 0 to 3.
pub try_suit_from_char_range : (c s : ℕ) → try_suit_from_char c ≡ some s → s ≤ 3
unfolding try_suit_from_char
try_suit_from_char_range c s h = ground arith

reads : Option ℕ → ℕ → Bool
reads none n = false
reads (some m) n = m == n

reads_sound : (o : Option ℕ) (n : ℕ) → reads o n ≡ true → o ≡ some n
unfolding reads
reads_sound none n h = cc
reads_sound (some m) n h = ground arith

rank_table : all_below 15 (λ r. ltb r 2 || reads (try_rank_from_char (rank_to_char r)) r) ≡ true
unfolding all_below reads try_rank_from_char rank_to_char
rank_table = refl

suit_table : all_below 4 (λ s. reads (try_suit_from_char (suit_to_char s)) s) ≡ true
unfolding all_below reads try_suit_from_char suit_to_char
suit_table = refl

-- Every rank and every suit reads back from the character that it is written as.
from_char-to_char :
    (r s : ℕ)
    → 2 ≤ r
    → r ≤ 14
    → s ≤ 3
    → (try_rank_from_char (rank_to_char r) ≡ some r)
      × (try_suit_from_char (suit_to_char s) ≡ some s)
from_char-to_char r s lo hi h = (
  reads_sound _ r (ground (arith, all_below_sound 15 _ r rank_table)),
  reads_sound _ s (all_below_sound 4 _ s suit_table (omega arith)),
)
