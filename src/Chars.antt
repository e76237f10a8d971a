-- ===== src/Chars.antt =====
-- The character tables of src/core/utils.cpp. A `char` is its code.
pub mod Tables
use xia_pl.Base.{ℕ, ◌+◌, Bool, ◌&&◌, ◌||◌, ◌==◌, leb, if◌then◌else◌, Option, none, some}

unfoldable pub try_rank_from_char : ℕ → Option ℕ
try_rank_from_char c =
    if c == b'2'
    then some 2
    else if c == b'3'
    then some 3
    else if c == b'4'
    then some 4
    else if c == b'5'
    then some 5
    else if c == b'6'
    then some 6
    else if c == b'7'
    then some 7
    else if c == b'8'
    then some 8
    else if c == b'9'
    then some 9
    else if c == b'T' || c == b't'
    then some 10
    else if c == b'J' || c == b'j'
    then some 11
    else if c == b'Q' || c == b'q'
    then some 12
    else if c == b'K' || c == b'k'
    then some 13
    else if c == b'A' || c == b'a'
    then some 14
    else none

unfoldable pub try_suit_from_char : ℕ → Option ℕ
try_suit_from_char c =
    if c == b'c' || c == b'C'
    then some 0
    else if c == b'd' || c == b'D'
    then some 1
    else if c == b'h' || c == b'H'
    then some 2
    else if c == b's' || c == b'S'
    then some 3
    else none

unfoldable pub rank_to_char : ℕ → ℕ
rank_to_char rank =
    if leb 2 rank && leb rank 9
    then b'0' + rank
    else if rank == 10
    then b'T'
    else if rank == 11
    then b'J'
    else if rank == 12
    then b'Q'
    else if rank == 13
    then b'K'
    else if rank == 14
    then b'A'
    else b'?'

unfoldable pub suit_to_char : ℕ → ℕ
suit_to_char suit =
    if suit == 0
    then b'c'
    else if suit == 1
    then b'd'
    else if suit == 2
    then b'h'
    else if suit == 3
    then b's'
    else b'?'
