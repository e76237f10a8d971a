-- ===== src/Lib.antt =====
-- The verification library of XiaPL, a C++ library for poker equity.
--
-- The program. Cards are ids 0 to 51 and sets of cards are 52-bit masks. The evaluator packs the
-- value of five to seven cards into a score; judging scores each player and collects the best; the
-- Monte Carlo driver splits the trials into chunks and runs them on worker threads; a deck and a
-- random number generator feed the simulations, whose boards are enumerated or sampled. Ranges are
-- lists of weighted hands with a parser and set operations; an alias sampler draws from them;
-- canonical forms name a hand and a board up to the suits. The equity of fixed hands runs the
-- judging over boards, by the driver where they are sampled.
--
-- Which file models which part:
--   Chars      the characters of ranks and suits, src/core/utils.cpp
--   Card       struct Card and the two parsers, include/xiapl/card.h and src/core/card.cpp
--   Mask       masks, ids and cards, include/xiapl/utils.h and src/core/utils.cpp
--   HandValue  hand values and their operators, src/core/hand_value.cpp
--   Evaluator  eval_score7 and decode_score, src/core/eval_core.h
--   Judge      evaluate_* and judge_*, src/core/eval.cpp and src/core/eval_internal.h
--   Chunks     run_mc_chunks, run_chunks_parallel, seeds and thread counts, src/core/mc_chunking.h
--   Deck       class Deck, src/core/deck.cpp
--   Rng        class FastRng, include/xiapl/detail/fast_rng.h
--   Text       the scanning of texts in src/core/range_holdem.cpp
--   Holdem     the notations of Hold'em hands, src/core/range_holdem.cpp
--   Weights    what the ranges use of `double`
--   Range      class Range, src/core/range.cpp; Range/Parse its parser, with src/core/range_parse.h;
--              Range/SetOps the set operations, src/core/range_setops.cpp
--   Canonicalize  canonical forms and packed keys, src/core/canonicalize.cpp; Canonicalize/FlatSet the
--              set of keys, Canonicalize/Situations the enumeration of all situations
--   BoardSample   checked masks, enumerated and sampled boards, src/core/board_sample.h
--   PloPattern    rank patterns of PLO hands, src/core/plo_pattern.h
--   PloRange   the notation of PLO ranges, src/core/range_plo.cpp; PloRange/Patterns its hands and
--              patterns, PloRange/Progressions the progressions, PloRange/Merge parse_plo_range
--   Preflop    the best starting hands of a table, src/core/preflop_rank.cpp
--   Equity     simulate_multiway, simulate_heads_up and calculate_equity, src/core/equity_hands.cpp
--   AliasPicker   the weighted sampler, src/core/alias_picker.h
--   Base       shared names and lemmas: lists and Boolean tests over native numbers, bits of words,
--              sets of small numbers, exceptions as values
--   Examples   the theorems at concrete inputs
-- Functions keep the names of the source. A lambda or a branch of a long function is a definition
-- of its own (score_flush, score_pairs, ...), composed as the source composes them.
--
-- The model. Machine words are native numbers with the wrap-around written out; an `int` argument
-- that can be negative is an integer of Base.Int. An exception is a value of Base.Errors.Exception
-- with its message, and a throwing function returns Result. A loop with a fixed number of rounds is
-- structural recursion on the rounds left. The worker threads are a step relation: one step draws
-- an index by fetch_add or ends a chunk, in any order, and a chunk is a function of its index, as
-- the driver's contract asks. A weight is a value of a type with the operations of Weights, which
-- stands for `double`; no law is assumed of them. What the simulators do beyond it (quotient,
-- product, conversion, std::sqrt) is the record Shares, and `==` and the text of a weight are
-- WeightText. The parser of PLO ranges is an argument of range_from_string, which parse_plo_range
-- can fill, and std::shuffle one of the shuffles; the table of preflop ranks is an argument too. A
-- text is the list of its bytes. Since its threads may interleave in many ways, a call of a
-- simulator is a relation to the outcomes that it can have. An enumeration of a deck that cannot
-- complete the board reads past its end, which is undefined behaviour: it is related to every outcome.
-- calculate_equity comes to it with 12 or 13 PLO hands, which its validation accepts.
--
-- Bounds and fuel. mask_to_indices pops at most 32 bits, which is all that a uint32_t holds. The
-- rejection loop of FastRng::bounded runs on fuel and returns none when it runs out; a random
-- sequence gives no bound for it, so the fuel is an argument, here and in sample_boards, which draws
-- by it. enumerate_boards runs on fuel too, one unit for each board, and so does the pairing loop of
-- AliasPicker, which takes an index off its stacks in each round: a unit for each mask is enough. A
-- simulation that lacks the fuel has the outcome `none`; a read past the end of a deck gives `none`
-- too. The loop of an open progression runs for at most 14 rounds, since a rank leaves 2 to 14
-- before. A set of keys is probed for a round for each slot, and grown for the 64 bits of a word;
-- the enumeration of the situations of a pair is on fuel.
--
-- Not modelled: std::random_device, floating-point draws, the equity of ranges and
-- the C interface, which are not reached yet; the Python binding, tools and tests, which are glue
-- around the core.
mod Base
pub mod Chars
pub mod Card
pub mod Mask
pub mod HandValue
pub mod Evaluator
pub mod Chunks
pub mod Judge
pub mod Deck
pub mod Rng
pub mod Text
pub mod Holdem
pub mod Weights
pub mod Range
pub mod Canonicalize
pub mod BoardSample
pub mod PloPattern
pub mod AliasPicker
pub mod Equity
pub mod PloRange
pub mod Preflop
mod Examples
