-- ===== src/Canonicalize/FlatSet.antt =====
-- U64Mix and FlatU64Set of src/core/canonicalize.cpp: a set of words by open addressing. The empty slot
-- is 0.
pub mod Slots
pub mod Laws
use xia_pl.Base.{
  ℕ, zero, suc, ◌+◌, ◌-◌, ◌*◌, ◌/◌, ◌%◌, ◌^◌, bit_and, bit_xor, ◌==◌, ltb, if◌then◌else◌, Option,
  none, some, List, [], ◌∷◌, length, get_or, set, replicate, max,
}

-- U64Mix
unfoldable pub mix : ℕ → ℕ
mix k =
    let a = bit_xor k (k / 2 ^ 33) in
    let b = a * 18397679294719823053 % 2 ^ 64 in
    let c = bit_xor b (b / 2 ^ 33) in
    let d = c * 14181476777654086739 % 2 ^ 64 in bit_xor d (d / 2 ^ 33)

pub record FlatU64Set : Type 0 where
  pub table : List ℕ
  pub mask : ℕ
  pub count : ℕ

-- the loop of the constructor, with at most `left` rounds; a word has 64 bits to shift through
unfoldable pub round_up : ℕ → ℕ → ℕ → Option ℕ
round_up zero cap target = none
round_up (suc left) cap target =
    let rest = round_up left (cap * 2 % 2 ^ 64) target in if ltb cap target then rest else some cap

-- FlatU64Set(expected)
unfoldable pub new_set : ℕ → Option FlatU64Set
unfolding round_up
new_set expected = elim (round_up 64 1 (max (expected * 2 % 2 ^ 64) 16)) [
  | none ↦ none
  | some cap ↦ some (record { table = replicate cap 0; mask = cap - 1; count = 0 })
]

-- the loop of `insert` at `pos`, with at most `left` rounds
unfoldable pub insert_from : ℕ → FlatU64Set → ℕ → ℕ → Option FlatU64Set
insert_from zero s key pos = none
insert_from (suc left) s key pos =
    let v = get_or s.table pos 0 in
    let rest = insert_from left s key (bit_and (pos + 1) s.mask) in
    if v == 0
    then some (record { table = set s.table pos key; mask = s.mask; count = s.count + 1 })
    else if v == key
    then some s
    else rest

-- As many rounds as slots; `none` stands for a loop that finds no slot.
unfoldable pub insert : FlatU64Set → ℕ → Option FlatU64Set
insert s key = insert_from (length s.table) s key (bit_and (mix key) s.mask)

unfoldable pub size : FlatU64Set → ℕ
size s = s.count

-- the keys for which for_each calls its function, in order
unfoldable pub keys : List ℕ → List ℕ
keys [] = []
keys (v ∷ table) = let rest = keys table in if v == 0 then rest else v ∷ rest

unfoldable pub for_each : FlatU64Set → List ℕ
unfolding keys
for_each s = keys s.table

unfoldable pub clear_and_shrink : FlatU64Set → FlatU64Set
clear_and_shrink s = record { table = []; mask = 0; count = 0 }

-- the keys of a list, one after the other
unfoldable pub insert_all : FlatU64Set → List ℕ → Option FlatU64Set
insert_all s [] = some s
insert_all s (k ∷ ks) = elim (insert s k) [ none ↦ none | some s' ↦ insert_all s' ks ]
