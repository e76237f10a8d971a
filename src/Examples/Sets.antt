-- ===== src/Examples/Sets.antt =====
-- The set of keys and the threads of generate_canonical_situations at concrete inputs.
use xia_pl.Base.{
  ℕ, ◌*◌, ◌-◌, ◌^◌, ◌≤◌, ◌≡◌, ◌||◌, ◌==◌, some, List, [], ◌∷◌, length, replicate, arith,
}
use xia_pl.Base.Sets.{contains, Distinct}
use xia_pl.Canonicalize.FlatSet.{FlatU64Set, insert, for_each, size, new_set}
use xia_pl.Canonicalize.FlatSet.Laws.{IsKeySet, empty-IsKeySet, insert_lem, new_set_lem}
use xia_pl.Canonicalize.Situations.{ranges}
use xia_pl.Canonicalize.Situations.Threads.{all_of, ranges-all_of}

abbrev empty_set : FlatU64Set
empty_set = record { table = replicate (2 ^ 4) 0; mask = 2 ^ 4 - 1; count = 0 }

insert_lem_example :
    (s' : FlatU64Set) × (insert empty_set 77 ≡ some s')
    × IsKeySet 4 s'
    × ((m : ℕ) → contains m (for_each s') ≡ (m == 77 || contains m (for_each empty_set)))
    × Distinct (for_each s')
    × (size s' ≡ length (for_each s'))
unfolding size
insert_lem_example = insert_lem 4 empty_set 77 (empty-IsKeySet 4) (λ e. omega arith) (omega arith)

new_set_lem_example :
    (k : ℕ) × (s : FlatU64Set) × (new_set 1350000 ≡ some s)
    × IsKeySet k s
    × (1350000 * 2 ≤ 2 ^ k)
    × (for_each s ≡ [])
    × (size s ≡ 0)
new_set_lem_example = new_set_lem 1350000 (omega arith)

abbrev five_pairs : List ℕ
five_pairs = 10 ∷ 20 ∷ 30 ∷ 40 ∷ 50 ∷ []

ranges-all_of_example : all_of (ranges 3 five_pairs) ≡ five_pairs
ranges-all_of_example = ranges-all_of 3 five_pairs (omega arith)
