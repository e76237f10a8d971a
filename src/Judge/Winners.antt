-- ===== src/Judge/Winners.antt =====
-- Who wins.
use xia_pl.Base.{
  ℕ, zero, suc, ◌+◌, ◌^◌, ◌≤◌, ◌<◌, bit_or, ◌≡◌, ◌≢◌, ◌⊎◌, ◌↔◌, inl, inr, refl, ap, sym, ◌∙◌, Bool,
  true, false, ◌&&◌, ◌||◌, ◌==◌, ltb, if◌then◌else◌, List, [], ◌∷◌, length, get_elem?, some, arith,
  Bool-cases, All,
}
use xia_pl.Base.Bits.{test_bit, test_bit-bit_or, test_bit-two_pow, test_bit-zero, lt_of_test_bit}
use xia_pl.Mask.{ctz64}
use xia_pl.Base.Words.{
  countr_zero, test_bit-countr_zero, set_bits, pop_bits-eq-set_bits, popcount-le,
}
use xia_pl.Base.Sets.{contains, AscendingFrom, set_bits-AscendingFrom, contains-set_bits}
use xia_pl.Evaluator.Lanes.{popcount_wide}
use xia_pl.Judge.{best_score, collect_winners, winner_mask_from_scores, mask_to_indices}

contains-nil : (i : ℕ) → contains i [] ≡ false
unfolding contains
contains-nil i = refl

best_score_bounds :
    (ss : List ℕ) (best : ℕ) → (best ≤ best_score ss best) × All (λ s. s ≤ best_score ss best) ss
unfolding best_score
best_score_bounds [] best = (omega arith, tt)
best_score_bounds (s ∷ ss) best =
    let b = if ltb best s then s else best in
    let rest = best_score_bounds ss (if ltb best s then s else best) in
    (ground (arith, rest.0), (ground (arith, rest.0), rest.1))

best_score-attained :
    (ss : List ℕ) (best : ℕ)
    → (best_score ss best ≡ best) ⊎ ((i : ℕ) × (get_elem? ss i ≡ some (best_score ss best)))
unfolding best_score
best_score-attained [] best = inl refl
best_score-attained (s ∷ ss) best = elim (Bool-cases (ltb best s)) [
  | inl more ↦
      rw (more, best_score)
        (elim (best_score-attained ss s) [
          | inl e ↦ inr (0, ap some (sym e))
          | inr (i, e) ↦ inr (suc i, e)
        ])
  | inr less ↦
      rw (less, best_score)
        (elim (best_score-attained ss best) [ inl e ↦ inl e | inr (i, e) ↦ inr (suc i, e) ])
]

-- Player i has score b.
unfoldable pub has_score : List ℕ → ℕ → ℕ → Bool
has_score [] i b = false
has_score (s ∷ ss) zero b = s == b
has_score (s ∷ ss) (suc i) b = has_score ss i b

has_score_iff : (ss : List ℕ) (i b : ℕ) → (has_score ss i b ≡ true) ↔ (get_elem? ss i ≡ some b)
unfolding has_score
has_score_iff [] i b = ground arith
has_score_iff (s ∷ ss) zero b = ground arith
has_score_iff (s ∷ ss) (suc i) b = has_score_iff ss i b

collect_below :
    (ss : List ℕ) (k best winners i : ℕ)
    → i < k
    → test_bit (collect_winners ss k best winners) i ≡ test_bit winners i
unfolding collect_winners
collect_below [] k best winners i h = refl
collect_below (s ∷ ss) k best winners i h = elim (Bool-cases (s == best)) [
  | inl e ↦ rw e (
      collect_below ss (k + 1) best (bit_or winners (2 ^ k)) i (omega arith)
      ∙ ground (arith, test_bit-bit_or winners (2 ^ k) i, test_bit-two_pow k i))
  | inr e ↦ rw e (collect_below ss (k + 1) best winners i (omega arith))
]

-- From index k on, the winners are those that held a bit and those with the best score.
collect_above :
    (ss : List ℕ) (k best winners j : ℕ)
    → test_bit (collect_winners ss k best winners) (j + k)
      ≡ (test_bit winners (j + k) || has_score ss j best)
unfolding collect_winners has_score
collect_above [] k best winners j = ground arith
collect_above (s ∷ ss) k best winners zero = elim (Bool-cases (s == best)) [
  | inl e ↦ rw e (
      ground (
        arith,
        collect_below ss (k + 1) best (bit_or winners (2 ^ k)) (0 + k) (omega arith),
        test_bit-bit_or winners (2 ^ k) (0 + k),
        test_bit-two_pow k (0 + k),
      ))
  | inr e ↦ rw e (ground (arith, collect_below ss (k + 1) best winners (0 + k) (omega arith)))
]
collect_above (s ∷ ss) k best winners (suc j) =
    let p : j + (k + 1) ≡ suc j + k = omega arith in
    elim (Bool-cases (s == best)) [
      | inl e ↦
          let ih : test_bit (collect_winners ss (k + 1) best (bit_or winners (2 ^ k))) (suc j + k)
              ≡ (test_bit (bit_or winners (2 ^ k)) (suc j + k) || has_score ss j best) =
            rw (← p) (collect_above ss (k + 1) best (bit_or winners (2 ^ k)) j) in
          rw e (
            ground (
              arith,
              ih,
              test_bit-bit_or winners (2 ^ k) (suc j + k),
              test_bit-two_pow k (suc j + k),
            ))
      | inr e ↦
          let ih : test_bit (collect_winners ss (k + 1) best winners) (suc j + k)
              ≡ (test_bit winners (suc j + k) || has_score ss j best) =
            rw (← p) (collect_above ss (k + 1) best winners j) in
          rw e (ground (arith, ih))
    ]

winner_bit :
    (ss : List ℕ) (i : ℕ)
    → test_bit (winner_mask_from_scores ss) i
      ≡ (ltb 0 (best_score ss 0) && has_score ss i (best_score ss 0))
unfolding winner_mask_from_scores
winner_bit ss i =
    let e : i + 0 ≡ i = omega arith in
    let above : test_bit (collect_winners ss 0 (best_score ss 0) 0) i
        ≡ (test_bit 0 i || has_score ss i (best_score ss 0)) =
      rw e at (collect_above ss 0 (best_score ss 0) 0 i) in
    elim (Bool-cases (best_score ss 0 == 0)) [
      | inl z ↦ rw z (ground (arith, test_bit-zero i))
      | inr n ↦ rw n (ground (arith, above, test_bit-zero i))
    ]

has_score-lt : (ss : List ℕ) (i b : ℕ) → has_score ss i b ≡ true → i < length ss
unfolding has_score
has_score-lt [] i b h = cc
has_score-lt (s ∷ ss) zero b h = omega arith
has_score-lt (s ∷ ss) (suc i) b h = omega (arith, has_score-lt ss i b h)

winner_mask-lt : (ss : List ℕ) → length ss ≤ 32 → winner_mask_from_scores ss < 2 ^ 32
winner_mask-lt ss h =
    lt_of_test_bit 32 _
      (λ i l. ground (arith, winner_bit ss i, has_score-lt ss i (best_score ss 0)))

indices-eq-set_bits : (w : ℕ) → w < 2 ^ 32 → mask_to_indices w ≡ set_bits 64 0 w
unfolding mask_to_indices
indices-eq-set_bits w h =
    pop_bits-eq-set_bits 64 32 w (omega arith)
      (omega (arith, popcount_wide 64 32 w (omega arith) h, popcount-le 32 w))

All_at {κ} :
    (P : ℕ → Type κ) (ss : List ℕ) (i : ℕ) {s : ℕ} → All P ss → get_elem? ss i ≡ some s → P s
All_at P [] i a h = cc
All_at P (x ∷ xs) zero {s} a h = let e : x ≡ s = cc in rw (← e) a.0
All_at P (x ∷ xs) (suc i) a h = All_at P xs i a.1 h

-- The best score is the one that no other exceeds.
best_of :
    (ss : List ℕ) (i s : ℕ)
    → get_elem? ss i ≡ some s
    → 0 < s
    → All (λ t. t ≤ s) ss
    → best_score ss 0 ≡ s
best_of ss i s at pos top =
    let ge : s ≤ best_score ss 0 =
      All_at (λ t. t ≤ best_score ss 0) ss i (best_score_bounds ss 0).1 at in
    elim (best_score-attained ss 0) [
      | inl e ↦ absurd (omega arith)
      | inr (j, e) ↦ let le : best_score ss 0 ≤ s = All_at (λ t. t ≤ s) ss j top e in omega arith
    ]

indices_contain :
    (ss : List ℕ) (i : ℕ)
    → length ss ≤ 32
    → contains i (mask_to_indices (winner_mask_from_scores ss))
      ≡ (ltb 0 (best_score ss 0) && has_score ss i (best_score ss 0))
indices_contain ss i h =
    let lt : winner_mask_from_scores ss < 2 ^ 32 = winner_mask-lt ss h in
    let e : i + 0 ≡ i = omega arith in
    let c : contains i (set_bits 64 0 (winner_mask_from_scores ss))
        ≡ (ltb i 64 && test_bit (winner_mask_from_scores ss) i) =
      rw e at (contains-set_bits 64 i 0 (winner_mask_from_scores ss)) in
    rw (indices-eq-set_bits (winner_mask_from_scores ss) lt)
      (ground (arith, c, winner_bit ss i, has_score-lt ss i (best_score ss 0)))

-- Of up to 32 players, player i is listed as a winner exactly when the score of i is above 0 and no
-- other score exceeds it.
pub winners_iff :
    (ss : List ℕ) (i : ℕ)
    → length ss ≤ 32
    → (contains i (mask_to_indices (winner_mask_from_scores ss)) ≡ true)
      ↔ ((s : ℕ) × (get_elem? ss i ≡ some s) × (0 < s) × All (λ t. t ≤ s) ss)
winners_iff ss i h = (
  λ c.
      let both : (0 < best_score ss 0) × (has_score ss i (best_score ss 0) ≡ true) =
        ground (arith, indices_contain ss i h) in
      (
        best_score ss 0,
        (has_score_iff ss i (best_score ss 0)).0 both.1,
        both.0,
        (best_score_bounds ss 0).1,
      ),
  λ p.
      let e : best_score ss 0 ≡ p.0 = best_of ss i p.0 p.1 p.2 p.3 in
      let f : has_score ss i (best_score ss 0) ≡ true = rw e ((has_score_iff ss i p.0).1 p.1) in
      ground (arith, indices_contain ss i h),
)

-- The winners of up to 32 players are listed in ascending order, none twice.
mask_to_indices-AscendingFrom :
    (ss : List ℕ) → length ss ≤ 32 → AscendingFrom 0 (mask_to_indices (winner_mask_from_scores ss))
mask_to_indices-AscendingFrom ss h =
    rw (indices-eq-set_bits _ (winner_mask-lt ss h)) (set_bits-AscendingFrom 64 0 _)

-- As soon as one of up to 32 players has a score above 0 there is a winner.
winners_nonempty :
    (ss : List ℕ) (i s : ℕ)
    → length ss ≤ 32
    → get_elem? ss i ≡ some s
    → 0 < s
    → mask_to_indices (winner_mask_from_scores ss) ≢ []
winners_nonempty ss i s h at pos empty =
    let ge : s ≤ best_score ss 0 =
      All_at (λ t. t ≤ best_score ss 0) ss i (best_score_bounds ss 0).1 at in
    elim (best_score-attained ss 0) [
      | inl e ↦ absurd (omega arith)
      | inr (j, e) ↦
          let f : has_score ss j (best_score ss 0) ≡ true =
            (has_score_iff ss j (best_score ss 0)).1 e in
          let g : contains j (mask_to_indices (winner_mask_from_scores ss)) ≡ false =
            rw empty (contains-nil j) in
          ground (arith, indices_contain ss j h)
    ]

-- The lowest winner of up to 32 players is one of them.
pub ctz64-winner_mask-lt :
    (ss : List ℕ)
    → length ss ≤ 32
    → winner_mask_from_scores ss ≢ 0
    → ctz64 (winner_mask_from_scores ss) < length ss
unfolding ctz64
ctz64-winner_mask-lt ss h n =
    let m : ℕ = winner_mask_from_scores ss in
    let set_bit = test_bit-countr_zero 64 m n (omega (arith, winner_mask-lt ss h)) in
    has_score-lt ss (countr_zero 64 m) (best_score ss 0)
      (ground (arith, winner_bit ss (countr_zero 64 m), set_bit))
