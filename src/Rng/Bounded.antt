-- ===== src/Rng/Bounded.antt =====
-- The range of `bounded`.
use xia_pl.Base.{ℕ, zero, suc, ◌*◌, ◌/◌, ◌^◌, ◌<◌, ◌≡◌, ltb, some, arith, Bool-cases, inl, inr}
use xia_pl.Rng.{FastRng, next, product, threshold, reject, bounded, u32}

high_word-lt : (x n : ℕ) → x < 2 ^ 32 → 0 < n → n < 2 ^ 32 → product x n / 2 ^ 32 < n
high_word-lt x n h p k = let b : x * n < 2 ^ 32 * n = grind arith in omega arith

reject-lt :
    (fuel n t m : ℕ) (r : FastRng) (v : ℕ) (r' : FastRng)
    → 0 < n
    → n < 2 ^ 32
    → m / 2 ^ 32 < n
    → reject fuel n t m r ≡ some (v, r')
    → v < n
unfolding reject
reject-lt zero n t m r v r' p k b h = cc
reject-lt (suc fuel) n t m r v r' p k b h = elim (Bool-cases (ltb (u32 m) t)) [
  | inl again ↦
      let (x, r'') = next r in
      reject-lt fuel n t (product (u32 x) n) r'' v r' p k (high_word-lt (u32 x) n (omega arith) p k)
        (rw again at h)
  | inr done ↦
      let g : some (u32 (m / 2 ^ 32), r) ≡ some (v, r') = rw done at h in
      let e : u32 (m / 2 ^ 32) ≡ v = cc in omega arith
]

-- For a bound between 1 and 2 ^ 32 - 1, whatever value `bounded` returns is below it.
pub bounded-lt :
    (fuel n : ℕ) (r : FastRng) (v : ℕ) (r' : FastRng)
    → 0 < n
    → n < 2 ^ 32
    → bounded fuel n r ≡ some (v, r')
    → v < n
unfolding bounded
bounded-lt fuel n r v r' p k h =
    let (x, r'') = next r in
    let m : ℕ = product (u32 x) n in
    let lt : m / 2 ^ 32 < n = high_word-lt (u32 x) n (omega arith) p k in
    elim (Bool-cases (ltb (u32 m) n)) [
      | inl slow ↦ reject-lt fuel n (threshold n) m r'' v r' p k lt (rw slow at h)
      | inr fast ↦
          let g : some (u32 (m / 2 ^ 32), r'') ≡ some (v, r') = rw fast at h in
          let e : u32 (m / 2 ^ 32) ≡ v = cc in omega arith
    ]
