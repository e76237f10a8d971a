-- ===== src/Rng.antt =====
-- include/xiapl/detail/fast_rng.h, but for the floating-point draw. Words are 64 bits wide.
pub mod Bounded
use xia_pl.Base.{
  ℕ, zero, suc, ◌+◌, ◌-◌, ◌*◌, ◌/◌, ◌%◌, ◌^◌, bit_and, bit_or, bit_xor, Bool, ltb, if◌then◌else◌,
  Option, none, some,
}

pub record FastRng : Type 0 where
  pub state0 : ℕ
  pub state1 : ℕ
  pub state2 : ℕ
  pub state3 : ℕ

abbrev pub u64 : ℕ → ℕ
u64 x = x % 2 ^ 64

abbrev pub u32 : ℕ → ℕ
u32 x = x % 2 ^ 32

unfoldable pub rotl : ℕ → ℕ → ℕ
rotl x k = bit_or (u64 (x * 2 ^ k)) (x / 2 ^ (64 - k))

-- one round of `seed`, from the seed as that round finds it
unfoldable pub seed_word : ℕ → ℕ
seed_word s =
    let z = u64 (s + 0x9E3779B97F4A7C15) in
    let z = u64 (bit_xor z (z / 2 ^ 30) * 0xBF58476D1CE4E5B9) in
    let z = u64 (bit_xor z (z / 2 ^ 27) * 0x94D049BB133111EB) in bit_xor z (z / 2 ^ 31)

unfoldable pub seed : ℕ → FastRng
unfolding seed_word
seed s = record {
  state0 = seed_word s;
  state1 = seed_word (u64 (s + 0x9E3779B97F4A7C15));
  state2 = seed_word (u64 (s + 2 * 0x9E3779B97F4A7C15));
  state3 = seed_word (u64 (s + 3 * 0x9E3779B97F4A7C15));
}

-- operator(): the draw and the next state
unfoldable pub next : FastRng → ℕ × FastRng
unfolding rotl
next r =
    let result = u64 (rotl (u64 (r.state0 + r.state3)) 23 + r.state0) in
    let t = u64 (r.state1 * 2 ^ 17) in
    let s2 = bit_xor r.state2 r.state0 in
    let s3 = bit_xor r.state3 r.state1 in
    let s1 = bit_xor r.state1 s2 in
    let s0 = bit_xor r.state0 s3 in
    let s2' = bit_xor s2 t in
    (result, record { state0 = s0; state1 = s1; state2 = s2'; state3 = rotl s3 45 })

-- `t`, the size of the part that is rejected
unfoldable pub threshold : ℕ → ℕ
threshold n = u32 (2 ^ 32 - n) % n

abbrev pub product : ℕ → ℕ → ℕ
product x n = u64 (x * n)

-- The `while` loop on fuel; `none` means that the fuel ran out.
unfoldable pub reject : ℕ → ℕ → ℕ → ℕ → FastRng → Option (ℕ × FastRng)
reject zero n t m r = none
reject (suc fuel) n t m r =
    let (x, r') = next r in
    let again = reject fuel n t (product (u32 x) n) r' in
    if ltb (u32 m) t then again else some (u32 (m / 2 ^ 32), r)

unfoldable pub bounded : ℕ → ℕ → FastRng → Option (ℕ × FastRng)
bounded fuel n r =
    let (x, r') = next r in
    let m = product (u32 x) n in
    if ltb (u32 m) n then reject fuel n (threshold n) m r' else some (u32 (m / 2 ^ 32), r')

-- the inner loop of `state_hash` on the word w, at byte b with `left` bytes to go
hash_bytes : ℕ → ℕ → ℕ → ℕ → ℕ
hash_bytes zero b w h = h
hash_bytes (suc left) b w h =
    hash_bytes left (b + 1) w (u64 (bit_xor h (bit_and (w / 2 ^ (8 * b)) 0xFF) * 1099511628211))

pub state_hash : FastRng → ℕ
state_hash r =
    let h0 = hash_bytes 8 0 r.state0 1469598103934665603 in
    let h1 = hash_bytes 8 0 r.state1 h0 in
    let h2 = hash_bytes 8 0 r.state2 h1 in hash_bytes 8 0 r.state3 h2
