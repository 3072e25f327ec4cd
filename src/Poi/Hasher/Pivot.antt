-- ===== src/Poi/Hasher/Pivot.antt =====
-- The pivot of the Merkle tree: the largest power of two below the number of leaves.
use inx_chronicle.Common.{
  ℕ, zero, suc, ◌+◌, ◌-◌, ◌*◌, ◌%◌, ◌^◌, ◌≤◌, ◌<◌, ◌≡◌, refl, inl, inr, arith, ltb, Bool-cases,
}
use inx_chronicle.Poi.Hasher.{u32_mod, leading_zeros, largest_power_of_two}
use native.Mathlib.Nat.{pow-suc, one-le-pow}

-- A positive number below `2 ^ w` has `w - leading_zeros` significant bits.
leading_zeros_bounds :
    (w n : ℕ)
    → 0 < n
    → n < 2 ^ w
    → (e : ℕ) × (leading_zeros w n + suc e ≡ w) × (2 ^ e ≤ n) × (n < 2 * 2 ^ e)
unfolding leading_zeros
leading_zeros_bounds zero n p h = absurd (omega arith)
leading_zeros_bounds (suc w) n p h = elim (Bool-cases (ltb n (2 ^ w))) [
  | inl low ↦
      let (e, sum, lo, hi) = leading_zeros_bounds w n p (ground arith) in
      (e, rw low (omega arith), lo, hi)
  | inr high ↦ (
    w,
    rw high (omega arith),
    ground arith,
    let b : n < 2 ^ w * 2 = rw (← pow-suc 2 w) h in omega arith,
  )
]

-- The pivot splits a list of two or more into two parts that are not empty, the left one no
-- shorter than the right one, and is a power of two.
pub pivot_bounds :
    (n : ℕ)
    → 2 ≤ n
    → n ≤ u32_mod
    → (0 < largest_power_of_two n)
      × (largest_power_of_two n < n)
      × (n ≤ 2 * largest_power_of_two n)
      × ((e : ℕ) × (largest_power_of_two n ≡ 2 ^ e))
unfolding largest_power_of_two
pivot_bounds n lo hi =
    let (e, sum, low, high) = leading_zeros_bounds 32 (n - 1) (omega arith) (omega arith) in
    let m : ((n + 2 ^ 64 - 1) % 2 ^ 64) % 2 ^ 32 ≡ n - 1 = omega arith in
    let s : ((32 - leading_zeros 32 (n - 1) + 2 ^ 32 - 1) % 2 ^ 32) % 64 ≡ e = omega arith in
    rw (m, s) (one-le-pow e 2 (omega arith), omega arith, omega arith, (e, refl))
