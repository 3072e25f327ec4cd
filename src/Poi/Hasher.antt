-- ===== src/Poi/Hasher.antt =====
-- `MerkleHasher` of src/bin/inx-chronicle/api/poi/merkle_hasher.rs. The digest, `Blake2b256` of
-- the crypto crate, is a parameter. `none` is the panic of an index past the end of a slice.
pub mod Pivot
pub mod Root
use inx_chronicle.Common.{
  ℕ, zero, suc, ◌+◌, ◌-◌, ◌%◌, ◌^◌, Option, none, some, List, [], ◌∷◌, ◌++◌, ltb, leb, length, take,
  drop, if◌then◌else◌, ◌>>=◌,
}
use inx_chronicle.Common.Words.{u64_mod}
use inx_chronicle.Common.Bytes.{Bytes}

abbrev pub u32_mod : ℕ
u32_mod = 2 ^ 32

-- `u32::leading_zeros`, over the lowest `w` bits
unfoldable pub leading_zeros : ℕ → ℕ → ℕ
leading_zeros zero n = 0
leading_zeros (suc w) n = if ltb n (2 ^ w) then suc (leading_zeros w n) else 0

unfoldable pub bit_length : ℕ → ℕ
bit_length n = 32 - leading_zeros 32 n

-- The casts and subtractions wrap, and `1 << s` takes `s` modulo the width of `usize`.
unfoldable pub largest_power_of_two : ℕ → ℕ
unfolding bit_length
largest_power_of_two n =
    let m = ((n + u64_mod - 1) % u64_mod) % u32_mod in
    let s = (bit_length m + u32_mod - 1) % u32_mod in 2 ^ (s % 64)

abbrev leaf_hash_prefix : ℕ
leaf_hash_prefix = 0

abbrev node_hash_prefix : ℕ
node_hash_prefix = 1

module _ (digest : Bytes → Bytes) where
  abbrev pub hash_empty : Bytes
  hash_empty = digest []

  abbrev pub hash_leaf : Bytes → Bytes
  hash_leaf l = digest (leaf_hash_prefix ∷ l)

  abbrev pub hash_node : Bytes → Bytes → Bytes
  hash_node l r = digest (node_hash_prefix ∷ (l ++ r))

  -- both halves of a slice, with a panic where the pivot lies past its end
  abbrev pub split_at {ℓ} : {A : Type ℓ} → List A → ℕ → Option (List A × List A)
  split_at data' k = if leb k (length data') then some (take k data', drop k data') else none

  pub hash_fuel : ℕ → List Bytes → Option Bytes
  hash_fuel zero data' = none
  hash_fuel (suc fuel) [] = some hash_empty
  hash_fuel (suc fuel) (leaf ∷ []) = some (hash_leaf leaf)
  hash_fuel (suc fuel) (a ∷ b ∷ rest) = do
    (left, right) ← split_at (a ∷ b ∷ rest) (largest_power_of_two (length (a ∷ b ∷ rest)))
    l ← hash_fuel fuel left
    r ← hash_fuel fuel right
    some (hash_node l r)

  -- Each half is shorter than the whole, so the length bounds the depth of the recursion.
  unfoldable pub hash : List Bytes → Option Bytes
  unfolding hash_fuel
  hash data' = hash_fuel (suc (length data')) data'
