-- ===== src/Poi/Hasher/Root.antt =====
-- The Merkle root as TIP-0004 defines it, and that `hash` computes it.
use inx_chronicle.Common.{
  ℕ, zero, suc, ◌*◌, ◌^◌, ◌≤◌, ◌<◌, ◌≡◌, refl, List, [], ◌∷◌, some, arith, length, take, drop,
  length-take, length-drop, le→leb, ◌>>=◌,
}
use inx_chronicle.Poi.Hasher.{
  u32_mod, largest_power_of_two, hash_leaf, hash_node, hash_empty, split_at, hash_fuel, hash,
}
use inx_chronicle.Common.Bytes.{Bytes}
use inx_chronicle.Poi.Hasher.Pivot.{pivot_bounds}

-- The largest power of two below `n`.
abbrev pub IsPivot : ℕ → ℕ → Type 0
IsPivot k n = (0 < k) × (k < n) × (n ≤ 2 * k) × ((e : ℕ) × (k ≡ 2 ^ e))

module _ (digest : Bytes → Bytes) where
  pub data IsRoot : List Bytes → Bytes → Type 0 where
    empty : IsRoot [] (hash_empty digest)
    leaf : (x : Bytes) → IsRoot (x ∷ []) (hash_leaf digest x)
    node :
        {xs : List Bytes} {l r : Bytes} (k : ℕ)
        → IsPivot k (length xs)
        → IsRoot (take k xs) l
        → IsRoot (drop k xs) r
        → IsRoot xs (hash_node digest l r)

  module _ (xs : List Bytes) (two : 2 ≤ length xs) (small : length xs ≤ u32_mod) where
    pub split_at-pivot :
        let k = largest_power_of_two (length xs) in
        split_at digest xs k ≡ some (take k xs, drop k xs)
    split_at-pivot =
        let b = pivot_bounds (length xs) two small in
        rw (le→leb (largest_power_of_two (length xs)) (length xs) (omega arith))

    -- Both parts are shorter than the whole, and neither is empty.
    pub parts_shorter :
        let k = largest_power_of_two (length xs) in
        (0 < length (take k xs))
        × (length (take k xs) < length xs)
        × (0 < length (drop k xs))
        × (length (drop k xs) < length xs)
        × (length (take k xs) ≡ k)
    parts_shorter =
        let k = largest_power_of_two (length xs) in
        let b = pivot_bounds (length xs) two small in
        let t = length-take k xs in let d = length-drop k xs in omega arith

  hash_fuel-IsRoot :
      (fuel : ℕ) (xs : List Bytes)
      → length xs < fuel
      → length xs ≤ u32_mod
      → (h : Bytes) × (hash_fuel digest fuel xs ≡ some h) × IsRoot xs h
  unfolding hash_fuel
  hash_fuel-IsRoot zero xs f s = absurd (omega arith)
  hash_fuel-IsRoot (suc fuel) [] f s = (_, refl, empty)
  hash_fuel-IsRoot (suc fuel) (x ∷ []) f s = (_, refl, leaf x)
  hash_fuel-IsRoot (suc fuel) (a ∷ b ∷ rest) f s =
      let xs : List Bytes = a ∷ b ∷ rest in
      let k = largest_power_of_two (length xs) in
      let p = parts_shorter xs (omega arith) s in
      let (l, hl, rl) = hash_fuel-IsRoot fuel (take k xs) (omega arith) (omega arith) in
      let (r, hr, rr) = hash_fuel-IsRoot fuel (drop k xs) (omega arith) (omega arith) in
      (
        hash_node digest l r,
        rw (split_at-pivot xs (omega arith) s, hl, hr),
        node k (pivot_bounds (length xs) (omega arith) s) rl rr,
      )

  -- Of at most 2^32 leaves `hash` computes the Merkle root, without a panic.
  pub hash-IsRoot :
      (xs : List Bytes)
      → length xs ≤ u32_mod
      → (h : Bytes) × (hash digest xs ≡ some h) × IsRoot xs h
  unfolding hash
  hash-IsRoot xs s = hash_fuel-IsRoot (suc (length xs)) xs (omega arith) s

  -- The fuel does not matter, as long as it exceeds the number of leaves.
  pub hash_fuel_stable :
      (f g : ℕ) (xs : List Bytes)
      → length xs < f
      → length xs < g
      → length xs ≤ u32_mod
      → hash_fuel digest f xs ≡ hash_fuel digest g xs
  unfolding hash_fuel
  hash_fuel_stable zero g xs lf lg s = absurd (omega arith)
  hash_fuel_stable (suc f) zero xs lf lg s = absurd (omega arith)
  hash_fuel_stable (suc f) (suc g) [] lf lg s = refl
  hash_fuel_stable (suc f) (suc g) (x ∷ []) lf lg s = refl
  hash_fuel_stable (suc f) (suc g) (a ∷ b ∷ rest) lf lg s =
      let xs : List Bytes = a ∷ b ∷ rest in
      let k = largest_power_of_two (length xs) in
      let p = parts_shorter xs (omega arith) s in
      let l = hash_fuel_stable f g (take k xs) (omega arith) (omega arith) (omega arith) in
      let r = hash_fuel_stable f g (drop k xs) (omega arith) (omega arith) (omega arith) in
      rw (split_at-pivot xs (omega arith) s, l, r)

  -- The hash of two leaves or more is that of the two parts.
  pub hash-split :
      (xs : List Bytes)
      → 2 ≤ length xs
      → length xs ≤ u32_mod
      → let k = largest_power_of_two (length xs) in
        hash digest xs ≡ (
          hash digest (take k xs) >>= λ l.
          hash digest (drop k xs) >>= λ r. some (hash_node digest l r))
  unfolding hash hash_fuel
  hash-split [] two s = absurd (omega arith)
  hash-split (x ∷ []) two s = absurd (omega arith)
  hash-split (a ∷ b ∷ rest) two s =
      let xs : List Bytes = a ∷ b ∷ rest in
      let k = largest_power_of_two (length xs) in
      let p = parts_shorter xs two s in
      let l =
        hash_fuel_stable (length xs) (suc (length (take k xs))) (take k xs) (omega arith)
          (omega arith) (omega arith) in
      let r =
        hash_fuel_stable (length xs) (suc (length (drop k xs))) (drop k xs) (omega arith)
          (omega arith) (omega arith) in
      rw (split_at-pivot xs two s, l, r)
