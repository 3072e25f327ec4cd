-- ===== src/Poi/Proof.antt =====
-- `MerkleProof`, `MerkleAuditPath` and `Hashable` of
-- src/bin/inx-chronicle/api/poi/merkle_proof.rs.
pub mod Create
pub mod Sound
use inx_chronicle.Common.{
  ℕ, zero, suc, ◌-◌, Bool, true, false, ◌||◌, Option, none, some, List, [], ◌∷◌, ltb, length,
  if◌then◌else◌, ◌>>=◌,
}
use inx_chronicle.Common.Bytes.{Bytes, bytes_beq}
use inx_chronicle.Common.Run.{Run, ok_or, or_panic}
use inx_chronicle.Common.Run.{◌>>=◌ as run_bind}
use inx_chronicle.Poi.Hasher.{largest_power_of_two, hash_leaf, hash_node, split_at, hash}

mutual
  -- `single left` has `right: None`, and `pair left right` has `right: Some(right)`.
  pub data MerkleAuditPath : Type 0 where
    single : Hashable → MerkleAuditPath
    pair : Hashable → Hashable → MerkleAuditPath

  pub data Hashable : Type 0 where
    path : MerkleAuditPath → Hashable
    node : Bytes → Hashable
    value : Bytes → Hashable

-- `none` is the panic of `unwrap` on a missing right side
or_unwrap : Bool → Option Bool → Option Bool
or_unwrap true right = some true
or_unwrap false right = right

module _ (digest : Bytes → Bytes) where
  unfoldable mutual
    -- `MerkleAuditPath::hash`
    pub hash_path : MerkleAuditPath → Option Bytes
    hash_path (single (value v)) = some (hash_leaf digest v)
    hash_path (single (path p)) = none
    hash_path (single (node h)) = none
    hash_path (pair left right) = do
      l ← hash_hashable left
      r ← hash_hashable right
      some (hash_node digest l r)

    -- `Hashable::hash`
    pub hash_hashable : Hashable → Option Bytes
    hash_hashable (node h) = some h
    hash_hashable (path p) = hash_path p
    hash_hashable (value v) = some (hash_leaf digest v)

unfoldable mutual
  unfolding or_unwrap

  -- `MerkleAuditPath::contains_block_id`
  pub path_contains_block_id : Bytes → MerkleAuditPath → Option Bool
  path_contains_block_id id (single left) = do l ← contains_block_id id left; or_unwrap l none
  path_contains_block_id id (pair left right) =
      let r = contains_block_id id right in contains_block_id id left >>= λ l. or_unwrap l r

  -- `Hashable::contains_block_id`
  pub contains_block_id : Bytes → Hashable → Option Bool
  contains_block_id id (node h) = some false
  contains_block_id id (path p) = path_contains_block_id id p
  contains_block_id id (value v) = some (bytes_beq v id)

-- `subtree_with_value`, over the function that makes the audit path of a longer slice
subtree_with_value : (List Bytes → ℕ → Option MerkleAuditPath) → List Bytes → ℕ → Option Hashable
subtree_with_value create (x ∷ []) index = some (value x)
subtree_with_value create block_ids index = do p ← create block_ids index; some (path p)

module _ (digest : Bytes → Bytes) where
  subtree_hash : List Bytes → Option Hashable
  subtree_hash block_ids = do h ← hash digest block_ids; some (node h)

  pub create_audit_path_fuel : ℕ → List Bytes → ℕ → Option MerkleAuditPath
  unfolding subtree_with_value subtree_hash
  create_audit_path_fuel zero block_ids index = none
  create_audit_path_fuel (suc fuel) (x ∷ []) index = some (single (value x))
  create_audit_path_fuel (suc fuel) block_ids index = do
    let pivot = largest_power_of_two (length block_ids)
    (left, right) ← split_at digest block_ids pivot
    if ltb index pivot
        then (do
          l ← subtree_with_value (create_audit_path_fuel fuel) left index
          r ← subtree_hash right
          some (pair l r))
        else (do
          l ← subtree_hash left
          r ← subtree_with_value (create_audit_path_fuel fuel) right (index - pivot)
          some (pair l r))

  unfoldable pub create_audit_path_from_index : List Bytes → ℕ → Option MerkleAuditPath
  unfolding create_audit_path_fuel
  create_audit_path_from_index block_ids index =
      create_audit_path_fuel (suc (length block_ids)) block_ids index

-- `block_ids.iter().position(|id| id == block_id)`
unfoldable pub position : Bytes → List Bytes → Option ℕ
position id [] = none
position id (x ∷ xs) = if bytes_beq x id then some 0 else (position id xs >>= λ i. some (suc i))

-- `contains` of a slice
unfoldable pub contains : List Bytes → Bytes → Bool
contains [] id = false
contains (x ∷ xs) id = bytes_beq x id || contains xs id

pub data CreateProofError : Type 0 where
  block_not_included : Bytes → CreateProofError
  merkle_root_mismatch : Bytes → Bytes → CreateProofError

module _ (digest : Bytes → Bytes) where
  unfoldable pub create_audit_path : List Bytes → Bytes → Run CreateProofError MerkleAuditPath
  create_audit_path block_ids block_id =
      run_bind (ok_or (position block_id block_ids) (block_not_included block_id))
        λ index. or_panic (create_audit_path_from_index digest block_ids index)
