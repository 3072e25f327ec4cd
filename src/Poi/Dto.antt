-- ===== src/Poi/Dto.antt =====
-- The JSON form of an audit path: `MerkleAuditPathDto` and `HashableDto` of
-- src/bin/inx-chronicle/api/poi/merkle_proof.rs. `Text` is the type of strings, and the
-- `prefix_hex` crate is two parameters: `encode`, and `decode n` into an array of `n` bytes.
pub mod RoundTrip
use inx_chronicle.Common.{ℕ, Option, none, some, ◌>>=◌}
use inx_chronicle.Common.Bytes.{Bytes}
use inx_chronicle.Poi.Proof.{MerkleAuditPath, single, pair, Hashable, path, node, value}

mutual
  -- `single_dto left` has no field `r`.
  pub data MerkleAuditPathDto (Text : Type 0) : Type 0 where
    single_dto : HashableDto Text → MerkleAuditPathDto Text
    pair_dto : HashableDto Text → HashableDto Text → MerkleAuditPathDto Text

  pub data HashableDto (Text : Type 0) : Type 0 where
    node_dto : (hash : Text) → HashableDto Text
    path_dto : MerkleAuditPathDto Text → HashableDto Text
    value_dto : (block_id_hex : Text) → HashableDto Text

module _ {Text : Type 0} (encode : Bytes → Text) where
  unfoldable mutual
    -- `From<MerkleAuditPath> for MerkleAuditPathDto`
    pub path_to_dto : MerkleAuditPath → MerkleAuditPathDto Text
    path_to_dto (single left) = single_dto (hashable_to_dto left)
    path_to_dto (pair left right) = pair_dto (hashable_to_dto left) (hashable_to_dto right)

    -- `From<Hashable> for HashableDto`
    pub hashable_to_dto : Hashable → HashableDto Text
    hashable_to_dto (node h) = node_dto (encode h)
    hashable_to_dto (path p) = path_dto (path_to_dto p)
    hashable_to_dto (value v) = value_dto (encode v)

-- `MerkleRoot::LENGTH` and `BlockId::LENGTH`
abbrev merkle_root_length : ℕ
merkle_root_length = 32

abbrev block_id_length : ℕ
block_id_length = 32

module _ {Text : Type 0} (decode : ℕ → Text → Option Bytes) where
  unfoldable mutual
    -- `TryFrom<MerkleAuditPathDto> for MerkleAuditPath`
    pub path_from_dto : MerkleAuditPathDto Text → Option MerkleAuditPath
    path_from_dto (single_dto left) = do l ← hashable_from_dto left; some (single l)
    path_from_dto (pair_dto left right) = do
      l ← hashable_from_dto left
      r ← hashable_from_dto right
      some (pair l r)

    -- `TryFrom<HashableDto> for Hashable`
    pub hashable_from_dto : HashableDto Text → Option Hashable
    hashable_from_dto (node_dto h) = do hash ← decode merkle_root_length h; some (node hash)
    hashable_from_dto (path_dto p) = do q ← path_from_dto p; some (path q)
    hashable_from_dto (value_dto block_id_hex) = do
      v ← decode block_id_length block_id_hex
      some (value v)
