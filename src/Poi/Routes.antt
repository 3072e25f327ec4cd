-- ===== src/Poi/Routes.antt =====
-- The handlers of src/bin/inx-chronicle/api/poi/routes.rs. `Iota` stands for what they take from
-- the iota_types crate and the hex crates; the database is a value.
pub mod Created
pub mod Validated
use inx_chronicle.Common.{
  ℕ, Bool, true, false, not, ◌&&◌, Option, none, some, List, [], ◌∷◌, ◌==◌, Eq, if◌then◌else◌,
}
use inx_chronicle.Common.Bytes.{Bytes, bytes_beq}
use inx_chronicle.Common.Run.{Run, ok, err, panic, ok_or, or_panic, map_err, ◌>>=◌}
use inx_chronicle.Model.Milestone.{MilestonePayload}
use inx_chronicle.Model.Block.{Block}
use inx_chronicle.Model.Metadata.{is_included}
use inx_chronicle.Db.Collections.{
  Database, get_block_metadata, get_block_raw, get_referenced_blocks_in_white_flag_order,
  get_applied_blocks_in_white_flag_order, get_milestone_payload,
  get_node_configuration_for_ledger_index,
}
use inx_chronicle.Poi.Proof.{
  MerkleAuditPath, hash_path, path_contains_block_id, contains, CreateProofError,
  merkle_root_mismatch, create_audit_path,
}
use inx_chronicle.Poi.Dto.{MerkleAuditPathDto, path_to_dto, path_from_dto}
use inx_chronicle.Poi.Keys.{
  CorruptStateError, no_milestone_cone, incomplete_milestone_cone, create_proof,
  get_valid_public_keys_for_index,
}

-- The crates that the handlers call. `ParsedBlock` and `ParsedMilestone` are the blocks and
-- milestone payloads of iota_types; a conversion that fails gives `none`.
pub record Iota : Type 1 where
  pub Text : Type 0
  pub text_eq : Eq Text
  pub digest : Bytes → Bytes
  pub encode : Bytes → Text
  pub decode : ℕ → Text → Option Bytes
  pub decode_hex : Text → Option Bytes
  pub encode_hex : Bytes → Text
  pub parse_block_id : Text → Option Bytes
  pub unpack_block : Bytes → Option Block
  pub BlockDto : Type 0
  pub MilestonePayloadDto : Type 0
  pub block_to_dto : Block → BlockDto
  pub milestone_to_dto : MilestonePayload → MilestonePayloadDto
  pub ParsedBlock : Type 0
  pub ParsedMilestone : Type 0
  pub block_from_dto : BlockDto → Option ParsedBlock
  pub milestone_from_dto : MilestonePayloadDto → Option ParsedMilestone
  pub id : ParsedBlock → Bytes
  pub index : ParsedMilestone → ℕ
  pub inclusion_merkle_root : ParsedMilestone → Bytes
  pub applied_merkle_root : ParsedMilestone → Bytes
  pub is_valid : ParsedMilestone → List Text → ℕ → Bool

pub data RequestError : Type 0 where
  malformed_json_block malformed_json_milestone malformed_json_audit_path invalid_milestone :
      RequestError
  block_not_referenced block_not_applied : Bytes → RequestError

pub data ApiError : Type 0 where
  iota_stardust no_results : ApiError
  request : RequestError → ApiError
  corrupt_state : CorruptStateError CreateProofError → ApiError

-- `if test { return Err(e) }`
abbrev pub fail_if : Bool → ApiError → Run ApiError (Unit {0})
fail_if true e = err e
fail_if false e = ok tt

infixl 5 ◌>>◌
abbrev pub ◌>>◌ {κ} : {B : Type κ} → Run ApiError (Unit {0}) → Run ApiError B → Run ApiError B
m >> k = m >>= λ _. k

abbrev pub is_empty {ℓ} : {A : Type ℓ} → List A → Bool
is_empty [] = true
is_empty (x ∷ xs) = false

module _ (iota : Iota) where
  open iota use {
    Text, text_eq, digest, encode, decode, decode_hex, encode_hex, parse_block_id, unpack_block,
    BlockDto, MilestonePayloadDto, block_to_dto, milestone_to_dto, ParsedBlock, ParsedMilestone,
    block_from_dto, milestone_from_dto, inclusion_merkle_root, applied_merkle_root, is_valid,
  }

  pub record CreateProofResponse : Type 0 where
    pub milestone : MilestonePayloadDto
    pub block : BlockDto
    pub audit_path : MerkleAuditPathDto Text

  pub record ValidateProofResponse : Type 0 where
    pub valid : Bool

  -- `BlockCollection::get_block`: the raw bytes are unpacked, and `unwrap` panics if that fails
  unfoldable pub get_block : Database Text → Bytes → Run ApiError Block
  get_block db block_id = do
    raw ← ok_or (get_block_raw db.blocks block_id) no_results
    or_panic (unpack_block raw)

  -- The end of both `create_proof` handlers: the path, the check against the milestone's root, and
  -- the response.
  unfoldable pub respond :
      List Bytes → Bytes → Bytes → MilestonePayload → Block → Run ApiError CreateProofResponse
  respond block_ids block_id expected_merkle_root milestone_payload block = do
    merkle_audit_path ←
        map_err (λ e. corrupt_state (create_proof e)) (create_audit_path digest block_ids block_id)
    calculated_merkle_root ← or_panic (hash_path digest merkle_audit_path)
    fail_if (not (bytes_beq calculated_merkle_root expected_merkle_root)) (
        corrupt_state
          (create_proof (merkle_root_mismatch calculated_merkle_root expected_merkle_root)))
    ok (record {
      milestone = milestone_to_dto milestone_payload;
      block = block_to_dto block;
      audit_path = path_to_dto encode merkle_audit_path;
    })

  unfoldable pub create_proof_for_referenced_blocks :
      Database Text → Text → Run ApiError CreateProofResponse
  create_proof_for_referenced_blocks db block_id_text = do
    block_id ← ok_or (parse_block_id block_id_text) iota_stardust
    block_metadata ← ok_or (get_block_metadata db.blocks block_id) no_results
    let referenced_index = block_metadata.referenced_by_milestone_index
    fail_if (referenced_index == 0) (request (block_not_referenced block_id))
    block ← get_block db block_id
    milestone_payload ← ok_or (get_milestone_payload db.milestones referenced_index) no_results
    let block_ids = get_referenced_blocks_in_white_flag_order db.blocks referenced_index
    fail_if (is_empty block_ids) (corrupt_state no_milestone_cone)
    fail_if (not (contains block_ids block_id)) (corrupt_state incomplete_milestone_cone)
    respond block_ids block_id milestone_payload.essence.inclusion_merkle_root milestone_payload
        block

  unfoldable pub create_proof_for_applied_blocks :
      Database Text → Text → Run ApiError CreateProofResponse
  create_proof_for_applied_blocks db block_id_text = do
    block_id ← ok_or (parse_block_id block_id_text) iota_stardust
    block_metadata ← ok_or (get_block_metadata db.blocks block_id) no_results
    let referenced_index = block_metadata.referenced_by_milestone_index
    fail_if (referenced_index == 0) (request (block_not_referenced block_id))
    fail_if (not (is_included block_metadata.inclusion_state))
        (request (block_not_applied block_id))
    block ← get_block db block_id
    milestone_payload ← ok_or (get_milestone_payload db.milestones referenced_index) no_results
    let block_ids = get_applied_blocks_in_white_flag_order db.blocks referenced_index
    fail_if (not (contains block_ids block_id)) (request (block_not_applied block_id))
    respond block_ids block_id milestone_payload.essence.applied_merkle_root milestone_payload block

  -- `contains_block_id(..) && hash() == root`: the hash is taken only if the block is contained
  unfoldable pub check_path : MerkleAuditPath → Bytes → Bytes → Run ApiError ValidateProofResponse
  check_path path block_id root = do
    contained ← or_panic (path_contains_block_id block_id path)
    elim contained [
      | false ↦ ok (record { valid = false })
      | true ↦ (or_panic (hash_path digest path) >>= λ h. ok (record { valid = bytes_beq h root }))
    ]

  -- The two `validate_proof` handlers differ in the root of the milestone that they compare with.
  unfoldable pub validate_proof :
      (ParsedMilestone → Bytes)
      → Database Text
      → CreateProofResponse
      → Run ApiError ValidateProofResponse
  validate_proof root db req = do
    block ← ok_or (block_from_dto req.block) (request malformed_json_block)
    milestone ← ok_or (milestone_from_dto req.milestone) (request malformed_json_milestone)
    path ← ok_or (path_from_dto decode req.audit_path) (request malformed_json_audit_path)
    update ←
        ok_or
          (get_node_configuration_for_ledger_index db.configuration_updates (iota.index milestone))
          no_results
    public_keys ← map_err corrupt_state (
        get_valid_public_keys_for_index ⦃text = text_eq⦄ decode_hex encode_hex
          (iota.index milestone) update.config.milestone_key_ranges)
    fail_if (not (is_valid milestone public_keys update.config.milestone_public_key_count))
        (request invalid_milestone)
    check_path path (iota.id block) (root milestone)

  unfoldable pub validate_proof_for_referenced_blocks :
      Database Text → CreateProofResponse → Run ApiError ValidateProofResponse
  unfolding validate_proof
  validate_proof_for_referenced_blocks = validate_proof inclusion_merkle_root

  unfoldable pub validate_proof_for_applied_blocks :
      Database Text → CreateProofResponse → Run ApiError ValidateProofResponse
  unfolding validate_proof
  validate_proof_for_applied_blocks = validate_proof applied_merkle_root
