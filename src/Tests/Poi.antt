-- ===== src/Tests/Poi.antt =====
-- Proofs of inclusion for small milestones.
use inx_chronicle.Common.{
  ℕ, ◌≤◌, ◌≡◌, refl, ◌⊎◌, true, false, some, List, [], ◌∷◌, arith, length, leb, ◌==◌,
}
use inx_chronicle.Common.Bytes.{Bytes, bytes_eq}
use inx_chronicle.Common.Run.{ok, err, panic}
use inx_chronicle.Model.Block.{Block}
use inx_chronicle.Model.Metadata.{BlockMetadata, is_included}
use inx_chronicle.Model.Milestone.{MilestonePayload}
use inx_chronicle.Db.Collections.{
  ConfigurationUpdateDocument, get_block_metadata, get_block_raw, get_milestone_payload,
  get_referenced_blocks_in_white_flag_order, get_applied_blocks_in_white_flag_order,
  get_node_configuration_for_ledger_index,
}
use inx_chronicle.Poi.Hasher.{u32_mod, largest_power_of_two, hash_leaf, hash_node, hash}
use inx_chronicle.Poi.Hasher.Root.{IsRoot, leaf, hash-IsRoot}
use inx_chronicle.Poi.Proof.{
  MerkleAuditPath, single, pair, value, node, hash_path, path_contains_block_id, contains_block_id,
  contains, position, create_audit_path_from_index, create_audit_path, CreateProofError,
}
use inx_chronicle.Poi.Proof.Create.{create_audit_path_included}
use inx_chronicle.Poi.Proof.Sound.{Collision, audit_path_sound}
use inx_chronicle.Poi.Dto.{path_to_dto, path_from_dto}
use inx_chronicle.Poi.Dto.RoundTrip.{path_from_dto-path_to_dto}
use inx_chronicle.Poi.Keys.{
  MilestoneKeyRange, decode_public_key, has_key, sort, collect_keys,
  get_valid_public_keys_for_index,
}
use inx_chronicle.Poi.Keys.Applicable.{
  any, gives, get_valid_public_keys_exact, get_valid_public_keys_fails,
}
use inx_chronicle.Poi.Routes.{
  create_proof_for_referenced_blocks, create_proof_for_applied_blocks, respond, get_block,
  check_path, validate_proof,
}
use inx_chronicle.Poi.Routes.Created.{Proves, create_referenced_Proves, create_applied_Proves}
use inx_chronicle.Poi.Routes.Validated.{Keys, validate_proof_sound, validate_proof_panics}
use inx_chronicle.Tests.Node.{
  length-pad, digest, decode, length-decode, decode_own_length, decode_hex, block_with, block_id,
  iota, id_1, id_2, milestone, key_ranges, update, db, audit_path, response, forged,
}

creates_referenced : create_proof_for_referenced_blocks iota db id_1 ≡ ok response
unfolding create_proof_for_referenced_blocks get_block_metadata get_block get_block_raw
    get_milestone_payload get_referenced_blocks_in_white_flag_order contains respond
    create_audit_path position create_audit_path_from_index hash_path path_to_dto
creates_referenced = refl

creates_applied : create_proof_for_applied_blocks iota db id_1 ≡ ok response
unfolding create_proof_for_applied_blocks get_block_metadata get_block get_block_raw
    get_milestone_payload contains get_applied_blocks_in_white_flag_order respond create_audit_path
    position create_audit_path_from_index hash_path path_to_dto
creates_applied = refl

validates :
    validate_proof iota (λ m. m.essence.inclusion_merkle_root) db response
    ≡ ok (record { valid = true })
unfolding validate_proof path_from_dto get_node_configuration_for_ledger_index
    get_valid_public_keys_for_index sort inx_chronicle.Poi.Keys.insert_range
    inx_chronicle.Poi.Keys.insert_key has_key check_path path_contains_block_id hash_path
validates = refl

referenced_few : (i : ℕ) → length (get_referenced_blocks_in_white_flag_order db.blocks i) ≤ u32_mod
unfolding get_referenced_blocks_in_white_flag_order
referenced_few i = ground arith

applied_few : (i : ℕ) → length (get_applied_blocks_in_white_flag_order db.blocks i) ≤ u32_mod
unfolding get_applied_blocks_in_white_flag_order
applied_few i = ground arith

-- two blocks, of which the second is proved
abbrev two : List Bytes
two = id_1 ∷ id_2 ∷ []

abbrev path_2 : MerkleAuditPath
path_2 = pair (node (hash_leaf digest id_1)) (value id_2)

path_2_created : create_audit_path digest two id_2 ≡ ok path_2
unfolding create_audit_path position create_audit_path_from_index largest_power_of_two
    inx_chronicle.Poi.Hasher.leading_zeros hash
path_2_created = refl

abbrev root_of_two : Bytes
root_of_two = hash_node digest (hash_leaf digest id_1) (hash_leaf digest id_2)

root_of_two-IsRoot : IsRoot digest two root_of_two
root_of_two-IsRoot =
    IsRoot.node 1 (omega arith, omega arith, omega arith, (0, refl)) (leaf id_1) (leaf id_2)

path_2_hash : hash_path digest path_2 ≡ some root_of_two
unfolding hash_path
path_2_hash = refl

path_2_contains : path_contains_block_id id_2 path_2 ≡ some true
unfolding path_contains_block_id
path_2_contains = refl

two-contains : contains two id_2 ≡ true
unfolding contains
two-contains = refl

hash-IsRoot_example : (h : Bytes) × (hash digest two ≡ some h) × IsRoot digest two h
hash-IsRoot_example = hash-IsRoot digest two (omega arith)

audit_path_sound_example : (contains two id_2 ≡ true) ⊎ Collision digest
audit_path_sound_example =
    audit_path_sound digest (λ x. length-pad 32 x) path_2 two root_of_two id_2
      (length-pad 32 (0 ∷ id_1), length-pad 32 (2 ∷ [])) root_of_two-IsRoot path_2_hash
      path_2_contains

create_audit_path_included_example :
    (p : MerkleAuditPath) × (create_audit_path digest two id_2 ≡ ok p)
    × (hash_path digest p ≡ hash digest two)
    × (path_contains_block_id id_2 p ≡ some true)
create_audit_path_included_example =
    create_audit_path_included digest two id_2 (omega arith) two-contains

path_from_dto-path_to_dto_example : path_from_dto decode (path_to_dto (λ b. b) path_2) ≡ some path_2
path_from_dto-path_to_dto_example =
    path_from_dto-path_to_dto (λ b. b) decode decode_own_length path_2
      (length-pad 32 (0 ∷ id_1), length-pad 32 (2 ∷ []))

get_valid_public_keys_exact_example :
    (ks : List Bytes) × (get_valid_public_keys_for_index {E = CreateProofError} ⦃text = bytes_eq⦄
        decode_hex
        (λ b. b)
        5
        key_ranges
      ≡ ok ks)
    × ((k : Bytes)
        → has_key ⦃text = bytes_eq⦄ k ks
          ≡ any (gives ⦃text = bytes_eq⦄ decode_hex (λ b. b) 5 k) key_ranges)
get_valid_public_keys_exact_example =
    get_valid_public_keys_exact ⦃text = bytes_eq⦄ decode_hex (λ b. b) 5 key_ranges refl

get_valid_public_keys_fails_example :
    get_valid_public_keys_for_index {E = CreateProofError} ⦃text = bytes_eq⦄ decode_hex
      (λ b. b)
      3
      key_ranges
    ≡ err decode_public_key
get_valid_public_keys_fails_example =
    get_valid_public_keys_fails ⦃text = bytes_eq⦄ decode_hex (λ b. b) 3 key_ranges refl

create_referenced_Proves_example :
    (id : Bytes) × (meta : BlockMetadata) × (m : MilestonePayload) × (decode 32 id_1 ≡ some id)
    × (get_block_metadata db.blocks id ≡ some meta)
    × ((meta.referenced_by_milestone_index == 0) ≡ false)
    × (get_milestone_payload db.milestones meta.referenced_by_milestone_index ≡ some m)
    × (milestone ≡ m)
    × (raw : Bytes) × (b : Block) × (get_block_raw db.blocks id ≡ some raw)
    × (iota.unpack_block raw ≡ some b)
    × (response.block ≡ iota.block_to_dto b)
    × Proves iota m.essence.inclusion_merkle_root id audit_path
create_referenced_Proves_example =
    create_referenced_Proves iota db id_1 response referenced_few creates_referenced

create_applied_Proves_example :
    (id : Bytes) × (meta : BlockMetadata) × (m : MilestonePayload) × (decode 32 id_1 ≡ some id)
    × (get_block_metadata db.blocks id ≡ some meta)
    × ((meta.referenced_by_milestone_index == 0) ≡ false)
    × (is_included meta.inclusion_state ≡ true)
    × (get_milestone_payload db.milestones meta.referenced_by_milestone_index ≡ some m)
    × (milestone ≡ m)
    × (raw : Bytes) × (b : Block) × (get_block_raw db.blocks id ≡ some raw)
    × (iota.unpack_block raw ≡ some b)
    × (response.block ≡ iota.block_to_dto b)
    × Proves iota m.essence.applied_merkle_root id audit_path
create_applied_Proves_example =
    create_applied_Proves iota db id_1 response applied_few creates_applied

valid-Keys : Keys iota db milestone update ((7 ∷ []) ∷ [])
unfolding get_node_configuration_for_ledger_index get_valid_public_keys_for_index sort
    inx_chronicle.Poi.Keys.insert_range inx_chronicle.Poi.Keys.insert_key has_key
valid-Keys = (refl, refl)

response_path : path_from_dto decode audit_path ≡ some (single (value id_1))
unfolding path_from_dto
response_path = refl

not_block_2 : contains_block_id id_2 (value id_1) ≡ some false
unfolding contains_block_id
not_block_2 = refl

validate_proof_sound_example :
    ((block : Block) × (some (block_with 1) ≡ some block)
      × ((contains (id_1 ∷ []) (block_id block) ≡ true) ⊎ Collision digest))
    × ((u : ConfigurationUpdateDocument Bytes) × (keys : List Bytes) × Keys iota db milestone u keys
        × (leb u.config.milestone_public_key_count (length keys) ≡ true))
validate_proof_sound_example =
    validate_proof_sound iota (λ m. m.essence.inclusion_merkle_root) db response milestone
      (id_1 ∷ []) (λ x. length-pad 32 x) length-decode refl (leaf id_1) validates

validate_proof_panics_example :
    validate_proof iota (λ m. m.essence.inclusion_merkle_root) db forged ≡ panic
validate_proof_panics_example =
    validate_proof_panics iota (λ m. m.essence.inclusion_merkle_root) db forged (block_with 2)
      milestone (value id_1) update ((7 ∷ []) ∷ []) refl refl response_path valid-Keys refl
      not_block_2
