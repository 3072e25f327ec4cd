-- ===== src/Tests/Node.antt =====
-- A small database, one milestone, and concrete functions in place of the crates.
use inx_chronicle.Common.{
  ℕ, zero, suc, ◌≡◌, refl, true, false, Option, none, some, List, [], ◌∷◌, arith, length, leb, ◌==◌,
  if◌then◌else◌,
}
use inx_chronicle.Common.Bytes.{Bytes, bytes_eq}
use inx_chronicle.Model.Block.{Block, OptionPayload}
use inx_chronicle.Model.Metadata.{BlockMetadata, ConflictReason, LedgerInclusionState}
use inx_chronicle.Model.Milestone.{MilestonePayload}
use inx_chronicle.Db.Collections.{NodeConfiguration, ConfigurationUpdateDocument, Database}
use inx_chronicle.Poi.Hasher.{hash_leaf}
use inx_chronicle.Poi.Dto.{MerkleAuditPathDto, single_dto, value_dto}
use inx_chronicle.Poi.Keys.{MilestoneKeyRange}
use inx_chronicle.Poi.Routes.{Iota, CreateProofResponse}

-- a digest of 32 bytes: the input, cut or filled up with zeros
abbrev pub pad : ℕ → Bytes → Bytes
pad zero x = []
pad (suc n) [] = 0 ∷ pad n []
pad (suc n) (b ∷ x) = b ∷ pad n x

pub length-pad : (n : ℕ) (x : Bytes) → length (pad n x) ≡ n
length-pad zero x = refl
length-pad (suc n) [] = omega (arith, length-pad n [])
length-pad (suc n) (b ∷ x) = omega (arith, length-pad n x)

abbrev pub digest : Bytes → Bytes
digest x = pad 32 x

-- strings are byte strings, and every byte string is its own hexadecimal form
abbrev pub decode : ℕ → Bytes → Option Bytes
decode n t = if length t == n then some t else none

pub length-decode : (n : ℕ) (t b : Bytes) → decode n t ≡ some b → length b ≡ n
length-decode n t b h = ground arith

pub decode_own_length : (b : Bytes) → decode (length b) b ≡ some b
decode_own_length b = ground arith

-- keys that begin with 0 cannot be decoded
abbrev pub decode_hex : Bytes → Option Bytes
decode_hex [] = none
decode_hex (zero ∷ t) = none
decode_hex (suc n ∷ t) = some (suc n ∷ t)

abbrev pub block_with : ℕ → Block
block_with n = record {
  protocol_version = 2;
  parents = [];
  payload = OptionPayload.no_payload;
  nonce = n;
}

abbrev pub unpack_block : Bytes → Option Block
unpack_block [] = none
unpack_block (n ∷ raw) = some (block_with n)

abbrev pub block_id : Block → Bytes
block_id b = pad 32 (b.nonce ∷ [])

abbrev pub iota : Iota
iota = record {
  Text = Bytes;
  text_eq = bytes_eq;
  digest = digest;
  encode = λ b. b;
  decode = decode;
  decode_hex = decode_hex;
  encode_hex = λ b. b;
  parse_block_id = decode 32;
  unpack_block = unpack_block;
  BlockDto = Block;
  MilestonePayloadDto = MilestonePayload;
  block_to_dto = λ b. b;
  milestone_to_dto = λ m. m;
  ParsedBlock = Block;
  ParsedMilestone = MilestonePayload;
  block_from_dto = some;
  milestone_from_dto = some;
  id = block_id;
  index = λ m. m.essence.index;
  inclusion_merkle_root = λ m. m.essence.inclusion_merkle_root;
  applied_merkle_root = λ m. m.essence.applied_merkle_root;
  is_valid = λ m keys count. leb count (length keys);
}

abbrev pub id_1 : Bytes
id_1 = pad 32 (1 ∷ [])

abbrev pub id_2 : Bytes
id_2 = pad 32 (2 ∷ [])

-- a milestone that references and applies the first block alone
abbrev pub milestone : MilestonePayload
milestone = record {
  essence = record {
    index = 5;
    timestamp = 100;
    protocol_version = 2;
    previous_milestone_id = [];
    parents = [];
    inclusion_merkle_root = hash_leaf digest id_1;
    applied_merkle_root = hash_leaf digest id_1;
    metadata = [];
    options = [];
  };
  signatures = [];
}

abbrev pub metadata : BlockMetadata
metadata = record {
  parents = [];
  is_solid = true;
  should_promote = false;
  should_reattach = false;
  referenced_by_milestone_index = 5;
  milestone_index = 0;
  inclusion_state = LedgerInclusionState.included;
  conflict_reason = ConflictReason.no_conflict;
  white_flag_index = 0;
}

-- one key from milestone 2 on, and one that cannot be decoded up to milestone 4
abbrev pub key_ranges : List (MilestoneKeyRange Bytes)
key_ranges =
    record { public_key = 7 ∷ []; start = 2; end = 2 }
    ∷ record { public_key = 0 ∷ []; start = 1; end = 4 }
    ∷ []

abbrev pub config : NodeConfiguration Bytes
config = record {
  milestone_public_key_count = 1;
  milestone_key_ranges = key_ranges;
  base_token = record {
    name = [];
    ticker_symbol = [];
    unit = [];
    subunit = [];
    decimals = 6;
    use_metric_prefix = false;
  };
}

abbrev pub update : ConfigurationUpdateDocument Bytes
update = record { ledger_index = 1; config = config }

abbrev pub db : Database Bytes
db = record {
  blocks = record { block_id = id_1; block = block_with 1; raw = 1 ∷ []; metadata = metadata } ∷ [];
  milestones =
      record {
        milestone_id = [];
        at = record { milestone_index = 5; milestone_timestamp = 100 };
        payload = milestone;
      }
      ∷ [];
  configuration_updates = update ∷ [];
}

abbrev pub audit_path : MerkleAuditPathDto Bytes
audit_path = single_dto (value_dto id_1)

abbrev pub response : CreateProofResponse iota
response = record { milestone = milestone; block = block_with 1; audit_path = audit_path }

-- the same with another block
abbrev pub forged : CreateProofResponse iota
forged = record { milestone = milestone; block = block_with 2; audit_path = audit_path }
