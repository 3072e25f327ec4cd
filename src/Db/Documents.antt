-- ===== src/Db/Documents.antt =====
-- More collections that the synchronisation writes: src/db/mongodb/collections/{ledger_update,
-- treasury,protocol_update,configuration_update,milestone,block}.rs, as lists of documents. A
-- document whose key is taken is not inserted again. Equality of protocol parameters and of node
-- configurations is a parameter.
pub mod Latest
pub mod Stored
use inx_chronicle.Common.{
  ℕ, Bool, true, false, not, ◌&&◌, ◌||◌, Option, none, some, List, [], ◌∷◌, ◌++◌, filter_map,
  if◌then◌else◌, ◌==◌, ltb, leb,
}
use inx_chronicle.Common.Bytes.{Bytes, bytes_beq}
use inx_chronicle.Model.Address.{Address, OutputId, output_id_beq}
use inx_chronicle.Model.Block.{Payload, transaction_payload, OptionPayload}
use inx_chronicle.Model.Metadata.{is_included}
use inx_chronicle.Model.Ledger.{LedgerOutput, LedgerSpent, owning_address}
use inx_chronicle.Model.Milestone.{MilestoneIndexTimestamp, MilestonePayload}
use inx_chronicle.Model.Protocol.{ProtocolParameters}
use inx_chronicle.Db.Collections.{
  BlockDocument, MilestoneDocument, NodeConfiguration, ConfigurationUpdateDocument, find?,
  map_option, get_node_configuration_for_ledger_index,
}
use inx_chronicle.Tangle.Sources.{BlockData}

-- whether a document with the key is there
abbrev pub has_key {ℓ} : {A : Type ℓ} → (A → A → Bool) → A → List A → Bool
has_key same x [] = false
has_key same x (d ∷ docs) = same x d || has_key same x docs

abbrev pub insert_new {ℓ} : {A : Type ℓ} → (A → A → Bool) → A → List A → List A
insert_new same x docs = if has_key same x docs then docs else docs ++ (x ∷ [])

-- `insert_many_ignore_duplicates`
unfoldable pub insert_many_ignore_duplicates {ℓ} :
    {A : Type ℓ} → (A → A → Bool) → List A → List A → List A
insert_many_ignore_duplicates same [] docs = docs
insert_many_ignore_duplicates same (x ∷ xs) docs =
    insert_many_ignore_duplicates same xs (insert_new same x docs)

pub record LedgerUpdateId : Type 0 where
  pub milestone_index : ℕ
  pub output_id : OutputId
  pub is_spent : Bool

pub record LedgerUpdateDocument : Type 0 where
  pub id : LedgerUpdateId
  pub address : Address
  pub milestone_timestamp : ℕ

abbrev pub bool_beq : Bool → Bool → Bool
bool_beq true b = b
bool_beq false b = not b

abbrev pub same_update : LedgerUpdateDocument → LedgerUpdateDocument → Bool
same_update a b =
    (a.id.milestone_index == b.id.milestone_index)
    && (output_id_beq a.id.output_id b.id.output_id && bool_beq a.id.is_spent b.id.is_spent)

abbrev pub for_owner :
    LedgerOutput → MilestoneIndexTimestamp → Bool → Option Address → Option LedgerUpdateDocument
for_owner o at is_spent none = none
for_owner o at is_spent (some address) = some record {
  id = record {
    milestone_index = at.milestone_index;
    output_id = o.output_id;
    is_spent = is_spent;
  };
  address = address;
  milestone_timestamp = at.milestone_timestamp;
}

abbrev pub spent_update : LedgerSpent → Option LedgerUpdateDocument
spent_update s = for_owner s.output s.spent_metadata.spent true (owning_address s.output)

abbrev pub unspent_update : LedgerOutput → Option LedgerUpdateDocument
unspent_update o = for_owner o o.booked false (owning_address o)

-- `LedgerUpdateCollection::insert_spent_ledger_updates`
unfoldable pub insert_spent_ledger_updates :
    List LedgerSpent → List LedgerUpdateDocument → List LedgerUpdateDocument
insert_spent_ledger_updates outputs docs =
    insert_many_ignore_duplicates same_update (filter_map spent_update outputs) docs

-- `LedgerUpdateCollection::insert_unspent_ledger_updates`
unfoldable pub insert_unspent_ledger_updates :
    List LedgerOutput → List LedgerUpdateDocument → List LedgerUpdateDocument
insert_unspent_ledger_updates outputs docs =
    insert_many_ignore_duplicates same_update (filter_map unspent_update outputs) docs

pub record TreasuryDocument : Type 0 where
  pub milestone_index : ℕ
  pub milestone_id : Bytes
  pub amount : ℕ

abbrev pub same_treasury : TreasuryDocument → TreasuryDocument → Bool
same_treasury a b = a.milestone_index == b.milestone_index

-- `TreasuryCollection::insert_treasury_payloads`
unfoldable pub insert_treasury_payloads :
    List TreasuryDocument → List TreasuryDocument → List TreasuryDocument
insert_treasury_payloads payloads docs = insert_many_ignore_duplicates same_treasury payloads docs

-- `From<BlockData> for BlockDocument`
abbrev pub block_document : BlockData → BlockDocument
block_document b = record {
  block_id = b.block_id;
  block = b.block;
  raw = b.raw;
  metadata = b.metadata;
}

-- the key of the partial index on `block.payload.transaction_id`, for included blocks only
abbrev pub included_transaction_id : BlockDocument → Option Bytes
included_transaction_id d =
    if is_included d.metadata.inclusion_state
    then elim d.block.payload [
      | OptionPayload.with_payload (Payload.transaction (transaction_payload id essence unlocks)) ↦
          some id
      | _ ↦ none
    ]
    else none

abbrev pub same_transaction : Option Bytes → Option Bytes → Bool
same_transaction (some a) (some b) = bytes_beq a b
same_transaction a b = false

-- the unique keys: the `_id`, and the transaction of an included block
abbrev pub same_block : BlockDocument → BlockDocument → Bool
same_block a b =
    bytes_beq a.block_id b.block_id
    || same_transaction (included_transaction_id a) (included_transaction_id b)

abbrev pub block_documents : List BlockData → List BlockDocument
block_documents [] = []
block_documents (b ∷ bs) = block_document b ∷ block_documents bs

-- `BlockCollection::insert_blocks_with_metadata`
unfoldable pub insert_blocks_with_metadata :
    List BlockData → List BlockDocument → List BlockDocument
insert_blocks_with_metadata blocks docs =
    insert_many_ignore_duplicates same_block (block_documents blocks) docs

pub record ProtocolUpdateDocument : Type 0 where
  pub tangle_index : ℕ
  pub parameters : ProtocolParameters

abbrev pub newer_update :
    ProtocolUpdateDocument → Option ProtocolUpdateDocument → ProtocolUpdateDocument
newer_update d none = d
newer_update d (some e) = if ltb d.tangle_index e.tangle_index then e else d

-- `ProtocolUpdateCollection::get_latest_protocol_parameters`
unfoldable pub get_latest_protocol_parameters :
    List ProtocolUpdateDocument → Option ProtocolUpdateDocument
get_latest_protocol_parameters [] = none
get_latest_protocol_parameters (d ∷ docs) =
    some (newer_update d (get_latest_protocol_parameters docs))

-- `ProtocolUpdateCollection::get_protocol_parameters_for_ledger_index`
unfoldable pub get_protocol_parameters_for_ledger_index :
    List ProtocolUpdateDocument → ℕ → Option ProtocolUpdateDocument
get_protocol_parameters_for_ledger_index [] index = none
get_protocol_parameters_for_ledger_index (d ∷ docs) index =
    let rest = get_protocol_parameters_for_ledger_index docs index in
    if leb d.tangle_index index then some (newer_update d rest) else rest

-- `update_one` by `_id` with `upsert`
abbrev pub set_parameters :
    ProtocolUpdateDocument → List ProtocolUpdateDocument → List ProtocolUpdateDocument
set_parameters d [] = d ∷ []
set_parameters d (e ∷ docs) =
    if d.tangle_index == e.tangle_index then d ∷ docs else e ∷ set_parameters d docs

-- `matches!(params, Some(params) if params.parameters == parameters)`
abbrev pub matches_parameters : (ProtocolParameters → Bool) → Option ProtocolUpdateDocument → Bool
matches_parameters equal none = false
matches_parameters equal (some d) = equal d.parameters

-- `ProtocolUpdateCollection::upsert_protocol_parameters`
unfoldable pub upsert_protocol_parameters :
    (ProtocolParameters → ProtocolParameters → Bool)
    → ℕ
    → ProtocolParameters
    → List ProtocolUpdateDocument
    → List ProtocolUpdateDocument
upsert_protocol_parameters equal index parameters docs =
    if matches_parameters (λ p. equal p parameters)
      (get_protocol_parameters_for_ledger_index docs index)
    then docs
    else set_parameters (record { tangle_index = index; parameters = parameters }) docs

module _ {Text : Type 0} where
  abbrev pub set_configuration :
      ConfigurationUpdateDocument Text
      → List (ConfigurationUpdateDocument Text)
      → List (ConfigurationUpdateDocument Text)
  set_configuration d [] = d ∷ []
  set_configuration d (e ∷ docs) =
      if d.ledger_index == e.ledger_index then d ∷ docs else e ∷ set_configuration d docs

  abbrev pub matches_configuration :
      (NodeConfiguration Text → Bool) → Option (ConfigurationUpdateDocument Text) → Bool
  matches_configuration equal none = false
  matches_configuration equal (some d) = equal d.config

  -- `ConfigurationUpdateCollection::upsert_node_configuration`
  unfoldable pub upsert_node_configuration :
      (NodeConfiguration Text → NodeConfiguration Text → Bool)
      → ℕ
      → NodeConfiguration Text
      → List (ConfigurationUpdateDocument Text)
      → List (ConfigurationUpdateDocument Text)
  upsert_node_configuration equal index config docs =
      if matches_configuration (λ c. equal c config)
        (get_node_configuration_for_ledger_index docs index)
      then docs
      else set_configuration (record { ledger_index = index; config = config }) docs

-- `MilestoneCollection::get_milestone`
unfoldable pub get_milestone :
    List MilestoneDocument → ℕ → Option (Bytes × MilestoneIndexTimestamp × MilestonePayload)
get_milestone milestones index =
    map_option (λ d. (d.milestone_id, d.at, d.payload))
      (find? (λ d. d.at.milestone_index == index) milestones)

abbrev pub later :
    MilestoneIndexTimestamp → Option MilestoneIndexTimestamp → MilestoneIndexTimestamp
later a none = a
later a (some b) = if ltb a.milestone_index b.milestone_index then b else a

-- `MilestoneCollection::get_newest_milestone`
unfoldable pub get_newest_milestone : List MilestoneDocument → Option MilestoneIndexTimestamp
get_newest_milestone [] = none
get_newest_milestone (d ∷ docs) = some (later d.at (get_newest_milestone docs))

-- the unique keys: the `_id` and the indexes on the milestone's index and timestamp
abbrev pub same_milestone : MilestoneDocument → MilestoneDocument → Bool
same_milestone a b =
    bytes_beq a.milestone_id b.milestone_id
    || ((a.at.milestone_index == b.at.milestone_index)
        || (a.at.milestone_timestamp == b.at.milestone_timestamp))

-- `MilestoneCollection::insert_milestone`: `none` is the error of the driver for a key that is taken
unfoldable pub insert_milestone :
    MilestoneDocument → List MilestoneDocument → Option (List MilestoneDocument)
insert_milestone d docs = if has_key same_milestone d docs then none else some (docs ++ (d ∷ []))
