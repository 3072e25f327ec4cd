-- ===== src/Db/Collections.antt =====
-- Collections of the database that the modelled code reads, as lists of documents in no order that
-- matters, and the queries on them: src/db/mongodb/collections/{block,milestone,
-- configuration_update}.rs. A query on them does not fail here: errors of the driver are left out.
use inx_chronicle.Common.{
  ℕ, Bool, ◌&&◌, Option, none, some, List, [], ◌∷◌, map, ltb, leb, ◌==◌, if◌then◌else◌,
}
use inx_chronicle.Common.Bytes.{Bytes, bytes_beq}
use inx_chronicle.Model.Milestone.{MilestoneIndexTimestamp, MilestonePayload}
use inx_chronicle.Model.Block.{Block}
use inx_chronicle.Model.Metadata.{BlockMetadata, is_included}
use inx_chronicle.Poi.Keys.{MilestoneKeyRange}

pub record BlockDocument : Type 0 where
  pub block_id : Bytes
  pub block : Block
  pub raw : Bytes
  pub metadata : BlockMetadata

pub record MilestoneDocument : Type 0 where
  pub milestone_id : Bytes
  pub at : MilestoneIndexTimestamp
  pub payload : MilestonePayload

pub record BaseToken (Text : Type 0) : Type 0 where
  pub name : Text
  pub ticker_symbol : Text
  pub unit : Text
  pub subunit : Text
  pub decimals : ℕ
  pub use_metric_prefix : Bool

pub record NodeConfiguration (Text : Type 0) : Type 0 where
  pub milestone_public_key_count : ℕ
  pub milestone_key_ranges : List (MilestoneKeyRange Text)
  pub base_token : BaseToken Text

pub record ConfigurationUpdateDocument (Text : Type 0) : Type 0 where
  pub ledger_index : ℕ
  pub config : NodeConfiguration Text

pub record Database (Text : Type 0) : Type 0 where
  pub blocks : List BlockDocument
  pub milestones : List MilestoneDocument
  pub configuration_updates : List (ConfigurationUpdateDocument Text)

-- `$match`, and the first result
abbrev pub find? {ℓ} : {A : Type ℓ} → (A → Bool) → List A → Option A
find? p [] = none
find? p (x ∷ xs) = if p x then some x else find? p xs

abbrev pub matching {ℓ} : {A : Type ℓ} → (A → Bool) → List A → List A
matching p [] = []
matching p (x ∷ xs) = if p x then x ∷ matching p xs else matching p xs

-- `$sort` by a number, ascending
abbrev pub insert_by {ℓ} : {A : Type ℓ} → (A → ℕ) → A → List A → List A
insert_by f a [] = a ∷ []
insert_by f a (x ∷ xs) = if leb (f a) (f x) then a ∷ x ∷ xs else x ∷ insert_by f a xs

abbrev pub sort_by {ℓ} : {A : Type ℓ} → (A → ℕ) → List A → List A
sort_by f [] = []
sort_by f (x ∷ xs) = insert_by f x (sort_by f xs)

abbrev pub map_option {ℓ κ} : {A : Type ℓ} {B : Type κ} → (A → B) → Option A → Option B
map_option f none = none
map_option f (some a) = some (f a)

-- `BlockCollection::get_block_metadata`
unfoldable pub get_block_metadata : List BlockDocument → Bytes → Option BlockMetadata
get_block_metadata blocks id =
    map_option (λ d. d.metadata) (find? (λ d. bytes_beq d.block_id id) blocks)

-- `BlockCollection::get_block_raw`
unfoldable pub get_block_raw : List BlockDocument → Bytes → Option Bytes
get_block_raw blocks id = map_option (λ d. d.raw) (find? (λ d. bytes_beq d.block_id id) blocks)

-- `BlockCollection::get_referenced_blocks_in_white_flag_order`
unfoldable pub get_referenced_blocks_in_white_flag_order : List BlockDocument → ℕ → List Bytes
get_referenced_blocks_in_white_flag_order blocks index =
    map (λ d. d.block_id)
      (sort_by (λ d. d.metadata.white_flag_index)
        (matching (λ d. d.metadata.referenced_by_milestone_index == index) blocks))

-- `BlockCollection::get_applied_blocks_in_white_flag_order`
unfoldable pub get_applied_blocks_in_white_flag_order : List BlockDocument → ℕ → List Bytes
get_applied_blocks_in_white_flag_order blocks index =
    map (λ d. d.block_id)
      (sort_by (λ d. d.metadata.white_flag_index)
        (matching
          (λ d.
            d.metadata.referenced_by_milestone_index == index
            && is_included d.metadata.inclusion_state)
          blocks))

-- `MilestoneCollection::get_milestone_payload`
unfoldable pub get_milestone_payload : List MilestoneDocument → ℕ → Option MilestonePayload
get_milestone_payload milestones index =
    map_option (λ d. d.payload) (find? (λ d. d.at.milestone_index == index) milestones)

module _ {Text : Type 0} where
  -- the later of two updates
  abbrev pub newer :
      ConfigurationUpdateDocument Text
      → Option (ConfigurationUpdateDocument Text)
      → ConfigurationUpdateDocument Text
  newer d none = d
  newer d (some e) = if ltb d.ledger_index e.ledger_index then e else d

  -- `ConfigurationUpdateCollection::get_node_configuration_for_ledger_index`: the newest update at
  -- the index or before
  unfoldable pub get_node_configuration_for_ledger_index :
      List (ConfigurationUpdateDocument Text) → ℕ → Option (ConfigurationUpdateDocument Text)
  get_node_configuration_for_ledger_index [] index = none
  get_node_configuration_for_ledger_index (d ∷ ds) index =
      let rest = get_node_configuration_for_ledger_index ds index in
      if leb d.ledger_index index then some (newer d rest) else rest
