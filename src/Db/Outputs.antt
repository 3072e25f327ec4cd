-- ===== src/Db/Outputs.antt =====
-- The collection of outputs: src/db/mongodb/collections/outputs/mod.rs. It is the list of its
-- documents, with one document for an `_id`. The digest that makes an explicit id from an output id
-- is a parameter. Errors of the driver are left out; `insert_many_ignore_duplicates` skips a
-- document whose `_id` is taken. Amounts are summed as numbers of any size, where the database has
-- decimals of 34 digits.
pub mod Writes
pub mod Order
pub mod Tasks
pub mod Search
pub mod Stored
pub mod Updates
use inx_chronicle.Common.{
  ℕ, ◌+◌, Bool, true, false, not, ◌&&◌, ◌||◌, Option, none, some, List, [], ◌∷◌, map, filter_map,
  ltb, leb, ◌==◌, if◌then◌else◌,
}
use inx_chronicle.Common.Bytes.{Bytes, bytes_beq}
use inx_chronicle.Model.Address.{Address, OutputId, address_beq, output_id_beq, as_bytes, implicit}
use inx_chronicle.Model.Milestone.{MilestoneIndexTimestamp}
use inx_chronicle.Model.Output.{Output, owning_address, output_amount, is_trivial_unlock}
use inx_chronicle.Model.Ledger.{LedgerOutput, LedgerSpent, SpentMetadata, RentStructureBytes}

pub record OutputMetadata : Type 0 where
  pub block_id : Bytes
  pub booked : MilestoneIndexTimestamp
  pub spent_metadata : Option SpentMetadata

pub data IndexedId : Type 0 where
  alias foundry nft : Bytes → IndexedId

-- what is stored of it, since it is `#[serde(untagged)]`
abbrev pub stored_id : Option IndexedId → Option Bytes
stored_id none = none
stored_id (some (IndexedId.alias id)) = some id
stored_id (some (IndexedId.foundry id)) = some id
stored_id (some (IndexedId.nft id)) = some id

pub record OutputDetails : Type 0 where
  pub address : Option Address
  pub is_trivial_unlock : Bool
  pub rent_structure : RentStructureBytes
  pub indexed_id : Option IndexedId

pub record OutputDocument : Type 0 where
  pub output_id : OutputId
  pub output : Output
  pub metadata : OutputMetadata
  pub details : OutputDetails

pub record OutputMetadataResult : Type 0 where
  pub output_id : OutputId
  pub block_id : Bytes
  pub booked : MilestoneIndexTimestamp
  pub spent_metadata : Option SpentMetadata

pub record OutputWithMetadataResult : Type 0 where
  pub output : Output
  pub metadata : OutputMetadataResult

pub record BalanceResult : Type 0 where
  pub total_balance : ℕ
  pub sig_locked_balance : ℕ

pub record UtxoChangesResult : Type 0 where
  pub created_outputs : List OutputId
  pub consumed_outputs : List OutputId

module _ (digest : Bytes → Bytes) where
  -- `if id == implicit() { output_id.into() } else { id }`
  abbrev pub id_or_digest : Bytes → OutputId → Bytes
  id_or_digest id output_id = if bytes_beq id implicit then digest (as_bytes output_id) else id

  unfoldable pub indexed_id : Output → OutputId → Option IndexedId
  indexed_id (Output.treasury o) output_id = none
  indexed_id (Output.basic o) output_id = none
  indexed_id (Output.alias o) output_id = some (IndexedId.alias (id_or_digest o.alias_id output_id))
  indexed_id (Output.foundry o) output_id = some (IndexedId.foundry o.foundry_id)
  indexed_id (Output.nft o) output_id = some (IndexedId.nft (id_or_digest o.nft_id output_id))

  -- `From<&LedgerOutput> for OutputDocument`
  unfoldable pub from_output : LedgerOutput → OutputDocument
  from_output rec = record {
    output_id = rec.output_id;
    output = rec.output;
    metadata = record { block_id = rec.block_id; booked = rec.booked; spent_metadata = none };
    details = record {
      address = owning_address rec.output;
      is_trivial_unlock = is_trivial_unlock rec.output;
      rent_structure = rec.rent_structure;
      indexed_id = indexed_id rec.output rec.output_id;
    };
  }

  -- `From<&LedgerSpent> for OutputDocument`
  unfoldable pub from_spent : LedgerSpent → OutputDocument
  from_spent rec =
      let res = from_output rec.output in
      record res { metadata = record res.metadata { spent_metadata = some rec.spent_metadata } }

-- an update by `_id` with a whole document and `upsert`
abbrev pub upsert : OutputDocument → List OutputDocument → List OutputDocument
upsert d [] = d ∷ []
upsert d (e ∷ es) = if output_id_beq d.output_id e.output_id then d ∷ es else e ∷ upsert d es

-- an insertion that a duplicate key stops, where the error is ignored
abbrev pub insert_ignore : OutputDocument → List OutputDocument → List OutputDocument
insert_ignore d [] = d ∷ []
insert_ignore d (e ∷ es) =
    if output_id_beq d.output_id e.output_id then e ∷ es else e ∷ insert_ignore d es

module _ (digest : Bytes → Bytes) where
  -- `OutputCollection::insert_unspent_outputs`
  unfoldable pub insert_unspent_outputs :
      List LedgerOutput → List OutputDocument → List OutputDocument
  insert_unspent_outputs [] docs = docs
  insert_unspent_outputs (o ∷ outputs) docs =
      insert_unspent_outputs outputs (insert_ignore (from_output digest o) docs)

  -- `OutputCollection::update_spent_outputs`
  unfoldable pub update_spent_outputs : List LedgerSpent → List OutputDocument → List OutputDocument
  update_spent_outputs [] docs = docs
  update_spent_outputs (s ∷ outputs) docs =
      update_spent_outputs outputs (upsert (from_spent digest s) docs)

-- `$match: { "_id": .. }`, and the first result
abbrev pub find_doc : OutputId → List OutputDocument → Option OutputDocument
find_doc id [] = none
find_doc id (d ∷ ds) = if output_id_beq id d.output_id then some d else find_doc id ds

-- the `$match` and the `$project` of a query on one document
abbrev pub booked_by : ℕ → OutputDocument → Bool
booked_by index d = leb d.metadata.booked.milestone_index index

-- `{ "metadata.spent_metadata.spent.milestone_index": { "$lte": index } }`, false where there is none
abbrev pub spent_by_then : ℕ → Option SpentMetadata → Bool
spent_by_then index none = false
spent_by_then index (some m) = leb m.spent.milestone_index index

abbrev pub is_unspent_at : ℕ → OutputDocument → Bool
is_unspent_at index d = booked_by index d && not (spent_by_then index d.metadata.spent_metadata)

abbrev pub to_ledger_output : OutputDocument → LedgerOutput
to_ledger_output d = record {
  output_id = d.output_id;
  block_id = d.metadata.block_id;
  booked = d.metadata.booked;
  output = d.output;
  rent_structure = d.details.rent_structure;
}

abbrev pub to_metadata : OutputDocument → OutputMetadataResult
to_metadata d = record {
  output_id = d.output_id;
  block_id = d.metadata.block_id;
  booked = d.metadata.booked;
  spent_metadata = d.metadata.spent_metadata;
}

abbrev pub when {ℓ} : {A : Type ℓ} → Bool → A → Option A
when true a = some a
when false a = none

abbrev pub with_doc {ℓ} :
    {A : Type ℓ} → (OutputDocument → Option A) → Option OutputDocument → Option A
with_doc f none = none
with_doc f (some d) = f d

-- `OutputCollection::get_output`
unfoldable pub get_output : List OutputDocument → OutputId → Option Output
get_output docs id = with_doc (λ d. some d.output) (find_doc id docs)

-- `OutputCollection::get_output_with_metadata`
unfoldable pub get_output_with_metadata :
    List OutputDocument → OutputId → ℕ → Option OutputWithMetadataResult
get_output_with_metadata docs id ledger_index =
    with_doc
      (λ d.
        when (booked_by ledger_index d) (record { output = d.output; metadata = to_metadata d }))
      (find_doc id docs)

-- `OutputCollection::get_output_metadata`
unfoldable pub get_output_metadata :
    List OutputDocument → OutputId → ℕ → Option OutputMetadataResult
get_output_metadata docs id ledger_index =
    with_doc (λ d. when (booked_by ledger_index d) (to_metadata d)) (find_doc id docs)

-- `OutputCollection::get_spending_transaction_metadata`
unfoldable pub get_spending_transaction_metadata :
    List OutputDocument → OutputId → Option SpentMetadata
get_spending_transaction_metadata docs id =
    with_doc (λ d. d.metadata.spent_metadata) (find_doc id docs)

-- `OutputCollection::get_unspent_output_stream`
unfoldable pub get_unspent_output_stream : List OutputDocument → ℕ → List LedgerOutput
get_unspent_output_stream docs index =
    filter_map (λ d. when (is_unspent_at index d) (to_ledger_output d)) docs

abbrev pub created_at : ℕ → OutputDocument → Option LedgerOutput
created_at index d = when (d.metadata.booked.milestone_index == index) (to_ledger_output d)

-- `OutputCollection::get_created_outputs`
unfoldable pub get_created_outputs : List OutputDocument → ℕ → List LedgerOutput
get_created_outputs docs index = filter_map (created_at index) docs

abbrev pub spent_with : ℕ → LedgerOutput → Option SpentMetadata → Option LedgerSpent
spent_with index output none = none
spent_with index output (some m) =
    when (m.spent.milestone_index == index) (record { output = output; spent_metadata = m })

abbrev pub consumed_at : ℕ → OutputDocument → Option LedgerSpent
consumed_at index d = spent_with index (to_ledger_output d) d.metadata.spent_metadata

-- `OutputCollection::get_consumed_outputs`
unfoldable pub get_consumed_outputs : List OutputDocument → ℕ → List LedgerSpent
get_consumed_outputs docs index = filter_map (consumed_at index) docs

-- the fields that `OutputCollection::get_ledger_update_stream` takes of a spent output
abbrev pub id_and_output : LedgerSpent → OutputId × Output
id_and_output s = (s.output.output_id, s.output.output)

-- `OutputCollection::get_ledger_update_stream`
unfoldable pub get_ledger_update_stream : List OutputDocument → ℕ → List (OutputId × Output)
get_ledger_update_stream docs index = map id_and_output (filter_map (consumed_at index) docs)

-- the `$match` and `$group` of `get_address_balance`, one document after the other; the result is
-- none where no document matches
abbrev pub is_owned_by : Address → Option Address → Bool
is_owned_by address none = false
is_owned_by address (some a) = address_beq a address

abbrev pub grow_balance : OutputDocument → Option BalanceResult → BalanceResult
grow_balance d none = record {
  total_balance = output_amount d.output;
  sig_locked_balance = if d.details.is_trivial_unlock then output_amount d.output else 0;
}
grow_balance d (some b) = record {
  total_balance = b.total_balance + output_amount d.output;
  sig_locked_balance =
      b.sig_locked_balance + (if d.details.is_trivial_unlock then output_amount d.output else 0);
}

-- `OutputCollection::get_address_balance`
unfoldable pub get_address_balance : List OutputDocument → Address → ℕ → Option BalanceResult
get_address_balance [] address index = none
get_address_balance (d ∷ docs) address index =
    let rest = get_address_balance docs address index in
    if is_owned_by address d.details.address && is_unspent_at index d
    then some (grow_balance d rest)
    else rest

abbrev pub created_id_at : ℕ → OutputDocument → Option OutputId
created_id_at index d = when (d.metadata.booked.milestone_index == index) d.output_id

abbrev pub is_spent_at : ℕ → Option SpentMetadata → Bool
is_spent_at index none = false
is_spent_at index (some m) = m.spent.milestone_index == index

abbrev pub consumed_id_at : ℕ → OutputDocument → Option OutputId
consumed_id_at index d = when (is_spent_at index d.metadata.spent_metadata) d.output_id

-- `OutputCollection::get_utxo_changes`: the `$facet` after the `$match` on either condition
abbrev pub either_at : ℕ → OutputDocument → Option OutputDocument
either_at index d =
    when
      ((d.metadata.booked.milestone_index == index) || is_spent_at index d.metadata.spent_metadata)
      d

unfoldable pub get_utxo_changes : List OutputDocument → ℕ → ℕ → Option UtxoChangesResult
get_utxo_changes docs index ledger_index =
    if ltb ledger_index index
    then none
    else some record {
      created_outputs = filter_map (created_id_at index) (filter_map (either_at index) docs);
      consumed_outputs = filter_map (consumed_id_at index) (filter_map (either_at index) docs);
    }
