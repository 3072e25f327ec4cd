-- ===== src/Analytics/Ledger/OutputActivity.antt =====
-- `OutputActivityMeasurement`: src/analytics/ledger/output_activity.rs. The digest that makes an
-- explicit id from an output id is a parameter. A `HashSet` is a list without repetition.
pub mod Ids
pub mod Balance
pub mod Nfts
pub mod Sets
use inx_chronicle.Common.{
  ℕ, Bool, true, false, not, Option, none, some, List, [], ◌∷◌, length, ◌==◌, ◌>>=◌, filter_map,
  if◌then◌else◌,
}
use inx_chronicle.Common.Bytes.{Bytes, bytes_beq}
use inx_chronicle.Common.Words.{wrapping_add}
use inx_chronicle.Model.Address.{Address, OutputId, as_bytes, address_beq, implicit}
use inx_chronicle.Model.Output.{Output}
use inx_chronicle.Model.Ledger.{LedgerOutput, LedgerSpent}
use inx_chronicle.Analytics.Update.{spent_outputs}
use inx_chronicle.Analytics.Ledger.OutputActivity.Sets.{id, collect, difference, intersection, get}

pub record NftActivityMeasurement : Type 0 where
  pub created_count : ℕ
  pub transferred_count : ℕ
  pub destroyed_count : ℕ

pub record AliasActivityMeasurement : Type 0 where
  pub created_count : ℕ
  pub governor_changed_count : ℕ
  pub state_changed_count : ℕ
  pub destroyed_count : ℕ

pub record FoundryActivityMeasurement : Type 0 where
  pub created_count : ℕ
  pub transferred_count : ℕ
  pub destroyed_count : ℕ

pub record OutputActivityMeasurement : Type 0 where
  pub nft : NftActivityMeasurement
  pub alias : AliasActivityMeasurement
  pub foundry : FoundryActivityMeasurement

-- Two values are equal if their ids are.
pub record AliasData : Type 0 where
  pub alias_id : Bytes
  pub governor_address : Address
  pub state_index : ℕ

-- the body of the loop over the aliases that are consumed and created; `none` is the panic of
-- `unwrap`
abbrev pub count_change :
    AliasActivityMeasurement → Option AliasData → Option AliasData → Option AliasActivityMeasurement
count_change m none output = none
count_change m (some input) none = none
count_change m (some input) (some output) =
    let m1 =
      if not (output.state_index == input.state_index)
      then record m { state_changed_count = wrapping_add m.state_changed_count 1 }
      else m in
    some (
      if not (address_beq output.governor_address input.governor_address)
      then record m1 { governor_changed_count = wrapping_add m1.governor_changed_count 1 }
      else m1)

abbrev pub id_of : AliasData → Bytes
id_of a = a.alias_id

-- the loop over the intersection
abbrev pub count_changes :
    List AliasData
    → List AliasData
    → Option AliasActivityMeasurement
    → List AliasData
    → Option AliasActivityMeasurement
count_changes alias_inputs alias_outputs m [] = m
count_changes alias_inputs alias_outputs none (a ∷ shared) = none
count_changes alias_inputs alias_outputs (some m) (a ∷ shared) =
    count_changes alias_inputs alias_outputs
      (count_change m (get id_of a.alias_id alias_inputs) (get id_of a.alias_id alias_outputs))
      shared

module _ (digest : Bytes → Bytes) where
  -- implicit ids become explicit ids
  abbrev pub explicit_id : Bytes → OutputId → Bytes
  explicit_id nft_id output_id =
      if bytes_beq nft_id implicit then digest (as_bytes output_id) else nft_id

  abbrev pub nft_id : LedgerOutput → Option Bytes
  nft_id o = elim o.output [ Output.nft n ↦ some (explicit_id n.nft_id o.output_id) | _ ↦ none ]

  abbrev pub alias_data : LedgerOutput → Option AliasData
  alias_data o = elim o.output [
    | Output.alias a ↦ some record {
      alias_id = explicit_id a.alias_id o.output_id;
      governor_address = a.governor_address_unlock_condition.address;
      state_index = a.state_index;
    }
    | _ ↦ none
  ]

  unfoldable pub handle_nfts :
      NftActivityMeasurement → List LedgerSpent → List LedgerOutput → NftActivityMeasurement
  handle_nfts m consumed created =
      let nft_inputs = collect id (filter_map nft_id (spent_outputs consumed)) in
      let nft_outputs = collect id (filter_map nft_id created) in
      record {
        created_count =
            wrapping_add m.created_count (length (difference id nft_outputs nft_inputs));
        transferred_count =
            wrapping_add m.transferred_count (length (intersection id nft_outputs nft_inputs));
        destroyed_count =
            wrapping_add m.destroyed_count (length (difference id nft_inputs nft_outputs));
      }

  unfoldable pub handle_aliases :
      AliasActivityMeasurement
      → List LedgerSpent
      → List LedgerOutput
      → Option AliasActivityMeasurement
  handle_aliases m consumed created =
      let alias_inputs = collect id_of (filter_map alias_data (spent_outputs consumed)) in
      let alias_outputs = collect id_of (filter_map alias_data created) in
      let counted = record m {
        created_count =
            wrapping_add m.created_count (length (difference id_of alias_outputs alias_inputs));
        destroyed_count =
            wrapping_add m.destroyed_count (length (difference id_of alias_inputs alias_outputs));
      } in
      count_changes alias_inputs alias_outputs (some counted)
        (intersection id_of alias_outputs alias_inputs)

abbrev pub foundry_id : LedgerOutput → Option Bytes
foundry_id o = elim o.output [ Output.foundry f ↦ some f.foundry_id | _ ↦ none ]

unfoldable pub handle_foundries :
    FoundryActivityMeasurement → List LedgerSpent → List LedgerOutput → FoundryActivityMeasurement
handle_foundries m consumed created =
    let foundry_inputs = collect id (filter_map foundry_id (spent_outputs consumed)) in
    let foundry_outputs = collect id (filter_map foundry_id created) in
    record {
      created_count =
          wrapping_add m.created_count (length (difference id foundry_outputs foundry_inputs));
      transferred_count =
          wrapping_add m.transferred_count
            (length (intersection id foundry_outputs foundry_inputs));
      destroyed_count =
          wrapping_add m.destroyed_count (length (difference id foundry_inputs foundry_outputs));
    }

module _ (digest : Bytes → Bytes) where
  -- `OutputActivityMeasurement::handle_transaction`
  unfoldable pub handle_transaction :
      OutputActivityMeasurement
      → List LedgerSpent
      → List LedgerOutput
      → Option OutputActivityMeasurement
  handle_transaction m consumed created = do
    alias ← handle_aliases digest m.alias consumed created
    some record {
      nft = handle_nfts digest m.nft consumed created;
      alias = alias;
      foundry = handle_foundries m.foundry consumed created;
    }
