-- ===== src/InxWorker/FirstRun.antt =====
-- The first run of the worker, on a database that no network is linked to, and the check of the
-- network on later ones: the second half of `InxWorker::init`. When the stream of the unspent outputs
-- ends with an error, which of the outputs read before are written is a parameter.
use Prim.Native.String.{String}
use inx_chronicle.Common.{ℕ, Bool, not, Option, none, some, List, [], ◌∷◌, if◌then◌else◌, ◌==◌}
use inx_chronicle.Common.Bytes.{Bytes}
use inx_chronicle.Common.Run.{Run, ok, err, panic, Done, done, ◌>>=◌, map_err}
use inx_chronicle.Model.Ledger.{LedgerOutput}
use inx_chronicle.Model.Protocol.{ProtocolParameters}
use inx_chronicle.Db.ApplicationState.{MigrationVersion, set_starting_index, set_last_migration}
use inx_chronicle.Db.Documents.{
  ProtocolUpdateDocument, upsert_protocol_parameters, get_latest_protocol_parameters,
}
use inx_chronicle.InxWorker.{
  InxWorkerError, invalid_unspent_output_index, network_changed, source_error, Store, write_created,
}

-- a message of the stream of unspent outputs
pub record UnspentOutputMessage : Type 0 where
  pub ledger_index : ℕ
  pub output : LedgerOutput

-- the closure that compares the ledger index of a message with that of the first one
abbrev pub check_index :
    {E : Type 0} → Option ℕ → UnspentOutputMessage → Run (InxWorkerError E) LedgerOutput
check_index none msg = ok msg.output
check_index (some index) msg =
    if not (index == msg.ledger_index)
    then err (invalid_unspent_output_index msg.ledger_index index)
    else ok msg.output

-- the ledger index to compare with after a message
abbrev pub first_index : Option ℕ → ℕ → Option ℕ
first_index none index = some index
first_index (some first) index = some first

-- the outputs of the stream and the ledger index of the first message, up to the first error
unfoldable pub read_unspent_outputs :
    {E : Type 0}
    → Option ℕ
    → List (Run E UnspentOutputMessage)
    → Run (InxWorkerError E) (List LedgerOutput × Option ℕ)
read_unspent_outputs starting_index [] = ok ([], starting_index)
read_unspent_outputs starting_index (item ∷ stream) = do
  msg ← map_err source_error item
  output ← check_index starting_index msg
  rest ← read_unspent_outputs (first_index starting_index msg.ledger_index) stream
  ok (output ∷ rest.0, rest.1)

abbrev pub unwrap_or_default : Option ℕ → ℕ
unwrap_or_default none = 0
unwrap_or_default (some index) = index

-- `MongoDb::clear`: every collection is dropped
abbrev pub cleared : {Text Date : Type 0} → Store Text Date
cleared = record {
  application_state = [];
  outputs = [];
  ledger_updates = [];
  blocks = [];
  treasury = [];
  protocol_updates = [];
  configuration_updates = [];
  milestones = [];
}

module _ {Text Date E : Type 0} where
  module _ (digest : Bytes → Bytes)
      (same_parameters : ProtocolParameters → ProtocolParameters → Bool)
      (same_name : String → String → Bool) (timestamp_of : ℕ → Run E ℕ)
      (written : List (Run E UnspentOutputMessage) → List LedgerOutput) where
    -- after the outputs of the first run: the starting index with its timestamp, and the protocol
    -- parameters, which link the database to the network
    abbrev pub set_start :
        ℕ
        → ProtocolParameters
        → ℕ
        → Run E ℕ
        → Store Text Date
        → Store Text Date × Run (InxWorkerError E) Done
    set_start start parameters starting_index (ok timestamp) store = (
      record store {
        application_state =
            set_starting_index
              (record { milestone_index = starting_index; milestone_timestamp = timestamp })
              store.application_state;
        protocol_updates =
            upsert_protocol_parameters same_parameters start parameters store.protocol_updates;
      },
      ok done,
    )
    set_start start parameters starting_index (err e) store = (store, err (source_error e))
    set_start start parameters starting_index panic store = (store, panic)

    -- `written` gives the outputs whose tasks are done when a stream with an error is dropped
    abbrev pub first_outputs :
        ℕ
        → ProtocolParameters
        → List (Run E UnspentOutputMessage)
        → Run (InxWorkerError E) (List LedgerOutput × Option ℕ)
        → Store Text Date
        → Store Text Date × Run (InxWorkerError E) Done
    first_outputs start parameters stream (ok (outputs, index)) store =
        set_start start parameters (unwrap_or_default index)
          (timestamp_of (unwrap_or_default index)) (write_created digest outputs store)
    first_outputs start parameters stream (err e) store =
        (write_created digest (written stream) store, err e)
    first_outputs start parameters stream panic store =
        (write_created digest (written stream) store, panic)

    -- the part of `init` after the start index, on the latest parameters in the database
    abbrev pub link_network :
        MigrationVersion Date
        → ℕ
        → ProtocolParameters
        → List (Run E UnspentOutputMessage)
        → Option ProtocolUpdateDocument
        → Store Text Date
        → Store Text Date × Run (InxWorkerError E) Done
    link_network version start parameters stream (some latest) store =
        if not (same_name latest.parameters.network_name parameters.network_name)
        then (store, err (network_changed latest.parameters.network_name parameters.network_name))
        else if not (same_parameters latest.parameters parameters)
        then (
          record store {
            protocol_updates =
                upsert_protocol_parameters same_parameters start parameters store.protocol_updates;
          },
          ok done,
        )
        else (store, ok done)
    link_network version start parameters stream none store =
        first_outputs start parameters stream (read_unspent_outputs none stream)
          (record cleared { application_state = set_last_migration version [] })

    unfoldable pub init_database :
        MigrationVersion Date
        → ℕ
        → ProtocolParameters
        → List (Run E UnspentOutputMessage)
        → Store Text Date
        → Store Text Date × Run (InxWorkerError E) Done
    init_database version start parameters stream store =
        link_network version start parameters stream
          (get_latest_protocol_parameters store.protocol_updates) store
