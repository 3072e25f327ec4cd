-- ===== src/Tangle/Inx.antt =====
-- The ledger updates of a milestone as they are read from INX: `InputSource::ledger_updates` of
-- src/tangle/sources/inx.rs, with the messages of src/inx/ledger.rs. The stream is a parameter: the
-- list of what it yields, in which an item is a message or an error of the type `E` (`InxError`).
pub mod Read
use inx_chronicle.Common.{ℕ, zero, suc, Option, none, some, List, [], ◌∷◌, take, drop}
use inx_chronicle.Common.Run.{Run, ok, err, panic, ok_or, map_err, ◌>>=◌}
use inx_chronicle.Model.Ledger.{LedgerOutput, LedgerSpent}
use inx_chronicle.Tangle.LedgerUpdates.{LedgerUpdateStore, init}

pub record MarkerMessage : Type 0 where
  pub milestone_index : ℕ
  pub consumed_count : ℕ
  pub created_count : ℕ

pub data LedgerUpdateMessage : Type 0 where
  consumed : LedgerSpent → LedgerUpdateMessage
  created : LedgerOutput → LedgerUpdateMessage
  begin end_marker : MarkerMessage → LedgerUpdateMessage

pub data InxInputSourceError (E : Type 0) : Type 0 where
  inx : E → InxInputSourceError E
  missing_marker_message unexpected_message : InxInputSourceError E
  missing_milestone_info : (milestone_index : ℕ) → InxInputSourceError E

-- `LedgerUpdateMessage::consumed`
unfoldable pub as_consumed : LedgerUpdateMessage → Option LedgerSpent
as_consumed (LedgerUpdateMessage.consumed ledger_spent) = some ledger_spent
as_consumed m = none

-- `LedgerUpdateMessage::created`
unfoldable pub as_created : LedgerUpdateMessage → Option LedgerOutput
as_created (LedgerUpdateMessage.created ledger_output) = some ledger_output
as_created m = none

-- `LedgerUpdateMessage::begin`
unfoldable pub as_begin : LedgerUpdateMessage → Option MarkerMessage
as_begin (LedgerUpdateMessage.begin marker) = some marker
as_begin m = none

module _ {E : Type 0} where
  -- `.map(|update| update?.consumed().ok_or(UnexpectedMessage)).try_collect().await?`, and the same
  -- for created outputs: up to the first error
  abbrev pub try_collect :
      {A : Type 0}
      → (LedgerUpdateMessage → Option A)
      → List (Run E LedgerUpdateMessage)
      → Run (InxInputSourceError E) (List A)
  try_collect pick [] = ok []
  try_collect pick (update ∷ stream) = do
    message ← map_err inx update
    a ← ok_or (pick message) unexpected_message
    rest ← try_collect pick stream
    ok (a ∷ rest)

  -- `stream.try_next().await?.ok_or(MissingMarkerMessage)?.begin().ok_or(UnexpectedMessage)?`
  abbrev pub read_marker :
      List (Run E LedgerUpdateMessage) → Run (InxInputSourceError E) MarkerMessage
  read_marker [] = err missing_marker_message
  read_marker (update ∷ stream) = do
    message ← map_err inx update
    ok_or (as_begin message) unexpected_message

  unfoldable pub ledger_updates :
      List (Run E LedgerUpdateMessage) → Run (InxInputSourceError E) LedgerUpdateStore
  ledger_updates stream = do
    marker ← read_marker stream
    spent_outputs ← try_collect as_consumed (take marker.consumed_count (drop 1 stream))
    created_outputs ←
        try_collect as_created
          (take marker.created_count (drop marker.consumed_count (drop 1 stream)))
    ok (init spent_outputs created_outputs)
