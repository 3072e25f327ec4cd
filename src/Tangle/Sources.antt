-- ===== src/Tangle/Sources.antt =====
-- What every source of tangle data provides: src/tangle/sources/mod.rs, with the milestone of
-- src/tangle/milestone_stream.rs. A stream is the list of what it yields, errors included.
use inx_chronicle.Common.{ℕ, List, [], ◌∷◌}
use inx_chronicle.Common.Bytes.{Bytes}
use inx_chronicle.Common.Run.{Run, ok, ◌>>=◌}
use inx_chronicle.Model.Block.{Block}
use inx_chronicle.Model.Metadata.{BlockMetadata}
use inx_chronicle.Model.Milestone.{MilestoneIndexTimestamp, MilestonePayload}
use inx_chronicle.Model.Protocol.{ProtocolParameters}
use inx_chronicle.Db.Collections.{NodeConfiguration}
use inx_chronicle.Tangle.LedgerUpdates.{LedgerUpdateStore}

pub record MilestoneData (Text : Type 0) : Type 0 where
  pub milestone_id : Bytes
  pub at : MilestoneIndexTimestamp
  pub payload : MilestonePayload
  pub protocol_params : ProtocolParameters
  pub node_config : NodeConfiguration Text

pub record BlockData : Type 0 where
  pub block_id : Bytes
  pub block : Block
  pub raw : Bytes
  pub metadata : BlockMetadata

-- the range of milestone indexes that is asked for is a type of its own
pub record InputSource (Text E Range : Type 0) : Type 0 where
  pub milestone_stream : Range → Run E (List (Run E (MilestoneData Text)))
  pub cone_stream : ℕ → Run E (List (Run E BlockData))
  pub ledger_updates : ℕ → Run E LedgerUpdateStore

pub record Milestone (Text E Range : Type 0) : Type 0 where
  pub source : InputSource Text E Range
  pub milestone_id : Bytes
  pub at : MilestoneIndexTimestamp
  pub payload : MilestonePayload
  pub protocol_params : ProtocolParameters
  pub node_config : NodeConfiguration Text
  pub ledger_updates : LedgerUpdateStore

-- `stream.and_then(..)`: an item that is an error stays one, and does not end the stream
abbrev pub and_then : {E A B : Type 0} → List (Run E A) → (A → Run E B) → List (Run E B)
and_then [] f = []
and_then (x ∷ xs) f = (x >>= f) ∷ and_then xs f

module _ {Text E Range : Type 0} where
  -- `Milestone::cone_stream`
  unfoldable pub cone_stream : Milestone Text E Range → Run E (List (Run E BlockData))
  cone_stream m = m.source.cone_stream m.at.milestone_index

  -- the closure in `Tangle::milestone_stream`
  unfoldable pub with_updates :
      InputSource Text E Range → MilestoneData Text → Run E (Milestone Text E Range)
  with_updates source data' = do
    ledger_updates ← source.ledger_updates data'.at.milestone_index
    ok record {
      source = source;
      milestone_id = data'.milestone_id;
      at = data'.at;
      payload = data'.payload;
      protocol_params = data'.protocol_params;
      node_config = data'.node_config;
      ledger_updates = ledger_updates;
    }

  -- `Tangle::milestone_stream`
  unfoldable pub milestone_stream :
      InputSource Text E Range → Range → Run E (List (Run E (Milestone Text E Range)))
  milestone_stream source range = do
    stream ← source.milestone_stream range
    ok (and_then stream (with_updates source))
