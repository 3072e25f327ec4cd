-- ===== src/Tangle/Memory.antt =====
-- A map in memory as a source of tangle data: src/tangle/sources/memory.rs. A `BTreeMap` is the list
-- of its entries in the order of their keys.
use inx_chronicle.Common.{nat_eq, ℕ, Bool, ◌&&◌, ◌||◌, false, List, map, ltb, ◌==◌, if◌then◌else◌}
use inx_chronicle.Common.Run.{Run, ok, panic, ok_or, ◌>>=◌}
use inx_chronicle.Common.Dict.{Dict, lookup}
use inx_chronicle.Db.Collections.{matching}
use inx_chronicle.Tangle.LedgerUpdates.{LedgerUpdateStore}
use inx_chronicle.Tangle.Sources.{MilestoneData, BlockData}
use inx_chronicle.Tangle.MongoDb.{Bound, included, excluded}
use inx_chronicle.Tangle.Requests.{after_start, before_end}

pub record InMemoryData (Text : Type 0) : Type 0 where
  pub milestone : MilestoneData Text
  pub cone : Dict ℕ BlockData
  pub ledger_updates : LedgerUpdateStore

pub data InMemoryInputSourceError : Type 0 where
  missing_block_data : (index : ℕ) → InMemoryInputSourceError

-- the bounds on which `BTreeMap::range` panics
abbrev pub is_bad_range : Bound → Bound → Bool
is_bad_range (included a) (included b) = ltb b a
is_bad_range (included a) (excluded b) = ltb b a
is_bad_range (excluded a) (included b) = ltb b a
is_bad_range (excluded a) (excluded b) = ltb b a || (a == b)
is_bad_range start end' = false

module _ {Text : Type 0} where
  -- `InputSource::milestone_stream`
  unfoldable pub milestone_stream :
      Dict ℕ (InMemoryData Text)
      → Bound
      → Bound
      → Run InMemoryInputSourceError (List (Run InMemoryInputSourceError (MilestoneData Text)))
  milestone_stream data' start end' =
      if is_bad_range start end'
      then panic
      else ok (
          map (λ e. ok e.1.milestone)
            (matching (λ e. after_start start e.0 && before_end end' e.0) data'))

  -- `InputSource::cone_stream`
  unfoldable pub cone_stream :
      Dict ℕ (InMemoryData Text)
      → ℕ
      → Run InMemoryInputSourceError (List (Run InMemoryInputSourceError BlockData))
  cone_stream data' index = do
    found ← ok_or (lookup index data') (missing_block_data index)
    ok (map (λ e. ok e.1) found.cone)

  -- `InputSource::ledger_updates`
  unfoldable pub ledger_updates :
      Dict ℕ (InMemoryData Text) → ℕ → Run InMemoryInputSourceError LedgerUpdateStore
  ledger_updates data' index = do
    found ← ok_or (lookup index data') (missing_block_data index)
    ok found.ledger_updates
