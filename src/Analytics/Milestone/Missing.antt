-- ===== src/Analytics/Milestone/Missing.antt =====
-- A block whose transaction spends an output that the ledger updates do not have.
use inx_chronicle.Common.{ℕ, ◌≡◌, none, some, List, [], ◌∷◌, ◌++◌}
use inx_chronicle.Common.Bytes.{Bytes}
use inx_chronicle.Common.Run.{err}
use inx_chronicle.Model.Address.{OutputId}
use inx_chronicle.Model.Output.{Output}
use inx_chronicle.Model.Block.{
  Input, transaction_payload, TransactionEssence, OptionPayload, Unlock,
}
use inx_chronicle.Model.Ledger.{LedgerOutput, LedgerSpent}
use inx_chronicle.Tangle.LedgerUpdates.{init, spent_id}
use inx_chronicle.Tangle.LedgerUpdates.Retrieve.{last_with, get_init}
use inx_chronicle.Tangle.Sources.{Milestone, BlockData}
use inx_chronicle.Analytics.Milestone.{
  Report, analytics_error, missing_ledger_spent, Analytics, collect_consumed, utxo_ids, resolve,
  included_transaction, handle_block,
}

-- outputs that are among the consumed ones
abbrev pub AreConsumed : List LedgerSpent → List OutputId → Type 0
AreConsumed spent [] = Unit
AreConsumed spent (i ∷ ids) =
    ((s : LedgerSpent) × (last_with spent_id i spent ≡ some s)) × AreConsumed spent ids

module _ {E : Type 0} (spent : List LedgerSpent) (created : List LedgerOutput) (index : ℕ) where
  collect_consumed_missing :
      (ids : List OutputId) (i : OutputId) (rest : List OutputId)
      → AreConsumed spent ids
      → last_with spent_id i spent ≡ none
      → collect_consumed {E = E} (init spent created) index (ids ++ (i ∷ rest))
        ≡ err (analytics_error (missing_ledger_spent i index))
  collect_consumed_missing [] i rest found missing =
      let (g, _) = get_init {E = Report E} spent created i in rw (g, missing)
  collect_consumed_missing (j ∷ ids) i rest ((s, e), found) missing =
      let (g, _) = get_init {E = Report E} spent created j in
      rw (g, e, collect_consumed_missing ids i rest found missing)

module _ {Text E Range S M : Type 0} (analytics : Analytics S M) (m : Milestone Text E Range)
    (s : S) (b : BlockData) (spent : List LedgerSpent) (created : List LedgerOutput) where
  -- When the ledger updates of a milestone have no consumed output for an input of an included
  -- transaction, handling its block ends with the error that names the first such input and the
  -- milestone that referenced the block.
  pub handle_block_missing :
      (t : Bytes) (network_id : ℕ) (inputs : List Input) (commitment : Bytes)
      (outputs : List Output) (p : OptionPayload) (unlocks : List Unlock) (before : List OutputId)
      (i : OutputId) (rest : List OutputId)
      → m.ledger_updates ≡ init spent created
      → included_transaction b
        ≡ some (
            transaction_payload t
              (TransactionEssence.regular network_id inputs commitment outputs p)
              unlocks)
      → utxo_ids inputs ≡ before ++ (i ∷ rest)
      → AreConsumed spent before
      → last_with spent_id i spent ≡ none
      → handle_block analytics m s b
        ≡ err (analytics_error (missing_ledger_spent i b.metadata.referenced_by_milestone_index))
  unfolding handle_block resolve
  handle_block_missing t network_id inputs commitment outputs p unlocks before i rest em eb ei found
        missing =
      rw (
        eb,
        em,
        ei,
        collect_consumed_missing {E = E} spent created b.metadata.referenced_by_milestone_index
            before i rest found missing,
      )
