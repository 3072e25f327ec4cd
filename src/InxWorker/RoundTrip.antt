-- ===== src/InxWorker/RoundTrip.antt =====
-- The milestones that the worker wrote to the database, read from it as a source.
use inx_chronicle.Common.{ℕ, Bool, true, some, List, ◌≡◌, ◌∙◌, inl, inr, refl, sym, ap}
use inx_chronicle.Common.Bytes.{Bytes}
use inx_chronicle.Common.Run.{Run, ok, Done, done}
use inx_chronicle.Model.Address.{OutputId}
use inx_chronicle.Model.Protocol.{ProtocolParameters}
use inx_chronicle.Db.Collections.{
  NodeConfiguration, ConfigurationUpdateDocument, get_node_configuration_for_ledger_index,
}
use inx_chronicle.Db.Outputs.Updates.{IsNext, ledger_updates-stored}
use inx_chronicle.Db.Documents.{
  ProtocolUpdateDocument, get_milestone, get_protocol_parameters_for_ledger_index,
}
use inx_chronicle.Db.Documents.Latest.{
  upsert_protocol_parameters-get, upsert_node_configuration-get, insert_milestone-get,
}
use inx_chronicle.Tangle.LedgerUpdates.{init, get_created, get_consumed}
use inx_chronicle.Tangle.Sources.{Milestone, BlockData}
use inx_chronicle.Tangle.MongoDb.{MongoDbInputSourceError, milestone_data, ledger_updates}
use inx_chronicle.InxWorker.{
  InxWorkerError, Store, until_error, milestone_document, handle_ledger_update,
}
use inx_chronicle.InxWorker.Checkpoint.{HasAll, handle_ledger_update-recorded}

module _ {Text Date E Range : Type 0} (aborted : List BlockData → List BlockData)
    (digest : Bytes → Bytes) (same_parameters : ProtocolParameters → ProtocolParameters → Bool)
    (same_config : NodeConfiguration Text → NodeConfiguration Text → Bool) where
  abbrev handle :
      Milestone Text E Range → Store Text Date → Store Text Date × Run (InxWorkerError E) Done
  handle = handle_ledger_update aborted digest same_parameters same_config

  ended_well :
      (m : Milestone Text E Range) (store : Store Text Date)
      → (handle m store).1 ≡ ok done
      → (blocks : List BlockData) × HasAll digest same_parameters same_config m blocks store
          (handle m store).0
  ended_well m store h =
      elim (handle_ledger_update-recorded aborted digest same_parameters same_config m store) [
        | inl (stream, opened, whole, well, all) ↦ ((until_error stream).0, all)
        | inr (stopped, kept) ↦ absurd (stopped h)
      ]

  milestone_data-eq :
      (index : ℕ) (after : Store Text Date) (m : Milestone Text E Range)
      → get_milestone after.milestones index ≡ some (m.milestone_id, m.at, m.payload)
      → ((d : ProtocolUpdateDocument) × (get_protocol_parameters_for_ledger_index
              after.protocol_updates index
            ≡ some d)
          × (d.parameters ≡ m.protocol_params))
      → ((d : ConfigurationUpdateDocument Text) × (get_node_configuration_for_ledger_index
              after.configuration_updates index
            ≡ some d)
          × (d.config ≡ m.node_config))
      → milestone_data after.milestones after.protocol_updates after.configuration_updates index
        ≡ ok record {
          milestone_id = m.milestone_id;
          at = m.at;
          payload = m.payload;
          protocol_params = m.protocol_params;
          node_config = m.node_config;
        }
  unfolding milestone_data
  milestone_data-eq index after m found (d, p, same) (c, q, equal) =
      rw (found, p, q, same, equal) refl

  -- The database gives back what the node gave: when a milestone is handled well, with a store made
  -- of its outputs and a collection of outputs that has none of its changes yet, then the milestone
  -- that the database yields at its index has its id, index, timestamp and payload, its protocol
  -- parameters and its node configuration, and the ledger updates of the index give for every id
  -- the consumed and the created output that those of the milestone give.
  pub handle_ledger_update-roundtrip :
      (m : Milestone Text E Range) (store : Store Text Date) (id : OutputId)
      → ((p q : ProtocolParameters) → same_parameters p q ≡ true → p ≡ q)
      → ((p q : NodeConfiguration Text) → same_config p q ≡ true → p ≡ q)
      → (handle m store).1 ≡ ok done
      → m.ledger_updates ≡ init m.ledger_updates.consumed m.ledger_updates.created
      → IsNext m.at.milestone_index m.ledger_updates.created m.ledger_updates.consumed store.outputs
      → let after = (handle m store).0 in
        (milestone_data after.milestones after.protocol_updates after.configuration_updates
            m.at.milestone_index
          ≡ ok record {
            milestone_id = m.milestone_id;
            at = m.at;
            payload = m.payload;
            protocol_params = m.protocol_params;
            node_config = m.node_config;
          })
        × (get_consumed {E = MongoDbInputSourceError}
              (ledger_updates after.outputs m.at.milestone_index)
              id
            ≡ get_consumed m.ledger_updates id)
        × (get_created {E = MongoDbInputSourceError}
              (ledger_updates after.outputs m.at.milestone_index)
              id
            ≡ get_created m.ledger_updates id)
  handle_ledger_update-roundtrip m store id same_parameters_sound same_config_sound well made next =
      let (blocks, all) = ended_well m store well in
      let (outputs, updates, cone, payloads, protocol, configuration, milestones, stored) = all in
      let index = m.at.milestone_index in
      let reads =
        ledger_updates-stored digest {E = MongoDbInputSourceError} index m.ledger_updates.created
          m.ledger_updates.consumed store.outputs id next in
      (
        milestone_data-eq index (handle m store).0 m
            (insert_milestone-get (milestone_document m) store.milestones _ milestones).1
            (rw protocol (
              upsert_protocol_parameters-get same_parameters index m.protocol_params
                store.protocol_updates same_parameters_sound))
            (rw configuration (
              upsert_node_configuration-get same_config index m.node_config
                store.configuration_updates same_config_sound)),
        rw outputs reads.0 ∙ ap (λ s. get_consumed {E = MongoDbInputSourceError} s id) (sym made),
        rw outputs reads.1 ∙ ap (λ s. get_created {E = MongoDbInputSourceError} s id) (sym made),
      )
