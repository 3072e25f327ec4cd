-- ===== src/InxWorker/Checkpoint.antt =====
-- A milestone is recorded last: what holds of the collections when it is, and when it is not.
use inx_chronicle.Db.Documents.Stored.{AreStored, insert_blocks-AreStored}
use inx_chronicle.Common.{
  Bool, some, List, ◌≡◌, ◌≢◌, ◌∙◌, ◌⊎◌, inl, inr, refl, ap, Option-cases, filter_map,
}
use inx_chronicle.Common.Bytes.{Bytes}
use inx_chronicle.Common.Run.{Run, ok, err, panic, Done, done}
use inx_chronicle.Model.Protocol.{ProtocolParameters}
use inx_chronicle.Db.Collections.{MilestoneDocument, NodeConfiguration}
use inx_chronicle.Db.Outputs.{insert_unspent_outputs, update_spent_outputs}
use inx_chronicle.Db.Documents.{
  insert_spent_ledger_updates, insert_unspent_ledger_updates, insert_treasury_payloads,
  insert_blocks_with_metadata, upsert_protocol_parameters, upsert_node_configuration,
  insert_milestone,
}
use inx_chronicle.Tangle.Sources.{Milestone, BlockData, cone_stream}
use inx_chronicle.InxWorker.{
  InxWorkerError, Store, treasury_payload, until_error, milestone_document, write_created,
  write_consumed, write_blocks, then_step, cone_result, cone_opened, handle_cone_stream,
  finish_update, handle_ledger_update,
}

module _ {Text Date E Range : Type 0} (digest : Bytes → Bytes)
    (same_parameters : ProtocolParameters → ProtocolParameters → Bool)
    (same_config : NodeConfiguration Text → NodeConfiguration Text → Bool) where
  -- the collections after the whole of a milestone whose cone has these blocks
  abbrev pub HasAll :
      Milestone Text E Range → List BlockData → Store Text Date → Store Text Date → Type 0
  HasAll m blocks before after =
      (after.outputs
        ≡ update_spent_outputs digest m.ledger_updates.consumed
            (insert_unspent_outputs digest m.ledger_updates.created before.outputs))
      × (after.ledger_updates
          ≡ insert_spent_ledger_updates m.ledger_updates.consumed
              (insert_unspent_ledger_updates m.ledger_updates.created before.ledger_updates))
      × (after.blocks ≡ insert_blocks_with_metadata blocks before.blocks)
      × (after.treasury
          ≡ insert_treasury_payloads (filter_map treasury_payload blocks) before.treasury)
      × (after.protocol_updates
          ≡ upsert_protocol_parameters same_parameters m.at.milestone_index m.protocol_params
              before.protocol_updates)
      × (after.configuration_updates
          ≡ upsert_node_configuration same_config m.at.milestone_index m.node_config
              before.configuration_updates)
      × (insert_milestone (milestone_document m) before.milestones ≡ some after.milestones)
      × AreStored blocks after.blocks

module _ {Text Date E : Type 0} (aborted : List BlockData → List BlockData) where
  -- the cone is read to its end, or the step ends otherwise and records no milestone
  cone_result-cases :
      (p : List BlockData × Run E Done) (store : Store Text Date)
      → ((p.1 ≡ ok done) × (cone_result aborted p store ≡ (write_blocks p.0 store, ok done)))
        ⊎ (((cone_result aborted p store).1 ≢ ok done)
            × ((cone_result aborted p store).0.milestones ≡ store.milestones))
  unfolding write_blocks
  cone_result-cases (blocks, ok done) store = inl (refl, refl)
  cone_result-cases (blocks, err e) store = inr ((λ h. cc), refl)
  cone_result-cases (blocks, panic) store = inr ((λ h. cc), refl)

  cone_opened-cases :
      (c : Run E (List (Run E BlockData))) (store : Store Text Date)
      → ((stream : List (Run E BlockData)) × (c ≡ ok stream)
          × ((until_error stream).1 ≡ ok done)
          × (cone_opened aborted c store ≡ (write_blocks (until_error stream).0 store, ok done)))
        ⊎ (((cone_opened aborted c store).1 ≢ ok done)
            × ((cone_opened aborted c store).0.milestones ≡ store.milestones))
  cone_opened-cases (ok stream) store = elim (cone_result-cases (until_error stream) store) [
    | inl (whole, e) ↦ inl (stream, refl, whole, e)
    | inr other ↦ inr other
  ]
  cone_opened-cases (err e) store = inr ((λ h. cc), refl)
  cone_opened-cases panic store = inr ((λ h. cc), refl)

  then_step-stops :
      (step : Store Text Date → Store Text Date × Run (InxWorkerError E) Done)
      (p : Store Text Date × Run (InxWorkerError E) Done)
      → p.1 ≢ ok done
      → ((then_step step p).0 ≡ p.0) × ((then_step step p).1 ≢ ok done)
  then_step-stops step (store, ok done) h = absurd (h refl)
  then_step-stops step (store, err e) h = (refl, h)
  then_step-stops step (store, panic) h = (refl, h)

module _ {Text Date E Range : Type 0} (aborted : List BlockData → List BlockData)
    (digest : Bytes → Bytes) (same_parameters : ProtocolParameters → ProtocolParameters → Bool)
    (same_config : NodeConfiguration Text → NodeConfiguration Text → Bool) where
  abbrev finish :
      Milestone Text E Range → Store Text Date → Store Text Date × Run (InxWorkerError E) Done
  finish = finish_update aborted digest same_parameters same_config

  abbrev handle :
      Milestone Text E Range → Store Text Date → Store Text Date × Run (InxWorkerError E) Done
  handle = handle_ledger_update aborted digest same_parameters same_config

  -- the last steps insert the milestone and change nothing but the updates, or leave the milestones
  finish-cases :
      (m : Milestone Text E Range) (store : Store Text Date)
      → ((milestones : List MilestoneDocument) × (insert_milestone
              (milestone_document m)
              store.milestones
            ≡ some milestones)
          × (finish m store ≡ (
            record store {
              protocol_updates =
                  upsert_protocol_parameters same_parameters m.at.milestone_index m.protocol_params
                    store.protocol_updates;
              configuration_updates =
                  upsert_node_configuration same_config m.at.milestone_index m.node_config
                    store.configuration_updates;
              milestones = milestones;
            },
            ok done,
          )))
        ⊎ (((finish m store).1 ≢ ok done) × ((finish m store).0.milestones ≡ store.milestones))
  unfolding finish_update
  finish-cases m store =
      elim (Option-cases (insert_milestone (milestone_document m) store.milestones)) [
        | inl taken ↦ inr (rw taken (λ h. cc), rw taken refl)
        | inr (milestones, inserted) ↦ inl (milestones, inserted, rw inserted refl)
      ]

  pub handle_ledger_update-recorded :
      (m : Milestone Text E Range) (store : Store Text Date)
      → ((stream : List (Run E BlockData)) × (cone_stream m ≡ ok stream)
          × ((until_error stream).1 ≡ ok done)
          × ((handle m store).1 ≡ ok done)
          × HasAll digest same_parameters same_config m
              (until_error stream).0
              store
              (handle m store).0)
        ⊎ (((handle m store).1 ≢ ok done) × ((handle m store).0.milestones ≡ store.milestones))
  unfolding handle_ledger_update handle_cone_stream write_created write_consumed write_blocks
  handle_ledger_update-recorded m store =
      let written =
        write_consumed digest m.ledger_updates.consumed
          (write_created digest m.ledger_updates.created store) in
      elim (cone_opened-cases aborted (cone_stream m) written) [
        | inl (stream, opened, whole, e) ↦
            elim (finish-cases m (write_blocks (until_error stream).0 written)) [
              | inl (milestones, inserted, f) ↦ inl (
                stream,
                opened,
                whole,
                rw (e, f) refl,
                rw (e, f)
                    (
                      refl,
                      refl,
                      refl,
                      refl,
                      refl,
                      refl,
                      inserted,
                      insert_blocks-AreStored (until_error stream).0 written.blocks,
                    ),
              )
              | inr (stopped, kept) ↦ inr (rw e stopped, rw e kept)
            ]
        | inr (stopped, kept) ↦
            let (same, other) =
              then_step-stops aborted (finish m) (cone_opened aborted (cone_stream m) written)
                stopped in
            inr (other, ap (λ s. s.milestones) same ∙ kept)
      ]
