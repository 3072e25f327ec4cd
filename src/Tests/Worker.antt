-- ===== src/Tests/Worker.antt =====
-- A run of the worker over one milestone, on a database that holds the milestone before.
use Prim.Native.String.{String}
use text.Mathlib.Text
use text.Mathlib.TextEquality.{eq_iff}
use inx_chronicle.Common.{ℕ, ◌≡◌, refl, Bool, true, false, ◌&&◌, List, [], ◌∷◌, arith, ◌==◌}
use inx_chronicle.Common.Bytes.{Bytes, bytes_beq, bytes_beq_iff}
use inx_chronicle.Common.Run.{Run, ok, err, Done, done}
use inx_chronicle.Model.Protocol.{RentStructure, ProtocolParameters}
use inx_chronicle.Poi.Keys.{MilestoneKeyRange}
use inx_chronicle.Db.Collections.{MilestoneDocument, NodeConfiguration, BaseToken}
use inx_chronicle.Tangle.LedgerUpdates.{init, get_consumed, get_created}
use inx_chronicle.Tangle.Sources.{InputSource, Milestone, BlockData, cone_stream}
use inx_chronicle.Tangle.MongoDb.{MongoDbInputSourceError, milestone_data, ledger_updates}
use inx_chronicle.InxWorker.{
  InxWorkerError, Store, NodeStatus, start_index, handle_ledger_update, run_stream,
  sync_milestone_gap, handle_cone_stream, finish_update, write_blocks, write_consumed,
  write_created,
}
use inx_chronicle.InxWorker.RoundTrip.{handle_ledger_update-roundtrip}
use inx_chronicle.InxWorker.Contiguous.{IsRange, run_stream-IsRange, run_stream-restart}
use inx_chronicle.Db.Documents.{insert_milestone, get_newest_milestone}
use inx_chronicle.Tests.Node
use inx_chronicle.Tests.Ledger.{new, spent}
use inx_chronicle.Tests.Outputs.{no_digest, docs, next}

infix 50 ◌=t=◌
abbrev ◌=t=◌ : String → String → Bool
a =t= b = Text.◌==◌ a b

abbrev same_rent : RentStructure → RentStructure → Bool
same_rent a b =
    a.v_byte_cost == b.v_byte_cost
    && (a.v_byte_factor_data == b.v_byte_factor_data && a.v_byte_factor_key == b.v_byte_factor_key)

abbrev same_parameters : ProtocolParameters → ProtocolParameters → Bool
same_parameters a b =
    a.version == b.version
    && (a.network_name =t= b.network_name
        && (a.bech32_hrp =t= b.bech32_hrp
            && (a.min_pow_score == b.min_pow_score
                && (a.below_max_depth == b.below_max_depth
                    && (same_rent a.rent_structure b.rent_structure
                        && a.token_supply == b.token_supply)))))

same_parameters-eq : (p q : ProtocolParameters) → same_parameters p q ≡ true → p ≡ q
same_parameters-eq p q h =
    ground (arith, eq_iff p.network_name q.network_name, eq_iff p.bech32_hrp q.bech32_hrp)

abbrev same_flag : Bool → Bool → Bool
same_flag true true = true
same_flag false false = true
same_flag a b = false

abbrev same_token : BaseToken Bytes → BaseToken Bytes → Bool
same_token a b =
    bytes_beq a.name b.name
    && (bytes_beq a.ticker_symbol b.ticker_symbol
        && (bytes_beq a.unit b.unit
            && (bytes_beq a.subunit b.subunit
                && (a.decimals == b.decimals
                    && same_flag a.use_metric_prefix b.use_metric_prefix))))

same_token-eq : (p q : BaseToken Bytes) → same_token p q ≡ true → p ≡ q
same_token-eq p q h = ground (
  arith,
  bytes_beq_iff p.name q.name,
  bytes_beq_iff p.ticker_symbol q.ticker_symbol,
  bytes_beq_iff p.unit q.unit,
  bytes_beq_iff p.subunit q.subunit,
)

abbrev same_ranges : List (MilestoneKeyRange Bytes) → List (MilestoneKeyRange Bytes) → Bool
same_ranges [] [] = true
same_ranges (a ∷ as') (b ∷ bs) =
    (bytes_beq a.public_key b.public_key && (a.start == b.start && a.end == b.end))
    && same_ranges as' bs
same_ranges as' bs = false

same_ranges-eq : (p q : List (MilestoneKeyRange Bytes)) → same_ranges p q ≡ true → p ≡ q
same_ranges-eq [] [] h = refl
same_ranges-eq [] (b ∷ bs) h = absurd (cc)
same_ranges-eq (a ∷ as') [] h = absurd (cc)
same_ranges-eq (a ∷ as') (b ∷ bs) h =
    ground (arith, bytes_beq_iff a.public_key b.public_key, same_ranges-eq as' bs)

abbrev same_config : NodeConfiguration Bytes → NodeConfiguration Bytes → Bool
same_config a b =
    a.milestone_public_key_count == b.milestone_public_key_count
    && (same_ranges a.milestone_key_ranges b.milestone_key_ranges
        && same_token a.base_token b.base_token)

same_config-eq : (p q : NodeConfiguration Bytes) → same_config p q ≡ true → p ≡ q
same_config-eq p q h = ground (
  arith,
  same_ranges-eq p.milestone_key_ranges q.milestone_key_ranges,
  same_token-eq p.base_token q.base_token,
)

abbrev parameters : ProtocolParameters
parameters = record {
  version = 2;
  network_name = "shimmer";
  bech32_hrp = "smr";
  min_pow_score = 0;
  below_max_depth = 15;
  rent_structure = record { v_byte_cost = 1; v_byte_factor_data = 1; v_byte_factor_key = 10 };
  token_supply = 1000;
}

abbrev block : BlockData
block = record {
  block_id = Node.id_1;
  block = Node.block_with 1;
  raw = 1 ∷ [];
  metadata = Node.metadata;
}

abbrev source : InputSource Bytes ℕ ℕ
source = record {
  milestone_stream = λ r. ok [];
  cone_stream = λ i. ok (ok block ∷ []);
  ledger_updates = λ i. ok (init (spent ∷ []) (new ∷ []));
}

abbrev milestone : Milestone Bytes ℕ ℕ
milestone = record {
  source = source;
  milestone_id = 5 ∷ [];
  at = record { milestone_index = 5; milestone_timestamp = 100 };
  payload = Node.milestone;
  protocol_params = parameters;
  node_config = Node.config;
  ledger_updates = init (spent ∷ []) (new ∷ []);
}

abbrev milestone_4 : MilestoneDocument
milestone_4 = record {
  milestone_id = 4 ∷ [];
  at = record { milestone_index = 4; milestone_timestamp = 90 };
  payload = Node.milestone;
}

abbrev store : Store Bytes ℕ
store = record {
  application_state = [];
  outputs = docs;
  ledger_updates = [];
  blocks = [];
  treasury = [];
  protocol_updates = [];
  configuration_updates = [];
  milestones = milestone_4 ∷ [];
}

abbrev aborted : List BlockData → List BlockData
aborted blocks = []

abbrev handle : Store Bytes ℕ → Store Bytes ℕ × Run (InxWorkerError ℕ) Done
handle = handle_ledger_update aborted no_digest same_parameters same_config milestone

handled : (handle store).1 ≡ ok done
unfolding handle_ledger_update handle_cone_stream finish_update cone_stream insert_milestone
    write_blocks write_consumed write_created
handled = refl

handle_ledger_update-roundtrip_example :
    let after = (handle store).0 in
    (milestone_data after.milestones after.protocol_updates after.configuration_updates 5
      ≡ ok record {
        milestone_id = milestone.milestone_id;
        at = milestone.at;
        payload = milestone.payload;
        protocol_params = parameters;
        node_config = Node.config;
      })
    × (get_consumed {E = MongoDbInputSourceError} (ledger_updates after.outputs 5) new.output_id
        ≡ get_consumed milestone.ledger_updates new.output_id)
    × (get_created {E = MongoDbInputSourceError} (ledger_updates after.outputs 5) new.output_id
        ≡ get_created milestone.ledger_updates new.output_id)
unfolding init
handle_ledger_update-roundtrip_example =
    handle_ledger_update-roundtrip aborted no_digest same_parameters same_config milestone store
      new.output_id same_parameters-eq same_config-eq handled refl next

run_stream-IsRange_example :
    IsRange 4
      (run_stream aborted no_digest same_parameters same_config
        (ok milestone ∷ err 7 ∷ [])
        store).0.milestones
run_stream-IsRange_example =
    run_stream-IsRange aborted no_digest same_parameters same_config 4 (ok milestone ∷ err 7 ∷ [])
      store (refl, tt) (refl, tt)

abbrev status : ℕ → ℕ → NodeStatus
status confirmed pruned = record {
  confirmed_milestone_index = confirmed;
  tangle_pruning_index = pruned;
}

abbrev stream : List (Run ℕ (Milestone Bytes ℕ ℕ))
stream = ok milestone ∷ err 7 ∷ []

run_stream-restart_example :
    start_index {E = ℕ}
      (run_stream aborted no_digest same_parameters same_config stream store).0.milestones
      0
      (status 9 2)
    ≡ ok 6
unfolding run_stream handle_ledger_update handle_cone_stream finish_update cone_stream
    insert_milestone write_blocks write_consumed write_created
run_stream-restart_example =
    run_stream-restart aborted no_digest same_parameters same_config 4 0 stream store (status 9 2)
      (refl, tt) (refl, tt) (omega arith) (omega arith) (omega arith)

reports_gap : start_index {E = ℕ} (milestone_4 ∷ []) 0 (status 9 6) ≡ err (sync_milestone_gap 5 6)
unfolding start_index get_newest_milestone
reports_gap = refl
