-- ===== src/Analytics/Milestone/Dispatch.antt =====
-- What the blocks of a milestone do to the unspent outputs, and an analytic that is kept up to date
-- with them transaction by transaction.
use inx_chronicle.Common.{
  ℕ, ◌+◌, ◌%◌, ◌^◌, ◌<◌, ◌≡◌, ◌≢◌, ◌∙◌, ◌⊎◌, inl, inr, refl, ap, Bool, false, Option, none, some,
  List, [], ◌∷◌, map, if◌then◌else◌, arith,
}
use inx_chronicle.Common.Bytes.{Bytes}
use inx_chronicle.Common.Run.{ok}
use inx_chronicle.Model.Address.{OutputId}
use inx_chronicle.Model.Output.{Output}
use inx_chronicle.Model.Block.{
  Input, Payload, TransactionPayload, transaction_payload, TransactionEssence, OptionPayload,
  Unlock,
}
use inx_chronicle.Model.Metadata.{LedgerInclusionState, is_included}
use inx_chronicle.Model.Ledger.{LedgerOutput, LedgerSpent}
use inx_chronicle.Tangle.LedgerUpdates.{init, spent_id, created_id, get_created}
use inx_chronicle.Tangle.LedgerUpdates.Retrieve.{last_with, get_init}
use inx_chronicle.Tangle.Sources.{Milestone, BlockData, cone_stream}
use inx_chronicle.Analytics.Update.{UpdatesTo}
use inx_chronicle.Analytics.Milestone.{
  Report, AnalyticsContext, Analytics, collect_consumed, collect_created, utxo_ids, nth_output_id,
  resolve, included_transaction, context, handle_block, handle_cone, update_analytics,
}

-- the consumed outputs, of those of a milestone, that the inputs of a transaction spend
pub data Spends (updates : List LedgerSpent) : List Input → List LedgerSpent → Type 0 where
  nothing : Spends updates [] []
  output :
      (i : OutputId) (inputs : List Input) (s : LedgerSpent) (consumed : List LedgerSpent)
      → last_with spent_id i updates ≡ some s
      → Spends updates inputs consumed
      → Spends updates (Input.utxo i ∷ inputs) (s ∷ consumed)
  from_treasury :
      (milestone_id : Bytes) (inputs : List Input) (consumed : List LedgerSpent)
      → Spends updates inputs consumed
      → Spends updates (Input.treasury milestone_id ∷ inputs) consumed

-- the created outputs, of those of a milestone, that a transaction makes, from a position on
pub data Makes (updates : List LedgerOutput) (transaction_id : Bytes)
    : ℕ → List Output → List LedgerOutput → Type 0 where
  nothing : (n : ℕ) → Makes updates transaction_id n [] []
  output :
      (n : ℕ) (out : Output) (outputs : List Output) (o : LedgerOutput)
      (created : List LedgerOutput)
      → n < 2 ^ 16
      → last_with created_id (record { transaction_id = transaction_id; index = n }) updates
        ≡ some o
      → Makes updates transaction_id (n + 1) outputs created
      → Makes updates transaction_id n (out ∷ outputs) (o ∷ created)

-- How the blocks of a cone, in their order, change the unspent outputs, given the outputs that their
-- milestone consumed and created. A block that is not included, or has no transaction, changes
-- nothing. One that is included takes away what its transaction spends, and adds what it makes.
pub data Evolves (spent : List LedgerSpent) (made : List LedgerOutput)
    : List LedgerOutput → List BlockData → List LedgerOutput → Type 0 where
  done : (unspent : List LedgerOutput) → Evolves spent made unspent [] unspent
  skip :
      (unspent unspent' : List LedgerOutput) (b : BlockData) (cone : List BlockData)
      → (b.metadata.inclusion_state ≢ LedgerInclusionState.included)
        ⊎ ((t : TransactionPayload)
            → b.block.payload ≢ OptionPayload.with_payload (Payload.transaction t))
      → Evolves spent made unspent cone unspent'
      → Evolves spent made unspent (b ∷ cone) unspent'
  apply :
      (unspent mid unspent' : List LedgerOutput) (b : BlockData) (cone : List BlockData)
      (transaction_id : Bytes) (network_id : ℕ) (inputs : List Input) (commitment : Bytes)
      (outputs : List Output) (p : OptionPayload) (unlocks : List Unlock)
      (consumed : List LedgerSpent) (created : List LedgerOutput)
      → b.metadata.inclusion_state ≡ LedgerInclusionState.included
      → b.block.payload
        ≡ OptionPayload.with_payload (
            Payload.transaction (
              transaction_payload transaction_id
                (TransactionEssence.regular network_id inputs commitment outputs p)
                unlocks))
      → Spends spent inputs consumed
      → Makes made transaction_id 0 outputs created
      → UpdatesTo unspent consumed created mid
      → Evolves spent made mid cone unspent'
      → Evolves spent made unspent (b ∷ cone) unspent'

module _ {E : Type 0} (spent : List LedgerSpent) (made : List LedgerOutput) (index : ℕ) where
  collect_consumed-Spends :
      (inputs : List Input) (consumed : List LedgerSpent)
      → Spends spent inputs consumed
      → collect_consumed {E = E} (init spent made) index (utxo_ids inputs) ≡ ok consumed
  collect_consumed-Spends _ _ Spends.nothing = refl
  collect_consumed-Spends _ _ (Spends.output i inputs s consumed found rest) =
      rw
        (
          (get_init {E = Report E} spent made i).0,
          found,
          collect_consumed-Spends inputs consumed rest,
        )
        refl
  collect_consumed-Spends _ _ (Spends.from_treasury m inputs consumed rest) =
      collect_consumed-Spends inputs consumed rest

  collect_created-Makes :
      (t : Bytes) (n : ℕ) (outputs : List Output) (created : List LedgerOutput)
      → Makes made t n outputs created
      → collect_created {E = E} (init spent made) index t n outputs ≡ ok created
  collect_created-Makes t _ _ _ (Makes.nothing n) = refl
  collect_created-Makes t _ _ _ (Makes.output n out outputs o created small found rest) =
      let e : n % 2 ^ 16 ≡ n = omega arith in
      let same : nth_output_id t n ≡ record { transaction_id = t; index = n } =
        ap (λ k. record { transaction_id = t; index = k }) e in
      let at =
        ap (λ i. get_created {E = Report E} (init spent made) i) same
        ∙ (get_init {E = Report E} spent made (record { transaction_id = t; index = n })).1
        ∙ ap ok found in
      rw (at, collect_created-Makes t (n + 1) outputs created rest) refl

  resolve-Makes :
      (t : Bytes) (network_id : ℕ) (inputs : List Input) (commitment : Bytes)
      (outputs : List Output) (p : OptionPayload) (unlocks : List Unlock)
      (consumed : List LedgerSpent) (created : List LedgerOutput)
      → Spends spent inputs consumed
      → Makes made t 0 outputs created
      → resolve {E = E} (init spent made) index (
          transaction_payload t
            (TransactionEssence.regular network_id inputs commitment outputs p)
            unlocks)
        ≡ ok (consumed, created)
  unfolding resolve
  resolve-Makes t network_id inputs commitment outputs p unlocks consumed created spends makes =
      rw
        (
          collect_consumed-Spends inputs consumed spends,
          collect_created-Makes t 0 outputs created makes,
        )
        refl

not_included :
    (s : LedgerInclusionState) → s ≢ LedgerInclusionState.included → is_included s ≡ false
not_included LedgerInclusionState.included h = absurd (h refl)
not_included LedgerInclusionState.conflicting h = refl
not_included LedgerInclusionState.no_transaction h = refl

both_none : (c : Bool) → ◌≡◌ {A = Option TransactionPayload} (if c then none else none) none
both_none c = ground arith

no_transaction :
    (b : BlockData) (p : OptionPayload)
    → b.block.payload ≡ p
    → ((t : TransactionPayload) → p ≢ OptionPayload.with_payload (Payload.transaction t))
    → included_transaction b ≡ none
unfolding included_transaction
no_transaction b (OptionPayload.with_payload (Payload.transaction t)) e h = absurd (h t refl)
no_transaction b OptionPayload.no_payload e h =
    rw e (both_none (is_included b.metadata.inclusion_state))
no_transaction b (OptionPayload.with_payload (Payload.milestone q)) e h =
    rw e (both_none (is_included b.metadata.inclusion_state))
no_transaction b (OptionPayload.with_payload (Payload.treasury_transaction q)) e h =
    rw e (both_none (is_included b.metadata.inclusion_state))
no_transaction b (OptionPayload.with_payload (Payload.tagged_data q)) e h =
    rw e (both_none (is_included b.metadata.inclusion_state))

included_transaction-none :
    (b : BlockData)
    → (b.metadata.inclusion_state ≢ LedgerInclusionState.included)
      ⊎ ((t : TransactionPayload)
          → b.block.payload ≢ OptionPayload.with_payload (Payload.transaction t))
    → included_transaction b ≡ none
unfolding included_transaction
included_transaction-none b (inl out) = rw (not_included b.metadata.inclusion_state out) refl
included_transaction-none b (inr other) = no_transaction b b.block.payload refl other

takes_transaction :
    (b : BlockData) (t : TransactionPayload)
    → b.metadata.inclusion_state ≡ LedgerInclusionState.included
    → b.block.payload ≡ OptionPayload.with_payload (Payload.transaction t)
    → included_transaction b ≡ some t
unfolding included_transaction
takes_transaction b t included payload = rw (included, payload) refl

-- What an analytic promises that stands for the unspent outputs by what `init` makes of them.
pub record Tracks {S M : Type 0} (analytics : Analytics S M) (start : List LedgerOutput → S)
    : Type 0 where
  pub follows :
      (unspent : List LedgerOutput) (consumed : List LedgerSpent)
      (created unspent' : List LedgerOutput) (ctx : AnalyticsContext)
      → UpdatesTo unspent consumed created unspent'
      → analytics.handle_transaction (start unspent) consumed created ctx ≡ some (start unspent')
  pub ignores :
      (s : S) (b : BlockData) (ctx : AnalyticsContext) → analytics.handle_block s b ctx ≡ some s

module _ {Text E Range S M : Type 0} (analytics : Analytics S M) (start : List LedgerOutput → S)
    (tracks : Tracks analytics start) (m : Milestone Text E Range) (spent : List LedgerSpent)
    (made : List LedgerOutput) (updates : m.ledger_updates ≡ init spent made) where
  handle_cone-Evolves :
      (unspent unspent' : List LedgerOutput) (cone : List BlockData)
      → Evolves spent made unspent cone unspent'
      → handle_cone analytics m (start unspent) (map ok cone) ≡ ok (start unspent')
  unfolding handle_block
  handle_cone-Evolves unspent unspent' cone (Evolves.done _) = refl
  handle_cone-Evolves unspent unspent' cone (Evolves.skip _ _ b rest e h) =
      rw (included_transaction-none b e, tracks.ignores (start unspent) b (context m))
        (handle_cone-Evolves unspent unspent' rest h)
  handle_cone-Evolves unspent unspent' cone
        (Evolves.apply _ mid _ b rest t net inputs commitment outputs p unlocks consumed created inc
          payload spends makes u h) =
      rw
        (
          takes_transaction b
              (transaction_payload t (TransactionEssence.regular net inputs commitment outputs p)
                unlocks)
              inc payload,
          ap
                (λ store. resolve {E = E} store b.metadata.referenced_by_milestone_index (
                  transaction_payload t (TransactionEssence.regular net inputs commitment outputs p)
                    unlocks))
                updates
              ∙ resolve-Makes {E = E} spent made b.metadata.referenced_by_milestone_index t net
                  inputs commitment outputs p unlocks consumed created spends makes,
          tracks.follows unspent consumed created mid (context m) u,
          tracks.ignores (start mid) b (context m),
        )
        (handle_cone-Evolves mid unspent' rest h)

  pub update_analytics-Tracks :
      (unspent unspent' : List LedgerOutput) (cone : List BlockData)
      → cone_stream m ≡ ok (map ok cone)
      → Evolves spent made unspent cone unspent'
      → update_analytics analytics m (start unspent)
        ≡ ok (analytics.take_measurement (start unspent') (context m))
  unfolding update_analytics
  update_analytics-Tracks unspent unspent' cone c h =
      rw (c, handle_cone-Evolves unspent unspent' cone h)
