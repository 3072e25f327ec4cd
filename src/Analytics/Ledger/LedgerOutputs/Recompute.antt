-- ===== src/Analytics/Ledger/LedgerOutputs/Recompute.antt =====
-- The incremental measurement agrees with reading the ledger again.
use inx_chronicle.Common.{◌≡◌, refl, Bool, true, false, List, arith, if◌then◌else◌}
use inx_chronicle.Model.Output.{Output}
use inx_chronicle.Model.Ledger.{LedgerOutput, LedgerSpent}
use inx_chronicle.Analytics.Counts.{add_output, tally, foldl-tally_all, tally_sub_add}
use inx_chronicle.Analytics.Update.{UpdatesTo, spent_outputs}
use inx_chronicle.Analytics.Ledger.LedgerOutputs.{
  LedgerOutputMeasurement, no_measurement, add_kind, init, wrapping_add, wrapping_sub,
  handle_transaction,
}

abbrev pub is_alias : LedgerOutput → Bool
is_alias o = elim o.output [ Output.alias _ ↦ true | _ ↦ false ]

abbrev pub is_basic : LedgerOutput → Bool
is_basic o = elim o.output [ Output.basic _ ↦ true | _ ↦ false ]

abbrev pub is_nft : LedgerOutput → Bool
is_nft o = elim o.output [ Output.nft _ ↦ true | _ ↦ false ]

abbrev pub is_foundry : LedgerOutput → Bool
is_foundry o = elim o.output [ Output.foundry _ ↦ true | _ ↦ false ]

abbrev pub is_treasury : LedgerOutput → Bool
is_treasury o = elim o.output [ Output.treasury _ ↦ true | _ ↦ false ]

add_kind_alias :
    (m : LedgerOutputMeasurement) (o : LedgerOutput)
    → (add_kind m o).alias ≡ (if is_alias o then add_output m.alias o else m.alias)
unfolding add_kind
add_kind_alias m o = ground arith

add_kind_basic :
    (m : LedgerOutputMeasurement) (o : LedgerOutput)
    → (add_kind m o).basic ≡ (if is_basic o then add_output m.basic o else m.basic)
unfolding add_kind
add_kind_basic m o = ground arith

add_kind_nft :
    (m : LedgerOutputMeasurement) (o : LedgerOutput)
    → (add_kind m o).nft ≡ (if is_nft o then add_output m.nft o else m.nft)
unfolding add_kind
add_kind_nft m o = ground arith

add_kind_foundry :
    (m : LedgerOutputMeasurement) (o : LedgerOutput)
    → (add_kind m o).foundry ≡ (if is_foundry o then add_output m.foundry o else m.foundry)
unfolding add_kind
add_kind_foundry m o = ground arith

add_kind_treasury :
    (m : LedgerOutputMeasurement) (o : LedgerOutput)
    → (add_kind m o).treasury ≡ (if is_treasury o then add_output m.treasury o else m.treasury)
unfolding add_kind
add_kind_treasury m o = ground arith

-- What `init` counts: the outputs of each kind, and their amounts.
init-tally :
    (os : List LedgerOutput)
    → init os ≡ record {
      alias = tally is_alias os;
      basic = tally is_basic os;
      nft = tally is_nft os;
      foundry = tally is_foundry os;
      treasury = tally is_treasury os;
    }
unfolding init tally
init-tally os = λ i. record {
  alias = foldl-tally_all (λ m. m.alias) add_kind is_alias add_kind_alias no_measurement os refl i;
  basic = foldl-tally_all (λ m. m.basic) add_kind is_basic add_kind_basic no_measurement os refl i;
  nft = foldl-tally_all (λ m. m.nft) add_kind is_nft add_kind_nft no_measurement os refl i;
  foundry =
      foldl-tally_all (λ m. m.foundry) add_kind is_foundry add_kind_foundry no_measurement os refl
        i;
  treasury =
      foldl-tally_all (λ m. m.treasury) add_kind is_treasury add_kind_treasury no_measurement os
        refl i;
}

-- When the unspent outputs `unspent'`, with those that a transaction consumed, are the unspent
-- outputs `unspent` with those that it created, the measurement that was taken of `unspent` by
-- `init` becomes, by the transaction, the one that `init` takes of `unspent'`. The sums are modulo
-- 2^64.
pub handle_transaction-init :
    (unspent : List LedgerOutput) (consumed : List LedgerSpent)
    (created unspent' : List LedgerOutput)
    → UpdatesTo unspent consumed created unspent'
    → handle_transaction (init unspent) consumed created ≡ init unspent'
unfolding handle_transaction wrapping_add wrapping_sub
handle_transaction-init unspent consumed created unspent' update =
    rw
      (
        init-tally unspent,
        init-tally (spent_outputs consumed),
        init-tally created,
        init-tally unspent',
      )
      λ i. record {
        alias = tally_sub_add is_alias unspent consumed created unspent' update i;
        basic = tally_sub_add is_basic unspent consumed created unspent' update i;
        nft = tally_sub_add is_nft unspent consumed created unspent' update i;
        foundry = tally_sub_add is_foundry unspent consumed created unspent' update i;
        treasury = tally_sub_add is_treasury unspent consumed created unspent' update i;
      }
