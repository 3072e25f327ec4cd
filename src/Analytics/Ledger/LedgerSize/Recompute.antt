-- ===== src/Analytics/Ledger/LedgerSize/Recompute.antt =====
-- The incremental ledger size agrees with reading the ledger again.
use inx_chronicle.Common.{ℕ, ◌+◌, ◌%◌, ◌≡◌, refl, ◌∙◌, List, arith}
use inx_chronicle.Common.Words
use inx_chronicle.Common.Words.{u64_mod}
use inx_chronicle.Common.Totals.{total, foldl_add, foldl_sub}
use mathlib.Core.List.{foldl}
use inx_chronicle.Model.Output.{Output}
use inx_chronicle.Model.Protocol.{ProtocolParameters}
use inx_chronicle.Model.Ledger.{LedgerOutput, LedgerSpent}
use inx_chronicle.Analytics.Update.{UpdatesTo, spent_outputs, total-UpdatesTo}
use inx_chronicle.Analytics.Ledger.LedgerSize.{
  LedgerSizeMeasurement, no_measurement, wrapping_add, wrapping_sub, add_size, sub_size, size_of,
  init, handle_transaction,
}

-- A field that both loops treat as a word: adding the created outputs to the sum over the unspent
-- ones and taking the consumed ones away leaves the sum over the unspent outputs afterwards.
module _ (size : LedgerOutput → LedgerSizeMeasurement) (field : LedgerSizeMeasurement → ℕ)
    (add_law : (a b : LedgerSizeMeasurement)
      → field (wrapping_add a b) ≡ Words.wrapping_add (field a) (field b))
    (sub_law : (a b : LedgerSizeMeasurement)
      → field (wrapping_sub a b) ≡ Words.wrapping_sub (field a) (field b))
    (empty : field no_measurement ≡ 0) where
  foldl-add_size :
      (m : LedgerSizeMeasurement) (os : List LedgerOutput) (n : ℕ)
      → field m ≡ n % u64_mod
      → field (foldl (add_size size) m os) ≡ (n + total (λ o. field (size o)) os) % u64_mod
  foldl-add_size m os n e =
      foldl_add field (add_size size) (λ o. field (size o)) (λ s o. add_law s (size o)) m os n e

  foldl-sizes :
      (unspent : List LedgerOutput) (consumed : List LedgerSpent)
      (created unspent' : List LedgerOutput)
      → UpdatesTo unspent consumed created unspent'
      → field (
          foldl
            (sub_size size)
            (foldl (add_size size) (foldl (add_size size) no_measurement unspent) created)
            (spent_outputs consumed))
        ≡ field (foldl (add_size size) no_measurement unspent')
  foldl-sizes unspent consumed created unspent' update =
      let w = λ (o : LedgerOutput). field (size o) in
      let zero : field no_measurement ≡ 0 % u64_mod = empty ∙ omega arith in
      let before = foldl-add_size no_measurement unspent 0 zero in
      let added =
        foldl-add_size (foldl (add_size size) no_measurement unspent) created (total w unspent)
          (before ∙ omega arith) in
      let after = foldl-add_size no_measurement unspent' 0 zero in
      let u = total-UpdatesTo w unspent consumed created unspent' update in
      foldl_sub field (sub_size size) w (λ s o. sub_law s (size o))
        (foldl (add_size size) (foldl (add_size size) no_measurement unspent) created)
        (spent_outputs consumed) (total w unspent') (added ∙ omega (arith, u))
      ∙ (omega (arith, after))

module _ (ledger_size : ProtocolParameters → Output → LedgerSizeMeasurement)
    (protocol_params : ProtocolParameters) (unspent : List LedgerOutput)
    (consumed : List LedgerSpent) (created unspent' : List LedgerOutput) where
  -- When the unspent outputs `unspent'`, with those that a transaction consumed, are the unspent
  -- outputs `unspent` with those that it created, the analytics that `init` computed from `unspent`
  -- become, by the transaction, those that it computes from `unspent'` under the same protocol
  -- parameters, whatever the size that an output has, modulo 2^64.
  pub handle_sizes-init :
      UpdatesTo unspent consumed created unspent'
      → handle_transaction ledger_size (init ledger_size protocol_params unspent) consumed created
        ≡ init ledger_size protocol_params unspent'
  unfolding init handle_transaction wrapping_add wrapping_sub
  handle_sizes-init update =
      let size = size_of ledger_size protocol_params in
      λ i. record {
        protocol_params = protocol_params;
        measurement = record {
          total_key_bytes =
              foldl-sizes size (λ m. m.total_key_bytes) (λ a b. refl) (λ a b. refl) refl unspent
                consumed created unspent' update i;
          total_data_bytes =
              foldl-sizes size (λ m. m.total_data_bytes) (λ a b. refl) (λ a b. refl) refl unspent
                consumed created unspent' update i;
          total_storage_deposit_amount =
              foldl-sizes size (λ m. m.total_storage_deposit_amount) (λ a b. refl) (λ a b. refl)
                refl unspent consumed created unspent' update i;
        };
      }
