-- ===== src/Analytics/Ledger/UnlockConditions/Recompute.antt =====
-- The incremental measurement agrees with reading the ledger again.
use inx_chronicle.Common.{
  ℕ, ◌+◌, ◌%◌, ◌≡◌, refl, ◌∙◌, Bool, false, Option, none, some, List, [], ◌∷◌, arith, if◌then◌else◌,
}
use inx_chronicle.Common.Words.{u64_mod, wrapping_sub-wrapping_add}
use inx_chronicle.Common.Totals.{total}
use inx_chronicle.Model.Output.{Output, is_some, StorageDepositReturnUnlockCondition}
use inx_chronicle.Model.Ledger.{LedgerOutput, LedgerSpent}
use mathlib.Core.List.{foldl}
use inx_chronicle.Analytics.Counts.{add_output, tally, foldl-tally_all, tally_add_sub}
use inx_chronicle.Analytics.Update.{UpdatesTo, spent_outputs, total-UpdatesTo}
use inx_chronicle.Analytics.Ledger.UnlockConditions.{
  UnlockConditionMeasurement, no_measurement, add_unlock_conditions, init, wrapping_add,
  wrapping_sub, handle_transaction,
}

-- the outputs with each of the conditions
abbrev pub has_timelock : LedgerOutput → Bool
has_timelock o = elim o.output [
  | Output.basic b ↦ is_some b.timelock_unlock_condition
  | Output.nft n ↦ is_some n.timelock_unlock_condition
  | _ ↦ false
]

abbrev pub has_expiration : LedgerOutput → Bool
has_expiration o = elim o.output [
  | Output.basic b ↦ is_some b.expiration_unlock_condition
  | Output.nft n ↦ is_some n.expiration_unlock_condition
  | _ ↦ false
]

abbrev pub has_storage : LedgerOutput → Bool
has_storage o = elim o.output [
  | Output.basic b ↦ is_some b.storage_deposit_return_unlock_condition
  | Output.nft n ↦ is_some n.storage_deposit_return_unlock_condition
  | _ ↦ false
]

abbrev pub return_amount : Option StorageDepositReturnUnlockCondition → ℕ
return_amount none = 0
return_amount (some s) = s.amount

-- the amount that an output has to return
abbrev pub inner_amount : LedgerOutput → ℕ
inner_amount o = elim o.output [
  | Output.basic b ↦ return_amount b.storage_deposit_return_unlock_condition
  | Output.nft n ↦ return_amount n.storage_deposit_return_unlock_condition
  | _ ↦ 0
]

module _ (m : UnlockConditionMeasurement) (o : LedgerOutput) where
  add_timelock :
      (add_unlock_conditions m o).timelock
      ≡ (if has_timelock o then add_output m.timelock o else m.timelock)
  unfolding add_unlock_conditions
  add_timelock = ground arith

  add_expiration :
      (add_unlock_conditions m o).expiration
      ≡ (if has_expiration o then add_output m.expiration o else m.expiration)
  unfolding add_unlock_conditions
  add_expiration = ground arith

  add_storage_deposit :
      (add_unlock_conditions m o).storage_deposit_return
      ≡ (if has_storage o then add_output m.storage_deposit_return o else m.storage_deposit_return)
  unfolding add_unlock_conditions
  add_storage_deposit = ground arith

  add_inner_amount :
      (n : ℕ)
      → m.storage_deposit_return_inner_amount ≡ n % u64_mod
      → (add_unlock_conditions m o).storage_deposit_return_inner_amount
        ≡ (n + inner_amount o) % u64_mod
  unfolding add_unlock_conditions
  add_inner_amount n e = ground arith

foldl-inner_amount :
    (m : UnlockConditionMeasurement) (os : List LedgerOutput) (n : ℕ)
    → m.storage_deposit_return_inner_amount ≡ n % u64_mod
    → (foldl add_unlock_conditions m os).storage_deposit_return_inner_amount
      ≡ (n + total inner_amount os) % u64_mod
foldl-inner_amount m [] n e = omega (arith, e)
foldl-inner_amount m (o ∷ os) n e =
    let t =
      foldl-inner_amount (add_unlock_conditions m o) os (n + inner_amount o)
        (add_inner_amount m o n e) in
    omega (arith, t)

total-inner_amount :
    (os : List LedgerOutput)
    → (foldl add_unlock_conditions no_measurement os).storage_deposit_return_inner_amount
      ≡ total inner_amount os % u64_mod
total-inner_amount os = foldl-inner_amount no_measurement os 0 refl ∙ omega arith

-- What `init` counts: the outputs with each condition, and the amounts that are to be returned.
init-tally :
    (os : List LedgerOutput)
    → init os ≡ record {
      timelock = tally has_timelock os;
      expiration = tally has_expiration os;
      storage_deposit_return = tally has_storage os;
      storage_deposit_return_inner_amount = total inner_amount os % u64_mod;
    }
unfolding init tally
init-tally os = λ i. record {
  timelock =
      foldl-tally_all (λ m. m.timelock) add_unlock_conditions has_timelock add_timelock
        no_measurement os refl i;
  expiration =
      foldl-tally_all (λ m. m.expiration) add_unlock_conditions has_expiration add_expiration
        no_measurement os refl i;
  storage_deposit_return =
      foldl-tally_all (λ m. m.storage_deposit_return) add_unlock_conditions has_storage
        add_storage_deposit no_measurement os refl i;
  storage_deposit_return_inner_amount = total-inner_amount os i;
}

-- When the unspent outputs `unspent'`, with those that a transaction consumed, are the unspent
-- outputs `unspent` with those that it created, the measurement that was taken of `unspent` by
-- `init` becomes, by the transaction, the one that `init` takes of `unspent'`, in the counts, the
-- amounts and the amount that is to be returned, all modulo 2^64.
pub handle_unlocks-init :
    (unspent : List LedgerOutput) (consumed : List LedgerSpent)
    (created unspent' : List LedgerOutput)
    → UpdatesTo unspent consumed created unspent'
    → handle_transaction (init unspent) consumed created ≡ init unspent'
unfolding handle_transaction wrapping_add wrapping_sub
handle_unlocks-init unspent consumed created unspent' update =
    rw
      (
        init-tally unspent,
        init-tally (spent_outputs consumed),
        init-tally created,
        init-tally unspent',
      )
      λ i. record {
        timelock = tally_add_sub has_timelock unspent consumed created unspent' update i;
        expiration = tally_add_sub has_expiration unspent consumed created unspent' update i;
        storage_deposit_return =
            tally_add_sub has_storage unspent consumed created unspent' update i;
        storage_deposit_return_inner_amount =
            wrapping_sub-wrapping_add _ _ _ _
              (total-UpdatesTo inner_amount unspent consumed created unspent' update) i;
      }
