-- ===== src/Tests/Ledger.antt =====
-- Measurements of a small ledger.
use inx_chronicle.Common.{
  ◌||◌, ℕ, ◌%◌, ◌^◌, ◌≤◌, ◌≡◌, ◌≢◌, refl, none, some, List, [], ◌∷◌, get_elem?, length, arith,
}
use mathlib.Core.List.{Permᴰ}
use inx_chronicle.Model.Address.{Address, address_eq}
use inx_chronicle.Model.Output.{Output, output_amount}
use inx_chronicle.Model.Protocol.{ProtocolParameters}
use inx_chronicle.Model.Ledger.{LedgerOutput, LedgerSpent}
use inx_chronicle.Analytics.Update.{UpdatesTo, spent_outputs}
use inx_chronicle.Analytics.Ledger.LedgerOutputs
use inx_chronicle.Analytics.Ledger.LedgerOutputs.Recompute.{handle_transaction-init}
use inx_chronicle.Analytics.Ledger.UnlockConditions
use inx_chronicle.Analytics.Ledger.UnlockConditions.Recompute.{handle_unlocks-init}
use inx_chronicle.Analytics.Ledger.LedgerSize
use inx_chronicle.Analytics.Ledger.LedgerSize.{LedgerSizeMeasurement}
use inx_chronicle.Analytics.Ledger.LedgerSize.Recompute.{handle_sizes-init}
use inx_chronicle.Analytics.Ledger.UnclaimedTokens
use inx_chronicle.Analytics.Ledger.UnclaimedTokens.Recompute.{handle_unclaimed-init}
use inx_chronicle.Analytics.Ledger.ActiveAddresses
use inx_chronicle.Analytics.Ledger.ActiveAddresses.{has_address}
use inx_chronicle.Analytics.Ledger.ActiveAddresses.Distinct.{
  IsDistinct, owns_any, handle_transaction-IsDistinct,
}
use inx_chronicle.Analytics.Ledger.AddressBalance
use inx_chronicle.Analytics.Ledger.AddressBalance.Represents.{Holds}
use inx_chronicle.Analytics.Ledger.AddressBalance.Recompute.{
  balance, init-Holds, handle_transaction-Holds,
}
use inx_chronicle.Analytics.Ledger.AddressBalance.Measurement
use inx_chronicle.Analytics.Ledger.AddressBalance.Measurement.{AddressBalanceMeasurement}
use inx_chronicle.Analytics.Ledger.AddressBalance.Distribution.{
  count_in, sum_in, take_measurement-distribution,
}
use inx_chronicle.Analytics.Milestone.{AnalyticsContext}
use inx_chronicle.Common.Words.{u64_mod}
use inx_chronicle.Analytics.Ledger.TransactionSize.Histogram.{histogram}
use inx_chronicle.Analytics.Ledger.TransactionSize.Batch.{
  input_sizes, output_sizes, handle_all, handle_all-histogram,
}

abbrev pub address_of : ℕ → Address
address_of n = Address.ed25519 (n ∷ [])

-- a basic output of an address, which asks for a return of 3
abbrev pub output_for : ℕ → ℕ → Output
output_for owner n = Output.basic record {
  amount = n;
  native_tokens = [];
  address_unlock_condition = record { address = address_of owner };
  storage_deposit_return_unlock_condition =
      some record { return_address = address_of 9; amount = 3 };
  timelock_unlock_condition = none;
  expiration_unlock_condition = none;
  features = [];
}

abbrev pub booked_output : ℕ → ℕ → ℕ → ℕ → LedgerOutput
booked_output transaction milestone owner n = record {
  output_id = record { transaction_id = transaction ∷ []; index = 0 };
  block_id = [];
  booked = record { milestone_index = milestone; milestone_timestamp = 0 };
  output = output_for owner n;
  rent_structure = record { num_key_bytes = 1; num_data_bytes = 2 };
}

-- two outputs of the genesis, and one that a transaction makes of the second
abbrev pub kept : LedgerOutput
kept = booked_output 1 0 1 50

abbrev pub old : LedgerOutput
old = booked_output 2 0 2 70

abbrev pub new : LedgerOutput
new = booked_output 3 5 1 70

abbrev pub spent : LedgerSpent
spent = record {
  output = old;
  spent_metadata = record {
    transaction_id = 3 ∷ [];
    spent = record { milestone_index = 5; milestone_timestamp = 0 };
  };
}

abbrev pub before : List LedgerOutput
before = kept ∷ old ∷ []

abbrev pub after : List LedgerOutput
after = kept ∷ new ∷ []

pub updated : UpdatesTo before (spent ∷ []) (new ∷ []) after
updated = ∣ Permᴰ.cons refl (Permᴰ.swap refl refl) ∣₁

handle_transaction-init_example :
    LedgerOutputs.handle_transaction (LedgerOutputs.init before) (spent ∷ []) (new ∷ [])
    ≡ LedgerOutputs.init after
handle_transaction-init_example =
    handle_transaction-init before (spent ∷ []) (new ∷ []) after updated

handle_unlocks-init_example :
    UnlockConditions.handle_transaction (UnlockConditions.init before) (spent ∷ []) (new ∷ [])
    ≡ UnlockConditions.init after
handle_unlocks-init_example = handle_unlocks-init before (spent ∷ []) (new ∷ []) after updated

-- sizes that depend on the amount
abbrev pub size : ProtocolParameters → Output → LedgerSizeMeasurement
size params (Output.basic b) = record {
  total_key_bytes = 40;
  total_data_bytes = b.amount;
  total_storage_deposit_amount = 400;
}
size params o = LedgerSize.no_measurement

abbrev pub params : ProtocolParameters
params = record {
  version = 2;
  network_name = "test";
  bech32_hrp = "tst";
  min_pow_score = 1;
  below_max_depth = 15;
  rent_structure = record { v_byte_cost = 100; v_byte_factor_data = 1; v_byte_factor_key = 10 };
  token_supply = 120;
}

handle_sizes-init_example :
    LedgerSize.handle_transaction size (LedgerSize.init size params before) (spent ∷ []) (new ∷ [])
    ≡ LedgerSize.init size params after
handle_sizes-init_example =
    handle_sizes-init size params before (spent ∷ []) (new ∷ []) after updated

handle_unclaimed-init_example :
    UnclaimedTokens.handle_transaction (UnclaimedTokens.init before) (spent ∷ []) (new ∷ [])
    ≡ UnclaimedTokens.init after
handle_unclaimed-init_example =
    handle_unclaimed-init before (spent ∷ []) (new ∷ []) after (refl, tt) updated

before-Holds : Holds (AddressBalance.init before).balances (balance before)
unfolding output_amount
before-Holds = init-Holds before (omega arith, (omega arith, tt)) (omega arith)

init-Holds_example : Holds (AddressBalance.init after).balances (balance after)
unfolding output_amount
init-Holds_example = init-Holds after (omega arith, (omega arith, tt)) (omega arith)

handle_transaction-Holds_example :
    Holds
      (AddressBalance.handle_transaction
        (AddressBalance.init before)
        (spent ∷ [])
        (new ∷ [])).balances
      (balance after)
unfolding output_amount
handle_transaction-Holds_example =
    handle_transaction-Holds (AddressBalance.init before) before (kept ∷ []) (spent ∷ []) (new ∷ [])
      after ∣ Permᴰ.cons refl (Permᴰ.cons refl Permᴰ.nil) ∣₁
      ∣ Permᴰ.cons refl (Permᴰ.cons refl Permᴰ.nil) ∣₁ (omega arith, tt) (omega arith, tt)
      (omega arith) (omega arith) before-Holds

abbrev transactions : List (List LedgerSpent × List LedgerOutput)
transactions = ((spent ∷ []), (new ∷ [])) ∷ ((spent ∷ []), (kept ∷ new ∷ [])) ∷ []

one : ◌≢◌ {A = ℕ} 1 0
one h = absurd (omega (arith, h))

handle_all-histogram_example :
    handle_all transactions
    ≡ some record {
      input_buckets = histogram (input_sizes transactions);
      output_buckets = histogram (output_sizes transactions);
    }
handle_all-histogram_example = handle_all-histogram transactions (
  one,
  omega arith,
  one,
  omega arith,
  (one, omega arith, (λ h. absurd (omega (arith, h))), omega arith, tt),
)

abbrev nobody : ActiveAddresses.AddressActivityAnalytics
nobody = record { addresses = [] }

handle_transaction-IsDistinct_example :
    IsDistinct (ActiveAddresses.handle_transaction nobody (spent ∷ []) (new ∷ [])).addresses
    × ((a : Address)
        → has_address a
            (ActiveAddresses.handle_transaction nobody (spent ∷ []) (new ∷ [])).addresses
          ≡ (has_address a nobody.addresses
              || (owns_any a (spent_outputs (spent ∷ [])) || owns_any a (new ∷ []))))
handle_transaction-IsDistinct_example =
    handle_transaction-IsDistinct nobody (spent ∷ []) (new ∷ []) tt

abbrev at_5 : AnalyticsContext
at_5 = record {
  protocol_params = params;
  at = record { milestone_index = 5; milestone_timestamp = 0 };
}

abbrev two_balances : AddressBalance.AddressBalancesAnalytics
two_balances = record { balances = (address_of 1, 50) ∷ (address_of 2, 70) ∷ [] }

take_measurement-distribution_example :
    (m : AddressBalanceMeasurement) × (Measurement.take_measurement two_balances at_5 ≡ some m)
    × (m.address_with_balance_count ≡ length two_balances.balances)
    × ((i : ℕ)
        → 10 ^ i ≤ 120
        → get_elem? m.token_distribution i
          ≡ some record {
            address_count = count_in i two_balances.balances % u64_mod;
            total_amount = sum_in i two_balances.balances % u64_mod;
          })
take_measurement-distribution_example =
    take_measurement-distribution two_balances at_5 (omega arith) (omega arith)
      (omega arith, omega arith, (omega arith, omega arith, tt))
