-- ===== src/Analytics/Ledger/UnclaimedTokens.antt =====
-- `UnclaimedTokenMeasurement`: src/analytics/ledger/unclaimed_tokens.rs.
pub mod Recompute
use inx_chronicle.Common.{ℕ, Bool, List, ◌==◌, if◌then◌else◌}
use inx_chronicle.Common.Words.{wrapping_add, wrapping_sub}
use mathlib.Core.List.{foldl}
use inx_chronicle.Model.Ledger.{LedgerOutput, LedgerSpent, amount}
use inx_chronicle.Analytics.Update.{spent_outputs}

pub record UnclaimedTokenMeasurement : Type 0 where
  pub unclaimed_count : ℕ
  pub unclaimed_amount : ℕ

abbrev pub no_measurement : UnclaimedTokenMeasurement
no_measurement = record { unclaimed_count = 0; unclaimed_amount = 0 }

-- `output.booked.milestone_index == 0`
abbrev pub is_unclaimed : LedgerOutput → Bool
is_unclaimed output = output.booked.milestone_index == 0

pub add_unclaimed : UnclaimedTokenMeasurement → LedgerOutput → UnclaimedTokenMeasurement
add_unclaimed m output =
    if is_unclaimed output
    then record {
      unclaimed_count = wrapping_add m.unclaimed_count 1;
      unclaimed_amount = wrapping_add m.unclaimed_amount (amount output);
    }
    else m

pub sub_unclaimed : UnclaimedTokenMeasurement → LedgerOutput → UnclaimedTokenMeasurement
sub_unclaimed m output =
    if is_unclaimed output
    then record {
      unclaimed_count = wrapping_sub m.unclaimed_count 1;
      unclaimed_amount = wrapping_sub m.unclaimed_amount (amount output);
    }
    else m

unfoldable pub init : List LedgerOutput → UnclaimedTokenMeasurement
unfolding add_unclaimed
init unspent_outputs = foldl add_unclaimed no_measurement unspent_outputs

-- `input.amount()` is the amount of the output that is spent
unfoldable pub handle_transaction :
    UnclaimedTokenMeasurement → List LedgerSpent → List LedgerOutput → UnclaimedTokenMeasurement
unfolding sub_unclaimed
handle_transaction m inputs created = foldl sub_unclaimed m (spent_outputs inputs)
