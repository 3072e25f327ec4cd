-- ===== src/Analytics/Ledger/TransactionSize.antt =====
-- `TransactionSizeMeasurement`: src/analytics/ledger/transaction_size.rs.
pub mod Histogram
pub mod Batch
use inx_chronicle.Common.{
  ℕ, zero, suc, ◌-◌, Option, none, some, List, [], ◌∷◌, length, ltb, ◌==◌, ◌>>=◌, if◌then◌else◌,
}
use inx_chronicle.Common.Words.{wrapping_add}
use inx_chronicle.Model.Ledger.{LedgerOutput, LedgerSpent}

-- `single` is an array of seven counts.
pub record TransactionSizeBuckets : Type 0 where
  pub single : List ℕ
  pub small : ℕ
  pub medium : ℕ
  pub large : ℕ
  pub huge : ℕ

abbrev pub no_buckets : TransactionSizeBuckets
no_buckets = record {
  single = 0 ∷ 0 ∷ 0 ∷ 0 ∷ 0 ∷ 0 ∷ 0 ∷ [];
  small = 0;
  medium = 0;
  large = 0;
  huge = 0;
}

-- `single[i] += 1`
abbrev pub bump : List ℕ → ℕ → List ℕ
bump [] i = []
bump (n ∷ ns) zero = wrapping_add n 1 ∷ ns
bump (n ∷ ns) (suc i) = n ∷ bump ns i

-- `TransactionSizeBuckets::add`: `none` is the panic of `unreachable!`
unfoldable pub add : TransactionSizeBuckets → ℕ → Option TransactionSizeBuckets
add b value =
    if value == 0
    then none
    else if ltb value 8
    then some (record b { single = bump b.single (value - 1) })
    else if ltb value 16
    then some (record b { small = wrapping_add b.small 1 })
    else if ltb value 32
    then some (record b { medium = wrapping_add b.medium 1 })
    else if ltb value 64
    then some (record b { large = wrapping_add b.large 1 })
    else some (record b { huge = wrapping_add b.huge 1 })

pub record TransactionSizeMeasurement : Type 0 where
  pub input_buckets : TransactionSizeBuckets
  pub output_buckets : TransactionSizeBuckets

unfoldable pub handle_transaction :
    TransactionSizeMeasurement
    → List LedgerSpent
    → List LedgerOutput
    → Option TransactionSizeMeasurement
handle_transaction m consumed created = do
  input_buckets ← add m.input_buckets (length consumed)
  output_buckets ← add m.output_buckets (length created)
  some record { input_buckets = input_buckets; output_buckets = output_buckets }
