-- ===== src/Analytics/Ledger/TransactionSize/Batch.antt =====
-- The measurement of several transactions.
use inx_chronicle.Common.{ℕ, ◌<◌, ◌≡◌, ◌≢◌, refl, Option, some, List, [], ◌∷◌, length, ◌>>=◌}
use inx_chronicle.Model.Ledger.{LedgerOutput, LedgerSpent}
use inx_chronicle.Analytics.Ledger.TransactionSize.{
  TransactionSizeMeasurement, no_buckets, handle_transaction,
}
use inx_chronicle.Analytics.Ledger.TransactionSize.Histogram.{histogram, histogram-add}

-- the numbers of inputs and of outputs of transactions, the last one first
abbrev pub input_sizes : List (List LedgerSpent × List LedgerOutput) → List ℕ
input_sizes [] = []
input_sizes ((consumed, created) ∷ ts) = length consumed ∷ input_sizes ts

abbrev pub output_sizes : List (List LedgerSpent × List LedgerOutput) → List ℕ
output_sizes [] = []
output_sizes ((consumed, created) ∷ ts) = length created ∷ output_sizes ts

-- each of them consumes and creates something, and fewer than 128 outputs
abbrev pub AreSized : List (List LedgerSpent × List LedgerOutput) → Type 0
AreSized [] = Unit
AreSized ((consumed, created) ∷ ts) =
    (length consumed ≢ 0)
    × (length consumed < 128)
    × (length created ≢ 0)
    × (length created < 128)
    × AreSized ts

-- `handle_transaction` for each of them, the last one of the list first
abbrev pub handle_all :
    List (List LedgerSpent × List LedgerOutput) → Option TransactionSizeMeasurement
handle_all [] = some record { input_buckets = no_buckets; output_buckets = no_buckets }
handle_all ((consumed, created) ∷ ts) = do m ← handle_all ts; handle_transaction m consumed created

-- After any transactions that each consume and create at least one and fewer than 128 outputs, the
-- measurement has not panicked: its buckets are the histograms of the numbers of inputs and outputs,
-- with the ranges that the comments on the fields give, modulo 2^64.
pub handle_all-histogram :
    (ts : List (List LedgerSpent × List LedgerOutput))
    → AreSized ts
    → handle_all ts
      ≡ some record {
        input_buckets = histogram (input_sizes ts);
        output_buckets = histogram (output_sizes ts);
      }
unfolding handle_transaction
handle_all-histogram [] h = refl
handle_all-histogram ((consumed, created) ∷ ts) (a, c, b, d, h) = rw (
  handle_all-histogram ts h,
  histogram-add (input_sizes ts) (length consumed) a c,
  histogram-add (output_sizes ts) (length created) b d,
)
