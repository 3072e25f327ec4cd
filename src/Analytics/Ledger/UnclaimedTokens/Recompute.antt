-- ===== src/Analytics/Ledger/UnclaimedTokens/Recompute.antt =====
-- The incremental measurement agrees with reading the ledger again.
use inx_chronicle.Common.{◌+◌, ◌≡◌, refl, sym, ◌∙◌, ap, false, List, [], ◌∷◌, arith, if◌then◌else◌}
use inx_chronicle.Common.Totals.{total}
use inx_chronicle.Model.Ledger.{LedgerOutput, LedgerSpent}
use inx_chronicle.Analytics.Counts.{
  CountAndAmount, add_output, sub_output, one_if, amount_if, residues, foldl_tally, foldl_untally,
}
use inx_chronicle.Analytics.Update.{UpdatesTo, spent_outputs, total-UpdatesTo}
use inx_chronicle.Analytics.Ledger.UnclaimedTokens.{
  UnclaimedTokenMeasurement, no_measurement, is_unclaimed, add_unclaimed, sub_unclaimed, init,
  handle_transaction,
}

-- the measurement as a count and an amount
abbrev counts : UnclaimedTokenMeasurement → CountAndAmount
counts m = record { count = m.unclaimed_count; amount = m.unclaimed_amount }

abbrev from_counts : CountAndAmount → UnclaimedTokenMeasurement
from_counts c = record { unclaimed_count = c.count; unclaimed_amount = c.amount }

add_unclaimed-counts :
    (m : UnclaimedTokenMeasurement) (o : LedgerOutput)
    → counts (add_unclaimed m o) ≡ (if is_unclaimed o then add_output (counts m) o else counts m)
unfolding add_unclaimed add_output
add_unclaimed-counts m o = ground arith

sub_unclaimed-counts :
    (m : UnclaimedTokenMeasurement) (o : LedgerOutput)
    → counts (sub_unclaimed m o) ≡ (if is_unclaimed o then sub_output (counts m) o else counts m)
unfolding sub_unclaimed sub_output
sub_unclaimed-counts m o = ground arith

-- outputs that are not booked at milestone 0
abbrev pub AreClaimed : List LedgerOutput → Type 0
AreClaimed [] = Unit
AreClaimed (o ∷ os) = (is_unclaimed o ≡ false) × AreClaimed os

total-AreClaimed :
    (os : List LedgerOutput)
    → AreClaimed os
    → (total (one_if is_unclaimed) os ≡ 0) × (total (amount_if is_unclaimed) os ≡ 0)
total-AreClaimed [] h = (refl, refl)
total-AreClaimed (o ∷ os) (e, h) = let (c, a) = total-AreClaimed os h in (rw (e, c), rw (e, a))

init-counts :
    (os : List LedgerOutput)
    → counts (init os)
      ≡ residues (0 + total (one_if is_unclaimed) os) (0 + total (amount_if is_unclaimed) os)
unfolding init
init-counts os =
    foldl_tally counts add_unclaimed is_unclaimed add_unclaimed-counts no_measurement os 0 0 refl

-- When no created output is booked at milestone 0, and the unspent outputs `unspent'`, with those
-- that a transaction consumed, are the unspent outputs `unspent` with those that it created, the
-- measurement that was taken of `unspent` by `init` becomes, by the transaction, the one that
-- `init` takes of `unspent'`, modulo 2^64.
pub handle_unclaimed-init :
    (unspent : List LedgerOutput) (consumed : List LedgerSpent)
    (created unspent' : List LedgerOutput)
    → AreClaimed created
    → UpdatesTo unspent consumed created unspent'
    → handle_transaction (init unspent) consumed created ≡ init unspent'
unfolding handle_transaction
handle_unclaimed-init unspent consumed created unspent' claimed update =
    let u1 = total-UpdatesTo (one_if is_unclaimed) unspent consumed created unspent' update in
    let u2 = total-UpdatesTo (amount_if is_unclaimed) unspent consumed created unspent' update in
    let (c1, c2) = total-AreClaimed created claimed in
    let n : 0 + total (one_if is_unclaimed) unspent
        ≡ total (one_if is_unclaimed) unspent'
          + total (one_if is_unclaimed) (spent_outputs consumed) =
      omega (arith, u1, c1) in
    let k : 0 + total (amount_if is_unclaimed) unspent
        ≡ total (amount_if is_unclaimed) unspent'
          + total (amount_if is_unclaimed) (spent_outputs consumed) =
      omega (arith, u2, c2) in
    let start = init-counts unspent ∙ (λ i. residues (n i) (k i)) in
    ap from_counts (
      foldl_untally counts sub_unclaimed is_unclaimed sub_unclaimed-counts (init unspent)
        (spent_outputs consumed) (total (one_if is_unclaimed) unspent')
        (total (amount_if is_unclaimed) unspent') start
      ∙ sym (init-counts unspent' ∙ ground arith))
