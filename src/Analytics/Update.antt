-- ===== src/Analytics/Update.antt =====
-- How a transaction changes the set of unspent outputs, as a multiset, and what this does to a sum
-- over the set.
use inx_chronicle.Common.{ℕ, ◌+◌, ◌≡◌, sym, ◌∙◌, List, ◌++◌, map}
use inx_chronicle.Common.Totals.{total, total-append, total-perm}
use inx_chronicle.Model.Ledger.{LedgerOutput, LedgerSpent}
use mathlib.Core.List.{Perm}

-- the outputs that a transaction consumes
abbrev pub spent_outputs : List LedgerSpent → List LedgerOutput
spent_outputs = map (λ s. s.output)

-- The unspent outputs `unspent'` after a transaction, with those it consumed, are the unspent
-- outputs before it with those it created.
abbrev pub UpdatesTo :
    List LedgerOutput → List LedgerSpent → List LedgerOutput → List LedgerOutput → Type 0
UpdatesTo unspent consumed created unspent' =
    Perm (unspent' ++ spent_outputs consumed) (unspent ++ created)

pub total-UpdatesTo :
    (w : LedgerOutput → ℕ) (unspent : List LedgerOutput) (consumed : List LedgerSpent)
    (created unspent' : List LedgerOutput)
    → UpdatesTo unspent consumed created unspent'
    → total w unspent' + total w (spent_outputs consumed) ≡ total w unspent + total w created
total-UpdatesTo w unspent consumed created unspent' p =
    sym (total-append w unspent' (spent_outputs consumed))
    ∙ (total-perm w p ∙ total-append w unspent created)
