-- ===== src/Analytics/Ledger/AddressBalance/Recompute.antt =====
-- The balances after a transaction are the sums over the unspent outputs after it.
use inx_chronicle.Common.{
  ℕ, ◌+◌, ◌≤◌, ◌<◌, refl, sym, ◌∙◌, Option, none, some, List, [], ◌∷◌, ◌++◌, arith,
}
use inx_chronicle.Common.Words.{u64_mod}
use inx_chronicle.Common.Totals.{total, total-append, total-perm}
use inx_chronicle.Common.Dict.{Dict}
use mathlib.Core.List.{foldl, Perm}
use inx_chronicle.Model.Address.{Address, address_eq}
use inx_chronicle.Model.Ledger.{LedgerOutput, LedgerSpent, amount, owning_address}
use inx_chronicle.Analytics.Update.{spent_outputs}
use inx_chronicle.Analytics.Ledger.AddressBalance.{
  AddressBalancesAnalytics, add_output, sub_output, init, handle_transaction,
}
use inx_chronicle.Analytics.Ledger.AddressBalance.Represents.{
  Holds, owned, share, Holds-ext, add_balance-Holds, sub_balance-Holds,
}

-- outputs that each hold something
abbrev pub ArePositive : List LedgerOutput → Type 0
ArePositive [] = Unit
ArePositive (o ∷ os) = (0 < amount o) × ArePositive os

-- the balance of an address
abbrev pub balance : List LedgerOutput → Address → ℕ
balance os a = total (owned a) os

foldl-add_output :
    (d : Dict Address ℕ) (f : Address → ℕ) (os : List LedgerOutput)
    → ArePositive os
    → ((a : Address) → f a + balance os a < u64_mod)
    → Holds d f
    → Holds (foldl add_output d os) (λ a. f a + balance os a)
foldl-add_output d f [] p bound h = Holds-ext d f _ (λ a. omega arith) h
foldl-add_output d f (o ∷ os) (p, ps) bound h =
    let g = λ (a : Address). f a + owned a o in
    Holds-ext _ (λ a. g a + balance os a) _ (λ a. omega arith)
      (foldl-add_output (add_output d o) g os ps (λ a. omega (arith, bound a))
        (add_balance-Holds d f (owning_address o) (amount o) p (λ a. omega (arith, bound a)) h))

foldl-sub_output :
    (d : Dict Address ℕ) (f : Address → ℕ) (os : List LedgerOutput)
    → ArePositive os
    → ((a : Address) → f a + balance os a < u64_mod)
    → Holds d (λ a. f a + balance os a)
    → Holds (foldl sub_output d os) f
foldl-sub_output d f [] p bound h = Holds-ext d _ f (λ a. omega arith) h
foldl-sub_output d f (o ∷ os) (p, ps) bound h =
    let g = λ (a : Address). f a + balance os a in
    foldl-sub_output (sub_output d o) f os ps (λ a. omega (arith, bound a))
      (sub_balance-Holds d g (owning_address o) (amount o) p (λ a. omega (arith, bound a))
        (Holds-ext d _ (λ a. g a + owned a o) (λ a. omega arith) h))

share-le : (a : Address) (o : Option Address) (n : ℕ) → share a o n ≤ n
share-le a none n = omega arith
share-le a (some b) n = ground arith

-- no address has more than all outputs together
balance-le : (os : List LedgerOutput) (a : Address) → balance os a ≤ total amount os
balance-le [] a = omega arith
balance-le (o ∷ os) a = omega (arith, balance-le os a, share-le a (owning_address o) (amount o))

-- When every unspent output holds something, and all together less than 2^64, `init` has an entry
-- for exactly the addresses that own an output, once each, with the sum of the amounts they own.
pub init-Holds :
    (unspent : List LedgerOutput)
    → ArePositive unspent
    → total amount unspent < u64_mod
    → Holds (init unspent).balances (balance unspent)
unfolding init
init-Holds unspent p bound =
    Holds-ext _ (λ a. 0 + balance unspent a) (balance unspent) (λ a. omega arith)
      (foldl-add_output [] (λ a. 0) unspent p (λ a. omega (arith, balance-le unspent a))
        (tt, λ a. refl))

-- When the balances are those of the unspent outputs, and a transaction replaces some of these by
-- others, all of which hold something, with less than 2^64 in total before and after, then the
-- balances after it are those of the unspent outputs after it: no address is skipped, an address
-- that owns nothing any more loses its entry, and no entry is empty.
pub handle_transaction-Holds :
    (s : AddressBalancesAnalytics) (unspent kept : List LedgerOutput) (consumed : List LedgerSpent)
    (created unspent' : List LedgerOutput)
    → Perm unspent (kept ++ spent_outputs consumed)
    → Perm unspent' (kept ++ created)
    → ArePositive (spent_outputs consumed)
    → ArePositive created
    → total amount unspent < u64_mod
    → total amount unspent' < u64_mod
    → Holds s.balances (balance unspent)
    → Holds (handle_transaction s consumed created).balances (balance unspent')
unfolding handle_transaction
handle_transaction-Holds s unspent kept consumed created unspent' p p' cs ds b b' h =
    let before = λ (a : Address).
      total-perm (owned a) p ∙ total-append (owned a) kept (spent_outputs consumed) in
    let after = λ (a : Address). total-perm (owned a) p' ∙ total-append (owned a) kept created in
    let taken =
      foldl-sub_output s.balances (balance kept) (spent_outputs consumed) cs
        (λ a. omega (arith, balance-le unspent a, before a))
        (Holds-ext s.balances (balance unspent) _ before h) in
    Holds-ext _ _ (balance unspent') (λ a. sym (after a))
      (foldl-add_output _ (balance kept) created ds
        (λ a. omega (arith, balance-le unspent' a, after a)) taken)
