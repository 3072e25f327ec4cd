-- ===== src/Analytics/Ledger/AddressBalance.antt =====
-- The state of `AddressBalancesAnalytics`: src/analytics/ledger/address_balance.rs.
pub mod Represents
pub mod Recompute
pub mod Measurement
pub mod Distribution
use inx_chronicle.Common.{ℕ, Option, none, some, List, [], ◌==◌, if◌then◌else◌}
use inx_chronicle.Common.Words.{wrapping_add, wrapping_sub}
use inx_chronicle.Common.Dict.{Dict, lookup, insert, remove}
use mathlib.Core.List.{foldl}
use inx_chronicle.Model.Address.{Address, address_eq}
use inx_chronicle.Model.Ledger.{LedgerOutput, LedgerSpent, amount, owning_address}
use inx_chronicle.Analytics.Update.{spent_outputs}

pub record AddressBalancesAnalytics : Type 0 where
  pub balances : Dict Address ℕ

-- `entry(a).or_default()`, as the value that is read
abbrev pub or_default : Option ℕ → ℕ
or_default none = 0
or_default (some n) = n

-- `if let Some(&a) = output.owning_address() { *balances.entry(a).or_default() += amount; }`
abbrev pub add_balance : Dict Address ℕ → Option Address → ℕ → Dict Address ℕ
add_balance balances none amount = balances
add_balance balances (some a) amount =
    insert a (wrapping_add (or_default (lookup a balances)) amount) balances

-- `*amount -= ..; if amount.0 == 0 { balances.remove(a); }` for the entry that was found, and
-- nothing where there is none
abbrev pub sub_entry : Dict Address ℕ → Address → Option ℕ → ℕ → Dict Address ℕ
sub_entry balances a none amount = balances
sub_entry balances a (some balance) amount =
    if wrapping_sub balance amount == 0
    then remove a balances
    else insert a (wrapping_sub balance amount) balances

abbrev pub sub_balance : Dict Address ℕ → Option Address → ℕ → Dict Address ℕ
sub_balance balances none amount = balances
sub_balance balances (some a) amount = sub_entry balances a (lookup a balances) amount

abbrev pub add_output : Dict Address ℕ → LedgerOutput → Dict Address ℕ
add_output balances output = add_balance balances (owning_address output) (amount output)

abbrev pub sub_output : Dict Address ℕ → LedgerOutput → Dict Address ℕ
sub_output balances output = sub_balance balances (owning_address output) (amount output)

unfoldable pub init : List LedgerOutput → AddressBalancesAnalytics
init unspent_outputs = record { balances = foldl add_output [] unspent_outputs }

unfoldable pub handle_transaction :
    AddressBalancesAnalytics → List LedgerSpent → List LedgerOutput → AddressBalancesAnalytics
handle_transaction a consumed created = record {
  balances = foldl add_output (foldl sub_output a.balances (spent_outputs consumed)) created;
}
