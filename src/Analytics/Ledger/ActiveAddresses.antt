-- ===== src/Analytics/Ledger/ActiveAddresses.antt =====
-- `AddressActivityAnalytics`: src/analytics/ledger/active_addresses.rs. The count for an interval
-- of dates is a database query and left out.
pub mod Distinct
use inx_chronicle.Common.{
  ℕ, Bool, true, false, ◌||◌, Option, none, some, List, [], ◌∷◌, length, if◌then◌else◌,
}
use mathlib.Core.List.{foldl}
use inx_chronicle.Model.Address.{Address, address_beq}
use inx_chronicle.Model.Ledger.{LedgerOutput, LedgerSpent, owning_address}
use inx_chronicle.Analytics.Update.{spent_outputs}

-- The set of addresses is a list without repetition.
pub record AddressActivityAnalytics : Type 0 where
  pub addresses : List Address

abbrev pub has_address : Address → List Address → Bool
has_address a [] = false
has_address a (b ∷ bs) = address_beq a b || has_address a bs

-- `self.addresses.insert(*a)`
abbrev pub insert_address : Address → List Address → List Address
insert_address a bs = if has_address a bs then bs else a ∷ bs

-- `if let Some(a) = output.owning_address() { .. }`
abbrev pub insert_owner : List Address → Option Address → List Address
insert_owner bs none = bs
insert_owner bs (some a) = insert_address a bs

abbrev pub insert_output : List Address → LedgerOutput → List Address
insert_output bs output = insert_owner bs (owning_address output)

unfoldable pub handle_transaction :
    AddressActivityAnalytics → List LedgerSpent → List LedgerOutput → AddressActivityAnalytics
handle_transaction s consumed created = record {
  addresses =
      foldl insert_output (foldl insert_output s.addresses (spent_outputs consumed)) created;
}

-- the count, and the analytics afterwards
unfoldable pub take_measurement : AddressActivityAnalytics → ℕ × AddressActivityAnalytics
take_measurement s = (length s.addresses, record { addresses = [] })
