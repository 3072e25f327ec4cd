-- ===== src/Analytics/Ledger/BaseToken.antt =====
-- `BaseTokenActivityMeasurement`: src/analytics/ledger/base_token.rs. An `i128` is the number below
-- 2^128 with the same bits.
pub mod Booked
use inx_chronicle.Common.{
  ℕ, ◌+◌, ◌-◌, ◌%◌, ◌^◌, Option, none, some, List, [], ◌∷◌, ltb, if◌then◌else◌,
}
use inx_chronicle.Common.Words.{u64_mod, wrapping_add}
use inx_chronicle.Common.Dict.{Dict, lookup, insert}
use mathlib.Core.List.{foldl}
use inx_chronicle.Model.Address.{Address, address_eq}
use inx_chronicle.Model.Ledger.{LedgerOutput, LedgerSpent, amount, owning_address}
use inx_chronicle.Analytics.Update.{spent_outputs}
use inx_chronicle.Analytics.Ledger.AddressBalance.{or_default}

pub record BaseTokenActivityMeasurement : Type 0 where
  pub booked_amount : ℕ
  pub transferred_amount : ℕ

abbrev pub i128_mod : ℕ
i128_mod = 2 ^ 128

-- `*balance_deltas.entry(address).or_default() += output.amount().0 as i128`
abbrev pub add_delta : Dict Address ℕ → Option Address → ℕ → Dict Address ℕ
add_delta deltas none amount = deltas
add_delta deltas (some a) amount =
    insert a ((or_default (lookup a deltas) + amount) % i128_mod) deltas

-- `*balance_deltas.entry(address).or_default() -= output.amount().0 as i128`
abbrev pub sub_delta : Dict Address ℕ → Option Address → ℕ → Dict Address ℕ
sub_delta deltas none amount = deltas
sub_delta deltas (some a) amount =
    insert a ((or_default (lookup a deltas) + i128_mod - amount % i128_mod) % i128_mod) deltas

abbrev pub add_created : Dict Address ℕ → LedgerOutput → Dict Address ℕ
add_created deltas output = add_delta deltas (owning_address output) (amount output)

abbrev pub sub_consumed : Dict Address ℕ → LedgerOutput → Dict Address ℕ
sub_consumed deltas output = sub_delta deltas (owning_address output) (amount output)

-- `balance_deltas.values().sum::<i128>()`
abbrev pub sum_values : Dict Address ℕ → ℕ
sum_values [] = 0
sum_values ((a, d) ∷ deltas) = (d + sum_values deltas) % i128_mod

-- `d.max(0) as u64`
abbrev pub positive : ℕ → ℕ
positive d = if ltb d (2 ^ 127) then d % u64_mod else 0

-- `balance_deltas.values().copied().map(|d| d.max(0) as u64).sum()`
abbrev pub sum_positive : Dict Address ℕ → ℕ
sum_positive [] = 0
sum_positive ((a, d) ∷ deltas) = wrapping_add (positive d) (sum_positive deltas)

unfoldable pub handle_transaction :
    BaseTokenActivityMeasurement
    → List LedgerSpent
    → List LedgerOutput
    → BaseTokenActivityMeasurement
handle_transaction m consumed created =
    let gathered = foldl add_created [] created in
    let deltas = foldl sub_consumed gathered (spent_outputs consumed) in
    record {
      booked_amount = wrapping_add m.booked_amount (sum_values gathered % u64_mod);
      transferred_amount = wrapping_add m.transferred_amount (sum_positive deltas);
    }

-- the measurement, and `std::mem::take`
unfoldable pub take_measurement :
    BaseTokenActivityMeasurement → BaseTokenActivityMeasurement × BaseTokenActivityMeasurement
take_measurement m = (m, record { booked_amount = 0; transferred_amount = 0 })
