-- ===== src/Analytics/Ledger/AddressBalance/Measurement.antt =====
-- The token distribution: `take_measurement` of src/analytics/ledger/address_balance.rs, on the
-- balances of the addresses. A number below 2^64 has at most twenty digits, so that twenty divisions
-- are enough for `ilog10`.
use inx_chronicle.Common.{
  ℕ, zero, suc, ◌/◌, Option, none, some, List, [], ◌∷◌, ltb, ◌==◌, if◌then◌else◌, length, ◌>>=◌,
}
use inx_chronicle.Common.Words.{wrapping_add}
use inx_chronicle.Common.Dict.{Dict}
use inx_chronicle.Model.Address.{Address}
use inx_chronicle.Analytics.Milestone.{AnalyticsContext}
use inx_chronicle.Analytics.Ledger.AddressBalance.{AddressBalancesAnalytics}

pub record DistributionStat : Type 0 where
  pub address_count : ℕ
  pub total_amount : ℕ

pub record AddressBalanceMeasurement : Type 0 where
  pub address_with_balance_count : ℕ
  pub token_distribution : List DistributionStat

-- the number of times that a number can be divided by ten
abbrev pub digits_after : ℕ → ℕ → ℕ
digits_after zero n = 0
digits_after (suc fuel) n =
    let rest = digits_after fuel (n / 10) in if ltb n 10 then 0 else suc rest

-- `ilog10` of the standard library, which panics at 0
abbrev pub ilog10 : ℕ → Option ℕ
ilog10 n = if n == 0 then none else some (digits_after 20 n)

-- `vec![DistributionStat::default(); n]`
abbrev pub no_stats : ℕ → List DistributionStat
no_stats zero = []
no_stats (suc n) = record { address_count = 0; total_amount = 0 } ∷ no_stats n

abbrev pub grow_stat : ℕ → DistributionStat → DistributionStat
grow_stat amount s = record {
  address_count = wrapping_add s.address_count 1;
  total_amount = wrapping_add s.total_amount amount;
}

-- the stat at the index grows; an index out of range is a panic
abbrev pub grow_at : ℕ → ℕ → List DistributionStat → Option (List DistributionStat)
grow_at index amount [] = none
grow_at zero amount (s ∷ stats) = some (grow_stat amount s ∷ stats)
grow_at (suc index) amount (s ∷ stats) = do rest ← grow_at index amount stats; some (s ∷ rest)

-- the loop over `self.balances.values()`
abbrev pub distribute : Dict Address ℕ → List DistributionStat → Option (List DistributionStat)
distribute [] stats = some stats
distribute ((a, amount) ∷ balances) stats = do
  index ← ilog10 amount
  stats' ← grow_at index amount stats
  distribute balances stats'

-- `take_measurement`, which leaves the analytics as they are
unfoldable pub take_measurement :
    AddressBalancesAnalytics → AnalyticsContext → Option AddressBalanceMeasurement
take_measurement s ctx = do
  top ← ilog10 ctx.protocol_params.token_supply
  token_distribution ← distribute s.balances (no_stats (suc top))
  some record {
    address_with_balance_count = length s.balances;
    token_distribution = token_distribution;
  }
