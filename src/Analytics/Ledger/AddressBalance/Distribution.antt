-- ===== src/Analytics/Ledger/AddressBalance/Distribution.antt =====
-- The stats of the token distribution, as they are defined: by the ranges between powers of ten.
use native.Mathlib.Nat.{pow-le-pow_right, pow-suc}
use inx_chronicle.Common.{
  ℕ, zero, suc, ◌+◌, ◌*◌, ◌/◌, ◌%◌, ◌^◌, ◌≤◌, ◌<◌, Bool, false, ◌&&◌, some, List, [], ◌∷◌, ltb, leb,
  ◌==◌, if◌then◌else◌, length, get_elem?, ◌≡◌, refl, arith, ◌∙◌, ap, ap₂, sym, ==_iff, Bool-cases,
  inl, inr,
}
use inx_chronicle.Common.Words.{u64_mod}
use inx_chronicle.Common.Dict.{Dict}
use inx_chronicle.Model.Address.{Address}
use inx_chronicle.Analytics.Milestone.{AnalyticsContext}
use inx_chronicle.Analytics.Ledger.AddressBalance.{AddressBalancesAnalytics}
use inx_chronicle.Analytics.Ledger.AddressBalance.Measurement.{
  DistributionStat, AddressBalanceMeasurement, digits_after, no_stats, grow_stat, grow_at,
  distribute, take_measurement,
}

-- the amount is in the range `[10^index..10^(index+1))`
abbrev pub in_range : ℕ → ℕ → Bool
in_range index amount = leb (10 ^ index) amount && ltb amount (10 ^ suc index)

-- the amounts of the range, counted and summed
abbrev pub count_in : ℕ → Dict Address ℕ → ℕ
count_in index [] = 0
count_in index ((a, amount) ∷ balances) =
    (if in_range index amount then 1 else 0) + count_in index balances

abbrev pub sum_in : ℕ → Dict Address ℕ → ℕ
sum_in index [] = 0
sum_in index ((a, amount) ∷ balances) =
    (if in_range index amount then amount else 0) + sum_in index balances

-- every balance is positive and at most the supply
abbrev pub AreWithin : ℕ → Dict Address ℕ → Type 0
AreWithin supply [] = Unit
AreWithin supply ((a, amount) ∷ balances) =
    (0 < amount) × (amount ≤ supply) × AreWithin supply balances

tenth_fits : (n m : ℕ) → n < m * 10 → n / 10 < m
tenth_fits n m h = omega arith

tenth_bounds : (n m k : ℕ) → m ≤ n / 10 → n / 10 < k → (m * 10 ≤ n) × (n < k * 10)
tenth_bounds n m k lo hi = (omega arith, omega arith)

digits_after-bounds :
    (fuel n : ℕ)
    → 0 < n
    → n < 10 ^ fuel
    → (10 ^ digits_after fuel n ≤ n) × (n < 10 ^ suc (digits_after fuel n))
digits_after-bounds zero n p h = absurd (omega arith)
digits_after-bounds (suc fuel) n p h = elim (Bool-cases (ltb n 10)) [
  | inl small ↦ rw small (omega arith, ground arith)
  | inr large ↦
      let (lo, hi) =
        digits_after-bounds fuel (n / 10) (ground arith)
          (tenth_fits n (10 ^ fuel) (rw (pow-suc 10 fuel) at h)) in
      let k = digits_after fuel (n / 10) in
      let (low, high) = tenth_bounds n (10 ^ k) (10 ^ suc k) lo hi in
      rw large (rw (pow-suc 10 k) low, rw (pow-suc 10 (suc k)) high)
]

-- the exponent of the range is unique
exponent_le : (i r n : ℕ) → 10 ^ i ≤ n → n < 10 ^ suc r → i ≤ r
exponent_le i r n lo hi = elim (Bool-cases (leb i r)) [
  | inl within ↦ ground arith
  | inr beyond ↦
      let mono = pow-le-pow_right {n = 10} (omega arith) {i = suc r} {j = i} (ground arith) in
      absurd (omega arith)
]

in_range-eq : (i r n : ℕ) → 10 ^ r ≤ n → n < 10 ^ suc r → in_range i n ≡ (i == r)
in_range-eq i r n lo hi = elim (Bool-cases (in_range i n)) [
  | inl within ↦
      let p = exponent_le i r n (ground arith) hi in
      let q = exponent_le r i n lo (ground arith) in
      let e : i ≡ r = omega arith in within ∙ sym ((==_iff i r).1 e)
  | inr beyond ↦ elim (Bool-cases (i == r)) [
    | inl same ↦
        let e : i ≡ r = (==_iff i r).0 same in
        let low : 10 ^ i ≤ n = rw e lo in
        let high : n < 10 ^ suc i = rw e hi in absurd (ground arith)
    | inr other ↦ beyond ∙ sym other
  ]
]

-- a stat of so many addresses with so many tokens
abbrev stat_of : ℕ → ℕ → DistributionStat
stat_of c t = record { address_count = c % u64_mod; total_amount = t % u64_mod }

grow_stat-stat_of : (amount c t : ℕ) → grow_stat amount (stat_of c t) ≡ stat_of (1 + c) (amount + t)
grow_stat-stat_of amount c t =
    let p : (c % u64_mod + 1) % u64_mod ≡ (1 + c) % u64_mod = omega arith in
    let q : (t % u64_mod + amount) % u64_mod ≡ (amount + t) % u64_mod = omega arith in
    rw (p, q) refl

-- what the stat at an index is after the stat at another index has grown
abbrev grown_at : ℕ → ℕ → ℕ → DistributionStat → DistributionStat
grown_at i index amount s = if i == index then grow_stat amount s else s

get_elem?-first :
    (amount : ℕ) (s : DistributionStat) (stats : List DistributionStat) (i : ℕ)
    (s' : DistributionStat)
    → get_elem? (s ∷ stats) i ≡ some s'
    → get_elem? (grow_stat amount s ∷ stats) i ≡ some (grown_at i 0 amount s')
get_elem?-first amount s stats zero s' h = cc
get_elem?-first amount s stats (suc i) s' h = let e : (suc i == 0) ≡ false = ground arith in rw e h

get_elem?-later :
    (index amount : ℕ) (s : DistributionStat) (stats stats' : List DistributionStat)
    → ((i : ℕ) (s' : DistributionStat)
        → get_elem? stats i ≡ some s'
        → get_elem? stats' i ≡ some (grown_at i index amount s'))
    → (i : ℕ) (s' : DistributionStat) → get_elem? (s ∷ stats) i ≡ some s'
    → get_elem? (s ∷ stats') i ≡ some (grown_at i (suc index) amount s')
get_elem?-later index amount s stats stats' found zero s' h =
    let e : (0 == suc index) ≡ false = ground arith in rw e h
get_elem?-later index amount s stats stats' found (suc i) s' h =
    let e : (suc i == suc index) ≡ (i == index) = ground arith in rw e (found i s' h)

get_elem?-grow_at :
    (index amount : ℕ) (stats : List DistributionStat)
    → index < length stats
    → (stats' : List DistributionStat) × (grow_at index amount stats ≡ some stats')
      × (length stats' ≡ length stats)
      × ((i : ℕ) (s : DistributionStat)
          → get_elem? stats i ≡ some s
          → get_elem? stats' i ≡ some (grown_at i index amount s))
get_elem?-grow_at index amount [] h = absurd (omega arith)
get_elem?-grow_at zero amount (s ∷ stats) h =
    (grow_stat amount s ∷ stats, refl, refl, get_elem?-first amount s stats)
get_elem?-grow_at (suc index) amount (s ∷ stats) h =
    let (stats', grown, size, found) = get_elem?-grow_at index amount stats (omega arith) in
    (s ∷ stats', rw grown refl, ap suc size, get_elem?-later index amount s stats stats' found)

get_elem?-no_stats : (n i : ℕ) → i < n → get_elem? (no_stats n) i ≡ some (stat_of 0 0)
get_elem?-no_stats zero i h = absurd (omega arith)
get_elem?-no_stats (suc n) zero h = refl
get_elem?-no_stats (suc n) (suc i) h = get_elem?-no_stats n i (omega arith)

length-no_stats : (n : ℕ) → length (no_stats n) ≡ n
length-no_stats zero = refl
length-no_stats (suc n) = ap suc (length-no_stats n)

-- one amount more in its range
grown_at-stat_of :
    (i index amount c t : ℕ)
    → 10 ^ index ≤ amount
    → amount < 10 ^ suc index
    → grown_at i index amount (stat_of c t)
      ≡ stat_of
          ((if in_range i amount then 1 else 0) + c)
          ((if in_range i amount then amount else 0) + t)
grown_at-stat_of i index amount c t lo hi =
    rw (in_range-eq i index amount lo hi) (elim (Bool-cases (i == index)) [
      | inl same ↦ rw same (grow_stat-stat_of amount c t)
      | inr other ↦
          let p : 0 + c ≡ c = omega arith in
          let q : 0 + t ≡ t = omega arith in rw (other, p, q) refl
    ])

add_swap : (n m k : ℕ) → m + (n + k) ≡ n + m + k
add_swap n m k = omega arith

add_zero : (n : ℕ) → n + 0 ≡ n
add_zero n = omega arith

get_elem?-distribute :
    (supply top : ℕ) (balances : Dict Address ℕ) (stats : List DistributionStat)
    → AreWithin supply balances
    → supply < 10 ^ suc top
    → supply < 10 ^ 20
    → length stats ≡ suc top
    → (stats' : List DistributionStat) × (distribute balances stats ≡ some stats')
      × ((i c t : ℕ)
          → get_elem? stats i ≡ some (stat_of c t)
          → get_elem? stats' i ≡ some (stat_of (count_in i balances + c) (sum_in i balances + t)))
get_elem?-distribute supply top [] stats h below few size = (
  stats,
  refl,
  λ i c t e. let p : 0 + c ≡ c = omega arith in let q : 0 + t ≡ t = omega arith in rw (p, q) e,
)
get_elem?-distribute supply top ((a, amount) ∷ balances) stats (positive, within, h) below few
      size =
    let index = digits_after 20 amount in
    let (lo, hi) = digits_after-bounds 20 amount positive (omega arith) in
    let fits = exponent_le index top amount lo (omega arith) in
    let (mid, grown, same, found) = get_elem?-grow_at index amount stats (omega arith) in
    let (stats', all, result) =
      get_elem?-distribute supply top balances mid h below few (same ∙ size) in
    let nonzero : (amount == 0) ≡ false = ground arith in
    (
      stats',
      rw (nonzero, grown) all,
      λ i c t e.
          let n = if in_range i amount then 1 else 0 in
          let w = if in_range i amount then amount else 0 in
          result i (n + c) (w + t)
            (found i (stat_of c t) e ∙ ap some (grown_at-stat_of i index amount c t lo hi))
          ∙ ap₂ (λ x y. some (stat_of x y)) (add_swap n (count_in i balances) c)
              (add_swap w (sum_in i balances) t),
    )

-- When every balance is positive and at most the token supply, which is positive and has 64 bits,
-- the measurement does not panic: it counts the addresses, and for every range
-- `[10^i..10^(i+1))` that the supply reaches, its stat has the number of the addresses whose
-- balance is in the range, and the sum of their balances, modulo 2^64.
pub take_measurement-distribution :
    (s : AddressBalancesAnalytics) (ctx : AnalyticsContext)
    → 0 < ctx.protocol_params.token_supply
    → ctx.protocol_params.token_supply < u64_mod
    → AreWithin ctx.protocol_params.token_supply s.balances
    → (m : AddressBalanceMeasurement) × (take_measurement s ctx ≡ some m)
      × (m.address_with_balance_count ≡ length s.balances)
      × ((i : ℕ)
          → 10 ^ i ≤ ctx.protocol_params.token_supply
          → get_elem? m.token_distribution i
            ≡ some record {
              address_count = count_in i s.balances % u64_mod;
              total_amount = sum_in i s.balances % u64_mod;
            })
unfolding take_measurement
take_measurement-distribution s ctx positive fits within =
    let supply = ctx.protocol_params.token_supply in
    let top = digits_after 20 supply in
    let (lo, hi) = digits_after-bounds 20 supply positive (omega arith) in
    let (stats, all, result) =
      get_elem?-distribute supply top s.balances (no_stats (suc top)) within hi (omega arith)
        (length-no_stats (suc top)) in
    let nonzero : (supply == 0) ≡ false = ground arith in
    (
      record { address_with_balance_count = length s.balances; token_distribution = stats },
      rw (nonzero, all) refl,
      refl,
      λ i reached.
          result i 0 0 (
            get_elem?-no_stats (suc top) i
              (let p = exponent_le i top supply reached hi in omega arith))
          ∙ ap₂ (λ x y. some (stat_of x y)) (add_zero (count_in i s.balances))
              (add_zero (sum_in i s.balances)),
    )
