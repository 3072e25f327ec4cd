-- ===== src/Analytics/Ledger/BaseToken/Booked.antt =====
-- The amount that a transaction books, and the deltas of the addresses.
use inx_chronicle.Common.{
  ℕ, ◌+◌, ◌-◌, ◌%◌, Option, none, some, List, [], ◌∷◌, ◌≡◌, refl, arith, ◌∙◌, ap, subst, true,
  Bool-cases, inl, inr,
}
use inx_chronicle.Common.Words.{u64_mod}
use inx_chronicle.Common.Totals.{total}
use inx_chronicle.Common.Dict.{Dict, lookup, insert, lookup-insert, IsDistinct, insert-IsDistinct}
use mathlib.Core.List.{foldl}
use inx_chronicle.Model.Address.{Address, address_eq, address_beq, address_beq_iff}
use inx_chronicle.Model.Ledger.{LedgerOutput, LedgerSpent, amount, owning_address}
use inx_chronicle.Analytics.Update.{spent_outputs}
use inx_chronicle.Analytics.Ledger.AddressBalance.{or_default}
use inx_chronicle.Analytics.Ledger.AddressBalance.Represents.{owned, share}
use inx_chronicle.Analytics.Ledger.BaseToken.{
  BaseTokenActivityMeasurement, i128_mod, add_delta, sub_delta, add_created, sub_consumed,
  sum_values, handle_transaction,
}

abbrev given : Option Address → ℕ → ℕ
given none n = 0
given (some a) n = n

-- the amount that an output gives to some address
abbrev pub owned_amount : LedgerOutput → ℕ
owned_amount o = given (owning_address o) (amount o)

sum_values-insert :
    (a : Address) (x v : ℕ) (d : Dict Address ℕ)
    → or_default (lookup a d) ≡ v
    → sum_values (insert a ((v + x) % i128_mod) d) ≡ (sum_values d + x) % i128_mod
sum_values-insert a x v [] e = let z : 0 ≡ v = e in omega (arith, z)
sum_values-insert a x v ((b, w) ∷ d) e = elim (Bool-cases (address_beq a b)) [
  | inl same ↦ let z : w ≡ v = rw same at e in rw same (omega (arith, z))
  | inr other ↦ rw (other, sum_values-insert a x v d (rw other at e)) (omega arith)
]

add_assoc : (n m k : ℕ) → n + m + k ≡ n + (m + k)
add_assoc n m k = omega arith

sum_values-add_delta :
    (d : Dict Address ℕ) (o : Option Address) (x n : ℕ)
    → sum_values d ≡ n % i128_mod
    → sum_values (add_delta d o x) ≡ (n + given o x) % i128_mod
sum_values-add_delta d none x n e = rw e (omega arith)
sum_values-add_delta d (some a) x n e =
    rw (sum_values-insert a x (or_default (lookup a d)) d refl, e) (omega arith)

sum_values-gathered :
    (d : Dict Address ℕ) (os : List LedgerOutput) (n : ℕ)
    → sum_values d ≡ n % i128_mod
    → sum_values (foldl add_created d os) ≡ (n + total owned_amount os) % i128_mod
sum_values-gathered d [] n e = rw e (omega arith)
sum_values-gathered d (o ∷ os) n e =
    sum_values-gathered (add_created d o) os (n + owned_amount o)
      (sum_values-add_delta d (owning_address o) (amount o) n e)
    ∙ ap (λ k. k % i128_mod) (add_assoc n (owned_amount o) (total owned_amount os))

abbrev pub value : Address → Dict Address ℕ → ℕ
value a d = or_default (lookup a d)

same_value :
    (a b : Address) (d : Dict Address ℕ) (n : ℕ)
    → address_beq a b ≡ true
    → value a d ≡ n % i128_mod
    → value b d ≡ n % i128_mod
same_value a b d n same e = subst (λ k. value k d ≡ n % i128_mod) ((address_beq_iff a b).0 same) e

value-add_delta :
    (a : Address) (d : Dict Address ℕ) (o : Option Address) (x n : ℕ)
    → value a d ≡ n % i128_mod
    → value a (add_delta d o x) ≡ (n + share a o x) % i128_mod
value-add_delta a d none x n e = rw e (omega arith)
value-add_delta a d (some b) x n e = elim (Bool-cases (address_beq a b)) [
  | inl same ↦
      rw
        (
          lookup-insert a b ((or_default (lookup b d) + x) % i128_mod) d,
          same,
          same_value a b d n same e,
        )
        (omega arith)
  | inr other ↦
      rw (lookup-insert a b ((or_default (lookup b d) + x) % i128_mod) d, other, e) (omega arith)
]

value-sub_delta :
    (a : Address) (d : Dict Address ℕ) (o : Option Address) (x n : ℕ)
    → value a d ≡ n % i128_mod
    → value a (sub_delta d o x) ≡ (n + (i128_mod - share a o x % i128_mod)) % i128_mod
value-sub_delta a d none x n e = rw e (omega arith)
value-sub_delta a d (some b) x n e = elim (Bool-cases (address_beq a b)) [
  | inl same ↦
      rw
        (
          lookup-insert a b ((or_default (lookup b d) + i128_mod - x % i128_mod) % i128_mod) d,
          same,
          same_value a b d n same e,
        )
        (omega arith)
  | inr other ↦
      rw
        (
          lookup-insert a b ((or_default (lookup b d) + i128_mod - x % i128_mod) % i128_mod) d,
          other,
          e,
        )
        (omega arith)
]

value-gathered :
    (a : Address) (d : Dict Address ℕ) (os : List LedgerOutput) (n : ℕ)
    → value a d ≡ n % i128_mod
    → value a (foldl add_created d os) ≡ (n + total (owned a) os) % i128_mod
value-gathered a d [] n e = rw e (omega arith)
value-gathered a d (o ∷ os) n e =
    value-gathered a (add_created d o) os (n + owned a o)
      (value-add_delta a d (owning_address o) (amount o) n e)
    ∙ ap (λ k. k % i128_mod) (add_assoc n (owned a o) (total (owned a) os))

take_both :
    (n x t : ℕ)
    → (n + (i128_mod - x % i128_mod) + (i128_mod - t % i128_mod)) % i128_mod
      ≡ (n + (i128_mod - (x + t) % i128_mod)) % i128_mod
take_both n x t = omega arith

value-consumed :
    (a : Address) (d : Dict Address ℕ) (os : List LedgerOutput) (n : ℕ)
    → value a d ≡ n % i128_mod
    → value a (foldl sub_consumed d os)
      ≡ (n + (i128_mod - total (owned a) os % i128_mod)) % i128_mod
value-consumed a d [] n e = rw e (omega arith)
value-consumed a d (o ∷ os) n e =
    value-consumed a (sub_consumed d o) os (n + (i128_mod - owned a o % i128_mod))
      (value-sub_delta a d (owning_address o) (amount o) n e)
    ∙ take_both n (owned a o) (total (owned a) os)

add_delta-IsDistinct :
    (d : Dict Address ℕ) (o : Option Address) (x : ℕ) → IsDistinct d → IsDistinct (add_delta d o x)
add_delta-IsDistinct d none x h = h
add_delta-IsDistinct d (some a) x h = insert-IsDistinct a _ d h

sub_delta-IsDistinct :
    (d : Dict Address ℕ) (o : Option Address) (x : ℕ) → IsDistinct d → IsDistinct (sub_delta d o x)
sub_delta-IsDistinct d none x h = h
sub_delta-IsDistinct d (some a) x h = insert-IsDistinct a _ d h

gathered-IsDistinct :
    (d : Dict Address ℕ) (os : List LedgerOutput)
    → IsDistinct d
    → IsDistinct (foldl add_created d os)
gathered-IsDistinct d [] h = h
gathered-IsDistinct d (o ∷ os) h =
    gathered-IsDistinct (add_created d o) os
      (add_delta-IsDistinct d (owning_address o) (amount o) h)

consumed-IsDistinct :
    (d : Dict Address ℕ) (os : List LedgerOutput)
    → IsDistinct d
    → IsDistinct (foldl sub_consumed d os)
consumed-IsDistinct d [] h = h
consumed-IsDistinct d (o ∷ os) h =
    consumed-IsDistinct (sub_consumed d o) os
      (sub_delta-IsDistinct d (owning_address o) (amount o) h)

from_zero : (n : ℕ) → 0 + n ≡ n
from_zero n = omega arith

booked_sum : (b t v : ℕ) → v ≡ (0 + t) % i128_mod → (b + v % u64_mod) % u64_mod ≡ (b + t) % u64_mod
booked_sum b t v e = rw e (omega arith)

-- The booked amount grows by the amounts of all created outputs that have an owner, modulo 2^64.
pub handle_transaction-booked :
    (m : BaseTokenActivityMeasurement) (consumed : List LedgerSpent) (created : List LedgerOutput)
    → (handle_transaction m consumed created).booked_amount
      ≡ (m.booked_amount + total owned_amount created) % u64_mod
unfolding handle_transaction
handle_transaction-booked m consumed created =
    booked_sum m.booked_amount (total owned_amount created)
      (sum_values (foldl add_created [] created)) (sum_values-gathered [] created 0 (omega arith))

-- The deltas of a transaction have one entry for an address. The entry of an address, 0 where there
-- is none, is what it owns of the created outputs less what it owned of the consumed ones, modulo
-- 2^128.
pub deltas-value :
    (consumed : List LedgerSpent) (created : List LedgerOutput)
    → let deltas = foldl sub_consumed (foldl add_created [] created) (spent_outputs consumed) in
      IsDistinct deltas
      × ((a : Address)
          → value a deltas
            ≡ (total (owned a) created
                + (i128_mod - total (owned a) (spent_outputs consumed) % i128_mod))
              % i128_mod)
deltas-value consumed created =
    let gathered = foldl add_created [] created in
    (
      consumed-IsDistinct gathered (spent_outputs consumed) (gathered-IsDistinct [] created tt),
      λ a.
          value-consumed a gathered (spent_outputs consumed) (total (owned a) created)
            (value-gathered a [] created 0 (omega arith) ∙ ap (λ k. k % i128_mod) (from_zero _)),
    )
