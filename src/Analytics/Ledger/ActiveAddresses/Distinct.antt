-- ===== src/Analytics/Ledger/ActiveAddresses/Distinct.antt =====
-- The addresses counted are those that own an output of a transaction, each once.
use inx_chronicle.Common.{◌≡◌, ◌∙◌, Bool, false, ◌||◌, Option, none, some, List, [], ◌∷◌, arith}
use mathlib.Core.List.{foldl}
use inx_chronicle.Model.Address.{Address, address_beq, address_beq_iff}
use inx_chronicle.Model.Ledger.{LedgerOutput, LedgerSpent, owning_address}
use inx_chronicle.Analytics.Update.{spent_outputs}
use inx_chronicle.Analytics.Ledger.ActiveAddresses.{
  AddressActivityAnalytics, has_address, insert_owner, insert_output, handle_transaction,
}

abbrev pub IsDistinct : List Address → Type 0
IsDistinct [] = Unit
IsDistinct (a ∷ as') = (has_address a as' ≡ false) × IsDistinct as'

abbrev pub is_owner : Address → Option Address → Bool
is_owner a none = false
is_owner a (some b) = address_beq a b

-- the address owns one of the outputs
abbrev pub owns_any : Address → List LedgerOutput → Bool
owns_any a [] = false
owns_any a (o ∷ os) = is_owner a (owning_address o) || owns_any a os

insert_owner-IsDistinct :
    (bs : List Address) (o : Option Address) → IsDistinct bs → IsDistinct (insert_owner bs o)
insert_owner-IsDistinct bs none h = h
insert_owner-IsDistinct bs (some a) h = ground arith

has_address-insert_owner :
    (a : Address) (bs : List Address) (o : Option Address)
    → has_address a (insert_owner bs o) ≡ (has_address a bs || is_owner a o)
has_address-insert_owner a bs none = ground arith
has_address-insert_owner a bs (some b) = ground (arith, address_beq_iff a b)

foldl-insert_output :
    (bs : List Address) (os : List LedgerOutput)
    → IsDistinct bs
    → IsDistinct (foldl insert_output bs os)
      × ((a : Address)
          → has_address a (foldl insert_output bs os) ≡ (has_address a bs || owns_any a os))
foldl-insert_output bs [] h = (h, λ a. ground arith)
foldl-insert_output bs (o ∷ os) h =
    let (d, e) =
      foldl-insert_output (insert_output bs o) os
        (insert_owner-IsDistinct bs (owning_address o) h) in
    (d, λ a. e a ∙ (rw (has_address-insert_owner a bs (owning_address o)) (ground arith)))

-- After a transaction the addresses are still without repetition, so that their number is that of
-- different addresses: those from before, and those that own a consumed or a created output.
pub handle_transaction-IsDistinct :
    (s : AddressActivityAnalytics) (consumed : List LedgerSpent) (created : List LedgerOutput)
    → IsDistinct s.addresses
    → IsDistinct (handle_transaction s consumed created).addresses
      × ((a : Address)
          → has_address a (handle_transaction s consumed created).addresses ≡ (
              has_address a s.addresses
              || (owns_any a (spent_outputs consumed) || owns_any a created)))
unfolding handle_transaction
handle_transaction-IsDistinct s consumed created h =
    let (d1, e1) = foldl-insert_output s.addresses (spent_outputs consumed) h in
    let (d2, e2) =
      foldl-insert_output (foldl insert_output s.addresses (spent_outputs consumed)) created d1 in
    (d2, λ a. e2 a ∙ (rw (e1 a) (ground arith)))
