-- ===== src/Analytics/Counts.antt =====
-- `CountAndAmount` of src/analytics/ledger/mod.rs: a count of outputs and the sum of their amounts,
-- both modulo 2^64.
use inx_chronicle.Common.{
  ℕ, ◌+◌, ◌%◌, ◌≡◌, ◌∙◌, inl, inr, Bool, List, [], ◌∷◌, arith, if◌then◌else◌, Bool-cases,
}
use mathlib.Core.List.{foldl}
use inx_chronicle.Common.Words.{
  u64_mod, wrapping_add, wrapping_sub, wrapping_sub-wrapping_add, wrapping_add-wrapping_sub,
  wrapping_sub_first,
}
use inx_chronicle.Common.Totals.{total}
use inx_chronicle.Model.Ledger.{LedgerOutput, LedgerSpent, amount}
use inx_chronicle.Analytics.Update.{UpdatesTo, spent_outputs, total-UpdatesTo}

pub record CountAndAmount : Type 0 where
  pub count : ℕ
  pub amount : ℕ

abbrev pub no_outputs : CountAndAmount
no_outputs = record { count = 0; amount = 0 }

-- `CountAndAmount::wrapping_add`
unfoldable pub add_counts : CountAndAmount → CountAndAmount → CountAndAmount
add_counts a b = record {
  count = wrapping_add a.count b.count;
  amount = wrapping_add a.amount b.amount;
}

-- `CountAndAmount::wrapping_sub`
unfoldable pub sub_counts : CountAndAmount → CountAndAmount → CountAndAmount
sub_counts a b = record {
  count = wrapping_sub a.count b.count;
  amount = wrapping_sub a.amount b.amount;
}

-- `CountAndAmount::add_output`
unfoldable pub add_output : CountAndAmount → LedgerOutput → CountAndAmount
add_output a o = record {
  count = wrapping_add a.count 1;
  amount = wrapping_add a.amount (amount o);
}

-- The same with `-=`, as loops over consumed outputs write it.
unfoldable pub sub_output : CountAndAmount → LedgerOutput → CountAndAmount
sub_output a o = record {
  count = wrapping_sub a.count 1;
  amount = wrapping_sub a.amount (amount o);
}

-- The outputs with a property, counted, and their amounts.
abbrev pub one_if : (LedgerOutput → Bool) → LedgerOutput → ℕ
one_if p o = if p o then 1 else 0

abbrev pub amount_if : (LedgerOutput → Bool) → LedgerOutput → ℕ
amount_if p o = if p o then amount o else 0

abbrev pub residues : ℕ → ℕ → CountAndAmount
residues n m = record { count = n % u64_mod; amount = m % u64_mod }

unfoldable pub tally : (LedgerOutput → Bool) → List LedgerOutput → CountAndAmount
tally p os = residues (total (one_if p) os) (total (amount_if p) os)

-- A field of the state of a loop over outputs that takes up the outputs with a property.
pub foldl_tally :
    {S : Type 0} (field : S → CountAndAmount) (step : S → LedgerOutput → S)
    (p : LedgerOutput → Bool)
    → ((s : S) (o : LedgerOutput)
        → field (step s o) ≡ (if p o then add_output (field s) o else field s))
    → (s : S) (os : List LedgerOutput) (n m : ℕ) → field s ≡ residues n m
    → field (foldl step s os) ≡ residues (n + total (one_if p) os) (m + total (amount_if p) os)
unfolding add_output
foldl_tally field step p law s [] n m e = rw e (ground arith)
foldl_tally field step p law s (o ∷ os) n m e = elim (Bool-cases (p o)) [
  | inl yes' ↦
      let t =
        foldl_tally field step p law (step s o) os (n + 1) (m + amount o)
          (rw (law s o, yes', e) (ground arith)) in
      rw (t, yes') (ground arith)
  | inr no' ↦
      let t = foldl_tally field step p law (step s o) os n m (rw (law s o, no', e)) in
      rw (t, no') (ground arith)
]

-- From an empty field the loop tallies the outputs with the property.
pub foldl-tally_all :
    {S : Type 0} (field : S → CountAndAmount) (step : S → LedgerOutput → S)
    (p : LedgerOutput → Bool)
    → ((s : S) (o : LedgerOutput)
        → field (step s o) ≡ (if p o then add_output (field s) o else field s))
    → (s : S) (os : List LedgerOutput) → field s ≡ no_outputs
    → field (foldl step s os) ≡ tally p os
unfolding tally
foldl-tally_all field step p law s os e =
    foldl_tally field step p law s os 0 0 (e ∙ ground arith) ∙ ground arith

-- A loop that takes the outputs with a property away again.
pub foldl_untally :
    {S : Type 0} (field : S → CountAndAmount) (step : S → LedgerOutput → S)
    (p : LedgerOutput → Bool)
    → ((s : S) (o : LedgerOutput)
        → field (step s o) ≡ (if p o then sub_output (field s) o else field s))
    → (s : S) (os : List LedgerOutput) (n m : ℕ)
    → field s ≡ residues (n + total (one_if p) os) (m + total (amount_if p) os)
    → field (foldl step s os) ≡ residues n m
unfolding sub_output
foldl_untally field step p law s [] n m e = rw e (ground arith)
foldl_untally field step p law s (o ∷ os) n m e = elim (Bool-cases (p o)) [
  | inl yes' ↦ foldl_untally field step p law (step s o) os n m (
      rw (law s o, yes', e, yes')
        (λ i. record {
          count = wrapping_sub_first n 1 (total (one_if p) os) i;
          amount = wrapping_sub_first m (amount o) (total (amount_if p) os) i;
        }))
  | inr no' ↦
      foldl_untally field step p law (step s o) os n m (rw (law s o, no', e, no') (ground arith))
]

module _ (p : LedgerOutput → Bool) (unspent : List LedgerOutput) (consumed : List LedgerSpent)
    (created unspent' : List LedgerOutput)
    (update : UpdatesTo unspent consumed created unspent') where
  -- taking the consumed outputs away and adding the created ones
  pub tally_sub_add :
      add_counts (sub_counts (tally p unspent) (tally p (spent_outputs consumed))) (tally p created)
      ≡ tally p unspent'
  unfolding add_counts sub_counts tally
  tally_sub_add =
      let c = total-UpdatesTo (one_if p) unspent consumed created unspent' update in
      let a = total-UpdatesTo (amount_if p) unspent consumed created unspent' update in
      λ i. record {
        count = wrapping_add-wrapping_sub _ _ _ _ c i;
        amount = wrapping_add-wrapping_sub _ _ _ _ a i;
      }

  -- the same in the other order
  pub tally_add_sub :
      sub_counts (add_counts (tally p unspent) (tally p created)) (tally p (spent_outputs consumed))
      ≡ tally p unspent'
  unfolding add_counts sub_counts tally
  tally_add_sub =
      let c = total-UpdatesTo (one_if p) unspent consumed created unspent' update in
      let a = total-UpdatesTo (amount_if p) unspent consumed created unspent' update in
      λ i. record {
        count = wrapping_sub-wrapping_add _ _ _ _ c i;
        amount = wrapping_sub-wrapping_add _ _ _ _ a i;
      }
