-- ===== src/Analytics/Milestone/Resolve.antt =====
-- What the transaction of a block is resolved to by the ledger updates of its milestone.
use inx_chronicle.Common.{
  ℕ, ◌+◌, ◌≡◌, sym, ◌∙◌, ap, ap₂, Option, none, some, List, [], ◌∷◌, map, arith,
}
use inx_chronicle.Common.Bytes.{Bytes}
use inx_chronicle.Common.Run.{ok, ok_or, >>=-ok_cases, ok-injective}
use inx_chronicle.Model.Address.{OutputId, output_id_beq_iff}
use inx_chronicle.Model.Output.{Output}
use inx_chronicle.Model.Block.{
  Input, transaction_payload, TransactionEssence, OptionPayload, Unlock,
}
use inx_chronicle.Model.Ledger.{LedgerOutput, LedgerSpent}
use inx_chronicle.Tangle.LedgerUpdates.{init, spent_id, created_id, get_created, get_consumed}
use inx_chronicle.Tangle.LedgerUpdates.Retrieve.{last_with, get_init}
use inx_chronicle.Analytics.Milestone.{
  Report, collect_consumed, collect_created, nth_output_id, utxo_ids, resolve,
}

last_with-id :
    {A : Type 0} (id : A → OutputId) (i : OutputId) (xs : List A) (y : A)
    → last_with id i xs ≡ some y
    → id y ≡ i
last_with-id id i [] y h = cc
last_with-id id i (x ∷ xs) y h = ground (arith, last_with-id id i xs y, output_id_beq_iff i (id x))

-- the ids of the outputs of a transaction, from position `index` on
abbrev pub created_ids : Bytes → ℕ → List Output → List OutputId
created_ids transaction_id index [] = []
created_ids transaction_id index (o ∷ outputs) =
    nth_output_id transaction_id index ∷ created_ids transaction_id (index + 1) outputs

ok_or-ok : {E A : Type 0} (o : Option A) (e : E) (a : A) → ok_or o e ≡ ok a → o ≡ some a
ok_or-ok none e a h = absurd (cc)
ok_or-ok (some b) e a h = cc

module _ {E : Type 0} (spent : List LedgerSpent) (created : List LedgerOutput) (index : ℕ) where
  spent_found :
      (i : OutputId) (o : Option LedgerSpent) (s : LedgerSpent) (e : Report E)
      → get_consumed {E = Report E} (init spent created) i ≡ ok o
      → ok_or o e ≡ ok s
      → spent_id s ≡ i
  spent_found i o s e h k =
      let (g, _) = get_init {E = Report E} spent created i in
      last_with-id spent_id i spent s (ok-injective (sym g ∙ h) ∙ ok_or-ok o e s k)

  created_found :
      (i : OutputId) (o : Option LedgerOutput) (s : LedgerOutput) (e : Report E)
      → get_created {E = Report E} (init spent created) i ≡ ok o
      → ok_or o e ≡ ok s
      → created_id s ≡ i
  created_found i o s e h k =
      let (_, g) = get_init {E = Report E} spent created i in
      last_with-id created_id i created s (ok-injective (sym g ∙ h) ∙ ok_or-ok o e s k)

  collect_consumed-ids :
      (ids : List OutputId) (found : List LedgerSpent)
      → collect_consumed {E = E} (init spent created) index ids ≡ ok found
      → map spent_id found ≡ ids
  collect_consumed-ids [] found h = ap (map spent_id) (sym (ok-injective h))
  collect_consumed-ids (i ∷ ids) found h =
      >>=-ok_cases (get_consumed (init spent created) i) _ h λ o e1 h1.
        >>=-ok_cases (ok_or o _) _ h1 λ s e2 h2.
          >>=-ok_cases (collect_consumed {E = E} (init spent created) index ids) _ h2 λ rest e3 h3.
            ap (map spent_id) (sym (ok-injective h3))
            ∙ ap₂ (λ j js. j ∷ js) (spent_found i o s _ e1 e2) (collect_consumed-ids ids rest e3)

  collect_created-ids :
      (t : Bytes) (n : ℕ) (outputs : List Output) (found : List LedgerOutput)
      → collect_created {E = E} (init spent created) index t n outputs ≡ ok found
      → map created_id found ≡ created_ids t n outputs
  collect_created-ids t n [] found h = ap (map created_id) (sym (ok-injective h))
  collect_created-ids t n (out ∷ outputs) found h =
      >>=-ok_cases (get_created (init spent created) (nth_output_id t n)) _ h λ o e1 h1.
        >>=-ok_cases (ok_or o _) _ h1 λ s e2 h2.
          >>=-ok_cases (collect_created {E = E} (init spent created) index t (n + 1) outputs) _ h2
            λ rest e3 h3.
              ap (map created_id) (sym (ok-injective h3))
              ∙ ap₂ (λ j js. j ∷ js) (created_found (nth_output_id t n) o s _ e1 e2)
                  (collect_created-ids t (n + 1) outputs rest e3)

  -- When a transaction is resolved by a store that was initialised, its consumed outputs are those
  -- that its UTXO inputs name, in their order, and its created outputs are those with the
  -- transaction's id and the positions of its outputs, in their order; the position is cut to 16 bits.
  pub resolve-ids :
      (t : Bytes) (network_id : ℕ) (inputs : List Input) (commitment : Bytes)
      (outputs : List Output) (p : OptionPayload) (unlocks : List Unlock)
      (consumed : List LedgerSpent) (created' : List LedgerOutput)
      → resolve {E = E} (init spent created) index (
          transaction_payload t
            (TransactionEssence.regular network_id inputs commitment outputs p)
            unlocks)
        ≡ ok (consumed, created')
      → (map spent_id consumed ≡ utxo_ids inputs)
        × (map created_id created' ≡ created_ids t 0 outputs)
  unfolding resolve
  resolve-ids t network_id inputs commitment outputs p unlocks consumed created' h =
      >>=-ok_cases (collect_consumed {E = E} (init spent created) index (utxo_ids inputs)) _ h
        λ cs e1 h1.
          >>=-ok_cases (collect_created {E = E} (init spent created) index t 0 outputs) _ h1
            λ ds e2 h2.
              let r = ok-injective h2 in
              (
                ap (map spent_id) (sym (ap (λ q. q.0) r))
                    ∙ collect_consumed-ids (utxo_ids inputs) cs e1,
                ap (map created_id) (sym (ap (λ q. q.1) r)) ∙ collect_created-ids t 0 outputs ds e2,
              )
