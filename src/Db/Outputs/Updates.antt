-- ===== src/Db/Outputs/Updates.antt =====
-- The ledger updates of a milestone that were written to the database, read from it again: the
-- sources src/tangle/sources/{inx,mongodb}.rs.
use inx_chronicle.Common.{
  ℕ, ◌⊎◌, ◌≢◌, false, List, ◌≡◌, ◌∙◌, refl, sym, ap, Option, none, some, inl, inr, arith, ◌==◌,
  ==_iff,
}
use inx_chronicle.Common.Bytes.{Bytes}
use inx_chronicle.Common.Run.{ok}
use inx_chronicle.Model.Address.{OutputId}
use inx_chronicle.Model.Ledger.{LedgerOutput, LedgerSpent, SpentMetadata}
use inx_chronicle.Tangle.LedgerUpdates.{init, get_created, get_consumed, spent_id, created_id}
use inx_chronicle.Tangle.LedgerUpdates.Retrieve.{last_with, get_init}
use inx_chronicle.Tangle.MongoDb.{ledger_updates}
use inx_chronicle.Db.Outputs.{
  OutputDocument, from_output, from_spent, insert_unspent_outputs, when, update_spent_outputs,
  find_doc, with_doc, created_at, consumed_at, is_spent_at, get_created_outputs,
  get_consumed_outputs, spent_with,
}
use inx_chronicle.Db.Outputs.Writes.{or_else}
use inx_chronicle.Db.Outputs.Order.{HasDistinctIds, map_some}
use inx_chronicle.Db.Outputs.Search.{when-eq, IsUnique, last_with-filter_map}
use inx_chronicle.Db.Outputs.Stored.{
  find-milestone, insert_unspent_outputs-IsUnique, update_spent_outputs-IsUnique,
}

-- The outputs that the milestone `index` created and consumed, and a collection that has none of its
-- changes yet: ids are different; a created output is booked at the milestone and new; a consumed
-- output is spent at the milestone, and is a created one or booked at another milestone.
pub record IsNext (index : ℕ) (created : List LedgerOutput) (consumed : List LedgerSpent)
    (docs : List OutputDocument) : Type 0 where
  pub created_distinct : HasDistinctIds created_id created
  pub unique : IsUnique docs
  pub created_booked :
      (k : OutputId) (o : LedgerOutput)
      → last_with created_id k created ≡ some o
      → (o.booked.milestone_index ≡ index) × (find_doc k docs ≡ none)
  pub consumed_spent :
      (k : OutputId) (s : LedgerSpent)
      → last_with spent_id k consumed ≡ some s
      → (s.spent_metadata.spent.milestone_index ≡ index)
        × ((last_with created_id k created ≡ some s.output)
            ⊎ ((last_with created_id k created ≡ none) × (s.output.booked.milestone_index ≢ index)))
  pub stored_before :
      (k : OutputId) (d : OutputDocument)
      → find_doc k docs ≡ some d
      → (d.metadata.booked.milestone_index ≢ index)
        × (is_spent_at index d.metadata.spent_metadata ≡ false)

module _ (digest : Bytes → Bytes) where
  when_same : {A : Type 0} (m n : ℕ) (a : A) → m ≡ n → when (m == n) a ≡ some a
  when_same m n a h = rw ((==_iff m n).1 h) refl

  when_other : {A : Type 0} (m n : ℕ) (a : A) → m ≢ n → when (m == n) a ≡ none
  when_other m n a h = ground (arith, ==_iff m n)

  spent_with_other :
      (index : ℕ) (o : LedgerOutput) (m : Option SpentMetadata)
      → is_spent_at index m ≡ false
      → spent_with index o m ≡ none
  spent_with_other index o none h = refl
  spent_with_other index o (some m) h = rw h refl

  module _ (index : ℕ) (created : List LedgerOutput) (consumed : List LedgerSpent)
      (docs : List OutputDocument) (next : IsNext index created consumed docs) where
    created_after :
        (k : OutputId) (s : Option LedgerSpent) (d : Option OutputDocument)
        (o : Option LedgerOutput)
        → last_with spent_id k consumed ≡ s
        → find_doc k docs ≡ d
        → last_with created_id k created ≡ o
        → with_doc
            (created_at index)
            (or_else (map_some (from_spent digest) s) (or_else d (map_some (from_output digest) o)))
          ≡ o
    unfolding from_spent from_output
    created_after k (some s) d o hs hd ho = elim (next.consumed_spent k s hs).1 [
      | inl both ↦
          when_same s.output.booked.milestone_index index s.output
            (next.created_booked k s.output both).0
          ∙ sym both
          ∙ ho
      | inr (absent, other) ↦
          when_other s.output.booked.milestone_index index s.output other ∙ sym absent ∙ ho
    ]
    created_after k none (some d) none hs hd ho =
        when_other d.metadata.booked.milestone_index index _ (next.stored_before k d hd).0
    created_after k none (some d) (some o) hs hd ho =
        absurd (cc ((next.created_booked k o ho).1, hd))
    created_after k none none (some o) hs hd ho =
        when_same o.booked.milestone_index index o (next.created_booked k o ho).0
    created_after k none none none hs hd ho = refl

    consumed_after :
        (k : OutputId) (s : Option LedgerSpent) (d : Option OutputDocument)
        (o : Option LedgerOutput)
        → last_with spent_id k consumed ≡ s
        → find_doc k docs ≡ d
        → with_doc
            (consumed_at index)
            (or_else (map_some (from_spent digest) s) (or_else d (map_some (from_output digest) o)))
          ≡ s
    unfolding from_spent from_output
    consumed_after k (some s) d o hs hd =
        when_same s.spent_metadata.spent.milestone_index index s (next.consumed_spent k s hs).0
    consumed_after k none (some d) o hs hd =
        spent_with_other index _ d.metadata.spent_metadata (next.stored_before k d hd).1
    consumed_after k none none none hs hd = refl
    consumed_after k none none (some o) hs hd = refl

  created_at-id :
      (index : ℕ) (d : OutputDocument) (o : LedgerOutput)
      → created_at index d ≡ some o
      → created_id o ≡ d.output_id
  created_at-id index d o h = ap created_id (when-eq (d.metadata.booked.milestone_index == index) h)

  spent_with-id :
      (index : ℕ) (o : LedgerOutput) (m : Option SpentMetadata) (s : LedgerSpent)
      → spent_with index o m ≡ some s
      → spent_id s ≡ o.output_id
  spent_with-id index o none s h = cc
  spent_with-id index o (some m) s h = ap spent_id (when-eq (m.spent.milestone_index == index) h)

  -- When the outputs that a milestone created and consumed are written to a collection that has none
  -- of its changes yet, the ledger updates of the milestone that are read from the collection give
  -- for every id the consumed and the created output that the written ones give.
  pub ledger_updates-stored :
      {E : Type 0} (index : ℕ) (created : List LedgerOutput) (consumed : List LedgerSpent)
      (docs : List OutputDocument) (id : OutputId)
      → IsNext index created consumed docs
      → (get_consumed {E = E}
            (ledger_updates
              (update_spent_outputs digest consumed (insert_unspent_outputs digest created docs))
              index)
            id
          ≡ get_consumed (init consumed created) id)
        × (get_created {E = E}
              (ledger_updates
                (update_spent_outputs digest consumed (insert_unspent_outputs digest created docs))
                index)
              id
            ≡ get_created (init consumed created) id)
  unfolding ledger_updates get_consumed_outputs get_created_outputs
  ledger_updates-stored {E} index created consumed docs id next =
      let inserted = insert_unspent_outputs digest created docs in
      let docs' = update_spent_outputs digest consumed inserted in
      let unique' =
        update_spent_outputs-IsUnique digest consumed inserted
          (insert_unspent_outputs-IsUnique digest created docs next.unique) in
      let found = find-milestone digest id created consumed docs next.created_distinct in
      let read =
        get_init {E = E} (get_consumed_outputs docs' index) (get_created_outputs docs' index) id in
      let given = get_init {E = E} consumed created id in
      let consumed_read =
        last_with-filter_map spent_id (consumed_at index)
          (λ d s h. spent_with-id index _ d.metadata.spent_metadata s h) id docs' unique' in
      let created_read =
        last_with-filter_map created_id (created_at index) (created_at-id index) id docs' unique' in
      (
        read.0
            ∙ ap ok (
                consumed_read
                ∙ ap (with_doc (consumed_at index)) found
                ∙ consumed_after index created consumed docs next id _ _ _ refl refl)
            ∙ sym given.0,
        read.1
            ∙ ap ok (
                created_read
                ∙ ap (with_doc (created_at index)) found
                ∙ created_after index created consumed docs next id _ _ _ refl refl refl)
            ∙ sym given.1,
      )
