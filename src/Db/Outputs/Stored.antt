-- ===== src/Db/Outputs/Stored.antt =====
-- The documents after the writes of a milestone.
use inx_chronicle.Common.{
  Bool, true, false, List, [], ◌∷◌, map, ◌≡◌, ◌∙◌, refl, sym, ap, Option, none, some, Bool-cases,
  inl, inr, if◌then◌else◌,
}
use inx_chronicle.Common.Bytes.{Bytes}
use inx_chronicle.Model.Address.{OutputId, output_id_beq, output_id_beq_iff}
use inx_chronicle.Model.Ledger.{LedgerOutput, LedgerSpent}
use inx_chronicle.Tangle.LedgerUpdates.{spent_id, created_id}
use inx_chronicle.Tangle.LedgerUpdates.Retrieve.{last_with}
use inx_chronicle.Db.Outputs.{
  OutputDocument, from_output, from_spent, insert_unspent_outputs, update_spent_outputs, find_doc,
}
use inx_chronicle.Db.Outputs.Writes.{
  insert_unspent, update_spent, or_else, or_else-none, last_update, first_insert, find-write_all,
}
use inx_chronicle.Db.Outputs.Order.{
  HasDistinctIds, milestone_writes, map_some, write_all-milestone_writes,
}
use inx_chronicle.Db.Outputs.Tasks.{last_update-append, first_insert-append}
use inx_chronicle.Db.Outputs.Search.{
  IsUnique, upsert-IsUnique, insert_ignore-IsUnique, last_with-cons,
}

module _ (digest : Bytes → Bytes) where
  pub insert_unspent_outputs-IsUnique :
      (created : List LedgerOutput) (docs : List OutputDocument)
      → IsUnique docs
      → IsUnique (insert_unspent_outputs digest created docs)
  unfolding insert_unspent_outputs
  insert_unspent_outputs-IsUnique [] docs h = h
  insert_unspent_outputs-IsUnique (o ∷ created) docs h =
      insert_unspent_outputs-IsUnique created _
        (insert_ignore-IsUnique (from_output digest o) docs h)

  pub update_spent_outputs-IsUnique :
      (consumed : List LedgerSpent) (docs : List OutputDocument)
      → IsUnique docs
      → IsUnique (update_spent_outputs digest consumed docs)
  unfolding update_spent_outputs
  update_spent_outputs-IsUnique [] docs h = h
  update_spent_outputs-IsUnique (s ∷ consumed) docs h =
      update_spent_outputs-IsUnique consumed _ (upsert-IsUnique (from_spent digest s) docs h)

  last_update-inserts :
      (k : OutputId) (created : List LedgerOutput)
      → last_update digest k (map insert_unspent created) ≡ none
  last_update-inserts k [] = refl
  last_update-inserts k (o ∷ created) = rw (last_update-inserts k created) refl

  first_insert-updates :
      (k : OutputId) (consumed : List LedgerSpent)
      → first_insert digest k (map update_spent consumed) ≡ none
  first_insert-updates k [] = refl
  first_insert-updates k (s ∷ consumed) = first_insert-updates k consumed

  map_some-or_else :
      {A B : Type 0} (f : A → B) (o : Option A) (b : Bool) (a : A)
      → map_some f (or_else o (if b then some a else none))
        ≡ or_else (map_some f o) (if b then some (f a) else none)
  map_some-or_else f none true a = refl
  map_some-or_else f none false a = refl
  map_some-or_else f (some c) b a = refl

  last_update-updates :
      (k : OutputId) (consumed : List LedgerSpent)
      → last_update digest k (map update_spent consumed)
        ≡ map_some (from_spent digest) (last_with spent_id k consumed)
  last_update-updates k [] = refl
  last_update-updates k (s ∷ consumed) =
      ap
        (λ o. or_else o (if output_id_beq k (spent_id s) then some (from_spent digest s) else none))
        (last_update-updates k consumed)
      ∙ sym (
          ap (map_some (from_spent digest)) (last_with-cons spent_id k s consumed)
          ∙ map_some-or_else (from_spent digest) (last_with spent_id k consumed)
              (output_id_beq k (spent_id s)) s)

  first_insert-inserts :
      (k : OutputId) (created : List LedgerOutput)
      → HasDistinctIds created_id created
      → first_insert digest k (map insert_unspent created)
        ≡ map_some (from_output digest) (last_with created_id k created)
  first_insert-inserts k [] h = refl
  first_insert-inserts k (o ∷ created) h =
      let rest = first_insert-inserts k created h.1 in
      elim (Bool-cases (output_id_beq k (created_id o))) [
        | inl here ↦
            let absent : last_with created_id k created ≡ none =
              rw ((output_id_beq_iff k (created_id o)).0 here) h.0 in
            rw (here, absent) (rw here refl)
        | inr there ↦
            rw there rest
            ∙ ap (map_some (from_output digest)) (
                or_else-none (last_with created_id k created)
                ∙ sym (last_with-cons created_id k o created ∙ rw there refl))
      ]

  -- The document of an id after the writes of a milestone.
  pub find-milestone :
      (k : OutputId) (created : List LedgerOutput) (consumed : List LedgerSpent)
      (docs : List OutputDocument)
      → HasDistinctIds created_id created
      → find_doc k
          (update_spent_outputs digest consumed (insert_unspent_outputs digest created docs))
        ≡ or_else (map_some (from_spent digest) (last_with spent_id k consumed)) (
            or_else
              (find_doc k docs)
              (map_some (from_output digest) (last_with created_id k created)))
  find-milestone k created consumed docs distinct =
      rw
        (
          sym (write_all-milestone_writes digest created consumed docs),
          find-write_all digest k (milestone_writes created consumed) docs,
          last_update-append digest k (map insert_unspent created) (map update_spent consumed),
          first_insert-append digest k (map insert_unspent created) (map update_spent consumed),
          last_update-updates k consumed,
          last_update-inserts k created,
          first_insert-updates k consumed,
          first_insert-inserts k created distinct,
          sym (or_else-none (map_some (from_spent digest) (last_with spent_id k consumed))),
          sym (or_else-none (map_some (from_output digest) (last_with created_id k created))),
        )
        refl
