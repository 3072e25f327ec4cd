-- ===== src/Db/Outputs/Tasks.antt =====
-- The tasks that write the outputs of a milestone, run at the same time and run again after a stop.
use mathlib.Core.List.{Permᴰ}
use inx_chronicle.Common.{List, [], ◌∷◌, ◌++◌, map, ◌≡◌, ◌∙◌, refl, sym, Option, none, some}
use inx_chronicle.Common.Bytes.{Bytes}
use inx_chronicle.Model.Address.{OutputId, output_id_beq_iff}
use inx_chronicle.Model.Ledger.{LedgerOutput, LedgerSpent}
use inx_chronicle.Tangle.LedgerUpdates.{spent_id, created_id}
use inx_chronicle.Tangle.LedgerUpdates.Retrieve.{last_with}
use inx_chronicle.Db.Outputs.{
  OutputDocument, insert_unspent_outputs, update_spent_outputs, find_doc,
}
use inx_chronicle.Db.Outputs.Writes.{
  Write, insert_unspent, update_spent, or_else, or_else_assoc, or_else-none, write_all, updated_by,
  inserted_by, last_update, first_insert, find-write_all,
}
use inx_chronicle.Db.Outputs.Order.{
  AllAgree, HasDistinctIds, milestone_writes, write_all-milestone_writes, last_update-Permᴰ,
  first_insert-Permᴰ,
}

last_with_self :
    {A : Type 0} (id : A → OutputId) (x : A) (xs : List A)
    → last_with id (id x) xs ≡ none
    → last_with id (id x) (x ∷ xs) ≡ some x
last_with_self id x xs h = rw (h, (output_id_beq_iff (id x) (id x)).1 refl) refl

last_with_later :
    {A : Type 0} (id : A → OutputId) (i : OutputId) (x y : A) (xs : List A)
    → last_with id i xs ≡ some y
    → last_with id i (x ∷ xs) ≡ some y
last_with_later id i x y xs h = rw h refl

module _ (known : OutputId → Option LedgerOutput) (spent : OutputId → Option LedgerSpent) where
  AllAgree-append :
      (ws vs : List Write)
      → AllAgree known spent ws
      → AllAgree known spent vs
      → AllAgree known spent (ws ++ vs)
  AllAgree-append [] vs hw hv = hv
  AllAgree-append (w ∷ ws) vs hw hv = (hw.0, AllAgree-append ws vs hw.1 hv)

  inserts-AllAgree :
      (created : List LedgerOutput)
      → HasDistinctIds created_id created
      → ((i : OutputId) (o : LedgerOutput)
          → last_with created_id i created ≡ some o
          → known i ≡ some o)
      → AllAgree known spent (map insert_unspent created)
  inserts-AllAgree [] distinct h = tt
  inserts-AllAgree (o ∷ created) distinct h = (
    h (created_id o) o (last_with_self created_id o created distinct.0),
    inserts-AllAgree created distinct.1
        (λ i p e. h i p (last_with_later created_id i o p created e)),
  )

  updates-AllAgree :
      (consumed : List LedgerSpent)
      → HasDistinctIds spent_id consumed
      → ((i : OutputId) (s : LedgerSpent)
          → last_with spent_id i consumed ≡ some s
          → spent i ≡ some s)
      → AllAgree known spent (map update_spent consumed)
  updates-AllAgree [] distinct h = tt
  updates-AllAgree (s ∷ consumed) distinct h = (
    h (spent_id s) s (last_with_self spent_id s consumed distinct.0),
    updates-AllAgree consumed distinct.1
        (λ i p e. h i p (last_with_later spent_id i s p consumed e)),
  )

milestone_writes-AllAgree :
    (created : List LedgerOutput) (consumed : List LedgerSpent)
    → HasDistinctIds created_id created
    → HasDistinctIds spent_id consumed
    → AllAgree
        (λ (i : OutputId). last_with created_id i created)
        (λ (i : OutputId). last_with spent_id i consumed)
        (milestone_writes created consumed)
milestone_writes-AllAgree created consumed hc hs =
    let known = λ (i : OutputId). last_with created_id i created in
    let spent = λ (i : OutputId). last_with spent_id i consumed in
    AllAgree-append known spent (map insert_unspent created) (map update_spent consumed)
      (inserts-AllAgree known spent created hc (λ i o e. e))
      (updates-AllAgree known spent consumed hs (λ i s e. e))

-- what the part that was done before adds is what the whole adds
absorb :
    {A : Type 0} (last done_last found done_first first : Option A)
    → or_else
        (or_else last done_last)
        (or_else (or_else done_last (or_else found done_first)) (or_else done_first first))
      ≡ or_else (or_else last done_last) (or_else found (or_else done_first first))
absorb (some l) dl found df first = refl
absorb none (some l) found df first = refl
absorb none none (some d) df first = refl
absorb none none none (some d) first = refl
absorb none none none none first = refl

module _ (digest : Bytes → Bytes) where
  pub last_update-append :
      (id : OutputId) (ws vs : List Write)
      → last_update digest id (ws ++ vs)
        ≡ or_else (last_update digest id vs) (last_update digest id ws)
  last_update-append id [] vs = or_else-none (last_update digest id vs)
  last_update-append id (w ∷ ws) vs =
      rw (last_update-append id ws vs) (
        or_else_assoc (last_update digest id vs) (last_update digest id ws)
          (updated_by digest id w))

  pub first_insert-append :
      (id : OutputId) (ws vs : List Write)
      → first_insert digest id (ws ++ vs)
        ≡ or_else (first_insert digest id ws) (first_insert digest id vs)
  first_insert-append id [] vs = refl
  first_insert-append id (w ∷ ws) vs = rw (first_insert-append id ws vs) (
      sym (
        or_else_assoc (inserted_by digest id w) (first_insert digest id ws)
          (first_insert digest id vs)))

  -- When the created outputs of a milestone have different ids, and the consumed ones too, then
  -- whatever part of their writes was done in whatever order before a stop, and in whatever order
  -- all of them are done after it, the collection has for every id the document that it has when
  -- the created outputs are inserted and then the consumed ones updated, once and in order.
  pub write_all-any_order :
      (created : List LedgerOutput) (consumed : List LedgerSpent) (part rest again : List Write)
      (docs : List OutputDocument) (id : OutputId)
      → HasDistinctIds created_id created
      → HasDistinctIds spent_id consumed
      → Permᴰ (milestone_writes created consumed) (part ++ rest)
      → Permᴰ (milestone_writes created consumed) again
      → find_doc id (write_all digest again (write_all digest part docs))
        ≡ find_doc id
            (update_spent_outputs digest consumed (insert_unspent_outputs digest created docs))
  write_all-any_order created consumed part rest again docs id hc hs split order =
      let known = λ (i : OutputId). last_with created_id i created in
      let spent = λ (i : OutputId). last_with spent_id i consumed in
      let ws = milestone_writes created consumed in
      let agree = milestone_writes-AllAgree created consumed hc hs in
      let last =
        last_update-Permᴰ digest known spent id split agree ∙ last_update-append id part rest in
      let first =
        first_insert-Permᴰ digest known spent id split agree ∙ first_insert-append id part rest in
      let last' = sym (last_update-Permᴰ digest known spent id order agree) ∙ last in
      let first' = sym (first_insert-Permᴰ digest known spent id order agree) ∙ first in
      rw
        (
          find-write_all digest id again (write_all digest part docs),
          find-write_all digest id part docs,
          last',
          first',
          sym (write_all-milestone_writes digest created consumed docs),
          find-write_all digest id ws docs,
          last,
          first,
        )
        (absorb (last_update digest id rest) (last_update digest id part) (find_doc id docs)
          (first_insert digest id part) (first_insert digest id rest))
