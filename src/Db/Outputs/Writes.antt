-- ===== src/Db/Outputs/Writes.antt =====
-- Writes to the collection of outputs that run at the same time or again: `insert_unspent_outputs`
-- and `update_spent_outputs` of src/bin/inx-chronicle/inx/mod.rs spawn a task for each batch, so
-- that the documents are written in any order.
use inx_chronicle.Common.{
  List, [], ◌∷◌, ◌≡◌, ◌∙◌, refl, ap, Option, none, some, arith, if◌then◌else◌,
}
use inx_chronicle.Common.Bytes.{Bytes}
use inx_chronicle.Model.Address.{OutputId, output_id_beq, output_id_beq_iff}
use inx_chronicle.Model.Ledger.{LedgerOutput, LedgerSpent}
use inx_chronicle.Tangle.LedgerUpdates.{spent_id, created_id}
use inx_chronicle.Db.Outputs.{
  OutputDocument, from_output, from_spent, upsert, insert_ignore, find_doc,
}

pub data Write : Type 0 where
  insert_unspent : LedgerOutput → Write
  update_spent : LedgerSpent → Write

-- the first of two results
abbrev pub or_else {ℓ} : {A : Type ℓ} → Option A → Option A → Option A
or_else none b = b
or_else (some a) b = some a

pub or_else_assoc {ℓ} :
    {A : Type ℓ} (a b c : Option A) → or_else (or_else a b) c ≡ or_else a (or_else b c)
or_else_assoc none b c = refl
or_else_assoc (some a) b c = refl

module _ (digest : Bytes → Bytes) where
  unfoldable pub write : Write → List OutputDocument → List OutputDocument
  write (insert_unspent o) docs = insert_ignore (from_output digest o) docs
  write (update_spent s) docs = upsert (from_spent digest s) docs

  unfoldable pub write_all : List Write → List OutputDocument → List OutputDocument
  write_all [] docs = docs
  write_all (w ∷ ws) docs = write_all ws (write w docs)

  -- the document of an id that a write brings, as an update and as an insertion
  abbrev pub updated_by : OutputId → Write → Option OutputDocument
  updated_by id (insert_unspent o) = none
  updated_by id (update_spent s) =
      if output_id_beq id (spent_id s) then some (from_spent digest s) else none

  abbrev pub inserted_by : OutputId → Write → Option OutputDocument
  inserted_by id (insert_unspent o) =
      if output_id_beq id (created_id o) then some (from_output digest o) else none
  inserted_by id (update_spent s) = none

  abbrev pub last_update : OutputId → List Write → Option OutputDocument
  last_update id [] = none
  last_update id (w ∷ ws) = or_else (last_update id ws) (updated_by id w)

  abbrev pub first_insert : OutputId → List Write → Option OutputDocument
  first_insert id [] = none
  first_insert id (w ∷ ws) = or_else (inserted_by id w) (first_insert id ws)

pub find-upsert :
    (id : OutputId) (d : OutputDocument) (docs : List OutputDocument)
    → find_doc id (upsert d docs)
      ≡ or_else (if output_id_beq id d.output_id then some d else none) (find_doc id docs)
find-upsert id d [] = ground arith
find-upsert id d (e ∷ docs) = ground (
  arith,
  find-upsert id d docs,
  output_id_beq_iff id d.output_id,
  output_id_beq_iff d.output_id e.output_id,
  output_id_beq_iff id e.output_id,
)

pub find-insert_ignore :
    (id : OutputId) (d : OutputDocument) (docs : List OutputDocument)
    → find_doc id (insert_ignore d docs)
      ≡ or_else (find_doc id docs) (if output_id_beq id d.output_id then some d else none)
find-insert_ignore id d [] = ground arith
find-insert_ignore id d (e ∷ docs) = ground (
  arith,
  find-insert_ignore id d docs,
  output_id_beq_iff id d.output_id,
  output_id_beq_iff d.output_id e.output_id,
  output_id_beq_iff id e.output_id,
)

pub or_else-none : {A : Type 0} (a : Option A) → a ≡ or_else a none
or_else-none none = refl
or_else-none (some a) = refl

regroup :
    {A : Type 0} (last update found insert first : Option A)
    → or_else last (or_else (or_else update (or_else found insert)) first)
      ≡ or_else (or_else last update) (or_else found (or_else insert first))
regroup none none none insert first = refl
regroup none none (some d) insert first = refl
regroup none (some d) found insert first = refl
regroup (some d) update found insert first = refl

module _ (digest : Bytes → Bytes) where
  find-write :
      (id : OutputId) (w : Write) (docs : List OutputDocument)
      → find_doc id (write digest w docs)
        ≡ or_else (updated_by digest id w) (or_else (find_doc id docs) (inserted_by digest id w))
  unfolding write from_spent from_output
  find-write id (insert_unspent o) docs = find-insert_ignore id (from_output digest o) docs
  find-write id (update_spent s) docs =
      find-upsert id (from_spent digest s) docs
      ∙ ap (or_else (updated_by digest id (update_spent s))) (or_else-none (find_doc id docs))

  -- After any writes the document of an id is that of its last update, else the one that was there,
  -- else that of its first insertion.
  pub find-write_all :
      (id : OutputId) (ws : List Write) (docs : List OutputDocument)
      → find_doc id (write_all digest ws docs)
        ≡ or_else
            (last_update digest id ws)
            (or_else (find_doc id docs) (first_insert digest id ws))
  unfolding write_all
  find-write_all id [] docs = or_else-none (find_doc id docs)
  find-write_all id (w ∷ ws) docs =
      find-write_all id ws (write digest w docs)
      ∙ rw (find-write id w docs) (
          regroup (last_update digest id ws) (updated_by digest id w) (find_doc id docs)
            (inserted_by digest id w) (first_insert digest id ws))
