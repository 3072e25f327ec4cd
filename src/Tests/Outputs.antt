-- ===== src/Tests/Outputs.antt =====
-- The collection of outputs before and after a milestone, and the first migration.
use inx_chronicle.Common.{◌≡◌, ◌≢◌, inr, refl, some, false, List, [], ◌∷◌, arith}
use mathlib.Core.List.{Permᴰ}
use mathlib.Core.List.Permᴰ
use inx_chronicle.Common.Bytes.{Bytes}
use inx_chronicle.Model.Address.{OutputId, output_id_beq_iff}
use inx_chronicle.Tangle.LedgerUpdates.{spent_id, created_id}
use inx_chronicle.Tangle.LedgerUpdates.Retrieve.{last_with}
use inx_chronicle.Db.Outputs.{
  OutputDocument, insert_unspent_outputs, update_spent_outputs, find_doc, is_spent_at, from_output,
  from_spent, get_created_outputs,
}
use inx_chronicle.Db.Outputs.Writes.{insert_unspent, update_spent, write_all}
use inx_chronicle.Db.Outputs.Tasks.{write_all-any_order}
use inx_chronicle.Db.Outputs.Updates.{IsNext}
use inx_chronicle.Tests.Ledger.{kept, old, new, spent}

abbrev pub no_digest : Bytes → Bytes
no_digest bytes = bytes

abbrev pub docs : List OutputDocument
docs = from_output no_digest kept ∷ from_output no_digest old ∷ []

write_all-any_order_example :
    find_doc (spent_id spent) (
      write_all no_digest
        (insert_unspent new ∷ update_spent spent ∷ [])
        (write_all no_digest (update_spent spent ∷ []) docs))
    ≡ find_doc (spent_id spent) (
        update_spent_outputs no_digest
          (spent ∷ [])
          (insert_unspent_outputs no_digest (new ∷ []) docs))
write_all-any_order_example =
    write_all-any_order no_digest (new ∷ []) (spent ∷ []) (update_spent spent ∷ [])
      (insert_unspent new ∷ []) (insert_unspent new ∷ update_spent spent ∷ []) docs (spent_id spent)
      (refl, tt) (refl, tt) (Permᴰ.swap refl refl) (Permᴰ.refl _)

-- the only element of a list, found by its id
last_with_one :
    {A : Type 0} (id : A → OutputId) (x : A) (k : OutputId) {y : A}
    → last_with id k (x ∷ []) ≡ some y
    → (y ≡ x) × (k ≡ id x)
last_with_one id x k h = ground (arith, output_id_beq_iff k (id x))

stored_before :
    (k : OutputId) (d : OutputDocument)
    → find_doc k docs ≡ some d
    → (d.metadata.booked.milestone_index ≢ 5) × (is_spent_at 5 d.metadata.spent_metadata ≡ false)
unfolding from_output
stored_before k d h = ground arith

pub next : IsNext 5 (new ∷ []) (spent ∷ []) docs
unfolding from_output
next = record {
  created_distinct = (refl, tt);
  unique = (refl, (refl, tt));
  created_booked =
      λ k o h. let (e, at) = last_with_one created_id new k h in (rw e refl, rw at refl);
  consumed_spent = λ k s h.
      let (e, at) = last_with_one spent_id spent k h in
      (rw e refl, inr (rw at refl, rw e (omega arith)));
  stored_before = stored_before;
}

reads_back :
    get_created_outputs
      (update_spent_outputs no_digest
        (spent ∷ [])
        (insert_unspent_outputs no_digest (new ∷ []) docs))
      5
    ≡ new ∷ []
unfolding get_created_outputs update_spent_outputs insert_unspent_outputs from_spent from_output
reads_back = refl
