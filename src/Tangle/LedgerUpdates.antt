-- ===== src/Tangle/LedgerUpdates.antt =====
-- `LedgerUpdateStore`: src/tangle/ledger_updates.rs. The outputs that a milestone consumed and
-- created, with an index from output ids into each list.
pub mod Retrieve
use inx_chronicle.Common.{ℕ, ◌+◌, Option, none, some, List, [], ◌∷◌, get_elem?}
use inx_chronicle.Common.Dict.{Dict, lookup, insert}
use inx_chronicle.Common.Run.{Run, ok, or_panic, ◌>>=◌}
use inx_chronicle.Model.Address.{OutputId, output_id_eq}
use inx_chronicle.Model.Ledger.{LedgerOutput, LedgerSpent}

pub record LedgerUpdateStore : Type 0 where
  pub created : List LedgerOutput
  pub created_index : Dict OutputId ℕ
  pub consumed : List LedgerSpent
  pub consumed_index : Dict OutputId ℕ

-- `for (idx, c) in list.iter().enumerate() { index.insert(c.output_id(), idx); }` from `idx` on
abbrev pub index_from :
    {A : Type 0} → (A → OutputId) → Dict OutputId ℕ → ℕ → List A → Dict OutputId ℕ
index_from id index idx [] = index
index_from id index idx (c ∷ cs) = index_from id (insert (id c) idx index) (idx + 1) cs

-- `LedgerSpent::output_id`
abbrev pub spent_id : LedgerSpent → OutputId
spent_id s = s.output.output_id

abbrev pub created_id : LedgerOutput → OutputId
created_id o = o.output_id

unfoldable pub init : List LedgerSpent → List LedgerOutput → LedgerUpdateStore
init consumed created = record {
  created = created;
  created_index = index_from created_id [] 0 created;
  consumed = consumed;
  consumed_index = index_from spent_id [] 0 consumed;
}

-- `index.get(id).map(|&idx| &list[idx])`: an index out of range panics
abbrev pub at_index : {E : Type 0} {A : Type 0} → Option ℕ → List A → Run E (Option A)
at_index none xs = ok none
at_index (some idx) xs = do a ← or_panic (get_elem? xs idx); ok (some a)

unfoldable pub get_created :
    {E : Type 0} → LedgerUpdateStore → OutputId → Run E (Option LedgerOutput)
get_created store output_id = at_index (lookup output_id store.created_index) store.created

unfoldable pub get_consumed :
    {E : Type 0} → LedgerUpdateStore → OutputId → Run E (Option LedgerSpent)
get_consumed store output_id = at_index (lookup output_id store.consumed_index) store.consumed
