-- ===== src/Db/Documents/Stored.antt =====
-- The documents after `insert_many_ignore_duplicates`.
use inx_chronicle.Common.{Bool, true, List, [], ◌∷◌, ◌++◌, ◌≡◌, refl, Bool-cases, inl, inr, arith}
use inx_chronicle.Common.Bytes.{bytes_beq_iff}
use inx_chronicle.Db.Collections.{BlockDocument}
use inx_chronicle.Db.Documents.{
  has_key, insert_new, insert_many_ignore_duplicates, same_block, block_document, block_documents,
  insert_blocks_with_metadata,
}
use inx_chronicle.Tangle.Sources.{BlockData}

module _ {A : Type 0} (same : A → A → Bool) where
  has_key-append :
      (x y : A) (docs : List A)
      → has_key same x docs ≡ true
      → has_key same x (docs ++ (y ∷ [])) ≡ true
  has_key-append x y [] h = absurd (cc)
  has_key-append x y (d ∷ docs) h = ground (arith, has_key-append x y docs)

  has_key_self :
      (x : A) (docs : List A) → same x x ≡ true → has_key same x (docs ++ (x ∷ [])) ≡ true
  has_key_self x [] h = rw h refl
  has_key_self x (d ∷ docs) h = ground (arith, has_key_self x docs h)

  has_key-insert_new :
      (x y : A) (docs : List A)
      → has_key same x docs ≡ true
      → has_key same x (insert_new same y docs) ≡ true
  has_key-insert_new x y docs h = elim (Bool-cases (has_key same y docs)) [
    | inl taken ↦ rw taken h
    | inr new ↦ rw new (has_key-append x y docs h)
  ]

  insert_new-has_key :
      (x : A) (docs : List A) → same x x ≡ true → has_key same x (insert_new same x docs) ≡ true
  insert_new-has_key x docs h = elim (Bool-cases (has_key same x docs)) [
    | inl taken ↦ rw taken taken
    | inr new ↦ rw new (has_key_self x docs h)
  ]

  pub insert_many-has_key :
      (x : A) (xs docs : List A)
      → has_key same x docs ≡ true
      → has_key same x (insert_many_ignore_duplicates same xs docs) ≡ true
  unfolding insert_many_ignore_duplicates
  insert_many-has_key x [] docs h = h
  insert_many-has_key x (y ∷ xs) docs h =
      insert_many-has_key x xs (insert_new same y docs) (has_key-insert_new x y docs h)

same_block_self : (b : BlockDocument) → same_block b b ≡ true
same_block_self b = rw ((bytes_beq_iff b.block_id b.block_id).1 refl) refl

-- for every block there is a document with its id, or, when it is included, one of an included block
-- with its transaction
abbrev pub AreStored : List BlockData → List BlockDocument → Type 0
AreStored [] docs = Unit
AreStored (b ∷ blocks) docs =
    (has_key same_block (block_document b) docs ≡ true) × AreStored blocks docs

pub insert_blocks-AreStored :
    (blocks : List BlockData) (docs : List BlockDocument)
    → AreStored blocks (insert_blocks_with_metadata blocks docs)
unfolding insert_blocks_with_metadata insert_many_ignore_duplicates
insert_blocks-AreStored [] docs = tt
insert_blocks-AreStored (b ∷ blocks) docs = (
  insert_many-has_key same_block (block_document b) (block_documents blocks)
      (insert_new same_block (block_document b) docs)
      (insert_new-has_key same_block (block_document b) docs (same_block_self (block_document b))),
  insert_blocks-AreStored blocks (insert_new same_block (block_document b) docs),
)
