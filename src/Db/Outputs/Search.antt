-- ===== src/Db/Outputs/Search.antt =====
-- Unique ids in the collection of outputs, and searches in what a query on it returns.
use inx_chronicle.Common.{
  Bool, true, false, List, [], ◌∷◌, filter_map, cons_some, ◌≡◌, ◌∙◌, refl, sym, Option, none, some,
  Bool-cases, Option-cases, inl, inr, arith, if◌then◌else◌,
}
use inx_chronicle.Model.Address.{OutputId, output_id_beq, output_id_beq_iff}
use inx_chronicle.Tangle.LedgerUpdates.Retrieve.{last_with}
use inx_chronicle.Db.Outputs.{when, OutputDocument, upsert, insert_ignore, find_doc, with_doc}
use inx_chronicle.Db.Outputs.Writes.{or_else, or_else-none, find-upsert, find-insert_ignore}

-- one document for an id
abbrev pub IsUnique : List OutputDocument → Type 0
IsUnique [] = Unit
IsUnique (d ∷ docs) = (find_doc d.output_id docs ≡ none) × IsUnique docs

pub upsert-IsUnique :
    (d : OutputDocument) (docs : List OutputDocument) → IsUnique docs → IsUnique (upsert d docs)
upsert-IsUnique d [] h = (refl, tt)
upsert-IsUnique d (e ∷ docs) h = ground (
  arith,
  upsert-IsUnique d docs h.1,
  find-upsert e.output_id d docs,
  output_id_beq_iff d.output_id e.output_id,
  output_id_beq_iff e.output_id d.output_id,
)

pub insert_ignore-IsUnique :
    (d : OutputDocument) (docs : List OutputDocument)
    → IsUnique docs
    → IsUnique (insert_ignore d docs)
insert_ignore-IsUnique d [] h = (refl, tt)
insert_ignore-IsUnique d (e ∷ docs) h = ground (
  arith,
  insert_ignore-IsUnique d docs h.1,
  find-insert_ignore e.output_id d docs,
  output_id_beq_iff d.output_id e.output_id,
  output_id_beq_iff e.output_id d.output_id,
)

module _ {A : Type 0} (id : A → OutputId) where
  -- the result, if it has the id
  pick : OutputId → Option A → Option A
  pick k none = none
  pick k (some a) = if output_id_beq k (id a) then some a else none

  pub last_with-cons :
      (k : OutputId) (x : A) (xs : List A)
      → last_with id k (x ∷ xs)
        ≡ or_else (last_with id k xs) (if output_id_beq k (id x) then some x else none)
  last_with-cons k x xs = elim (Option-cases (last_with id k xs)) [
    | inl absent ↦ rw absent refl
    | inr (y, found) ↦ rw found refl
  ]

  last_with-cons_some :
      (k : OutputId) (o : Option A) (xs : List A)
      → last_with id k (cons_some o xs) ≡ or_else (last_with id k xs) (pick k o)
  unfolding pick
  last_with-cons_some k none xs = or_else-none (last_with id k xs)
  last_with-cons_some k (some a) xs = last_with-cons k a xs

  pick_same :
      (f : OutputDocument → Option A)
      → ((d : OutputDocument) (a : A) → f d ≡ some a → id a ≡ d.output_id)
      → (k : OutputId) (d : OutputDocument)
      → pick k (f d) ≡ (if output_id_beq k d.output_id then f d else none)
  unfolding pick
  pick_same f same k d = elim (Option-cases (f d)) [
    | inl absent ↦ elim (Bool-cases (output_id_beq k d.output_id)) [
      | inl here ↦ rw (absent, here) refl
      | inr there ↦ rw (absent, there) refl
    ]
    | inr (a, found) ↦ rw (found, same d a found) refl
  ]

  -- A search in the results of a query finds what the query makes of the document of the id.
  pub last_with-filter_map :
      (f : OutputDocument → Option A)
      → ((d : OutputDocument) (a : A) → f d ≡ some a → id a ≡ d.output_id)
      → (k : OutputId) (docs : List OutputDocument) → IsUnique docs
      → last_with id k (filter_map f docs) ≡ with_doc f (find_doc k docs)
  last_with-filter_map f same k [] unique = refl
  last_with-filter_map f same k (d ∷ docs) unique =
      let rest = last_with-filter_map f same k docs unique.1 in
      last_with-cons_some k (f d) (filter_map f docs)
      ∙ rw (rest, pick_same f same k d)
          (elim (Bool-cases (output_id_beq k d.output_id)) [
            | inl here ↦
                let absent : find_doc k docs ≡ none =
                  rw ((output_id_beq_iff k d.output_id).0 here) unique.0 in
                rw (absent, here) refl
            | inr there ↦ rw there (sym (or_else-none (with_doc f (find_doc k docs))))
          ])

pub when-eq : {A : Type 0} (b : Bool) {a x : A} → when b a ≡ some x → x ≡ a
when-eq true h = cc
when-eq false h = cc
