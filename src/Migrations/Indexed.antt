-- ===== src/Migrations/Indexed.antt =====
-- What the first migration does to the outputs that an older version stored: `index_outputs`.
use inx_chronicle.Common.{
  true, false, Option, none, some, List, [], ◌∷◌, filter_map, if◌then◌else◌, ◌≡◌, ◌∙◌, refl, sym,
  ap, arith, Bool-cases, Option-cases, inl, inr,
}
use inx_chronicle.Common.Bytes.{Bytes, bytes_beq}
use inx_chronicle.Model.Address.{OutputId, output_id_beq, output_id_beq_iff, as_bytes, implicit}
use inx_chronicle.Model.Output.{Output}
use inx_chronicle.Tangle.LedgerUpdates.Retrieve.{last_with}
use inx_chronicle.Db.Outputs.{
  OutputDocument, IndexedId, find_doc, with_doc, when, indexed_id, stored_id, from_output,
  to_ledger_output,
}
use inx_chronicle.Db.Outputs.Order.{map_some}
use inx_chronicle.Db.Outputs.Search.{IsUnique, when-eq, last_with-filter_map}
use inx_chronicle.Migrations.Steps.{
  has_implicit_id, set_indexed_id, update_one, update_many, set_alias_id, set_nft_id,
  set_foundry_id, set_implicit_ids, index_outputs,
}

abbrev self : OutputId → OutputId
self id = id

abbrev if_id :
    OutputId → OutputId → (OutputDocument → OutputDocument) → OutputDocument → OutputDocument
if_id k id f d = if output_id_beq k id then f d else d

find-update_one :
    (k id : OutputId) (v : IndexedId) (docs : List OutputDocument)
    → find_doc k (update_one id (set_indexed_id v) docs)
      ≡ map_some (if_id k id (set_indexed_id v)) (find_doc k docs)
find-update_one k id v [] = refl
find-update_one k id v (d ∷ docs) = ground (
  arith,
  find-update_one k id v docs,
  output_id_beq_iff k id,
  output_id_beq_iff id d.output_id,
  output_id_beq_iff k d.output_id,
)

find-update_many :
    (f : Output → OutputDocument → OutputDocument)
    → ((o : Output) (d : OutputDocument) → (f o d).output_id ≡ d.output_id)
    → (k : OutputId) (docs : List OutputDocument)
    → find_doc k (update_many f docs) ≡ map_some (λ d. f d.output d) (find_doc k docs)
find-update_many f same k [] = refl
find-update_many f same k (d ∷ docs) = elim (Bool-cases (output_id_beq k d.output_id)) [
  | inl here ↦
      let here' : output_id_beq k (f d.output d).output_id ≡ true = rw (same d.output d) here in
      rw (here', here) refl
  | inr there ↦
      let there' : output_id_beq k (f d.output d).output_id ≡ false = rw (same d.output d) there in
      rw (there', there) (find-update_many f same k docs)
]

find_doc-id :
    (k : OutputId) (docs : List OutputDocument) (d : OutputDocument)
    → find_doc k docs ≡ some d
    → k ≡ d.output_id
find_doc-id k [] d h = cc
find_doc-id k (e ∷ docs) d h = ground (arith, find_doc-id k docs d, output_id_beq_iff k e.output_id)

-- `update_many` on one document
abbrev on_output : (Output → OutputDocument → OutputDocument) → OutputDocument → OutputDocument
on_output f d = f d.output d

abbrev implicit_output : OutputDocument → Option OutputId
implicit_output d = when (has_implicit_id d.output) d.output_id

set_alias_id-id : (o : Output) (d : OutputDocument) → (set_alias_id o d).output_id ≡ d.output_id
set_alias_id-id (Output.treasury o) d = refl
set_alias_id-id (Output.basic o) d = refl
set_alias_id-id (Output.alias o) d = ground arith
set_alias_id-id (Output.foundry o) d = refl
set_alias_id-id (Output.nft o) d = refl

set_alias_id-output : (o : Output) (d : OutputDocument) → (set_alias_id o d).output ≡ d.output
set_alias_id-output (Output.treasury o) d = refl
set_alias_id-output (Output.basic o) d = refl
set_alias_id-output (Output.alias o) d = ground arith
set_alias_id-output (Output.foundry o) d = refl
set_alias_id-output (Output.nft o) d = refl

set_nft_id-id : (o : Output) (d : OutputDocument) → (set_nft_id o d).output_id ≡ d.output_id
set_nft_id-id (Output.treasury o) d = refl
set_nft_id-id (Output.basic o) d = refl
set_nft_id-id (Output.alias o) d = refl
set_nft_id-id (Output.foundry o) d = refl
set_nft_id-id (Output.nft o) d = ground arith

set_nft_id-output : (o : Output) (d : OutputDocument) → (set_nft_id o d).output ≡ d.output
set_nft_id-output (Output.treasury o) d = refl
set_nft_id-output (Output.basic o) d = refl
set_nft_id-output (Output.alias o) d = refl
set_nft_id-output (Output.foundry o) d = refl
set_nft_id-output (Output.nft o) d = ground arith

set_foundry_id-id : (o : Output) (d : OutputDocument) → (set_foundry_id o d).output_id ≡ d.output_id
set_foundry_id-id (Output.treasury o) d = refl
set_foundry_id-id (Output.basic o) d = refl
set_foundry_id-id (Output.alias o) d = refl
set_foundry_id-id (Output.foundry o) d = refl
set_foundry_id-id (Output.nft o) d = refl

module _ (digest : Bytes → Bytes) where
  -- the first update, on the document of an id that the list has or has not
  abbrev mark : OutputId → Option OutputId → OutputDocument → OutputDocument
  mark k none d = d
  mark k (some _) d = set_indexed_id (IndexedId.alias (digest (as_bytes k))) d

  mark-if_id :
      (k id : OutputId) (ids : List OutputId) (d : OutputDocument)
      → mark k
          (last_with self k ids)
          (if_id k id (set_indexed_id (IndexedId.alias (digest (as_bytes id)))) d)
        ≡ mark k (last_with self k (id ∷ ids)) d
  mark-if_id k id ids d = elim (Bool-cases (output_id_beq k id)) [
    | inl here ↦ elim (Option-cases (last_with self k ids)) [
      | inl absent ↦ rw (absent, here, (output_id_beq_iff k id).0 here) refl
      | inr (y, found) ↦ rw (found, here, (output_id_beq_iff k id).0 here) refl
    ]
    | inr there ↦ elim (Option-cases (last_with self k ids)) [
      | inl absent ↦ rw (absent, there) refl
      | inr (y, found) ↦ rw (found, there) refl
    ]
  ]

  map_some-mark :
      (k id : OutputId) (ids : List OutputId) (o : Option OutputDocument)
      → map_some
          (mark k (last_with self k ids))
          (map_some (if_id k id (set_indexed_id (IndexedId.alias (digest (as_bytes id))))) o)
        ≡ map_some (mark k (last_with self k (id ∷ ids))) o
  map_some-mark k id ids none = refl
  map_some-mark k id ids (some d) = ap some (mark-if_id k id ids d)

  map_some_self : (k : OutputId) (o : Option OutputDocument) → o ≡ map_some (mark k none) o
  map_some_self k none = refl
  map_some_self k (some d) = refl

  find-set_implicit_ids :
      (k : OutputId) (ids : List OutputId) (docs : List OutputDocument)
      → find_doc k (set_implicit_ids digest ids docs)
        ≡ map_some (mark k (last_with self k ids)) (find_doc k docs)
  unfolding set_implicit_ids
  find-set_implicit_ids k [] docs = map_some_self k (find_doc k docs)
  find-set_implicit_ids k (id ∷ ids) docs =
      let v = IndexedId.alias (digest (as_bytes id)) in
      find-set_implicit_ids k ids (update_one id (set_indexed_id v) docs)
      ∙ ap (map_some (mark k (last_with self k ids))) (find-update_one k id v docs)
      ∙ map_some-mark k id ids (find_doc k docs)

  -- all updates on one document
  abbrev relabel : OutputId → Output → OutputDocument → OutputDocument
  relabel k o d =
      set_foundry_id o (set_nft_id o (set_alias_id o (mark k (when (has_implicit_id o) k) d)))

  relabel-stored :
      (k : OutputId) (o : Output) (d : OutputDocument)
      → d.details.indexed_id ≡ none
      → (id : Option IndexedId) × (stored_id id ≡ stored_id (indexed_id digest o k))
        × (relabel k o d ≡ record d { details = record d.details { indexed_id = id } })
  unfolding indexed_id
  relabel-stored k (Output.treasury o) d h =
      (none, refl, ap (λ i. record d { details = record d.details { indexed_id = i } }) h)
  relabel-stored k (Output.basic o) d h =
      (none, refl, ap (λ i. record d { details = record d.details { indexed_id = i } }) h)
  relabel-stored k (Output.foundry o) d h = (some (IndexedId.foundry o.foundry_id), refl, refl)
  relabel-stored k (Output.alias o) d h = elim (Bool-cases (bytes_beq o.alias_id implicit)) [
    | inl hidden ↦ (some (IndexedId.alias (digest (as_bytes k))), rw hidden refl, rw hidden refl)
    | inr given ↦ (some (IndexedId.alias o.alias_id), rw given refl, rw given refl)
  ]
  relabel-stored k (Output.nft o) d h = elim (Bool-cases (bytes_beq o.nft_id implicit)) [
    | inl hidden ↦ (some (IndexedId.alias (digest (as_bytes k))), rw hidden refl, rw hidden refl)
    | inr given ↦ (some (IndexedId.nft o.nft_id), rw given refl, rw given refl)
  ]

  settled :
      (e : OutputDocument) (o : Output)
      → e.output ≡ o
      → on_output set_foundry_id (on_output set_nft_id (on_output set_alias_id e))
        ≡ set_foundry_id o (set_nft_id o (set_alias_id o e))
  settled e o h =
      let first : on_output set_alias_id e ≡ set_alias_id o e = ap (λ x. set_alias_id x e) h in
      let kept = set_alias_id-output o e ∙ h in
      let second : on_output set_nft_id (on_output set_alias_id e)
          ≡ set_nft_id o (set_alias_id o e) =
        ap (on_output set_nft_id) first ∙ ap (λ x. set_nft_id x (set_alias_id o e)) kept in
      ap (on_output set_foundry_id) second
      ∙ ap (λ x. set_foundry_id x (set_nft_id o (set_alias_id o e)))
          (set_nft_id-output o (set_alias_id o e) ∙ kept)

  mark-output :
      (k : OutputId) (m : Option OutputId) (d : OutputDocument) → (mark k m d).output ≡ d.output
  mark-output k none d = refl
  mark-output k (some i) d = refl

  three_updates :
      (k : OutputId) (m : Option OutputId) (o : Option OutputDocument)
      → map_some (on_output set_foundry_id) (
          map_some
            (on_output set_nft_id)
            (map_some (on_output set_alias_id) (map_some (mark k m) o)))
        ≡ map_some
            (λ d.
              set_foundry_id d.output (set_nft_id d.output (set_alias_id d.output (mark k m d))))
            o
  three_updates k m none = refl
  three_updates k m (some d) = ap some (settled (mark k m d) d.output (mark-output k m d))

  find-index_outputs :
      (docs : List OutputDocument) (k : OutputId)
      → IsUnique docs
      → find_doc k (index_outputs digest docs)
        ≡ map_some
            (λ d. set_foundry_id d.output (
              set_nft_id d.output
                (set_alias_id d.output (mark k (with_doc implicit_output (find_doc k docs)) d))))
            (find_doc k docs)
  unfolding index_outputs
  find-index_outputs docs k unique =
      let ids = filter_map implicit_output docs in
      let hit =
        last_with-filter_map self implicit_output (λ d i h. when-eq (has_implicit_id d.output) h) k
          docs unique in
      let marked = set_implicit_ids digest ids docs in
      find-update_many set_foundry_id set_foundry_id-id k
        (update_many set_nft_id (update_many set_alias_id marked))
      ∙ ap (map_some (on_output set_foundry_id)) (
          find-update_many set_nft_id set_nft_id-id k (update_many set_alias_id marked)
          ∙ ap (map_some (on_output set_nft_id)) (
              find-update_many set_alias_id set_alias_id-id k marked
              ∙ ap (map_some (on_output set_alias_id)) (
                  find-set_implicit_ids k ids docs
                  ∙ ap (λ m. map_some (mark k m) (find_doc k docs)) hit)))
      ∙ three_updates k (with_doc implicit_output (find_doc k docs)) (find_doc k docs)

  -- In a collection with one document for an id, the updates of the first migration leave each
  -- document whose indexed id was not set as it was but for that id, and store there what the
  -- current version stores for the same output.
  pub index_outputs-stored :
      (docs : List OutputDocument) (k : OutputId) (d : OutputDocument)
      → IsUnique docs
      → find_doc k docs ≡ some d
      → d.details.indexed_id ≡ none
      → (id : Option IndexedId) × (find_doc k (index_outputs digest docs)
          ≡ some (record d { details = record d.details { indexed_id = id } }))
        × (stored_id id ≡ stored_id (from_output digest (to_ledger_output d)).details.indexed_id)
  unfolding from_output
  index_outputs-stored docs k d unique found old =
      let at = find_doc-id k docs d found in
      let (id, stored, result) = relabel-stored k d.output d old in
      (
        id,
        find-index_outputs docs k unique
            ∙ rw found (
                ap
                  (λ i. some (
                    set_foundry_id d.output (
                      set_nft_id d.output
                        (set_alias_id d.output (mark k (when (has_implicit_id d.output) i) d)))))
                  (sym at)
                ∙ ap some result),
        stored ∙ ap (λ i. stored_id (indexed_id digest d.output i)) at,
      )
