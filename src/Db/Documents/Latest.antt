-- ===== src/Db/Documents/Latest.antt =====
-- What holds at an index after the protocol parameters and the node configuration of it are upserted,
-- and after a milestone is inserted.
use inx_chronicle.Common.{
  ℕ, ◌≤◌, Bool, true, false, Option, none, some, List, [], ◌∷◌, ◌++◌, ◌≡◌, ◌∙◌, inl, inr, refl,
  arith, Bool-cases, Option-cases, ltb, leb, ◌==◌, if◌then◌else◌,
}
use inx_chronicle.Model.Protocol.{ProtocolParameters}
use inx_chronicle.Db.Collections.{
  MilestoneDocument, NodeConfiguration, ConfigurationUpdateDocument, newer, find?,
  get_node_configuration_for_ledger_index,
}
use inx_chronicle.Db.Documents.{
  ProtocolUpdateDocument, newer_update, get_protocol_parameters_for_ledger_index, set_parameters,
  upsert_protocol_parameters, set_configuration, upsert_node_configuration, has_key, same_milestone,
  insert_milestone, get_milestone,
}

-- the first of the documents with the largest key up to a bound: both collections are searched so
module _ {D : Type 0} (key : D → ℕ) where
  abbrev later_of : D → Option D → D
  later_of d none = d
  later_of d (some e) = if ltb (key d) (key e) then e else d

  search : List D → ℕ → Option D
  search [] index = none
  search (d ∷ docs) index =
      let rest = search docs index in if leb (key d) index then some (later_of d rest) else rest

  store : D → List D → List D
  store d [] = d ∷ []
  store d (e ∷ docs) = if key d == key e then d ∷ docs else e ∷ store d docs

  search-le : (docs : List D) (index : ℕ) (d : D) → search docs index ≡ some d → key d ≤ index
  unfolding search
  search-le [] index d h = absurd (cc)
  search-le (e ∷ docs) index d h = elim (Option-cases (search docs index)) [
    | inl absent ↦ ground (arith, absent)
    | inr (f, found) ↦ ground (arith, found, search-le docs index f found)
  ]

  later_of-first : (d : D) (docs : List D) → later_of d (search docs (key d)) ≡ d
  later_of-first d docs = elim (Option-cases (search docs (key d))) [
    | inl absent ↦ rw absent refl
    | inr (f, found) ↦ rw found (ground (arith, search-le docs (key d) f found))
  ]

  search-store : (d : D) (docs : List D) → search (store d docs) (key d) ≡ some d
  unfolding search store
  search-store d [] = ground arith
  search-store d (e ∷ docs) = ground (arith, search-store d docs, later_of-first d docs)

protocol_key : ProtocolUpdateDocument → ℕ
protocol_key d = d.tangle_index

newer_update-later_of :
    (d : ProtocolUpdateDocument) (o : Option ProtocolUpdateDocument)
    → newer_update d o ≡ later_of protocol_key d o
unfolding protocol_key
newer_update-later_of d none = refl
newer_update-later_of d (some e) = refl

get_protocol_parameters-search :
    (docs : List ProtocolUpdateDocument) (index : ℕ)
    → get_protocol_parameters_for_ledger_index docs index ≡ search protocol_key docs index
unfolding get_protocol_parameters_for_ledger_index search protocol_key
get_protocol_parameters-search [] index = refl
get_protocol_parameters-search (d ∷ docs) index =
    rw
      (
        get_protocol_parameters-search docs index,
        newer_update-later_of d (search protocol_key docs index),
      )
      refl

set_parameters-store :
    (d : ProtocolUpdateDocument) (docs : List ProtocolUpdateDocument)
    → set_parameters d docs ≡ store protocol_key d docs
unfolding store protocol_key
set_parameters-store d [] = refl
set_parameters-store d (e ∷ docs) = rw (set_parameters-store d docs) refl

-- The protocol parameters that hold at an index after they are upserted for it are the ones given.
pub upsert_protocol_parameters-get :
    (equal : ProtocolParameters → ProtocolParameters → Bool) (index : ℕ)
    (parameters : ProtocolParameters) (docs : List ProtocolUpdateDocument)
    → ((p q : ProtocolParameters) → equal p q ≡ true → p ≡ q)
    → (d : ProtocolUpdateDocument) × (get_protocol_parameters_for_ledger_index
          (upsert_protocol_parameters equal index parameters docs)
          index
        ≡ some d)
      × (d.parameters ≡ parameters)
unfolding upsert_protocol_parameters protocol_key
upsert_protocol_parameters-get equal index parameters docs sound =
    let d : ProtocolUpdateDocument = record { tangle_index = index; parameters = parameters } in
    let set : get_protocol_parameters_for_ledger_index (set_parameters d docs) index ≡ some d =
      rw (set_parameters-store d docs) (
        get_protocol_parameters-search (store protocol_key d docs) index
        ∙ search-store protocol_key d docs) in
    elim (Option-cases (get_protocol_parameters_for_ledger_index docs index)) [
      | inl absent ↦ (d, rw absent set, refl)
      | inr (e, found) ↦ elim (Bool-cases (equal e.parameters parameters)) [
        | inl same ↦ (e, rw (found, same) found, sound e.parameters parameters same)
        | inr other ↦ (d, rw (found, other) set, refl)
      ]
    ]

module _ {Text : Type 0} where
  configuration_key : ConfigurationUpdateDocument Text → ℕ
  configuration_key d = d.ledger_index

  newer-later_of :
      (d : ConfigurationUpdateDocument Text) (o : Option (ConfigurationUpdateDocument Text))
      → newer d o ≡ later_of configuration_key d o
  unfolding configuration_key
  newer-later_of d none = refl
  newer-later_of d (some e) = refl

  get_node_configuration-search :
      (docs : List (ConfigurationUpdateDocument Text)) (index : ℕ)
      → get_node_configuration_for_ledger_index docs index ≡ search configuration_key docs index
  unfolding get_node_configuration_for_ledger_index search configuration_key
  get_node_configuration-search [] index = refl
  get_node_configuration-search (d ∷ docs) index =
      rw
        (
          get_node_configuration-search docs index,
          newer-later_of d (search configuration_key docs index),
        )
        refl

  set_configuration-store :
      (d : ConfigurationUpdateDocument Text) (docs : List (ConfigurationUpdateDocument Text))
      → set_configuration d docs ≡ store configuration_key d docs
  unfolding store configuration_key
  set_configuration-store d [] = refl
  set_configuration-store d (e ∷ docs) = rw (set_configuration-store d docs) refl

  -- The node configuration that holds at an index after it is upserted for it is the one given.
  pub upsert_node_configuration-get :
      (equal : NodeConfiguration Text → NodeConfiguration Text → Bool) (index : ℕ)
      (config : NodeConfiguration Text) (docs : List (ConfigurationUpdateDocument Text))
      → ((p q : NodeConfiguration Text) → equal p q ≡ true → p ≡ q)
      → (d : ConfigurationUpdateDocument Text) × (get_node_configuration_for_ledger_index
            (upsert_node_configuration equal index config docs)
            index
          ≡ some d)
        × (d.config ≡ config)
  unfolding upsert_node_configuration configuration_key
  upsert_node_configuration-get equal index config docs sound =
      let d : ConfigurationUpdateDocument Text = record { ledger_index = index; config = config } in
      let set : get_node_configuration_for_ledger_index (set_configuration d docs) index ≡ some d =
        rw (set_configuration-store d docs) (
          get_node_configuration-search (store configuration_key d docs) index
          ∙ search-store configuration_key d docs) in
      elim (Option-cases (get_node_configuration_for_ledger_index docs index)) [
        | inl absent ↦ (d, rw absent set, refl)
        | inr (e, found) ↦ elim (Bool-cases (equal e.config config)) [
          | inl same ↦ (e, rw (found, same) found, sound e.config config same)
          | inr other ↦ (d, rw (found, other) set, refl)
        ]
      ]

find-milestone-new :
    (d : MilestoneDocument) (docs : List MilestoneDocument)
    → has_key same_milestone d docs ≡ false
    → find? (λ e. e.at.milestone_index == d.at.milestone_index) (docs ++ (d ∷ [])) ≡ some d
find-milestone-new d [] h = ground arith
find-milestone-new d (e ∷ docs) h = ground (arith, find-milestone-new d docs)

-- A milestone that is inserted is the one that is found at its index.
pub insert_milestone-get :
    (d : MilestoneDocument) (docs docs' : List MilestoneDocument)
    → insert_milestone d docs ≡ some docs'
    → (docs' ≡ docs ++ (d ∷ []))
      × (get_milestone docs' d.at.milestone_index ≡ some (d.milestone_id, d.at, d.payload))
unfolding insert_milestone get_milestone
insert_milestone-get d docs docs' h = elim (Bool-cases (has_key same_milestone d docs)) [
  | inl taken ↦ absurd (cc (rw taken at h))
  | inr new ↦
      let e : docs' ≡ docs ++ (d ∷ []) = cc (rw new at h) in
      (e, rw (e, find-milestone-new d docs new) refl)
]
