-- ===== src/Migrations/Steps.antt =====
-- The two migrations and the list of them: src/bin/inx-chronicle/migrations/{mod,migrate_0,migrate_1}.rs.
-- The rest of the database is the collection of outputs and its indexes. What the database does
-- with an index, and the value of a date, are parameters.
use Prim.Native.String.{String}
use inx_chronicle.Common.{ℕ, Bool, false, not, some, List, [], ◌∷◌, map, filter_map, if◌then◌else◌}
use inx_chronicle.Common.Bytes.{Bytes, bytes_beq}
use inx_chronicle.Common.Run.{Run, ok, err, panic, Done, done}
use inx_chronicle.Model.Address.{OutputId, output_id_beq, as_bytes, implicit}
use inx_chronicle.Model.Output.{Output}
use inx_chronicle.Db.Outputs.{OutputDocument, IndexedId, when}
use inx_chronicle.Db.ApplicationState.{MigrationVersion}
use inx_chronicle.Migrations.{MongoDb, DynMigration}

pub record OutputData (Indexes : Type 0) : Type 0 where
  pub documents : List OutputDocument
  pub indexes : Indexes

-- `{ "$or": [{ "output.alias_id": implicit() }, { "output.nft_id": implicit() }] }`
abbrev pub has_implicit_id : Output → Bool
has_implicit_id (Output.alias o) = bytes_beq o.alias_id implicit
has_implicit_id (Output.nft o) = bytes_beq o.nft_id implicit
has_implicit_id o = false

-- `$set` of `details.indexed_id`
abbrev pub set_indexed_id : IndexedId → OutputDocument → OutputDocument
set_indexed_id id d = record d { details = record d.details { indexed_id = some id } }

-- `update_one` with the filter `{ "_id": output_id }`
abbrev pub update_one :
    OutputId → (OutputDocument → OutputDocument) → List OutputDocument → List OutputDocument
update_one output_id f [] = []
update_one output_id f (d ∷ docs) =
    if output_id_beq output_id d.output_id then f d ∷ docs else d ∷ update_one output_id f docs

-- `update_many` for the aliases, the NFTs and the foundries
abbrev pub set_alias_id : Output → OutputDocument → OutputDocument
set_alias_id (Output.alias o) d =
    if not (bytes_beq o.alias_id implicit) then set_indexed_id (IndexedId.alias o.alias_id) d else d
set_alias_id o d = d

abbrev pub set_nft_id : Output → OutputDocument → OutputDocument
set_nft_id (Output.nft o) d =
    if not (bytes_beq o.nft_id implicit) then set_indexed_id (IndexedId.nft o.nft_id) d else d
set_nft_id o d = d

abbrev pub set_foundry_id : Output → OutputDocument → OutputDocument
set_foundry_id (Output.foundry o) d = set_indexed_id (IndexedId.foundry o.foundry_id) d
set_foundry_id o d = d

abbrev pub update_many :
    (Output → OutputDocument → OutputDocument) → List OutputDocument → List OutputDocument
update_many f docs = map (λ d. f d.output d) docs

module _ (digest : Bytes → Bytes) where
  -- the loop over the outputs with an implicit id: the id of an NFT is made as an `AliasId` too
  unfoldable pub set_implicit_ids : List OutputId → List OutputDocument → List OutputDocument
  set_implicit_ids [] docs = docs
  set_implicit_ids (id ∷ ids) docs =
      set_implicit_ids ids
        (update_one id (set_indexed_id (IndexedId.alias (digest (as_bytes id)))) docs)

  -- the updates of `migrate_0`
  unfoldable pub index_outputs : List OutputDocument → List OutputDocument
  index_outputs docs =
      let outputs = filter_map (λ d. when (has_implicit_id d.output) d.output_id) docs in
      update_many set_foundry_id
        (update_many set_nft_id (update_many set_alias_id (set_implicit_ids outputs docs)))

module _ {Date Indexes E : Type 0} where
  abbrev pub store_indexes :
      MongoDb Date (OutputData Indexes)
      → Run E Indexes
      → MongoDb Date (OutputData Indexes) × Run E Done
  store_indexes db (ok indexes) =
      (record db { rest = record db.rest { indexes = indexes } }, ok done)
  store_indexes db (err e) = (db, err e)
  store_indexes db panic = (db, panic)

  -- one step after the other on the indexes; what was done before an error stays
  abbrev pub each_index :
      (String → Indexes → Run E Indexes)
      → List String
      → MongoDb Date (OutputData Indexes) × Run E Done
      → MongoDb Date (OutputData Indexes) × Run E Done
  each_index step [] result = result
  each_index step (name ∷ names) (db, ok _) =
      each_index step names (store_indexes db (step name db.rest.indexes))
  each_index step (name ∷ names) (db, err e) = (db, err e)
  each_index step (name ∷ names) (db, panic) = (db, panic)

  -- `migrate_0::Migrate::migrate`
  unfoldable pub migrate_0 :
      (Bytes → Bytes)
      → (String → Indexes → Run E Indexes)
      → (String → Indexes → Run E Indexes)
      → MongoDb Date (OutputData Indexes)
      → MongoDb Date (OutputData Indexes) × Run E Done
  migrate_0 digest drop_index create_index db =
      let documents = index_outputs digest db.rest.documents in
      let updated = record db { rest = record db.rest { documents = documents } } in
      each_index create_index ("output_indexed_id_index" ∷ []) (
        each_index drop_index
          ("output_alias_id_index" ∷ "output_foundry_id_index" ∷ "output_nft_id_index" ∷ [])
          (updated, ok done))

  -- `migrate_1::Migrate::migrate`
  unfoldable pub migrate_1 :
      (String → Indexes → Run E Indexes)
      → MongoDb Date (OutputData Indexes)
      → MongoDb Date (OutputData Indexes) × Run E Done
  migrate_1 drop_index db =
      each_index drop_index
        ("output_address_unlock_index" ∷ "output_storage_deposit_return_unlock_index"
          ∷ "output_timelock_unlock_index" ∷ "output_expiration_unlock_index"
          ∷ "output_state_controller_unlock_index" ∷ "output_governor_address_unlock_index"
          ∷ "output_immutable_alias_address_unlock_index" ∷ "block_parents_index" ∷ [])
        (db, ok done)

  -- `MIGRATIONS`; `date` is the macro `date!` of a year, a month and a day
  unfoldable pub migrations :
      (ℕ → ℕ → ℕ → Date)
      → (Bytes → Bytes)
      → (String → Indexes → Run E Indexes)
      → (String → Indexes → Run E Indexes)
      → List (DynMigration Date (OutputData Indexes) E)
  migrations date digest drop_index create_index =
      (record {
        version = record { id = 0; app_version = "1.0.0-beta.32"; date = date 2023 2 3 };
        body = migrate_0 digest drop_index create_index;
      })
      ∷ (record {
        version = record { id = 1; app_version = "1.0.0-beta.37"; date = date 2023 3 14 };
        body = migrate_1 drop_index;
      })
      ∷ []

-- `LatestMigration::version()`
unfoldable pub latest_version : {Date : Type 0} → (ℕ → ℕ → ℕ → Date) → MigrationVersion Date
latest_version date = record { id = 1; app_version = "1.0.0-beta.37"; date = date 2023 3 14 }
