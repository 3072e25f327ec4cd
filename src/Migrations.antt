-- ===== src/Migrations.antt =====
-- The migrations of the database: src/bin/inx-chronicle/migrations/mod.rs, with the feature `inx`.
-- The database is its application state and the rest of it, `Data`. What a migration does to the
-- database is a parameter: it gives the database it leaves and how it ended, so that a migration
-- that fails may have written something. The errors that a migration returns are of the type `E`.
pub mod Build
pub mod Progress
pub mod Interrupted
pub mod Steps
pub mod Indexed
use inx_chronicle.Common.{
  ℕ, zero, suc, Bool, true, false, Option, none, some, List, [], ◌∷◌, ◌==◌, Eq, if◌then◌else◌, ◌≡◌,
  ◌↔◌, refl, arith, not,
}
use inx_chronicle.Common.Dict.{Dict, lookup, insert}
use inx_chronicle.Common.Run.{Run, ok, err, panic, Done, done}
use inx_chronicle.Db.ApplicationState.{
  MigrationVersion, ApplicationStateDocument, get_starting_index, get_last_migration,
  set_last_migration,
}

pub record MongoDb (Date Data : Type 0) : Type 0 where
  pub application_state : List (ApplicationStateDocument Date)
  pub rest : Data

pub record DynMigration (Date Data E : Type 0) : Type 0 where
  pub version : MigrationVersion Date
  pub body : MongoDb Date Data → MongoDb Date Data × Run E Done

pub data MigrationError (E : Type 0) : Type 0 where
  cannot_migrate_from : (id : ℕ) → MigrationError E
  migration_failure : MigrationError E
  failed : E → MigrationError E

-- `Option<usize>` as a key
abbrev pub option_beq : Option ℕ → Option ℕ → Bool
option_beq none none = true
option_beq (some a) (some b) = a == b
option_beq _ _ = false

pub option_beq_iff : (j k : Option ℕ) → (option_beq j k ≡ true) ↔ (j ≡ k)
option_beq_iff none none = ground arith
option_beq_iff none (some b) = ground arith
option_beq_iff (some a) none = ground arith
option_beq_iff (some a) (some b) = ground arith

instance abbrev pub option_eq : Eq (Option ℕ)
option_eq = record { beq = option_beq; beq_iff = option_beq_iff }

-- the `bail!`s for a version that no migration follows
abbrev pub stuck : {E : Type 0} → Option ℕ → MigrationError E
stuck none = migration_failure
stuck (some id) = cannot_migrate_from id

-- `.get_last_migration().await?.map(|mig| mig.id)`
abbrev pub version_id : {Date : Type 0} → Option (MigrationVersion Date) → Option ℕ
version_id none = none
version_id (some v) = some v.id

unfoldable pub last_id : {Date Data : Type 0} → MongoDb Date Data → Option ℕ
last_id db = version_id (get_last_migration db.application_state)

module _ {Date Data E : Type 0} where
  -- the loop of `build_migrations`, from the previous version on
  unfoldable pub build_from :
      Option ℕ
      → Dict (Option ℕ) (DynMigration Date Data E)
      → List (DynMigration Date Data E)
      → Dict (Option ℕ) (DynMigration Date Data E)
  build_from prev_version table [] = table
  build_from prev_version table (migration ∷ migrations) =
      build_from (some migration.version.id) (insert prev_version migration table) migrations

  unfoldable pub build_migrations :
      List (DynMigration Date Data E) → Dict (Option ℕ) (DynMigration Date Data E)
  build_migrations = build_from none []

  -- `set_last_migration(version)` after a migration that returned `Ok`
  abbrev pub record_version :
      MigrationVersion Date → MongoDb Date Data × Run E Done → MongoDb Date Data × Run E Done
  record_version version (db, ok _) =
      (record db { application_state = set_last_migration version db.application_state }, ok done)
  record_version version (db, err e) = (db, err e)
  record_version version (db, panic) = (db, panic)

  -- `DynMigration::migrate`
  unfoldable pub dyn_migrate :
      DynMigration Date Data E → MongoDb Date Data → MongoDb Date Data × Run E Done
  dyn_migrate m db = record_version m.version (m.body db)

  -- what one round of the loop of `migrate` does: `none` goes on to the next round
  abbrev pub go_on :
      MongoDb Date Data × Run E Done → MongoDb Date Data × Option (Run (MigrationError E) Done)
  go_on (db, ok _) = (db, none)
  go_on (db, err e) = (db, some (err (failed e)))
  go_on (db, panic) = (db, some panic)

  abbrev pub apply_found :
      Option (DynMigration Date Data E)
      → MongoDb Date Data
      → MongoDb Date Data × Option (Run (MigrationError E) Done)
  apply_found (some m) db = go_on (dyn_migrate m db)
  apply_found none db = (db, some (err (stuck (last_id db))))

  unfoldable pub round :
      ℕ
      → Dict (Option ℕ) (DynMigration Date Data E)
      → MongoDb Date Data
      → MongoDb Date Data × Option (Run (MigrationError E) Done)
  round latest table db =
      if option_beq (last_id db) (some latest)
      then (db, some (ok done))
      else apply_found (lookup (last_id db) table) db

  abbrev pub after_round :
      (MongoDb Date Data → Option (MongoDb Date Data × Run (MigrationError E) Done))
      → MongoDb Date Data × Option (Run (MigrationError E) Done)
      → Option (MongoDb Date Data × Run (MigrationError E) Done)
  after_round again (db, none) = again db
  after_round again (db, some result) = some (db, result)

  -- the loop of `migrate`, on fuel
  unfoldable pub migrate_loop :
      ℕ
      → ℕ
      → Dict (Option ℕ) (DynMigration Date Data E)
      → MongoDb Date Data
      → Option (MongoDb Date Data × Run (MigrationError E) Done)
  migrate_loop zero latest table db = none
  migrate_loop (suc fuel) latest table db =
      after_round (λ db'. migrate_loop fuel latest table db') (round latest table db)

  -- `migrate`, with the list `MIGRATIONS` and `LatestMigration::ID`
  unfoldable pub migrate :
      ℕ
      → ℕ
      → List (DynMigration Date Data E)
      → MongoDb Date Data
      → Option (MongoDb Date Data × Run (MigrationError E) Done)
  migrate fuel latest migrations db = migrate_loop fuel latest (build_migrations migrations) db

  abbrev pub nothing_done :
      MongoDb Date Data → Option (MongoDb Date Data × Run (MigrationError E) Done)
  nothing_done db = some (db, ok done)

  -- the `match` of `check_migration_version`: on the last migration, and the starting index
  abbrev pub check_found :
      {Index : Type 0}
      → Option (MigrationVersion Date)
      → Option Index
      → (MigrationVersion Date → Bool)
      → Option (MongoDb Date Data × Run (MigrationError E) Done)
      → MongoDb Date Data
      → Option (MongoDb Date Data × Run (MigrationError E) Done)
  check_found none none is_latest migrated db = nothing_done db
  check_found none (some index) is_latest migrated db = migrated
  check_found (some v) index is_latest migrated db =
      if not (is_latest v) then migrated else nothing_done db

  unfoldable pub check_migration_version :
      (MigrationVersion Date → MigrationVersion Date → Bool)
      → ℕ
      → MigrationVersion Date
      → List (DynMigration Date Data E)
      → MongoDb Date Data
      → Option (MongoDb Date Data × Run (MigrationError E) Done)
  check_migration_version same fuel latest_version migrations db =
      check_found (get_last_migration db.application_state)
        (get_starting_index db.application_state) (λ v. same v latest_version)
        (migrate fuel latest_version.id migrations db) db
