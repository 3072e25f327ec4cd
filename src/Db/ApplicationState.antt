-- ===== src/Db/ApplicationState.antt =====
-- The singleton application state: src/db/mongodb/collections/application_state.rs. The collection
-- is the list of its documents. A query with the filter `doc! {}` reads the first of them, and an
-- update with that filter changes the first or, as it upserts, adds one. `time::Date` is a
-- parameter. Errors of the driver are left out.
use Prim.Native.String.{String}
use inx_chronicle.Common.{ℕ, Option, none, some, List, [], ◌∷◌, ◌≡◌, refl}
use inx_chronicle.Model.Milestone.{MilestoneIndexTimestamp}

pub record MigrationVersion (Date : Type 0) : Type 0 where
  pub id : ℕ
  pub app_version : String
  pub date : Date

pub record ApplicationStateDocument (Date : Type 0) : Type 0 where
  pub starting_index : Option MilestoneIndexTimestamp
  pub last_migration : Option (MigrationVersion Date)

module _ {Date : Type 0} where
  -- `ApplicationStateCollection::get_starting_index`
  unfoldable pub get_starting_index :
      List (ApplicationStateDocument Date) → Option MilestoneIndexTimestamp
  get_starting_index [] = none
  get_starting_index (doc ∷ docs) = doc.starting_index

  -- `ApplicationStateCollection::set_starting_index`
  unfoldable pub set_starting_index :
      MilestoneIndexTimestamp
      → List (ApplicationStateDocument Date)
      → List (ApplicationStateDocument Date)
  set_starting_index at [] = (record { starting_index = some at; last_migration = none }) ∷ []
  set_starting_index at (doc ∷ docs) = (record doc { starting_index = some at }) ∷ docs

  -- `ApplicationStateCollection::get_last_migration`
  unfoldable pub get_last_migration :
      List (ApplicationStateDocument Date) → Option (MigrationVersion Date)
  get_last_migration [] = none
  get_last_migration (doc ∷ docs) = doc.last_migration

  -- `ApplicationStateCollection::set_last_migration`
  unfoldable pub set_last_migration :
      MigrationVersion Date
      → List (ApplicationStateDocument Date)
      → List (ApplicationStateDocument Date)
  set_last_migration version [] =
      (record { starting_index = none; last_migration = some version }) ∷ []
  set_last_migration version (doc ∷ docs) = (record doc { last_migration = some version }) ∷ docs

  pub get-set_last_migration :
      (version : MigrationVersion Date) (docs : List (ApplicationStateDocument Date))
      → get_last_migration (set_last_migration version docs) ≡ some version
  unfolding get_last_migration set_last_migration
  get-set_last_migration version [] = refl
  get-set_last_migration version (doc ∷ docs) = refl
