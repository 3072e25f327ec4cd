-- ===== src/Tests/Migrations.antt =====
-- Databases at several versions, migrated. The indexes are a list of names, and dropping one that is
-- not there is an error.
use Prim.Native.String.{String}
use inx_chronicle.Common.{ℕ, ◌≡◌, refl, Option, none, some, [], ◌∷◌, ◌+◌, if◌then◌else◌}
use inx_chronicle.Common.Bytes.{Bytes}
use inx_chronicle.Common.Run.{Run, ok, err, done}
use inx_chronicle.Model.Output.{Output}
use inx_chronicle.Model.Address.{implicit}
use text.Mathlib.Text.{◌==◌}
use inx_chronicle.Db.Outputs.{
  OutputDocument, find_doc, from_output, to_ledger_output, stored_id, IndexedId,
}
use inx_chronicle.Db.ApplicationState.{get_last_migration, set_last_migration}
use inx_chronicle.Migrations.{MongoDb, DynMigration, failed, last_id, migrate, dyn_migrate}
use inx_chronicle.Migrations.Progress.{run_all, migrate_completes}
use inx_chronicle.Migrations.Interrupted.{migrate_fails}
use inx_chronicle.Migrations.Steps.{
  OutputData, migrations, migrate_0, migrate_1, index_outputs, set_implicit_ids,
}
use inx_chronicle.Migrations.Indexed.{index_outputs-stored}
use inx_chronicle.Tests.Ledger.{kept, address_of}

-- a database that takes every index operation
abbrev accept : String → ℕ → Run ℕ ℕ
accept name n = ok (n + 1)

-- one that has lost an index
abbrev refuse : String → ℕ → Run ℕ ℕ
refuse name n = if name == "output_timelock_unlock_index" then err 7 else ok (n + 1)

abbrev date : ℕ → ℕ → ℕ → ℕ
date y m d = d

abbrev alias_output : Output
alias_output = Output.alias record {
  amount = 5;
  native_tokens = [];
  alias_id = implicit;
  state_index = 0;
  state_metadata = [];
  foundry_counter = 0;
  state_controller_address_unlock_condition = record { address = address_of 1 };
  governor_address_unlock_condition = record { address = address_of 2 };
  features = [];
  immutable_features = [];
}

abbrev no_digest : Bytes → Bytes
no_digest bytes = bytes

abbrev fresh : MongoDb ℕ (OutputData ℕ)
fresh = record { application_state = []; rest = record { documents = []; indexes = 0 } }

migrate_completes_example :
    (migrate 3 1 (migrations date no_digest accept accept) fresh
      ≡ some (run_all (migrations date no_digest accept accept) fresh, ok done))
    × (last_id (run_all (migrations date no_digest accept accept) fresh) ≡ some 1)
unfolding migrations migrate_0 migrate_1 last_id get_last_migration
migrate_completes_example =
    migrate_completes 1 [] (migrations date no_digest accept accept) fresh
      (((λ e. cc), tt), (tt, tt)) refl refl ((λ db. refl), ((λ db. refl), tt))

abbrev first : DynMigration ℕ (OutputData ℕ) ℕ
first = record {
  version = record { id = 0; app_version = "1.0.0-beta.32"; date = 3 };
  body = migrate_0 no_digest accept accept;
}

abbrev second : DynMigration ℕ (OutputData ℕ) ℕ
second = record {
  version = record { id = 1; app_version = "1.0.0-beta.37"; date = 14 };
  body = migrate_1 refuse;
}

abbrev broken : MongoDb ℕ (OutputData ℕ)
broken = (migrate_1 {E = ℕ} refuse (run_all (first ∷ []) fresh)).0

migrate_fails_example :
    (migrate 2 1 (first ∷ second ∷ []) fresh ≡ some (broken, err (failed 7)))
    × (last_id broken ≡ some 0)
unfolding migrate_0 migrate_1 dyn_migrate set_last_migration last_id get_last_migration
    index_outputs set_implicit_ids
migrate_fails_example =
    migrate_fails 1 [] (first ∷ []) [] second fresh broken 7 (((λ e. cc), tt), (tt, tt)) refl refl
      ((λ db. refl), tt) refl refl

-- a document as the version before the first migration stored it
abbrev old_alias : OutputDocument
old_alias =
    let d = from_output no_digest (record kept { output = alias_output }) in
    record d { details = record d.details { indexed_id = none } }

index_outputs-stored_example :
    (id : Option IndexedId) × (find_doc kept.output_id (index_outputs no_digest (old_alias ∷ []))
      ≡ some (record old_alias { details = record old_alias.details { indexed_id = id } }))
    × (stored_id id
        ≡ stored_id (from_output no_digest (to_ledger_output old_alias)).details.indexed_id)
unfolding from_output
index_outputs-stored_example =
    index_outputs-stored no_digest (old_alias ∷ []) kept.output_id old_alias (refl, tt) refl refl
