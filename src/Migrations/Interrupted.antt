-- ===== src/Migrations/Interrupted.antt =====
-- Migrations that stop with an error, and the check at the start of the program.
use inx_chronicle.Common.{
  ℕ, suc, Bool, true, Option, none, some, List, [], ◌∷◌, ◌++◌, ◌≡◌, ◌≢◌, ◌↔◌, ◌⊎◌, refl, sym, ◌∙◌,
  length, Bool-cases, inl, inr,
}
use inx_chronicle.Common.Dict.{Dict, lookup}
use inx_chronicle.Common.Run.{ok, err, done}
use inx_chronicle.Db.ApplicationState.{MigrationVersion, get_last_migration, get_starting_index}
use inx_chronicle.Migrations.{
  MongoDb, DynMigration, failed, cannot_migrate_from, option_eq, option_beq, option_beq_iff,
  last_id, dyn_migrate, go_on, round, migrate_loop, migrate, build_migrations,
  check_migration_version,
}
use inx_chronicle.Migrations.Build.{
  last_of, IsFresh, HasDistinctIds, Leads, none-IsFresh, lookup-build_from_fresh, IsFresh-drop,
  HasDistinctIds-drop, last_of-append, build_migrations-Leads,
}
use inx_chronicle.Migrations.Progress.{
  run_all, AllSucceed, last_id-dyn_migrate, round_runs, loop_runs, not_latest,
}

module _ {Date Data E : Type 0} where
  dyn_migrate_err :
      (m : DynMigration Date Data E) (db db' : MongoDb Date Data) (e : E)
      → m.body db ≡ (db', err e)
      → go_on (dyn_migrate m db) ≡ (db', some (err (failed e)))
  unfolding dyn_migrate
  dyn_migrate_err m db db' e h = rw h refl

  loop_stops :
      (latest : ℕ) (table : Dict (Option ℕ) (DynMigration Date Data E)) (db db' : MongoDb Date Data)
      (m : DynMigration Date Data E) (e : E)
      → last_id db ≢ some latest
      → lookup (last_id db) table ≡ some m
      → m.body db ≡ (db', err e)
      → migrate_loop 1 latest table db ≡ some (db', err (failed e))
  unfolding migrate_loop
  loop_stops latest table db db' m e h found fails =
      rw (round_runs latest table db m h found ∙ dyn_migrate_err m db db' e fails) refl

  loop_fails :
      (latest : ℕ) (mid after : List (DynMigration Date Data E)) (m : DynMigration Date Data E)
      (table : Dict (Option ℕ) (DynMigration Date Data E)) (db db' : MongoDb Date Data) (e : E)
      → Leads (last_id db) table (mid ++ m ∷ after)
      → IsFresh (last_id db) (mid ++ m ∷ after)
      → HasDistinctIds (mid ++ m ∷ after)
      → last_of (last_id db) (mid ++ m ∷ after) ≡ some latest
      → AllSucceed mid
      → m.body (run_all mid db) ≡ (db', err e)
      → (migrate_loop (suc (length mid)) latest table db ≡ some (db', err (failed e)))
        × (last_id (run_all mid db) ≡ last_of (last_id db) mid)
  loop_fails latest [] after m table db db' e leads fresh distinct last good fails = (
    loop_stops latest table db db' m e (not_latest latest (last_id db) m after fresh last) leads.0
        fails,
    refl,
  )
  loop_fails latest (n ∷ mid) after m table db db' e leads fresh distinct last good fails =
      let at = (last_id-dyn_migrate n db (good.0 db)).0 in
      let rest =
        loop_fails latest mid after m table (dyn_migrate n db).0 db' e (rw at leads.1)
          (rw at distinct.0) distinct.1 (rw at last) good.1 fails in
      (
        loop_runs (suc (length mid)) latest table db n
              (not_latest latest (last_id db) n (mid ++ m ∷ after) fresh last) leads.0 (good.0 db)
            ∙ rest.0,
        rw (sym at) rest.1,
      )

  -- When the migrations before one succeed and it fails with an error, leaving the recorded version
  -- as it was, the loop ends with that error, the later migrations do not run, and the recorded
  -- version is that of the last migration that succeeded: the next start goes on from there.
  pub migrate_fails :
      (latest : ℕ) (before mid after : List (DynMigration Date Data E))
      (m : DynMigration Date Data E) (db db' : MongoDb Date Data) (e : E)
      → HasDistinctIds (before ++ (mid ++ m ∷ after))
      → last_of none (before ++ (mid ++ m ∷ after)) ≡ some latest
      → last_id db ≡ last_of none before
      → AllSucceed mid
      → m.body (run_all mid db) ≡ (db', err e)
      → last_id db' ≡ last_id (run_all mid db)
      → (migrate (suc (length mid)) latest (before ++ (mid ++ m ∷ after)) db
          ≡ some (db', err (failed e)))
        × (last_id db' ≡ last_of none (before ++ mid))
  unfolding migrate
  migrate_fails latest before mid after m db db' e distinct last at good fails kept =
      let rest = mid ++ m ∷ after in
      let ends =
        loop_fails latest mid after m (build_migrations (before ++ rest)) db db' e
          (rw at (build_migrations-Leads before rest distinct))
          (rw at (IsFresh-drop none before rest (none-IsFresh (before ++ rest)) distinct))
          (HasDistinctIds-drop before rest distinct)
          (rw at (sym (last_of-append none before rest) ∙ last)) good fails in
      (ends.0, kept ∙ ends.1 ∙ rw at (sym (last_of-append none before mid)))

  lookup_unknown :
      (id : ℕ) (migrations : List (DynMigration Date Data E))
      → IsFresh (some id) migrations
      → lookup (some id) (build_migrations migrations) ≡ none
  unfolding build_migrations
  lookup_unknown id migrations fresh =
      lookup-build_from_fresh (some id) none [] migrations (λ e. cc) fresh

  round_unknown :
      (latest id : ℕ) (migrations : List (DynMigration Date Data E)) (db : MongoDb Date Data)
      → IsFresh (some id) migrations
      → id ≢ latest
      → last_id db ≡ some id
      → round latest (build_migrations migrations) db ≡ (db, some (err (cannot_migrate_from id)))
  unfolding round
  round_unknown latest id migrations db fresh other at =
      elim (Bool-cases (option_beq (some id) (some latest))) [
        | inl same ↦ absurd (other (cc ((option_beq_iff (some id) (some latest)).0 same)))
        | inr differ ↦ rw (at, differ, lookup_unknown id migrations fresh) (rw at refl)
      ]

  -- A database whose recorded version is neither the latest nor that of any migration is left as it
  -- is, and the error names the version.
  pub migrate_unknown :
      (fuel latest id : ℕ) (migrations : List (DynMigration Date Data E)) (db : MongoDb Date Data)
      → IsFresh (some id) migrations
      → id ≢ latest
      → last_id db ≡ some id
      → migrate (suc fuel) latest migrations db ≡ some (db, err (cannot_migrate_from id))
  unfolding migrate migrate_loop
  migrate_unknown fuel latest id migrations db fresh other at =
      rw (round_unknown latest id migrations db fresh other at) refl

  -- The check at the start leaves a database alone that records neither a version nor a starting
  -- index, which is the first run, and one that records the latest version.
  pub check_migration_version-idle :
      (same : MigrationVersion Date → MigrationVersion Date → Bool) (fuel : ℕ)
      (latest : MigrationVersion Date) (migrations : List (DynMigration Date Data E))
      (db : MongoDb Date Data)
      → ((v w : MigrationVersion Date) → (same v w ≡ true) ↔ (v ≡ w))
      → ((get_last_migration db.application_state ≡ none)
          × (get_starting_index db.application_state ≡ none))
        ⊎ (get_last_migration db.application_state ≡ some latest)
      → check_migration_version same fuel latest migrations db ≡ some (db, ok done)
  unfolding check_migration_version
  check_migration_version-idle same fuel latest migrations db same_iff
        (inl (no_version, no_index)) =
      rw (no_version, no_index) refl
  check_migration_version-idle same fuel latest migrations db same_iff (inr at) =
      rw (at, (same_iff latest latest).1 refl) refl
