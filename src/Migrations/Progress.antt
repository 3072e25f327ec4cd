-- ===== src/Migrations/Progress.antt =====
-- The loop of `migrate`, run to its end.
use inx_chronicle.Common.{
  ℕ, suc, Option, none, some, List, [], ◌∷◌, ◌++◌, ◌≡◌, ◌≢◌, refl, sym, ap, ◌∙◌, Bool-cases, inl,
  inr, length,
}
use inx_chronicle.Common.Dict.{Dict, lookup}
use inx_chronicle.Common.Run.{Run, ok, err, panic, Done, done}
use inx_chronicle.Db.ApplicationState.{get-set_last_migration}
use inx_chronicle.Migrations.{
  MongoDb, DynMigration, option_beq, option_beq_iff, option_eq, version_id, last_id, record_version,
  dyn_migrate, go_on, round, migrate_loop, migrate, build_migrations,
}
use inx_chronicle.Migrations.Build.{
  last_of, IsFresh, HasDistinctIds, Leads, none-IsFresh, IsFresh-drop, HasDistinctIds-drop,
  last_of-append, IsFresh-last_of, build_migrations-Leads,
}

module _ {Date Data E : Type 0} where
  -- what running every migration of a list leaves
  abbrev pub run_all : List (DynMigration Date Data E) → MongoDb Date Data → MongoDb Date Data
  run_all [] db = db
  run_all (m ∷ ms) db = run_all ms (dyn_migrate m db).0

  -- every migration of the list succeeds on every database
  abbrev pub AllSucceed : List (DynMigration Date Data E) → Type 0
  AllSucceed [] = Unit
  AllSucceed (m ∷ ms) = ((db : MongoDb Date Data) → (m.body db).1 ≡ ok done) × AllSucceed ms

  last_id-record_version :
      (m : DynMigration Date Data E) (p : MongoDb Date Data × Run E Done)
      → p.1 ≡ ok done
      → (last_id (record_version m.version p).0 ≡ some m.version.id)
        × ((record_version m.version p).1 ≡ ok done)
  unfolding last_id
  last_id-record_version m (db, ok done) h =
      (ap version_id (get-set_last_migration m.version db.application_state), refl)
  last_id-record_version m (db, err e) h = cc
  last_id-record_version m (db, panic) h = cc

  pub last_id-dyn_migrate :
      (m : DynMigration Date Data E) (db : MongoDb Date Data)
      → (m.body db).1 ≡ ok done
      → (last_id (dyn_migrate m db).0 ≡ some m.version.id) × ((dyn_migrate m db).1 ≡ ok done)
  unfolding dyn_migrate
  last_id-dyn_migrate m db h = last_id-record_version m (m.body db) h

  go_on-ok : (p : MongoDb Date Data × Run E Done) → p.1 ≡ ok done → go_on p ≡ (p.0, none)
  go_on-ok (db, ok done) h = refl
  go_on-ok (db, err e) h = cc
  go_on-ok (db, panic) h = cc

  -- a round at a version that is not the latest runs the migration that the table gives
  pub round_runs :
      (latest : ℕ) (table : Dict (Option ℕ) (DynMigration Date Data E)) (db : MongoDb Date Data)
      (m : DynMigration Date Data E)
      → last_id db ≢ some latest
      → lookup (last_id db) table ≡ some m
      → round latest table db ≡ go_on (dyn_migrate m db)
  unfolding round
  round_runs latest table db m h found = elim (Bool-cases (option_beq (last_id db) (some latest))) [
    | inl same ↦ absurd (h ((option_beq_iff (last_id db) (some latest)).0 same))
    | inr other ↦ rw (other, found) refl
  ]

  pub loop_runs :
      (fuel latest : ℕ) (table : Dict (Option ℕ) (DynMigration Date Data E))
      (db : MongoDb Date Data) (m : DynMigration Date Data E)
      → last_id db ≢ some latest
      → lookup (last_id db) table ≡ some m
      → (m.body db).1 ≡ ok done
      → migrate_loop (suc fuel) latest table db
        ≡ migrate_loop fuel latest table (dyn_migrate m db).0
  unfolding migrate_loop
  loop_runs fuel latest table db m h found good =
      let e =
        round_runs latest table db m h found
        ∙ go_on-ok (dyn_migrate m db) (last_id-dyn_migrate m db good).1 in
      rw e refl

  round_at_latest :
      (latest : ℕ) (table : Dict (Option ℕ) (DynMigration Date Data E)) (db : MongoDb Date Data)
      → last_id db ≡ some latest
      → round latest table db ≡ (db, some (ok done))
  unfolding round
  round_at_latest latest table db h = rw ((option_beq_iff (last_id db) (some latest)).1 h) refl

  pub loop_at_latest :
      (fuel latest : ℕ) (table : Dict (Option ℕ) (DynMigration Date Data E))
      (db : MongoDb Date Data)
      → last_id db ≡ some latest
      → migrate_loop (suc fuel) latest table db ≡ some (db, ok done)
  unfolding migrate_loop
  loop_at_latest fuel latest table db h = rw (round_at_latest latest table db h) refl

  -- a database whose last migration is not the latest, when others follow it
  pub not_latest :
      (latest : ℕ) (prev : Option ℕ) (m : DynMigration Date Data E)
      (ms : List (DynMigration Date Data E))
      → IsFresh prev (m ∷ ms)
      → last_of (some m.version.id) ms ≡ some latest
      → prev ≢ some latest
  not_latest latest prev m ms fresh last e = IsFresh-last_of prev m ms fresh (e ∙ sym last)

  loop_completes :
      (latest : ℕ) (ms : List (DynMigration Date Data E))
      (table : Dict (Option ℕ) (DynMigration Date Data E)) (db : MongoDb Date Data)
      → Leads (last_id db) table ms
      → IsFresh (last_id db) ms
      → HasDistinctIds ms
      → last_of (last_id db) ms ≡ some latest
      → AllSucceed ms
      → (migrate_loop (suc (length ms)) latest table db ≡ some (run_all ms db, ok done))
        × (last_id (run_all ms db) ≡ some latest)
  loop_completes latest [] table db leads fresh distinct last good =
      (loop_at_latest 0 latest table db last, last)
  loop_completes latest (m ∷ ms) table db leads fresh distinct last good =
      let at = (last_id-dyn_migrate m db (good.0 db)).0 in
      let rest =
        loop_completes latest ms table (dyn_migrate m db).0 (rw at leads.1) (rw at distinct.0)
          distinct.1 (rw at last) good.1 in
      (
        loop_runs (suc (length ms)) latest table db m
              (not_latest latest (last_id db) m ms fresh last) leads.0 (good.0 db)
            ∙ rest.0,
        rest.1,
      )

  -- From a database whose last migration is any of the list, or none, and migrations of different
  -- versions that succeed, the loop ends after as many rounds as migrations are left and one more:
  -- it has run the ones that were left in their order, and recorded the latest version.
  pub migrate_completes :
      (latest : ℕ) (before after : List (DynMigration Date Data E)) (db : MongoDb Date Data)
      → HasDistinctIds (before ++ after)
      → last_of none (before ++ after) ≡ some latest
      → last_id db ≡ last_of none before
      → AllSucceed after
      → (migrate (suc (length after)) latest (before ++ after) db
          ≡ some (run_all after db, ok done))
        × (last_id (run_all after db) ≡ some latest)
  unfolding migrate
  migrate_completes latest before after db distinct last at good =
      loop_completes latest after (build_migrations (before ++ after)) db
        (rw at (build_migrations-Leads before after distinct))
        (rw at (IsFresh-drop none before after (none-IsFresh (before ++ after)) distinct))
        (HasDistinctIds-drop before after distinct)
        (rw at (sym (last_of-append none before after) ∙ last)) good
