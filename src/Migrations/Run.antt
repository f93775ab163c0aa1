-- ===== src/Migrations/Run.antt =====
-- `run_migrations` over migrations on a state of any type, and the migration that finishes the jobs
-- of a rebuild.
use selfprivacy_api.Jobs.Store.{JobStore, get_jobs, update}
use selfprivacy_api.Backup.ServiceJobs.{is_active}
use selfprivacy_api.Base.{
  ℕ, String, ◌≡◌, refl, Bool, true, false, not, ◌&&◌, ◌||◌, Option, none, some, List, [], ◌∷◌, inl,
  inr, str_eq, str_mem, if◌then◌else◌, keep, any, Bool-cases, Result, ok, err, Action,
}
use selfprivacy_api.Jobs.Model.{finished, Job, Update, update_of}

-- `Migration`
pub record Migration (S : Type 0) : Type 0 where
  pub get_migration_name : String
  pub is_migration_needed : Action S String Bool
  pub migrate : Action S String (Unit {0})

-- `data["api"].get("skippedMigrations", [])` of secrets.json, which may lack either
abbrev pub skipped_of : Option (Option (List String)) → List String
skipped_of none = []
skipped_of (some none) = []
skipped_of (some (some skipped)) = skipped

module _ {S : Type 0} where
  abbrev pub if_needed : Migration S → Result String Bool × S → S
  if_needed m (ok true, s) = (m.migrate s).1
  if_needed m (ok false, s) = s
  if_needed m (err e, s) = s

  -- The `try` block of one migration: an exception is logged.
  abbrev pub attempt : Migration S → S → S
  attempt m s = if_needed m (m.is_migration_needed s)

  -- The loop of `run_migrations`
  unfoldable pub run_each : (skipped_migrations : List String) → List (Migration S) → S → S
  unfolding str_mem
  run_each skipped_migrations [] s = s
  run_each skipped_migrations (m ∷ ms) s =
      run_each skipped_migrations ms
        (if str_mem m.get_migration_name skipped_migrations then s else attempt m s)

  -- `run_migrations`
  unfoldable pub run_migrations :
      (secrets : Option (Option (List String))) → (migrations : List (Migration S)) → S → S
  unfolding run_each str_mem
  run_migrations secrets migrations s =
      if str_mem "DISABLE_ALL" (skipped_of secrets)
      then s
      else run_each (skipped_of secrets) migrations s

  -- Where the migrations are not disabled, skipping some is running the others alone, in their
  -- order, whatever raises in between.
  pub run_each-keep :
      (skipped : List String) (ms : List (Migration S)) (s : S)
      → run_each skipped ms s
        ≡ run_each [] (keep (λ m. not (str_mem m.get_migration_name skipped)) ms) s
  unfolding run_each str_mem
  run_each-keep skipped [] s = refl
  run_each-keep skipped (m ∷ ms) s = elim (Bool-cases (str_mem m.get_migration_name skipped)) [
    | inl left_out ↦ rw left_out (run_each-keep skipped ms s)
    | inr run ↦ rw run (run_each-keep skipped ms (attempt m s))
  ]

-- A rebuild or an upgrade that has not ended
abbrev pub is_unfinished_rebuild : Job → Bool
is_unfinished_rebuild j =
    (str_eq j.type_id "system.nixos.rebuild" || str_eq j.type_id "system.nixos.upgrade")
    && is_active j.status

abbrev pub system_rebuilt : Update
system_rebuilt = record (update_of finished) {
  result = some "System rebuilt.";
  progress = some 100;
}

-- `CheckForSystemRebuildJobs.is_migration_needed`
unfoldable pub has_unfinished_rebuild : JobStore → Bool
unfolding get_jobs
has_unfinished_rebuild jobs = any is_unfinished_rebuild (get_jobs jobs)

unfoldable pub finish_each : (now : ℕ) → List Job → JobStore → JobStore
unfolding update
finish_each now [] jobs = jobs
finish_each now (j ∷ js) jobs =
    finish_each now js
      (if is_unfinished_rebuild j then (update now system_rebuilt j jobs).1 else jobs)

-- `CheckForSystemRebuildJobs.migrate`, with one reading of the clock
unfoldable pub finish_rebuilds : (now : ℕ) → JobStore → JobStore
unfolding finish_each get_jobs
finish_rebuilds now jobs = finish_each now (get_jobs jobs) jobs

unfoldable pub check_for_system_rebuild_jobs : (now : ℕ) → Migration JobStore
unfolding has_unfinished_rebuild finish_rebuilds
check_for_system_rebuild_jobs now = record {
  get_migration_name = "check_for_system_rebuild_jobs";
  is_migration_needed = λ jobs. (ok (has_unfinished_rebuild jobs), jobs);
  migrate = λ jobs. (ok tt, finish_rebuilds now jobs);
}
