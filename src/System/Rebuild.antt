-- ===== src/System/Rebuild.antt =====
-- `rebuild_system` of selfprivacy_api/jobs/upgrade_system.py and `add_rebuild_job` of
-- selfprivacy_api/actions/system.py. systemd and the journal are a parameter.
use Prim.Native.String.{◌++◌ as str_append}
use selfprivacy_api.Base.{
  ℕ, String, ◌≡◌, refl, Bool, none, some, List, [], ◌∷◌, if◌then◌else◌, Result, ok, err, Action,
  pure, raise, modify, ◌>>=◌, ◌>>◌,
}
use selfprivacy_api.Backup.Restore.{
  ServiceStatus, inactive, failed, Waited, in_time, timed_out, interrupted, status_text,
}
use selfprivacy_api.Jobs.Model.{created, running, finished, error, Job, Update, update_of}
use selfprivacy_api.Jobs.Store.{JobStore, add, update}

pub record JobWorld (R : Type 0) : Type 0 where
  pub job : Job
  pub jobs : JobStore
  pub remote : R

-- `messages` is what the journal says while the rebuild runs. The waiting has the time limits of
-- the code.
pub record Systemd (R : Type 0) : Type 0 where
  pub clock : ℕ → ℕ
  pub messages : List String
  pub start_unit : (unit_name : String) → Action R String (Unit {0})
  pub wait_active : (unit_name : String) → R → Waited × R
  pub wait_stopped : (unit_name : String) → R → Waited × R
  pub unit_status : (unit_name : String) → Action R String ServiceStatus
  pub last_log_lines : (unit_name : String) → Action R String (List String)

abbrev pub join_lines : List String → String
join_lines [] = ""
join_lines (x ∷ []) = x
join_lines (x ∷ y ∷ xs) = str_append x (str_append "\n" (join_lines (y ∷ xs)))

abbrev pub with_log : String → List String → Update
with_log text_ lines = record (update_of error) {
  error_text = some (str_append text_ (str_append " Last log lines:\n" (join_lines lines)));
}

abbrev pub rebuilt : Update
rebuilt = record (update_of finished) { result = some "System rebuilt."; progress = some 100 }

abbrev pub unit_of : (upgrade : Bool) → String
unit_of upgrade = if upgrade then "sp-nixos-upgrade.service" else "sp-nixos-rebuild.service"

-- `add_rebuild_job`
unfoldable pub add_rebuild_job : String → ℕ → JobStore → Job × JobStore
unfolding add
add_rebuild_job uid now =
    add uid now "Rebuild system" "system.nixos.rebuild"
      "Applying the new system configuration by building the new NixOS generation." none none
      created "" 0

module _ {R : Type 0} where
  abbrev pub on_system : {A : Type 0} → Action R String A → Action (JobWorld R) String A
  on_system m w = let (r, remote') = m w.remote in (r, record w { remote = remote' })

  -- `Jobs.update(job, ...)`
  abbrev pub report : ℕ → Update → Action (JobWorld R) String (Unit {0})
  report now u =
      modify λ w. (let (j, js) = update now u w.job w.jobs in record w { job = j; jobs = js })

  -- The end of a rebuild that failed or took too long.
  abbrev pub report_log : Systemd R → String → String → Action (JobWorld R) String (Unit {0})
  report_log b unit_name text_ = do
    lines ← on_system (b.last_log_lines unit_name)
    report (b.clock 4) (with_log text_ lines)

  -- `report_active_rebuild_log`
  unfoldable pub report_active_rebuild_log :
      Systemd R → List String → Action (JobWorld R) String (Unit {0})
  unfolding update
  report_active_rebuild_log b [] = pure tt
  report_active_rebuild_log b (m ∷ ms) = do
    report (b.clock 3) (status_text running m)
    report_active_rebuild_log b ms

  -- What follows a wait.
  abbrev pub after_wait :
      Systemd R
      → String
      → (next : Action (JobWorld R) String (Unit {0})) → Waited
      → Action (JobWorld R) String (Unit {0})
  after_wait b unit_name next in_time = next
  after_wait b unit_name next timed_out = report_log b unit_name "System rebuild timed out."
  after_wait b unit_name next (interrupted e) = raise e

  abbrev pub wait_for : (R → Waited × R) → Action (JobWorld R) String Waited
  wait_for f w = (ok (f w.remote).0, record w { remote = (f w.remote).1 })

  abbrev pub report_status :
      Systemd R → String → ServiceStatus → Action (JobWorld R) String (Unit {0})
  report_status b unit_name inactive = report (b.clock 4) rebuilt
  report_status b unit_name failed = report_log b unit_name "System rebuild failed."
  report_status b unit_name _ = pure tt

  -- From the start of the unit on.
  unfoldable pub watch_rebuild : Systemd R → String → Action (JobWorld R) String (Unit {0})
  unfolding report_active_rebuild_log update
  watch_rebuild b unit_name = do
    report (b.clock 2) (status_text running "Rebuilding the system...")
    report_active_rebuild_log b b.messages
    waited ← wait_for (b.wait_stopped unit_name)
    after_wait b unit_name
        (do status ← on_system (b.unit_status unit_name); report_status b unit_name status) waited

  -- The block under `try`.
  unfoldable pub run_unit : Systemd R → String → Action (JobWorld R) String (Unit {0})
  unfolding watch_rebuild update
  run_unit b unit_name = do
    on_system (b.start_unit unit_name)
    report (b.clock 1) (status_text running "Starting the system rebuild...")
    waited ← wait_for (b.wait_active unit_name)
    after_wait b unit_name (watch_rebuild b unit_name) waited

  abbrev pub reporting_error :
      Systemd R → Result String (Unit {0}) × JobWorld R → Result String (Unit {0}) × JobWorld R
  reporting_error b (ok u, w) = (ok tt, w)
  reporting_error b (err e, w) = report (b.clock 5) (status_text error e) w

  unfoldable pub rebuild_system :
      Systemd R → (upgrade : Bool) → Action (JobWorld R) String (Unit {0})
  unfolding run_unit update
  rebuild_system b upgrade w = reporting_error b (run_unit b (unit_of upgrade) w)

  reporting_error-ok :
      (b : Systemd R) (q : Result String (Unit {0}) × JobWorld R) → (reporting_error b q).0 ≡ ok tt
  reporting_error-ok b (ok u, w) = refl
  reporting_error-ok b (err e, w) = refl

  -- A rebuild never raises, whatever systemd does: what went wrong stands in its job alone.
  pub rebuild_system-ok :
      (b : Systemd R) (upgrade : Bool) (w : JobWorld R) → (rebuild_system b upgrade w).0 ≡ ok tt
  unfolding rebuild_system
  rebuild_system-ok b upgrade w = reporting_error-ok b (run_unit b (unit_of upgrade) w)
