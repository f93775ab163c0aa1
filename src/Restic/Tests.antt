-- ===== src/Restic/Tests.antt =====
-- The theorems on the backupper at concrete inputs. The remote is a log of the programs that ran.
use selfprivacy_api.Restic.SecretSequence.{perform_all-keeps_secret}
use selfprivacy_api.Restic.Entries.{read_listing-Lists, Tells, lists_one, lists_none}
use selfprivacy_api.Restic.StartBackup.{start_backup}
use selfprivacy_api.Restic.Snapshots.{start_backup-Ran, Began, Ran}
use selfprivacy_api.Backup.ServiceJobs.{Service}
use selfprivacy_api.Restic.Listing.{read_listing}
use selfprivacy_api.Restic.Sequence.{restore_it, forget_it, list_it, perform_all}
use selfprivacy_api.Restic.Command.{ResticBackupper}
use selfprivacy_api.Restic.Vault.{Machine, Vault}
use selfprivacy_api.Restic.Json.{
  no_fields, no_items, item, json_get, Fields, json_text, field, json_array, json_dict, Failure,
  Json,
}
use selfprivacy_api.Base.{
  if◌then◌else◌, str_eq, Option, refl, ◌≡◌, [], ok, none, some, true, false, ◌∷◌, String, List,
  Result,
}
use selfprivacy_api.Backup.Model.{explicit, auto, Snapshot}
use selfprivacy_api.Backup.Run.{World}
use selfprivacy_api.Jobs.Model.{created}
use selfprivacy_api.Jobs.Store.{add, JobStore}

abbrev summary_line : String
summary_line = "{\"message_type\":\"summary\"}\n"

abbrev summary : Json
summary = json_dict (
    field "message_type" (json_text "summary")
      (field "snapshot_id" (json_text "0123456789abcdef") no_fields))

-- `json.loads` of the one line that the backup prints
abbrev load : String → Option Json
load t = some summary

abbrev machine : Machine (List String)
machine = record {
  generate = "new secret";
  write_password_file = λ content log. (ok tt, log);
  popen = λ command log.
      (ok (record { printed = "restoring"; complaints = ""; returned_zero = true }), "popen" ∷ log);
  read_lines = λ command log. (ok (summary_line ∷ []), "lines" ∷ log);
  kill = λ command log. "kill" ∷ log;
  loads = load;
  percent = λ x. 50;
  parse_time = λ t. if str_eq t "t" then some 7 else none;
  now = 7;
  rounds = 600;
  make_temp_dir = λ log. (ok "/tmp/a", log);
  remove_temp_dir = λ path log. log;
  exists = λ path log. true;
  listdir = λ path log. (ok [], log);
  is_file_or_link = λ path log. true;
  is_dir = λ path log. false;
  unlink = λ path log. (ok tt, log);
  rmtree = λ path log. (ok tt, log);
}

abbrev backupper : ResticBackupper
backupper = record {
  login_flag = "--b2-account";
  key_flag = "--b2-key";
  storage_type = ":b2:";
  account = "account";
  key = "key";
  repo = "repo";
}

abbrev vault : Vault (List String)
vault = record { secret = some "secret"; remote = [] }

perform_all-keeps_secret_example :
    (perform_all machine backupper
      (list_it ∷ forget_it ("a" ∷ []) ∷ restore_it "a" ("/var/lib/gitea" ∷ []) true ∷ [])
      vault).secret
    ≡ some "secret"
perform_all-keeps_secret_example =
    perform_all-keeps_secret machine backupper "secret"
      (list_it ∷ forget_it ("a" ∷ []) ∷ restore_it "a" ("/var/lib/gitea" ∷ []) true ∷ []) vault refl

abbrev old_snapshot : Snapshot
old_snapshot = record { id = "01234567"; service_name = "gitea"; created_at = 7; reason = auto }

-- An entry as restic prints it
abbrev old_fields : Fields
old_fields = field "time" (json_text "t") (
    field "tree" (json_text "9a1b") (
      field "paths" (json_array (item (json_text "/var/lib/gitea") no_items)) (
        field "hostname" (json_text "server") (
          field "tags" (json_array (item (json_text "gitea") (item (json_text "AUTO") no_items))) (
            field "id" (json_text "0123456789abcdef")
              (field "short_id" (json_text "01234567") no_fields))))))

old_fields-Tells : Tells machine.parse_time old_fields old_snapshot
unfolding json_get
old_fields-Tells = record {
  time = "t";
  has_id = refl;
  has_time = refl;
  time_is = refl;
  has_tags = refl;
}

read_listing-Lists_example :
    read_listing machine.parse_time (json_array (item (json_dict old_fields) no_items))
    ≡ ok (old_snapshot ∷ [])
read_listing-Lists_example =
    read_listing-Lists machine.parse_time (item (json_dict old_fields) no_items) (old_snapshot ∷ [])
      (lists_one old_fields old_snapshot no_items [] old_fields-Tells lists_none)

abbrev no_jobs : JobStore
no_jobs = record { jobs = []; status_logs = []; progress_logs = [] }

abbrev gitea : Service
gitea = record {
  id = "gitea";
  display_name = "Forgejo";
  is_enabled = true;
  can_be_backed_up = true;
}

abbrev world : World (Vault (List String))
world = record {
  job = (add "u" 0 "Backup" "services.gitea.backup" "Backing up" none none created "" 0 no_jobs).0;
  server = record {
    storage = record {
      provider = none;
      period = none;
      initted = true;
      quotas = none;
      snapshots = [];
      last_backups = [];
    };
    jobs = no_jobs;
    job_eq = λ a b. str_eq a.uid b.uid;
    to_utc = λ t. t;
  };
  remote = vault;
}

abbrev new_snapshot : Snapshot
new_snapshot = record { id = "01234567"; service_name = "gitea"; created_at = 7; reason = explicit }

abbrev backed_up : Result Failure Snapshot × World (Vault (List String))
backed_up =
    start_backup machine backupper (λ id. some gitea) ("/var/lib/gitea" ∷ []) "gitea" explicit world

start_backup-Ran_example :
    (start : Vault (List String)) × Began machine backupper
      (λ id. some gitea)
      ("/var/lib/gitea" ∷ [])
      "gitea"
      explicit
      world
      start
    × Ran machine backupper
        (λ id. some gitea)
        ("/var/lib/gitea" ∷ [])
        "gitea"
        explicit
        new_snapshot
        start
        backed_up.1.remote
unfolding start_backup
start_backup-Ran_example =
    start_backup-Ran machine backupper (λ id. some gitea) ("/var/lib/gitea" ∷ []) "gitea" explicit
      world backed_up.1 new_snapshot refl
