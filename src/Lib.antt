-- ===== src/Lib.antt =====
-- The SelfPrivacy API: a daemon that manages a server for its owner. It keeps its state in Redis
-- (access tokens, jobs, the cache of backup snapshots) and in userdata.json (users, SSH keys, the
-- settings of services), and it acts on the machine by worker tasks that report through jobs.
--
-- The parts and the files that model them:
--
-- Tokens: selfprivacy_api/repositories/tokens/, selfprivacy_api/models/tokens/ and
--   selfprivacy_api/actions/api_tokens.py. Tokens/Models has the models with their `is_valid` and
--   `generate`, Tokens/Names the loop that makes a device name unique, Tokens/Repo the repository
--   and Tokens/Actions the functions the GraphQL mutations call. The state `Repo` is what Redis holds.
--   `Env` has what a call draws from outside: the clock, random bytes and digits, the MD5 hash and
--   the `mnemonic` package.
-- Jobs: selfprivacy_api/jobs/__init__.py. Jobs/Model has a job and the arguments of an update,
--   Jobs/Store the methods of the controller on the hashes `jobs:*` with their times to live and on
--   the two lists of logs. A key that expires goes away in a step of its own (Jobs/Reach), and no job is
--   added there as finished or failed, which no part of the program does. Jobs/Updated has what is read
--   after an update.
-- Backup: selfprivacy_api/backup/__init__.py, storage.py and jobs.py. Backup/Rotation prunes the
--   automatic snapshots, Backup/Storage is the cache with the methods that read and reload it,
--   Backup/ServiceJobs finds the jobs of a service in the store of Jobs, and Backup/Schedule decides
--   when a service is due. Backup/Slice chooses the snapshots of a full restore
--   (selfprivacy_api/backup/tasks.py), and Backup/Run is one backup. What the backup repository
--   lists is an argument; in Backup/Run the backupper and the hooks of the services are one.
--   Backup/Restore and Backup/InPlace are `restore_snapshot` with the `StoppedService` of
--   selfprivacy_api/services/service.py, and Backup/Tasks the tasks of selfprivacy_api/backup/tasks.py
--   that back up; each of them runs the methods of Backup/Run. Backup/FullRestore restores the chosen
--   snapshots and rebuilds the system.
-- Users: selfprivacy_api/repositories/users/json_user_repository.py and
--   selfprivacy_api/actions/ssh.py. Users/Data has the fields of userdata.json and the block of
--   `WriteUserData`, which writes only if nothing was raised; Users/Repo and Users/Ssh have the
--   functions. Hashing and the validation of a public key are arguments.
-- Kanidm: selfprivacy_api/repositories/users/kanidm_user_repository.py. Kanidm/Token is
--   `KanidmAdminToken`, Kanidm/Query `_send_query` with its second attempt, Kanidm/Person turns the
--   answers into users and groups, and Kanidm/Repo has the operations. The server, the programs
--   `kanidm` and `kanidmd` and the token file are the record `Kanidm`, over a remote state of any type.
-- Actions: selfprivacy_api/actions/users.py, in Actions/Users. The active provider is the record
--   `Provider` of Actions/Provider, which the Kanidm repository fills; the users of userdata.json come
--   from Users, the email passwords from Email. `GroupLaws` of Actions/Groups is what is asked of a
--   provider about a user it knows and the groups it has; a group that it does not have may raise.
-- Panel: selfprivacy_api/userpanel/auth/session.py, in Panel/Session. Redis drops a session at the
--   second named with it.
-- Moving: selfprivacy_api/services/moving.py, selfprivacy_api/services/owned_path.py and the methods
--   of selfprivacy_api/services/service.py that use them. Moving/Volume has the block devices and the
--   location of a service, Moving/Bind the mounted folders, Moving/Move the move of the
--   folders, and Moving/Service the task that stops the service around it. The commands on files and
--   mounts are the record `Mover`.
-- System: selfprivacy_api/jobs/upgrade_system.py, in System/Rebuild. systemd and the journal are the
--   record `Systemd`; the messages of the journal are reported before the wait for the unit ends.
--   System/Preferences has the time zone, the DNS provider and the automatic upgrades of
--   selfprivacy_api/actions/system.py.
-- Flake: selfprivacy_api/services/flake_service_manager.py, in Flake/Inputs. The programs of nix that
--   read, print and format an expression are the record `Nix`.
-- Binds: selfprivacy_api/jobs/migrate_to_binds.py. Binds/Config has the configuration and the fields
--   of userdata.json, Binds/Folder the move of one folder, Binds/Migrate the task. The services, the
--   devices and the commands on files are the record `BindSystem`.
-- Restic: selfprivacy_api/backup/backuppers/restic_backupper.py, selfprivacy_api/backup/util.py,
--   selfprivacy_api/backup/local_secret.py and selfprivacy_api/utils/waitloop.py. Restic/Json reads
--   the output, Restic/Vault has the secret and the record `Machine` of processes and files,
--   Restic/Command builds and censors a command, Restic/Operations, Listing, Upload, StartBackup and
--   Download have the methods, Restic/Providers the backupper of each provider, and Restic/Sequence
--   runs them one after the other. A number of the output is kept as it is written.
-- Registry: selfprivacy_api/services/__init__.py. Registry/Templates has the cache of the definitions
--   of services, Registry/Services the listing and the look-up. The two globals that change are the
--   record `Globals`; the files, the parser and the suggested services are the record `Site`. A service of
--   a definition has the id that its content names, so that the name of the file is this id is a
--   hypothesis on the files of the folder.
--   Registry/Stash is what `ServiceManager` does before and after a backup of the settings.
-- Migrations: selfprivacy_api/migrations/, in Migrations/Run and Migrations/InitialToken: the loop over
--   the migrations, and two of them.
-- Settings: selfprivacy_api/services/config_item.py and the subdomain test of
--   selfprivacy_api/utils/__init__.py, in Settings/Items. A regular expression is its pattern and an
--   arbitrary match function.
-- Email: selfprivacy_api/repositories/email_password/, selfprivacy_api/actions/email_passwords.py
--   and the check of selfprivacy_api/utils/self_service_portal_utils.py, in Email/Store. The store is a
--   dict by user of dicts by uuid; hashing and verifying are parameters, and so is which keys Redis
--   matches with the pattern that has a user's name in it (`Matches`, and Email/Keys on what it finds).
-- Base: lists and dicts of texts over the native numbers, dates, integers, and the exception and
--   state monad `Action`. A method that raises returns the state it leaves behind.
--
-- Dates are whole seconds. Redis hashes of a model are kept as the model; SCAN yields keys in the
-- order of insertion. A text that reads "None" comes back as None. In a field that a model requires this
-- makes the reading raise: Jobs/Store has `read_job` and Tokens/Reading `check_token` with that
-- exception, while `get_job`, `get_jobs`, `get_tokens` and what stands on them are the code where no
-- required text reads "None". A call reads the clock once, also where the code tests a recovery key at
-- two moments.
--
-- The one loop without a bound in the code is the one that adds digits to a device name until no
-- token has it. It runs on fuel: the length of the longest name plus two. Every round makes the name
-- longer by one, so a name longer than all others is reached before the fuel is spent. The loop of a
-- full restore that removes from the list it goes over runs on the length of the list, one round per
-- position. The loop of `wait_until_success` runs on the number of intervals until its time limit. The
-- other loops are recursion on lists.
--
-- Exceptions are texts or data of a component's own; names and numbers inside a text are left out
-- where no code reads them. A record of hooks has one clock for each call, read by number.
--
-- Not modelled: the GraphQL schema, the pages of the user panel, the templates of services, the
-- migrations that rewrite files, and the garbage collector. They are glue, input and output, or calls
-- of other programs, or build on the parts above.
pub mod Base
pub mod Tokens
pub mod Jobs
pub mod Backup
pub mod Settings
pub mod Email
pub mod Kanidm
pub mod Users
pub mod Actions
pub mod Panel
pub mod Moving
pub mod System
pub mod Flake
pub mod Binds
pub mod Restic
pub mod Registry
pub mod Migrations
