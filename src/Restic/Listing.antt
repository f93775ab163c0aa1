-- ===== src/Restic/Listing.antt =====
-- The listing of the snapshots: `_load_snapshots` and `get_snapshots` of
-- selfprivacy_api/backup/backuppers/restic_backupper.py.
use selfprivacy_api.Restic.Command.{args_of, ResticBackupper}
use selfprivacy_api.Restic.Vault.{give, Call, Machine}
use selfprivacy_api.Restic.Operations.{ask, unlocked_repo}
use selfprivacy_api.Restic.Json.{
  json_get, json_array, json_dict, type_error, json_text, item, parse_json_output, contains,
  failure, no_items, value_error, Failure, Items, Json,
}
use Prim.Native.String.{◌++◌ as str_append}
use selfprivacy_api.Base.{
  str_eq, ℕ, String, Option, none, some, List, [], ◌∷◌, if◌then◌else◌, Result, ok, err, ◌>>=◌,
}
use selfprivacy_api.Backup.Model.{BackupReason, explicit, auto, pre_restore, Snapshot}

-- `reason.value`
abbrev pub reason_value : BackupReason → String
reason_value explicit = "EXPLICIT"
reason_value auto = "AUTO"
reason_value pre_restore = "PRE_RESTORE"

-- The validation of the field `reason` by its model
unfoldable pub reason_of : String → Option BackupReason
reason_of t =
    if str_eq t "EXPLICIT"
    then some explicit
    else if str_eq t "AUTO"
    then some auto
    else if str_eq t "PRE_RESTORE"
    then some pre_restore
    else none

-- A text gives its characters when it is indexed.
abbrev chars : String → Items
chars String.[] = no_items
chars (String.◌∷◌ c s) = item (json_text (String.◌∷◌ c "")) (chars s)

-- `entry["tags"]`: only a dict can be indexed by a text.
unfoldable pub tags_of : Json → Result Failure Json
tags_of (json_dict d) = elim (json_get "tags" d) [ none ↦ err (failure "tags") | some t ↦ ok t ]
tags_of _ = err (type_error "indices must be integers")

-- The name of the service and the reason, from the tags. One tag alone is from an older version.
unfoldable pub from_tags : Items → Result Failure (Json × Json)
from_tags no_items = err (failure "list index out of range")
from_tags (item name no_items) = ok (name, json_text (reason_value explicit))
from_tags (item name (item reason _)) = ok (name, reason)

-- `len(tags)`, `tags[0]` and `tags[1]`
unfoldable pub service_and_reason : Json → Result Failure (Json × Json)
unfolding from_tags
service_and_reason (json_array tags) = from_tags tags
service_and_reason (json_text tags) = from_tags (chars tags)
service_and_reason (json_dict tags) = err (failure "no such key")
service_and_reason _ = err (type_error "object has no len()")

abbrev pub required : String → Json → Result Failure Json
required key (json_dict d) = elim (json_get key d) [ none ↦ err (failure key) | some j ↦ ok j ]
required key _ = err (type_error "indices must be integers")

abbrev invalid : Failure
invalid = value_error "validation error for Snapshot"

abbrev pub with_parsed :
    (id name : String) → Option ℕ → Option BackupReason → Result Failure Snapshot
with_parsed id name (some time) (some reason) =
    ok (record { id = id; service_name = name; created_at = time; reason = reason })
with_parsed id name _ _ = err invalid

-- `Snapshot(...)` with its validation
unfoldable pub snapshot_from :
    (parse_time : String → Option ℕ) → (id time name reason : Json) → Result Failure Snapshot
unfolding reason_of
snapshot_from parse_time (json_text id) (json_text time) (json_text name) (json_text reason) =
    with_parsed id name (parse_time time) (reason_of reason)
snapshot_from parse_time _ _ _ _ = err invalid

abbrev pub and_also : {A B : Type 0} → Result Failure A → (A → Result Failure B) → Result Failure B
and_also (ok a) f = f a
and_also (err e) f = err e

-- The block under `try`
unfoldable pub snapshot_of_entry : (parse_time : String → Option ℕ) → Json → Result Failure Snapshot
unfolding tags_of service_and_reason snapshot_from
snapshot_of_entry parse_time entry = and_also (tags_of entry) λ tags.
    and_also (service_and_reason tags) λ (name, reason).
      and_also (required "short_id" entry)
        λ id. and_also (required "time" entry) λ time. snapshot_from parse_time id time name reason

-- Only a `TypeError` is caught; the entry is left out.
abbrev pub collect :
    Result Failure Snapshot → Result Failure (List Snapshot) → Result Failure (List Snapshot)
collect (err (type_error e)) rest = rest
collect (err (value_error e)) rest = err (value_error e)
collect (err (failure e)) rest = err (failure e)
collect (ok snapshot) (err e) = err e
collect (ok snapshot) (ok snapshots) = ok (snapshot ∷ snapshots)

-- The loop of `get_snapshots`
unfoldable pub read_entries :
    (parse_time : String → Option ℕ) → Items → Result Failure (List Snapshot)
unfolding snapshot_of_entry
read_entries parse_time no_items = ok []
read_entries parse_time (item entry entries) =
    collect (snapshot_of_entry parse_time entry) (read_entries parse_time entries)

-- What iterates over the listing: the keys of a dict and the characters of a text are texts, which
-- are left out.
unfoldable pub read_listing :
    (parse_time : String → Option ℕ) → Json → Result Failure (List Snapshot)
unfolding read_entries
read_listing parse_time (json_array entries) = read_entries parse_time entries
read_listing parse_time (json_dict d) = ok []
read_listing parse_time (json_text t) = ok []
read_listing parse_time _ = err (type_error "object is not iterable")

abbrev cannot_load : String → Result Failure Json → Result Failure Json
cannot_load printed (ok j) = ok j
cannot_load printed (err (value_error e)) =
    err (value_error (str_append "Cannot load snapshots: " printed))
cannot_load printed (err e) = err e

abbrev pub listing_of : (loads : String → Option Json) → String → Result Failure Json
listing_of loads printed =
    if contains printed "Is there a repository at the following location?"
    then err (value_error (str_append "No repository! : " printed))
    else cannot_load printed (parse_json_output loads printed)

module _ {R : Type 0} where
  -- `_load_snapshots`
  unfoldable pub load_snapshots : Machine R → ResticBackupper → Call R Json
  unfolding ask contains parse_json_output
  load_snapshots m p =
      ask m p (args_of ("snapshots" ∷ "--json" ∷ [])) (λ done. listing_of m.loads done.printed)

  -- `get_snapshots`
  unfoldable pub get_snapshots : Machine R → ResticBackupper → Call R (List Snapshot)
  unfolding unlocked_repo load_snapshots read_listing
  get_snapshots m p =
      unlocked_repo m p do listing ← load_snapshots m p; give (read_listing m.parse_time listing)
