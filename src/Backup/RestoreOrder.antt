-- ===== src/Backup/RestoreOrder.antt =====
-- What a full restore takes and in which order.
use selfprivacy_api.Base.{Bool, not, str_eq}
use selfprivacy_api.Backup.Model.{Snapshot}
use selfprivacy_api.Backup.Slice.{manager_id}

-- The loop with removal, on a slice whose last snapshot alone is the API's.
abbrev is_other : Snapshot → Bool
is_other x = not (str_eq x.service_name manager_id)
