-- ===== src/Base/Time.antt =====
-- Python's `datetime`, to the second: a wall-clock reading without a time zone, or an instant.
-- An aware value is kept as its UTC instant, which is what the code compares.
-- selfprivacy_api/models/tokens/time.py and selfprivacy_api/utils/timeutils.py.
use Prim.Native.Nat.{ℕ}
use mathlib.Core.Bool.{Bool, false}
use mathlib.Core.Option.{Option, none, some}
use selfprivacy_api.Base.Tests.{ltb, ◌==◌}

pub data Datetime : Type 0 where
  naive aware : ℕ → Datetime

-- `dt.replace(tzinfo=timezone.utc)` on a naive value
abbrev pub ensure_timezone : Datetime → Datetime
ensure_timezone (naive t) = aware t
ensure_timezone (aware t) = aware t

abbrev pub ensure_tz_aware : Datetime → Datetime
ensure_tz_aware (naive t) = aware t
ensure_tz_aware (aware t) = aware t

-- `none` stands for the `ValueError` of a naive input.
abbrev pub ensure_tz_aware_strict : Datetime → Option Datetime
ensure_tz_aware_strict (naive _) = none
ensure_tz_aware_strict (aware t) = some (aware t)

-- the instant that a value is read as, UTC assumed
abbrev pub instant : Datetime → ℕ
instant (naive t) = t
instant (aware t) = t

-- `dt.replace(tzinfo=None)`
abbrev pub strip_timezone : Datetime → Datetime
strip_timezone (naive t) = naive t
strip_timezone (aware t) = naive t

-- `now` is `datetime.now(timezone.utc)`.
abbrev pub is_past : ℕ → Datetime → Bool
is_past now dt = ltb (instant (ensure_timezone dt)) now

-- `==`: a naive and an aware value differ.
abbrev pub datetime_eq : Datetime → Datetime → Bool
datetime_eq (naive a) (naive b) = a == b
datetime_eq (aware a) (aware b) = a == b
datetime_eq (naive _) (aware _) = false
datetime_eq (aware _) (naive _) = false
