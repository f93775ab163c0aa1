-- ===== src/Jobs/Model.antt =====
-- `JobStatus` and `Job` of selfprivacy_api/jobs/__init__.py, and the keyword arguments of
-- `Jobs.update`. Dates are seconds of local time, progress is a natural number.
use selfprivacy_api.Base.{ℕ, String, Bool, true, false, Option, none, Dict}

pub data JobStatus : Type 0 where
  created running finished error : JobStatus

-- `status in (JobStatus.FINISHED, JobStatus.ERROR)`
abbrev pub is_terminal : JobStatus → Bool
is_terminal finished = true
is_terminal error = true
is_terminal _ = false

abbrev pub status_eq : JobStatus → JobStatus → Bool
status_eq created created = true
status_eq running running = true
status_eq finished finished = true
status_eq error error = true
status_eq _ _ = false

-- The dicts that go with a translatable text.
abbrev pub Args : Type 0
Args = Option (Dict String)

pub record Job : Type 0 where
  pub uid : String
  pub type_id : String
  pub name : String
  pub description : String
  pub name_args : Args
  pub description_args : Args
  pub status : JobStatus
  pub status_text : Option String
  pub status_text_args : Args
  pub progress : Option ℕ
  pub created_at : ℕ
  pub updated_at : ℕ
  pub finished_at : Option ℕ
  pub error_text : Option String
  pub error_args : Args
  pub result : Option String
  pub result_args : Args

pub record Update : Type 0 where
  pub status : JobStatus
  pub status_text : Option String
  pub status_text_args : Args
  pub progress : Option ℕ
  pub name : Option String
  pub name_args : Args
  pub description : Option String
  pub description_args : Args
  pub error_text : Option String
  pub error_args : Args
  pub result : Option String
  pub result_args : Args

-- A call with the status alone: every other argument has its default.
abbrev pub update_of : JobStatus → Update
update_of s = record {
  status = s;
  status_text = none;
  status_text_args = none;
  progress = none;
  name = none;
  name_args = none;
  description = none;
  description_args = none;
  error_text = none;
  error_args = none;
  result = none;
  result_args = none;
}
