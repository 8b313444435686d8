-- ===== src/CoreApi/Models.antt =====
-- The tables of Core API, after core-api/src/core_api/repositories/models.py and
-- core-api/src/core_api/interviews/models.py, and the exceptions of its service layer.
-- Times are seconds of the clock that the source reads; a column of n characters refuses more.
use repo_viva.Base.{ℕ, String, Option, none, some, List, [], ◌∷◌, Result, ok, err}

pub data RepositoryStatus : Type 0 where
  queued in_progress ready failed : RepositoryStatus

pub record Repository : Type 0 where
  pub id : ℕ
  pub owner_user_id : ℕ
  pub github_url : String
  pub status : RepositoryStatus
  pub error_message : Option String
  pub created_at : ℕ
  pub updated_at : ℕ

pub data InterviewStatus : Type 0 where
  created active completed interrupted : InterviewStatus

pub record Interview : Type 0 where
  pub id : ℕ
  pub owner_user_id : ℕ
  pub repository_id : ℕ
  pub status : InterviewStatus
  pub error_message : Option String
  pub session_token_hash : String
  pub session_token_expires_at : ℕ
  pub session_token_consumed_at : Option ℕ
  pub created_at : ℕ
  pub updated_at : ℕ
  pub ended_at : Option ℕ

-- String(500) and String(1000).
abbrev pub max_url_length : ℕ
max_url_length = 500

abbrev pub max_error_length : ℕ
max_error_length = 1000

-- The database: both tables, oldest row first, and their id sequences.
pub record Db : Type 0 where
  pub repositories : List Repository
  pub next_repository_id : ℕ
  pub interviews : List Interview
  pub next_interview_id : ℕ

pub data RejectionReason : Type 0 where
  unknown expired consumed : RejectionReason

pub data ServiceError : Type 0 where
  multiple_results : ServiceError
  integrity_error : ServiceError
  data_error : ServiceError
  row_vanished : ServiceError
  illegal_transition : ServiceError
  repository_not_found : ServiceError
  repository_not_ready : RepositoryStatus → ServiceError
  token_rejected : RejectionReason → ServiceError

-- A service call returns the database and its result, or the exception that it raises.
abbrev pub Outcome : Type 0 → Type 0
Outcome A = Db × Result ServiceError A

-- `one_or_none()` raises on a second row.
abbrev pub one_or_none : {A : Type 0} → List A → Result ServiceError (Option A)
one_or_none [] = ok none
one_or_none (r ∷ []) = ok (some r)
one_or_none (r ∷ s ∷ rs) = err multiple_results
