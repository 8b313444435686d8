-- ===== src/EvaluationService/Reports.antt =====
-- evaluation-service/src/evaluation_service/reports.py: one row per interview, whose status is the
-- only coordination between deliveries. Each call is one conditional statement.
pub mod History
use repo_viva.Base.{
  ℕ, suc, ◌+◌, String, Bool, true, false, ◌&&◌, Option, none, some, List, [], ◌∷◌, ◌++◌, ◌==◌,
  if◌then◌else◌, is_some, first_where, update_where,
}

pub data ReportStatus : Type 0 where
  generating ready failed : ReportStatus

-- `summary` and `turn_evaluations` are the JSON texts that are stored.
pub record ReportContent : Type 0 where
  pub partial : Bool
  pub summary : String
  pub turn_evaluations : String
  pub model : String
  pub prompt_version : String

pub record Report : Type 0 where
  pub interview_id : ℕ
  pub repository_id : ℕ
  pub partial : Bool
  pub status : ReportStatus
  pub model : Option String
  pub prompt_version : Option String
  pub summary : Option String
  pub turn_evaluations : Option String
  pub error_message : Option String
  pub created_at : ℕ
  pub completed_at : Option ℕ

pub record PendingReport : Type 0 where
  pub interview_id : ℕ
  pub repository_id : ℕ
  pub partial : Bool

abbrev pub has_interview : ℕ → Report → Bool
has_interview iid r = r.interview_id == iid

abbrev pub is_generating : ReportStatus → Bool
is_generating generating = true
is_generating _ = false

abbrev pub is_ready : ReportStatus → Bool
is_ready ready = true
is_ready _ = false

abbrev pub is_failed : ReportStatus → Bool
is_failed failed = true
is_failed _ = false

abbrev pub blank_report : ℕ → PendingReport → Report
blank_report now p = record {
  interview_id = p.interview_id;
  repository_id = p.repository_id;
  partial = p.partial;
  status = generating;
  model = none;
  prompt_version = none;
  summary = none;
  turn_evaluations = none;
  error_message = none;
  created_at = now;
  completed_at = none;
}

abbrev pub is_failed_report : ℕ → Report → Bool
is_failed_report iid r = has_interview iid r && is_failed r.status

-- The SET of the ON CONFLICT clause: every column but the key.
abbrev pub restart : ℕ → PendingReport → Report → Report
restart now p r = record r {
  repository_id = p.repository_id;
  partial = p.partial;
  status = generating;
  model = none;
  prompt_version = none;
  summary = none;
  turn_evaluations = none;
  error_message = none;
  created_at = now;
  completed_at = none;
}

-- _CLAIM: the result is whether a row was returned.
unfoldable pub claim : List Report → ℕ → PendingReport → List Report × Bool
claim rs now p =
    if is_some (first_where (has_interview p.interview_id) rs)
    then (
      update_where (is_failed_report p.interview_id) (restart now p) rs,
      is_some (first_where (is_failed_report p.interview_id) rs),
    )
    else (rs ++ blank_report now p ∷ [], true)

unfoldable pub get_status : List Report → ℕ → Option ReportStatus
get_status rs iid = elim (first_where (has_interview iid) rs) [
  | none ↦ none
  | some r ↦ some r.status
]

abbrev pub is_generating_report : ℕ → Report → Bool
is_generating_report iid r = has_interview iid r && is_generating r.status

abbrev pub finish : ℕ → ReportContent → Report → Report
finish now c r = record r {
  status = ready;
  model = some c.model;
  prompt_version = some c.prompt_version;
  summary = some c.summary;
  turn_evaluations = some c.turn_evaluations;
  completed_at = some now;
}

abbrev pub give_up : ℕ → String → Report → Report
give_up now message r = record r {
  status = failed;
  error_message = some message;
  completed_at = some now;
}

-- _MARK_READY and _MARK_FAILED.
unfoldable pub mark_ready : List Report → ℕ → ℕ → ReportContent → List Report
mark_ready rs now iid c = update_where (is_generating_report iid) (finish now c) rs

unfoldable pub mark_failed : List Report → ℕ → ℕ → String → List Report
mark_failed rs now iid message = update_where (is_generating_report iid) (give_up now message) rs
