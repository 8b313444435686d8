-- ===== src/CoreApi/Interviews/Router.antt =====
-- core-api/src/core_api/interviews/router.py: the routes that read and retry an interview's plan
-- and report. What Voice Service and Evaluation Service answer, and whether a job can be sent, are
-- arguments; a route returns the database, the jobs it sent and its response.
use repo_viva.Base.{
  ℕ, String, Bool, true, false, Option, none, some, List, [], ◌∷◌, Result, ok, err, if◌then◌else◌,
}
use repo_viva.CoreApi.Models.{InterviewStatus, Interview, Db, ServiceError}
use repo_viva.CoreApi.Interviews.{is_created, get_interview_for_user}
use repo_viva.CoreApi.Interviews.Table.{is_terminal}

pub data PlanStatus : Type 0 where
  generating ready failed : PlanStatus

pub record PlanResponse : Type 0 where
  pub interview_id : ℕ
  pub plan_status : PlanStatus
  pub error_message : Option String
  pub retryable : Option Bool

pub data ReportStatus : Type 0 where
  generating ready failed : ReportStatus

pub record ReportResponse : Type 0 where
  pub interview_id : ℕ
  pub status : ReportStatus
  pub partial : Option Bool
  pub model : Option String
  pub prompt_version : Option String
  pub summary : Option String
  pub turn_evaluations : Option String
  pub created_at : Option ℕ
  pub completed_at : Option ℕ

pub data Response (A : Type 0) : Type 0 where
  okay_200 accepted_202 : A → Response A
  not_found_404 unavailable_503 : Response A
  conflict_409 : InterviewStatus → Response A
  raises : ServiceError → Response A

-- VoiceServiceError or EvaluationServiceError, or what the service has for the interview.
pub data Answer (A : Type 0) : Type 0 where
  unreachable : Answer A
  answers : Option A → Answer A

-- A job names the interview, its repository, and for a report the interview's status.
pub record Job : Type 0 where
  pub interview_id : ℕ
  pub repository_id : ℕ
  pub outcome : Option InterviewStatus

-- _owned_interview, and what the route does with the interview.
abbrev pub on_owned :
    {A : Type 0}
    → Result ServiceError (Option Interview)
    → (Interview → List Job × Response A)
    → List Job × Response A
on_owned (err e) f = ([], raises e)
on_owned (ok none) f = ([], not_found_404)
on_owned (ok (some i)) f = f i

abbrev pub owned :
    {A : Type 0}
    → Db
    → ℕ
    → ℕ
    → ℕ
    → ℕ
    → (Interview → List Job × Response A)
    → Db × (List Job × Response A)
owned db now cutoff owner iid f =
    let (db', r) = get_interview_for_user db now cutoff iid owner in (db', on_owned r f)

abbrev pub generating_plan : ℕ → PlanResponse
generating_plan iid = record {
  interview_id = iid;
  plan_status = PlanStatus.generating;
  error_message = none;
  retryable = none;
}

-- request_plan, and the answer when it could be sent.
abbrev pub resend_plan : Interview → Bool → List Job × Response PlanResponse
resend_plan i true = (
  record { interview_id = i.id; repository_id = i.repository_id; outcome = none } ∷ [],
  okay_200 (generating_plan i.id),
)
resend_plan i false = ([], unavailable_503)

abbrev pub read_plan : Bool → Answer PlanResponse → Interview → List Job × Response PlanResponse
read_plan sent unreachable i = ([], unavailable_503)
read_plan sent (answers (some p)) i = ([], okay_200 p)
read_plan sent (answers none) i =
    if is_created i.status then resend_plan i sent else ([], not_found_404)

unfoldable pub get_plan_route :
    Db → ℕ → ℕ → ℕ → ℕ → Answer PlanResponse → Bool → Db × (List Job × Response PlanResponse)
get_plan_route db now cutoff owner iid plan sent =
    owned db now cutoff owner iid (read_plan sent plan)

-- `failed` and retryable.
abbrev pub may_be_retried : PlanResponse → Bool
may_be_retried p = elim p.plan_status [
  | PlanStatus.failed ↦ elim p.retryable [ some b ↦ b | none ↦ false ]
  | _ ↦ false
]

abbrev pub retry_plan : Bool → Answer PlanResponse → Interview → List Job × Response PlanResponse
retry_plan sent unreachable i = ([], unavailable_503)
retry_plan sent (answers none) i = resend_plan i sent
retry_plan sent (answers (some p)) i =
    if may_be_retried p then resend_plan i sent else ([], okay_200 p)

unfoldable pub retry_plan_route :
    Db → ℕ → ℕ → ℕ → ℕ → Answer PlanResponse → Bool → Db × (List Job × Response PlanResponse)
retry_plan_route db now cutoff owner iid plan sent =
    owned db now cutoff owner iid
      (λ i. if is_created i.status then retry_plan sent plan i else ([], conflict_409 i.status))

abbrev pub generating_report : ℕ → ReportResponse
generating_report iid = record {
  interview_id = iid;
  status = ReportStatus.generating;
  partial = none;
  model = none;
  prompt_version = none;
  summary = none;
  turn_evaluations = none;
  created_at = none;
  completed_at = none;
}

-- trigger_report, and the answer when it could be sent.
abbrev pub trigger_report : Interview → Bool → List Job × Response ReportResponse
trigger_report i true = (
  record { interview_id = i.id; repository_id = i.repository_id; outcome = some i.status } ∷ [],
  accepted_202 (generating_report i.id),
)
trigger_report i false = ([], unavailable_503)

abbrev pub show_report : ReportResponse → Response ReportResponse
show_report r = elim r.status [ ReportStatus.generating ↦ accepted_202 r | _ ↦ okay_200 r ]

abbrev pub read_report :
    Bool → Answer ReportResponse → Interview → List Job × Response ReportResponse
read_report sent unreachable i = ([], unavailable_503)
read_report sent (answers none) i = trigger_report i sent
read_report sent (answers (some r)) i = ([], show_report r)

-- _ended_interview.
abbrev pub if_ended :
    (Interview → List Job × Response ReportResponse)
    → Interview
    → List Job × Response ReportResponse
if_ended f i = if is_terminal i.status then f i else ([], not_found_404)

unfoldable pub get_report_route :
    Db → ℕ → ℕ → ℕ → ℕ → Answer ReportResponse → Bool → Db × (List Job × Response ReportResponse)
get_report_route db now cutoff owner iid report sent =
    owned db now cutoff owner iid (if_ended (read_report sent report))

abbrev pub retry_report :
    Bool → Answer ReportResponse → Interview → List Job × Response ReportResponse
retry_report sent unreachable i = ([], unavailable_503)
retry_report sent (answers none) i = trigger_report i sent
retry_report sent (answers (some r)) i = elim r.status [
  | ReportStatus.generating ↦ ([], accepted_202 r)
  | ReportStatus.ready ↦ ([], okay_200 r)
  | ReportStatus.failed ↦ trigger_report i sent
]

unfoldable pub retry_report_route :
    Db → ℕ → ℕ → ℕ → ℕ → Answer ReportResponse → Bool → Db × (List Job × Response ReportResponse)
retry_report_route db now cutoff owner iid report sent =
    owned db now cutoff owner iid (if_ended (retry_report sent report))
