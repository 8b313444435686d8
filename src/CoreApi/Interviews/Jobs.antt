-- ===== src/CoreApi/Interviews/Jobs.antt =====
-- Which requests send a job again: core-api/src/core_api/interviews/router.py.
use repo_viva.Base.{
  ℕ, ◌≡◌, ◌≢◌, Bool, true, false, ◌&&◌, Option, none, some, List, [], ◌∷◌, arith, if◌then◌else◌,
  first_where, ap, ◌∙◌, refl,
}
use repo_viva.CoreApi.Models.{Interview, Db}
use repo_viva.CoreApi.Interviews.{has_interview_id, is_created, is_overdue, interrupt_overdue}
use repo_viva.CoreApi.Interviews.Table.{IsWellFormed, is_terminal}
use repo_viva.CoreApi.Interviews.Ending.{get_for_user}
use repo_viva.CoreApi.Interviews.Router.{
  PlanStatus, PlanResponse, ReportStatus, ReportResponse, Response, not_found_404, conflict_409,
  Answer, unreachable, answers, Job, owned, read_plan, get_plan_route, may_be_retried, retry_plan,
  retry_plan_route, read_report, if_ended, get_report_route, retry_report, retry_report_route,
}

-- The interview as the request finds it, after the sweep of overdue sessions.
abbrev pub swept : ℕ → ℕ → ℕ → Interview → Interview
swept owner now cutoff i = if is_overdue owner now cutoff i then interrupt_overdue now i else i

-- Nothing is held for the interview.
abbrev pub is_missing : {A : Type 0} → Answer A → Bool
is_missing unreachable = false
is_missing (answers none) = true
is_missing (answers (some _)) = false

-- The plan failed, and Voice Service says that another try can help.
abbrev pub is_worth_retrying : PlanStatus → Option Bool → Bool
is_worth_retrying PlanStatus.failed (some true) = true
is_worth_retrying PlanStatus.failed (some false) = false
is_worth_retrying PlanStatus.failed none = false
is_worth_retrying PlanStatus.generating retryable = false
is_worth_retrying PlanStatus.ready retryable = false

abbrev pub plan_wanted : Answer PlanResponse → Bool
plan_wanted unreachable = false
plan_wanted (answers none) = true
plan_wanted (answers (some p)) = is_worth_retrying p.plan_status p.retryable

abbrev pub report_wanted : Answer ReportResponse → Bool
report_wanted unreachable = false
report_wanted (answers none) = true
report_wanted (answers (some r)) = elim r.status [ ReportStatus.failed ↦ true | _ ↦ false ]

abbrev pub plan_job : Interview → Job
plan_job i = record { interview_id = i.id; repository_id = i.repository_id; outcome = none }

abbrev pub report_job : Interview → Job
report_job i = record {
  interview_id = i.id;
  repository_id = i.repository_id;
  outcome = some i.status;
}

read_plan-jobs :
    (plan : Answer PlanResponse) (sent : Bool) (j : Interview)
    → (read_plan sent plan j).0
      ≡ (if sent && (is_created j.status && is_missing plan) then plan_job j ∷ [] else [])
read_plan-jobs unreachable sent j = ground arith
read_plan-jobs (answers none) sent j = ground arith
read_plan-jobs (answers (some p)) sent j = ground arith

may_be_retried_lem :
    (p : PlanResponse) (s : PlanStatus) (r : Option Bool)
    → may_be_retried (record p { plan_status = s; retryable = r }) ≡ is_worth_retrying s r
may_be_retried_lem p PlanStatus.failed (some true) = refl
may_be_retried_lem p PlanStatus.failed (some false) = refl
may_be_retried_lem p PlanStatus.failed none = refl
may_be_retried_lem p PlanStatus.generating r = refl
may_be_retried_lem p PlanStatus.ready r = refl

retry_plan-jobs :
    (plan : Answer PlanResponse) (sent : Bool) (j : Interview)
    → (if is_created j.status then retry_plan sent plan j else ([], conflict_409 j.status)).0
      ≡ (if sent && (is_created j.status && plan_wanted plan) then plan_job j ∷ [] else [])
retry_plan-jobs unreachable sent j = ground arith
retry_plan-jobs (answers none) sent j = ground arith
retry_plan-jobs (answers (some p)) sent j =
    ground (arith, may_be_retried_lem p p.plan_status p.retryable)

read_report-jobs :
    (report : Answer ReportResponse) (sent : Bool) (j : Interview)
    → (if_ended (read_report sent report) j).0
      ≡ (if sent && (is_terminal j.status && is_missing report) then report_job j ∷ [] else [])
read_report-jobs unreachable sent j = ground arith
read_report-jobs (answers none) sent j = ground arith
read_report-jobs (answers (some r)) sent j = ground arith

retry_report-jobs :
    (report : Answer ReportResponse) (sent : Bool) (j : Interview)
    → (if_ended (retry_report sent report) j).0
      ≡ (if sent && (is_terminal j.status && report_wanted report) then report_job j ∷ [] else [])
retry_report-jobs unreachable sent j = ground arith
retry_report-jobs (answers none) sent j = ground arith
retry_report-jobs (answers (some r)) sent j = ground arith

module _ (db : Db) (now cutoff iid owner : ℕ) (i : Interview) (v : IsWellFormed db)
    (found : first_where (has_interview_id iid) db.interviews ≡ some i) where
  own :
      {A : Type 0} (f : Interview → List Job × Response A)
      → i.owner_user_id ≡ owner
      → (owned db now cutoff owner iid f).1 ≡ f (swept owner now cutoff i)
  own f mine = rw (get_for_user db now cutoff iid owner i v found) (ground (arith, mine))

  jobs_of :
      {A : Type 0} (f : Interview → List Job × Response A)
      → i.owner_user_id ≡ owner
      → (owned db now cutoff owner iid f).1.0 ≡ (f (swept owner now cutoff i)).0
  jobs_of {A} f mine = ap (λ (t : List Job × Response A). t.0) (own f mine)

  foreign :
      {A : Type 0} (f : Interview → List Job × Response A)
      → i.owner_user_id ≢ owner
      → (owned db now cutoff owner iid f).1 ≡ ([], not_found_404)
  foreign f other = rw (get_for_user db now cutoff iid owner i v found) (ground (arith, other))

  -- A read of the plan sends its job exactly when the interview has not started and Voice Service
  -- answers that it has no plan; a retry also when it answers that the plan failed and is
  -- retryable. A job that cannot be sent counts as not sent.
  pub plan_jobs_sent :
      (plan : Answer PlanResponse) (sent : Bool)
      → i.owner_user_id ≡ owner
      → ((get_plan_route db now cutoff owner iid plan sent).1.0 ≡ (
          if sent && (is_created (swept owner now cutoff i).status && is_missing plan)
          then plan_job (swept owner now cutoff i) ∷ []
          else []))
        × ((retry_plan_route db now cutoff owner iid plan sent).1.0 ≡ (
            if sent && (is_created (swept owner now cutoff i).status && plan_wanted plan)
            then plan_job (swept owner now cutoff i) ∷ []
            else []))
  unfolding get_plan_route retry_plan_route
  plan_jobs_sent plan sent mine = (
    jobs_of (read_plan sent plan) mine ∙ read_plan-jobs plan sent (swept owner now cutoff i),
    jobs_of
          (λ j. if is_created j.status then retry_plan sent plan j else ([], conflict_409 j.status))
          mine
        ∙ retry_plan-jobs plan sent (swept owner now cutoff i),
  )

  -- A read of the report sends its job exactly when the interview has ended, be it by the sweep of
  -- this very request, and Evaluation Service answers that it has no report; a retry also when the
  -- report failed. The job carries the final status.
  pub report_jobs_sent :
      (report : Answer ReportResponse) (sent : Bool)
      → i.owner_user_id ≡ owner
      → ((get_report_route db now cutoff owner iid report sent).1.0 ≡ (
          if sent && (is_terminal (swept owner now cutoff i).status && is_missing report)
          then report_job (swept owner now cutoff i) ∷ []
          else []))
        × ((retry_report_route db now cutoff owner iid report sent).1.0 ≡ (
            if sent && (is_terminal (swept owner now cutoff i).status && report_wanted report)
            then report_job (swept owner now cutoff i) ∷ []
            else []))
  unfolding get_report_route retry_report_route
  report_jobs_sent report sent mine = (
    jobs_of (if_ended (read_report sent report)) mine
        ∙ read_report-jobs report sent (swept owner now cutoff i),
    jobs_of (if_ended (retry_report sent report)) mine
        ∙ retry_report-jobs report sent (swept owner now cutoff i),
  )

  -- To any other user all four routes answer 404 and send nothing, whatever the services hold.
  pub foreign_gets_404 :
      (plan : Answer PlanResponse) (report : Answer ReportResponse) (sent : Bool)
      → i.owner_user_id ≢ owner
      → ((get_plan_route db now cutoff owner iid plan sent).1 ≡ ([], not_found_404))
        × ((retry_plan_route db now cutoff owner iid plan sent).1 ≡ ([], not_found_404))
        × ((get_report_route db now cutoff owner iid report sent).1 ≡ ([], not_found_404))
        × ((retry_report_route db now cutoff owner iid report sent).1 ≡ ([], not_found_404))
  unfolding get_plan_route retry_plan_route get_report_route retry_report_route
  foreign_gets_404 plan report sent other = (
    foreign (read_plan sent plan) other,
    foreign
        (λ j. if is_created j.status then retry_plan sent plan j else ([], conflict_409 j.status))
        other,
    foreign (if_ended (read_report sent report)) other,
    foreign (if_ended (retry_report sent report)) other,
  )
