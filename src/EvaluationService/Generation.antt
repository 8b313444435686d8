-- ===== src/EvaluationService/Generation.antt =====
-- evaluation-service/src/evaluation_service/generation.py, and the two handlers of worker.py that
-- feed it. What the pipeline returns and whether a store call raises are arguments.
pub mod Settles
use repo_viva.Base.{
  ℕ, String, Bool, true, false, not, ◌&&◌, Option, none, some, List, [], ◌∷◌, Result, ok, err,
  if◌then◌else◌, text_take,
}
use repo_viva.EvaluationService.Reports.{
  ReportStatus, ready, ReportContent, Report, PendingReport, claim, get_status, mark_ready,
  mark_failed,
}

-- _MAX_ERROR_LENGTH.
abbrev pub max_error_length : ℕ
max_error_length = 500

-- How a store call ends: with its effect, or with an exception before or after it.
pub data StoreCall : Type 0 where
  stores : StoreCall
  raises_before raises_after : String → StoreCall

-- One run: the pipeline's content or the text of its exception, and how the two store calls end.
pub record Attempt : Type 0 where
  pub content : Result String ReportContent
  pub ready_call : StoreCall
  pub failed_call : StoreCall

-- `mark_failed` under the handler: the result is whether the exception is raised again.
unfoldable pub store_failure : List Report → ℕ → ℕ → String → StoreCall → List Report × Bool
store_failure rs now iid message stores =
    (mark_failed rs now iid (text_take max_error_length message), false)
store_failure rs now iid message (raises_before _) = (rs, true)
store_failure rs now iid message (raises_after _) =
    (mark_failed rs now iid (text_take max_error_length message), true)

unfoldable pub store_content :
    List Report → ℕ → ℕ → ReportContent → Attempt → StoreCall → List Report × Bool
unfolding store_failure
store_content rs now iid c a stores = (mark_ready rs now iid c, false)
store_content rs now iid c a (raises_before message) =
    store_failure rs now iid message a.failed_call
store_content rs now iid c a (raises_after message) =
    store_failure (mark_ready rs now iid c) now iid message a.failed_call

abbrev pub store_outcome :
    List Report → ℕ → ℕ → Attempt → Result String ReportContent → List Report × Bool
store_outcome rs now iid a (ok c) = store_content rs now iid c a a.ready_call
store_outcome rs now iid a (err message) = store_failure rs now iid message a.failed_call

unfoldable pub run_generation : List Report → ℕ → PendingReport → Attempt → List Report × Bool
unfolding store_content store_failure
run_generation rs now p a = store_outcome rs now p.interview_id a a.content

abbrev pub is_ready_status : Option ReportStatus → Bool
is_ready_status (some ready) = true
is_ready_status _ = false

-- The result is the rows, and whether the message is redelivered.
unfoldable pub request_report : List Report → ℕ → PendingReport → Attempt → List Report × Bool
unfolding run_generation
request_report rs now p a =
    let (rs', claimed) = claim rs now p in
    if not claimed && is_ready_status (get_status rs' p.interview_id)
    then (rs', false)
    else run_generation rs' now p a

pub data InterviewOutcome : Type 0 where
  completed interrupted : InterviewOutcome

-- `_pending`: an interrupted interview gets a partial report.
abbrev pub is_partial : InterviewOutcome → Bool
is_partial interrupted = true
is_partial completed = false

abbrev pub pending : ℕ → ℕ → InterviewOutcome → PendingReport
pending iid rid outcome = record {
  interview_id = iid;
  repository_id = rid;
  partial = is_partial outcome;
}

-- `handle_interview_ended` and `handle_report_requested`.
unfoldable pub handle_report :
    List Report → ℕ → ℕ → ℕ → InterviewOutcome → Attempt → List Report × Bool
unfolding request_report
handle_report rs now iid rid outcome a = request_report rs now (pending iid rid outcome) a
