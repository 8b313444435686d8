-- ===== src/Examples/Reports.antt =====
-- One ready report and one failed report: evaluation-service/src/evaluation_service.
use repo_viva.Base.{
  ℕ, ◌+◌, ◌*◌, ◌≤◌, ◌<◌, suc, ◌≡◌, ◌≢◌, refl, true, false, none, some, List, [], ◌∷◌, ok,
  first_where, All, length,
}
use repo_viva.EvaluationService.Reports.{
  ready, failed, ReportContent, Report, PendingReport, has_interview, is_generating, claim,
}
use repo_viva.EvaluationService.Reports.History.{
  Statement, claims, readies, fails, run, run_report_absorbs,
}
use repo_viva.EvaluationService.Generation.{Attempt, stores, raises_after, request_report}
use repo_viva.EvaluationService.Generation.Settles.{request_settles}
use repo_viva.EvaluationService.Grading.{
  TurnGrade, contains, enforce_grounding, ProviderAnswer, rate_limited, Usage, call, out_of_fuel,
  max_wait, max_rate_limit_waits,
}
use repo_viva.EvaluationService.Grading.Grounding.{citations, grounding_sound}
use repo_viva.EvaluationService.Grading.Provider.{call_bounded}

abbrev content : ReportContent
content = record {
  partial = false;
  summary = "{}";
  turn_evaluations = "[]";
  model = "gpt-oss";
  prompt_version = "v1";
}

abbrev done : Report
done = record {
  interview_id = 1;
  repository_id = 3;
  partial = false;
  status = ready;
  model = some "gpt-oss";
  prompt_version = some "v1";
  summary = some "{}";
  turn_evaluations = some "[]";
  error_message = none;
  created_at = 5;
  completed_at = some 6;
}

abbrev given_up : Report
given_up = record done {
  interview_id = 2;
  status = failed;
  summary = none;
  turn_evaluations = none;
  error_message = some "RateLimitError";
}

abbrev pub table : List Report
table = done ∷ given_up ∷ []

abbrev pending_report : ℕ → PendingReport
pending_report iid = record { interview_id = iid; repository_id = 3; partial = true }

abbrev history : List Statement
history =
    claims 7 (pending_report 1)
    ∷ claims 8 (pending_report 2)
    ∷ claims 9 (pending_report 4)
    ∷ fails 10 1 "late"
    ∷ readies 11 2 content
    ∷ []

run_report_absorbs_example : first_where (has_interview 1) (run table history) ≡ some done
run_report_absorbs_example = run_report_absorbs table history 1 done refl refl

-- The content is stored, but the call raises; the failure that follows finds it stored.
abbrev attempt : Attempt
attempt = record {
  content = ok content;
  ready_call = raises_after "connection lost";
  failed_call = stores;
}

attempt_returns : (request_report table 7 (pending_report 2) attempt).1 ≡ false
unfolding request_report claim
attempt_returns = refl

request_settles_example :
    (r : Report) × (first_where
        (has_interview 2)
        (request_report table 7 (pending_report 2) attempt).0
      ≡ some r)
    × (is_generating r.status ≡ false)
request_settles_example = request_settles table 7 (pending_report 2) attempt attempt_returns

abbrev grade : TurnGrade
grade = record {
  correctness = record { score = 4; justification = "sound" };
  clarity = record { score = 3; justification = "brief" };
  strengths = [];
  gaps = [];
  key_points =
      record { point = "retries"; chunk_ids = 11 ∷ 99 ∷ [] }
      ∷ record { point = "invented"; chunk_ids = 98 ∷ [] }
      ∷ [];
  evidence_chunk_ids = 12 ∷ 97 ∷ [];
}

abbrev grounded_grade : TurnGrade
grounded_grade = record grade {
  key_points = record { point = "retries"; chunk_ids = 11 ∷ [] } ∷ [];
  evidence_chunk_ids = 12 ∷ [];
}

grounds : enforce_grounding grade (11 ∷ 12 ∷ []) ≡ (grounded_grade, 3)
unfolding enforce_grounding
grounds = refl

grounding_sound_example :
    let (cleaned, dropped) = enforce_grounding grade (11 ∷ 12 ∷ []) in
    All
      (λ kp. (0 < length kp.chunk_ids) × All (λ i. contains (11 ∷ 12 ∷ []) i ≡ true) kp.chunk_ids)
      cleaned.key_points
    × All (λ i. contains (11 ∷ 12 ∷ []) i ≡ true) cleaned.evidence_chunk_ids
    × (citations cleaned.key_points + length cleaned.evidence_chunk_ids + dropped
        ≡ citations grade.key_points + length grade.evidence_chunk_ids)
grounding_sound_example = grounding_sound grade (11 ∷ 12 ∷ [])

-- A provider that asks for a pause of five seconds at each call.
abbrev busy : ℕ → ProviderAnswer
busy n = rate_limited (some 5000)

abbrev fresh_usage : Usage
fresh_usage = record { calls = 0; slept = 0; total_tokens = 0 }

busy_raises : (call busy fresh_usage).1 ≡ record { calls = 9; slept = 40000; total_tokens = 0 }
unfolding call
busy_raises = refl

call_bounded_example :
    ((call busy fresh_usage).0 ≢ out_of_fuel)
    × ((call busy fresh_usage).1.calls ≤ 0 + suc max_rate_limit_waits)
    × ((call busy fresh_usage).1.slept ≤ 0 + max_rate_limit_waits * max_wait)
call_bounded_example = call_bounded busy fresh_usage
