-- ===== src/Examples/Interviews.antt =====
-- Three interviews and a token: core-api/src/core_api/interviews/service.py.
use repo_viva.Base.{
  String, ◌≡◌, refl, true, none, some, List, [], ◌∷◌, arith, ok, err, first_where, text_append,
}
use repo_viva.CoreApi.Models.{created, active, completed, Interview, Db, token_rejected, consumed}
use repo_viva.CoreApi.Interviews.{
  has_interview_id, activate, consume_session_token, session_of, completes, interrupts,
}
use repo_viva.CoreApi.Worker.{returns, handle_interview_ended, end_event_settles}
use repo_viva.CoreApi.Interviews.Table.{IsWellFormed}
use repo_viva.CoreApi.Interviews.History.{
  Call, consumes, sweeps, ends, run, run_interviews-IsWellFormed, run_terminal_absorbs,
}
use repo_viva.CoreApi.Interviews.Tokens.{consume_once}
use repo_viva.CoreApi.Interviews.Router.{
  answers, get_plan_route, retry_plan_route, get_report_route, retry_report_route,
}
use repo_viva.CoreApi.Interviews.Jobs.{plan_job, report_job, plan_jobs_sent, report_jobs_sent}

-- A stand-in for SHA-256.
abbrev pub digest : String → String
digest raw = text_append "sha256:" raw

abbrev waiting : Interview
waiting = record {
  id = 1;
  owner_user_id = 7;
  repository_id = 3;
  status = created;
  error_message = none;
  session_token_hash = "sha256:first";
  session_token_expires_at = 100;
  session_token_consumed_at = none;
  created_at = 1;
  updated_at = 1;
  ended_at = none;
}

abbrev running : Interview
running = record waiting {
  id = 2;
  status = active;
  session_token_hash = "sha256:second";
  session_token_consumed_at = some 20;
}

abbrev finished : Interview
finished = record running {
  id = 3;
  status = completed;
  session_token_hash = "sha256:third";
  ended_at = some 50;
}

abbrev pub table : Db
table = record {
  repositories = [];
  next_repository_id = 1;
  interviews = waiting ∷ running ∷ finished ∷ [];
  next_interview_id = 4;
}

table-IsWellFormed : IsWellFormed table
table-IsWellFormed = record {
  consistent = (
    record {
      consumed_iff_started = refl;
      consumed_in_time = tt;
      ended_iff_terminal = refl;
      error_needs_interrupted = λ e. absurd (cc e);
      error_fits = tt;
    },
    (
      record {
        consumed_iff_started = refl;
        consumed_in_time = omega arith;
        ended_iff_terminal = refl;
        error_needs_interrupted = λ e. absurd (cc e);
        error_fits = tt;
      },
      (
        record {
          consumed_iff_started = refl;
          consumed_in_time = omega arith;
          ended_iff_terminal = refl;
          error_needs_interrupted = λ e. absurd (cc e);
          error_fits = tt;
        },
        tt,
      ),
    ),
  );
  fresh_ids = (omega arith, (omega arith, (omega arith, tt)));
  unique_ids = ((refl, (refl, tt)), ((refl, tt), (tt, tt)));
  unique_hashes = ((refl, (refl, tt)), ((refl, tt), (tt, tt)));
}

abbrev history : List Call
history =
    consumes 30 "first"
    ∷ sweeps 40 20 7
    ∷ ends 60 3 interrupts (some "late")
    ∷ ends 61 2 completes none
    ∷ []

run_interviews-IsWellFormed_example : IsWellFormed (run digest table history)
run_interviews-IsWellFormed_example =
    run_interviews-IsWellFormed digest table history table-IsWellFormed

run_terminal_absorbs_example :
    (j : Interview) × (first_where (has_interview_id 3) (run digest table history).interviews
      ≡ some j)
    × (j.status ≡ completed)
    × (j.ended_at ≡ some 50)
    × (j.error_message ≡ none)
run_terminal_absorbs_example = run_terminal_absorbs digest table history 3 finished refl refl

abbrev table_started : Db
table_started = record table { interviews = activate 30 waiting ∷ running ∷ finished ∷ [] }

starts : consume_session_token digest table 30 "first" ≡ (table_started, ok (session_of waiting))
unfolding consume_session_token
starts = refl

consume_once_example :
    consume_session_token digest (run digest table_started history) 90 "first"
    ≡ (run digest table_started history, err (token_rejected consumed))
consume_once_example =
    consume_once digest table table_started 30 "first" (session_of waiting) table-IsWellFormed
      starts history 90

plan_jobs_sent_example :
    ((get_plan_route table 30 40 7 1 (answers none) true).1.0 ≡ plan_job waiting ∷ [])
    × ((retry_plan_route table 30 40 7 1 (answers none) true).1.0 ≡ plan_job waiting ∷ [])
plan_jobs_sent_example =
    plan_jobs_sent table 30 40 1 7 waiting table-IsWellFormed refl (answers none) true refl

report_jobs_sent_example :
    ((get_report_route table 30 40 7 3 (answers none) true).1.0 ≡ report_job finished ∷ [])
    × ((retry_report_route table 30 40 7 3 (answers none) true).1.0 ≡ report_job finished ∷ [])
report_jobs_sent_example =
    report_jobs_sent table 30 40 3 7 finished table-IsWellFormed refl (answers none) true refl

abbrev late_calls : List Call
late_calls = consumes 80 "first" ∷ sweeps 90 10 7 ∷ ends 95 1 completes none ∷ []

end_event_settles_example :
    let after = run digest (handle_interview_ended table 70 2 completes none).0 late_calls in
    handle_interview_ended after 99 2 interrupts (some "lost") ≡ (after, returns)
end_event_settles_example =
    end_event_settles digest table 70 2 completes none running table-IsWellFormed refl refl
      late_calls 99 interrupts (some "lost")
