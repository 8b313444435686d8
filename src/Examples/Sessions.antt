-- ===== src/Examples/Sessions.antt =====
-- One interview, from its plan to the end of its connection: voice-service/src/voice_service.
use repo_viva.Base.{
  ◌≤◌, ◌<◌, String, ◌≡◌, ◌↔◌, refl, false, Option, none, some, [], ◌∷◌, Result, ok, err,
  first_where, All, length, if◌then◌else◌, str_eq,
}
use repo_viva.VoiceService.Store.{
  ready, answered, PlannedQuestion, SessionDocument, Sessions, has_interview, question_at,
  mark_asked, record_answer, stored, is_generating,
}
use repo_viva.VoiceService.Store.Turns.{Only, question_steps_once}
use repo_viva.VoiceService.Planning.{Answers, Run, stores, handle_plan_requested}
use repo_viva.VoiceService.Planning.Settles.{planning_settles, ready_plan_kept}
use repo_viva.VoiceService.Runner.World.{
  World, ClientMessage, session_start, audio_end, text_frame, binary_frame, EndReason, Outcome,
  completes,
}
use repo_viva.VoiceService.Runner.Loop.{Services, await_answer}
use repo_viva.VoiceService.Runner.Session.{ConsumedSession, Refusal, rejected, admit, drive, run}
use repo_viva.VoiceService.Runner.Reports.{admitted_reports_once}
use repo_viva.VoiceService.Runner.Answers.{await_answer_bounded}

abbrev question : PlannedQuestion
question = record {
  seq = 1;
  area = "src/";
  topic = "queues";
  text = "Why a queue?";
  chunk_ids = 4 ∷ [];
}

abbrev document : SessionDocument
document = record {
  interview_id = 5;
  repository_id = 3;
  plan = record { plan_status = ready; error_message = none; retryable = none };
  plan_attempts = 1;
  questions = stored question ∷ [];
  created_at = 1;
  updated_at = 2;
}

abbrev pub sessions : Sessions
sessions = document ∷ []

question_steps_once_example :
    (record_answer sessions 10 5 1 "To retry." ≡ none)
    × ((ds' ds'' : Sessions) × (mark_asked sessions 10 5 1 ≡ some ds')
        × (mark_asked ds' 11 5 1 ≡ none)
        × (record_answer ds' 12 5 1 "To retry." ≡ some ds'')
        × (mark_asked ds'' 13 5 1 ≡ none)
        × (record_answer ds'' 13 5 1 "No." ≡ none)
        × ((d' : SessionDocument) × Only 5 d' ds''
            × (question_at 1 d'.questions
                ≡ some (record {
                  question = question;
                  status = answered;
                  answer = some "To retry.";
                  timings = [];
                  asked_at = some 10;
                  answered_at = some 12;
                }))))
question_steps_once_example =
    question_steps_once sessions 5 1 document (stored question) 10 11 12 13 "To retry." "No." refl
      refl refl

-- A planner that answers on its second attempt.
abbrev silent_areas : Answers
silent_areas = record {
  list_areas = err "ConnectTimeout";
  retrieve = λ path. ok [];
  write_plan = λ areas. ok [];
}

abbrev one_area : Answers
one_area = record {
  list_areas = ok ("src/" ∷ []);
  retrieve = λ path. ok (4 ∷ []);
  write_plan = λ areas. ok (question ∷ []);
}

abbrev planning : Run
planning = record {
  read_error = none;
  first_count = stores;
  first = silent_areas;
  second_count = stores;
  second = one_area;
  save_call = stores;
  fail_call = stores;
}

planning_returns : (handle_plan_requested sessions 20 6 3 planning).1 ≡ false
unfolding handle_plan_requested
planning_returns = refl

planning_settles_example :
    (d : SessionDocument) × (first_where
        (has_interview 6)
        (handle_plan_requested sessions 20 6 3 planning).0
      ≡ some d)
    × (is_generating d.plan_status ≡ false)
planning_settles_example = planning_settles sessions 20 6 3 planning planning_returns

ready_plan_kept_example :
    first_where (has_interview 5) (handle_plan_requested sessions 20 5 3 planning).0 ≡ some document
ready_plan_kept_example = ready_plan_kept sessions 20 5 3 planning document refl refl

abbrev parse : String → Option ClientMessage
parse raw =
    if str_eq raw "start"
    then some (session_start "first")
    else if str_eq raw "stop"
    then some audio_end
    else none

abbrev services : Services
services = record {
  parse_client_message = parse;
  transcribe = λ pcm question. "To retry.";
  synthesize = λ text. (1 ∷ []) ∷ [];
  max_answer_seconds = 1;
}

abbrev candidate : ConsumedSession
candidate = record { interview_id = 5; user_id = 7; repository_id = 3 }

abbrev admits : String → Result Refusal ConsumedSession
admits token = ok candidate

abbrev refuses : String → Result Refusal ConsumedSession
refuses token = err rejected

abbrev world : World
world = record {
  sessions = sessions;
  inbox = text_frame "start" ∷ binary_frame (1 ∷ 2 ∷ []) ∷ text_frame "stop" ∷ [];
  script = [];
  clock = 0;
  sent = [];
  heard = [];
  events = [];
}

is_admitted : (admit services admits world).0 ≡ ok (some candidate)
unfolding admit
is_admitted = refl

admitted_reports_once_example :
    (o : Outcome) × ((run services admits world).1.events
      ≡ record { interview_id = 5; repository_id = 3; outcome = o } ∷ [])
    × ((o ≡ completes) ↔ (
        (reason : EndReason) × ((drive services admits candidate (admit services admits world).1).0
          ≡ ok reason)))
admitted_reports_once_example = admitted_reports_once services admits world candidate is_admitted

is_refused : (admit services refuses world).0 ≡ ok none
unfolding admit
is_refused = refl

await_answer_bounded_example :
    All
      (λ pcm. (0 < length pcm) × (length pcm ≤ 32000))
      (await_answer services "Why a queue?" world).1.heard
await_answer_bounded_example = await_answer_bounded services "Why a queue?" world tt
