-- ===== src/VoiceService/Planning.antt =====
-- voice-service/src/voice_service/planning/job.py and the handler of worker.py. What the
-- repository service, the model and the document store answer to one delivery is its `Run` record.
pub mod Settles
use repo_viva.Base.{
  ℕ, String, Bool, true, false, not, Option, none, some, List, [], ◌∷◌, Result, ok, err, text_take,
  if◌then◌else◌,
}
use repo_viva.VoiceService.Store.{
  PlannedQuestion, PlanJob, Sessions, is_generating, claim_plan, get_plan_job, count_attempt,
  save_plan, fail_plan,
}

-- _MAX_ERROR_LENGTH; _ATTEMPTS is the two attempts of a `Run`.
abbrev pub max_error_length : ℕ
max_error_length = 500

pub record AreaContext : Type 0 where
  pub path : String
  pub chunks : List ℕ

-- NothingToAskError, or any other exception by its type and text.
pub data PlanError : Type 0 where
  nothing_to_ask other_error : String → PlanError

-- The answers of the repository service and of the planner to one attempt.
pub record Answers : Type 0 where
  pub list_areas : Result String (List String)
  pub retrieve : String → Result String (List ℕ)
  pub write_plan : List AreaContext → Result String (List PlannedQuestion)

-- asyncio.gather over the areas, and the filter on empty answers.
abbrev pub context : String → List ℕ → List AreaContext → List AreaContext
context path [] rest = rest
context path (c ∷ cs) rest = record { path = path; chunks = c ∷ cs } ∷ rest

unfoldable pub gather :
    (String → Result String (List ℕ)) → List String → Result String (List AreaContext)
gather retrieve [] = ok []
gather retrieve (path ∷ paths) = elim (retrieve path) [
  | err message ↦ err message
  | ok chunks ↦ elim (gather retrieve paths) [
    | err message ↦ err message
    | ok rest ↦ ok (context path chunks rest)
  ]
]

abbrev pub ask_planner :
    Answers → Result String (List AreaContext) → Result PlanError (List PlannedQuestion)
ask_planner a (err message) = err (other_error message)
ask_planner a (ok []) = err (nothing_to_ask "no code was found in any area of the repository")
ask_planner a (ok (c ∷ cs)) = elim (a.write_plan (c ∷ cs)) [
  | err message ↦ err (other_error message)
  | ok questions ↦ ok questions
]

abbrev pub plan_areas :
    Answers → Result String (List String) → Result PlanError (List PlannedQuestion)
plan_areas a (err message) = err (other_error message)
plan_areas a (ok []) = err (nothing_to_ask "the repository has no indexed code")
plan_areas a (ok (path ∷ paths)) = ask_planner a (gather a.retrieve (path ∷ paths))

-- _plan.
unfoldable pub plan : Answers → Result PlanError (List PlannedQuestion)
unfolding gather
plan a = plan_areas a a.list_areas

-- How a call of the store ends: with its effect, or raising before or after it.
pub data StoreCall : Type 0 where
  stores : StoreCall
  raises_before raises_after : String → StoreCall

pub record Run : Type 0 where
  pub read_error : Option String
  pub first_count : StoreCall
  pub first : Answers
  pub second_count : StoreCall
  pub second : Answers
  pub save_call : StoreCall
  pub fail_call : StoreCall

-- A write on the store, and the exception it raises.
abbrev pub write : StoreCall → Sessions → Sessions → Sessions × Option PlanError
write stores before after = (after, none)
write (raises_before message) before after = (before, some (other_error message))
write (raises_after message) before after = (after, some (other_error message))

-- The body of the try block, after the plan was found `generating`, as rows and what it raises.
abbrev pub save :
    Sessions → ℕ → ℕ → Run → Result PlanError (List PlannedQuestion) → Sessions × Option PlanError
save ds now iid r (ok questions) = write r.save_call ds (save_plan ds now iid questions)
save ds now iid r (err e) = (ds, some e)

abbrev pub second_counted : ℕ → ℕ → Run → Sessions × Option PlanError → Sessions × Option PlanError
second_counted now iid r (ds, some e) = (ds, some e)
second_counted now iid r (ds, none) = save ds now iid r (plan r.second)

-- The first attempt ended: only an error that may pass is tried again.
abbrev pub first_planned :
    ℕ → ℕ → Run → Sessions → Result PlanError (List PlannedQuestion) → Sessions × Option PlanError
first_planned now iid r ds (ok questions) = save ds now iid r (ok questions)
first_planned now iid r ds (err (nothing_to_ask message)) = (ds, some (nothing_to_ask message))
first_planned now iid r ds (err (other_error message)) =
    second_counted now iid r (write r.second_count ds (count_attempt ds iid))

abbrev pub first_counted : ℕ → ℕ → Run → Sessions × Option PlanError → Sessions × Option PlanError
first_counted now iid r (ds, some e) = (ds, some e)
first_counted now iid r (ds, none) = first_planned now iid r ds (plan r.first)

unfoldable pub attempts : Sessions → ℕ → ℕ → Run → Sessions × Option PlanError
unfolding plan count_attempt save_plan
attempts ds now iid r = first_counted now iid r (write r.first_count ds (count_attempt ds iid))

-- _mark_failed: the result is the rows, and whether the exception is raised again.
abbrev pub error_text : PlanError → String
error_text (nothing_to_ask message) = message
error_text (other_error message) = message

abbrev pub is_retryable : PlanError → Bool
is_retryable (nothing_to_ask _) = false
is_retryable (other_error _) = true

abbrev pub failed_rows : Sessions → ℕ → ℕ → PlanError → Sessions
failed_rows ds now iid e =
    fail_plan ds now iid (text_take max_error_length (error_text e)) (is_retryable e)

unfoldable pub mark_failed : Sessions → ℕ → ℕ → PlanError → StoreCall → Sessions × Bool
unfolding fail_plan
mark_failed ds now iid e stores = (failed_rows ds now iid e, false)
mark_failed ds now iid e (raises_before _) = (ds, true)
mark_failed ds now iid e (raises_after _) = (failed_rows ds now iid e, true)

abbrev pub after_attempts : ℕ → ℕ → Run → Sessions × Option PlanError → Sessions × Bool
after_attempts now iid r (ds, none) = (ds, false)
after_attempts now iid r (ds, some e) = mark_failed ds now iid e r.fail_call

abbrev pub is_open : Option PlanJob → Bool
is_open none = false
is_open (some job) = is_generating job.plan_status

abbrev pub after_read : Sessions → ℕ → ℕ → Run → Option String → Sessions × Bool
after_read ds now iid r (some message) = mark_failed ds now iid (other_error message) r.fail_call
after_read ds now iid r none =
    if is_open (get_plan_job ds iid)
    then after_attempts now iid r (attempts ds now iid r)
    else (ds, false)

unfoldable pub run_planning : Sessions → ℕ → ℕ → Run → Sessions × Bool
unfolding attempts mark_failed get_plan_job
run_planning ds now iid r = after_read ds now iid r r.read_error

-- The worker's handler, after a claim that the store took.
unfoldable pub handle_plan_requested : Sessions → ℕ → ℕ → ℕ → Run → Sessions × Bool
unfolding run_planning claim_plan
handle_plan_requested ds now iid rid r = run_planning (claim_plan ds now iid rid).0 now iid r
