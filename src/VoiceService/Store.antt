-- ===== src/VoiceService/Store.antt =====
-- voice-service/src/voice_service/session/store.py: one document per interview. `update_one`
-- rewrites the first document that its filter matches; the unique index on interview_id refuses a
-- second document. `now` is the clock that the call reads.
pub mod Plans
pub mod Turns
use repo_viva.Base.{
  ℕ, zero, suc, ◌+◌, String, Bool, true, false, ◌&&◌, Option, none, some, List, [], ◌∷◌, ◌++◌, map,
  Result, ok, err, ◌==◌, if◌then◌else◌, get_elem?, first_where, is_some,
}

pub data PlanStatus : Type 0 where
  generating ready failed : PlanStatus

pub data QuestionStatus : Type 0 where
  planned asked answered : QuestionStatus

pub record PlannedQuestion : Type 0 where
  pub seq : ℕ
  pub area : String
  pub topic : String
  pub text : String
  pub chunk_ids : List ℕ

pub record StoredQuestion : Type 0 where
  pub question : PlannedQuestion
  pub open question use *
  pub status : QuestionStatus
  pub answer : Option String
  pub timings : List (String × ℕ)
  pub asked_at : Option ℕ
  pub answered_at : Option ℕ

pub record PlanState : Type 0 where
  pub plan_status : PlanStatus
  pub error_message : Option String
  pub retryable : Option Bool

pub record SessionDocument : Type 0 where
  pub interview_id : ℕ
  pub repository_id : ℕ
  pub plan : PlanState
  pub open plan use *
  pub plan_attempts : ℕ
  pub questions : List StoredQuestion
  pub created_at : ℕ
  pub updated_at : ℕ

abbrev pub Sessions : Type 0
Sessions = List SessionDocument

-- The document that a filter matches first is rewritten.
abbrev pub update_one :
    (SessionDocument → Bool) → (SessionDocument → SessionDocument) → Sessions → Sessions
update_one p f [] = []
update_one p f (d ∷ ds) = let rest = update_one p f ds in if p d then f d ∷ ds else d ∷ rest

abbrev pub has_interview : ℕ → SessionDocument → Bool
has_interview iid d = d.interview_id == iid

abbrev pub is_generating : PlanStatus → Bool
is_generating generating = true
is_generating _ = false

abbrev pub is_ready : PlanStatus → Bool
is_ready ready = true
is_ready _ = false

abbrev pub is_failed : PlanStatus → Bool
is_failed failed = true
is_failed _ = false

abbrev pub fresh_plan : PlanState
fresh_plan = record { plan_status = generating; error_message = none; retryable = none }

abbrev pub fresh_document : ℕ → ℕ → ℕ → SessionDocument
fresh_document iid rid now = record {
  interview_id = iid;
  repository_id = rid;
  plan = fresh_plan;
  plan_attempts = 0;
  questions = [];
  created_at = now;
  updated_at = now;
}

abbrev pub restart : ℕ → SessionDocument → SessionDocument
restart now d = record d { plan = fresh_plan; plan_attempts = 0; questions = []; updated_at = now }

abbrev pub is_failed_plan : ℕ → SessionDocument → Bool
is_failed_plan iid d = has_interview iid d && is_failed d.plan_status

-- Insert, or restart a failed plan. The result is whether the caller holds the claim.
unfoldable pub claim_plan : Sessions → ℕ → ℕ → ℕ → Sessions × Bool
claim_plan ds now iid rid =
    if is_some (first_where (has_interview iid) ds)
    then (
      update_one (is_failed_plan iid) (restart now) ds,
      is_some (first_where (is_failed_plan iid) ds),
    )
    else (ds ++ fresh_document iid rid now ∷ [], true)

pub record PlanJob : Type 0 where
  pub interview_id : ℕ
  pub repository_id : ℕ
  pub plan_status : PlanStatus

unfoldable pub get_plan_job : Sessions → ℕ → Option PlanJob
get_plan_job ds iid = elim (first_where (has_interview iid) ds) [
  | none ↦ none
  | some d ↦ some (record {
    interview_id = d.interview_id;
    repository_id = d.repository_id;
    plan_status = d.plan_status;
  })
]

unfoldable pub count_attempt : Sessions → ℕ → Sessions
count_attempt ds iid =
    update_one (has_interview iid) (λ d. record d { plan_attempts = suc d.plan_attempts }) ds

abbrev pub stored : PlannedQuestion → StoredQuestion
stored q = record {
  question = q;
  status = planned;
  answer = none;
  timings = [];
  asked_at = none;
  answered_at = none;
}

abbrev pub is_generating_plan : ℕ → SessionDocument → Bool
is_generating_plan iid d = has_interview iid d && is_generating d.plan_status

-- _set_if_generating.
unfoldable pub set_if_generating : Sessions → ℕ → (SessionDocument → SessionDocument) → Sessions
set_if_generating ds iid f = update_one (is_generating_plan iid) f ds

abbrev pub with_plan : ℕ → List PlannedQuestion → SessionDocument → SessionDocument
with_plan now qs d = record d {
  plan = record { plan_status = ready; error_message = d.error_message; retryable = d.retryable };
  questions = map stored qs;
  updated_at = now;
}

unfoldable pub save_plan : Sessions → ℕ → ℕ → List PlannedQuestion → Sessions
unfolding set_if_generating
save_plan ds now iid qs = set_if_generating ds iid (with_plan now qs)

abbrev pub with_failure : ℕ → String → Bool → SessionDocument → SessionDocument
with_failure now message retryable d = record d {
  plan = record { plan_status = failed; error_message = some message; retryable = some retryable };
  updated_at = now;
}

unfoldable pub fail_plan : Sessions → ℕ → ℕ → String → Bool → Sessions
unfolding set_if_generating
fail_plan ds now iid message retryable =
    set_if_generating ds iid (with_failure now message retryable)

unfoldable pub get_plan_state : Sessions → ℕ → Option PlanState
get_plan_state ds iid = elim (first_where (has_interview iid) ds) [
  | none ↦ none
  | some d ↦ some d.plan
]

unfoldable pub load_plan : Sessions → ℕ → Option (List StoredQuestion)
load_plan ds iid = elim (first_where (λ d. has_interview iid d && is_ready d.plan_status) ds) [
  | none ↦ none
  | some d ↦ some d.questions
]

-- questions[i] holds seq i + 1.
abbrev pub question_at : ℕ → List StoredQuestion → Option StoredQuestion
question_at zero qs = none
question_at (suc i) qs = get_elem? qs i

abbrev pub set_nth :
    ℕ → (StoredQuestion → StoredQuestion) → List StoredQuestion → List StoredQuestion
set_nth i f [] = []
set_nth zero f (q ∷ qs) = f q ∷ qs
set_nth (suc i) f (q ∷ qs) = q ∷ set_nth i f qs

abbrev pub set_question :
    ℕ → (StoredQuestion → StoredQuestion) → List StoredQuestion → List StoredQuestion
set_question zero f qs = qs
set_question (suc i) f qs = set_nth i f qs

abbrev pub same_status : QuestionStatus → QuestionStatus → Bool
same_status planned planned = true
same_status asked asked = true
same_status answered answered = true
same_status _ _ = false

abbrev pub has_status : QuestionStatus → Option StoredQuestion → Bool
has_status expected none = false
has_status expected (some q) = same_status q.status expected

abbrev pub expects : ℕ → ℕ → QuestionStatus → SessionDocument → Bool
expects iid seq expected d =
    has_interview iid d && has_status expected (question_at seq d.questions)

abbrev pub on_question :
    ℕ → ℕ → (StoredQuestion → StoredQuestion) → SessionDocument → SessionDocument
on_question now seq f d = record d { questions = set_question seq f d.questions; updated_at = now }

-- _update_question: RuntimeError (none) where no document has the question in the expected state.
unfoldable pub update_question :
    Sessions → ℕ → ℕ → ℕ → QuestionStatus → (StoredQuestion → StoredQuestion) → Option Sessions
update_question ds now iid seq expected f =
    if is_some (first_where (expects iid seq expected) ds)
    then some (update_one (expects iid seq expected) (on_question now seq f) ds)
    else none

abbrev pub ask : ℕ → StoredQuestion → StoredQuestion
ask now q = record q { status = asked; asked_at = some now }

abbrev pub take_answer : ℕ → String → StoredQuestion → StoredQuestion
take_answer now text q = record q { status = answered; answer = some text; answered_at = some now }

unfoldable pub mark_asked : Sessions → ℕ → ℕ → ℕ → Option Sessions
unfolding update_question
mark_asked ds now iid seq = update_question ds now iid seq planned (ask now)

unfoldable pub record_answer : Sessions → ℕ → ℕ → ℕ → String → Option Sessions
unfolding update_question
record_answer ds now iid seq text = update_question ds now iid seq asked (take_answer now text)

-- $set on `timings.<stage>`.
abbrev pub put_timings : List (String × ℕ) → StoredQuestion → StoredQuestion
put_timings ts q = record q { timings = ts ++ q.timings }

unfoldable pub add_timings : Sessions → ℕ → ℕ → ℕ → List (String × ℕ) → Sessions
add_timings ds now iid seq ts =
    update_one (has_interview iid) (on_question now seq (put_timings ts)) ds

pub record Turn : Type 0 where
  pub seq : ℕ
  pub question_text : String
  pub answer_text : Option String
  pub status : QuestionStatus
  pub retrieved_chunk_ids : List ℕ

abbrev pub turn_of : StoredQuestion → Turn
turn_of q = record {
  seq = q.seq;
  question_text = q.text;
  answer_text = q.answer;
  status = q.status;
  retrieved_chunk_ids = q.chunk_ids;
}

abbrev pub asked_turns : List StoredQuestion → List Turn
asked_turns [] = []
asked_turns (q ∷ qs) =
    let rest = asked_turns qs in if same_status q.status planned then rest else turn_of q ∷ rest

unfoldable pub list_turns : Sessions → ℕ → List Turn
list_turns ds iid = elim (first_where (has_interview iid) ds) [
  | none ↦ []
  | some d ↦ asked_turns d.questions
]
