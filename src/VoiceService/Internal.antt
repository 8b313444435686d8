-- ===== src/VoiceService/Internal.antt =====
-- voice-service/src/voice_service: the routes of internal/router.py, and the use of a session token
-- in clients/core_api.py.
use repo_viva.Base.{ℕ, String, Bool, ◌&&◌, Option, none, some, List, [], leb, ◌==◌, if◌then◌else◌}
use repo_viva.Common.Hmac.{Hexdigest, Headers, verify_hmac, sign}
use repo_viva.Common.Http.{Reply, reply, network_error, Transport, over, guard}
use repo_viva.CoreApi.Models.{RejectionReason}
use repo_viva.CoreApi.Interviews.{ConsumedSession}
use repo_viva.CoreApi.Internal.{ConsumeBody, session, reason}
use repo_viva.VoiceService.Store.{PlanStatus, PlanState, Sessions, Turn, get_plan_state, list_turns}

pub record PlanStatusResponse : Type 0 where
  pub interview_id : ℕ
  pub plan_status : PlanStatus
  pub error_message : Option String
  pub retryable : Option Bool

abbrev pub plan_status_response : ℕ → PlanState → PlanStatusResponse
plan_status_response iid p = record {
  interview_id = iid;
  plan_status = p.plan_status;
  error_message = p.error_message;
  retryable = p.retryable;
}

abbrev pub plan_reply : (PlanStatusResponse → List ℕ) → ℕ → Option PlanState → Reply (List ℕ)
plan_reply dumps iid none = reply 404 none
plan_reply dumps iid (some p) = reply 200 (some (dumps (plan_status_response iid p)))

-- `parse` is FastAPI's reading of a path parameter as an int, and `dumps` the JSON of a body.
abbrev pub plan_status_of : (PlanStatusResponse → List ℕ) → Sessions → Option ℕ → Reply (List ℕ)
plan_status_of dumps ds none = reply 422 none
plan_status_of dumps ds (some iid) = plan_reply dumps iid (get_plan_state ds iid)

unfoldable pub get_plan_status_route :
    Hexdigest
    → String
    → (String → Option ℕ)
    → (PlanStatusResponse → List ℕ)
    → Sessions
    → String
    → Headers
    → ℕ
    → Sessions × Reply (List ℕ)
unfolding verify_hmac
get_plan_status_route hexdigest secret parse dumps ds segment headers now =
    guard (verify_hmac hexdigest [] headers secret now) ds
      (ds, plan_status_of dumps ds (parse segment))

abbrev pub turns_response : (List Turn → List ℕ) → Sessions → Option ℕ → Reply (List ℕ)
turns_response dumps ds none = reply 422 none
turns_response dumps ds (some iid) = reply 200 (some (dumps (list_turns ds iid)))

unfoldable pub list_turns_route :
    Hexdigest
    → String
    → (String → Option ℕ)
    → (List Turn → List ℕ)
    → Sessions
    → String
    → Headers
    → ℕ
    → Sessions × Reply (List ℕ)
unfolding verify_hmac
list_turns_route hexdigest secret parse dumps ds segment headers now =
    guard (verify_hmac hexdigest [] headers secret now) ds
      (ds, turns_response dumps ds (parse segment))

-- What `consume_token` gives: the session, TokenRejectedError with its reason, or an
-- httpx.HTTPError; an answer of another shape raises as well.
pub data Consumption : Type 0 where
  consumed : ConsumedSession → Consumption
  rejected : Option RejectionReason → Consumption
  http_error : Consumption

abbrev pub rejection_reason : Option ConsumeBody → Option RejectionReason
rejection_reason (some (reason r)) = some r
rejection_reason _ = none

abbrev pub session_of : Option ConsumeBody → Consumption
session_of (some (session s)) = consumed s
session_of _ = http_error

abbrev pub read_consumption : Reply ConsumeBody → Consumption
read_consumption network_error = http_error
read_consumption (reply status body) =
    if status == 403
    then rejected (rejection_reason body)
    else if leb 200 status && leb status 299
    then session_of body
    else http_error

-- `dumps` is the JSON body of a token; `route` is the service behind the address.
unfoldable pub consume_token :
    {S : Type 0}
    → Hexdigest
    → (String → List ℕ)
    → String
    → ℕ
    → Transport
    → S
    → (List ℕ → Headers → ℕ → S × Reply ConsumeBody)
    → String
    → S × Consumption
unfolding sign
consume_token hexdigest dumps secret ts transport s route token =
    let (s', answer) =
      over transport s (route (dumps token) (sign hexdigest (dumps token) secret ts)) in
    (s', read_consumption answer)
