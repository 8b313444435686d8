-- ===== src/CoreApi/Internal.antt =====
-- core-api/src/core_api: internal/router.py with schemas.py, and the reads of
-- interviews/voice_client.py and interviews/evaluation_client.py.
use repo_viva.Base.{
  ℕ, String, ◌&&◌, Option, none, some, List, [], Result, ok, err, leb, ◌==◌, if◌then◌else◌,
  text_length,
}
use repo_viva.Common.Hmac.{Hexdigest, Headers, verify_hmac, sign}
use repo_viva.Common.Decimal.{str_of}
use repo_viva.Common.Http.{Reply, reply, network_error, Transport, over, guard}
use repo_viva.CoreApi.Models.{Db, ServiceError, RejectionReason, token_rejected}
use repo_viva.CoreApi.Interviews.{ConsumedSession, consume_session_token}
use repo_viva.CoreApi.Interviews.Router.{Answer, unreachable, answers}

-- SessionTokenConsumeBody: `loads` reads the token from the JSON of a body.
abbrev pub read_body : Option String → Option String
read_body none = none
read_body (some token) =
    if leb 1 (text_length token) && leb (text_length token) 128 then some token else none

pub data ConsumeBody : Type 0 where
  session : ConsumedSession → ConsumeBody
  reason : RejectionReason → ConsumeBody

abbrev pub consume_reply : Db × Result ServiceError ConsumedSession → Db × Reply ConsumeBody
consume_reply (db, ok s) = (db, reply 200 (some (session s)))
consume_reply (db, err (token_rejected r)) = (db, reply 403 (some (reason r)))
consume_reply (db, err _) = (db, reply 500 none)

abbrev pub handle_consume : (String → String) → Db → ℕ → Option String → Db × Reply ConsumeBody
handle_consume hash db now none = (db, reply 422 none)
handle_consume hash db now (some token) = consume_reply (consume_session_token hash db now token)

unfoldable pub consume_route :
    Hexdigest
    → (String → String)
    → (List ℕ → Option String)
    → String
    → Db
    → List ℕ
    → Headers
    → ℕ
    → Db × Reply ConsumeBody
unfolding verify_hmac consume_session_token
consume_route hexdigest hash loads secret db body headers now =
    guard (verify_hmac hexdigest body headers secret now) db
      (handle_consume hash db now (read_body (loads body)))

-- `response.json()`: bytes that are no JSON raise, and nothing catches that.
abbrev pub read_json : {A : Type 0} → Option A → Result (Unit {0}) (Answer A)
read_json none = err tt
read_json (some a) = ok (answers (some a))

-- get_plan_status and get_report: 404 is none, and all else but 200 a VoiceServiceError or an
-- EvaluationServiceError.
abbrev pub read_reply :
    {A : Type 0} → (List ℕ → Option A) → Reply (List ℕ) → Result (Unit {0}) (Answer A)
read_reply loads network_error = ok unreachable
read_reply loads (reply status none) =
    if status == 404 then ok (answers none) else if status == 200 then err tt else ok unreachable
read_reply loads (reply status (some body)) =
    if status == 404
    then ok (answers none)
    else if status == 200
    then read_json (loads body)
    else ok unreachable

-- `route` is the service behind the address, and gets the interview's id as text in the path.
unfoldable pub get_from_service :
    {S A : Type 0}
    → Hexdigest
    → String
    → (List ℕ → Option A)
    → ℕ
    → Transport
    → S
    → (String → Headers → ℕ → S × Reply (List ℕ))
    → ℕ
    → Result (Unit {0}) (Answer A)
unfolding sign str_of
get_from_service hexdigest secret loads ts transport s route iid =
    read_reply loads (over transport s (route (str_of iid) (sign hexdigest [] secret ts))).1
