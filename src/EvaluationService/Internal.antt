-- ===== src/EvaluationService/Internal.antt =====
-- evaluation-service/src/evaluation_service: the route of internal/router.py with ReportStore.get,
-- and the read of turns in clients/voice.py.
use repo_viva.Base.{
  ℕ, String, ◌&&◌, Option, none, some, List, [], Result, ok, err, leb, if◌then◌else◌, first_where,
}
use repo_viva.Common.Hmac.{Hexdigest, Headers, verify_hmac, sign}
use repo_viva.Common.Decimal.{str_of}
use repo_viva.Common.Http.{Reply, reply, network_error, Transport, over, guard}
use repo_viva.EvaluationService.Reports.{Report, has_interview}

-- ReportStore.get; the JSON texts and times of the row stand for what it makes of them.
unfoldable pub get : List Report → ℕ → Option Report
get rs iid = first_where (has_interview iid) rs

abbrev pub report_reply : (Report → List ℕ) → Option Report → Reply (List ℕ)
report_reply dumps none = reply 404 none
report_reply dumps (some r) = reply 200 (some (dumps r))

-- `parse` is FastAPI's reading of a path parameter as an int, and `dumps` the JSON of a body.
abbrev pub report_of : (Report → List ℕ) → List Report → Option ℕ → Reply (List ℕ)
report_of dumps rs none = reply 422 none
report_of dumps rs (some iid) = report_reply dumps (get rs iid)

unfoldable pub get_report_route :
    Hexdigest
    → String
    → (String → Option ℕ)
    → (Report → List ℕ)
    → List Report
    → String
    → Headers
    → ℕ
    → List Report × Reply (List ℕ)
unfolding verify_hmac
get_report_route hexdigest secret parse dumps rs segment headers now =
    guard (verify_hmac hexdigest [] headers secret now) rs (rs, report_of dumps rs (parse segment))

-- VoiceClient.get_turns: `loads` reads the turns in a body, where it has them. Anything else
-- raises.
abbrev pub loaded : {A : Type 0} → Option A → Result (Unit {0}) A
loaded none = err tt
loaded (some a) = ok a

abbrev pub turns_of :
    {A : Type 0} → (List ℕ → Option (List A)) → Reply (List ℕ) → Result (Unit {0}) (List A)
turns_of loads network_error = err tt
turns_of loads (reply status none) = err tt
turns_of loads (reply status (some body)) =
    if leb 200 status && leb status 299 then loaded (loads body) else err tt

-- `route` is the service behind the address, and gets the interview's id as text in the path.
unfoldable pub get_turns :
    {S A : Type 0}
    → Hexdigest
    → String
    → (List ℕ → Option (List A))
    → ℕ
    → Transport
    → S
    → (String → Headers → ℕ → S × Reply (List ℕ))
    → ℕ
    → Result (Unit {0}) (List A)
unfolding sign str_of
get_turns hexdigest secret loads ts transport s route iid =
    turns_of loads (over transport s (route (str_of iid) (sign hexdigest [] secret ts))).1
