-- ===== src/Examples/Calls.antt =====
-- The services call each other with a digest that tells texts apart by their length.
use repo_viva.Base.{
  ℕ, ◌≡◌, ◌≢◌, ap, true, str_eq, first_where, if◌then◌else◌, refl, String, Option, none, some, List,
  [], ◌∷◌, arith,
}
use repo_viva.Common.Decimal.{str_of}
use repo_viva.Common.Hmac.{sign}
use repo_viva.Common.Http.{Reply, exchanged}
use repo_viva.CoreApi.Interviews.{consume_session_token}
use repo_viva.CoreApi.Internal.{ConsumeBody, consume_route}
use repo_viva.VoiceService.Store.{ready, Turn, list_turns}
use repo_viva.VoiceService.Internal.{PlanStatusResponse, http_error, consume_token}
use repo_viva.Contracts.{Call, told, consume_exchanged}
use repo_viva.Contracts.Writes.{Accepted, writes_need_signature}
use repo_viva.EvaluationService.Reports.{Report}
use repo_viva.CoreApi.Models.{Db, InterviewStatus, active, created}
use repo_viva.CoreApi.Interviews.{has_interview_id}
use repo_viva.Common.Hmac.Signed.{Signs}
use repo_viva.Examples.Messages.{by_length, by_length-IsAscii}
use repo_viva.Examples.Interviews as Interviews
use repo_viva.Examples.Reports as Reports
use repo_viva.Examples.Sessions as Sessions

-- Any body stands for the token `first`.
abbrev dumps : String → List ℕ
dumps token = b'{' ∷ b'}' ∷ []

abbrev loads : List ℕ → Option String
loads body = some "first"

call : Call by_length 1700 1710
unfolding str_of
call = record { ascii = by_length-IsAscii; short = omega arith; fresh = omega arith }

stale_clock :
    (consume_token by_length dumps "secret" 1700
      (exchanged 40)
      Interviews.table
      (consume_route by_length Interviews.digest loads "secret" Interviews.table)
      "first").1
    ≡ http_error
unfolding consume_token consume_route str_of
stale_clock = refl

consume_exchanged_example :
    let decided = consume_session_token Interviews.digest Interviews.table 1710 "first" in
    let (db', learned) =
      consume_token by_length dumps "secret" 1700
        (exchanged 1710)
        Interviews.table
        (consume_route by_length Interviews.digest loads "secret" Interviews.table)
        "first" in
    (db' ≡ decided.0) × (learned ≡ told decided.1)
consume_exchanged_example =
    consume_exchanged by_length Interviews.digest dumps loads "secret" "first" 1700 1710
      Interviews.table call refl (omega arith) (omega arith)

-- Each body is a single byte, and reads as the one value that is sent here.
abbrev as_byte : {A : Type 0} → A → List ℕ
as_byte a = b'x' ∷ []

abbrev parse : String → Option ℕ
parse segment = if str_eq segment "5" then some 5 else if str_eq segment "1" then some 1 else none

abbrev plan_status : PlanStatusResponse
plan_status = record {
  interview_id = 5;
  plan_status = ready;
  error_message = none;
  retryable = none;
}

abbrev read_plan : List ℕ → Option PlanStatusResponse
read_plan body = some plan_status

abbrev read_report : List ℕ → Option Report
read_report body = first_where (λ r. true) Reports.table

abbrev read_turns : List ℕ → Option (List Turn)
read_turns body = some (list_turns Sessions.sessions 5)

-- A signed use of the token while it is valid.
abbrev opening : Db × Reply ConsumeBody
opening =
    consume_route by_length Interviews.digest loads "secret" Interviews.table []
      (sign by_length [] "secret" 40) 41

abbrev first_status : Db → Option InterviewStatus
first_status db = elim (first_where (has_interview_id 1) db.interviews) [
  | none ↦ none
  | some i ↦ some i.status
]

opening_writes : opening.0 ≢ Interviews.table
unfolding consume_route str_of sign
opening_writes e = let clash : some active ≡ some created = ap first_status e in cc

writes_need_signature_example :
    Signs by_length [] (sign by_length [] "secret" 40) "secret" 41
    × Accepted Interviews.digest Interviews.table 41 (some "first") opening
writes_need_signature_example =
    writes_need_signature by_length Interviews.digest loads "secret" Interviews.table []
      (sign by_length [] "secret" 40) 41 by_length-IsAscii opening_writes
