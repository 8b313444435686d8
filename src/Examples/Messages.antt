-- ===== src/Examples/Messages.antt =====
-- The common library at work: libs/repoviva-common/src/repoviva_common.
use repo_viva.Base.{
  ℕ, suc, ◌≡◌, refl, ◌↔◌, String, Bool, true, false, Option, none, some, List, [], ◌∷◌, ok, err,
  arith, inl, inr, Bool-cases, length, ◌==◌, if◌then◌else◌, str_eq, pos, negsuc,
}
use repo_viva.Common.Decimal.{str_of, int_of}
use repo_viva.Common.Hmac.{Hexdigest, Headers, sign, verify, verify_hmac, hmac_verification_error}
use repo_viva.Common.Hmac.Signed.{IsAscii, Signs, verify_iff, verify-sign}
use repo_viva.Common.RequestId.{scope_id, middleware, http, response_start, other_message}
use repo_viva.Common.Messaging.{
  PutEvents, put_response, boto_error, publish_event_with_retry, publish_retry_delays, Message,
  Received, handled, deleted, raised, HandlerEnd, returns, raises, poll,
}
use repo_viva.Common.Messaging.Acks.{Acknowledged, poll-Acknowledged}

reads_timestamps :
    (int_of " 1_700 " ≡ some (pos 1700)) × (int_of "-3" ≡ some (negsuc 2)) × (int_of "1__0" ≡ none)
unfolding int_of
reads_timestamps = (refl, refl, refl)

prints_timestamps : str_of 1700000042 ≡ "1700000042"
unfolding str_of
prints_timestamps = refl

-- A digest that tells texts apart by their length.
abbrev pub by_length : Hexdigest
by_length key payload = if length key == length payload then "aa" else "bb"

pub by_length-IsAscii : IsAscii by_length
by_length-IsAscii key payload = elim (Bool-cases (length key == length payload)) [
  | inl e ↦ rw e refl
  | inr e ↦ rw e refl
]

abbrev body : List ℕ
body = b'{' ∷ b'}' ∷ []

abbrev signed : Headers
signed = sign by_length body "secret" 1700

verify-sign_example : verify by_length body signed "secret" 1760 ≡ ok tt
unfolding str_of
verify-sign_example =
    verify-sign by_length body "secret" 1700 1760 by_length-IsAscii (omega arith) (omega arith)

verify_iff_example :
    (verify by_length body signed "secret" 1700 ≡ ok tt) ↔ Signs by_length body signed "secret" 1700
verify_iff_example = verify_iff by_length body signed "secret" 1700 by_length-IsAscii

too_late :
    verify by_length body signed "secret" 1761
    ≡ err (hmac_verification_error "timestamp outside freshness window")
unfolding sign verify str_of
too_late = refl

-- A signature that is not ASCII is answered with 500 in place of 401.
not_ascii :
    verify_hmac by_length body
      (record { timestamp = some "1700"; signature = some "sha256=é" })
      "secret"
      1700
    ≡ some 500
unfolding verify_hmac
not_ascii = refl

keeps_ids :
    (scope_id "new" (some "abc-1") ≡ "abc-1")
    × (scope_id "new" (some "abc 1") ≡ "new")
    × (scope_id "new" (some "abc\n") ≡ "abc\n")
unfolding scope_id
keeps_ids = (refl, refl, refl)

echoes :
    middleware http (("x-request-id", "r1") ∷ []) "new" none (λ request_id.
      record { type = response_start; headers = [] }
      ∷ record { type = other_message; headers = [] }
      ∷ [])
    ≡ record { type = response_start; headers = ("x-request-id", "r1") ∷ [] }
      ∷ record { type = other_message; headers = [] }
      ∷ []
unfolding middleware
echoes = refl

abbrev second_call : ℕ → PutEvents
second_call n = if n == 1 then put_response 0 else boto_error

second_call_counts : (publish_event_with_retry second_call publish_retry_delays).calls ≡ 2
unfolding publish_event_with_retry
second_call_counts = refl

-- The body is the type of the message; the handler counts, and raises on a bad message.
abbrev validate : String → Option Message
validate text =
    if str_eq text ""
    then none
    else some (record { message_id = "1"; type = text; request_id = none; data_json = "{}" })

abbrev count_calls : String → Message → ℕ → ℕ × HandlerEnd
count_calls request_id message n = (suc n, if str_eq message.type "bad" then raises else returns)

abbrev received : String → Bool → Received
received text fails = record {
  receipt = text;
  body = text;
  fresh_id = "new";
  delete_raises = fails;
}

abbrev rounds : List (Option (List Received))
rounds =
    some (received "job" false ∷ [])
    ∷ none
    ∷ some (received "bad" false ∷ [])
    ∷ some (received "" false ∷ [])
    ∷ some (received "last" true ∷ [])
    ∷ some (received "never" false ∷ [])
    ∷ []

-- A deletion that raises ends the worker: the last message is never received.
worker_run : poll validate count_calls rounds 0 ≡ (
  3,
  handled "job" true ∷ deleted "job" ∷ handled "bad" false ∷ handled "last" true ∷ [],
  raised,
)
unfolding poll
worker_run = refl

poll-Acknowledged_example : let r = poll validate count_calls rounds 0 in Acknowledged r.1 r.2
poll-Acknowledged_example = poll-Acknowledged validate count_calls rounds 0
