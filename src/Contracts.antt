-- ===== src/Contracts.antt =====
-- The services' calls of each other over signed HTTP: the clients and internal routes of
-- core-api, voice-service and evaluation-service together.
pub mod Writes
use mathlib.Core.Option as Options
use repo_viva.Base.{
  ℕ, ◌≤◌, ◌≡◌, refl, ap, ◌⊎◌, inl, inr, String, true, ◌&&◌, Option, none, some, List, Result, ok,
  err, arith, leb, text_length, pos, distance,
}
use repo_viva.Common.Decimal.{str_of, max_str_digits}
use repo_viva.Common.Hmac.{
  Hexdigest, Headers, max_age_seconds, sign, verify, VerifyError, hmac_verification_error,
  type_error, verify_hmac, rejection,
}
use repo_viva.Common.Hmac.Signed.{IsAscii, verify-sign}
use repo_viva.Common.Http.{reply, exchanged}
use repo_viva.CoreApi.Models.{
  Db, ServiceError, token_rejected, multiple_results, integrity_error, data_error, row_vanished,
  illegal_transition, repository_not_found, repository_not_ready,
}
use repo_viva.CoreApi.Interviews.{ConsumedSession, consume_session_token}
use repo_viva.CoreApi.Internal.{consume_reply, consume_route}
use repo_viva.VoiceService.Internal.{
  Consumption, consumed, rejected, http_error, read_consumption, consume_token,
}

-- What is written as JSON is read as it was.
abbrev pub Carries : {A : Type 0} → (A → List ℕ) → (List ℕ → Option A) → A → Type 0
Carries dumps loads a = loads (dumps a) ≡ some a

-- A caller and a service that share the secret, and whose clocks differ by at most 60 seconds.
pub record Call (hexdigest : Hexdigest) (ts clock : ℕ) : Type 0 where
  pub ascii : IsAscii hexdigest
  pub short : text_length (str_of ts) ≤ max_str_digits
  pub fresh : distance clock (pos ts) ≤ max_age_seconds

module _ (hexdigest : Hexdigest) (secret : String) (ts clock : ℕ)
    (call : Call hexdigest ts clock) where
  accepted :
      (body : List ℕ)
      → verify_hmac hexdigest body (sign hexdigest body secret ts) secret clock ≡ none
  unfolding verify_hmac
  accepted body =
      ap rejection (verify-sign hexdigest body secret ts clock call.ascii call.short call.fresh)

-- What Voice Service learns of a decision of Core API.
abbrev pub told : Result ServiceError ConsumedSession → Consumption
told (ok s) = consumed s
told (err (token_rejected r)) = rejected (some r)
told (err _) = http_error

consumption_told :
    (r : Db × Result ServiceError ConsumedSession)
    → ((consume_reply r).0 ≡ r.0) × (read_consumption (consume_reply r).1 ≡ told r.1)
consumption_told (db, ok s) = (refl, refl)
consumption_told (db, err multiple_results) = (refl, refl)
consumption_told (db, err integrity_error) = (refl, refl)
consumption_told (db, err data_error) = (refl, refl)
consumption_told (db, err row_vanished) = (refl, refl)
consumption_told (db, err illegal_transition) = (refl, refl)
consumption_told (db, err repository_not_found) = (refl, refl)
consumption_told (db, err (repository_not_ready status)) = (refl, refl)
consumption_told (db, err (token_rejected r)) = (refl, refl)

-- A token that Voice Service sends in a signed request that gets through is used exactly as Core
-- API decides: the database is the one after that decision, and Voice Service learns the session,
-- the reason of the rejection, or that the call failed. The token has at most 128 characters and
-- at least one, and its JSON is read as it was written.
pub consume_exchanged :
    (hexdigest : Hexdigest) (hash : String → String) (dumps : String → List ℕ)
    (loads : List ℕ → Option String) (secret token : String) (ts clock : ℕ) (db : Db)
    → Call hexdigest ts clock
    → loads (dumps token) ≡ some token
    → 1 ≤ text_length token
    → text_length token ≤ 128
    → let decided = consume_session_token hash db clock token in
      let (db', learned) =
        consume_token hexdigest dumps secret ts
          (exchanged clock)
          db
          (consume_route hexdigest hash loads secret db)
          token in
      (db' ≡ decided.0) × (learned ≡ told decided.1)
unfolding consume_token consume_route
consume_exchanged hexdigest hash dumps loads secret token ts clock db call reads nonempty short =
    rw (accepted hexdigest secret ts clock call (dumps token), reads, within)
      (consumption_told (consume_session_token hash db clock token))
  where
    within : (leb 1 (text_length token) && leb (text_length token) 128) ≡ true
    within = ground (arith, nonempty, short)
