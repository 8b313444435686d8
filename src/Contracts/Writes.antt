-- ===== src/Contracts/Writes.antt =====
-- When the route of session tokens writes: core-api/src/core_api/internal/router.py behind
-- libs/repoviva-common/src/repoviva_common/dependencies.py.
use repo_viva.Base.{
  ℕ, ◌≤◌, ◌≡◌, ◌≢◌, refl, sym, subst, ◌∙◌, String, ◌&&◌, Option, none, some, List, Result, ok, err,
  arith, leb, text_length, inl, inr, Bool-cases, select_where,
}
use repo_viva.Common.Hmac.{
  Hexdigest, Headers, verify, VerifyError, hmac_verification_error, type_error, verify_hmac,
}
use repo_viva.Common.Hmac.Signed.{IsAscii, Signs, verify_iff}
use repo_viva.Common.Http.{Reply, reply}
use repo_viva.CoreApi.Models.{
  Db, Interview, ServiceError, one_or_none, token_rejected, multiple_results, integrity_error,
  data_error, row_vanished, illegal_transition, repository_not_found, repository_not_ready,
}
use repo_viva.CoreApi.Interviews.{ConsumedSession, consume_session_token, is_consumable, session_of}
use repo_viva.CoreApi.Internal.{
  ConsumeBody, session, read_body, handle_consume, consume_reply, consume_route,
}

-- Only a use of a token that succeeds writes.
consumption_writes :
    (hash : String → String) (db : Db) (now : ℕ) (token : String)
    → (consume_session_token hash db now token).0 ≢ db
    → (s : ConsumedSession) × ((consume_session_token hash db now token).1 ≡ ok s)
unfolding consume_session_token
consumption_writes hash db now token writes =
    go (one_or_none (select_where (is_consumable (hash token) now) db.interviews)) refl
  where
    go :
        (o : Result ServiceError (Option Interview))
        → one_or_none (select_where (is_consumable (hash token) now) db.interviews) ≡ o
        → (s : ConsumedSession) × ((consume_session_token hash db now token).1 ≡ ok s)
    go (err e) h = absurd (writes (rw (h, consume_session_token) refl))
    go (ok none) h = absurd (writes (rw (h, consume_session_token) refl))
    go (ok (some i)) h = (session_of i, rw (h, consume_session_token) refl)

-- A body held a token within its bounds that Core API accepted; this is the outcome.
abbrev pub Accepted : (String → String) → Db → ℕ → Option String → Db × Reply ConsumeBody → Type 0
Accepted hash db now read (db', answer) =
    (token : String) × (s : ConsumedSession) × (read ≡ some token)
    × (1 ≤ text_length token)
    × (text_length token ≤ 128)
    × (consume_session_token hash db now token ≡ (db', ok s))
    × (answer ≡ reply 200 (some (session s)))

reply_keeps : (p : Db × Result ServiceError ConsumedSession) → (consume_reply p).0 ≡ p.0
reply_keeps (db, ok s) = refl
reply_keeps (db, err multiple_results) = refl
reply_keeps (db, err integrity_error) = refl
reply_keeps (db, err data_error) = refl
reply_keeps (db, err row_vanished) = refl
reply_keeps (db, err illegal_transition) = refl
reply_keeps (db, err repository_not_found) = refl
reply_keeps (db, err (repository_not_ready status)) = refl
reply_keeps (db, err (token_rejected r)) = refl

reply_says :
    (p : Db × Result ServiceError ConsumedSession) (s : ConsumedSession)
    → p.1 ≡ ok s
    → (p ≡ ((consume_reply p).0, ok s)) × ((consume_reply p).1 ≡ reply 200 (some (session s)))
reply_says (db, ok t) s h = let same : t ≡ s = ground (arith, h) in rw same (refl, refl)
reply_says (db, err e) s h = absurd (cc h)

handled_writes :
    (hash : String → String) (db : Db) (now : ℕ) (read : Option String)
    → (handle_consume hash db now (read_body read)).0 ≢ db
    → Accepted hash db now read (handle_consume hash db now (read_body read))
handled_writes hash db now none writes = absurd (writes refl)
handled_writes hash db now (some token) writes =
    elim (Bool-cases (leb 1 (text_length token) && leb (text_length token) 128)) [
      | inr e ↦ absurd (writes (rw e refl))
      | inl e ↦
          let p = consume_session_token hash db now token in
          let moved : (consume_reply p).0 ≢ db = rw e at writes in
          let (s, accepted) =
            consumption_writes hash db now token (λ same. moved (reply_keeps p ∙ same)) in
          let (whole, answer) = reply_says p s accepted in
          rw e (token, s, refl, ground (arith, e), ground (arith, e), whole, answer)
    ]

-- A request to use a token changes the database only if its headers sign it under the secret at
-- this time, its body holds a token of 1 to 128 characters, and Core API accepts that token: then
-- the database is the one after that decision, and the answer is 200 with the session. The digest
-- is hexadecimal.
pub writes_need_signature :
    (hexdigest : Hexdigest) (hash : String → String) (loads : List ℕ → Option String)
    (secret : String) (db : Db) (body : List ℕ) (headers : Headers) (now : ℕ)
    → IsAscii hexdigest
    → (consume_route hexdigest hash loads secret db body headers now).0 ≢ db
    → Signs hexdigest body headers secret now
      × Accepted hash db now
          (loads body)
          (consume_route hexdigest hash loads secret db body headers now)
unfolding consume_route verify_hmac
writes_need_signature hexdigest hash loads secret db body headers now ascii writes =
    checked (verify hexdigest body headers secret now) refl
  where
    routed :
        verify hexdigest body headers secret now ≡ ok tt
        → consume_route hexdigest hash loads secret db body headers now
          ≡ handle_consume hash db now (read_body (loads body))
    routed h = rw (h, consume_route) refl

    checked :
        (r : Result VerifyError (Unit {0}))
        → verify hexdigest body headers secret now ≡ r
        → Signs hexdigest body headers secret now
          × Accepted hash db now
              (loads body)
              (consume_route hexdigest hash loads secret db body headers now)
    checked (err (hmac_verification_error message)) h = absurd (writes (rw (h, consume_route) refl))
    checked (err type_error) h = absurd (writes (rw (h, consume_route) refl))
    checked (ok u) h = (
      (verify_iff hexdigest body headers secret now ascii).0 h,
      subst (λ (p : Db × Reply ConsumeBody). p.0 ≢ db → Accepted hash db now (loads body) p)
          (sym (routed h)) (handled_writes hash db now (loads body)) writes,
    )
