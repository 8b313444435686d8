-- ===== src/CoreApi/Interviews.antt =====
-- core-api/src/core_api/interviews/service.py: interviews, their one-time session tokens and how
-- they end. `hash` stands for SHA-256 of security/session_tokens.py, `now` for the clock.
pub mod Table
pub mod Writes
pub mod History
pub mod Tokens
pub mod Ending
pub mod Router
pub mod Jobs
use repo_viva.Base.{
  ℕ, suc, ◌+◌, ◌*◌, String, Bool, true, false, not, ◌&&◌, Option, none, some, List, [], ◌∷◌, ◌++◌,
  map, Result, ok, err, ltb, leb, ◌==◌, if◌then◌else◌, str_eq, text_take, is_truthy, is_some,
  select_where, update_where,
}
use repo_viva.CoreApi.Models.{
  RepositoryStatus, Repository, InterviewStatus, created, active, completed, interrupted, Interview,
  Db, RejectionReason, unknown, expired, consumed, ServiceError, integrity_error,
  illegal_transition, repository_not_found, repository_not_ready, token_rejected, max_error_length,
  Outcome, one_or_none,
}
use repo_viva.CoreApi.Repositories.{get_repository_for_user}

abbrev pub has_interview_id : ℕ → Interview → Bool
has_interview_id iid i = i.id == iid

abbrev pub has_token_hash : String → Interview → Bool
has_token_hash h i = str_eq i.session_token_hash h

abbrev pub is_ready : RepositoryStatus → Bool
is_ready RepositoryStatus.ready = true
is_ready _ = false

abbrev pub is_created : InterviewStatus → Bool
is_created created = true
is_created _ = false

abbrev pub is_active : InterviewStatus → Bool
is_active active = true
is_active _ = false

-- The saved interview, and the raw token that only the caller sees.
pub record CreatedInterview : Type 0 where
  pub interview : Interview
  pub raw_token : String

abbrev pub has_row : List Interview → Bool
has_row [] = false
has_row (i ∷ is) = true

abbrev pub new_interview : Db → ℕ → ℕ → ℕ → String → ℕ → Interview
new_interview db now owner rid token_hash expires_at = record {
  id = db.next_interview_id;
  owner_user_id = owner;
  repository_id = rid;
  status = created;
  error_message = none;
  session_token_hash = token_hash;
  session_token_expires_at = expires_at;
  session_token_consumed_at = none;
  created_at = now;
  updated_at = now;
  ended_at = none;
}

-- The INSERT: uq_interviews_session_token_hash refuses a hash that another row has.
unfoldable pub save_interview : Db → Interview → String → Outcome CreatedInterview
save_interview db i raw =
    let taken = record db { next_interview_id = suc db.next_interview_id } in
    if has_row (select_where (has_token_hash i.session_token_hash) db.interviews)
    then (taken, err integrity_error)
    else (
      record taken { interviews = db.interviews ++ i ∷ [] },
      ok (record { interview = i; raw_token = raw }),
    )

-- `raw` is the new random token, `ttl` the configured minutes, `clock` the process's clock.
unfoldable pub create_interview :
    (String → String) → Db → ℕ → ℕ → ℕ → String → ℕ → ℕ → Outcome CreatedInterview
unfolding get_repository_for_user save_interview
create_interview hash db now clock ttl raw owner rid = elim (get_repository_for_user db rid owner) [
  | err e ↦ (db, err e)
  | ok none ↦ (db, err repository_not_found)
  | ok (some repo) ↦
      if is_ready repo.status
      then save_interview db (new_interview db now owner rid (hash raw) (clock + ttl * 60)) raw
      else (db, err (repository_not_ready repo.status))
]

pub record ConsumedSession : Type 0 where
  pub interview_id : ℕ
  pub user_id : ℕ
  pub repository_id : ℕ

-- The WHERE of the consuming UPDATE, and its SET.
abbrev pub is_consumable : String → ℕ → Interview → Bool
is_consumable token_hash now i =
    has_token_hash token_hash i
    && (not (is_some i.session_token_consumed_at)
        && (ltb now i.session_token_expires_at && is_created i.status))

abbrev pub activate : ℕ → Interview → Interview
activate now i = record i {
  session_token_consumed_at = some now;
  status = active;
  updated_at = now;
}

-- _classify_rejection on the row with the token, if any.
abbrev pub rejection_of : ℕ → Option Interview → RejectionReason
rejection_of now none = unknown
rejection_of now (some i) =
    if is_some i.session_token_consumed_at
    then consumed
    else if leb i.session_token_expires_at now
    then expired
    else unknown

unfoldable pub classify_rejection : Db → ℕ → String → Result ServiceError RejectionReason
classify_rejection db now token_hash =
    elim (one_or_none (select_where (has_token_hash token_hash) db.interviews)) [
      | err e ↦ err e
      | ok row ↦ ok (rejection_of now row)
    ]

abbrev pub reject : Result ServiceError RejectionReason → Result ServiceError ConsumedSession
reject (err e) = err e
reject (ok reason) = err (token_rejected reason)

abbrev pub session_of : Interview → ConsumedSession
session_of i = record {
  interview_id = i.id;
  user_id = i.owner_user_id;
  repository_id = i.repository_id;
}

-- One UPDATE … RETURNING; where it matches nothing the transaction is rolled back.
unfoldable pub consume_session_token : (String → String) → Db → ℕ → String → Outcome ConsumedSession
unfolding classify_rejection
consume_session_token hash db now raw =
    elim (one_or_none (select_where (is_consumable (hash raw) now) db.interviews)) [
      | err e ↦ (db, err e)
      | ok none ↦ (db, reject (classify_rejection db now (hash raw)))
      | ok (some i) ↦ (
        record db {
          interviews = update_where (is_consumable (hash raw) now) (activate now) db.interviews;
        },
        ok (session_of i),
      )
    ]

-- `consumed_at < now - cutoff`, which NULL never satisfies.
abbrev pub started_before : ℕ → ℕ → Option ℕ → Bool
started_before now cutoff none = false
started_before now cutoff (some t) = ltb (t + cutoff) now

abbrev pub is_overdue : ℕ → ℕ → ℕ → Interview → Bool
is_overdue owner now cutoff i =
    ((i.owner_user_id == owner) && is_active i.status)
    && started_before now cutoff i.session_token_consumed_at

abbrev pub overdue_session_message : String
overdue_session_message = "session ended without a report from Voice Service"

abbrev pub interrupt_overdue : ℕ → Interview → Interview
interrupt_overdue now i = record i {
  status = interrupted;
  ended_at = some now;
  error_message = some overdue_session_message;
  updated_at = now;
}

-- The ids of the interviews that it ended.
unfoldable pub end_overdue_sessions : Db → ℕ → ℕ → ℕ → Db × List ℕ
end_overdue_sessions db now cutoff owner = (
  record db {
    interviews = update_where (is_overdue owner now cutoff) (interrupt_overdue now) db.interviews;
  },
  map (λ i. i.id) (select_where (is_overdue owner now cutoff) db.interviews),
)

unfoldable pub get_interview_for_user : Db → ℕ → ℕ → ℕ → ℕ → Outcome (Option Interview)
unfolding end_overdue_sessions
get_interview_for_user db now cutoff iid owner =
    let (db', ended) = end_overdue_sessions db now cutoff owner in
    (
      db',
      one_or_none
          (select_where (λ i. has_interview_id iid i && (i.owner_user_id == owner)) db'.interviews),
    )

pub data InterviewOutcome : Type 0 where
  completes interrupts : InterviewOutcome

-- _OUTCOME_TO_TARGET.
abbrev pub outcome_target : InterviewOutcome → InterviewStatus
outcome_target completes = completed
outcome_target interrupts = interrupted

unfoldable pub target_status_for :
    InterviewStatus → InterviewOutcome → Result ServiceError InterviewStatus
target_status_for current outcome =
    if is_active current then ok (outcome_target outcome) else err illegal_transition

-- `if target is INTERRUPTED and error_message`: the text is cut to its column.
abbrev pub end_error : InterviewStatus → Option String → Option String → Option String
end_error interrupted (some (String.◌∷◌ c s)) old =
    some (text_take max_error_length (String.◌∷◌ c s))
end_error _ message old = old

abbrev pub end_row : ℕ → InterviewStatus → Option String → Interview → Interview
end_row now target message i = record i {
  status = target;
  ended_at = some now;
  error_message = end_error target message i.error_message;
  updated_at = now;
}

unfoldable pub end_interview :
    Db → ℕ → ℕ → InterviewOutcome → Option String → Outcome (Option Interview)
unfolding target_status_for
end_interview db now iid outcome message =
    elim (one_or_none (select_where (has_interview_id iid) db.interviews)) [
      | err e ↦ (db, err e)
      | ok none ↦ (db, ok none)
      | ok (some i) ↦ elim (target_status_for i.status outcome) [
        | err e ↦ (db, err e)
        | ok target ↦ (
          record db {
            interviews =
                update_where (has_interview_id iid) (end_row now target message) db.interviews;
          },
          ok (some (end_row now target message i)),
        )
      ]
    ]
