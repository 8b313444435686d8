-- ===== src/CoreApi/Repositories.antt =====
-- core-api/src/core_api/repositories/service.py: the repositories table and its state machine.
-- A call that commits takes the database clock as `now`.
pub mod Table
pub mod Lifecycle
pub mod Closed
pub mod Events
pub mod Requests
pub mod Router
pub mod Url
use repo_viva.Base.{
  ℕ, suc, ◌+◌, String, Bool, true, false, ◌&&◌, ◌||◌, Option, none, some, List, [], ◌∷◌, ◌++◌,
  Result, ok, err, ltb, ◌==◌, if◌then◌else◌, str_eq, text_length, is_truthy, select_where,
  update_where, count_where,
}
use repo_viva.CoreApi.Models.{
  RepositoryStatus, queued, in_progress, ready, failed, Repository, Db, ServiceError,
  integrity_error, data_error, illegal_transition, max_url_length, max_error_length, Outcome,
  one_or_none,
}

abbrev pub has_repository_id : ℕ → Repository → Bool
has_repository_id rid r = r.id == rid

-- The columns of uq_repo_owner_url.
abbrev pub has_owner_and_url : ℕ → String → Repository → Bool
has_owner_and_url owner url r = (r.owner_user_id == owner) && str_eq r.github_url url

abbrev pub any_row : {A : Type 0} → List A → Bool
any_row [] = false
any_row (r ∷ rs) = true

abbrev pub new_repository : Db → ℕ → ℕ → String → Repository
new_repository db now owner url = record {
  id = db.next_repository_id;
  owner_user_id = owner;
  github_url = url;
  status = queued;
  error_message = none;
  created_at = now;
  updated_at = now;
}

-- The sequence advances also where the INSERT is refused.
unfoldable pub create_repository : Db → ℕ → ℕ → String → Outcome Repository
create_repository db now owner url =
    let taken = record db { next_repository_id = suc db.next_repository_id } in
    if any_row (select_where (has_owner_and_url owner url) db.repositories)
    then (taken, err integrity_error)
    else if ltb max_url_length (text_length url)
    then (taken, err data_error)
    else (
      record taken { repositories = db.repositories ++ new_repository db now owner url ∷ [] },
      ok (new_repository db now owner url),
    )

unfoldable pub get_repository_by_owner_and_url :
    Db → ℕ → String → Result ServiceError (Option Repository)
get_repository_by_owner_and_url db owner url =
    one_or_none (select_where (has_owner_and_url owner url) db.repositories)

unfoldable pub get_repository_for_user : Db → ℕ → ℕ → Result ServiceError (Option Repository)
get_repository_for_user db rid owner =
    one_or_none
      (select_where (λ r. has_repository_id rid r && (r.owner_user_id == owner)) db.repositories)

abbrev pub is_failed : RepositoryStatus → Bool
is_failed failed = true
is_failed _ = false

abbrev pub requeue : ℕ → Repository → Repository
requeue now r = record r { status = queued; error_message = none; updated_at = now }

abbrev pub is_failed_row : ℕ → Repository → Bool
is_failed_row rid r = has_repository_id rid r && is_failed r.status

-- One conditional UPDATE; the result is whether its row count is 1.
unfoldable pub restart_failed_ingestion : Db → ℕ → ℕ → Db × Bool
restart_failed_ingestion db now rid = (
  record db { repositories = update_where (is_failed_row rid) (requeue now) db.repositories },
  count_where (is_failed_row rid) db.repositories == 1,
)

pub data IngestionEventType : Type 0 where
  ingestion_started ingestion_completed ingestion_failed : IngestionEventType

-- _EVENT_TO_TARGET.
abbrev pub event_target : IngestionEventType → RepositoryStatus
event_target ingestion_started = in_progress
event_target ingestion_completed = ready
event_target ingestion_failed = failed

-- _LEGAL_SOURCE_STATES.
abbrev pub is_legal_source : RepositoryStatus → Bool
is_legal_source queued = true
is_legal_source in_progress = true
is_legal_source _ = false

-- `error_message or default`.
abbrev pub or_text : Option String → String → String
or_text none default = default
or_text (some String.[]) default = default
or_text (some (String.◌∷◌ c s)) default = String.◌∷◌ c s

-- `error_message or "ingestion failed"`, for a failure only.
abbrev pub event_error : IngestionEventType → Option String → Option String
event_error ingestion_failed message = some (or_text message "ingestion failed")
event_error _ message = none

abbrev pub too_long : Option String → Bool
too_long none = false
too_long (some message) = ltb max_error_length (text_length message)

abbrev pub apply_event_row : ℕ → IngestionEventType → Option String → Repository → Repository
apply_event_row now event message r = record r {
  status = event_target event;
  error_message = event_error event message;
  updated_at = now;
}

-- The row lock makes the check and the write one step. A text that the column cannot hold makes
-- the commit raise, which writes nothing.
unfoldable pub apply_ingestion_event :
    Db → ℕ → ℕ → IngestionEventType → Option String → Outcome (Option Repository)
apply_ingestion_event db now rid event message =
    elim (one_or_none (select_where (has_repository_id rid) db.repositories)) [
      | err e ↦ (db, err e)
      | ok none ↦ (db, ok none)
      | ok (some repo) ↦
          if is_legal_source repo.status
          then (if too_long (event_error event message) then (db, err data_error) else (
            record db {
              repositories =
                  update_where (has_repository_id rid) (apply_event_row now event message)
                    db.repositories;
            },
            ok (some (apply_event_row now event message repo)),
          ))
          else (db, err illegal_transition)
    ]
