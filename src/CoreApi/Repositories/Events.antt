-- ===== src/CoreApi/Repositories/Events.antt =====
-- What one ingestion event, and one retry, do to a repository.
use repo_viva.Base.{
  ℕ, subst, Evolves-first_where, List, String, ◌≡◌, refl, ◌∙◌, false, Option, some, [], ◌∷◌, arith,
  ok, err, if◌then◌else◌, first_where, select_where, update_where, select_where_key,
  update_where_once, update_where_none, count_where_none, All,
}
use repo_viva.CoreApi.Models.{Repository, Db, Outcome, data_error, illegal_transition}
use repo_viva.CoreApi.Repositories.{
  has_repository_id, restart_failed_ingestion, IngestionEventType, apply_ingestion_event,
  is_legal_source, event_error, event_target, apply_event_row, too_long, is_failed_row, requeue,
}
use repo_viva.CoreApi.Repositories.Table.{IsWellFormed, same_id, event-IsWellFormed}
use repo_viva.CoreApi.Repositories.Lifecycle.{Call, run, run_repositories-IsWellFormed}
use repo_viva.CoreApi.Repositories.Closed.{StaysClosed, IsNoRetryOf, run-Closed}
use repo_viva.Base.Tables.Keys

pub select-by_id :
    (db : Db) (rid : ℕ) (r : Repository)
    → IsWellFormed db
    → first_where (has_repository_id rid) db.repositories ≡ some r
    → select_where (has_repository_id rid) db.repositories ≡ r ∷ []
select-by_id db rid r v e =
    select_where_key same_id (has_repository_id rid) (λ x y hx hy. ground arith) db.repositories
      v.unique_ids
    ∙ rw e refl

-- The row that an event finds, in the terms of the source's checks.
abbrev pub EventResult : ℕ → IngestionEventType → Option String → Db → ℕ → Repository → Type 0
EventResult now event m db rid r = apply_ingestion_event db now rid event m ≡ (
    if is_legal_source r.status
    then (if too_long (event_error event m) then (db, err data_error) else (
      record db {
        repositories =
            update_where (has_repository_id rid) (apply_event_row now event m) db.repositories;
      },
      ok (some (apply_event_row now event m r)),
    ))
    else (db, err illegal_transition))

event-found :
    (db : Db) (now rid : ℕ) (event : IngestionEventType) (m : Option String) (r : Repository)
    → select_where (has_repository_id rid) db.repositories ≡ r ∷ []
    → EventResult now event m db rid r
unfolding apply_ingestion_event
event-found db now rid event m r e = rw (e, apply_ingestion_event)

abbrev pub IsFinal : IngestionEventType → Type 0
IsFinal IngestionEventType.ingestion_started = ⊥
IsFinal _ = Unit

final_is_terminal :
    (event : IngestionEventType) → IsFinal event → is_legal_source (event_target event) ≡ false
final_is_terminal IngestionEventType.ingestion_started f = elim f [ ]
final_is_terminal IngestionEventType.ingestion_completed f = refl
final_is_terminal IngestionEventType.ingestion_failed f = refl

-- A row that is closed refuses every event.
closed_refuses :
    (db : Db) (now rid : ℕ) (event : IngestionEventType) (m : Option String) (r : Repository)
    → IsWellFormed db
    → first_where (has_repository_id rid) db.repositories ≡ some r
    → is_legal_source r.status ≡ false
    → apply_ingestion_event db now rid event m ≡ (db, err illegal_transition)
closed_refuses db now rid event m r v found closed =
    event-found db now rid event m r (select-by_id db rid r v found) ∙ ground (arith, closed)

-- What an event that was applied leaves.
applied_row :
    (db db' : Db) (now rid : ℕ) (event : IngestionEventType) (m : Option String) (r s : Repository)
    → IsWellFormed db
    → first_where (has_repository_id rid) db.repositories ≡ some r
    → apply_ingestion_event db now rid event m ≡ (db', ok (some s))
    → first_where (has_repository_id rid) db'.repositories ≡ some (apply_event_row now event m r)
applied_row db db' now rid event m r s v found done = ground (arith, first, again)
  where
    first : EventResult now event m db rid r
    first = event-found db now rid event m r (select-by_id db rid r v found)

    again :
        first_where
          (has_repository_id rid)
          (update_where (has_repository_id rid) (apply_event_row now event m) db.repositories)
        ≡ some (apply_event_row now event m r)
    again =
        Keys.first_where-update_where (has_repository_id rid) (has_repository_id rid)
          (apply_event_row now event m) (λ x. refl) db.repositories
        ∙ rw found
            (ground (arith, Keys.first_where-holds (has_repository_id rid) db.repositories r found))

-- Once a completed or failed event has been applied to a repository of a well-formed table,
-- every later event for it, of any kind and at any time, raises IllegalTransitionError and
-- leaves the database as it was, whatever calls ran in between, as long as none of them was a
-- retry of this repository.
pub event_applies_once :
    (db db' : Db) (now rid : ℕ) (event : IngestionEventType) (m : Option String) (r s : Repository)
    → IsWellFormed db
    → first_where (has_repository_id rid) db.repositories ≡ some r
    → IsFinal event
    → apply_ingestion_event db now rid event m ≡ (db', ok (some s))
    → (cs : List Call) → All (IsNoRetryOf rid) cs
    → (later : ℕ) (event' : IngestionEventType) (m' : Option String)
    → apply_ingestion_event (run db' cs) later rid event' m' ≡ (run db' cs, err illegal_transition)
event_applies_once db db' now rid event m r s v found f done cs calm later event' m' =
    let row = applied_row db db' now rid event m r s v found done in
    let (t, found', kept) =
      Evolves-first_where (StaysClosed rid) (has_repository_id rid) (λ x y h. ground (arith, h.id))
        db'.repositories (run db' cs).repositories (run-Closed rid db' cs calm)
        (apply_event_row now event m r) row in
    closed_refuses (run db' cs) later rid event' m' t (run_repositories-IsWellFormed db' cs v')
      found' (kept.closed (same_row row) (final_is_terminal event f))
  where
    v' : IsWellFormed db'
    v' =
        subst (λ (p : Outcome (Option Repository)). IsWellFormed p.0) done
          (event-IsWellFormed db now rid event m v)

    same_row :
        first_where (has_repository_id rid) db'.repositories ≡ some (apply_event_row now event m r)
        → (apply_event_row now event m r).id ≡ rid
    same_row e = ground (
      arith,
      Keys.first_where-holds (has_repository_id rid) db'.repositories
          (apply_event_row now event m r) e,
    )

-- Of two retries at most one restarts the job: the second reports false and changes nothing.
pub restart_once :
    (db : Db) (now later rid : ℕ)
    → restart_failed_ingestion (restart_failed_ingestion db now rid).0 later rid
      ≡ ((restart_failed_ingestion db now rid).0, false)
unfolding restart_failed_ingestion
restart_once db now later rid = rw (
  update_where_none (is_failed_row rid) (requeue later) _ gone,
  count_where_none (is_failed_row rid) _ gone,
)
  where
    gone :
        All
          (λ r. is_failed_row rid r ≡ false)
          (update_where (is_failed_row rid) (requeue now) db.repositories)
    gone = update_where_once (is_failed_row rid) (requeue now) (λ r. ground arith) db.repositories
