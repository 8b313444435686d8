-- ===== src/CoreApi/Repositories/Closed.antt =====
-- Between two retries of a repository: its row stays closed to ingestion events once it is ready or
-- failed. core-api/src/core_api/repositories/service.py.
use repo_viva.Base.{
  ℕ, String, ◌≡◌, ◌≢◌, refl, ◌∙◌, true, false, Option, none, some, List, [], ◌∷◌, arith, Result, ok,
  err, All, All-of, All-mono, Evolves, Evolves-refl, Evolves-trans, Evolves-append,
  Evolves-update_where, select_where, select_where_single, update_where, Bool-cases, inl, inr,
}
use repo_viva.CoreApi.Models.{Repository, Db, ServiceError, one_or_none}
use repo_viva.CoreApi.Repositories.{
  has_repository_id, create_repository, restart_failed_ingestion, IngestionEventType,
  apply_ingestion_event, is_legal_source, apply_event_row, is_failed_row, requeue, new_repository,
  too_long,
}
use repo_viva.CoreApi.Repositories.Router.{mark_unsent, unsent_message, unsent_row}
use repo_viva.CoreApi.Repositories.Lifecycle.{
  Call, creates, restarts, events, unsent, step, run, one_or_none-some,
}

-- The row of `rid` stays closed, and no row changes its id.
pub record StaysClosed (rid : ℕ) (r s : Repository) : Type 0 where
  pub id : s.id ≡ r.id
  pub closed : r.id ≡ rid → is_legal_source r.status ≡ false → is_legal_source s.status ≡ false

-- Any call but a retry of this repository.
abbrev pub IsNoRetryOf : ℕ → Call → Type 0
IsNoRetryOf rid (restarts now other) = other ≢ rid
IsNoRetryOf rid _ = Unit

module _ (rid : ℕ) where
  unchanged : (r : Repository) → StaysClosed rid r r
  unchanged r = record { id = refl; closed = λ e h. h }

  StaysClosed-trans :
      (r s t : Repository) → StaysClosed rid r s → StaysClosed rid s t → StaysClosed rid r t
  StaysClosed-trans r s t h k = record {
    id = k.id ∙ h.id;
    closed = λ e c. k.closed (h.id ∙ e) (h.closed e c);
  }

  event-Closed :
      (db : Db) (now other : ℕ) (event : IngestionEventType) (m : Option String)
      → Evolves
          (StaysClosed rid)
          db.repositories
          (apply_ingestion_event db now other event m).0.repositories
  unfolding apply_ingestion_event
  event-Closed db now other event m = go (one_or_none rows) refl
    where
      rows : List Repository
      rows = select_where (has_repository_id other) db.repositories

      same : Evolves (StaysClosed rid) db.repositories db.repositories
      same = Evolves-refl (StaysClosed rid) unchanged db.repositories

      rewritten :
          (repo : Repository)
          → rows ≡ repo ∷ []
          → is_legal_source repo.status ≡ true
          → Evolves
              (StaysClosed rid)
              db.repositories
              (update_where (has_repository_id other) (apply_event_row now event m) db.repositories)
      rewritten repo single legal =
          Evolves-update_where (StaysClosed rid) (has_repository_id other)
            (apply_event_row now event m) unchanged db.repositories
            (All-mono (λ r. has_repository_id other r ≡ true → r ≡ repo)
              (λ r.
                has_repository_id other r ≡ true
                → StaysClosed rid r (apply_event_row now event m r))
              (λ r one hit. record { id = refl; closed = λ e c. ground (arith, one hit) })
              db.repositories
              (select_where_single (has_repository_id other) db.repositories repo single))

      go :
          (o : Result ServiceError (Option Repository))
          → one_or_none rows ≡ o
          → Evolves
              (StaysClosed rid)
              db.repositories
              (apply_ingestion_event db now other event m).0.repositories
      go (err x) e = rw (e, apply_ingestion_event) same
      go (ok none) e = rw (e, apply_ingestion_event) same
      go (ok (some repo)) e =
          rw (e, apply_ingestion_event)
            (ground (arith, same, rewritten repo (one_or_none-some rows repo e)))

  unsent-Closed :
      (db : Db) (now other : ℕ) (reason : String)
      → Evolves (StaysClosed rid) db.repositories (mark_unsent db now other reason).0.repositories
  unfolding mark_unsent
  unsent-Closed db now other reason = elim (Bool-cases (too_long (unsent_message reason))) [
    | inl long ↦ rw long (Evolves-refl (StaysClosed rid) unchanged db.repositories)
    | inr short ↦ rw short (
        Evolves-update_where (StaysClosed rid) (has_repository_id other) (unsent_row now reason)
          unchanged db.repositories
          (All-of
            (λ r. has_repository_id other r ≡ true → StaysClosed rid r (unsent_row now reason r))
            (λ r hit. record { id = refl; closed = λ e c. refl }) db.repositories))
  ]

  step-Closed :
      (db : Db) (c : Call)
      → IsNoRetryOf rid c
      → Evolves (StaysClosed rid) db.repositories (step db c).repositories
  unfolding step create_repository restart_failed_ingestion
  step-Closed db (creates now owner url) o = ground (
    arith,
    Evolves-refl (StaysClosed rid) unchanged db.repositories,
    Evolves-append (StaysClosed rid) unchanged db.repositories (new_repository db now owner url),
  )
  step-Closed db (restarts now other) o =
      Evolves-update_where (StaysClosed rid) (is_failed_row other) (requeue now) unchanged
        db.repositories
        (All-of (λ r. is_failed_row other r ≡ true → StaysClosed rid r (requeue now r))
          (λ r hit. record { id = refl; closed = λ e c. absurd (o (ground (arith, hit, e))) })
          db.repositories)
  step-Closed db (events now other event message) o = event-Closed db now other event message
  step-Closed db (unsent now other reason) o = unsent-Closed db now other reason

  pub run-Closed :
      (db : Db) (cs : List Call)
      → All (IsNoRetryOf rid) cs
      → Evolves (StaysClosed rid) db.repositories (run db cs).repositories
  unfolding run
  run-Closed db [] o = Evolves-refl (StaysClosed rid) unchanged db.repositories
  run-Closed db (c ∷ cs) o =
      Evolves-trans (StaysClosed rid) StaysClosed-trans db.repositories (step db c).repositories
        (run (step db c) cs).repositories (step-Closed db c o.0) (run-Closed (step db c) cs o.1)
