-- ===== src/CoreApi/Repositories/Lifecycle.antt =====
-- Histories of the repositories table: the calls of core-api/src/core_api/repositories, in any
-- order, one after the other as their transactions commit.
use repo_viva.Base.{
  ℕ, String, ◌≡◌, refl, ◌∙◌, true, Option, none, some, List, [], ◌∷◌, arith, Result, ok, err, All,
  Evolves, Evolves-refl, Evolves-trans, Evolves-append, Evolves-update_where, Evolves-first_where,
  first_where, All-mono, All-of, select_where, select_where_single, update_where,
}
use repo_viva.CoreApi.Models.{ready, Repository, Db, ServiceError, one_or_none}
use repo_viva.CoreApi.Repositories.{
  has_repository_id, create_repository, restart_failed_ingestion, IngestionEventType,
  apply_ingestion_event, is_legal_source, apply_event_row, is_failed_row, requeue, new_repository,
}
use repo_viva.CoreApi.Repositories.Router.{mark_unsent}
use repo_viva.CoreApi.Repositories.Table.{
  IsWellFormed, create-IsWellFormed, restart-IsWellFormed, event-IsWellFormed, unsent-IsWellFormed,
}

-- A call that writes the table, with the clock at which it runs.
pub data Call : Type 0 where
  creates : (now owner : ℕ) (url : String) → Call
  restarts : (now rid : ℕ) → Call
  events : (now rid : ℕ) (event : IngestionEventType) (message : Option String) → Call
  unsent : (now rid : ℕ) (reason : String) → Call

unfoldable pub step : Db → Call → Db
step db (creates now owner url) = (create_repository db now owner url).0
step db (restarts now rid) = (restart_failed_ingestion db now rid).0
step db (events now rid event message) = (apply_ingestion_event db now rid event message).0
step db (unsent now rid reason) = (mark_unsent db now rid reason).0

unfoldable pub run : Db → List Call → Db
unfolding step
run db [] = db
run db (c ∷ cs) = run (step db c) cs

step-IsWellFormed : (db : Db) (c : Call) → IsWellFormed db → IsWellFormed (step db c)
unfolding step
step-IsWellFormed db (creates now owner url) v = create-IsWellFormed db now owner url v
step-IsWellFormed db (restarts now rid) v = restart-IsWellFormed db now rid v
step-IsWellFormed db (events now rid event message) v =
    event-IsWellFormed db now rid event message v
step-IsWellFormed db (unsent now rid reason) v = unsent-IsWellFormed db now rid reason v

-- From a well-formed table every history keeps it well-formed: ids and (owner, URL) pairs stay
-- unique, new ids stay unused, an error text stands exactly beside the status `failed`, and every
-- text fits its column.
pub run_repositories-IsWellFormed :
    (db : Db) (cs : List Call) → IsWellFormed db → IsWellFormed (run db cs)
unfolding run
run_repositories-IsWellFormed db [] v = v
run_repositories-IsWellFormed db (c ∷ cs) v =
    run_repositories-IsWellFormed (step db c) cs (step-IsWellFormed db c v)

-- What no call changes, and how the status may move.
pub record Follows (r s : Repository) : Type 0 where
  pub id : s.id ≡ r.id
  pub owner : s.owner_user_id ≡ r.owner_user_id
  pub url : s.github_url ≡ r.github_url
  pub created : s.created_at ≡ r.created_at
  pub moves : r.status ≡ ready → s.status ≡ ready

pub Follows-refl : (r : Repository) → Follows r r
Follows-refl r = record { id = refl; owner = refl; url = refl; created = refl; moves = λ h. h }

pub Follows-trans : (r s t : Repository) → Follows r s → Follows s t → Follows r t
Follows-trans r s t h k = record {
  id = k.id ∙ h.id;
  owner = k.owner ∙ h.owner;
  url = k.url ∙ h.url;
  created = k.created ∙ h.created;
  moves = λ e. k.moves (h.moves e);
}

-- Every call but the one that records an unsent job.
abbrev pub IsOrdinary : Call → Type 0
IsOrdinary (unsent now rid reason) = ⊥
IsOrdinary _ = Unit

event_rows-Evolves :
    (db : Db) (now rid : ℕ) (event : IngestionEventType) (m : Option String) (repo : Repository)
    → select_where (has_repository_id rid) db.repositories ≡ repo ∷ []
    → is_legal_source repo.status ≡ true
    → Evolves Follows db.repositories
        (update_where (has_repository_id rid) (apply_event_row now event m) db.repositories)
event_rows-Evolves db now rid event m repo single legal =
    Evolves-update_where Follows (has_repository_id rid) (apply_event_row now event m) Follows-refl
      db.repositories
      (All-mono (λ r. has_repository_id rid r ≡ true → r ≡ repo)
        (λ r. has_repository_id rid r ≡ true → Follows r (apply_event_row now event m r))
        (λ r same hit. record {
          id = refl;
          owner = refl;
          url = refl;
          created = refl;
          moves = λ e. ground (arith, same hit);
        })
        db.repositories (select_where_single (has_repository_id rid) db.repositories repo single))

pub one_or_none-some :
    (rs : List Repository) (r : Repository) → one_or_none rs ≡ ok (some r) → rs ≡ r ∷ []
one_or_none-some [] r h = cc
one_or_none-some (x ∷ []) r h = ground arith
one_or_none-some (x ∷ y ∷ rs) r h = cc

event-Evolves :
    (db : Db) (now rid : ℕ) (event : IngestionEventType) (m : Option String)
    → Evolves Follows db.repositories (apply_ingestion_event db now rid event m).0.repositories
unfolding apply_ingestion_event
event-Evolves db now rid event m = go (one_or_none rows) refl
  where
    rows : List Repository
    rows = select_where (has_repository_id rid) db.repositories

    go :
        (o : Result ServiceError (Option Repository))
        → one_or_none rows ≡ o
        → Evolves Follows db.repositories (apply_ingestion_event db now rid event m).0.repositories
    go (err x) e = rw (e, apply_ingestion_event) (Evolves-refl Follows Follows-refl db.repositories)
    go (ok none) e =
        rw (e, apply_ingestion_event) (Evolves-refl Follows Follows-refl db.repositories)
    go (ok (some repo)) e =
        rw (e, apply_ingestion_event)
          (ground (
            arith,
            Evolves-refl Follows Follows-refl db.repositories,
            event_rows-Evolves db now rid event m repo (one_or_none-some rows repo e),
          ))

step-Evolves :
    (db : Db) (c : Call) → IsOrdinary c → Evolves Follows db.repositories (step db c).repositories
unfolding step create_repository restart_failed_ingestion
step-Evolves db (creates now owner url) o = ground (
  arith,
  Evolves-refl Follows Follows-refl db.repositories,
  Evolves-append Follows Follows-refl db.repositories (new_repository db now owner url),
)
step-Evolves db (restarts now rid) o =
    Evolves-update_where Follows (is_failed_row rid) (requeue now) Follows-refl db.repositories (
      All-of (λ r. is_failed_row rid r ≡ true → Follows r (requeue now r))
        (λ r hit. record {
          id = refl;
          owner = refl;
          url = refl;
          created = refl;
          moves = λ e. ground arith;
        })
        db.repositories)
step-Evolves db (events now rid event message) o = event-Evolves db now rid event message
step-Evolves db (unsent now rid reason) o = elim o [ ]

run-Evolves :
    (db : Db) (cs : List Call)
    → All IsOrdinary cs
    → Evolves Follows db.repositories (run db cs).repositories
unfolding run
run-Evolves db [] o = Evolves-refl Follows Follows-refl db.repositories
run-Evolves db (c ∷ cs) o =
    Evolves-trans Follows Follows-trans db.repositories (step db c).repositories
      (run (step db c) cs).repositories (step-Evolves db c o.0) (run-Evolves (step db c) cs o.1)

-- A `ready` repository stays ready, with its owner, URL and creation time, through every history
-- of creations, retries and ingestion events, late and duplicate ones included; the histories
-- exclude only the write that records an unsent job.
pub run_ready_absorbs :
    (db : Db) (cs : List Call) (rid : ℕ) (r : Repository)
    → All IsOrdinary cs
    → first_where (has_repository_id rid) db.repositories ≡ some r
    → r.status ≡ ready
    → (s : Repository) × (first_where (has_repository_id rid) (run db cs).repositories ≡ some s)
      × (s.status ≡ ready)
      × (s.owner_user_id ≡ r.owner_user_id)
      × (s.github_url ≡ r.github_url)
      × (s.created_at ≡ r.created_at)
run_ready_absorbs db cs rid r o e h =
    let kept =
      Evolves-first_where Follows (has_repository_id rid) (λ x y f. ground (arith, f.id))
        db.repositories (run db cs).repositories (run-Evolves db cs o) r e in
    (kept.0, kept.1, kept.2.moves h, kept.2.owner, kept.2.url, kept.2.created)
