-- ===== src/CoreApi/Repositories/Router.antt =====
-- core-api/src/core_api/repositories/router.py: registering and retrying a repository. Sending the
-- ingestion job is SQS's: `refused` is none where it was accepted, or the text of the error.
use repo_viva.Base.{
  ℕ, String, Bool, true, false, Option, none, some, List, [], ◌∷◌, Result, ok, err, if◌then◌else◌,
  text_append, update_where, first_where,
}
use repo_viva.CoreApi.Models.{failed, Repository, Db, ServiceError, data_error, row_vanished}
use repo_viva.CoreApi.Repositories.{
  has_repository_id, too_long, create_repository, get_repository_by_owner_and_url,
  get_repository_for_user, restart_failed_ingestion,
}

pub data Response : Type 0 where
  created_201 accepted_202 okay_200 conflict_409 : Repository → Response
  not_found_404 : Response
  server_error_500 : ServiceError → Response

-- The ingestion jobs that a request sent: repository and URL.
abbrev pub Jobs : Type 0
Jobs = List (ℕ × String)

abbrev pub unsent_message : String → Option String
unsent_message reason = some (text_append "could not start ingestion: " reason)

abbrev pub unsent_row : ℕ → String → Repository → Repository
unsent_row now reason r = record r {
  status = failed;
  error_message = unsent_message reason;
  updated_at = now;
}

-- The handler of `_send_ingestion`: nothing checks the row's status here.
unfoldable pub mark_unsent : Db → ℕ → ℕ → String → Db × Result ServiceError (Unit {0})
mark_unsent db now rid reason = if too_long (unsent_message reason) then (db, err data_error) else (
  record db {
    repositories = update_where (has_repository_id rid) (unsent_row now reason) db.repositories;
  },
  ok tt,
)

-- `db.refresh(repo)`.
unfoldable pub refresh : Db → ℕ → Result ServiceError Repository
refresh db rid = elim (first_where (has_repository_id rid) db.repositories) [
  | none ↦ err row_vanished
  | some r ↦ ok r
]

abbrev pub respond : (Repository → Response) → Result ServiceError Repository → Response
respond status (ok r) = status r
respond status (err e) = server_error_500 e

unfoldable pub send_ingestion :
    Db → ℕ → Repository → Option String → Db × Jobs × Result ServiceError Repository
unfolding mark_unsent refresh
send_ingestion db now repo none = (db, (repo.id, repo.github_url) ∷ [], ok repo)
send_ingestion db now repo (some reason) =
    let (marked, committed) = mark_unsent db now repo.id reason in
    elim committed [ ok _ ↦ (marked, [], refresh marked repo.id) | err e ↦ (marked, [], err e) ]

abbrev pub answer :
    (Repository → Response) → Db × Jobs × Result ServiceError Repository → Db × Jobs × Response
answer status (db, jobs, r) = (db, jobs, respond status r)

unfoldable pub create_route : Db → ℕ → ℕ → String → Option String → Db × Jobs × Response
unfolding get_repository_by_owner_and_url create_repository send_ingestion
create_route db now owner url refused = elim (get_repository_by_owner_and_url db owner url) [
  | err e ↦ (db, [], server_error_500 e)
  | ok (some existing) ↦ (db, [], conflict_409 existing)
  | ok none ↦
      let (db', inserted) = create_repository db now owner url in
      elim inserted [
        | err e ↦ (db', [], server_error_500 e)
        | ok repo ↦ answer created_201 (send_ingestion db' now repo refused)
      ]
]

abbrev pub after_restart : ℕ → Option String → Db → Bool → Repository → Db × Jobs × Response
after_restart now refused db false repo = (db, [], okay_200 repo)
after_restart now refused db true repo = answer accepted_202 (send_ingestion db now repo refused)

unfoldable pub retry_route : Db → ℕ → ℕ → ℕ → Option String → Db × Jobs × Response
unfolding get_repository_for_user restart_failed_ingestion refresh send_ingestion
retry_route db now owner rid refused = elim (get_repository_for_user db rid owner) [
  | err e ↦ (db, [], server_error_500 e)
  | ok none ↦ (db, [], not_found_404)
  | ok (some repo) ↦
      let (db', restarted) = restart_failed_ingestion db now repo.id in
      elim (refresh db' repo.id) [
        | err e ↦ (db', [], server_error_500 e)
        | ok fresh ↦ after_restart now refused db' restarted fresh
      ]
]

unfoldable pub get_route : Db → ℕ → ℕ → Response
unfolding get_repository_for_user
get_route db owner rid = elim (get_repository_for_user db rid owner) [
  | err e ↦ server_error_500 e
  | ok none ↦ not_found_404
  | ok (some repo) ↦ okay_200 repo
]
