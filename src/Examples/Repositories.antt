-- ===== src/Examples/Repositories.antt =====
-- Two users and their repositories: core-api/src/core_api/repositories.
use repo_viva.Base.{
  ℕ, String, ◌≡◌, refl, Option, none, some, List, [], ◌∷◌, arith, ok, err, first_where, text_append,
}
use repo_viva.CoreApi.Models.{
  RepositoryStatus, in_progress, ready, failed, Repository, Db, illegal_transition,
}
use repo_viva.CoreApi.Repositories.{
  apply_ingestion_event, ingestion_started, ingestion_completed, ingestion_failed,
  has_repository_id, new_repository,
}
use repo_viva.CoreApi.Repositories.Router.{
  create_route, retry_route, get_route, not_found_404, created_201, conflict_409,
}
use repo_viva.CoreApi.Repositories.Table.{IsWellFormed}
use repo_viva.CoreApi.Repositories.Lifecycle.{
  Call, run, creates, restarts, events, run_repositories-IsWellFormed, run_ready_absorbs,
}
use repo_viva.CoreApi.Repositories.Url.{validate_github_url, url_of}
use repo_viva.CoreApi.Repositories.Url.Forms.{validate_forms}
use repo_viva.Base.{All, text_append}
use repo_viva.CoreApi.Repositories.Events.{event_applies_once}
use repo_viva.CoreApi.Repositories.Requests.{foreign_looks_missing, create_once}

abbrev row : ℕ → ℕ → String → RepositoryStatus → Option String → Repository
row id owner url status message = record {
  id = id;
  owner_user_id = owner;
  github_url = url;
  status = status;
  error_message = message;
  created_at = 1;
  updated_at = 1;
}

abbrev broken : Repository
broken = row 1 7 "https://github.com/a/b" failed (some "fetch failed")

abbrev indexing : Repository
indexing = row 2 7 "https://github.com/a/c" in_progress none

abbrev indexed : Repository
indexed = row 3 8 "https://github.com/a/b" ready none

abbrev table : Db
table = record {
  repositories = broken ∷ indexing ∷ indexed ∷ [];
  next_repository_id = 4;
  interviews = [];
  next_interview_id = 1;
}

abbrev empty_table : Db
empty_table = record {
  repositories = [];
  next_repository_id = 1;
  interviews = [];
  next_interview_id = 1;
}

table-IsWellFormed : IsWellFormed table
table-IsWellFormed = record {
  consistent = (
    record { error_iff_failed = refl; error_fits = omega arith; url_fits = omega arith },
    (
      record { error_iff_failed = refl; error_fits = tt; url_fits = omega arith },
      (record { error_iff_failed = refl; error_fits = tt; url_fits = omega arith }, tt),
    ),
  );
  fresh_ids = (omega arith, (omega arith, (omega arith, tt)));
  unique_ids = ((refl, (refl, tt)), ((refl, tt), (tt, tt)));
  unique_urls = ((refl, (refl, tt)), ((refl, tt), (tt, tt)));
}

abbrev history : List Call
history =
    creates 5 9 "https://github.com/d/e"
    ∷ restarts 6 1
    ∷ events 7 2 ingestion_completed none
    ∷ events 8 3 ingestion_failed (some "late")
    ∷ []

-- A late failure does not reach a ready repository.
late_failure :
    apply_ingestion_event table 8 3 ingestion_failed (some "late") ≡ (table, err illegal_transition)
unfolding apply_ingestion_event
late_failure = refl

run_repositories-IsWellFormed_example : IsWellFormed (run table history)
run_repositories-IsWellFormed_example =
    run_repositories-IsWellFormed table history table-IsWellFormed

run_ready_absorbs_example :
    (s : Repository) × (first_where (has_repository_id 3) (run table history).repositories ≡ some s)
    × (s.status ≡ ready)
    × (s.owner_user_id ≡ 8)
    × (s.github_url ≡ "https://github.com/a/b")
    × (s.created_at ≡ 1)
run_ready_absorbs_example =
    run_ready_absorbs table history 3 indexed (tt, (tt, (tt, (tt, tt)))) refl refl

abbrev indexed_now : Repository
indexed_now = record indexing { status = ready; updated_at = 9 }

abbrev table_indexed : Db
table_indexed = record table { repositories = broken ∷ indexed_now ∷ indexed ∷ [] }

completes :
    apply_ingestion_event table 9 2 ingestion_completed none
    ≡ (table_indexed, ok (some indexed_now))
unfolding apply_ingestion_event
completes = refl

abbrev in_between : List Call
in_between =
    restarts 10 1
    ∷ events 11 2 ingestion_failed (some "late")
    ∷ creates 12 8 "https://github.com/d/e"
    ∷ []

event_applies_once_example :
    apply_ingestion_event (run table_indexed in_between) 13 2 ingestion_started none
    ≡ (run table_indexed in_between, err illegal_transition)
event_applies_once_example =
    event_applies_once table table_indexed 9 2 ingestion_completed none indexing indexed_now
      table-IsWellFormed refl tt completes in_between ((λ e. omega (arith, e)), (tt, (tt, tt))) 13
      ingestion_started none

foreign_looks_missing_example :
    (get_route table 8 1 ≡ get_route empty_table 8 1)
    × (retry_route table 9 8 1 none ≡ (table, [], not_found_404))
    × (retry_route empty_table 9 8 1 none ≡ (empty_table, [], not_found_404))
foreign_looks_missing_example =
    foreign_looks_missing table 1 8 broken table-IsWellFormed refl 9 none empty_table
      (λ e. omega (arith, e)) refl

abbrev added : Repository
added = new_repository table 9 8 "https://github.com/d/e"

abbrev table_added : Db
table_added = record {
  repositories = broken ∷ indexing ∷ indexed ∷ added ∷ [];
  next_repository_id = 5;
  interviews = [];
  next_interview_id = 1;
}

creates_row :
    create_route table 9 8 "https://github.com/d/e" none
    ≡ (table_added, (4, "https://github.com/d/e") ∷ [], created_201 added)
unfolding create_route
creates_row = refl

create_once_example :
    (s : Repository) × (create_route table_added 10 8 "https://github.com/d/e" none
      ≡ (table_added, [], conflict_409 s))
    × (s.owner_user_id ≡ 8)
    × (s.github_url ≡ "https://github.com/d/e")
create_once_example =
    create_once table 9 8 "https://github.com/d/e" table_added 10 none none
      ((4, "https://github.com/d/e") ∷ []) added creates_row

validate_forms_example :
    All
      (λ t.
        validate_github_url (text_append (url_of "ada" "engine.py") t)
        ≡ some (url_of "ada" "engine.py"))
      ("" ∷ "/" ∷ ".git" ∷ ".git/" ∷ [])
validate_forms_example = validate_forms "ada" "engine.py" refl refl refl refl refl

-- `.git` behind a slash is accepted too, and leaves the slash: another row for the same repository.
slash_before_git :
    validate_github_url "https://github.com/ada/engine/.git" ≡ some "https://github.com/ada/engine/"
unfolding validate_github_url
slash_before_git = refl

other_hosts :
    (validate_github_url "https://gitlab.com/ada/engine" ≡ none)
    × (validate_github_url "https://github.com/ada" ≡ none)
    × (validate_github_url " https://github.com/ada/engine// " ≡ none)
unfolding validate_github_url
other_hosts = (refl, refl, refl)
