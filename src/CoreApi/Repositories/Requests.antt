-- ===== src/CoreApi/Repositories/Requests.antt =====
-- What the repository endpoints answer, write and send.
use repo_viva.Base.{
  ℕ, String, ◌≡◌, ◌≢◌, refl, ◌∙◌, true, false, ◌&&◌, Option, none, some, List, [], ◌∷◌, ◌++◌, arith,
  ◌==◌, ==_iff, ==_refl, eq_refl, if◌then◌else◌, first_where, select_where, update_where,
  select_where_and, first_where-update_where, count_where-length, count_where, update_where_none,
  All, All-mono, select_where_single, select_where-append, select_where_missing,
  select_where-update_other,
}
use repo_viva.CoreApi.Models.{failed, Repository, Db}
use repo_viva.CoreApi.Repositories.{
  has_repository_id, has_owner_and_url, is_failed, is_failed_row, requeue, new_repository,
}
use repo_viva.CoreApi.Repositories.Router.{
  retry_route, get_route, create_route, created_201, accepted_202, okay_200, conflict_409,
  not_found_404, Jobs, unsent_row,
}
use repo_viva.CoreApi.Repositories.Table.{IsWellFormed}
use repo_viva.CoreApi.Repositories.Events.{select-by_id}
use repo_viva.Base.Tables.Keys

module _ (db : Db) (rid owner : ℕ) (r : Repository) (v : IsWellFormed db)
    (found : first_where (has_repository_id rid) db.repositories ≡ some r) where
  single : select_where (has_repository_id rid) db.repositories ≡ r ∷ []
  single = select-by_id db rid r v found

  owned :
      select_where (λ x. has_repository_id rid x && (x.owner_user_id == owner)) db.repositories
      ≡ (if r.owner_user_id == owner then r ∷ [] else [])
  owned =
      select_where_and (has_repository_id rid) (λ x. x.owner_user_id == owner) db.repositories
      ∙ rw single refl

  restarted_count :
      count_where (is_failed_row rid) db.repositories ≡ (if is_failed r.status then 1 else 0)
  restarted_count =
      count_where-length (is_failed_row rid) db.repositories
      ∙ rw
          (
            select_where_and (has_repository_id rid) (λ x. is_failed x.status) db.repositories,
            single,
          )
          (ground arith)

  refreshed :
      (now : ℕ)
      → first_where
          (has_repository_id rid)
          (update_where (is_failed_row rid) (requeue now) db.repositories)
        ≡ some (if is_failed_row rid r then requeue now r else r)
  refreshed now =
      first_where-update_where (has_repository_id rid) (is_failed_row rid) (requeue now) (λ x. refl)
        db.repositories
      ∙ rw found refl

  not_failed_rows :
      is_failed r.status ≡ false → All (λ x. is_failed_row rid x ≡ false) db.repositories
  not_failed_rows calm =
      All-mono (λ x. has_repository_id rid x ≡ true → x ≡ r) (λ x. is_failed_row rid x ≡ false)
        (λ x same. ground (arith, same)) db.repositories
        (select_where_single (has_repository_id rid) db.repositories r single)

  id_of_found : r.id ≡ rid
  id_of_found =
      (==_iff r.id rid).0 (Keys.first_where-holds (has_repository_id rid) db.repositories r found)

  -- A retry of the owner's failed repository, whose job is accepted, moves the row to `queued`
  -- without its error, sends exactly one job with the row's id and URL, and answers 202 with the
  -- new row.
  pub retry_failed :
      (now : ℕ)
      → r.owner_user_id ≡ owner
      → r.status ≡ failed
      → retry_route db now owner rid none ≡ (
        record db { repositories = update_where (is_failed_row rid) (requeue now) db.repositories },
        (rid, r.github_url) ∷ [],
        accepted_202 (requeue now r),
      )
  unfolding retry_route
  retry_failed now mine broken =
      ground (arith, owned, restarted_count, refreshed now, id_of_found, ==_refl owner, ==_refl rid)

  -- A retry of the owner's repository in any other state changes nothing, sends no job and answers
  -- 200 with the row as it is.
  pub retry_not_failed :
      (now : ℕ) (refused : Option String)
      → r.owner_user_id ≡ owner
      → r.status ≢ failed
      → retry_route db now owner rid refused ≡ (db, [], okay_200 r)
  unfolding retry_route
  retry_not_failed now refused mine calm =
      let quiet : is_failed r.status ≡ false = ground arith in
      ground (
        arith,
        owned,
        restarted_count,
        refreshed now,
        id_of_found,
        ==_refl owner,
        update_where_none (is_failed_row rid) (requeue now) db.repositories (not_failed_rows quiet),
      )

  -- To any other user the repository looks missing: a read and a retry answer 404, write nothing
  -- and send nothing, as they do for an id that no row has.
  pub foreign_looks_missing :
      (now : ℕ) (refused : Option String) (absent : Db)
      → r.owner_user_id ≢ owner
      → first_where (has_repository_id rid) absent.repositories ≡ none
      → (get_route db owner rid ≡ get_route absent owner rid)
        × (retry_route db now owner rid refused ≡ (db, [], not_found_404))
        × (retry_route absent now owner rid refused ≡ (absent, [], not_found_404))
  unfolding retry_route get_route
  foreign_looks_missing now refused absent other gone =
      let nothing = select_where_missing (has_repository_id rid) absent.repositories gone in
      let none_owned : select_where (λ x. has_repository_id rid x && (x.owner_user_id == owner))
            absent.repositories
          ≡ [] =
        select_where_and (has_repository_id rid) (λ x. x.owner_user_id == owner) absent.repositories
        ∙ rw nothing refl in
      (ground (arith, owned, none_owned), ground (arith, owned), ground (arith, none_owned))

module _ (db : Db) (now owner : ℕ) (url : String) where
  -- The row that the first request inserts.
  abbrev inserted : Repository
  inserted = new_repository db now owner url

  select-inserted :
      select_where (has_owner_and_url owner url) db.repositories ≡ []
      → select_where (has_owner_and_url owner url) (db.repositories ++ inserted ∷ [])
        ≡ inserted ∷ []
  select-inserted free =
      select_where-append (has_owner_and_url owner url) db.repositories (inserted ∷ [])
      ∙ rw (free, ==_refl owner, eq_refl url) refl

  select-marked :
      (reason : String)
      → select_where (has_owner_and_url owner url) db.repositories ≡ []
      → select_where (has_owner_and_url owner url) (
          update_where
            (has_repository_id db.next_repository_id)
            (unsent_row now reason)
            (db.repositories ++ inserted ∷ []))
        ≡ unsent_row now reason inserted ∷ []
  select-marked reason free =
      select_where-update_other (has_owner_and_url owner url)
        (has_repository_id db.next_repository_id) (unsent_row now reason) (λ r. refl)
        (db.repositories ++ inserted ∷ [])
      ∙ rw (select-inserted free, ==_refl db.next_repository_id) refl

  was_free :
      (db' : Db) (refused : Option String) (jobs : Jobs) (r : Repository)
      → create_route db now owner url refused ≡ (db', jobs, created_201 r)
      → select_where (has_owner_and_url owner url) db.repositories ≡ []
  unfolding create_route
  was_free db' refused jobs r done =
      go (select_where (has_owner_and_url owner url) db.repositories) refl
    where
      go :
          (rows : List Repository)
          → select_where (has_owner_and_url owner url) db.repositories ≡ rows
          → select_where (has_owner_and_url owner url) db.repositories ≡ []
      go [] e = e
      go (x ∷ []) e = absurd (ground (arith, e, done))
      go (x ∷ y ∷ rows) e = absurd (ground (arith, e, done))

  conflict :
      (db' : Db) (later : ℕ) (refused' : Option String) (s : Repository)
      → select_where (has_owner_and_url owner url) db'.repositories ≡ s ∷ []
      → create_route db' later owner url refused' ≡ (db', [], conflict_409 s)
  unfolding create_route
  conflict db' later refused' s e = ground (arith, e)

  rows_after :
      (db' : Db) (refused : Option String) (jobs : Jobs) (r : Repository)
      → create_route db now owner url refused ≡ (db', jobs, created_201 r)
      → (s : Repository) × (select_where (has_owner_and_url owner url) db'.repositories ≡ s ∷ [])
        × (s.owner_user_id ≡ owner)
        × (s.github_url ≡ url)
  unfolding create_route
  rows_after db' none jobs r done =
      let free = was_free db' none jobs r done in
      (inserted, ground (arith, free, select-inserted free), refl, refl)
  rows_after db' (some reason) jobs r done =
      let free = was_free db' (some reason) jobs r done in
      (unsent_row now reason inserted, ground (arith, free, select-marked reason free), refl, refl)

  -- After a request that answered 201, a second one for the same user and URL answers 409 with the
  -- row of that user and URL, sends no job and leaves the database alone, whether or not the first
  -- job could be sent.
  pub create_once :
      (db' : Db) (later : ℕ) (refused refused' : Option String) (jobs : Jobs) (r : Repository)
      → create_route db now owner url refused ≡ (db', jobs, created_201 r)
      → (s : Repository) × (create_route db' later owner url refused' ≡ (db', [], conflict_409 s))
        × (s.owner_user_id ≡ owner)
        × (s.github_url ≡ url)
  create_once db' later refused refused' jobs r done =
      let (s, e, o, u) = rows_after db' refused jobs r done in
      (s, conflict db' later refused' s e, o, u)
