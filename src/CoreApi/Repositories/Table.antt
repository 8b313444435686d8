-- ===== src/CoreApi/Repositories/Table.antt =====
-- The invariant of the repositories table, kept by every call that writes it.
use repo_viva.Base.{
  ℕ, suc, ◌≤◌, ◌<◌, String, ◌≡◌, refl, Bool, true, false, ◌&&◌, Option, none, some, List, [], ◌∷◌,
  ◌++◌, arith, ◌==◌, str_eq, text_length, is_some, All, All-append, All-mono, All-update_where,
  Distinct, Distinct-append, Distinct-update_where, Bool-cases, inl, inr, select_where,
  update_where,
}
use repo_viva.CoreApi.Models.{Repository, Db, max_url_length, max_error_length}
use repo_viva.CoreApi.Repositories.{
  has_repository_id, has_owner_and_url, any_row, new_repository, create_repository, is_failed,
  is_failed_row, requeue, restart_failed_ingestion, IngestionEventType, apply_event_row,
  event_error, event_target, too_long, apply_ingestion_event,
}
use repo_viva.CoreApi.Repositories.Router.{mark_unsent, unsent_row, unsent_message}

abbrev pub Fits : Option String → Type 0
Fits none = Unit
Fits (some message) = text_length message ≤ max_error_length

-- An error text stands exactly beside `failed`, and both texts fit their columns.
pub record IsConsistent (r : Repository) : Type 0 where
  pub error_iff_failed : is_some r.error_message ≡ is_failed r.status
  pub error_fits : Fits r.error_message
  pub url_fits : text_length r.github_url ≤ max_url_length

abbrev pub same_id : Repository → Repository → Bool
same_id r s = r.id == s.id

abbrev pub same_owner_and_url : Repository → Repository → Bool
same_owner_and_url r s = (r.owner_user_id == s.owner_user_id) && str_eq r.github_url s.github_url

pub record IsWellFormed (db : Db) : Type 0 where
  pub consistent : All IsConsistent db.repositories
  pub fresh_ids : All (λ r. r.id < db.next_repository_id) db.repositories
  pub unique_ids : Distinct same_id db.repositories
  pub unique_urls : Distinct same_owner_and_url db.repositories

-- A rewrite of a row that leaves its keys alone.
pub record KeepsKeys (f : Repository → Repository) : Type 0 where
  pub id : (r : Repository) → (f r).id ≡ r.id
  pub owner : (r : Repository) → (f r).owner_user_id ≡ r.owner_user_id
  pub url : (r : Repository) → (f r).github_url ≡ r.github_url

module _ (p : Repository → Bool) (f : Repository → Repository) (keys : KeepsKeys f)
    (keep : (r : Repository) → p r ≡ true → IsConsistent r → IsConsistent (f r)) where
  pub update-IsWellFormed :
      (db : Db)
      → IsWellFormed db
      → IsWellFormed (record db { repositories = update_where p f db.repositories })
  update-IsWellFormed db v = record {
    consistent = All-update_where IsConsistent p f keep db.repositories v.consistent;
    fresh_ids =
        All-update_where (λ r. r.id < db.next_repository_id) p f
          (λ r _ h. ground (arith, keys.id r)) db.repositories v.fresh_ids;
    unique_ids =
        Distinct-update_where same_id p f (λ r s. ground (arith, keys.id r))
          (λ r s. ground (arith, keys.id s)) db.repositories v.unique_ids;
    unique_urls =
        Distinct-update_where same_owner_and_url p f
          (λ r s. ground (arith, keys.owner r, keys.url r))
          (λ r s. ground (arith, keys.owner s, keys.url s)) db.repositories v.unique_urls;
  }

Fits-of_too_long : (m : Option String) → too_long m ≡ false → Fits m
Fits-of_too_long none h = tt
Fits-of_too_long (some message) h = ground arith

event_error_iff :
    (event : IngestionEventType) (m : Option String)
    → is_some (event_error event m) ≡ is_failed (event_target event)
event_error_iff IngestionEventType.ingestion_started m = refl
event_error_iff IngestionEventType.ingestion_completed m = refl
event_error_iff IngestionEventType.ingestion_failed m = refl

pub restart-IsWellFormed :
    (db : Db) (now rid : ℕ) → IsWellFormed db → IsWellFormed (restart_failed_ingestion db now rid).0
unfolding restart_failed_ingestion
restart-IsWellFormed db now rid v =
    update-IsWellFormed (is_failed_row rid) (requeue now)
      (record { id = λ r. refl; owner = λ r. refl; url = λ r. refl })
      (λ r _ c. record { error_iff_failed = refl; error_fits = tt; url_fits = c.url_fits }) db v

event_row-IsWellFormed :
    (db : Db) (now rid : ℕ) (event : IngestionEventType) (m : Option String)
    → too_long (event_error event m) ≡ false
    → IsWellFormed db
    → IsWellFormed (record db {
      repositories =
          update_where (has_repository_id rid) (apply_event_row now event m) db.repositories;
    })
event_row-IsWellFormed db now rid event m short v =
    update-IsWellFormed (has_repository_id rid) (apply_event_row now event m)
      (record { id = λ r. refl; owner = λ r. refl; url = λ r. refl })
      (λ r _ c. record {
        error_iff_failed = event_error_iff event m;
        error_fits = Fits-of_too_long (event_error event m) short;
        url_fits = c.url_fits;
      })
      db v

pub event-IsWellFormed :
    (db : Db) (now rid : ℕ) (event : IngestionEventType) (m : Option String)
    → IsWellFormed db
    → IsWellFormed (apply_ingestion_event db now rid event m).0
unfolding apply_ingestion_event
event-IsWellFormed db now rid event m v = ground (arith, event_row-IsWellFormed db now rid event m)

pub unsent-IsWellFormed :
    (db : Db) (now rid : ℕ) (reason : String)
    → IsWellFormed db
    → IsWellFormed (mark_unsent db now rid reason).0
unfolding mark_unsent
unsent-IsWellFormed db now rid reason v = elim (Bool-cases (too_long (unsent_message reason))) [
  | inl long ↦ rw long v
  | inr short ↦ rw short (
      update-IsWellFormed (has_repository_id rid) (unsent_row now reason)
        (record { id = λ r. refl; owner = λ r. refl; url = λ r. refl })
        (λ r _ c. record {
          error_iff_failed = refl;
          error_fits = Fits-of_too_long (unsent_message reason) short;
          url_fits = c.url_fits;
        })
        db v)
]

any_row_none :
    (q : Repository → Bool) (rs : List Repository)
    → any_row (select_where q rs) ≡ false
    → All (λ r. q r ≡ false) rs
any_row_none q [] h = tt
any_row_none q (r ∷ rs) h = elim (Bool-cases (q r)) [
  | inl e ↦ absurd (cc (rw e at h))
  | inr e ↦ (e, any_row_none q rs (rw e at h))
]

abbrev insert_repository : Db → ℕ → ℕ → String → Db
insert_repository db now owner url = record db {
  next_repository_id = suc db.next_repository_id;
  repositories = db.repositories ++ new_repository db now owner url ∷ [];
}

insert-IsWellFormed :
    (db : Db) (now owner : ℕ) (url : String)
    → any_row (select_where (has_owner_and_url owner url) db.repositories) ≡ false
    → text_length url ≤ max_url_length
    → IsWellFormed db
    → IsWellFormed (insert_repository db now owner url)
insert-IsWellFormed db now owner url free short v = record {
  consistent =
      All-append IsConsistent db.repositories (new ∷ []) v.consistent
        (record { error_iff_failed = refl; error_fits = tt; url_fits = short }, tt);
  fresh_ids =
      All-append (λ r. r.id < suc db.next_repository_id) db.repositories (new ∷ [])
        (All-mono (λ r. r.id < db.next_repository_id) (λ r. r.id < suc db.next_repository_id)
          (λ r h. omega arith) db.repositories v.fresh_ids)
        (omega arith, tt);
  unique_ids =
      Distinct-append same_id db.repositories new
        (All-mono (λ r. r.id < db.next_repository_id) (λ r. same_id r new ≡ false)
          (λ r h. ground arith) db.repositories v.fresh_ids)
        v.unique_ids;
  unique_urls =
      Distinct-append same_owner_and_url db.repositories new
        (any_row_none (has_owner_and_url owner url) db.repositories free) v.unique_urls;
}
  where
    new : Repository
    new = new_repository db now owner url

taken-IsWellFormed :
    (db : Db)
    → IsWellFormed db
    → IsWellFormed (record db { next_repository_id = suc db.next_repository_id })
taken-IsWellFormed db v = record {
  consistent = v.consistent;
  fresh_ids =
      All-mono (λ r. r.id < db.next_repository_id) (λ r. r.id < suc db.next_repository_id)
        (λ r h. omega arith) db.repositories v.fresh_ids;
  unique_ids = v.unique_ids;
  unique_urls = v.unique_urls;
}

pub create-IsWellFormed :
    (db : Db) (now owner : ℕ) (url : String)
    → IsWellFormed db
    → IsWellFormed (create_repository db now owner url).0
unfolding create_repository
create-IsWellFormed db now owner url v =
    ground (arith, taken-IsWellFormed db, insert-IsWellFormed db now owner url)
