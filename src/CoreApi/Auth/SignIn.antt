-- ===== src/CoreApi/Auth/SignIn.antt =====
-- Who is signed in after the callback: core-api/src/core_api/auth and users/service.py.
use repo_viva.Base.{
  ℕ, ◌+◌, ◌≤◌, ◌≡◌, refl, sym, ap, ◌∙◌, String, Bool, true, Option, none, some, List, [], ◌∷◌,
  Result, ok, err, arith, inl, inr, ==_iff, Bool-cases, ltb, length, text_length, select_where,
  update_where, first_where, first_where-holds, select_where_key, length-update_where,
}
use repo_viva.CoreApi.Models.{ServiceError, data_error}
use repo_viva.CoreApi.Auth.{
  User, Users, max_login_length, has_github_id, has_id, refreshed, refresh, find_or_create_user,
  Serializer, session_salt, session_max_age_seconds, get_current_user, Callback, signed_in,
  bad_request, server_error, Github,
}
use repo_viva.CoreApi.Auth.Saves.{
  same_github_id, IsWellFormed, first_by_key, github_key, Saves, find_or_create-Saves,
}

-- From the time at which it was signed a cookie can be read for as long as it is valid.
abbrev pub ReadsSessions : Serializer → Type 0
ReadsSessions s =
    (uid signed_at now : ℕ)
    → signed_at ≤ now
    → now ≤ signed_at + session_max_age_seconds
    → s.loads_id session_salt session_max_age_seconds now (s.dumps_id session_salt signed_at uid)
      ≡ some uid

module _ (s : Serializer) (encrypt : String → String) (github : Github) where
  -- What an answer of the callback means: a session of the account that GitHub names for the
  -- code, or a refusal before anything was written.
  abbrev pub Answers : Users → ℕ → String → Users → Callback → Type 0
  Answers db later code db' (signed_in cookie) =
      (access_token : String) × (u : User) × (github.exchange_code_for_token code
        ≡ some access_token)
      × (github.fetch_github_user access_token ≡ some (u.github_user_id, u.github_login))
      × (get_current_user s db' later (some cookie) ≡ ok u)
  Answers db later code db' (bad_request detail) = db' ≡ db
  Answers db later code db' server_error = Unit

refresh-found :
    (q : User → Bool) (db : Users) (rows : List User) (o : Option User) (v : User)
    → first_where q rows ≡ o
    → (refresh db o).1 ≡ ok v
    → (q v ≡ true) × ((refresh db o).0 ≡ db)
refresh-found q db rows none v e h = cc
refresh-found q db rows (some u) v e h =
    let same : u ≡ v = ground (arith, h) in (first_where-holds q rows v (rw same at e), refl)

-- A sign-in of a known account.
known_user :
    (encrypt : String → String) (db : Users) (now gid : ℕ) (login token : String) (u v : User)
    → IsWellFormed db
    → first_where (has_github_id gid) db.rows ≡ some u
    → (find_or_create_user encrypt db now gid login token).1 ≡ ok v
    → (v.id ≡ u.id)
      × (length (find_or_create_user encrypt db now gid login token).0.rows ≡ length db.rows)
unfolding find_or_create_user
known_user encrypt db now gid login token u v (ids, githubs, bounded) found h =
    elim (Bool-cases (ltb max_login_length (text_length login))) [
      | inl e ↦ absurd (let refused : err data_error ≡ ok v = rw (selected, e) at h in cc)
      | inr e ↦
          let (hit, kept) =
            refresh-found (has_id u.id) (record db { rows = saved }) saved
              (first_where (has_id u.id) saved) v refl (rw (selected, e) at h) in
          (
            (==_iff v.id u.id).0 hit,
            rw (selected, e)
                (ap (λ (d : Users). length d.rows) kept
                  ∙ length-update_where (has_id u.id) (refreshed now login (encrypt token))
                      db.rows),
          )
    ]
  where
    saved : List User
    saved = update_where (has_id u.id) (refreshed now login (encrypt token)) db.rows

    selected : select_where (has_github_id gid) db.rows ≡ u ∷ []
    selected =
        select_where_key same_github_id (has_github_id gid) (github_key gid) db.rows githubs
        ∙ rw found refl

saved_user :
    (gid : ℕ) (login : String) (r : Users × Result ServiceError User) (u : User)
    → Saves gid login r
    → r.1 ≡ ok u
    → IsWellFormed r.0 × (first_where (has_github_id gid) r.0.rows ≡ some u)
saved_user gid login (db, err e) u w h = cc
saved_user gid login (db, ok v) u (w, owner, name, found) h =
    let same : v ≡ u = ground (arith, h) in
    let owned : has_github_id gid v ≡ true = ground (arith, owner) in
    (
      w,
      rw (sym same) (
          first_by_key same_github_id (has_id v.id) (has_github_id gid) (github_key gid) db.rows v
            w.1 found owned),
    )

-- Two sign-ins of one GitHub account that both succeed are of the same user: the second adds no
-- row, whatever the login and the token are by then.
pub find_or_create_once :
    (encrypt : String → String) (db : Users) (now later gid : ℕ) (login name token renewed : String)
    (u v : User)
    → IsWellFormed db
    → (find_or_create_user encrypt db now gid login token).1 ≡ ok u
    → (find_or_create_user encrypt
        (find_or_create_user encrypt db now gid login token).0
        later
        gid
        name
        renewed).1
      ≡ ok v
    → (v.id ≡ u.id)
      × (length
            (find_or_create_user encrypt
              (find_or_create_user encrypt db now gid login token).0
              later
              gid
              name
              renewed).0.rows
          ≡ length (find_or_create_user encrypt db now gid login token).0.rows)
find_or_create_once encrypt db now later gid login name token renewed u v w first second =
    known_user encrypt (find_or_create_user encrypt db now gid login token).0 later gid name renewed
      u v saved.0 saved.1 second
  where
    saved :
        IsWellFormed (find_or_create_user encrypt db now gid login token).0
        × (first_where
              (has_github_id gid)
              (find_or_create_user encrypt db now gid login token).0.rows
            ≡ some u)
    saved =
        saved_user gid login (find_or_create_user encrypt db now gid login token) u
          (find_or_create-Saves encrypt db now gid login token w) first
