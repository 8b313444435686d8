-- ===== src/CoreApi/Auth.antt =====
-- core-api/src/core_api: auth/router.py, auth/dependencies.py, users/service.py and
-- security/cookies.py. The signer of cookies, the encryption of tokens and the answers of GitHub
-- are arguments; times are seconds.
pub mod Saves
pub mod SignIn
use repo_viva.Base.{
  ℕ, suc, ◌+◌, ◌*◌, String, Bool, true, false, not, ◌&&◌, Option, none, some, List, [], ◌∷◌, ◌++◌,
  Result, ok, err, ltb, ◌==◌, if◌then◌else◌, str_eq, text_length, text_append, select_where,
  update_where, first_where,
}
use repo_viva.CoreApi.Models.{ServiceError, data_error, row_vanished, one_or_none}

pub record User : Type 0 where
  pub id : ℕ
  pub github_user_id : ℕ
  pub github_login : String
  pub encrypted_access_token : String
  pub created_at : ℕ
  pub updated_at : ℕ

-- The users table and its id sequence.
pub record Users : Type 0 where
  pub rows : List User
  pub next_id : ℕ

abbrev pub max_login_length : ℕ
max_login_length = 255

abbrev pub has_github_id : ℕ → User → Bool
has_github_id gid u = u.github_user_id == gid

abbrev pub has_id : ℕ → User → Bool
has_id uid u = u.id == uid

abbrev pub new_user : Users → ℕ → ℕ → String → String → User
new_user db now gid login encrypted = record {
  id = db.next_id;
  github_user_id = gid;
  github_login = login;
  encrypted_access_token = encrypted;
  created_at = now;
  updated_at = now;
}

-- The attributes that are set; without a change no UPDATE runs, and `updated_at` stays.
abbrev pub refreshed : ℕ → String → String → User → User
refreshed now login encrypted u =
    if str_eq u.github_login login && str_eq u.encrypted_access_token encrypted
    then u
    else record u { github_login = login; encrypted_access_token = encrypted; updated_at = now }

-- `refresh` reads the row again.
abbrev pub refresh : Users → Option User → Users × Result ServiceError User
refresh db none = (db, err row_vanished)
refresh db (some u) = (db, ok u)

-- The INSERT takes a number of the sequence also where it is refused.
abbrev pub save_user :
    Users
    → ℕ
    → ℕ
    → String
    → String
    → Result ServiceError (Option User)
    → Users × Result ServiceError User
save_user db now gid login encrypted (err e) = (db, err e)
save_user db now gid login encrypted (ok none) =
    let taken = record db { next_id = suc db.next_id } in
    if ltb max_login_length (text_length login)
    then (taken, err data_error)
    else let u = new_user db now gid login encrypted in
      (record taken { rows = db.rows ++ u ∷ [] }, ok u)
save_user db now gid login encrypted (ok (some u)) =
    if ltb max_login_length (text_length login)
    then (db, err data_error)
    else let saved = update_where (has_id u.id) (refreshed now login encrypted) db.rows in
      refresh (record db { rows = saved }) (first_where (has_id u.id) saved)

unfoldable pub find_or_create_user :
    (String → String) → Users → ℕ → ℕ → String → String → Users × Result ServiceError User
find_or_create_user encrypt db now gid login access_token =
    save_user db now gid login (encrypt access_token)
      (one_or_none (select_where (has_github_id gid) db.rows))

-- URLSafeTimedSerializer: `dumps` at a time, and `loads` with a greatest age at a time, by salt.
pub record Serializer : Type 0 where
  pub dumps_text : String → ℕ → String → String
  pub loads_text : String → ℕ → ℕ → String → Option String
  pub dumps_id : String → ℕ → ℕ → String
  pub loads_id : String → ℕ → ℕ → String → Option ℕ

abbrev pub state_salt : String
state_salt = "oauth-state"

abbrev pub session_salt : String
session_salt = "session"

abbrev pub state_max_age_seconds : ℕ
state_max_age_seconds = 10 * 60

abbrev pub session_max_age_seconds : ℕ
session_max_age_seconds = 7 * 24 * 60 * 60

unfoldable pub sign_state : Serializer → ℕ → String → String
sign_state s now state_value = s.dumps_text state_salt now state_value

unfoldable pub read_state : Serializer → ℕ → String → Option String
read_state s now signed_value = s.loads_text state_salt state_max_age_seconds now signed_value

unfoldable pub sign_session : Serializer → ℕ → ℕ → String
sign_session s now user_id = s.dumps_id session_salt now user_id

unfoldable pub read_session : Serializer → ℕ → String → Option ℕ
read_session s now signed_value = s.loads_id session_salt session_max_age_seconds now signed_value

-- The 401 answers of `get_current_user`, and the exception of a second row.
pub data AuthError : Type 0 where
  not_logged_in invalid_session user_not_found : AuthError
  query_error : ServiceError → AuthError

abbrev pub found_user : Result ServiceError (Option User) → Result AuthError User
found_user (err e) = err (query_error e)
found_user (ok none) = err user_not_found
found_user (ok (some u)) = ok u

abbrev pub session_user : Users → Option ℕ → Result AuthError User
session_user db none = err invalid_session
session_user db (some user_id) = found_user (one_or_none (select_where (has_id user_id) db.rows))

unfoldable pub get_current_user : Serializer → Users → ℕ → Option String → Result AuthError User
unfolding read_session
get_current_user s db now none = err not_logged_in
get_current_user s db now (some signed) = session_user db (read_session s now signed)

-- `login`: the URL to redirect to, and the state cookie.
unfoldable pub login : Serializer → (String → String) → ℕ → String → String × String
unfolding sign_state
login s build_authorize_url now state = (build_authorize_url state, sign_state s now state)

-- What `callback` answers: 400 with its detail, an exception, or the redirect with the session
-- cookie set and the state cookie deleted.
pub data Callback : Type 0 where
  bad_request : String → Callback
  server_error : Callback
  signed_in : (session_cookie : String) → Callback

-- GitHub's answers: the token for a code, and the id and login of a profile; none where it fails.
pub record Github : Type 0 where
  pub exchange_code_for_token : String → Option String
  pub fetch_github_user : String → Option (ℕ × String)

module _ (s : Serializer) (encrypt : String → String) (github : Github) where
  abbrev pub start_session : ℕ → Users × Result ServiceError User → Users × Callback
  start_session now (db, err e) = (db, server_error)
  start_session now (db, ok u) = (db, signed_in (sign_session s now u.id))

  abbrev pub with_profile : Users → ℕ → String → Option (ℕ × String) → Users × Callback
  with_profile db now access_token none = (db, server_error)
  with_profile db now access_token (some (gid, login_name)) =
      start_session now (find_or_create_user encrypt db now gid login_name access_token)

  abbrev pub with_token : Users → ℕ → Option String → Users × Callback
  with_token db now none = (db, server_error)
  with_token db now (some access_token) =
      with_profile db now access_token (github.fetch_github_user access_token)

  abbrev pub with_state : Users → ℕ → String → String → Option String → Users × Callback
  with_state db now code state none = (db, bad_request "Invalid or expired state")
  with_state db now code state (some expected) =
      if not (str_eq expected state)
      then (db, bad_request "Invalid or expired state")
      else with_token db now (github.exchange_code_for_token code)

  unfoldable pub callback : Users → ℕ → Option String → String → String → Users × Callback
  unfolding find_or_create_user sign_session read_state
  callback db now none code state = (db, bad_request "Missing state cookie")
  callback db now (some signed_state) code state =
      with_state db now code state (read_state s now signed_state)
