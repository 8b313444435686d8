-- ===== src/Examples/SignIn.antt =====
-- A user signs in with GitHub twice: core-api/src/core_api/auth and users/service.py.
use repo_viva.Base.{
  ℕ, zero, suc, text_length, drop_prefix, ◌≡◌, refl, String, none, some, [], ◌∷◌, ok, arith, length,
  if◌then◌else◌, str_eq, text_append,
}
use repo_viva.CoreApi.Auth.{
  User, Users, Serializer, Github, signed_in, bad_request, sign_state, callback,
  find_or_create_user,
}
use repo_viva.CoreApi.Auth.Saves.{IsWellFormed}
use repo_viva.CoreApi.Auth.SignIn.{find_or_create_once}

-- Cookies that are not secret: the state itself, and the id in unary.
abbrev unary : ℕ → String
unary zero = ""
unary (suc n) = text_append "i" (unary n)

abbrev plain : Serializer
plain = record {
  dumps_text = λ salt now value. text_append salt value;
  loads_text = λ salt age now value. drop_prefix salt value;
  dumps_id = λ salt now uid. unary uid;
  loads_id = λ salt age now value. some (text_length value);
}

abbrev github : Github
github = record {
  exchange_code_for_token = λ code. if str_eq code "c1" then some "t1" else none;
  fetch_github_user = λ access_token. some (583231, "octocat");
}

abbrev users : Users
users = record {
  rows =
      record {
        id = 1;
        github_user_id = 42;
        github_login = "ada";
        encrypted_access_token = "x";
        created_at = 5;
        updated_at = 5;
      }
      ∷ [];
  next_id = 2;
}

abbrev sealed : String → String
sealed token = text_append "sealed-" token

users-IsWellFormed : IsWellFormed users
users-IsWellFormed = ((tt, tt), (tt, tt), (omega arith, tt))

new_account :
    (callback plain sealed github users 100 (some (sign_state plain 90 "s1")) "c1" "s1").1
    ≡ signed_in "ii"
unfolding callback sign_state
new_account = refl

wrong_state :
    callback plain sealed github users 100 (some (sign_state plain 90 "s1")) "c1" "s2"
    ≡ (users, bad_request "Invalid or expired state")
unfolding callback sign_state
wrong_state = refl

abbrev renamed : User
renamed = record {
  id = 1;
  github_user_id = 42;
  github_login = "lovelace";
  encrypted_access_token = "sealed-t2";
  created_at = 5;
  updated_at = 60;
}

abbrev as_before : User
as_before = record renamed {
  github_login = "ada";
  encrypted_access_token = "sealed-t1";
  updated_at = 50;
}

first_time : (find_or_create_user sealed users 50 42 "ada" "t1").1 ≡ ok as_before
unfolding find_or_create_user
first_time = refl

second_time :
    (find_or_create_user sealed
      (find_or_create_user sealed users 50 42 "ada" "t1").0
      60
      42
      "lovelace"
      "t2").1
    ≡ ok renamed
unfolding find_or_create_user
second_time = refl

find_or_create_once_example :
    (renamed.id ≡ as_before.id)
    × (length
          (find_or_create_user sealed
            (find_or_create_user sealed users 50 42 "ada" "t1").0
            60
            42
            "lovelace"
            "t2").0.rows
        ≡ length (find_or_create_user sealed users 50 42 "ada" "t1").0.rows)
find_or_create_once_example =
    find_or_create_once sealed users 50 60 42 "ada" "lovelace" "t1" "t2" as_before renamed
      users-IsWellFormed first_time second_time
