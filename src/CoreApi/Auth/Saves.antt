-- ===== src/CoreApi/Auth/Saves.antt =====
-- The users table after a sign-in: core-api/src/core_api/users/service.py.
use mathlib.Core.Bool.{false≢true}
use mathlib.Core.Option.{some-injective}
use repo_viva.Base.{
  ℕ, suc, ◌<◌, ◌≡◌, refl, sym, ap, ◌∙◌, String, Bool, true, false, ◌&&◌, none, some, List, [], ◌∷◌,
  ◌++◌, Result, ok, err, arith, inl, inr, ==_iff, ==_refl, Bool-cases, ltb, ◌==◌, str_eq, eq_iff,
  text_length, All, All-mono, All-append, All-update_where, select_where, update_where, first_where,
  Distinct, Distinct-append, Distinct-update_where, first_where-holds, first_where-append,
  first_where-update_where, All-first_where, select_where_empty, both_true,
}
use repo_viva.CoreApi.Models.{ServiceError, one_or_none}
use repo_viva.CoreApi.Auth.{
  User, Users, max_login_length, has_github_id, has_id, new_user, refreshed, save_user,
  find_or_create_user,
}

abbrev pub same_id : User → User → Bool
same_id u v = u.id == v.id

abbrev pub same_github_id : User → User → Bool
same_github_id u v = u.github_user_id == v.github_user_id

-- The unique columns, and a sequence past all ids.
abbrev pub IsWellFormed : Users → Type 0
IsWellFormed db =
    Distinct same_id db.rows
    × Distinct same_github_id db.rows
    × All (λ u. u.id < db.next_id) db.rows

-- A row that one query finds is found by a unique key of its own.
pub first_by_key :
    (same : User → User → Bool) (p q : User → Bool)
    → ((r s : User) → q r ≡ true → q s ≡ true → same r s ≡ true)
    → (rows : List User) (u : User) → Distinct same rows
    → first_where p rows ≡ some u
    → q u ≡ true
    → first_where q rows ≡ some u
first_by_key same p q key [] u d e h = cc
first_by_key same p q key (r ∷ rows) u d e h = elim (Bool-cases (p r)) [
  | inl hit ↦
      let found : r ≡ u = some-injective r u (rw hit at e) in
      let hit' : q r ≡ true = rw found h in rw hit' (ap some found)
  | inr miss ↦
      let later : first_where p rows ≡ some u = rw miss at e in
      elim (Bool-cases (q r)) [
        | inl hit ↦ absurd (
            false≢true
              (sym (All-first_where (λ s. same r s ≡ false) p rows u d.0 later) ∙ key r u hit h))
        | inr other ↦ rw other (first_by_key same p q key rows u d.1 later h)
      ]
]

pub id_key : (uid : ℕ) (r s : User) → has_id uid r ≡ true → has_id uid s ≡ true → same_id r s ≡ true
id_key uid r s g h = ground (arith, g, h)

pub github_key :
    (gid : ℕ) (r s : User)
    → has_github_id gid r ≡ true
    → has_github_id gid s ≡ true
    → same_github_id r s ≡ true
github_key gid r s g h = ground (arith, g, h)

-- What is set on an existing row leaves its keys.
pub refreshed_keys :
    (now : ℕ) (login encrypted : String) (u : User)
    → ((refreshed now login encrypted u).id ≡ u.id)
      × ((refreshed now login encrypted u).github_user_id ≡ u.github_user_id)
      × ((refreshed now login encrypted u).github_login ≡ login)
refreshed_keys now login encrypted u =
    elim (Bool-cases (str_eq u.github_login login && str_eq u.encrypted_access_token encrypted)) [
      | inl e ↦
          let (same, _) =
            both_true (str_eq u.github_login login) (str_eq u.encrypted_access_token encrypted) e in
          rw e (refl, refl, (eq_iff u.github_login login).0 same)
      | inr e ↦ rw e (refl, refl, refl)
    ]

first_selected :
    (q : User → Bool) (rows : List User) (u : User)
    → select_where q rows ≡ u ∷ []
    → first_where q rows ≡ some u
first_selected q [] u h = cc
first_selected q (r ∷ rows) u h = elim (Bool-cases (q r)) [
  | inl e ↦ let heads : r ∷ select_where q rows ≡ u ∷ [] = rw e at h in rw e (ground (arith, heads))
  | inr e ↦ rw e (first_selected q rows u (rw e at h))
]

-- After a sign-in the row has the GitHub account and its login, and its id finds it.
abbrev pub Saves : ℕ → String → Users × Result ServiceError User → Type 0
Saves gid login (db, err e) = IsWellFormed db
Saves gid login (db, ok u) =
    IsWellFormed db
    × (u.github_user_id ≡ gid)
    × (u.github_login ≡ login)
    × (first_where (has_id u.id) db.rows ≡ some u)

no_such_id :
    (bound : ℕ) (rows : List User)
    → All (λ u. u.id < bound) rows
    → first_where (has_id bound) rows ≡ none
no_such_id bound [] h = refl
no_such_id bound (u ∷ rows) h =
    let other : has_id bound u ≡ false = ground (arith, h.0) in rw other (no_such_id bound rows h.1)

insert-Saves :
    (db : Users) (now gid : ℕ) (login encrypted : String)
    → IsWellFormed db
    → All (λ r. has_github_id gid r ≡ false) db.rows
    → Saves gid login (save_user db now gid login encrypted (ok none))
insert-Saves db now gid login encrypted (ids, githubs, bounded) fresh =
    elim (Bool-cases (ltb max_login_length (text_length login))) [
      | inl e ↦ rw e (ids, githubs, wider)
      | inr e ↦
          let u = new_user db now gid login encrypted in
          let found : first_where (has_id db.next_id) (db.rows ++ u ∷ []) ≡ some u =
            first_where-append (has_id db.next_id) db.rows u
            ∙ rw (no_such_id db.next_id db.rows bounded, ==_refl db.next_id) refl in
          rw e (
            (
              Distinct-append same_id db.rows u
                  (All-mono (λ r. r.id < db.next_id) (λ r. same_id r u ≡ false)
                    (λ r h. ground (arith, h)) db.rows bounded)
                  ids,
              Distinct-append same_github_id db.rows u fresh githubs,
              All-append (λ r. r.id < suc db.next_id) db.rows (u ∷ []) wider (omega arith, tt),
            ),
            refl,
            refl,
            found,
          )
    ]
  where
    wider : All (λ r. r.id < suc db.next_id) db.rows
    wider =
        All-mono (λ r. r.id < db.next_id) (λ r. r.id < suc db.next_id) (λ r h. omega (arith, h))
          db.rows bounded

update-Saves :
    (db : Users) (now gid : ℕ) (login encrypted : String) (u : User)
    → IsWellFormed db
    → first_where (has_github_id gid) db.rows ≡ some u
    → Saves gid login (save_user db now gid login encrypted (ok (some u)))
update-Saves db now gid login encrypted u (ids, githubs, bounded) found =
    elim (Bool-cases (ltb max_login_length (text_length login))) [
      | inl e ↦ rw e (ids, githubs, bounded)
      | inr e ↦ rw (e, reread) (kept, owner, keys.2, same)
    ]
  where
    keys :
        ((refreshed now login encrypted u).id ≡ u.id)
        × ((refreshed now login encrypted u).github_user_id ≡ u.github_user_id)
        × ((refreshed now login encrypted u).github_login ≡ login)
    keys = refreshed_keys now login encrypted u

    by_id : first_where (has_id u.id) db.rows ≡ some u
    by_id =
        first_by_key same_id (has_github_id gid) (has_id u.id) (id_key u.id) db.rows u ids found
          (==_refl u.id)

    keeps_id : (r : User) → has_id u.id (refreshed now login encrypted r) ≡ has_id u.id r
    keeps_id r = ap (λ i. i == u.id) (refreshed_keys now login encrypted r).0

    reread :
        first_where
          (has_id u.id)
          (update_where (has_id u.id) (refreshed now login encrypted) db.rows)
        ≡ some (refreshed now login encrypted u)
    reread =
        first_where-update_where (has_id u.id) (has_id u.id) (refreshed now login encrypted)
          keeps_id db.rows
        ∙ rw (by_id, ==_refl u.id) refl

    owner : (refreshed now login encrypted u).github_user_id ≡ gid
    owner =
        keys.1
        ∙ (==_iff u.github_user_id gid).0 (first_where-holds (has_github_id gid) db.rows u found)

    same :
        first_where
          (has_id (refreshed now login encrypted u).id)
          (update_where (has_id u.id) (refreshed now login encrypted) db.rows)
        ≡ some (refreshed now login encrypted u)
    same = rw keys.0 reread

    kept :
        IsWellFormed
          (record db { rows = update_where (has_id u.id) (refreshed now login encrypted) db.rows })
    kept = (
      Distinct-update_where same_id (has_id u.id) (refreshed now login encrypted)
          (λ r s. ap (λ i. i == s.id) (refreshed_keys now login encrypted r).0)
          (λ r s. ap (λ i. r.id == i) (refreshed_keys now login encrypted s).0) db.rows ids,
      Distinct-update_where same_github_id (has_id u.id) (refreshed now login encrypted)
          (λ r s. ap (λ i. i == s.github_user_id) (refreshed_keys now login encrypted r).1)
          (λ r s. ap (λ i. r.github_user_id == i) (refreshed_keys now login encrypted s).1) db.rows
          githubs,
      All-update_where (λ r. r.id < db.next_id) (has_id u.id) (refreshed now login encrypted)
          (λ r _ h. omega (arith, h, (refreshed_keys now login encrypted r).0)) db.rows bounded,
    )

pub find_or_create-Saves :
    (encrypt : String → String) (db : Users) (now gid : ℕ) (login access_token : String)
    → IsWellFormed db
    → Saves gid login (find_or_create_user encrypt db now gid login access_token)
unfolding find_or_create_user
find_or_create-Saves encrypt db now gid login access_token w =
    go (select_where (has_github_id gid) db.rows) refl
  where
    go :
        (rows : List User)
        → select_where (has_github_id gid) db.rows ≡ rows
        → Saves gid login (save_user db now gid login (encrypt access_token) (one_or_none rows))
    go [] e =
        insert-Saves db now gid login (encrypt access_token) w
          (select_where_empty (has_github_id gid) db.rows e)
    go (u ∷ []) e =
        update-Saves db now gid login (encrypt access_token) u w
          (first_selected (has_github_id gid) db.rows u e)
    go (u ∷ v ∷ rows) e = w
