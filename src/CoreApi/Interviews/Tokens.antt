-- ===== src/CoreApi/Interviews/Tokens.antt =====
-- The one-time session token: `consume_session_token` and `_classify_rejection` of
-- core-api/src/core_api/interviews/service.py.
use repo_viva.Base.{
  ℕ, String, ◌≡◌, refl, ap, ◌∙◌, Bool, true, not, ◌&&◌, Option, none, some, List, [], ◌∷◌, arith,
  ok, err, ltb, leb, if◌then◌else◌, str_eq, eq_iff, is_some, first_where, select_where,
  update_where, select_where_key, select_where_and, select_where_missing, Evolves-first_where,
  first_where-update_where, All-first_where,
}
use repo_viva.Base.Tables.Keys
use repo_viva.CoreApi.Models.{Interview, Db, unknown, expired, consumed, token_rejected, Outcome}
use repo_viva.CoreApi.Interviews.{
  has_token_hash, is_created, is_consumable, activate, consume_session_token, ConsumedSession,
  session_of,
}
use repo_viva.CoreApi.Interviews.Table.{IsWellFormed, same_hash, IsConsistent}
use repo_viva.CoreApi.Interviews.History.{
  Call, Follows, run, run_interviews-IsWellFormed, run-Evolves,
}
use repo_viva.CoreApi.Interviews.Writes.{consume-IsWellFormed}

select-by_hash :
    (db : Db) (h : String) (i : Interview)
    → IsWellFormed db
    → first_where (has_token_hash h) db.interviews ≡ some i
    → select_where (has_token_hash h) db.interviews ≡ i ∷ []
select-by_hash db h i v e =
    select_where_key same_hash (has_token_hash h)
      (λ x y hx hy. ground (
        arith,
        eq_iff x.session_token_hash h,
        eq_iff y.session_token_hash h,
        eq_iff x.session_token_hash y.session_token_hash,
      ))
      db.interviews v.unique_hashes
    ∙ rw e refl

-- What the consuming UPDATE asks of the row beside its hash.
abbrev is_startable : ℕ → Interview → Bool
is_startable now i =
    not (is_some i.session_token_consumed_at)
    && (ltb now i.session_token_expires_at && is_created i.status)

select-consumable :
    (db : Db) (h : String) (now : ℕ)
    → select_where (is_consumable h now) db.interviews
      ≡ select_where (is_startable now) (select_where (has_token_hash h) db.interviews)
select-consumable db h now = select_where_and (has_token_hash h) (is_startable now) db.interviews

module _ (hash : String → String) (db : Db) (now : ℕ) (raw : String) (v : IsWellFormed db) where
  -- A token that no interview has is rejected as `unknown`, and nothing is written.
  consume_unknown :
      first_where (has_token_hash (hash raw)) db.interviews ≡ none
      → consume_session_token hash db now raw ≡ (db, err (token_rejected unknown))
  unfolding consume_session_token
  consume_unknown gone =
      let empty = select_where_missing (has_token_hash (hash raw)) db.interviews gone in
      ground (arith, select-consumable db (hash raw) now, empty)

  pub consume_known :
      (i : Interview)
      → first_where (has_token_hash (hash raw)) db.interviews ≡ some i
      → consume_session_token hash db now raw ≡ (
          if is_some i.session_token_consumed_at
          then (db, err (token_rejected consumed))
          else if leb i.session_token_expires_at now
          then (db, err (token_rejected expired))
          else (
            record db {
              interviews = update_where (is_consumable (hash raw) now) (activate now) db.interviews;
            },
            ok (session_of i),
          ))
  unfolding consume_session_token
  consume_known i found =
      let single = select-by_hash db (hash raw) i v found in
      let sound =
        All-first_where IsConsistent (has_token_hash (hash raw)) db.interviews i v.consistent
          found in
      ground (arith, single, select-consumable db (hash raw) now, sound)

module _ (hash : String → String) (db db' : Db) (now : ℕ) (raw : String) (s : ConsumedSession)
    (v : IsWellFormed db) (done : consume_session_token hash db now raw ≡ (db', ok s)) where
  -- The interview that the token started.
  started :
      (i : Interview) × (first_where (has_token_hash (hash raw)) db.interviews ≡ some i)
      × (is_consumable (hash raw) now i ≡ true)
      × (session_of i ≡ s)
      × (record db {
        interviews = update_where (is_consumable (hash raw) now) (activate now) db.interviews;
      }
          ≡ db')
  started = go (first_where (has_token_hash (hash raw)) db.interviews) refl
    where
      go :
          (o : Option Interview)
          → first_where (has_token_hash (hash raw)) db.interviews ≡ o
          → (i : Interview) × (first_where (has_token_hash (hash raw)) db.interviews ≡ some i)
            × (is_consumable (hash raw) now i ≡ true)
            × (session_of i ≡ s)
            × (record db {
              interviews = update_where (is_consumable (hash raw) now) (activate now) db.interviews;
            }
                ≡ db')
      go none e = absurd (cc (consume_unknown hash db now raw v e, done))
      go (some i) e =
          let known = consume_known hash db now raw v i e in
          let sound =
            All-first_where IsConsistent (has_token_hash (hash raw)) db.interviews i v.consistent
              e in
          let hit = Keys.first_where-holds (has_token_hash (hash raw)) db.interviews i e in
          (i, e, ground (arith, known, sound, hit), ground (arith, known), ground (arith, known))

  -- A token that has started a session is rejected as `consumed` ever after, whatever the history
  -- in between, and the rejected use writes nothing.
  pub consume_once :
      (cs : List Call) (later : ℕ)
      → consume_session_token hash (run hash db' cs) later raw
        ≡ (run hash db' cs, err (token_rejected consumed))
  consume_once cs later =
      let (i, e, hit, _, moved) = started in
      let now_active : first_where (has_token_hash (hash raw)) db'.interviews
          ≡ some (activate now i) =
        rw (← moved) (
          first_where-update_where (has_token_hash (hash raw)) (is_consumable (hash raw) now)
            (activate now) (λ x. refl) db.interviews
          ∙ rw (e, hit) refl) in
      let (j, found, follows) =
        Evolves-first_where Follows (has_token_hash (hash raw))
          (λ x y f. ap (λ (t : String). str_eq t (hash raw)) f.token_hash) db'.interviews
          (run hash db' cs).interviews (run-Evolves hash db' cs) (activate now i) now_active in
      let sound : IsWellFormed (run hash db' cs) = run_interviews-IsWellFormed hash db' cs (
        let kept = consume-IsWellFormed hash db now raw v in
        rw (ap (λ (o : Outcome ConsumedSession). o.0) done) at kept) in
      consume_known hash (run hash db' cs) later raw sound j found
      ∙ rw (follows.consumed_once refl) refl
