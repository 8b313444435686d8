-- ===== src/CoreApi/Interviews/Writes.antt =====
-- Each call of core-api/src/core_api/interviews/service.py keeps the invariant of its table.
use repo_viva.Base.{
  ℕ, suc, ◌+◌, ◌*◌, ◌<◌, String, ◌≡◌, refl, Bool, true, false, Option, none, some, List, [], ◌∷◌,
  ◌++◌, arith, Result, ok, err, All, All-append, All-mono, All-of, Distinct-append, select_where,
  update_where, select_where_empty, select_where_single,
}
use repo_viva.CoreApi.Models.{Interview, Db, one_or_none, ServiceError}
use repo_viva.CoreApi.Interviews.{
  has_interview_id, has_token_hash, is_active, new_interview, save_interview, create_interview,
  is_consumable, activate, consume_session_token, is_overdue, interrupt_overdue,
  end_overdue_sessions, InterviewOutcome, outcome_target, end_row, end_interview, has_row,
}
use repo_viva.CoreApi.Interviews.Table.{
  IsWellFormed, IsConsistent, same_id, same_hash, update-IsWellFormed, activate-IsConsistent,
  interrupt_overdue-IsConsistent, end_row-IsConsistent,
}

has_row_none :
    (q : Interview → Bool) (is : List Interview)
    → has_row (select_where q is) ≡ false
    → All (λ i. q i ≡ false) is
has_row_none q is h = select_where_empty q is (empty (select_where q is) h)
  where
    empty : (rows : List Interview) → has_row rows ≡ false → rows ≡ []
    empty [] e = refl
    empty (r ∷ rows) e = cc

taken-IsWellFormed :
    (db : Db)
    → IsWellFormed db
    → IsWellFormed (record db { next_interview_id = suc db.next_interview_id })
taken-IsWellFormed db v = record {
  consistent = v.consistent;
  fresh_ids =
      All-mono (λ i. i.id < db.next_interview_id) (λ i. i.id < suc db.next_interview_id)
        (λ i h. omega arith) db.interviews v.fresh_ids;
  unique_ids = v.unique_ids;
  unique_hashes = v.unique_hashes;
}

insert-IsWellFormed :
    (db : Db) (i : Interview)
    → has_row (select_where (has_token_hash i.session_token_hash) db.interviews) ≡ false
    → i.id ≡ db.next_interview_id
    → IsConsistent i
    → IsWellFormed db
    → IsWellFormed (record db {
      next_interview_id = suc db.next_interview_id;
      interviews = db.interviews ++ i ∷ [];
    })
insert-IsWellFormed db i free fresh c v = record {
  consistent = All-append IsConsistent db.interviews (i ∷ []) v.consistent (c, tt);
  fresh_ids =
      All-append (λ j. j.id < suc db.next_interview_id) db.interviews (i ∷ [])
        (All-mono (λ j. j.id < db.next_interview_id) (λ j. j.id < suc db.next_interview_id)
          (λ j h. omega arith) db.interviews v.fresh_ids)
        (omega arith, tt);
  unique_ids =
      Distinct-append same_id db.interviews i
        (All-mono (λ j. j.id < db.next_interview_id) (λ j. same_id j i ≡ false)
          (λ j h. ground arith) db.interviews v.fresh_ids)
        v.unique_ids;
  unique_hashes =
      Distinct-append same_hash db.interviews i
        (has_row_none (has_token_hash i.session_token_hash) db.interviews free) v.unique_hashes;
}

save-IsWellFormed :
    (db : Db) (i : Interview) (raw : String)
    → i.id ≡ db.next_interview_id
    → IsConsistent i
    → IsWellFormed db
    → IsWellFormed (save_interview db i raw).0
unfolding save_interview
save-IsWellFormed db i raw fresh c v =
    ground (arith, taken-IsWellFormed db, insert-IsWellFormed db i)

pub create-IsWellFormed :
    (hash : String → String) (db : Db) (now clock ttl : ℕ) (raw : String) (owner rid : ℕ)
    → IsWellFormed db
    → IsWellFormed (create_interview hash db now clock ttl raw owner rid).0
unfolding create_interview
create-IsWellFormed hash db now clock ttl raw owner rid v =
    ground (
      arith,
      save-IsWellFormed db (new_interview db now owner rid (hash raw) (clock + ttl * 60)) raw,
    )

pub consume-IsWellFormed :
    (hash : String → String) (db : Db) (now : ℕ) (raw : String)
    → IsWellFormed db
    → IsWellFormed (consume_session_token hash db now raw).0
unfolding consume_session_token
consume-IsWellFormed hash db now raw v = ground (
  arith,
  update-IsWellFormed (is_consumable (hash raw) now) (activate now)
      (record { id = λ i. refl; token_hash = λ i. refl }) db
      (All-of
        (λ i.
          is_consumable (hash raw) now i ≡ true → IsConsistent i → IsConsistent (activate now i))
        (activate-IsConsistent (hash raw) now) db.interviews)
      v,
)

pub overdue-IsWellFormed :
    (db : Db) (now cutoff owner : ℕ)
    → IsWellFormed db
    → IsWellFormed (end_overdue_sessions db now cutoff owner).0
unfolding end_overdue_sessions
overdue-IsWellFormed db now cutoff owner v =
    update-IsWellFormed (is_overdue owner now cutoff) (interrupt_overdue now)
      (record { id = λ i. refl; token_hash = λ i. refl }) db
      (All-of
        (λ i.
          is_overdue owner now cutoff i ≡ true
          → IsConsistent i
          → IsConsistent (interrupt_overdue now i))
        (interrupt_overdue-IsConsistent owner now cutoff) db.interviews)
      v

-- The row that an end event found is the only one with its id.
pub only_row :
    (P : Interview → Type 0) (db : Db) (iid : ℕ) (i : Interview)
    → one_or_none (select_where (has_interview_id iid) db.interviews) ≡ ok (some i)
    → P i
    → All (λ j. has_interview_id iid j ≡ true → P j) db.interviews
only_row P db iid i e h =
    All-mono (λ j. has_interview_id iid j ≡ true → j ≡ i) (λ j. has_interview_id iid j ≡ true → P j)
      (λ j same hit. rw (same hit) h) db.interviews
      (select_where_single (has_interview_id iid) db.interviews i
        (single (select_where (has_interview_id iid) db.interviews) e))
  where
    single : (rows : List Interview) → one_or_none rows ≡ ok (some i) → rows ≡ i ∷ []
    single [] h = cc
    single (x ∷ []) h = ground arith
    single (x ∷ y ∷ rows) h = cc

end_rows-IsWellFormed :
    (db : Db) (now iid : ℕ) (outcome : InterviewOutcome) (m : Option String) (i : Interview)
    → one_or_none (select_where (has_interview_id iid) db.interviews) ≡ ok (some i)
    → is_active i.status ≡ true
    → IsWellFormed db
    → IsWellFormed (record db {
      interviews =
          update_where
            (has_interview_id iid)
            (end_row now (outcome_target outcome) m)
            db.interviews;
    })
end_rows-IsWellFormed db now iid outcome m i e live v =
    update-IsWellFormed (has_interview_id iid) (end_row now (outcome_target outcome) m)
      (record { id = λ j. refl; token_hash = λ j. refl }) db
      (All-mono (λ j. has_interview_id iid j ≡ true → is_active j.status ≡ true)
        (λ j.
          has_interview_id iid j ≡ true
          → IsConsistent j
          → IsConsistent (end_row now (outcome_target outcome) m j))
        (λ j f hit. end_row-IsConsistent now outcome m j (f hit)) db.interviews
        (only_row (λ j. is_active j.status ≡ true) db iid i e live))
      v

pub end-IsWellFormed :
    (db : Db) (now iid : ℕ) (outcome : InterviewOutcome) (m : Option String)
    → IsWellFormed db
    → IsWellFormed (end_interview db now iid outcome m).0
unfolding end_interview
end-IsWellFormed db now iid outcome m v =
    go (one_or_none (select_where (has_interview_id iid) db.interviews)) refl
  where
    go :
        (o : Result ServiceError (Option Interview))
        → one_or_none (select_where (has_interview_id iid) db.interviews) ≡ o
        → IsWellFormed (end_interview db now iid outcome m).0
    go (err x) e = rw (e, end_interview) v
    go (ok none) e = rw (e, end_interview) v
    go (ok (some i)) e =
        rw (e, end_interview) (ground (arith, end_rows-IsWellFormed db now iid outcome m i e))
