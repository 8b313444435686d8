-- ===== src/CoreApi/Worker.antt =====
-- core-api/src/core_api/worker.py: the handlers of `interview.ended` and `ingestion.*` messages.
-- A handler returns, and its message is deleted, or raises and the message comes again.
use repo_viva.Base.{
  ℕ, ap, sym, subst, ◌∙◌, List, String, ◌≡◌, refl, true, false, Option, some, arith, Result, ok,
  err, first_where, Evolves-first_where, Bool-cases, inl, inr,
}
use repo_viva.CoreApi.Models.{
  InterviewStatus, active, Interview, Db, ServiceError, illegal_transition,
}
use repo_viva.CoreApi.Repositories.{IngestionEventType, apply_ingestion_event}
use repo_viva.CoreApi.Interviews.{
  has_interview_id, is_active, is_created, InterviewOutcome, end_interview, target_status_for,
}
use repo_viva.CoreApi.Interviews.Table.{IsWellFormed, is_terminal}
use repo_viva.CoreApi.Interviews.Writes.{end-IsWellFormed}
use repo_viva.CoreApi.Interviews.History.{
  Call, run, Follows, end-Evolves, run_interviews-IsWellFormed, run_terminal_absorbs,
}
use repo_viva.CoreApi.Interviews.Ending.{select-by_id, end_once}

pub data Handled : Type 0 where
  returns : Handled
  raises : ServiceError → Handled

-- An IllegalTransitionError is handled by doing nothing.
abbrev pub ignore_illegal : {A : Type 0} → Result ServiceError A → Handled
ignore_illegal (ok a) = returns
ignore_illegal (err illegal_transition) = returns
ignore_illegal (err e) = raises e

unfoldable pub handle_interview_ended : Db → ℕ → ℕ → InterviewOutcome → Option String → Db × Handled
handle_interview_ended db now iid outcome message =
    let (db', r) = end_interview db now iid outcome message in (db', ignore_illegal r)

unfoldable pub handle_ingestion_event :
    Db → ℕ → ℕ → IngestionEventType → Option String → Db × Handled
handle_ingestion_event db now rid event message =
    let (db', r) = apply_ingestion_event db now rid event message in (db', ignore_illegal r)

-- What a call of the service leaves, as its handler sees it.
handled_as :
    (db db' : Db) (now iid : ℕ) (outcome : InterviewOutcome) (message : Option String)
    (r : Result ServiceError (Option Interview))
    → end_interview db now iid outcome message ≡ (db', r)
    → handle_interview_ended db now iid outcome message ≡ (db', ignore_illegal r)
unfolding handle_interview_ended
handled_as db db' now iid outcome message r e = rw e refl

not_running :
    (db : Db) (now iid : ℕ) (outcome : InterviewOutcome) (message : Option String) (i : Interview)
    → IsWellFormed db
    → first_where (has_interview_id iid) db.interviews ≡ some i
    → is_active i.status ≡ false
    → end_interview db now iid outcome message ≡ (db, err illegal_transition)
unfolding end_interview target_status_for
not_running db now iid outcome message i v e calm =
    let single = select-by_id db iid i v e in ground (arith, single, calm)

active_status : (s : InterviewStatus) → is_active s ≡ true → s ≡ active
active_status s h = ground (arith, h)

-- An end event is refused only for a row that is not active.
refused_is_idle :
    (db : Db) (now iid : ℕ) (outcome : InterviewOutcome) (m : Option String) (j : Interview)
    → IsWellFormed db
    → first_where (has_interview_id iid) db.interviews ≡ some j
    → end_interview db now iid outcome m ≡ (db, err illegal_transition)
    → is_active j.status ≡ false
refused_is_idle db now iid outcome m j v found refused = elim (Bool-cases (is_active j.status)) [
  | inl live ↦
      let (db', done, _) = end_once db now iid outcome m j v found (active_status j.status live) in
      let clash =
        ap (λ (p : Db × Result ServiceError (Option Interview)). p.1) (sym refused ∙ done) in
      absurd (cc clash)
  | inr calm ↦ calm
]

-- An end event for an interview that has left `created` leaves it ended.
ended_row :
    (db : Db) (now iid : ℕ) (outcome : InterviewOutcome) (m : Option String) (i : Interview)
    → IsWellFormed db
    → first_where (has_interview_id iid) db.interviews ≡ some i
    → is_created i.status ≡ false
    → (j : Interview) × (first_where
          (has_interview_id iid)
          (end_interview db now iid outcome m).0.interviews
        ≡ some j)
      × (is_terminal j.status ≡ true)
ended_row db now iid outcome m i v e left =
    let (j, found, kept) =
      Evolves-first_where Follows (has_interview_id iid) (λ x y f. ground (arith, f.id))
        db.interviews (end_interview db now iid outcome m).0.interviews
        (end-Evolves db now iid outcome m) i e in
    (j, found, is_over j found (kept.no_return left) (kept.final_status))
  where
    db1 : Db
    db1 = (end_interview db now iid outcome m).0

    is_over :
        (j : Interview)
        → first_where (has_interview_id iid) db1.interviews ≡ some j
        → is_created j.status ≡ false
        → (is_terminal i.status ≡ true → j.status ≡ i.status)
        → is_terminal j.status ≡ true
    is_over j found out final = elim (Bool-cases (is_active i.status)) [
      | inl live ↦
          let (db', first, again) =
            end_once db now iid outcome m i v e (active_status i.status live) in
          let refused : end_interview db1 now iid outcome m ≡ (db1, err illegal_transition) =
            subst
              (λ (p : Db × Result ServiceError (Option Interview)).
                end_interview p.0 now iid outcome m ≡ (p.0, err illegal_transition))
              (sym first) (again now outcome m) in
          let calm =
            refused_is_idle db1 now iid outcome m j (end-IsWellFormed db now iid outcome m v) found
              refused in
          ground (arith, out, calm)
      | inr calm ↦ ground (arith, left, calm, final)
    ]

-- Once an end event was handled, on a well-formed table, for an interview that had left
-- `created`, every later delivery of an end event for it, whatever its outcome and text, returns
-- and leaves the database as it was, whatever interview calls ran in between.
pub end_event_settles :
    (hash : String → String) (db : Db) (now iid : ℕ) (outcome : InterviewOutcome)
    (message : Option String) (i : Interview)
    → IsWellFormed db
    → first_where (has_interview_id iid) db.interviews ≡ some i
    → is_created i.status ≡ false
    → (cs : List Call) (later : ℕ) (outcome' : InterviewOutcome) (message' : Option String)
    → let after = run hash (handle_interview_ended db now iid outcome message).0 cs in
      handle_interview_ended after later iid outcome' message' ≡ (after, returns)
unfolding handle_interview_ended
end_event_settles hash db now iid outcome message i v e left cs later outcome' message' =
    let db1 = (end_interview db now iid outcome message).0 in
    let v1 = end-IsWellFormed db now iid outcome message v in
    let (j, found, over) = ended_row db now iid outcome message i v e left in
    let (k, there, same, _, _) = run_terminal_absorbs hash db1 cs iid j found over in
    handled_as (run hash db1 cs) (run hash db1 cs) later iid outcome' message'
      (err illegal_transition)
      (not_running (run hash db1 cs) later iid outcome' message' k
        (run_interviews-IsWellFormed hash db1 cs v1) there (ground (arith, same, over)))
