-- ===== src/CoreApi/Interviews/History.antt =====
-- Histories of the interviews table: the calls of core-api/src/core_api/interviews/service.py in
-- the order in which their transactions commit.
use repo_viva.Base.{
  ℕ, String, ◌≡◌, refl, ◌∙◌, true, false, Option, none, some, List, [], ◌∷◌, arith, Result, ok, err,
  All-of, All-mono, Evolves, Evolves-refl, Evolves-trans, Evolves-append, Evolves-update_where,
  Evolves-first_where, first_where, select_where, update_where, ◌+◌, ◌*◌,
}
use repo_viva.CoreApi.Models.{Interview, Db, ServiceError, one_or_none}
use repo_viva.CoreApi.Interviews.{
  has_interview_id, is_created, is_active, new_interview, save_interview, create_interview,
  is_consumable, activate, consume_session_token, is_overdue, interrupt_overdue,
  end_overdue_sessions, InterviewOutcome, outcome_target, end_row, end_interview,
}
use repo_viva.CoreApi.Interviews.Table.{IsWellFormed, is_terminal}
use repo_viva.CoreApi.Interviews.Writes.{
  create-IsWellFormed, consume-IsWellFormed, overdue-IsWellFormed, end-IsWellFormed, only_row,
}

-- A call, with the clocks that it reads.
pub data Call : Type 0 where
  creates : (now clock ttl : ℕ) (raw : String) (owner rid : ℕ) → Call
  consumes : (now : ℕ) (raw : String) → Call
  sweeps : (now cutoff owner : ℕ) → Call
  ends : (now iid : ℕ) (outcome : InterviewOutcome) (message : Option String) → Call

module _ (hash : String → String) where
  pub step : Db → Call → Db
  step db (creates now clock ttl raw owner rid) =
      (create_interview hash db now clock ttl raw owner rid).0
  step db (consumes now raw) = (consume_session_token hash db now raw).0
  step db (sweeps now cutoff owner) = (end_overdue_sessions db now cutoff owner).0
  step db (ends now iid outcome message) = (end_interview db now iid outcome message).0

  unfoldable pub run : Db → List Call → Db
  unfolding step
  run db [] = db
  run db (c ∷ cs) = run (step db c) cs

  step-IsWellFormed : (db : Db) (c : Call) → IsWellFormed db → IsWellFormed (step db c)
  unfolding step
  step-IsWellFormed db (creates now clock ttl raw owner rid) v =
      create-IsWellFormed hash db now clock ttl raw owner rid v
  step-IsWellFormed db (consumes now raw) v = consume-IsWellFormed hash db now raw v
  step-IsWellFormed db (sweeps now cutoff owner) v = overdue-IsWellFormed db now cutoff owner v
  step-IsWellFormed db (ends now iid outcome message) v =
      end-IsWellFormed db now iid outcome message v

  -- From a well-formed table every history keeps it well-formed: ids and token hashes stay unique
  -- and new ids unused; a token is consumed exactly when its interview has left `created`, and
  -- before it expired; an end time stands exactly beside a final status; only an interrupted
  -- interview has an error text, which fits its column.
  pub run_interviews-IsWellFormed :
      (db : Db) (cs : List Call) → IsWellFormed db → IsWellFormed (run db cs)
  unfolding run
  run_interviews-IsWellFormed db [] v = v
  run_interviews-IsWellFormed db (c ∷ cs) v =
      run_interviews-IsWellFormed (step db c) cs (step-IsWellFormed db c v)

-- What no call changes, what is written once, and how the status may move.
pub record Follows (i j : Interview) : Type 0 where
  pub id : j.id ≡ i.id
  pub owner : j.owner_user_id ≡ i.owner_user_id
  pub repository : j.repository_id ≡ i.repository_id
  pub token_hash : j.session_token_hash ≡ i.session_token_hash
  pub expiry : j.session_token_expires_at ≡ i.session_token_expires_at
  pub consumed_once :
      is_created i.status ≡ false → j.session_token_consumed_at ≡ i.session_token_consumed_at
  pub no_return : is_created i.status ≡ false → is_created j.status ≡ false
  pub final_status : is_terminal i.status ≡ true → j.status ≡ i.status
  pub final_end : is_terminal i.status ≡ true → j.ended_at ≡ i.ended_at
  pub final_error : is_terminal i.status ≡ true → j.error_message ≡ i.error_message

pub Follows-refl : (i : Interview) → Follows i i
Follows-refl i = record {
  id = refl;
  owner = refl;
  repository = refl;
  token_hash = refl;
  expiry = refl;
  consumed_once = λ _. refl;
  no_return = λ h. h;
  final_status = λ _. refl;
  final_end = λ _. refl;
  final_error = λ _. refl;
}

pub Follows-trans : (i j k : Interview) → Follows i j → Follows j k → Follows i k
Follows-trans i j k f g = record {
  id = g.id ∙ f.id;
  owner = g.owner ∙ f.owner;
  repository = g.repository ∙ f.repository;
  token_hash = g.token_hash ∙ f.token_hash;
  expiry = g.expiry ∙ f.expiry;
  consumed_once = λ h. g.consumed_once (f.no_return h) ∙ f.consumed_once h;
  no_return = λ h. g.no_return (f.no_return h);
  final_status = λ h. g.final_status (still h) ∙ f.final_status h;
  final_end = λ h. g.final_end (still h) ∙ f.final_end h;
  final_error = λ h. g.final_error (still h) ∙ f.final_error h;
}
  where
    still : is_terminal i.status ≡ true → is_terminal j.status ≡ true
    still h = ground (arith, f.final_status h)

activate-Follows :
    (token_hash : String) (now : ℕ) (i : Interview)
    → is_consumable token_hash now i ≡ true
    → Follows i (activate now i)
activate-Follows token_hash now i e = ground arith

interrupt-Follows :
    (owner now cutoff : ℕ) (i : Interview)
    → is_overdue owner now cutoff i ≡ true
    → Follows i (interrupt_overdue now i)
interrupt-Follows owner now cutoff i e = ground arith

end-Follows :
    (now : ℕ) (outcome : InterviewOutcome) (m : Option String) (i : Interview)
    → is_active i.status ≡ true
    → Follows i (end_row now (outcome_target outcome) m i)
end-Follows now InterviewOutcome.completes m i e = ground arith
end-Follows now InterviewOutcome.interrupts m i e = ground arith

pub end-Evolves :
    (db : Db) (now iid : ℕ) (outcome : InterviewOutcome) (m : Option String)
    → Evolves Follows db.interviews (end_interview db now iid outcome m).0.interviews
unfolding end_interview
end-Evolves db now iid outcome m =
    go (one_or_none (select_where (has_interview_id iid) db.interviews)) refl
  where
    rewritten :
        (i : Interview)
        → one_or_none (select_where (has_interview_id iid) db.interviews) ≡ ok (some i)
        → is_active i.status ≡ true
        → Evolves Follows db.interviews (
            update_where
              (has_interview_id iid)
              (end_row now (outcome_target outcome) m)
              db.interviews)
    rewritten i e live =
        Evolves-update_where Follows (has_interview_id iid) (end_row now (outcome_target outcome) m)
          Follows-refl db.interviews
          (All-mono (λ j. has_interview_id iid j ≡ true → is_active j.status ≡ true)
            (λ j.
              has_interview_id iid j ≡ true → Follows j (end_row now (outcome_target outcome) m j))
            (λ j f hit. end-Follows now outcome m j (f hit)) db.interviews
            (only_row (λ j. is_active j.status ≡ true) db iid i e live))

    go :
        (o : Result ServiceError (Option Interview))
        → one_or_none (select_where (has_interview_id iid) db.interviews) ≡ o
        → Evolves Follows db.interviews (end_interview db now iid outcome m).0.interviews
    go (err x) e = rw (e, end_interview) (Evolves-refl Follows Follows-refl db.interviews)
    go (ok none) e = rw (e, end_interview) (Evolves-refl Follows Follows-refl db.interviews)
    go (ok (some i)) e =
        rw (e, end_interview)
          (ground (arith, Evolves-refl Follows Follows-refl db.interviews, rewritten i e))

module _ (hash : String → String) where
  save-Evolves :
      (db : Db) (i : Interview) (raw : String)
      → Evolves Follows db.interviews (save_interview db i raw).0.interviews
  unfolding save_interview
  save-Evolves db i raw = ground (
    arith,
    Evolves-refl Follows Follows-refl db.interviews,
    Evolves-append Follows Follows-refl db.interviews i,
  )

  step-Evolves : (db : Db) (c : Call) → Evolves Follows db.interviews (step hash db c).interviews
  unfolding step create_interview consume_session_token end_overdue_sessions
  step-Evolves db (creates now clock ttl raw owner rid) = ground (
    arith,
    Evolves-refl Follows Follows-refl db.interviews,
    save-Evolves db (new_interview db now owner rid (hash raw) (clock + ttl * 60)) raw,
  )
  step-Evolves db (consumes now raw) = ground (
    arith,
    Evolves-refl Follows Follows-refl db.interviews,
    Evolves-update_where Follows (is_consumable (hash raw) now) (activate now) Follows-refl
        db.interviews
        (All-of (λ i. is_consumable (hash raw) now i ≡ true → Follows i (activate now i))
          (activate-Follows (hash raw) now) db.interviews),
  )
  step-Evolves db (sweeps now cutoff owner) =
      Evolves-update_where Follows (is_overdue owner now cutoff) (interrupt_overdue now)
        Follows-refl db.interviews
        (All-of (λ i. is_overdue owner now cutoff i ≡ true → Follows i (interrupt_overdue now i))
          (interrupt-Follows owner now cutoff) db.interviews)
  step-Evolves db (ends now iid outcome message) = end-Evolves db now iid outcome message

  pub run-Evolves :
      (db : Db) (cs : List Call) → Evolves Follows db.interviews (run hash db cs).interviews
  unfolding run
  run-Evolves db [] = Evolves-refl Follows Follows-refl db.interviews
  run-Evolves db (c ∷ cs) =
      Evolves-trans Follows Follows-trans db.interviews (step hash db c).interviews
        (run hash (step hash db c) cs).interviews (step-Evolves db c)
        (run-Evolves (step hash db c) cs)

  -- An interview that has ended keeps its status, its end time and its error text through every
  -- history, whatever creations, token uses, sweeps and late or duplicate end events it holds.
  pub run_terminal_absorbs :
      (db : Db) (cs : List Call) (iid : ℕ) (i : Interview)
      → first_where (has_interview_id iid) db.interviews ≡ some i
      → is_terminal i.status ≡ true
      → (j : Interview) × (first_where (has_interview_id iid) (run hash db cs).interviews ≡ some j)
        × (j.status ≡ i.status)
        × (j.ended_at ≡ i.ended_at)
        × (j.error_message ≡ i.error_message)
  run_terminal_absorbs db cs iid i e h =
      let kept =
        Evolves-first_where Follows (has_interview_id iid) (λ x y f. ground (arith, f.id))
          db.interviews (run hash db cs).interviews (run-Evolves db cs) i e in
      (kept.0, kept.1, kept.2.final_status h, kept.2.final_end h, kept.2.final_error h)
