-- ===== src/CoreApi/Interviews/Table.antt =====
-- The invariant of the interviews table, kept by every call of
-- core-api/src/core_api/interviews/service.py that writes it.
use repo_viva.Base.{
  ℕ, ◌<◌, String, ◌≡◌, refl, Bool, true, false, not, Option, none, some, List, [], ◌∷◌, arith, ◌==◌,
  str_eq, text_length-take, is_some, All, All-update_where, Distinct, Distinct-update_where,
  Bool-cases, inl, inr, update_where,
}
use repo_viva.CoreApi.Models.{
  InterviewStatus, completed, interrupted, Interview, Db, max_error_length,
}
use repo_viva.CoreApi.Interviews.{
  is_created, is_active, is_consumable, activate, is_overdue, interrupt_overdue, InterviewOutcome,
  completes, interrupts, outcome_target, end_row,
}
use repo_viva.CoreApi.Repositories.Table.{Fits}

abbrev pub is_terminal : InterviewStatus → Bool
is_terminal completed = true
is_terminal interrupted = true
is_terminal _ = false

abbrev pub is_interrupted : InterviewStatus → Bool
is_interrupted interrupted = true
is_interrupted _ = false

abbrev pub StartsBefore : Option ℕ → ℕ → Type 0
StartsBefore none expiry = Unit
StartsBefore (some t) expiry = t < expiry

-- The token is consumed exactly when the interview has left `created`, and before it expired; an
-- end time stands exactly beside a final status; only an interrupted interview has an error text.
pub record IsConsistent (i : Interview) : Type 0 where
  pub consumed_iff_started : is_some i.session_token_consumed_at ≡ not (is_created i.status)
  pub consumed_in_time : StartsBefore i.session_token_consumed_at i.session_token_expires_at
  pub ended_iff_terminal : is_some i.ended_at ≡ is_terminal i.status
  pub error_needs_interrupted : is_some i.error_message ≡ true → is_interrupted i.status ≡ true
  pub error_fits : Fits i.error_message

abbrev pub same_id : Interview → Interview → Bool
same_id i j = i.id == j.id

abbrev pub same_hash : Interview → Interview → Bool
same_hash i j = str_eq i.session_token_hash j.session_token_hash

pub record IsWellFormed (db : Db) : Type 0 where
  pub consistent : All IsConsistent db.interviews
  pub fresh_ids : All (λ i. i.id < db.next_interview_id) db.interviews
  pub unique_ids : Distinct same_id db.interviews
  pub unique_hashes : Distinct same_hash db.interviews

pub record KeepsKeys (f : Interview → Interview) : Type 0 where
  pub id : (i : Interview) → (f i).id ≡ i.id
  pub token_hash : (i : Interview) → (f i).session_token_hash ≡ i.session_token_hash

module _ (p : Interview → Bool) (f : Interview → Interview) (keys : KeepsKeys f) where
  pub update-IsWellFormed :
      (db : Db)
      → All (λ i. p i ≡ true → IsConsistent i → IsConsistent (f i)) db.interviews
      → IsWellFormed db
      → IsWellFormed (record db { interviews = update_where p f db.interviews })
  update-IsWellFormed db keep v = record {
    consistent = rows db.interviews keep v.consistent;
    fresh_ids =
        All-update_where (λ i. i.id < db.next_interview_id) p f (λ i _ h. ground (arith, keys.id i))
          db.interviews v.fresh_ids;
    unique_ids =
        Distinct-update_where same_id p f (λ i j. ground (arith, keys.id i))
          (λ i j. ground (arith, keys.id j)) db.interviews v.unique_ids;
    unique_hashes =
        Distinct-update_where same_hash p f (λ i j. ground (arith, keys.token_hash i))
          (λ i j. ground (arith, keys.token_hash j)) db.interviews v.unique_hashes;
  }
    where
      rows :
          (is : List Interview)
          → All (λ i. p i ≡ true → IsConsistent i → IsConsistent (f i)) is
          → All IsConsistent is
          → All IsConsistent (update_where p f is)
      rows [] k c = tt
      rows (i ∷ is) k c = elim (Bool-cases (p i)) [
        | inl e ↦ (rw e (k.0 e c.0), rows is k.1 c.1)
        | inr e ↦ (rw e c.0, rows is k.1 c.1)
      ]

pub activate-IsConsistent :
    (token_hash : String) (now : ℕ) (i : Interview)
    → is_consumable token_hash now i ≡ true
    → IsConsistent i
    → IsConsistent (activate now i)
activate-IsConsistent token_hash now i e c = ground arith

pub interrupt_overdue-IsConsistent :
    (owner now cutoff : ℕ) (i : Interview)
    → is_overdue owner now cutoff i ≡ true
    → IsConsistent i
    → IsConsistent (interrupt_overdue now i)
interrupt_overdue-IsConsistent owner now cutoff i e c = ground arith

pub end_row-IsConsistent :
    (now : ℕ) (outcome : InterviewOutcome) (m : Option String) (i : Interview)
    → is_active i.status ≡ true
    → IsConsistent i
    → IsConsistent (end_row now (outcome_target outcome) m i)
end_row-IsConsistent now completes m i e c = ground arith
end_row-IsConsistent now interrupts none i e c = ground arith
end_row-IsConsistent now interrupts (some String.[]) i e c = ground arith
end_row-IsConsistent now interrupts (some (String.◌∷◌ ch s)) i e c = record {
  consumed_iff_started = ground arith;
  consumed_in_time = c.consumed_in_time;
  ended_iff_terminal = refl;
  error_needs_interrupted = λ _. refl;
  error_fits = text_length-take max_error_length (String.◌∷◌ ch s);
}
