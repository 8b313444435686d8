-- ===== src/CoreApi/Interviews/Ending.antt =====
-- How interviews end, and what their owner reads: `end_interview`, `end_overdue_sessions` and
-- `get_interview_for_user` of core-api/src/core_api/interviews/service.py.
use repo_viva.Base.{
  ℕ, String, ◌≡◌, refl, ◌∙◌, false, ◌&&◌, Option, none, some, List, [], ◌∷◌, arith, ok, err, ◌==◌,
  if◌then◌else◌, first_where, select_where, update_where, select_where_key, select_where_and,
  select_where-update_where, select_where-update_other, update_where_once, update_where_none, All,
}
use repo_viva.CoreApi.Models.{Interview, Db, illegal_transition, active}
use repo_viva.CoreApi.Interviews.{
  has_interview_id, is_active, is_overdue, interrupt_overdue, end_overdue_sessions,
  get_interview_for_user, InterviewOutcome, completes, interrupts, outcome_target, end_row,
  end_interview,
}
use repo_viva.CoreApi.Interviews.Table.{IsWellFormed, same_id}

pub select-by_id :
    (db : Db) (iid : ℕ) (i : Interview)
    → IsWellFormed db
    → first_where (has_interview_id iid) db.interviews ≡ some i
    → select_where (has_interview_id iid) db.interviews ≡ i ∷ []
select-by_id db iid i v e =
    select_where_key same_id (has_interview_id iid) (λ x y hx hy. ground arith) db.interviews
      v.unique_ids
    ∙ rw e refl

not_active : (outcome : InterviewOutcome) → is_active (outcome_target outcome) ≡ false
not_active completes = refl
not_active interrupts = refl

-- An end event ends an active interview: afterwards every further end event for it, whatever its
-- outcome, raises IllegalTransitionError and leaves the database as it was.
pub end_once :
    (db : Db) (now iid : ℕ) (outcome : InterviewOutcome) (m : Option String) (i : Interview)
    → IsWellFormed db
    → first_where (has_interview_id iid) db.interviews ≡ some i
    → i.status ≡ active
    → (db' : Db) × (end_interview db now iid outcome m
        ≡ (db', ok (some (end_row now (outcome_target outcome) m i))))
      × ((later : ℕ) (outcome' : InterviewOutcome) (m' : Option String)
          → end_interview db' later iid outcome' m' ≡ (db', err illegal_transition))
unfolding end_interview
end_once db now iid outcome m i v found live = (
  record db {
    interviews =
        update_where (has_interview_id iid) (end_row now (outcome_target outcome) m) db.interviews;
  },
  ground (arith, single),
  λ later outcome' m'. ground (arith, after, not_active outcome),
)
  where
    single : select_where (has_interview_id iid) db.interviews ≡ i ∷ []
    single = select-by_id db iid i v found

    after :
        select_where (has_interview_id iid) (
          update_where
            (has_interview_id iid)
            (end_row now (outcome_target outcome) m)
            db.interviews)
        ≡ end_row now (outcome_target outcome) m i ∷ []
    after =
        select_where-update_where (has_interview_id iid) (end_row now (outcome_target outcome) m)
          (λ x. refl) db.interviews
        ∙ rw single refl

-- A sweep ends what it finds once: a second sweep of the same user at the same time ends nothing
-- and changes nothing.
pub sweep_once :
    (db : Db) (now cutoff owner : ℕ)
    → end_overdue_sessions (end_overdue_sessions db now cutoff owner).0 now cutoff owner
      ≡ ((end_overdue_sessions db now cutoff owner).0, [])
unfolding end_overdue_sessions
sweep_once db now cutoff owner = rw (
  update_where_none (is_overdue owner now cutoff) (interrupt_overdue now) _ gone,
  none_selected (update_where (is_overdue owner now cutoff) (interrupt_overdue now) db.interviews)
      gone,
)
  where
    gone :
        All
          (λ i. is_overdue owner now cutoff i ≡ false)
          (update_where (is_overdue owner now cutoff) (interrupt_overdue now) db.interviews)
    gone =
        update_where_once (is_overdue owner now cutoff) (interrupt_overdue now) (λ i. ground arith)
          db.interviews

    none_selected :
        (is : List Interview)
        → All (λ i. is_overdue owner now cutoff i ≡ false) is
        → select_where (is_overdue owner now cutoff) is ≡ []
    none_selected [] h = refl
    none_selected (i ∷ is) h = rw h.0 (none_selected is h.1)

module _ (db : Db) (now cutoff iid owner : ℕ) (i : Interview) (v : IsWellFormed db)
    (found : first_where (has_interview_id iid) db.interviews ≡ some i) where
  owned :
      select_where (λ j. has_interview_id iid j && (j.owner_user_id == owner)) db.interviews
      ≡ (if i.owner_user_id == owner then i ∷ [] else [])
  owned =
      select_where_and (has_interview_id iid) (λ j. j.owner_user_id == owner) db.interviews
      ∙ rw (select-by_id db iid i v found) refl

  swept :
      select_where
        (λ j. has_interview_id iid j && (j.owner_user_id == owner))
        (end_overdue_sessions db now cutoff owner).0.interviews
      ≡ (if i.owner_user_id == owner
          then (if is_overdue owner now cutoff i then interrupt_overdue now i else i) ∷ []
          else [])
  unfolding end_overdue_sessions
  swept =
      select_where-update_other (λ j. has_interview_id iid j && (j.owner_user_id == owner))
        (is_overdue owner now cutoff) (interrupt_overdue now) (λ j. refl) db.interviews
      ∙ rw owned (ground arith)

  -- The owner reads the interview as it is after the sweep: interrupted, ended now, if it was
  -- active past the cutoff, and otherwise unchanged. To any other user it does not exist.
  pub get_for_user : (get_interview_for_user db now cutoff iid owner).1 ≡ (
      if i.owner_user_id == owner
      then ok (some (if is_overdue owner now cutoff i then interrupt_overdue now i else i))
      else ok none)
  unfolding get_interview_for_user
  get_for_user = ground (arith, swept)
