-- ===== src/VoiceService/Planning/Settles.antt =====
-- What a planning delivery leaves: voice-service/src/voice_service/planning/job.py.
use repo_viva.Base.{
  ℕ, suc, String, ◌≡◌, refl, sym, ◌∙◌, Bool, true, false, Option, none, some, List, Result, ok, err,
  arith, if◌then◌else◌, first_where, Bool-cases, inl, inr, text_take,
}
use repo_viva.VoiceService.Store.{
  PlannedQuestion, SessionDocument, Sessions, has_interview, is_generating, ready, get_plan_job,
  count_attempt, save_plan, fail_plan, with_plan, with_failure, claim_plan,
}
use repo_viva.VoiceService.Store.Plans.{
  first_where-update_one, claim_plan_finds, claim_plan_keeps, set_if_generating_finds,
}
use repo_viva.VoiceService.Planning.{
  PlanError, nothing_to_ask, other_error, plan, StoreCall, stores, raises_before, raises_after, Run,
  write, save, second_counted, first_planned, first_counted, attempts, mark_failed, after_attempts,
  is_open, after_read, run_planning, handle_plan_requested, failed_rows, error_text, is_retryable,
  max_error_length,
}

-- The interview's document.
abbrev Has : ℕ → (SessionDocument → Type 0) → Sessions → Type 0
Has iid P ds = (d : SessionDocument) × (first_where (has_interview iid) ds ≡ some d) × P d

abbrev Settled : SessionDocument → Type 0
Settled d = is_generating d.plan_status ≡ false

abbrev Anything : SessionDocument → Type 0
Anything d = Unit

counted : (ds : Sessions) (iid : ℕ) → Has iid Anything ds → Has iid Anything (count_attempt ds iid)
unfolding count_attempt
counted ds iid (d, e, _) = (
  if has_interview iid d then record d { plan_attempts = suc d.plan_attempts } else d,
  first_where-update_one (has_interview iid) (has_interview iid)
      (λ x. record x { plan_attempts = suc x.plan_attempts }) (λ x. refl) (λ x h. h) ds d e,
  tt,
)

settled_by :
    (b : Bool) (d e : SessionDocument)
    → is_generating d.plan_status ≡ b
    → is_generating e.plan_status ≡ false
    → is_generating (if b then e else d).plan_status ≡ false
settled_by true d e h k = k
settled_by false d e h k = h

saved :
    (ds : Sessions) (now iid : ℕ) (qs : List PlannedQuestion)
    → Has iid Anything ds
    → Has iid Settled (save_plan ds now iid qs)
unfolding save_plan
saved ds now iid qs (d, e, _) = (
  if is_generating d.plan_status then with_plan now qs d else d,
  set_if_generating_finds ds iid (with_plan now qs) d (λ x. refl) e,
  settled_by (is_generating d.plan_status) d (with_plan now qs d) refl refl,
)

failed_settled :
    (ds : Sessions) (now iid : ℕ) (error : PlanError)
    → Has iid Anything ds
    → Has iid Settled (failed_rows ds now iid error)
unfolding fail_plan
failed_settled ds now iid error (d, e, _) =
    let text = text_take max_error_length (error_text error) in
    (
      if is_generating d.plan_status then with_failure now text (is_retryable error) d else d,
      set_if_generating_finds ds iid (with_failure now text (is_retryable error)) d (λ x. refl) e,
      settled_by (is_generating d.plan_status) d (with_failure now text (is_retryable error) d) refl
          refl,
    )

-- What the try block leaves: a settled plan if it ends well, and the document in any case.
abbrev Tried : ℕ → Sessions × Option PlanError → Type 0
Tried iid (ds, none) = Has iid Settled ds
Tried iid (ds, some _) = Has iid Anything ds

save-Tried :
    (ds : Sessions) (now iid : ℕ) (r : Run) (qs : Result PlanError (List PlannedQuestion))
    → Has iid Anything ds
    → Tried iid (save ds now iid r qs)
save-Tried ds now iid r (err e) h = h
save-Tried ds now iid r (ok qs) h = go r.save_call
  where
    go : (call : StoreCall) → Tried iid (write call ds (save_plan ds now iid qs))
    go stores = saved ds now iid qs h
    go (raises_before _) = h
    go (raises_after _) = let (d, e, _) = saved ds now iid qs h in (d, e, tt)

second-Tried :
    (ds : Sessions) (now iid : ℕ) (r : Run) (call : StoreCall)
    → Has iid Anything ds
    → Tried iid (second_counted now iid r (write call ds (count_attempt ds iid)))
second-Tried ds now iid r stores h =
    save-Tried (count_attempt ds iid) now iid r (plan r.second) (counted ds iid h)
second-Tried ds now iid r (raises_before _) h = h
second-Tried ds now iid r (raises_after _) h = counted ds iid h

first-Tried :
    (ds : Sessions) (now iid : ℕ) (r : Run) (qs : Result PlanError (List PlannedQuestion))
    → Has iid Anything ds
    → Tried iid (first_planned now iid r ds qs)
first-Tried ds now iid r (ok qs) h = save-Tried ds now iid r (ok qs) h
first-Tried ds now iid r (err (nothing_to_ask _)) h = h
first-Tried ds now iid r (err (other_error _)) h = second-Tried ds now iid r r.second_count h

attempts-Tried :
    (ds : Sessions) (now iid : ℕ) (r : Run)
    → Has iid Anything ds
    → Tried iid (attempts ds now iid r)
unfolding attempts
attempts-Tried ds now iid r h = go r.first_count
  where
    go :
        (call : StoreCall)
        → Tried iid (first_counted now iid r (write call ds (count_attempt ds iid)))
    go stores = first-Tried (count_attempt ds iid) now iid r (plan r.first) (counted ds iid h)
    go (raises_before _) = h
    go (raises_after _) = counted ds iid h

mark_failed_settles :
    (ds : Sessions) (now iid : ℕ) (error : PlanError) (call : StoreCall)
    → Has iid Anything ds
    → (mark_failed ds now iid error call).1 ≡ false
    → Has iid Settled (mark_failed ds now iid error call).0
unfolding mark_failed
mark_failed_settles ds now iid error stores h q = failed_settled ds now iid error h
mark_failed_settles ds now iid error (raises_before _) h q = absurd (cc q)
mark_failed_settles ds now iid error (raises_after _) h q = absurd (cc q)

after_settles :
    (now iid : ℕ) (r : Run) (t : Sessions × Option PlanError)
    → Tried iid t
    → (after_attempts now iid r t).1 ≡ false
    → Has iid Settled (after_attempts now iid r t).0
after_settles now iid r (ds, none) h q = h
after_settles now iid r (ds, some error) h q = mark_failed_settles ds now iid error r.fail_call h q

job_open :
    (ds : Sessions) (iid : ℕ) (d : SessionDocument)
    → first_where (has_interview iid) ds ≡ some d
    → is_open (get_plan_job ds iid) ≡ is_generating d.plan_status
unfolding get_plan_job
job_open ds iid d e = rw (e, is_open, get_plan_job) refl

run_settles :
    (ds : Sessions) (now iid : ℕ) (r : Run) (read : Option String)
    → Has iid Anything ds
    → (after_read ds now iid r read).1 ≡ false
    → Has iid Settled (after_read ds now iid r read).0
run_settles ds now iid r (some message) h q =
    mark_failed_settles ds now iid (other_error message) r.fail_call h q
run_settles ds now iid r none (d, e, _) q = elim (Bool-cases (is_open (get_plan_job ds iid))) [
  | inl g ↦
      let calm = rw g at q in
      rw (g, after_read)
        (after_settles now iid r (attempts ds now iid r) (attempts-Tried ds now iid r (d, e, tt))
          calm)
  | inr g ↦ rw (g, after_read) (d, e, sym (job_open ds iid d e) ∙ g)
]

-- A planning delivery that does not raise leaves the interview's plan `ready` or `failed`,
-- whatever the planner answered and whichever write of the store failed.
pub planning_settles :
    (ds : Sessions) (now iid rid : ℕ) (r : Run)
    → (handle_plan_requested ds now iid rid r).1 ≡ false
    → (d : SessionDocument) × (first_where
          (has_interview iid)
          (handle_plan_requested ds now iid rid r).0
        ≡ some d)
      × (is_generating d.plan_status ≡ false)
unfolding handle_plan_requested run_planning
planning_settles ds now iid rid r q =
    let (d, e) = claim_plan_finds ds now iid rid in
    run_settles (claim_plan ds now iid rid).0 now iid r r.read_error (d, e, tt) q

mark_failed_keeps :
    (ds : Sessions) (now iid : ℕ) (error : PlanError) (call : StoreCall) (d : SessionDocument)
    → first_where (has_interview iid) ds ≡ some d
    → is_generating d.plan_status ≡ false
    → first_where (has_interview iid) (mark_failed ds now iid error call).0 ≡ some d
unfolding mark_failed fail_plan
mark_failed_keeps ds now iid error call d e g = go call
  where
    kept : first_where (has_interview iid) (failed_rows ds now iid error) ≡ some d
    kept =
        set_if_generating_finds ds iid
          (with_failure now (text_take max_error_length (error_text error)) (is_retryable error)) d
          (λ x. refl) e
        ∙ ground (arith, g)

    go :
        (c : StoreCall)
        → first_where (has_interview iid) (mark_failed ds now iid error c).0 ≡ some d
    go stores = kept
    go (raises_before _) = e
    go (raises_after _) = kept

run_keeps :
    (ds : Sessions) (now iid : ℕ) (r : Run) (read : Option String) (d : SessionDocument)
    → first_where (has_interview iid) ds ≡ some d
    → is_generating d.plan_status ≡ false
    → first_where (has_interview iid) (after_read ds now iid r read).0 ≡ some d
run_keeps ds now iid r (some message) d e g =
    mark_failed_keeps ds now iid (other_error message) r.fail_call d e g
run_keeps ds now iid r none d e g = rw (job_open ds iid d e ∙ g, after_read) e

-- A delivery for an interview whose plan is ready leaves its document as it is in every field,
-- even where the store fails on reading it.
pub ready_plan_kept :
    (ds : Sessions) (now iid rid : ℕ) (r : Run) (d : SessionDocument)
    → first_where (has_interview iid) ds ≡ some d
    → d.plan_status ≡ ready
    → first_where (has_interview iid) (handle_plan_requested ds now iid rid r).0 ≡ some d
unfolding handle_plan_requested run_planning
ready_plan_kept ds now iid rid r d e s =
    run_keeps (claim_plan ds now iid rid).0 now iid r r.read_error d
      (claim_plan_keeps ds now iid rid d e (ground (arith, s))) (ground (arith, s))
