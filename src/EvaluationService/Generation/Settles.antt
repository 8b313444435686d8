-- ===== src/EvaluationService/Generation/Settles.antt =====
-- Every delivery that is not raised leaves its report settled:
-- evaluation-service/src/evaluation_service/generation.py.
use repo_viva.Base.{
  ℕ, String, ◌≡◌, refl, ◌∙◌, Bool, true, false, not, ◌&&◌, some, List, arith, Result, ok, err,
  ==_refl, if◌then◌else◌, first_where, update_where, first_where-append, first_where-update_where,
  Bool-cases, inl, inr, Option-cases, text_take,
}
use repo_viva.Base.Tables.Keys
use repo_viva.EvaluationService.Reports.{
  ReportStatus, ready, failed, generating, ReportContent, Report, PendingReport, has_interview,
  is_failed_report, is_generating_report, is_generating, restart, blank_report, finish, give_up,
  claim, mark_ready, mark_failed, get_status,
}
use repo_viva.EvaluationService.Generation.{
  StoreCall, stores, raises_before, raises_after, Attempt, store_failure, store_content,
  run_generation, request_report, max_error_length, is_ready_status,
}

-- The report of an interview has its final word.
abbrev Settled : ℕ → List Report → Type 0
Settled iid rs =
    (r : Report) × (first_where (has_interview iid) rs ≡ some r) × (is_generating r.status ≡ false)

-- What either of the two finishing statements leaves.
finished :
    (iid : ℕ) (f : Report → Report) (rs : List Report) (r : Report)
    → ((x : Report) → (f x).interview_id ≡ x.interview_id)
    → ((x : Report) → is_generating (f x).status ≡ false)
    → first_where (has_interview iid) rs ≡ some r
    → Settled iid (update_where (is_generating_report iid) f rs)
finished iid f rs r key done e = (
  if is_generating_report iid r then f r else r,
  first_where-update_where (has_interview iid) (is_generating_report iid) f
        (λ x. ground (arith, key x)) rs
      ∙ rw e refl,
  ground (arith, done r, Keys.first_where-holds (has_interview iid) rs r e),
)

store_failure_settles :
    (rs : List Report) (now iid : ℕ) (message : String) (call : StoreCall) (r : Report)
    → first_where (has_interview iid) rs ≡ some r
    → (store_failure rs now iid message call).1 ≡ false
    → Settled iid (store_failure rs now iid message call).0
unfolding store_failure mark_failed
store_failure_settles rs now iid message stores r e q =
    finished iid (give_up now (text_take max_error_length message)) rs r (λ x. refl) (λ x. refl) e
store_failure_settles rs now iid message (raises_before _) r e q = absurd (cc q)
store_failure_settles rs now iid message (raises_after _) r e q = absurd (cc q)

store_content_settles :
    (rs : List Report) (now iid : ℕ) (c : ReportContent) (a : Attempt) (call : StoreCall)
    (r : Report)
    → first_where (has_interview iid) rs ≡ some r
    → (store_content rs now iid c a call).1 ≡ false
    → Settled iid (store_content rs now iid c a call).0
unfolding store_content mark_ready
store_content_settles rs now iid c a stores r e q =
    finished iid (finish now c) rs r (λ x. refl) (λ x. refl) e
store_content_settles rs now iid c a (raises_before message) r e q =
    store_failure_settles rs now iid message a.failed_call r e q
store_content_settles rs now iid c a (raises_after message) r e q =
    let (s, found, _) = finished iid (finish now c) rs r (λ x. refl) (λ x. refl) e in
    store_failure_settles (update_where (is_generating_report iid) (finish now c) rs) now iid
      message a.failed_call s found q

run_settles :
    (rs : List Report) (now : ℕ) (p : PendingReport) (a : Attempt) (r : Report)
    → first_where (has_interview p.interview_id) rs ≡ some r
    → (run_generation rs now p a).1 ≡ false
    → Settled p.interview_id (run_generation rs now p a).0
unfolding run_generation
run_settles rs now p a r e q = go a.content refl
  where
    go :
        (o : Result String ReportContent)
        → a.content ≡ o
        → Settled p.interview_id (run_generation rs now p a).0
    go (ok c) h =
        let calm = rw h at q in
        rw (h, run_generation)
          (store_content_settles rs now p.interview_id c a a.ready_call r e calm)
    go (err message) h =
        let calm = rw h at q in
        rw (h, run_generation)
          (store_failure_settles rs now p.interview_id message a.failed_call r e calm)

claim_leaves :
    (rs : List Report) (now : ℕ) (p : PendingReport)
    → (r : Report) × (first_where (has_interview p.interview_id) (claim rs now p).0 ≡ some r)
unfolding claim
claim_leaves rs now p = elim (Option-cases (first_where (has_interview p.interview_id) rs)) [
  | inl e ↦ (
    blank_report now p,
    rw (e, claim)
        (rw (first_where-append (has_interview p.interview_id) rs (blank_report now p), e)
          (ground (arith, ==_refl p.interview_id))),
  )
  | inr (r, e) ↦ (
    if is_failed_report p.interview_id r then restart now p r else r,
    rw (e, claim)
        (rw
          (
            first_where-update_where (has_interview p.interview_id)
                (is_failed_report p.interview_id) (restart now p) (λ r. refl) rs,
            e,
          )
          refl),
  )
]

-- The test before the pipeline.
abbrev skips : List Report → ℕ → PendingReport → Bool
skips rs now p =
    not (claim rs now p).1 && is_ready_status (get_status (claim rs now p).0 p.interview_id)

read_ready :
    (rs : List Report) (iid : ℕ) (r : Report)
    → first_where (has_interview iid) rs ≡ some r
    → is_ready_status (get_status rs iid) ≡ true
    → is_generating r.status ≡ false
unfolding get_status
read_ready rs iid r e h =
    let known : is_ready_status (some r.status) ≡ true = rw (e, is_ready_status, get_status) at h in
    ready_is_settled r.status known
  where
    ready_is_settled :
        (s : ReportStatus) → is_ready_status (some s) ≡ true → is_generating s ≡ false
    ready_is_settled ready h = refl
    ready_is_settled failed h = refl
    ready_is_settled generating h = absurd (cc h)

-- A delivery that does not raise leaves a row for its interview that is `ready` or `failed`:
-- whatever the pipeline returned, and whichever store call failed after its effect.
pub request_settles :
    (rs : List Report) (now : ℕ) (p : PendingReport) (a : Attempt)
    → (request_report rs now p a).1 ≡ false
    → (r : Report) × (first_where (has_interview p.interview_id) (request_report rs now p a).0
        ≡ some r)
      × (is_generating r.status ≡ false)
unfolding request_report
request_settles rs now p a q = elim (Bool-cases (skips rs now p)) [
  | inl skip ↦
      let (r, e) = claim_leaves rs now p in
      rw (skip, request_report)
        (r, e, read_ready (claim rs now p).0 p.interview_id r e (ground (arith, skip)))
  | inr runs ↦
      let (r, e) = claim_leaves rs now p in
      let calm = rw runs at q in
      rw (runs, request_report) (run_settles (claim rs now p).0 now p a r e calm)
]
