-- ===== src/EvaluationService/Reports/History.antt =====
-- Histories of the reports table: the statements of evaluation_service/reports.py in any
-- interleaving of any number of deliveries.
use repo_viva.Base.{
  ℕ, String, ◌≡◌, refl, ap, ◌∙◌, Bool, true, false, some, List, [], ◌∷◌, arith, ◌==◌, ==_refl,
  is_some, first_where, update_where, update_where_once, update_where_none, first_where-append,
  first_where-update_where, All, All-of, All-mono, All-append, Distinct, Distinct-append,
  Distinct-update_where, Evolves, Evolves-refl, Evolves-trans, Evolves-append, Evolves-update_where,
  Evolves-first_where, Bool-cases, inl, inr,
}
use repo_viva.EvaluationService.Reports.{
  ready, ReportContent, Report, PendingReport, has_interview, is_failed_report,
  is_generating_report, restart, blank_report, finish, give_up, claim, mark_ready, mark_failed,
}

pub data Statement : Type 0 where
  claims : (now : ℕ) (p : PendingReport) → Statement
  readies : (now iid : ℕ) (c : ReportContent) → Statement
  fails : (now iid : ℕ) (message : String) → Statement

pub step : List Report → Statement → List Report
step rs (claims now p) = (claim rs now p).0
step rs (readies now iid c) = mark_ready rs now iid c
step rs (fails now iid message) = mark_failed rs now iid message

unfoldable pub run : List Report → List Statement → List Report
unfolding step
run rs [] = rs
run rs (s ∷ ss) = run (step rs s) ss

abbrev pub same_interview : Report → Report → Bool
same_interview r s = r.interview_id == s.interview_id

All-missing :
    (iid : ℕ) (rs : List Report)
    → is_some (first_where (has_interview iid) rs) ≡ false
    → All (λ r. has_interview iid r ≡ false) rs
All-missing iid [] h = tt
All-missing iid (r ∷ rs) h = elim (Bool-cases (has_interview iid r)) [
  | inl e ↦ absurd (cc (rw e at h))
  | inr e ↦ (e, All-missing iid rs (rw e at h))
]

step-Distinct :
    (rs : List Report) (s : Statement)
    → Distinct same_interview rs
    → Distinct same_interview (step rs s)
unfolding step claim mark_ready mark_failed
step-Distinct rs (claims now p) d = ground (
  arith,
  Distinct-update_where same_interview (is_failed_report p.interview_id) (restart now p)
      (λ r s. refl) (λ r s. refl) rs d,
  λ (h : is_some (first_where (has_interview p.interview_id) rs) ≡ false).
      Distinct-append same_interview rs (blank_report now p) (All-missing p.interview_id rs h) d,
)
step-Distinct rs (readies now iid c) d =
    Distinct-update_where same_interview (is_generating_report iid) (finish now c) (λ r s. refl)
      (λ r s. refl) rs d
step-Distinct rs (fails now iid message) d =
    Distinct-update_where same_interview (is_generating_report iid) (give_up now message)
      (λ r s. refl) (λ r s. refl) rs d

-- Whatever statements run, no interview gets a second report.
pub run_reports-Distinct :
    (rs : List Report) (ss : List Statement)
    → Distinct same_interview rs
    → Distinct same_interview (run rs ss)
unfolding run
run_reports-Distinct rs [] d = d
run_reports-Distinct rs (s ∷ ss) d = run_reports-Distinct (step rs s) ss (step-Distinct rs s d)

-- The key stays, and a ready report stays as it is in every column.
pub record Follows (r s : Report) : Type 0 where
  pub key : s.interview_id ≡ r.interview_id
  pub absorbs : r.status ≡ ready → s ≡ r

Follows-refl : (r : Report) → Follows r r
Follows-refl r = record { key = refl; absorbs = λ _. refl }

Follows-trans : (r s t : Report) → Follows r s → Follows s t → Follows r t
Follows-trans r s t f g = record {
  key = g.key ∙ f.key;
  absorbs = λ e. g.absorbs (ap (λ (x : Report). x.status) (f.absorbs e) ∙ e) ∙ f.absorbs e;
}

rewrites :
    (p : Report → Bool) (f : Report → Report)
    → ((r : Report) → (f r).interview_id ≡ r.interview_id)
    → ((r : Report) → p r ≡ true → r.status ≡ ready → ⊥)
    → (rs : List Report) → Evolves Follows rs (update_where p f rs)
rewrites p f key open_rows rs = Evolves-update_where Follows p f Follows-refl rs (
    All-of (λ r. p r ≡ true → Follows r (f r))
      (λ r hit. record { key = key r; absorbs = λ e. absurd (open_rows r hit e) }) rs)

step-Evolves : (rs : List Report) (s : Statement) → Evolves Follows rs (step rs s)
unfolding step claim mark_ready mark_failed
step-Evolves rs (claims now p) = ground (
  arith,
  rewrites (is_failed_report p.interview_id) (restart now p) (λ r. refl) (λ r hit e. ground arith)
      rs,
  Evolves-append Follows Follows-refl rs (blank_report now p),
)
step-Evolves rs (readies now iid c) =
    rewrites (is_generating_report iid) (finish now c) (λ r. refl) (λ r hit e. ground arith) rs
step-Evolves rs (fails now iid message) =
    rewrites (is_generating_report iid) (give_up now message) (λ r. refl) (λ r hit e. ground arith)
      rs

run-Evolves : (rs : List Report) (ss : List Statement) → Evolves Follows rs (run rs ss)
unfolding run
run-Evolves rs [] = Evolves-refl Follows Follows-refl rs
run-Evolves rs (s ∷ ss) =
    Evolves-trans Follows Follows-trans rs (step rs s) (run (step rs s) ss) (step-Evolves rs s)
      (run-Evolves (step rs s) ss)

-- A ready report is never rewritten: through every interleaving of claims, results and failures
-- the interview's row stays the same in all its columns.
pub run_report_absorbs :
    (rs : List Report) (ss : List Statement) (iid : ℕ) (r : Report)
    → first_where (has_interview iid) rs ≡ some r
    → r.status ≡ ready
    → first_where (has_interview iid) (run rs ss) ≡ some r
run_report_absorbs rs ss iid r e h =
    let (s, found, follows) =
      Evolves-first_where Follows (has_interview iid) (λ x y f. ground (arith, f.key)) rs
        (run rs ss) (run-Evolves rs ss) r e in
    found ∙ ap (λ (x : Report). some x) (follows.absorbs h)

none_failed :
    (iid : ℕ) (rs : List Report)
    → All (λ r. is_failed_report iid r ≡ false) rs
    → is_some (first_where (is_failed_report iid) rs) ≡ false
none_failed iid [] h = refl
none_failed iid (r ∷ rs) h = rw h.0 (none_failed iid rs h.1)

-- A claim on an interview that has a row, none of them failed.
claim_lost :
    (rs : List Report) (now : ℕ) (q : PendingReport)
    → is_some (first_where (has_interview q.interview_id) rs) ≡ true
    → All (λ r. is_failed_report q.interview_id r ≡ false) rs
    → claim rs now q ≡ (rs, false)
unfolding claim
claim_lost rs now q there calm =
    rw (there, claim)
      (rw
        (
          update_where_none (is_failed_report q.interview_id) (restart now q) rs calm,
          none_failed q.interview_id rs calm,
        )
        refl)

not_failed_of_missing :
    (iid : ℕ) (rs : List Report)
    → All (λ r. has_interview iid r ≡ false) rs
    → All (λ r. is_failed_report iid r ≡ false) rs
not_failed_of_missing iid rs =
    All-mono (λ r. has_interview iid r ≡ false) (λ r. is_failed_report iid r ≡ false)
      (λ r h. ground arith) rs

claimed_rows :
    (rs : List Report) (now : ℕ) (p : PendingReport)
    → (is_some (first_where (has_interview p.interview_id) (claim rs now p).0) ≡ true)
      × All (λ r. is_failed_report p.interview_id r ≡ false) (claim rs now p).0
unfolding claim
claimed_rows rs now p =
    elim (Bool-cases (is_some (first_where (has_interview p.interview_id) rs))) [
      | inl e ↦ (
        rw (e, claim)
            (rw
              (first_where-update_where (has_interview p.interview_id)
                (is_failed_report p.interview_id) (restart now p) (λ r. refl) rs)
              (ground arith)),
        rw (e, claim)
            (update_where_once (is_failed_report p.interview_id) (restart now p) (λ r. ground arith)
              rs),
      )
      | inr e ↦ (
        rw (e, claim)
            (rw (first_where-append (has_interview p.interview_id) rs (blank_report now p))
              (ground (arith, ==_refl p.interview_id))),
        rw (e, claim)
            (All-append (λ r. is_failed_report p.interview_id r ≡ false) rs
              (blank_report now p ∷ [])
              (not_failed_of_missing p.interview_id rs (All-missing p.interview_id rs e))
              (ground arith, tt)),
      )
    ]

-- Of two claims in a row on the same interview the second one loses and changes nothing.
pub claim_once :
    (rs : List Report) (now later : ℕ) (p q : PendingReport)
    → q.interview_id ≡ p.interview_id
    → claim (claim rs now p).0 later q ≡ ((claim rs now p).0, false)
claim_once rs now later p q same =
    let (there, calm) = claimed_rows rs now p in
    claim_lost (claim rs now p).0 later q (rw same there) (rw same calm)
