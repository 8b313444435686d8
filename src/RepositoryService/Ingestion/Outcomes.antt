-- ===== src/RepositoryService/Ingestion/Outcomes.antt =====
-- What a delivery that returns has done: repository-service/src/repository_service/ingestion.
use repo_viva.Base.{
  ℕ, String, ◌≡◌, refl, ◌∙◌, Bool, true, false, Option, none, some, List, [], ◌∷◌, ◌++◌, ==_refl,
  arith, if◌then◌else◌, ltb, first_where, first_where-append, first_where-update_where, Bool-cases,
  Option-cases, ◌⊎◌, inl, inr,
}
use repo_viva.Base.Tables.Keys
use repo_viva.RepositoryService.Ingestion.{
  JobStatus, in_progress, ready, failed, IngestionJob, is_terminal, max_attempts, has_repository,
  first_attempt, is_claimable, another_attempt, claim, get, with_status, set_status, IngestionEvent,
  started, completed, ingestion_failed, State, Delivery, StoreCall, stores, raises_before,
  raises_after, returns, Stage, succeeds, stage_dies, fails, emit, outcome_event, publish_outcome,
  settle, remove_workspace, after_ingest, crashed_message, run_job, with_job, run_ingestion,
  after_claim, handle_ingestion_job, fetch_and_index,
}

-- A job has ended, and the bus took its end last: a completion for a job that is ready, a failure
-- with the job's own error text for one that has failed.
abbrev pub EndsWith : ℕ → IngestionJob → List IngestionEvent → Type 0
EndsWith rid j published =
    ((j.status ≡ ready)
      × ((before : List IngestionEvent) × (published ≡ before ++ completed rid ∷ [])))
    ⊎ ((j.status ≡ failed)
        × ((before : List IngestionEvent) × (published
              ≡ before ++ ingestion_failed rid j.error_message ∷ [])))

abbrev pub Announced : ℕ → State → Type 0
Announced rid st = (j : IngestionJob) × (get st.jobs rid ≡ some j) × EndsWith rid j st.published

ends_with :
    (rid : ℕ) (j : IngestionJob) (before : List IngestionEvent) (s : JobStatus)
    → j.status ≡ s
    → is_terminal s ≡ true
    → EndsWith rid j (before ++ outcome_event rid s j.error_message ∷ [])
ends_with rid j before ready e t = inl (e, (before, refl))
ends_with rid j before failed e t = inr (e, (before, refl))
ends_with rid j before in_progress e t = absurd (cc t)

publish_announces :
    (st : State) (rid : ℕ) (j : IngestionJob) (sent : Bool)
    → get st.jobs rid ≡ some j
    → is_terminal j.status ≡ true
    → (publish_outcome st rid j.status j.error_message sent).1 ≡ returns
    → Announced rid (publish_outcome st rid j.status j.error_message sent).0
unfolding publish_outcome
publish_announces st rid j true e t q = (j, e, ends_with rid j st.published j.status refl t)
publish_announces st rid j false e t q = absurd (cc q)

pub set_status_found :
    (js : List IngestionJob) (rid : ℕ) (s : JobStatus) (message : Option String) (j : IngestionJob)
    → get js rid ≡ some j
    → get (set_status js rid s message) rid ≡ some (with_status s message j)
unfolding get set_status
set_status_found js rid s message j e =
    first_where-update_where (has_repository rid) (has_repository rid) (with_status s message)
      (λ x. refl) js
    ∙ rw e (ground (arith, Keys.first_where-holds (has_repository rid) js j e))

settle_announces :
    (st : State) (rid : ℕ) (s : JobStatus) (message : Option String) (d : Delivery)
    (call : StoreCall) (j : IngestionJob)
    → get st.jobs rid ≡ some j
    → is_terminal s ≡ true
    → (settle st rid s message d call).1 ≡ returns
    → Announced rid (settle st rid s message d call).0
unfolding settle
settle_announces st rid s message d stores j e t q =
    publish_announces (record st { jobs = set_status st.jobs rid s message }) rid
      (with_status s message j) d.outcome_sent (set_status_found st.jobs rid s message j e) t q
settle_announces st rid s message d raises_before j e t q = absurd (cc q)
settle_announces st rid s message d raises_after j e t q = absurd (cc q)

ingest_announces :
    (st : State) (rid : ℕ) (d : Delivery) (stage : Stage) (j : IngestionJob)
    → get st.jobs rid ≡ some j
    → (after_ingest st rid d stage).1 ≡ returns
    → Announced rid (after_ingest st rid d stage).0
ingest_announces st rid d stage_dies j e q = absurd (cc q)
ingest_announces st rid d succeeds j e q =
    settle_announces (remove_workspace rid st) rid ready none d d.status_call j e refl q
ingest_announces st rid d (fails message) j e q =
    settle_announces (remove_workspace rid st) rid failed (some message) d d.status_call j e refl q

pub emit_found :
    (st : State) (sent : Bool) (event : IngestionEvent) (rid : ℕ)
    → get (emit st sent event).jobs rid ≡ get st.jobs rid
emit_found st true event rid = refl
emit_found st false event rid = refl

run_job_announces :
    (st : State) (j : IngestionJob) (rid : ℕ) (d : Delivery)
    → get st.jobs rid ≡ some j
    → (run_job st j rid d).1 ≡ returns
    → Announced rid (run_job st j rid d).0
run_job_announces st j rid d e q = elim (Bool-cases (is_terminal j.status)) [
  | inl t ↦
      let calm = rw t at q in rw (t, run_job) (publish_announces st rid j d.outcome_sent e t calm)
  | inr open_job ↦ elim (Bool-cases (ltb max_attempts j.attempts)) [
    | inl spent ↦
        let calm = rw (open_job, spent) at q in
        rw (open_job, spent, run_job)
          (settle_announces st rid failed (some crashed_message) d d.status_call j e refl calm)
    | inr more ↦
        let calm = rw (open_job, more) at q in
        rw (open_job, more, run_job)
          (ingest_announces (emit st d.started_sent (started rid)) rid d
            (fetch_and_index d.fetch d.indexing) j
            (emit_found st d.started_sent (started rid) rid ∙ e) calm)
  ]
]

-- After a claim the repository has a job.
pub claim_finds :
    (js : List IngestionJob) (rid : ℕ) (url : String)
    → (j : IngestionJob) × (get (claim js rid url) rid ≡ some j)
unfolding claim get
claim_finds js rid url = elim (Option-cases (first_where (has_repository rid) js)) [
  | inl e ↦ (
    first_attempt rid url,
    rw (e, claim)
        (rw (first_where-append (has_repository rid) js (first_attempt rid url), e)
          (ground (arith, ==_refl rid))),
  )
  | inr (j, e) ↦ (
    if is_claimable rid j then another_attempt j else j,
    rw (e, claim)
        (rw
          (
            first_where-update_where (has_repository rid) (is_claimable rid) another_attempt
                (λ x. refl) js,
            e,
          )
          refl),
  )
]

run_announces :
    (st : State) (rid : ℕ) (d : Delivery) (j : IngestionJob)
    → get st.jobs rid ≡ some j
    → (run_ingestion st rid d).1 ≡ returns
    → Announced rid (run_ingestion st rid d).0
unfolding run_ingestion
run_announces st rid d j e q =
    let calm : (with_job st rid d (some j)).1 ≡ returns = rw (e, with_job) at q in
    rw (e, with_job) (run_job_announces st j rid d e calm)

-- A delivery that returns leaves a job of the repository that is `ready`, with `completed` as the
-- last event that the bus took, or `failed`, with `ingestion_failed` and the job's own error text
-- as that event.
pub handled_is_announced :
    (st : State) (rid : ℕ) (url : String) (d : Delivery)
    → (handle_ingestion_job st rid url d).1 ≡ returns
    → (j : IngestionJob) × (get (handle_ingestion_job st rid url d).0.jobs rid ≡ some j)
      × EndsWith rid j (handle_ingestion_job st rid url d).0.published
unfolding handle_ingestion_job
handled_is_announced st rid url d q = go d.claim_call q
  where
    go :
        (call : StoreCall)
        → (after_claim st rid url d call).1 ≡ returns
        → Announced rid (after_claim st rid url d call).0
    go stores q' =
        let (j, e) = claim_finds st.jobs rid url in
        run_announces (record st { jobs = claim st.jobs rid url }) rid d j e q'
    go raises_before q' = absurd (cc q')
    go raises_after q' = absurd (cc q')
