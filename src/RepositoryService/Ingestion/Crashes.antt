-- ===== src/RepositoryService/Ingestion/Crashes.antt =====
-- Redelivered ingestion jobs: repository-service/src/repository_service/ingestion.
use repo_viva.Base.{
  ℕ, String, ◌≡◌, refl, ◌∙◌, Bool, true, false, none, some, List, [], ◌∷◌, ◌++◌, ==_refl, arith,
  if◌then◌else◌, ltb, first_where-append, first_where-update_where,
}
use repo_viva.Base.Tables.Keys
use repo_viva.RepositoryService.Ingestion.{
  ready, failed, IngestionJob, is_terminal, is_ready, max_attempts, has_repository, first_attempt,
  is_claimable, another_attempt, claim, get, with_status, set_status, IngestionEvent, started,
  completed, ingestion_failed, State, Delivery, stores, returns, raises, dies, stage_dies, emit,
  publish_outcome, settle, crashed_message, run_job, with_job, run_ingestion, after_claim,
  handle_ingestion_job, fetch_and_index,
}
use repo_viva.RepositoryService.Ingestion.Outcomes.{set_status_found, emit_found}

claim_new :
    (js : List IngestionJob) (rid : ℕ) (url : String)
    → get js rid ≡ none
    → get (claim js rid url) rid ≡ some (first_attempt rid url)
unfolding claim get
claim_new js rid url e =
    rw (e, claim)
      (rw (first_where-append (has_repository rid) js (first_attempt rid url), e)
        (ground (arith, ==_refl rid)))

claim_again :
    (js : List IngestionJob) (rid : ℕ) (url : String) (j : IngestionJob)
    → get js rid ≡ some j
    → get (claim js rid url) rid ≡ some (if is_ready j.status then j else another_attempt j)
unfolding claim get
claim_again js rid url j e =
    rw (e, claim)
      (rw
        (
          first_where-update_where (has_repository rid) (is_claimable rid) another_attempt
              (λ x. refl) js,
          e,
        )
        (ground (arith, Keys.first_where-holds (has_repository rid) js j e)))

-- A delivery whose claim is stored, by the job that the claim leaves.
handled_by :
    (st : State) (rid : ℕ) (url : String) (d : Delivery) (j : IngestionJob)
    → d.claim_call ≡ stores
    → get (claim st.jobs rid url) rid ≡ some j
    → handle_ingestion_job st rid url d
      ≡ run_job (record st { jobs = claim st.jobs rid url }) j rid d
unfolding handle_ingestion_job run_ingestion
handled_by st rid url d j c e = rw (c, after_claim) (rw (e, with_job) refl)

run_job_ready :
    (st : State) (j : IngestionJob) (rid : ℕ) (d : Delivery)
    → j.status ≡ ready
    → run_job st j rid d
      ≡ (emit st d.outcome_sent (completed rid), if d.outcome_sent then returns else raises)
unfolding publish_outcome
run_job_ready st j rid d s = rw (s, run_job) refl

-- A redelivered `ready` job is left as it is, and its clone too: `ingestion.completed` is published
-- again, and where the bus does not take it the delivery raises.
pub ready_republished :
    (st : State) (rid : ℕ) (url : String) (d : Delivery) (j : IngestionJob)
    → get st.jobs rid ≡ some j
    → j.status ≡ ready
    → d.claim_call ≡ stores
    → (get (handle_ingestion_job st rid url d).0.jobs rid ≡ some j)
      × ((handle_ingestion_job st rid url d).0.removed ≡ st.removed)
      × ((handle_ingestion_job st rid url d).0.published
          ≡ (if d.outcome_sent then st.published ++ completed rid ∷ [] else st.published))
      × ((handle_ingestion_job st rid url d).1 ≡ (if d.outcome_sent then returns else raises))
ready_republished st rid url d j e s c =
    let kept : get (claim st.jobs rid url) rid ≡ some j =
      claim_again st.jobs rid url j e ∙ rw s refl in
    rw (handled_by st rid url d j c kept) (
      rw (run_job_ready (record st { jobs = claim st.jobs rid url }) j rid d s)
        (republishes kept d.outcome_sent))
  where
    republishes :
        get (claim st.jobs rid url) rid ≡ some j
        → (sent : Bool)
        → (get (emit (record st { jobs = claim st.jobs rid url }) sent (completed rid)).jobs rid
            ≡ some j)
          × ((emit (record st { jobs = claim st.jobs rid url }) sent (completed rid)).removed
              ≡ st.removed)
          × ((emit (record st { jobs = claim st.jobs rid url }) sent (completed rid)).published
              ≡ (if sent then st.published ++ completed rid ∷ [] else st.published))
          × ((if sent then returns else raises) ≡ (if sent then returns else raises))
    republishes k true = (k, refl, refl, refl)
    republishes k false = (k, refl, refl, refl)

-- One delivery that dies in the pipeline.
dies_in_pipeline :
    (st : State) (rid : ℕ) (url : String) (d : Delivery) (j : IngestionJob)
    → d.claim_call ≡ stores
    → get (claim st.jobs rid url) rid ≡ some j
    → is_terminal j.status ≡ false
    → ltb max_attempts j.attempts ≡ false
    → fetch_and_index d.fetch d.indexing ≡ stage_dies
    → (get (handle_ingestion_job st rid url d).0.jobs rid ≡ some j)
      × ((handle_ingestion_job st rid url d).1 ≡ dies)
dies_in_pipeline st rid url d j c e t m h = rw (handled_by st rid url d j c e) (
    rw (t, m, h)
      (
        emit_found (record st { jobs = claim st.jobs rid url }) d.started_sent (started rid) rid
            ∙ e,
        refl,
      ))

emit_removed :
    (st : State) (sent : Bool) (event : IngestionEvent) → (emit st sent event).removed ≡ st.removed
emit_removed st true event = refl
emit_removed st false event = refl

-- A repository without a job, and three deliveries of its message. The first two stored their
-- claim and died in the pipeline. Then the third, whatever its own pipeline would do, stores the
-- job as `failed` with the message of repeated crashes, and does not touch the clone.
pub crashes_fail_the_job :
    (st : State) (rid : ℕ) (url : String) (d e f : Delivery)
    → get st.jobs rid ≡ none
    → d.claim_call ≡ stores
    → fetch_and_index d.fetch d.indexing ≡ stage_dies
    → e.claim_call ≡ stores
    → fetch_and_index e.fetch e.indexing ≡ stage_dies
    → f.claim_call ≡ stores
    → f.status_call ≡ stores
    → let once = (handle_ingestion_job st rid url d).0 in
      let twice = (handle_ingestion_job once rid url e).0 in
      let thrice = (handle_ingestion_job twice rid url f).0 in
      (j : IngestionJob) × (get thrice.jobs rid ≡ some j)
      × (j.status ≡ failed)
      × (j.error_message ≡ some crashed_message)
      × (thrice.removed ≡ twice.removed)
unfolding settle publish_outcome
crashes_fail_the_job st rid url d e f missing cd dd ce de cf sf =
    let once = (handle_ingestion_job st rid url d).0 in
    let twice = (handle_ingestion_job once rid url e).0 in
    let (first, _) =
      dies_in_pipeline st rid url d (first_attempt rid url) cd (claim_new st.jobs rid url missing)
        refl refl dd in
    let (second, _) =
      dies_in_pipeline once rid url e (another_attempt (first_attempt rid url)) ce
        (claim_again once.jobs rid url (first_attempt rid url) first) refl refl de in
    let third : IngestionJob = another_attempt (another_attempt (first_attempt rid url)) in
    let claimed = claim_again twice.jobs rid url (another_attempt (first_attempt rid url)) second in
    (
      with_status failed (some crashed_message) third,
      rw (handled_by twice rid url f third cf claimed) (
          rw sf (
            emit_found
              (record twice {
                jobs = set_status (claim twice.jobs rid url) rid failed (some crashed_message);
              })
              f.outcome_sent (ingestion_failed rid (some crashed_message)) rid
            ∙ set_status_found (claim twice.jobs rid url) rid failed (some crashed_message) third
                claimed)),
      refl,
      refl,
      rw (handled_by twice rid url f third cf claimed) (
          rw sf (
            emit_removed
              (record twice {
                jobs = set_status (claim twice.jobs rid url) rid failed (some crashed_message);
              })
              f.outcome_sent (ingestion_failed rid (some crashed_message)))),
    )
