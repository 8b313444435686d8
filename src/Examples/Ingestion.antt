-- ===== src/Examples/Ingestion.antt =====
-- One repository through its deliveries: repository-service/src/repository_service/ingestion.
use repo_viva.Base.{String, ◌≡◌, refl, true, false, none, some, [], ◌∷◌}
use repo_viva.RepositoryService.Ingestion.{
  ready, failed, IngestionJob, get, started, ingestion_failed, State, Delivery, stores, returns,
  cloned, fetch_dies, fetch_error, indexed, fetch_and_index, stage_dies, handle_ingestion_job,
  crashed_message,
}
use repo_viva.RepositoryService.Ingestion.Outcomes.{EndsWith, handled_is_announced}
use repo_viva.RepositoryService.Ingestion.Crashes.{crashes_fail_the_job}
use repo_viva.RepositoryService.Ingestion.Deliveries.{
  ingestion_handler, deletes, deleted_is_Announced,
}
use repo_viva.RepositoryService.Ingestion.Outcomes.{Announced}
use repo_viva.Common.Messaging.{Message, Received, handle_one}

abbrev url : String
url = "https://github.com/a/b"

abbrev indexed_job : IngestionJob
indexed_job = record {
  repository_id = 1;
  github_url = url;
  status = ready;
  attempts = 1;
  error_message = none;
}

abbrev idle : State
idle = record { jobs = indexed_job ∷ []; published = []; removed = 1 ∷ [] }

abbrev smooth : Delivery
smooth = record {
  claim_call = stores;
  started_sent = true;
  fetch = cloned;
  indexing = indexed;
  status_call = stores;
  outcome_sent = true;
}

abbrev crashing : Delivery
crashing = record smooth { fetch = fetch_dies }

abbrev failing : Delivery
failing = record smooth { fetch = fetch_error "repository not found" }

failing_returns : (handle_ingestion_job idle 2 url failing).1 ≡ returns
unfolding handle_ingestion_job get
failing_returns = refl

-- What the failed delivery published.
failing_publishes :
    (handle_ingestion_job idle 2 url failing).0.published
    ≡ started 2 ∷ ingestion_failed 2 (some "fetch failed: repository not found") ∷ []
unfolding handle_ingestion_job get
failing_publishes = refl

handled_is_announced_example :
    (j : IngestionJob) × (get (handle_ingestion_job idle 2 url failing).0.jobs 2 ≡ some j)
    × EndsWith 2 j (handle_ingestion_job idle 2 url failing).0.published
handled_is_announced_example = handled_is_announced idle 2 url failing failing_returns

job_is_indexed : get idle.jobs 1 ≡ some indexed_job
unfolding get
job_is_indexed = refl

no_job : get idle.jobs 2 ≡ none
unfolding get
no_job = refl

dies : fetch_and_index crashing.fetch crashing.indexing ≡ stage_dies
unfolding fetch_and_index
dies = refl

crashes_fail_the_job_example :
    let once = (handle_ingestion_job idle 2 url crashing).0 in
    let twice = (handle_ingestion_job once 2 url crashing).0 in
    let thrice = (handle_ingestion_job twice 2 url smooth).0 in
    (j : IngestionJob) × (get thrice.jobs 2 ≡ some j)
    × (j.status ≡ failed)
    × (j.error_message ≡ some crashed_message)
    × (thrice.removed ≡ twice.removed)
crashes_fail_the_job_example =
    crashes_fail_the_job idle 2 url crashing crashing smooth no_job refl dies refl dies refl refl

abbrev job_message : Message
job_message = record {
  message_id = "m1";
  type = "ingestion.requested";
  request_id = some "r1";
  data_json = "{}";
}

abbrev received_job : Received
received_job = record { receipt = "c1"; body = "{}"; fresh_id = "r2"; delete_raises = false }

failing_deleted :
    deletes
      (handle_one
        (λ _. some job_message)
        (ingestion_handler (λ _. (2, url)) (λ _. failing))
        received_job
        idle).1
    ≡ true
unfolding handle_one handle_ingestion_job get
failing_deleted = refl

deleted_is_Announced_example :
    Announced 2
      (handle_one
        (λ _. some job_message)
        (ingestion_handler (λ _. (2, url)) (λ _. failing))
        received_job
        idle).0
deleted_is_Announced_example =
    deleted_is_Announced (λ _. some job_message) (λ _. (2, url)) (λ _. failing) received_job
      job_message idle refl failing_deleted
