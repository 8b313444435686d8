-- ===== src/RepositoryService/Ingestion.antt =====
-- repository-service/src/repository_service: ingestion/jobs.py, ingestion/orchestrator.py and the
-- handler of worker.py. What git, the indexer, the bus and the database answer to one delivery is
-- its `Delivery` record; `dies` is the end of the process.
pub mod Crashes
pub mod Outcomes
pub mod Deliveries
use repo_viva.Base.{
  ℕ, suc, String, Bool, true, false, not, ◌&&◌, Option, none, some, List, [], ◌∷◌, ◌++◌, ◌==◌,
  if◌then◌else◌, is_some, ltb, first_where, update_where, text_append,
}

pub data JobStatus : Type 0 where
  in_progress ready failed : JobStatus

pub record IngestionJob : Type 0 where
  pub repository_id : ℕ
  pub github_url : String
  pub status : JobStatus
  pub attempts : ℕ
  pub error_message : Option String

abbrev pub is_terminal : JobStatus → Bool
is_terminal in_progress = false
is_terminal ready = true
is_terminal failed = true

abbrev pub is_ready : JobStatus → Bool
is_ready ready = true
is_ready _ = false

abbrev pub is_failed : JobStatus → Bool
is_failed failed = true
is_failed _ = false

abbrev pub max_attempts : ℕ
max_attempts = 2

abbrev pub has_repository : ℕ → IngestionJob → Bool
has_repository rid j = j.repository_id == rid

abbrev pub first_attempt : ℕ → String → IngestionJob
first_attempt rid url = record {
  repository_id = rid;
  github_url = url;
  status = in_progress;
  attempts = 1;
  error_message = none;
}

-- The WHERE and the SET of the ON CONFLICT clause.
abbrev pub is_claimable : ℕ → IngestionJob → Bool
is_claimable rid j = has_repository rid j && not (is_ready j.status)

abbrev pub another_attempt : IngestionJob → IngestionJob
another_attempt j = record j {
  attempts = if is_failed j.status then 1 else suc j.attempts;
  status = in_progress;
  error_message = none;
}

-- _CLAIM.
unfoldable pub claim : List IngestionJob → ℕ → String → List IngestionJob
claim js rid url =
    if is_some (first_where (has_repository rid) js)
    then update_where (is_claimable rid) another_attempt js
    else js ++ first_attempt rid url ∷ []

-- _GET and _SET_STATUS.
unfoldable pub get : List IngestionJob → ℕ → Option IngestionJob
get js rid = first_where (has_repository rid) js

abbrev pub with_status : JobStatus → Option String → IngestionJob → IngestionJob
with_status s e j = record j { status = s; error_message = e }

unfoldable pub set_status : List IngestionJob → ℕ → JobStatus → Option String → List IngestionJob
set_status js rid s e = update_where (has_repository rid) (with_status s e) js

pub data IngestionEvent : Type 0 where
  started completed : (repository_id : ℕ) → IngestionEvent
  ingestion_failed : (repository_id : ℕ) (error_message : Option String) → IngestionEvent

-- The jobs table, the events that the bus took, and the repositories whose clone was removed.
pub record State : Type 0 where
  pub jobs : List IngestionJob
  pub published : List IngestionEvent
  pub removed : List ℕ

-- How fetch_repository and run_indexing end.
pub data Fetch : Type 0 where
  cloned fetch_dies : Fetch
  fetch_error fetch_raises : String → Fetch

pub data Indexing : Type 0 where
  indexed indexing_dies : Indexing
  too_large indexing_raises : String → Indexing

-- How a call of the database ends: with its effect, or raising before or after it.
pub data StoreCall : Type 0 where
  stores raises_before raises_after : StoreCall

pub record Delivery : Type 0 where
  pub claim_call : StoreCall
  pub started_sent : Bool
  pub fetch : Fetch
  pub indexing : Indexing
  pub status_call : StoreCall
  pub outcome_sent : Bool

-- The handler returns and the message is deleted, or raises or dies and the message comes again.
pub data Ending : Type 0 where
  returns raises dies : Ending

pub data Stage : Type 0 where
  succeeds stage_dies : Stage
  fails : String → Stage

unfoldable pub index_stage : Indexing → Stage
index_stage indexed = succeeds
index_stage (too_large message) = fails message
index_stage (indexing_raises message) = fails (text_append "indexing failed: " message)
index_stage indexing_dies = stage_dies

-- _fetch_and_index.
unfoldable pub fetch_and_index : Fetch → Indexing → Stage
unfolding index_stage
fetch_and_index (fetch_error message) i = fails (text_append "fetch failed: " message)
fetch_and_index (fetch_raises message) i = fails (text_append "unexpected error: " message)
fetch_and_index fetch_dies i = stage_dies
fetch_and_index cloned i = index_stage i

-- emit_event: an event counts as published when the call returns True.
abbrev pub emit : State → Bool → IngestionEvent → State
emit st sent e = if sent then record st { published = st.published ++ e ∷ [] } else st

abbrev pub outcome_event : ℕ → JobStatus → Option String → IngestionEvent
outcome_event rid ready e = completed rid
outcome_event rid in_progress e = ingestion_failed rid e
outcome_event rid failed e = ingestion_failed rid e

-- _publish_outcome.
unfoldable pub publish_outcome : State → ℕ → JobStatus → Option String → Bool → State × Ending
publish_outcome st rid s e sent =
    (emit st sent (outcome_event rid s e), if sent then returns else raises)

-- set_status, then _publish_outcome.
unfoldable pub settle :
    State → ℕ → JobStatus → Option String → Delivery → StoreCall → State × Ending
unfolding publish_outcome set_status
settle st rid s e d stores =
    publish_outcome (record st { jobs = set_status st.jobs rid s e }) rid s e d.outcome_sent
settle st rid s e d raises_before = (st, raises)
settle st rid s e d raises_after = (record st { jobs = set_status st.jobs rid s e }, raises)

abbrev pub remove_workspace : ℕ → State → State
remove_workspace rid st = record st { removed = st.removed ++ rid ∷ [] }

-- _ingest removes the clone on every end but the process's own; then the outcome is stored.
abbrev pub after_ingest : State → ℕ → Delivery → Stage → State × Ending
after_ingest st rid d stage_dies = (st, dies)
after_ingest st rid d succeeds = settle (remove_workspace rid st) rid ready none d d.status_call
after_ingest st rid d (fails message) =
    settle (remove_workspace rid st) rid failed (some message) d d.status_call

abbrev pub crashed_message : String
crashed_message = "ingestion stopped after repeated crashes"

abbrev pub run_job : State → IngestionJob → ℕ → Delivery → State × Ending
run_job st j rid d =
    if is_terminal j.status
    then publish_outcome st rid j.status j.error_message d.outcome_sent
    else if ltb max_attempts j.attempts
    then settle st rid failed (some crashed_message) d d.status_call
    else after_ingest (emit st d.started_sent (started rid)) rid d
        (fetch_and_index d.fetch d.indexing)

abbrev pub with_job : State → ℕ → Delivery → Option IngestionJob → State × Ending
with_job st rid d none = (st, returns)
with_job st rid d (some j) = run_job st j rid d

unfoldable pub run_ingestion : State → ℕ → Delivery → State × Ending
unfolding settle publish_outcome fetch_and_index
run_ingestion st rid d = with_job st rid d (get st.jobs rid)

abbrev pub after_claim : State → ℕ → String → Delivery → StoreCall → State × Ending
after_claim st rid url d stores = run_ingestion (record st { jobs = claim st.jobs rid url }) rid d
after_claim st rid url d raises_before = (st, raises)
after_claim st rid url d raises_after = (record st { jobs = claim st.jobs rid url }, raises)

unfoldable pub handle_ingestion_job : State → ℕ → String → Delivery → State × Ending
unfolding run_ingestion claim
handle_ingestion_job st rid url d = after_claim st rid url d d.claim_call
