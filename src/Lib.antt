-- ===== src/Lib.antt =====
-- RepoViva: a candidate registers a GitHub repository, it is indexed, an interview on it is
-- planned, held by voice, and graded into a report. Four services share queues and events: Core
-- API (core-api/src/core_api) owns repositories and interviews as users see them; Repository
-- Service (repository-service/src/repository_service) runs ingestion jobs and publishes ingestion
-- events; Voice Service (voice-service/src/voice_service) plans questions and holds the live
-- session, whose end it publishes; Evaluation Service (evaluation-service/src/evaluation_service)
-- turns an ended interview into a report. They share a library for signatures, request ids and
-- messages (libs/repoviva-common).
--
-- Files:
-- CoreApi/Models: the rows and exceptions of core-api/src/core_api/repositories/models.py and
--   interviews/models.py. CoreApi/Repositories and its Router: repositories/service.py and
--   router.py, a function of the model for each function, and its Url the check of schemas.py.
--   CoreApi/Interviews: interviews/service.py, with Router for the plan and report routes of
--   interviews/router.py and Jobs on what they send. Their children hold the invariant of each
--   table (Table, Writes), the histories of calls (Lifecycle, Closed, History) and what single
--   requests, events and tokens do. CoreApi/Worker: the event handlers of worker.py.
-- Common: of libs/repoviva-common/src/repoviva_common, Hmac is hmac_auth.py and dependencies.py,
--   with Decimal for the timestamps; RequestId is request_id.py; Messaging is messaging.py, with
--   Retry on the publishing and Acks on the worker loop.
-- CoreApi/Auth: auth/router.py and dependencies.py, users/service.py and security/cookies.py;
--   Saves is about the users table, SignIn about the callback. Internal in CoreApi, VoiceService
--   and EvaluationService: internal/router.py and the HTTP clients, over Common/Http; Contracts
--   is about client and route together, its Writes about when the route of tokens writes.
-- RepositoryService/Ingestion: ingestion/jobs.py, ingestion/orchestrator.py and the handler of
--   worker.py; Outcomes and Crashes are about whole deliveries, and Deliveries about the handler
--   in the worker loop. RepositoryService/Areas: retrieval/areas.py; its children follow the
--   computation from Paths over Counts, Grouping and Under to Picked.
-- VoiceService/Store: session/store.py, one function per method; Plans and Turns are about the
--   plan's status and the life of a question. VoiceService/Planning: planning/job.py and the
--   handler of worker.py. VoiceService/Planner: parse_plan of planning/planner.py, with Covers on
--   the areas and Fences on the reply's fence. VoiceService/Runner: session/runner.py with the
--   messages of session/protocol.py, in World (the connection and its calls), Loop (questions and
--   answers) and Session (admission, exits, end event); Keeps and Triples are its two program
--   logics.
-- EvaluationService/Reports: reports.py. EvaluationService/Generation: generation.py and the
--   handlers of worker.py. EvaluationService/Grading: grading/models.py, and of grader.py, llm.py
--   and summary.py the grounding, the provider loop and the filter on files.
-- EvaluationService/Pipeline: pipeline.py, grade_turn of grading/grader.py and compute_scores and
--   write_notes of grading/summary.py, whose averages are left as the scores before rounding; the
--   rewriting of chunk references in prose is a parameter. Its child Report has the report as a
--   whole; Citations and Order are about it.
-- Base: names of the library, tests, texts, Python's integers, sorting and stripping, and tables
--   as lists of rows (Base/Tables) with what SELECT, UPDATE and unique keys do to them. Examples:
--   concrete states of each service.
--
-- Modelling. A table or collection is the list of its rows; a WHERE clause or filter is a test on
-- a row; one statement is one step, so an interleaving of requests is a list of steps. Times are
-- natural numbers that the caller hands in for the clock that the source reads. A text longer
-- than its column is refused as the database refuses it. Calls of other services and of libraries
-- answer by arguments: a hash function, the answers of the planner, the provider and git. In Core
-- API a statement takes effect unless a key, the length of a text or a missing row refuses it; a
-- database that cannot be reached is not modelled there. In planning, ingestion and generation an
-- argument says of each store call whether it takes effect or raises before or after its effect.
-- In the live session every `await`, the one on the publisher of the end event included, takes
-- the next line of a script, which sets the clock and may raise, so a time limit or a broken
-- connection can strike anywhere. There the end events are the calls of the publisher: whether
-- the bus took one does not show to the session, and Common/Messaging/Retry is about that. Writes
-- that the source addresses by a position outside the questions leave the document as it is.
-- Timings are an association list whose first entry counts. The JSON of requests and answers, the
-- HMAC digest and the answers of the queue service are arguments; headers are decoded as Latin-1.
--
-- Bounds and fuel. The answer loop of the live session runs once for each frame that is still to
-- come and once more, which meets the end of the inbox. The provider loop has fuel for nine
-- calls, one more than the waits it allows, and it is proved that this is never used up. The two
-- loops on areas have fuel for the longest file name and for the number of areas wanted; that it
-- suffices is part of the theorem on them. Printing a number has the number as fuel. All else is
-- structural.
--
-- Not modelled: GitHub's answers, the signer of cookies and the encryption of tokens, the HTTP
-- client of Repository Service, speech and model providers, prompts, indexing and the retrieval
-- queries, the heartbeat of a worker, migrations, configuration and wiring, and the frontend.
-- They are glue or rest on libraries.
pub mod Base
pub mod Common
pub mod CoreApi
pub mod VoiceService
pub mod EvaluationService
pub mod RepositoryService
pub mod Contracts
pub mod Examples
