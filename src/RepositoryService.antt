-- ===== src/RepositoryService.antt =====
-- repository-service/src/repository_service: ingestion of a repository, from the queue's job to
-- the outcome event.
pub mod Ingestion
pub mod Areas
