-- ===== src/Tests.antt =====
-- Examples: each theorem at a concrete world.
mod Data
mod WorkerExamples
mod ServiceExamples
mod RepositoryExamples
mod InboxExamples
mod AccessExamples
