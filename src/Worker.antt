-- ===== src/Worker.antt =====
-- internal/worker.
pub mod Retry
pub mod Processor
pub mod DlqConsumer
pub mod WebhookWorker
pub mod Pool
