-- ===== src/Api/Handlers.antt =====
-- internal/api/handler: a handler reads a request, calls its service or repository, and answers.
pub mod Notifications
pub mod Templates
pub mod Preferences
pub mod Webhooks
pub mod Tenants
pub mod DeviceTokens
pub mod DeadLetters
pub mod Bulk
