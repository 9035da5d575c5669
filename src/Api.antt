-- ===== src/Api.antt =====
-- internal/api: the handlers, the middleware before them, and what they answer.
pub mod Responses
pub mod Requests
pub mod Middleware
pub mod Inbox
pub mod DlqHandler
pub mod Handlers
