-- ===== src/Service.antt =====
-- internal/service.
pub mod Validation
pub mod QuietHours
pub mod Preferences
pub mod RateLimit
pub mod Templates
pub mod Webhooks
pub mod Notifications
pub mod Scheduler
pub mod DeviceTokens
pub mod Tenants
