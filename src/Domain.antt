-- ===== src/Domain.antt =====
-- internal/domain: the types and constants that every layer shares.
pub mod Errors
pub mod Json
pub mod Notification
pub mod Delivery
pub mod Preference
pub mod Template
pub mod Webhook
pub mod DeadLetter
pub mod InApp
pub mod DeviceToken
pub mod Tenant
