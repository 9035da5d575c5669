-- ===== src/Repository.antt =====
-- internal/repository: the queries with their errors mapped, and the rows as domain values.
pub mod ClockText
pub mod Notifications
pub mod Deliveries
pub mod Preferences
pub mod Templates
pub mod Webhooks
pub mod DeadLetters
pub mod InApp
pub mod DeviceTokens
pub mod Tenants
