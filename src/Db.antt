-- ===== src/Db.antt =====
-- internal/db: the rows of the tables, and the SQL queries over them.
pub mod Models
pub mod Tables
pub mod World
pub mod Limits
pub mod Io
pub mod NotificationQueries
pub mod DeliveryQueries
pub mod PreferenceQueries
pub mod TemplateQueries
pub mod WebhookQueries
pub mod DeadLetterQueries
pub mod InAppQueries
pub mod DeviceTokenQueries
pub mod TenantQueries
pub mod Frames
