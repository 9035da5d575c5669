-- ===== src/Db/Tables.antt =====
-- The PostgreSQL database: one list of rows per table that the modelled services use.
use notify_hub.Prelude.{List}
use notify_hub.Queue.Message.{DlqMessage}
use notify_hub.Db.Models.{
  NotificationRow, DeliveryLogRow, PreferenceRow, TemplateRow, WebhookEndpointRow,
  WebhookDeliveryRow, DeadLetterRow, InappMessageRow, DeviceTokenRow, TenantRow, ApiClientRow,
}

pub record Tables : Type 0 where
  pub notifications : List NotificationRow
  pub delivery_logs : List DeliveryLogRow
  pub preferences : List PreferenceRow
  pub templates : List TemplateRow
  pub webhook_endpoints : List WebhookEndpointRow
  pub webhook_deliveries : List WebhookDeliveryRow
  pub dead_letters : List (DeadLetterRow DlqMessage)
  pub inapp_messages : List InappMessageRow
  pub device_tokens : List DeviceTokenRow
  pub tenants : List TenantRow
  pub api_clients : List ApiClientRow
