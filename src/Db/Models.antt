-- ===== src/Db/Models.antt =====
-- internal/db/models.go: one record per table. A nullable column is an Option; JSONB columns hold
-- the decoded value; `quiet_hours_start` and `_end` (TIME) are minutes of the day.
use notify_hub.Prelude.{ℕ, ℤ, String, Bool, Option, List}
use notify_hub.Domain.Json.{Payload}
use notify_hub.Domain.Notification.{Uuid, Time, Channel, NotificationStatus}
use notify_hub.Domain.Delivery.{DeliveryStatus, DlqReason}
use notify_hub.Domain.Webhook.{WebhookDeliveryStatus}

pub record NotificationRow : Type 0 where
  pub id : Uuid
  pub idempotency_key : Option String
  pub kind : String
  pub channel : Channel
  pub recipient_id : String
  pub recipient_address : Option String
  pub template_id : Option Uuid
  pub payload : Payload
  pub priority : ℕ
  pub status : NotificationStatus
  pub scheduled_at : Option Time
  pub created_at : Time
  pub updated_at : Time
  pub tenant_id : Option Uuid

pub record DeliveryLogRow : Type 0 where
  pub id : Uuid
  pub notification_id : Uuid
  pub channel : Channel
  pub provider : String
  pub status : DeliveryStatus
  pub provider_message_id : Option String
  pub error_message : Option String
  pub error_code : Option String
  pub retry_count : ℤ
  pub attempted_at : Time
  pub delivered_at : Option Time

pub record PreferenceRow : Type 0 where
  pub id : Uuid
  pub user_id : String
  pub channel : Channel
  pub enabled : Bool
  pub quiet_hours_start : Option ℕ
  pub quiet_hours_end : Option ℕ
  pub frequency_cap : Option ℕ
  pub frequency_window_minutes : Option ℕ
  pub timezone : Option String
  pub created_at : Time
  pub updated_at : Time
  pub tenant_id : Option Uuid

pub record TemplateRow : Type 0 where
  pub id : Uuid
  pub name : String
  pub channel : Channel
  pub subject_template : Option String
  pub body_template : String
  pub metadata : Option Payload
  pub version : ℕ
  pub is_active : Bool
  pub created_at : Time
  pub updated_at : Time
  pub tenant_id : Option Uuid

pub record WebhookEndpointRow : Type 0 where
  pub id : Uuid
  pub tenant_id : Uuid
  pub url : String
  pub secret : String
  pub events : List String
  pub is_active : Bool
  pub created_at : Time
  pub updated_at : Time

pub record WebhookDeliveryRow : Type 0 where
  pub id : Uuid
  pub endpoint_id : Uuid
  pub notification_id : Option Uuid
  pub event : String
  pub payload : Payload
  pub status : WebhookDeliveryStatus
  pub attempt : ℕ
  pub next_retry_at : Option Time
  pub last_error : Option String
  pub response_status : Option ℕ
  pub created_at : Time
  pub updated_at : Time

pub record DeadLetterRow (Envelope : Type 0) : Type 0 where
  pub id : Uuid
  pub tenant_id : Uuid
  pub notification_id : Uuid
  pub channel : Channel
  pub original_topic : String
  pub payload : Envelope
  pub failure_reason : DlqReason
  pub error_message : String
  pub attempts : ℕ
  pub replayed_at : Option Time
  pub created_at : Time

pub record InappMessageRow : Type 0 where
  pub id : Uuid
  pub tenant_id : Uuid
  pub notification_id : Option Uuid
  pub recipient_id : String
  pub title : String
  pub body : String
  pub payload : Payload
  pub read_at : Option Time
  pub created_at : Time

pub record DeviceTokenRow : Type 0 where
  pub id : Uuid
  pub tenant_id : Uuid
  pub user_id : String
  pub token : String
  pub platform : String
  pub is_active : Bool
  pub created_at : Time
  pub updated_at : Time

pub record TenantRow : Type 0 where
  pub id : Uuid
  pub name : String
  pub is_active : Bool
  pub created_at : Time
  pub updated_at : Time

pub record ApiClientRow : Type 0 where
  pub id : Uuid
  pub name : String
  pub api_key_hash : String
  pub is_active : Bool
  pub created_at : Time
  pub updated_at : Time
  pub tenant_id : Option Uuid
