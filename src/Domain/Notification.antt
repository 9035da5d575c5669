-- ===== src/Domain/Notification.antt =====
-- internal/domain/notification.go. A uuid is a number, 0 the nil UUID; a time is a number of
-- nanoseconds. A payload is an association list of JSON values.
use notify_hub.Prelude.{ℕ, String, Bool, ◌||◌, ◌==◌, string_eq, Option, List}
use notify_hub.Domain.Json.{Payload}

abbrev pub Uuid : Type 0
Uuid = ℕ

abbrev pub nil_uuid : Uuid
nil_uuid = 0

abbrev pub Time : Type 0
Time = ℕ

abbrev pub Channel : Type 0
Channel = String

abbrev pub channel_email : Channel
channel_email = "email"

abbrev pub channel_push : Channel
channel_push = "push"

abbrev pub channel_sms : Channel
channel_sms = "sms"

abbrev pub channel_inapp : Channel
channel_inapp = "inapp"

-- Channel.IsValid
pub is_valid : Channel → Bool
is_valid c = c == channel_email || c == channel_push || c == channel_sms || c == channel_inapp

pub data NotificationStatus : Type 0 where
  pending queued processing delivered failed dropped : NotificationStatus

pub record Notification : Type 0 where
  pub id : Uuid
  pub tenant_id : Uuid
  pub idempotency_key : Option String
  pub kind : String  -- Type
  pub channel : Channel
  pub recipient_id : String
  pub recipient_address : String
  pub template_id : Option Uuid
  pub payload : Payload
  pub priority : ℕ
  pub status : NotificationStatus
  pub scheduled_at : Option Time
  pub created_at : Time
  pub updated_at : Time

pub record SendRequest : Type 0 where
  pub kind : String
  pub channel : Channel
  pub recipient_id : String
  pub recipient_address : String
  pub template_id : Option Uuid
  pub payload : Payload
  pub priority : ℕ
  pub idempotency_key : Option String
  pub scheduled_at : Option Time

pub record Recipient : Type 0 where
  pub recipient_id : String
  pub recipient_address : String
  pub payload : Payload

pub record BulkSendRequest : Type 0 where
  pub kind : String
  pub channel : Channel
  pub template_id : Option Uuid
  pub payload : Payload
  pub priority : ℕ
  pub recipients : List Recipient
