-- ===== src/Queue/Message.antt =====
-- internal/queue/message.go: the envelopes, and the topics that they are written to.
use Prim.Native.String.{◌++◌}
use notify_hub.Prelude.{ℕ, String, Option}
use notify_hub.Domain.Json.{Payload}
use notify_hub.Domain.Notification.{Uuid, Time, Channel}
use notify_hub.Domain.Delivery.{DlqReason}

pub record Message : Type 0 where
  pub notification_id : Uuid
  pub tenant_id : Uuid
  pub channel : Channel
  pub recipient_id : String
  pub recipient_address : String
  pub template_id : Option Uuid
  pub payload : Payload
  pub priority : ℕ
  pub attempt : ℕ
  pub max_attempts : ℕ
  pub enqueued_at : Time

pub topic_for_channel : Channel → String
topic_for_channel ch = "notifyhub.notifications." ++ ch

pub dlq_topic_for_channel : Channel → String
dlq_topic_for_channel ch = topic_for_channel ch ++ ".dlq"

pub record DlqMessage : Type 0 where
  pub original : Message
  pub original_topic : String
  pub failure_reason : DlqReason
  pub error_message : String
  pub last_attempt : ℕ
  pub dead_lettered_at : Time

abbrev pub webhook_topic : String
webhook_topic = "notifyhub.webhooks.outbound"

pub record WebhookMessage : Type 0 where
  pub tenant_id : Uuid
  pub endpoint_id : Uuid
  pub delivery_id : Uuid
  pub notification_id : Option Uuid
  pub event : String
  pub payload : Payload
  pub endpoint_url : String
  pub secret : String
  pub attempt : ℕ
  pub max_attempts : ℕ
  pub enqueued_at : Time

-- The value of a Kafka record. The envelopes are JSON objects whose encoding cannot fail and is
-- read back as it was; `garbage` is a value that does not decode.
pub data Value : Type 0 where
  notification : Message → Value
  dead_letter : DlqMessage → Value
  webhook : WebhookMessage → Value
  garbage : Value

pub record Record : Type 0 where
  pub topic : String
  pub key : String
  pub value : Value
