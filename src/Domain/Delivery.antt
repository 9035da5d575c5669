-- ===== src/Domain/Delivery.antt =====
-- internal/domain/delivery.go and dead_letter.go.
use notify_hub.Prelude.{ℤ, String, Option}
use notify_hub.Domain.Notification.{Uuid, Time, Channel}

pub data DeliveryStatus : Type 0 where
  success failed bounced rejected : DeliveryStatus

pub record DeliveryLog : Type 0 where
  pub id : Uuid
  pub notification_id : Uuid
  pub channel : Channel
  pub provider : String
  pub status : DeliveryStatus
  pub provider_message_id : Option String
  pub error_message : Option String
  pub error_code : Option String
  pub retry_count : ℤ
  pub attempted_at : Time
  pub delivered_at : Option Time

-- DLQReasonRetriesExhausted and its siblings.
pub data DlqReason : Type 0 where
  retries_exhausted permanent_failure template_render provider_missing : DlqReason
