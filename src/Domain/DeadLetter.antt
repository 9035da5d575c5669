-- ===== src/Domain/DeadLetter.antt =====
-- internal/domain/dead_letter.go. The payload is the envelope that its JSON encodes.
use notify_hub.Prelude.{ℕ, String, Bool, Option}
use notify_hub.Domain.Notification.{Uuid, Time, Channel}
use notify_hub.Domain.Delivery.{DlqReason}

pub record DeadLetterMessage (Envelope : Type 0) : Type 0 where
  pub id : Uuid
  pub tenant_id : Uuid
  pub notification_id : Uuid
  pub channel : Channel
  pub original_topic : String
  pub payload : Envelope
  pub failure_reason : DlqReason
  pub error_message : String
  pub attempts : ℕ
  pub replayed_at : Option Time
  pub created_at : Time

pub record DeadLetterListParams : Type 0 where
  pub tenant_id : Uuid
  pub channel : Channel
  pub unreplayed : Option Bool
  pub limit : ℕ
  pub offset : ℕ
