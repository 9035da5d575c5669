-- ===== src/Domain/InApp.antt =====
-- internal/domain/inapp.go.
use notify_hub.Prelude.{ℕ, String, Bool, Option}
use notify_hub.Domain.Json.{Payload}
use notify_hub.Domain.Notification.{Uuid, Time}

pub record InAppMessage : Type 0 where
  pub id : Uuid
  pub tenant_id : Uuid
  pub notification_id : Option Uuid
  pub recipient_id : String
  pub title : String
  pub body : String
  pub payload : Payload
  pub read_at : Option Time
  pub created_at : Time

-- The handler, which builds every query, never sets a negative Limit or Offset.
pub record InboxQuery : Type 0 where
  pub tenant_id : Uuid
  pub recipient_id : String
  pub unread_only : Bool
  pub limit : ℕ
  pub offset : ℕ
  pub after_id : Option Uuid
