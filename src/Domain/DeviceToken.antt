-- ===== src/Domain/DeviceToken.antt =====
-- internal/domain/device_token.go.
use notify_hub.Prelude.{String, Bool}
use notify_hub.Domain.Notification.{Uuid, Time}

pub record DeviceToken : Type 0 where
  pub id : Uuid
  pub tenant_id : Uuid
  pub user_id : String
  pub token : String
  pub platform : String
  pub is_active : Bool
  pub created_at : Time
  pub updated_at : Time

pub record RegisterDeviceTokenRequest : Type 0 where
  pub user_id : String
  pub token : String
  pub platform : String
