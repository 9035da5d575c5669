-- ===== src/Domain/Webhook.antt =====
-- internal/domain/webhook.go.
use notify_hub.Prelude.{ℕ, String, Bool, Option, List, [], ◌∷◌}
use notify_hub.Domain.Json.{Payload}
use notify_hub.Domain.Notification.{Uuid, Time}

abbrev pub event_delivered : String
event_delivered = "notification.delivered"

abbrev pub event_failed : String
event_failed = "notification.failed"

abbrev pub event_dropped : String
event_dropped = "notification.dropped"

abbrev pub event_token_deactivated : String
event_token_deactivated = "device_token.deactivated"

-- AllWebhookEvents
abbrev pub all_webhook_events : List String
all_webhook_events = event_delivered ∷ event_failed ∷ event_dropped ∷ event_token_deactivated ∷ []

pub data WebhookDeliveryStatus : Type 0 where
  pending delivered failed : WebhookDeliveryStatus

pub record WebhookEndpoint : Type 0 where
  pub id : Uuid
  pub tenant_id : Uuid
  pub url : String
  pub secret : String
  pub events : List String
  pub is_active : Bool
  pub created_at : Time
  pub updated_at : Time

pub record WebhookDelivery : Type 0 where
  pub id : Uuid
  pub endpoint_id : Uuid
  pub notification_id : Option Uuid
  pub event : String
  pub payload : Payload
  pub status : WebhookDeliveryStatus
  pub attempt : ℕ
  pub next_retry_at : Option Time
  pub last_error : Option String
  pub response_status : Option ℕ
  pub created_at : Time
  pub updated_at : Time

pub record CreateWebhookEndpointRequest : Type 0 where
  pub url : String
  pub secret : String
  pub events : List String

pub record UpdateWebhookEndpointRequest : Type 0 where
  pub url : String
  pub events : List String
  pub is_active : Bool
