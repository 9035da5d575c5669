-- ===== src/Service/Webhooks.antt =====
-- internal/service/webhook.go: the fan-out of an event to the subscribed endpoints.
pub mod Deliveries
pub mod Admin
pub mod Endpoints
use notify_hub.Prelude.{
  ℕ, String, Bool, true, Option, none, some, List, [], ◌∷◌, any, ◌==◌, string_eq, if◌then◌else◌,
}
use Prim.Native.String.{◌++◌}
use notify_hub.Domain.Errors.{Err, Result, ok, err, wrapped, new_validation_error}
use notify_hub.Domain.Json.{Payload, text}
use notify_hub.Domain.Notification.{Uuid, Notification}
use notify_hub.Domain.Webhook.{WebhookEndpoint, WebhookDelivery, pending, all_webhook_events}
use notify_hub.Db.World.{World, Env}
use notify_hub.Db.Io.{Io, pure, ◌>>=◌, map_err}
use notify_hub.Db.NotificationQueries.{status_text}
use notify_hub.Queue.Message.{WebhookMessage, webhook, webhook_topic}
use notify_hub.Queue.Producer.{publish}
use notify_hub.Repository.Webhooks

-- validateEvents: the first unknown name is the error.
unfoldable pub validate_events : List String → Option Err
validate_events [] = none
validate_events (e ∷ es) =
    if any (λ v. v == e) all_webhook_events
    then validate_events es
    else some (new_validation_error ("unknown event: " ++ e))

-- What the program prints in an event: the text of a uuid and of a time.
pub record Printer : Type 0 where
  pub uuid_text : Uuid → String
  pub time_text : ℕ → String

-- buildEventPayload
unfoldable pub build_event_payload : Printer → Notification → String → ℕ → Payload
build_event_payload p n event now =
    ("event", text event)
    ∷ ("notification_id", text (p.uuid_text n.id))
    ∷ ("tenant_id", text (p.uuid_text n.tenant_id))
    ∷ ("channel", text n.channel)
    ∷ ("recipient_id", text n.recipient_id)
    ∷ ("status", text (status_text n.status))
    ∷ ("timestamp", text (p.time_text now))
    ∷ []

abbrev pub pending_delivery : WebhookEndpoint → Notification → String → Payload → WebhookDelivery
pending_delivery ep n event payload = record {
  id = 0;
  endpoint_id = ep.id;
  notification_id = some n.id;
  event = event;
  payload = payload;
  status = pending;
  attempt = 0;
  next_retry_at = none;
  last_error = none;
  response_status = none;
  created_at = 0;
  updated_at = 0;
}

abbrev pub webhook_message :
    ℕ → WebhookEndpoint → Uuid → Notification → String → Payload → ℕ → WebhookMessage
webhook_message max_attempts ep delivery n event payload now = record {
  tenant_id = n.tenant_id;
  endpoint_id = ep.id;
  delivery_id = delivery;
  notification_id = some n.id;
  event = event;
  payload = payload;
  endpoint_url = ep.url;
  secret = ep.secret;
  attempt = 1;
  max_attempts = max_attempts;
  enqueued_at = now;
}

module _ (printer : Printer) (max_attempts : ℕ) (env : Env) where
  -- The body of the loop: an error is logged and the next endpoint is served.
  unfoldable pub notify_endpoint : Notification → String → Payload → WebhookEndpoint → World → World
  unfolding Webhooks.create_delivery publish
  notify_endpoint n event payload ep w =
      let r = Webhooks.create_delivery env (pending_delivery ep n event payload) w in
      elim r.0 [
        | err e ↦ r.1
        | ok d ↦
            (publish env webhook_topic (printer.uuid_text ep.id)
              (webhook (webhook_message max_attempts ep d.id n event payload r.1.now)) r.1).1
      ]

  unfoldable pub notify_all : Notification → String → Payload → List WebhookEndpoint → World → World
  notify_all n event payload [] w = w
  notify_all n event payload (ep ∷ eps) w =
      notify_all n event payload eps (notify_endpoint n event payload ep w)

  -- The rest of Dispatch, behind the lookup of the endpoints.
  abbrev pub fan_out :
      Notification → String → Result (List WebhookEndpoint) → World → Result (Unit {0}) × World
  fan_out n event (err e) w = (err (wrapped "list active webhook endpoints" e), w)
  fan_out n event (ok eps) w =
      (ok tt, notify_all n event (build_event_payload printer n event w.now) eps w)

  -- Dispatch
  unfoldable pub dispatch : Notification → String → Io (Unit {0})
  dispatch n event w =
      let r = Webhooks.list_active_for_event env n.tenant_id event w in fan_out n event r.0 r.1
