-- ===== src/Service/Webhooks/Admin.antt =====
-- internal/service/webhook.go: the administration of the endpoints. `valid` is the validator's
-- verdict on the request.
use notify_hub.Prelude.{Bool, true, Option, none, some, List}
use notify_hub.Domain.Errors.{Err}
use notify_hub.Domain.Notification.{Uuid}
use notify_hub.Domain.Webhook.{
  WebhookEndpoint, CreateWebhookEndpointRequest, UpdateWebhookEndpointRequest,
}
use notify_hub.Db.World.{Env}
use notify_hub.Db.Io.{Io, fail}
use notify_hub.Repository.Webhooks
use notify_hub.Service.Validation.{validated}
use notify_hub.Service.Webhooks.{validate_events}

abbrev pub new_endpoint : Uuid → CreateWebhookEndpointRequest → WebhookEndpoint
new_endpoint tenant req = record {
  id = 0;
  tenant_id = tenant;
  url = req.url;
  secret = req.secret;
  events = req.events;
  is_active = true;
  created_at = 0;
  updated_at = 0;
}

abbrev pub changed_endpoint : Uuid → Uuid → UpdateWebhookEndpointRequest → WebhookEndpoint
changed_endpoint tenant id req = record {
  id = id;
  tenant_id = tenant;
  url = req.url;
  secret = "";
  events = req.events;
  is_active = req.is_active;
  created_at = 0;
  updated_at = 0;
}

-- `if err := validateEvents(…); err != nil { return nil, err }`
abbrev pub unless_unknown : {A : Type 0} → Option Err → Io A → Io A
unless_unknown (some e) m = fail e
unless_unknown none m = m

module _ (env : Env) where
  unfoldable pub create : Bool → Uuid → CreateWebhookEndpointRequest → Io WebhookEndpoint
  unfolding validate_events Webhooks.create_endpoint
  create valid tenant req = validated valid "invalid webhook endpoint" (
      unless_unknown (validate_events req.events)
        (Webhooks.create_endpoint env (new_endpoint tenant req)))

  unfoldable pub list : Uuid → Io (List WebhookEndpoint)
  list tenant = Webhooks.list_endpoints env tenant

  unfoldable pub get_by_id : Uuid → Uuid → Io WebhookEndpoint
  get_by_id tenant id = Webhooks.get_endpoint env tenant id

  unfoldable pub update : Bool → Uuid → Uuid → UpdateWebhookEndpointRequest → Io WebhookEndpoint
  unfolding validate_events Webhooks.update_endpoint
  update valid tenant id req = validated valid "invalid webhook endpoint" (
      unless_unknown (validate_events req.events)
        (Webhooks.update_endpoint env (changed_endpoint tenant id req)))

  unfoldable pub delete : Uuid → Uuid → Io (Unit {0})
  delete tenant id = Webhooks.delete_endpoint env tenant id
