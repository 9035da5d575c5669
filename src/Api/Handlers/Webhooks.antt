-- ===== src/Api/Handlers/Webhooks.antt =====
-- internal/api/handler/webhook_admin.go. `valid` is the validator's verdict on the request.
use notify_hub.Prelude.{Bool, List}
use notify_hub.Domain.Webhook.{
  WebhookEndpoint, CreateWebhookEndpointRequest, UpdateWebhookEndpointRequest,
}
use notify_hub.Domain.Tenant.{ApiClient}
use notify_hub.Db.World.{World, Env}
use notify_hub.Service.Webhooks.Admin as Service
use notify_hub.Api.Responses.{Reply, Body, respond, respond_empty}
use notify_hub.Api.Requests.{Request, Parsers, with_uuid, with_body}

module _ (parsers : Parsers) (env : Env) (client : ApiClient) where
  unfoldable pub create :
      (CreateWebhookEndpointRequest → Bool)
      → Body CreateWebhookEndpointRequest
      → World
      → Reply WebhookEndpoint × World
  create valid body =
      with_body body (λ req. respond 201 (Service.create env (valid req) client.tenant_id req))

  unfoldable pub list : World → Reply (List WebhookEndpoint) × World
  list = respond 200 (Service.list env client.tenant_id)

  unfoldable pub get_by_id : Request → World → Reply WebhookEndpoint × World
  get_by_id req =
      with_uuid "invalid id" (parsers.parse_uuid (req.param "id"))
        (λ id. respond 200 (Service.get_by_id env client.tenant_id id))

  unfoldable pub update :
      (UpdateWebhookEndpointRequest → Bool)
      → Request
      → Body UpdateWebhookEndpointRequest
      → World
      → Reply WebhookEndpoint × World
  update valid req body = with_uuid "invalid id" (parsers.parse_uuid (req.param "id")) (λ id.
      with_body body
        (λ change. respond 200 (Service.update env (valid change) client.tenant_id id change)))

  unfoldable pub delete : Request → World → Reply (Unit {0}) × World
  delete req =
      with_uuid "invalid id" (parsers.parse_uuid (req.param "id"))
        (λ id. respond_empty (Service.delete env client.tenant_id id))
