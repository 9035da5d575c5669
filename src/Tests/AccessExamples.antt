-- ===== src/Tests/AccessExamples.antt =====
-- The theorems on API keys, guards, device tokens and webhook endpoints at a concrete world.
use notify_hub.Prelude.{
  ℕ, suc, false, ◌+◌, String, true, some, List, [], ◌∷◌, length, string_eq, ◌≡◌, ◌⊎◌, refl,
}
use notify_hub.Domain.Errors.{ok}
use notify_hub.Domain.Notification.{Notification}
use notify_hub.Domain.DeviceToken.{RegisterDeviceTokenRequest}
use notify_hub.Domain.Tenant.{CreateApiKeyRequest, CreateApiKeyResponse, ApiClient}
use notify_hub.Domain.Webhook.{WebhookEndpoint, CreateWebhookEndpointRequest}
use notify_hub.Db.World.{World}
use notify_hub.Db.TenantQueries.{get_api_client_by_key_hash}
use notify_hub.Db.WebhookQueries.{endpoint_row}
use notify_hub.Queue.Producer.{publish}
use notify_hub.Repository.Notifications
use notify_hub.Repository.Webhooks
use notify_hub.Repository.Webhooks.{db_webhook_endpoint_to_domain}
use notify_hub.Service.Notifications as Sends
use notify_hub.Service.Tenants.{Crypto, create_api_key, issue_key}
use notify_hub.Service.Tenants.Keys.{promised, KeyCall, create_api_keys, create_api_key-keeps}
use notify_hub.Service.DeviceTokens.Holdings.{
  TokenCall, Agrees, holdings, call_tokens, holdings_after_all, call_tokens-Agrees,
}
use notify_hub.Service.Webhooks.Admin as Admin
use notify_hub.Api.Responses.{Reply, success, decode_json}
use notify_hub.Api.Requests.{Request}
use notify_hub.Api.Middleware.{auth, api_route}
use notify_hub.Api.Middleware.Guards.{Admitted, TurnedAway, api_route-guards}
use notify_hub.Api.Middleware.Issued.{create_api_key-admitted}
use notify_hub.Api.Handlers.Notifications as Handler
use notify_hub.Api.Handlers.Bulk.{send_bulk-accounts}
use notify_hub.Tests.Data.{calm, client, world, ada, parsers, bulk, always}

-- A handler that answers with the tenant of its client.
abbrev whoami : ApiClient → World → Reply ℕ × World
whoami c w = (success 200 c.tenant_id, w)

abbrev keyed : Request
keyed = record { header = λ name. "hash of s3cret"; query = λ name. ""; param = λ name. "" }

abbrev same : String → String
same s = s

api_route-guards_example :
    Admitted same keyed whoami world (api_route same parsers (λ t. t) 10 calm keyed whoami world)
    ⊎ TurnedAway world (api_route same parsers (λ t. t) 10 calm keyed whoami world)
api_route-guards_example = api_route-guards same parsers (λ t. t) 10 calm keyed whoami world

abbrev crypto : Crypto
crypto = record { draw = λ w. ok "k3y"; hash = same }

abbrev key_request : CreateApiKeyRequest
key_request = record { name = "worker" }

abbrev issued : CreateApiKeyResponse
issued = record { id = 20; tenant_id = 9; name = "worker"; api_key = "k3y" }

abbrev with_key : Request
with_key = record keyed { header = λ name. "k3y" }

abbrev issued_world : World
issued_world = (create_api_key crypto calm true 9 key_request world).1

create_api_key-admitted_example :
    (auth same calm with_key whoami issued_world
      ≡ whoami (promised issued) (record issued_world { calls = suc issued_world.calls }))
    × (issued.tenant_id ≡ 9)
    × (issued.name ≡ "worker")
unfolding create_api_key issue_key
create_api_key-admitted_example =
    create_api_key-admitted crypto calm (λ n. refl) true 9 key_request world issued with_key whoami
      refl refl refl

-- A key that is issued, a request that is refused, and a tenant that does not exist.
abbrev key_calls : List KeyCall
key_calls = (true, 9, key_request) ∷ (false, 9, key_request) ∷ (true, 8, key_request) ∷ []

create_api_key-keeps_example :
    get_api_client_by_key_hash "hash of s3cret" (create_api_keys crypto calm key_calls world)
    ≡ some client
unfolding get_api_client_by_key_hash
create_api_key-keeps_example =
    create_api_key-keeps crypto calm key_calls world "hash of s3cret" client refl

abbrev takes_over : RegisterDeviceTokenRequest
takes_over = record { user_id = "bob"; token = "t0k3n"; platform = "web" }

abbrev token_calls : List TokenCall
token_calls = TokenCall.registering 9 takes_over ∷ TokenCall.deregistering 9 "t0k3n" ∷ []

call_tokens-Agrees_example :
    Agrees
      (call_tokens (λ req. true) calm token_calls world)
      (holdings_after_all (λ req. true) calm token_calls (holdings world))
call_tokens-Agrees_example =
    call_tokens-Agrees (λ req. true) calm (λ n. refl) token_calls world (holdings world)
      (λ t k. refl)

abbrev hook_request : CreateWebhookEndpointRequest
hook_request = record {
  url = "https://example.com/new";
  secret = "0123456789abcdef";
  events = "notification.failed" ∷ [];
}

abbrev hooked : WebhookEndpoint
hooked =
    db_webhook_endpoint_to_domain
      (endpoint_row 9 hook_request.url hook_request.secret hook_request.events true world)

abbrev accepted : ℕ
accepted = 202

abbrev sent : List Notification
unfolding Sends.send_bulk
sent = (Sends.send_bulk always 3 calm true 9 bulk world).0.0

send_bulk-accounts_example : (accepted ≡ 202) × (length sent + 0 ≡ length bulk.recipients)
unfolding Handler.send_bulk decode_json Sends.send_each Sends.send Sends.send_valid
    Sends.create_and_enqueue Notifications.create Sends.enqueue publish Notifications.update_status
send_bulk-accounts_example =
    send_bulk-accounts parsers always 3 calm ada (λ req. true) bulk world 202 sent [] refl refl
