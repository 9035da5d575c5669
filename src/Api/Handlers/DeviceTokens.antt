-- ===== src/Api/Handlers/DeviceTokens.antt =====
-- internal/api/handler/device_token.go. `is_valid` is the validator's verdict on the request.
use notify_hub.Prelude.{Bool}
use notify_hub.Domain.DeviceToken.{DeviceToken, RegisterDeviceTokenRequest}
use notify_hub.Domain.Tenant.{ApiClient}
use notify_hub.Db.World.{World, Env}
use notify_hub.Service.DeviceTokens as Service
use notify_hub.Api.Responses.{Reply, Body, respond, respond_empty}
use notify_hub.Api.Requests.{Request, with_body}

module _ (is_valid : RegisterDeviceTokenRequest → Bool) (env : Env) (client : ApiClient) where
  unfoldable pub register : Body RegisterDeviceTokenRequest → World → Reply DeviceToken × World
  register body =
      with_body body (λ req. respond 201 (Service.register is_valid env client.tenant_id req))

  unfoldable pub deregister : Request → World → Reply (Unit {0}) × World
  deregister req =
      respond_empty (Service.deregister is_valid env client.tenant_id (req.param "token"))
