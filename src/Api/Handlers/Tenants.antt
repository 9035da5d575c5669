-- ===== src/Api/Handlers/Tenants.antt =====
-- internal/api/handler/tenant.go and internal/api/handler/ws_token.go. `valid` is the validator's
-- verdict on the request, and `sign` the signature of claims by golang-jwt.
use notify_hub.Prelude.{ℕ, ◌+◌, String, Bool, ◌==◌, string_eq, if◌then◌else◌}
use notify_hub.Domain.Errors.{Result, wrapped, new_validation_error, new_internal_error}
use notify_hub.Domain.Notification.{Uuid, Time}
use notify_hub.Domain.Tenant.{
  Tenant, CreateTenantRequest, CreateApiKeyRequest, CreateApiKeyResponse, ApiClient,
}
use notify_hub.Db.World.{World, Env}
use notify_hub.Db.Io.{Io, pure, ◌>>=◌, map_err}
use notify_hub.Service.Tenants as Service
use notify_hub.Service.Tenants.{Crypto}
use notify_hub.Api.Responses.{Reply, Body, reject, respond}
use notify_hub.Api.Requests.{Request, Parsers, with_uuid, with_body}

module _ (parsers : Parsers) (crypto : Crypto) (env : Env) where
  unfoldable pub create_tenant :
      (CreateTenantRequest → Bool) → Body CreateTenantRequest → World → Reply Tenant × World
  create_tenant valid body =
      with_body body (λ req. respond 201 (Service.create_tenant crypto env (valid req) req))

  unfoldable pub create_api_key :
      (CreateApiKeyRequest → Bool)
      → Request
      → Body CreateApiKeyRequest
      → World
      → Reply CreateApiKeyResponse × World
  create_api_key valid call body =
      with_uuid "invalid tenant id" (parsers.parse_uuid (call.param "id")) (λ tenant.
        with_body body
          (λ req. respond 201 (Service.create_api_key crypto env (valid req) tenant req)))

-- internal/auth/jwt.go: the claims of a token.
pub record WsClaims : Type 0 where
  pub tenant_id : Uuid
  pub recipient_id : String
  pub issued_at : Time
  pub expires_at : Time

module _ (sign : WsClaims → Result String) (ttl : ℕ) where
  -- WSTokenService.Issue
  unfoldable pub issue : Uuid → String → Io String
  issue tenant recipient = map_err (wrapped "ws jwt: sign") (λ w. (
    sign (record {
      tenant_id = tenant;
      recipient_id = recipient;
      issued_at = w.now;
      expires_at = w.now + ttl;
    }),
    w,
  ))

  -- The token, and the `expires_in` that is 60 whatever the time to live is. The body holds the
  -- recipient alone.
  unfoldable pub issue_token : ApiClient → Body String → World → Reply (String × ℕ) × World
  unfolding issue
  issue_token client body = with_body body (λ recipient.
      if recipient == ""
      then reject (new_validation_error "recipient_id required")
      else respond 200 (
          map_err (new_internal_error "failed to issue token") (issue client.tenant_id recipient)
          >>= λ token. pure (token, 60)))
