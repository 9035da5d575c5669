-- ===== src/Api/Middleware/Issued.antt =====
-- internal/service/tenant.go with internal/api/middleware/auth.go: an issued key is a way in.
use notify_hub.Prelude.{suc, Bool, false, ◌≡◌, ◌==◌, string_eq, ap, ◌∙◌}
use notify_hub.Domain.Errors.{ok}
use notify_hub.Domain.Notification.{Uuid}
use notify_hub.Domain.Tenant.{CreateApiKeyRequest, CreateApiKeyResponse, ApiClient}
use notify_hub.Db.World.{World, Env}
use notify_hub.Db.Io.{IsHealthy}
use notify_hub.Service.Tenants.{Crypto, create_api_key}
use notify_hub.Service.Tenants.Keys.{promised, create_api_key-known}
use notify_hub.Api.Responses.{Reply}
use notify_hub.Api.Requests.{Request}
use notify_hub.Api.Middleware.{auth}
use notify_hub.Api.Middleware.Guards.{auth-known}

-- While the database answers: where CreateAPIKey succeeds with a key that is not empty, a request
-- that carries this key passes Auth as the client of the response, active, of the tenant that was
-- asked for and with the name of the request. The hash may be any function.
pub create_api_key-admitted :
    {A : Type 0} (crypto : Crypto) (env : Env) (up : IsHealthy env) (valid : Bool) (tenant : Uuid)
    (req : CreateApiKeyRequest) (w : World) (resp : CreateApiKeyResponse) (call : Request)
    (next : ApiClient → World → Reply A × World)
    → (create_api_key crypto env valid tenant req w).0 ≡ ok resp
    → (resp.api_key == "") ≡ false
    → call.header "X-API-Key" ≡ resp.api_key
    → let after = (create_api_key crypto env valid tenant req w).1 in
      (auth crypto.hash env call next after
        ≡ next (promised resp) (record after { calls = suc after.calls }))
      × (resp.tenant_id ≡ tenant)
      × (resp.name ≡ req.name)
create_api_key-admitted crypto env up valid tenant req w resp call next h k e =
    let after = (create_api_key crypto env valid tenant req w).1 in
    let (r, g, c, t, n) = create_api_key-known crypto env up valid tenant req w resp h in
    (
      auth-known crypto.hash env call next _ r (rw e k) (up _) (rw e g)
          ∙ ap (λ x. next x (record after { calls = suc after.calls })) c,
      t,
      n,
    )
