-- ===== src/Service/Tenants.antt =====
-- internal/service/tenant.go. The random bytes of a key, in hexadecimal, are what `draw` gives in
-- the world of the call, and `hash` is SHA-256 in hexadecimal: both are of the Go library.
pub mod Keys
use notify_hub.Prelude.{String, Bool, List, ◌==◌, string_eq, if◌then◌else◌}
use notify_hub.Domain.Errors.{Result, ok, err, wrapped, new_internal_error}
use notify_hub.Domain.Notification.{Uuid}
use notify_hub.Domain.Tenant.{
  Tenant, CreateTenantRequest, CreateApiKeyRequest, CreateApiKeyResponse, ApiClient,
}
use notify_hub.Db.World.{World, Env}
use notify_hub.Db.Io.{Io, pure, ◌>>=◌, ◌>>◌, map_err}
use notify_hub.Repository.Tenants
use notify_hub.Service.Validation.{validated}

pub record Crypto : Type 0 where
  pub draw : World → Result String
  pub hash : String → String

abbrev pub key_response : Uuid → String → ApiClient → CreateApiKeyResponse
key_response tenant raw client = record {
  id = client.id;
  tenant_id = tenant;
  name = client.name;
  api_key = raw;
}

module _ (crypto : Crypto) (env : Env) where
  unfoldable pub generate_key : Io String
  generate_key = map_err (wrapped "read random bytes") (λ w. (crypto.draw w, w))

  unfoldable pub create_tenant : Bool → CreateTenantRequest → Io Tenant
  unfolding Tenants.create
  create_tenant valid req = validated valid "validation failed" (Tenants.create env req)

  -- CreateAPIKey, behind the validation.
  unfoldable pub issue_key : Uuid → CreateApiKeyRequest → Io CreateApiKeyResponse
  unfolding generate_key Tenants.get_by_id Tenants.create_for_tenant
  issue_key tenant req = do
    found ← Tenants.get_by_id env tenant
    raw ← map_err (new_internal_error "failed to generate api key") generate_key
    client ← Tenants.create_for_tenant env tenant req.name (crypto.hash raw)
    pure (key_response tenant raw client)

  unfoldable pub create_api_key : Bool → Uuid → CreateApiKeyRequest → Io CreateApiKeyResponse
  create_api_key valid tenant req = validated valid "validation failed" (issue_key tenant req)
