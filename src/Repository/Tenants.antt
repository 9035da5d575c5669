-- ===== src/Repository/Tenants.antt =====
-- internal/repository/tenant.go and internal/repository/api_client.go.
use notify_hub.Prelude.{String, Option, none, some, if◌then◌else◌}
use notify_hub.Domain.Errors.{Err, new_internal_error, new_unauthorized_error, is_no_rows}
use notify_hub.Domain.Notification.{Uuid, nil_uuid}
use notify_hub.Domain.Tenant.{Tenant, CreateTenantRequest, ApiClient}
use notify_hub.Db.Models.{TenantRow, ApiClientRow}
use notify_hub.Db.World.{Env}
use notify_hub.Db.Io.{Io, pure, ◌>>=◌, map_err, query_one, query_insert}
use notify_hub.Db.TenantQueries.{
  insert_tenant, get_tenant_by_id, get_api_client_by_key_hash, insert_api_client,
}
use notify_hub.Repository.Notifications.{row_error}

abbrev pub db_tenant_to_domain : TenantRow → Tenant
db_tenant_to_domain r = record {
  id = r.id;
  name = r.name;
  is_active = r.is_active;
  created_at = r.created_at;
  updated_at = r.updated_at;
}

-- The client that GetByKeyHash builds: a NULL tenant leaves the zero uuid.
abbrev tenant_or_nil : Option Uuid → Uuid
tenant_or_nil none = nil_uuid
tenant_or_nil (some t) = t

abbrev pub found_client : ApiClientRow → ApiClient
found_client r = record {
  id = r.id;
  tenant_id = tenant_or_nil r.tenant_id;
  name = r.name;
  is_active = r.is_active;
}

abbrev key_error : Err → Err
key_error e =
    if is_no_rows e
    then new_unauthorized_error "invalid API key"
    else new_internal_error "api client lookup failed" e

module _ (env : Env) where
  unfoldable pub create : CreateTenantRequest → Io Tenant
  unfolding query_insert insert_tenant
  create req = do
    row ←
        map_err (new_internal_error "failed to insert tenant")
          (query_insert env (insert_tenant req.name))
    pure (db_tenant_to_domain row)

  unfoldable pub get_by_id : Uuid → Io Tenant
  unfolding query_one get_tenant_by_id is_no_rows
  get_by_id id = do
    row ←
        map_err (row_error "tenant not found" "failed to get tenant")
          (query_one env (λ w. (get_tenant_by_id id w, w)))
    pure (db_tenant_to_domain row)

  unfoldable pub get_by_key_hash : String → Io ApiClient
  unfolding query_one get_api_client_by_key_hash is_no_rows
  get_by_key_hash hash = do
    row ← map_err key_error (query_one env (λ w. (get_api_client_by_key_hash hash w, w)))
    pure (found_client row)

  unfoldable pub create_for_tenant : Uuid → String → String → Io ApiClient
  unfolding query_insert insert_api_client
  create_for_tenant tenant name hash = do
    row ←
        map_err (new_internal_error "failed to create api client")
          (query_insert env (insert_api_client (some tenant) name hash))
    pure (record { id = row.id; tenant_id = tenant; name = row.name; is_active = row.is_active })
