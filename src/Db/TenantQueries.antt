-- ===== src/Db/TenantQueries.antt =====
-- internal/db/tenant.sql.go and internal/db/api_client.sql.go: the queries over tenants, whose
-- name is UNIQUE, and over api_clients, whose api_key_hash is.
use notify_hub.Prelude.{
  suc, String, Bool, true, Option, none, some, ◌∷◌, ◌&&◌, ◌==◌, nat_eq, string_eq, find?,
}
use notify_hub.Domain.Notification.{Uuid}
use notify_hub.Db.Models.{TenantRow, ApiClientRow}
use notify_hub.Db.World.{World}

unfoldable pub get_tenant_by_id : Uuid → World → Option TenantRow
get_tenant_by_id id w = find? (λ r. r.id == id) w.db.tenants

unfoldable pub get_tenant_by_name : String → World → Option TenantRow
get_tenant_by_name name w = find? (λ r. r.name == name) w.db.tenants

abbrev pub tenant_row : String → World → TenantRow
tenant_row name w = record {
  id = w.fresh;
  name = name;
  is_active = true;
  created_at = w.now;
  updated_at = w.now;
}

-- The statement, by the row that conflicts.
abbrev pub insert_tenant_by : String → World → Option TenantRow → Option TenantRow × World
insert_tenant_by name w (some r) = (none, w)
insert_tenant_by name w none = (
  some (tenant_row name w),
  record w { fresh = suc w.fresh; db = record w.db { tenants = tenant_row name w ∷ w.db.tenants } },
)

unfoldable pub insert_tenant : String → World → Option TenantRow × World
insert_tenant name w = insert_tenant_by name w (find? (λ r. r.name == name) w.db.tenants)

-- api_key_hash = $1 AND is_active = true
abbrev pub usable : String → ApiClientRow → Bool
usable hash r = r.api_key_hash == hash && r.is_active

unfoldable pub get_api_client_by_key_hash : String → World → Option ApiClientRow
get_api_client_by_key_hash hash w = find? (usable hash) w.db.api_clients

abbrev pub client_row : Option Uuid → String → String → World → ApiClientRow
client_row tenant name hash w = record {
  id = w.fresh;
  name = name;
  api_key_hash = hash;
  is_active = true;
  created_at = w.now;
  updated_at = w.now;
  tenant_id = tenant;
}

abbrev pub insert_client_by :
    Option Uuid → String → String → World → Option ApiClientRow → Option ApiClientRow × World
insert_client_by tenant name hash w (some r) = (none, w)
insert_client_by tenant name hash w none = (
  some (client_row tenant name hash w),
  record w {
    fresh = suc w.fresh;
    db = record w.db { api_clients = client_row tenant name hash w ∷ w.db.api_clients };
  },
)

unfoldable pub insert_api_client :
    Option Uuid → String → String → World → Option ApiClientRow × World
insert_api_client tenant name hash w =
    insert_client_by tenant name hash w (find? (λ r. r.api_key_hash == hash) w.db.api_clients)
