-- ===== src/Domain/Tenant.antt =====
-- internal/domain/tenant.go and internal/domain/api_client.go.
use notify_hub.Prelude.{String, Bool}
use notify_hub.Domain.Notification.{Uuid, Time}

pub record Tenant : Type 0 where
  pub id : Uuid
  pub name : String
  pub is_active : Bool
  pub created_at : Time
  pub updated_at : Time

pub record CreateTenantRequest : Type 0 where
  pub name : String

pub record CreateApiKeyRequest : Type 0 where
  pub name : String

pub record CreateApiKeyResponse : Type 0 where
  pub id : Uuid
  pub tenant_id : Uuid
  pub name : String
  pub api_key : String

pub record ApiClient : Type 0 where
  pub id : Uuid
  pub tenant_id : Uuid
  pub name : String
  pub is_active : Bool
