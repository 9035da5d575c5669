-- ===== src/Api/Handlers/Preferences.antt =====
-- internal/api/handler/preference.go. `valid` is the validator's verdict on the request.
use notify_hub.Prelude.{Bool, List, if◌then◌else◌}
use notify_hub.Domain.Errors.{new_validation_error}
use notify_hub.Domain.Notification.{Channel, is_valid}
use notify_hub.Domain.Preference.{Preference, UpsertPreferenceRequest}
use notify_hub.Domain.Tenant.{ApiClient}
use notify_hub.Db.World.{World, Env}
use notify_hub.Repository.Preferences as Repository
use notify_hub.Service.Preferences as Service
use notify_hub.Api.Responses.{Reply, Body, reject, respond, respond_empty}
use notify_hub.Api.Requests.{Request, with_body}

-- `if !channel.IsValid() { … return }`
abbrev pub with_channel :
    {A : Type 0} → Channel → (World → Reply A × World) → World → Reply A × World
with_channel channel k =
    if is_valid channel then k else reject (new_validation_error "invalid channel")

module _ (env : Env) (client : ApiClient) (req : Request) where
  unfoldable pub list_by_user : World → Reply (List Preference) × World
  list_by_user = respond 200 (Repository.list_by_user env client.tenant_id (req.param "user_id"))

  unfoldable pub upsert :
      (UpsertPreferenceRequest → Bool)
      → Body UpsertPreferenceRequest
      → World
      → Reply Preference × World
  upsert valid body = with_channel (req.param "channel") (
      with_body body (λ pref. respond 200 (
        Service.upsert env (valid pref) client.tenant_id (req.param "user_id") (req.param "channel")
          pref)))

  unfoldable pub delete : World → Reply (Unit {0}) × World
  delete = with_channel (req.param "channel") (
      respond_empty
        (Repository.delete env client.tenant_id (req.param "user_id") (req.param "channel")))
