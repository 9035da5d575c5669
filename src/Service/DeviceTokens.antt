-- ===== src/Service/DeviceTokens.antt =====
-- internal/service/device_token.go. `is_valid` is the validator's verdict on the struct tags.
pub mod Holdings
use notify_hub.Prelude.{String, Bool, List, ◌==◌, string_eq, if◌then◌else◌}
use notify_hub.Domain.Errors.{err, new_validation_error, new_internal_error}
use notify_hub.Domain.Notification.{Uuid}
use notify_hub.Domain.DeviceToken.{DeviceToken, RegisterDeviceTokenRequest}
use notify_hub.Db.World.{Env}
use notify_hub.Db.Io.{Io, map_err}
use notify_hub.Repository.DeviceTokens
use notify_hub.Service.Validation.{validated}

module _ (is_valid : RegisterDeviceTokenRequest → Bool) (env : Env) where
  unfoldable pub register : Uuid → RegisterDeviceTokenRequest → Io DeviceToken
  unfolding DeviceTokens.upsert
  register tenant req = validated (is_valid req) "validation failed" (
      map_err (new_internal_error "failed to register device token")
        (DeviceTokens.upsert env tenant req))

  unfoldable pub deregister : Uuid → String → Io (Unit {0})
  unfolding DeviceTokens.deactivate
  deregister tenant token w =
      if token == ""
      then (err (new_validation_error "token required"), w)
      else DeviceTokens.deactivate env tenant token w

  unfoldable pub list_active_by_user : Uuid → String → Io (List DeviceToken)
  list_active_by_user tenant user = DeviceTokens.list_active_by_user env tenant user
