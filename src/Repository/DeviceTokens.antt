-- ===== src/Repository/DeviceTokens.antt =====
-- internal/repository/device_token.go. Deactivate is an :exec, which never answers no_rows: its
-- not-found branch is kept as the source has it.
use notify_hub.Prelude.{String, List, map, if◌then◌else◌}
use notify_hub.Domain.Errors.{Err, new_not_found_error, is_no_rows}
use notify_hub.Domain.Notification.{Uuid}
use notify_hub.Domain.DeviceToken.{DeviceToken, RegisterDeviceTokenRequest}
use notify_hub.Db.Models.{DeviceTokenRow}
use notify_hub.Db.World.{Env}
use notify_hub.Db.Io.{Io, pure, ◌>>=◌, map_err, query_one, query_many, exec}
use notify_hub.Db.DeviceTokenQueries.{
  UpsertDeviceTokenParams, upsert_device_token, deactivate_device_token,
  list_active_device_tokens_by_user,
}

abbrev pub to_device_token : DeviceTokenRow → DeviceToken
to_device_token r = record {
  id = r.id;
  tenant_id = r.tenant_id;
  user_id = r.user_id;
  token = r.token;
  platform = r.platform;
  is_active = r.is_active;
  created_at = r.created_at;
  updated_at = r.updated_at;
}

abbrev pub upsert_params : Uuid → RegisterDeviceTokenRequest → UpsertDeviceTokenParams
upsert_params tenant req = record {
  tenant_id = tenant;
  user_id = req.user_id;
  token = req.token;
  platform = req.platform;
}

abbrev token_error : Err → Err
token_error e = if is_no_rows e then new_not_found_error "device token not found" else e

module _ (env : Env) where
  unfoldable pub upsert : Uuid → RegisterDeviceTokenRequest → Io DeviceToken
  unfolding query_one upsert_device_token
  upsert tenant req = do
    row ← query_one env (upsert_device_token (upsert_params tenant req))
    pure (to_device_token row)

  unfoldable pub deactivate : Uuid → String → Io (Unit {0})
  unfolding exec deactivate_device_token is_no_rows
  deactivate tenant token = map_err token_error (exec env (deactivate_device_token tenant token))

  unfoldable pub list_active_by_user : Uuid → String → Io (List DeviceToken)
  unfolding query_many list_active_device_tokens_by_user
  list_active_by_user tenant user = do
    rows ← query_many env (list_active_device_tokens_by_user tenant user)
    pure (map to_device_token rows)
