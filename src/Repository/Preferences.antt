-- ===== src/Repository/Preferences.antt =====
-- internal/repository/preference.go.
use notify_hub.Prelude.{ℕ, String, Option, none, some, List, map}
use notify_hub.Domain.Errors.{new_internal_error, is_no_rows}
use notify_hub.Domain.Notification.{Uuid, Channel}
use notify_hub.Domain.Preference.{Preference, UpsertPreferenceRequest}
use notify_hub.Db.Models.{PreferenceRow}
use notify_hub.Db.World.{Env}
use notify_hub.Db.Io.{Io, pure, ◌>>=◌, map_err, query_one, query_insert, query_many, exec}
use notify_hub.Db.PreferenceQueries.{
  UpsertPreferenceParams, get_preference, list_preferences_by_user, upsert_preference,
  delete_preference,
}
use notify_hub.Repository.ClockText.{to_null_time_from_time_str, from_null_time_to_time_str}
use notify_hub.Repository.Notifications.{row_error}

abbrev zone_or_utc : Option String → String
zone_or_utc none = "UTC"
zone_or_utc (some tz) = tz

abbrev window_or_zero : Option ℕ → ℕ
window_or_zero none = 0
window_or_zero (some n) = n

-- dbPreferenceToDomain
unfoldable pub db_preference_to_domain : PreferenceRow → Preference
unfolding from_null_time_to_time_str
db_preference_to_domain p = record {
  id = p.id;
  user_id = p.user_id;
  channel = p.channel;
  enabled = p.enabled;
  quiet_hours_start = from_null_time_to_time_str p.quiet_hours_start;
  quiet_hours_end = from_null_time_to_time_str p.quiet_hours_end;
  frequency_cap = p.frequency_cap;
  frequency_window_minutes = window_or_zero p.frequency_window_minutes;
  timezone = zone_or_utc p.timezone;
  created_at = p.created_at;
  updated_at = p.updated_at;
}

unfoldable pub upsert_params :
    Uuid → String → Channel → UpsertPreferenceRequest → UpsertPreferenceParams
unfolding to_null_time_from_time_str
upsert_params tenant user channel req = record {
  tenant_id = some tenant;
  user_id = user;
  channel = channel;
  enabled = req.enabled;
  quiet_hours_start = to_null_time_from_time_str req.quiet_hours_start;
  quiet_hours_end = to_null_time_from_time_str req.quiet_hours_end;
  frequency_cap = req.frequency_cap;
  frequency_window_minutes = req.frequency_window_minutes;
  timezone = req.timezone;
}

module _ (env : Env) where
  unfoldable pub get : Uuid → String → Channel → Io Preference
  unfolding query_one get_preference is_no_rows
  get tenant user channel = do
    row ←
        map_err (row_error "preference not found" "failed to get preference")
          (query_one env (λ w. (get_preference tenant user channel w, w)))
    pure (db_preference_to_domain row)

  unfoldable pub list_by_user : Uuid → String → Io (List Preference)
  unfolding query_many list_preferences_by_user
  list_by_user tenant user = do
    rows ←
        map_err (new_internal_error "failed to list preferences")
          (query_many env (list_preferences_by_user tenant user))
    pure (map db_preference_to_domain rows)

  unfoldable pub upsert : Uuid → String → Channel → UpsertPreferenceRequest → Io Preference
  unfolding query_insert upsert_preference
  upsert tenant user channel req = do
    row ←
        map_err (new_internal_error "failed to upsert preference")
          (query_insert env (upsert_preference tenant (upsert_params tenant user channel req)))
    pure (db_preference_to_domain row)

  unfoldable pub delete : Uuid → String → Channel → Io (Unit {0})
  unfolding exec delete_preference
  delete tenant user channel =
      map_err (new_internal_error "failed to delete preference")
        (exec env (delete_preference tenant user channel))
