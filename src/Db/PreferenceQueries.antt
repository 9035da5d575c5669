-- ===== src/Db/PreferenceQueries.antt =====
-- internal/db/preference.sql.go: the queries over the preferences table.
use notify_hub.Prelude.{
  ℕ, suc, String, Bool, Option, none, some, List, ◌∷◌, ◌&&◌, not, ◌==◌, nat_eq, string_eq, find?,
  filter, update_where,
}
use notify_hub.Domain.Notification.{Uuid, Time, Channel}
use notify_hub.Db.Models.{PreferenceRow}
use notify_hub.Db.World.{World}
use notify_hub.Db.NotificationQueries.{has_tenant}

pub record UpsertPreferenceParams : Type 0 where
  pub tenant_id : Option Uuid
  pub user_id : String
  pub channel : Channel
  pub enabled : Bool
  pub quiet_hours_start : Option ℕ
  pub quiet_hours_end : Option ℕ
  pub frequency_cap : Option ℕ
  pub frequency_window_minutes : Option ℕ
  pub timezone : Option String

-- The key (tenant_id, user_id, channel).
abbrev pub keyed : Uuid → String → Channel → PreferenceRow → Bool
keyed tenant user channel r =
    has_tenant tenant r.tenant_id && (r.user_id == user && r.channel == channel)

unfoldable pub get_preference : Uuid → String → Channel → World → Option PreferenceRow
get_preference tenant user channel w = find? (keyed tenant user channel) w.db.preferences

unfoldable pub list_preferences_by_user : Uuid → String → World → List PreferenceRow
list_preferences_by_user tenant user w =
    filter (λ r. has_tenant tenant r.tenant_id && r.user_id == user) w.db.preferences

abbrev pub preference_row : UpsertPreferenceParams → World → PreferenceRow
preference_row p w = record {
  id = w.fresh;
  user_id = p.user_id;
  channel = p.channel;
  enabled = p.enabled;
  quiet_hours_start = p.quiet_hours_start;
  quiet_hours_end = p.quiet_hours_end;
  frequency_cap = p.frequency_cap;
  frequency_window_minutes = p.frequency_window_minutes;
  timezone = p.timezone;
  created_at = w.now;
  updated_at = w.now;
  tenant_id = p.tenant_id;
}

-- SET in ON CONFLICT DO UPDATE
abbrev pub overwrite : UpsertPreferenceParams → Time → PreferenceRow → PreferenceRow
overwrite p now r = record r {
  enabled = p.enabled;
  quiet_hours_start = p.quiet_hours_start;
  quiet_hours_end = p.quiet_hours_end;
  frequency_cap = p.frequency_cap;
  frequency_window_minutes = p.frequency_window_minutes;
  timezone = p.timezone;
  updated_at = now;
}

-- The conflict test of a tenant that is not NULL; the repository passes no other.
unfoldable pub upsert_preference :
    Uuid → UpsertPreferenceParams → World → Option PreferenceRow × World
upsert_preference tenant p w = elim (find? (keyed tenant p.user_id p.channel) w.db.preferences) [
  | none ↦ (
    some (preference_row p w),
    record w {
      fresh = suc w.fresh;
      db = record w.db { preferences = preference_row p w ∷ w.db.preferences };
    },
  )
  | some r ↦ (
    some (overwrite p w.now r),
    record w {
      db = record w.db {
        preferences =
            update_where (keyed tenant p.user_id p.channel) (overwrite p w.now) w.db.preferences;
      };
    },
  )
]

unfoldable pub delete_preference : Uuid → String → Channel → World → World
delete_preference tenant user channel w = record w {
  db = record w.db {
    preferences = filter (λ r. not (keyed tenant user channel r)) w.db.preferences;
  };
}
