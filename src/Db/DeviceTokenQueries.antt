-- ===== src/Db/DeviceTokenQueries.antt =====
-- internal/db/device_token.sql.go: the queries over device_tokens, whose UNIQUE key is
-- (tenant_id, token). The CHECK of the platform is that of the request's validation.
use notify_hub.Prelude.{
  suc, String, Bool, true, false, Option, none, some, List, ◌∷◌, ◌&&◌, ◌==◌, nat_eq, string_eq,
  find?, filter, update_where, leb, sort_by,
}
use notify_hub.Domain.Notification.{Uuid, Time}
use notify_hub.Db.Models.{DeviceTokenRow}
use notify_hub.Db.World.{World}

pub record UpsertDeviceTokenParams : Type 0 where
  pub tenant_id : Uuid
  pub user_id : String
  pub token : String
  pub platform : String

-- tenant_id = $1 AND token = $2
abbrev pub of_token : Uuid → String → DeviceTokenRow → Bool
of_token tenant token r = r.tenant_id == tenant && r.token == token

abbrev pub token_row : UpsertDeviceTokenParams → World → DeviceTokenRow
token_row p w = record {
  id = w.fresh;
  tenant_id = p.tenant_id;
  user_id = p.user_id;
  token = p.token;
  platform = p.platform;
  is_active = true;
  created_at = w.now;
  updated_at = w.now;
}

-- SET in ON CONFLICT DO UPDATE
abbrev pub take_over : UpsertDeviceTokenParams → Time → DeviceTokenRow → DeviceTokenRow
take_over p now r = record r {
  user_id = p.user_id;
  platform = p.platform;
  is_active = true;
  updated_at = now;
}

-- The statement, by the row that conflicts.
abbrev pub upsert_by :
    UpsertDeviceTokenParams → World → Option DeviceTokenRow → Option DeviceTokenRow × World
upsert_by p w none = (
  some (token_row p w),
  record w {
    fresh = suc w.fresh;
    db = record w.db { device_tokens = token_row p w ∷ w.db.device_tokens };
  },
)
upsert_by p w (some r) = (
  some (take_over p w.now r),
  record w {
    db = record w.db {
      device_tokens =
          update_where (of_token p.tenant_id p.token) (take_over p w.now) w.db.device_tokens;
    };
  },
)

unfoldable pub upsert_device_token : UpsertDeviceTokenParams → World → Option DeviceTokenRow × World
upsert_device_token p w = upsert_by p w (find? (of_token p.tenant_id p.token) w.db.device_tokens)

abbrev pub switch_off : Time → DeviceTokenRow → DeviceTokenRow
switch_off now r = record r { is_active = false; updated_at = now }

unfoldable pub deactivate_device_token : Uuid → String → World → World
deactivate_device_token tenant token w = record w {
  db = record w.db {
    device_tokens = update_where (of_token tenant token) (switch_off w.now) w.db.device_tokens;
  };
}

abbrev pub active_of : Uuid → String → DeviceTokenRow → Bool
active_of tenant user r = r.tenant_id == tenant && (r.user_id == user && r.is_active)

unfoldable pub list_active_device_tokens_by_user : Uuid → String → World → List DeviceTokenRow
unfolding sort_by
list_active_device_tokens_by_user tenant user w =
    sort_by (λ a b. leb b.created_at a.created_at)
      (filter (active_of tenant user) w.db.device_tokens)

unfoldable pub get_device_token : Uuid → String → World → Option DeviceTokenRow
get_device_token tenant token w = find? (of_token tenant token) w.db.device_tokens
