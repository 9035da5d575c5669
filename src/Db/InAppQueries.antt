-- ===== src/Db/InAppQueries.antt =====
-- internal/db/inapp.sql.go: the queries over inapp_messages. The identifiers are compared as the
-- numbers that their bytes write.
use notify_hub.Prelude.{
  ℕ, suc, String, Bool, true, false, Option, none, some, List, ◌∷◌, ◌&&◌, ◌||◌, ◌==◌, nat_eq,
  string_eq, length, take, find?, filter, update_where, ltb, leb, sort_by, if◌then◌else◌,
}
use notify_hub.Domain.Json.{Payload}
use notify_hub.Domain.Notification.{Uuid, Time}
use notify_hub.Db.Models.{InappMessageRow}
use notify_hub.Db.World.{World}
use notify_hub.Db.Limits.{limited, offset_by}

pub record InsertInAppMessageParams : Type 0 where
  pub tenant_id : Uuid
  pub notification_id : Option Uuid
  pub recipient_id : String
  pub title : String
  pub body : String
  pub payload : Payload

abbrev pub inapp_row : InsertInAppMessageParams → World → InappMessageRow
inapp_row p w = record {
  id = w.fresh;
  tenant_id = p.tenant_id;
  notification_id = p.notification_id;
  recipient_id = p.recipient_id;
  title = p.title;
  body = p.body;
  payload = p.payload;
  read_at = none;
  created_at = w.now;
}

unfoldable pub insert_in_app_message :
    InsertInAppMessageParams → World → Option InappMessageRow × World
insert_in_app_message p w = (
  some (inapp_row p w),
  record w {
    fresh = suc w.fresh;
    db = record w.db { inapp_messages = inapp_row p w ∷ w.db.inapp_messages };
  },
)

unfoldable pub get_in_app_message : Uuid → Uuid → World → Option InappMessageRow
get_in_app_message id tenant w =
    find? (λ r. r.id == id && r.tenant_id == tenant) w.db.inapp_messages

abbrev pub is_unread : InappMessageRow → Bool
is_unread r = elim r.read_at [ none ↦ true | some t ↦ false ]

-- tenant_id = $1 AND recipient_id = $2
abbrev pub addressed : Uuid → String → InappMessageRow → Bool
addressed tenant recipient r = r.tenant_id == tenant && r.recipient_id == recipient

-- … AND (NOT $3 OR read_at IS NULL)
abbrev pub visible : Uuid → String → Bool → InappMessageRow → Bool
visible tenant recipient unread_only r =
    addressed tenant recipient r && (if unread_only then is_unread r else true)

-- created_at < $4 OR (created_at = $4 AND id < $5)
abbrev pub older : Time → Uuid → InappMessageRow → Bool
older time id r = ltb r.created_at time || (r.created_at == time && ltb r.id id)

abbrev pub newer : Time → Uuid → InappMessageRow → Bool
newer time id r = ltb time r.created_at || (r.created_at == time && ltb id r.id)

-- ORDER BY created_at DESC, id DESC: is `b` behind `a`?
abbrev pub newest_first : InappMessageRow → InappMessageRow → Bool
newest_first a b = older a.created_at a.id b

abbrev pub oldest_first : InappMessageRow → InappMessageRow → Bool
oldest_first a b = newer a.created_at a.id b

unfoldable pub list_inbox :
    Uuid → String → Bool → Option ℕ → Option ℕ → World → Option (List InappMessageRow)
unfolding sort_by
list_inbox tenant recipient unread_only offset limit w = offset_by offset limit (
    sort_by (λ a b. leb b.created_at a.created_at)
      (filter (visible tenant recipient unread_only) w.db.inapp_messages))

unfoldable pub list_inbox_after_cursor :
    Uuid → String → Bool → Time → Uuid → Option ℕ → World → Option (List InappMessageRow)
unfolding sort_by
list_inbox_after_cursor tenant recipient unread_only time id limit w = limited limit (
    sort_by newest_first
      (filter (λ r. visible tenant recipient unread_only r && older time id r) w.db.inapp_messages))

unfoldable pub list_inbox_since : Uuid → String → Time → Uuid → World → List InappMessageRow
unfolding sort_by
list_inbox_since tenant recipient time id w = take 200 (
    sort_by oldest_first
      (filter (λ r. addressed tenant recipient r && newer time id r) w.db.inapp_messages))

abbrev pub counted : Uuid → String → InappMessageRow → Bool
counted tenant recipient r = addressed tenant recipient r && is_unread r

unfoldable pub count_unread : Uuid → String → World → ℕ
count_unread tenant recipient w = length (filter (counted tenant recipient) w.db.inapp_messages)

abbrev pub read : Time → InappMessageRow → InappMessageRow
read now r = record r { read_at = some now }

unfoldable pub mark_in_app_message_read : Uuid → Uuid → String → World → World
mark_in_app_message_read id tenant recipient w = record w {
  db = record w.db {
    inapp_messages =
        update_where (λ r. r.id == id && counted tenant recipient r) (read w.now)
          w.db.inapp_messages;
  };
}

unfoldable pub mark_all_in_app_messages_read : Uuid → String → World → World
mark_all_in_app_messages_read tenant recipient w = record w {
  db = record w.db {
    inapp_messages = update_where (counted tenant recipient) (read w.now) w.db.inapp_messages;
  };
}
