-- ===== src/Db/DeliveryQueries.antt =====
-- internal/db/delivery.sql.go: the queries over the delivery_logs table.
use notify_hub.Prelude.{
  ℤ, suc, String, Option, none, some, List, [], ◌∷◌, ◌==◌, nat_eq, leb, filter, sort_by,
}
use notify_hub.Domain.Notification.{Uuid, Time, Channel}
use notify_hub.Domain.Delivery.{DeliveryStatus}
use notify_hub.Db.Models.{DeliveryLogRow}
use notify_hub.Db.World.{World}

pub record InsertDeliveryLogParams : Type 0 where
  pub notification_id : Uuid
  pub channel : Channel
  pub provider : String
  pub status : DeliveryStatus
  pub provider_message_id : Option String
  pub error_message : Option String
  pub error_code : Option String
  pub retry_count : ℤ
  pub delivered_at : Option Time

abbrev pub log_row : InsertDeliveryLogParams → World → DeliveryLogRow
log_row p w = record {
  id = w.fresh;
  notification_id = p.notification_id;
  channel = p.channel;
  provider = p.provider;
  status = p.status;
  provider_message_id = p.provider_message_id;
  error_message = p.error_message;
  error_code = p.error_code;
  retry_count = p.retry_count;
  attempted_at = w.now;
  delivered_at = p.delivered_at;
}

unfoldable pub insert_delivery_log : InsertDeliveryLogParams → World → Option DeliveryLogRow × World
insert_delivery_log p w = (
  some (log_row p w),
  record w {
    fresh = suc w.fresh;
    db = record w.db { delivery_logs = log_row p w ∷ w.db.delivery_logs };
  },
)

unfoldable pub list_delivery_logs_by_notification : Uuid → World → List DeliveryLogRow
unfolding sort_by
list_delivery_logs_by_notification id w =
    sort_by (λ a b. leb a.attempted_at b.attempted_at)
      (filter (λ r. r.notification_id == id) w.db.delivery_logs)

abbrev first_row : List DeliveryLogRow → Option DeliveryLogRow
first_row [] = none
first_row (r ∷ rs) = some r

-- ORDER BY attempted_at DESC LIMIT 1
unfoldable pub get_latest_delivery_log : Uuid → World → Option DeliveryLogRow
unfolding sort_by
get_latest_delivery_log id w = first_row (
    sort_by (λ a b. leb b.attempted_at a.attempted_at)
      (filter (λ r. r.notification_id == id) w.db.delivery_logs))
