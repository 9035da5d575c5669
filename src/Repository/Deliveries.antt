-- ===== src/Repository/Deliveries.antt =====
-- internal/repository/delivery.go.
use notify_hub.Prelude.{List, map}
use notify_hub.Domain.Errors.{new_internal_error, is_no_rows}
use notify_hub.Domain.Notification.{Uuid}
use notify_hub.Domain.Delivery.{DeliveryLog}
use notify_hub.Db.Models.{DeliveryLogRow}
use notify_hub.Db.World.{Env}
use notify_hub.Db.Io.{Io, pure, ◌>>=◌, map_err, query_one, query_insert, query_many}
use notify_hub.Db.DeliveryQueries.{
  InsertDeliveryLogParams, insert_delivery_log, get_latest_delivery_log,
  list_delivery_logs_by_notification,
}
use notify_hub.Repository.Notifications.{row_error}

-- dbDeliveryLogToDomain
abbrev pub db_delivery_log_to_domain : DeliveryLogRow → DeliveryLog
db_delivery_log_to_domain d = record {
  id = d.id;
  notification_id = d.notification_id;
  channel = d.channel;
  provider = d.provider;
  status = d.status;
  provider_message_id = d.provider_message_id;
  error_message = d.error_message;
  error_code = d.error_code;
  retry_count = d.retry_count;
  attempted_at = d.attempted_at;
  delivered_at = d.delivered_at;
}

abbrev pub insert_params : DeliveryLog → InsertDeliveryLogParams
insert_params log = record {
  notification_id = log.notification_id;
  channel = log.channel;
  provider = log.provider;
  status = log.status;
  provider_message_id = log.provider_message_id;
  error_message = log.error_message;
  error_code = log.error_code;
  retry_count = log.retry_count;
  delivered_at = log.delivered_at;
}

unfoldable pub create : Env → DeliveryLog → Io DeliveryLog
unfolding query_insert insert_delivery_log
create env log = do
  row ←
      map_err (new_internal_error "failed to insert delivery log")
        (query_insert env (insert_delivery_log (insert_params log)))
  pure (db_delivery_log_to_domain row)

unfoldable pub get_latest : Env → Uuid → Io DeliveryLog
unfolding query_one get_latest_delivery_log is_no_rows
get_latest env notification = do
  row ←
      map_err (row_error "delivery log not found" "failed to get delivery log")
        (query_one env (λ w. (get_latest_delivery_log notification w, w)))
  pure (db_delivery_log_to_domain row)

unfoldable pub list_by_notification : Env → Uuid → Io (List DeliveryLog)
unfolding query_many list_delivery_logs_by_notification
list_by_notification env notification = do
  rows ←
      map_err (new_internal_error "failed to list delivery logs")
        (query_many env (list_delivery_logs_by_notification notification))
  pure (map db_delivery_log_to_domain rows)
