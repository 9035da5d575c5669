-- ===== src/Repository/Notifications.antt =====
-- internal/repository/notification.go.
pub mod Lifecycle
pub mod Isolation
use notify_hub.Prelude.{
  ℕ, ◌+◌, ◌-◌, ◌*◌, String, Option, none, some, List, map, ltb, ◌==◌, nat_eq, if◌then◌else◌,
}
use notify_hub.Domain.Errors.{
  Err, Result, ok, err, new_internal_error, new_not_found_error, is_no_rows,
}
use notify_hub.Domain.Notification.{
  Uuid, nil_uuid, Channel, NotificationStatus, pending, Notification, SendRequest,
}
use notify_hub.Db.Models.{NotificationRow}
use notify_hub.Db.World.{World, Env}
use notify_hub.Db.Io.{
  Io, pure, ◌>>=◌, ◌>>◌, continue, on_err, map_err, query_one, query_insert, query_checked,
}
use notify_hub.Db.Limits.{int32}
use notify_hub.Db.NotificationQueries.{
  InsertNotificationParams, insert_notification, get_notification_by_id,
  get_notification_by_idempotency_key, list_notifications, count_notifications,
  update_notification_status, cancel_notification, list_due_scheduled_notifications,
}

abbrev uuid_or_nil : Option Uuid → Uuid
uuid_or_nil none = nil_uuid
uuid_or_nil (some u) = u

abbrev text_or_empty : Option String → String
text_or_empty none = ""
text_or_empty (some s) = s

-- dbNotificationToDomain
abbrev pub db_notification_to_domain : NotificationRow → Notification
db_notification_to_domain r = record {
  id = r.id;
  tenant_id = uuid_or_nil r.tenant_id;
  idempotency_key = r.idempotency_key;
  kind = r.kind;
  channel = r.channel;
  recipient_id = r.recipient_id;
  recipient_address = text_or_empty r.recipient_address;
  template_id = r.template_id;
  payload = r.payload;
  priority = r.priority;
  status = r.status;
  scheduled_at = r.scheduled_at;
  created_at = r.created_at;
  updated_at = r.updated_at;
}

-- The parameters of the INSERT; a priority of 0 is stored as PriorityNormal, 5.
abbrev pub insert_params : Uuid → SendRequest → InsertNotificationParams
insert_params tenant req = record {
  tenant_id = some tenant;
  idempotency_key = req.idempotency_key;
  kind = req.kind;
  channel = req.channel;
  recipient_id = req.recipient_id;
  recipient_address = some req.recipient_address;
  template_id = req.template_id;
  payload = req.payload;
  priority = if req.priority == 0 then 5 else req.priority;
  status = pending;
  scheduled_at = req.scheduled_at;
}

-- `if errors.Is(err, sql.ErrNoRows)`: not found, any other error internal.
abbrev pub row_error : String → String → Err → Err
row_error missing broken e =
    if is_no_rows e then new_not_found_error missing else new_internal_error broken e

-- A missing row is no error of GetByIdempotencyKey.
abbrev absent_is_fine : Result NotificationRow → Result (Option Notification)
absent_is_fine (ok r) = ok (some (db_notification_to_domain r))
absent_is_fine (err e) =
    if is_no_rows e then ok none else err (new_internal_error "idempotency check failed" e)

module _ (env : Env) where
  unfoldable pub create : Uuid → SendRequest → Io Notification
  unfolding query_insert insert_notification
  create tenant req = do
    row ←
        map_err (new_internal_error "failed to insert notification")
          (query_insert env (insert_notification (insert_params tenant req)))
    pure (db_notification_to_domain row)

  unfoldable pub get_by_id : Uuid → Uuid → Io Notification
  unfolding query_one get_notification_by_id is_no_rows
  get_by_id tenant id = do
    row ←
        map_err (row_error "notification not found" "failed to get notification")
          (query_one env (λ w. (get_notification_by_id id tenant w, w)))
    pure (db_notification_to_domain row)

  unfoldable pub get_by_idempotency_key : Uuid → String → Io (Option Notification)
  unfolding query_one get_notification_by_idempotency_key is_no_rows
  get_by_idempotency_key tenant key w =
      let r = query_one env (λ v. (get_notification_by_idempotency_key key tenant v, v)) w in
      (absent_is_fine r.0, r.1)

  -- Page and PerPage below 1 mean the first page, of 20.
  unfoldable pub list : Uuid → String → Channel → String → ℕ → ℕ → Io (List Notification × ℕ)
  unfolding query_checked query_one list_notifications count_notifications
  list tenant recipient channel status page per_page = do
    let page' = if ltb page 1 then 1 else page
    let per_page' = if ltb per_page 1 then 20 else per_page
    rows ← map_err (new_internal_error "failed to list notifications") (
        query_checked env (
          list_notifications tenant recipient channel status (int32 per_page')
            (int32 ((page' - 1) * per_page'))))
    total ←
        map_err (new_internal_error "failed to count notifications")
          (query_one env (λ w. (some (count_notifications tenant recipient channel status w), w)))
    pure (map db_notification_to_domain rows, total)

  unfoldable pub cancel : Uuid → Uuid → Io Notification
  unfolding query_one cancel_notification is_no_rows
  cancel tenant id = do
    row ←
        map_err
          (row_error "notification not found or not cancellable" "failed to cancel notification")
          (query_one env (cancel_notification id tenant))
    pure (db_notification_to_domain row)

  unfoldable pub update_status : Uuid → NotificationStatus → Io Notification
  unfolding query_one update_notification_status is_no_rows
  update_status id status = do
    row ←
        map_err (row_error "notification not found" "failed to update notification status")
          (query_one env (update_notification_status id status))
    pure (db_notification_to_domain row)

  unfoldable pub list_due_scheduled : ℕ → Io (List Notification)
  unfolding query_checked list_due_scheduled_notifications
  list_due_scheduled limit = do
    rows ←
        map_err (new_internal_error "failed to list due scheduled notifications")
          (query_checked env (list_due_scheduled_notifications (int32 limit)))
    pure (map db_notification_to_domain rows)
