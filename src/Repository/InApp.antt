-- ===== src/Repository/InApp.antt =====
-- internal/repository/inapp.go.
pub mod Pages
pub mod Marks
pub mod Steps
use notify_hub.Prelude.{ℕ, String, Option, none, some, List, map, ◌==◌, nat_eq, if◌then◌else◌}
use notify_hub.Domain.Errors.{wrapped}
use notify_hub.Domain.Notification.{Uuid}
use notify_hub.Domain.InApp.{InAppMessage, InboxQuery}
use notify_hub.Db.Models.{InappMessageRow}
use notify_hub.Db.World.{World, Env}
use notify_hub.Db.Io.{
  Io, pure, ◌>>=◌, map_err, query_one, query_insert, query_many, query_checked, exec,
}
use notify_hub.Db.Limits.{int32}
use notify_hub.Db.InAppQueries.{
  InsertInAppMessageParams, insert_in_app_message, get_in_app_message, list_inbox,
  list_inbox_after_cursor, list_inbox_since, count_unread, mark_in_app_message_read,
  mark_all_in_app_messages_read,
}

abbrev pub from_db_in_app : InappMessageRow → InAppMessage
from_db_in_app r = record {
  id = r.id;
  tenant_id = r.tenant_id;
  notification_id = r.notification_id;
  recipient_id = r.recipient_id;
  title = r.title;
  body = r.body;
  payload = r.payload;
  read_at = r.read_at;
  created_at = r.created_at;
}

abbrev pub insert_params : InAppMessage → InsertInAppMessageParams
insert_params m = record {
  tenant_id = m.tenant_id;
  notification_id = m.notification_id;
  recipient_id = m.recipient_id;
  title = m.title;
  body = m.body;
  payload = m.payload;
}

abbrev pub page_limit : InboxQuery → ℕ
page_limit q = if q.limit == 0 then 50 else q.limit

module _ (env : Env) where
  unfoldable pub insert : InAppMessage → Io InAppMessage
  unfolding query_insert insert_in_app_message
  insert m = do
    row ←
        map_err (wrapped "insert inapp message")
          (query_insert env (insert_in_app_message (insert_params m)))
    pure (from_db_in_app row)

  unfoldable pub get_by_id : Uuid → Uuid → Io InAppMessage
  unfolding query_one get_in_app_message
  get_by_id tenant id = do
    row ←
        map_err (wrapped "get inapp message")
          (query_one env (λ w. (get_in_app_message id tenant w, w)))
    pure (from_db_in_app row)

  -- List with a cursor.
  unfoldable pub list_after : InboxQuery → Uuid → Io (List InAppMessage)
  unfolding query_one query_checked get_in_app_message list_inbox_after_cursor
  list_after q after_id = do
    cursor ←
        map_err (wrapped "list inbox cursor lookup")
          (query_one env (λ w. (get_in_app_message after_id q.tenant_id w, w)))
    rows ← map_err (wrapped "list inbox after cursor") (
        query_checked env (
          list_inbox_after_cursor q.tenant_id q.recipient_id q.unread_only cursor.created_at
            cursor.id (int32 (page_limit q))))
    pure (map from_db_in_app rows)

  -- List without one.
  unfoldable pub list_offset : InboxQuery → Io (List InAppMessage)
  unfolding query_checked list_inbox
  list_offset q = do
    rows ← map_err (wrapped "list inbox") (
        query_checked env (
          list_inbox q.tenant_id q.recipient_id q.unread_only (int32 q.offset)
            (int32 (page_limit q))))
    pure (map from_db_in_app rows)

  abbrev pub list_by : InboxQuery → Option Uuid → Io (List InAppMessage)
  list_by q (some after_id) = list_after q after_id
  list_by q none = list_offset q

  unfoldable pub list : InboxQuery → Io (List InAppMessage)
  list q = list_by q q.after_id

  unfoldable pub list_since : Uuid → String → Uuid → Io (List InAppMessage)
  unfolding query_one query_many get_in_app_message list_inbox_since
  list_since tenant recipient since = do
    cursor ←
        map_err (wrapped "list inbox since cursor lookup")
          (query_one env (λ w. (get_in_app_message since tenant w, w)))
    rows ←
        map_err (wrapped "list inbox since")
          (query_many env (list_inbox_since tenant recipient cursor.created_at cursor.id))
    pure (map from_db_in_app rows)

  unfoldable pub count_unread_of : Uuid → String → Io ℕ
  unfolding query_one count_unread
  count_unread_of tenant recipient =
      map_err (wrapped "count unread")
        (query_one env (λ w. (some (count_unread tenant recipient w), w)))

  unfoldable pub mark_read : Uuid → Uuid → String → Io (Unit {0})
  unfolding exec mark_in_app_message_read
  mark_read tenant id recipient =
      map_err (wrapped "mark inapp read") (exec env (mark_in_app_message_read id tenant recipient))

  unfoldable pub mark_all_read : Uuid → String → Io (Unit {0})
  unfolding exec mark_all_in_app_messages_read
  mark_all_read tenant recipient =
      map_err (wrapped "mark all inapp read")
        (exec env (mark_all_in_app_messages_read tenant recipient))
