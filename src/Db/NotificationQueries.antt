-- ===== src/Db/NotificationQueries.antt =====
-- internal/db/notification.sql.go: the queries over the notifications table.
use notify_hub.Prelude.{
  ℕ, suc, String, Bool, true, false, Option, none, some, List, ◌∷◌, ltb, leb, ◌&&◌, ◌||◌, ◌==◌,
  nat_eq, string_eq, filter, find?, update_where, length, sort_by, if◌then◌else◌,
}
use notify_hub.Domain.Json.{Payload}
use notify_hub.Domain.Notification.{
  Uuid, Time, Channel, NotificationStatus, pending, queued, processing, delivered, failed, dropped,
}
use notify_hub.Db.Models.{NotificationRow}
use notify_hub.Db.World.{World}
use notify_hub.Db.Limits.{limited, offset_by}

-- A comparison with a nullable column is not true at NULL.
abbrev pub has_tenant : Uuid → Option Uuid → Bool
has_tenant t none = false
has_tenant t (some u) = u == t

abbrev pub has_key : String → Option String → Bool
has_key k none = false
has_key k (some j) = j == k

pub record InsertNotificationParams : Type 0 where
  pub tenant_id : Option Uuid
  pub idempotency_key : Option String
  pub kind : String
  pub channel : Channel
  pub recipient_id : String
  pub recipient_address : Option String
  pub template_id : Option Uuid
  pub payload : Payload
  pub priority : ℕ
  pub status : NotificationStatus
  pub scheduled_at : Option Time

-- The UNIQUE constraint on idempotency_key: NULLs never clash.
unfoldable pub key_taken : Option String → List NotificationRow → Bool
key_taken none rows = false
key_taken (some k) rows = elim (find? (λ r. has_key k r.idempotency_key) rows) [
  | none ↦ false
  | some r ↦ true
]

abbrev pub new_row : InsertNotificationParams → World → NotificationRow
new_row p w = record {
  id = w.fresh;
  idempotency_key = p.idempotency_key;
  kind = p.kind;
  channel = p.channel;
  recipient_id = p.recipient_id;
  recipient_address = p.recipient_address;
  template_id = p.template_id;
  payload = p.payload;
  priority = p.priority;
  status = p.status;
  scheduled_at = p.scheduled_at;
  created_at = w.now;
  updated_at = w.now;
  tenant_id = p.tenant_id;
}

-- `none` is the violation of the constraint: the statement fails and inserts no row.
unfoldable pub insert_notification :
    InsertNotificationParams → World → Option NotificationRow × World
unfolding key_taken
insert_notification p w = if key_taken p.idempotency_key w.db.notifications then (none, w) else (
  some (new_row p w),
  record w {
    fresh = suc w.fresh;
    db = record w.db { notifications = new_row p w ∷ w.db.notifications };
  },
)

unfoldable pub get_notification_by_id : Uuid → Uuid → World → Option NotificationRow
get_notification_by_id id tenant w =
    find? (λ r. r.id == id && has_tenant tenant r.tenant_id) w.db.notifications

unfoldable pub get_notification_by_idempotency_key : String → Uuid → World → Option NotificationRow
get_notification_by_idempotency_key key tenant w =
    find? (λ r. has_key key r.idempotency_key && has_tenant tenant r.tenant_id) w.db.notifications

abbrev pub status_text : NotificationStatus → String
status_text pending = "pending"
status_text queued = "queued"
status_text processing = "processing"
status_text delivered = "delivered"
status_text failed = "failed"
status_text dropped = "dropped"

-- The WHERE clause that ListNotifications and CountNotifications share.
unfoldable pub listed : Uuid → String → Channel → String → NotificationRow → Bool
listed tenant recipient channel status r =
    has_tenant tenant r.tenant_id
    && (recipient == "" || r.recipient_id == recipient)
    && (channel == "" || r.channel == channel)
    && (status == "" || status_text r.status == status)

unfoldable pub list_notifications :
    Uuid → String → Channel → String → Option ℕ → Option ℕ → World → Option (List NotificationRow)
unfolding listed sort_by
list_notifications tenant recipient channel status limit offset w = offset_by offset limit (
    sort_by (λ a b. leb b.created_at a.created_at)
      (filter (listed tenant recipient channel status) w.db.notifications))

unfoldable pub count_notifications : Uuid → String → Channel → String → World → ℕ
unfolding listed
count_notifications tenant recipient channel status w =
    length (filter (listed tenant recipient channel status) w.db.notifications)

abbrev pub with_status : NotificationStatus → Time → NotificationRow → NotificationRow
with_status s now r = record r { status = s; updated_at = now }

-- UPDATE … WHERE test RETURNING *: `none` when no row was updated.
unfoldable pub update_returning :
    (NotificationRow → Bool) → NotificationStatus → World → Option NotificationRow × World
update_returning test s w = elim (find? test w.db.notifications) [
  | none ↦ (none, w)
  | some r ↦ (
    some (with_status s w.now r),
    record w {
      db = record w.db {
        notifications = update_where test (with_status s w.now) w.db.notifications;
      };
    },
  )
]

unfoldable pub update_notification_status :
    Uuid → NotificationStatus → World → Option NotificationRow × World
unfolding update_returning
update_notification_status id s w = update_returning (λ r. r.id == id) s w

abbrev pub cancellable : NotificationStatus → Bool
cancellable pending = true
cancellable queued = true
cancellable _ = false

unfoldable pub cancel_notification : Uuid → Uuid → World → Option NotificationRow × World
unfolding update_returning
cancel_notification id tenant w =
    update_returning (λ r. r.id == id && (has_tenant tenant r.tenant_id && cancellable r.status))
      dropped w

abbrev pub is_pending : NotificationStatus → Bool
is_pending pending = true
is_pending _ = false

abbrev pub due_at : Time → Option Time → Bool
due_at now none = false
due_at now (some t) = leb t now

abbrev scheduled : NotificationRow → Time
scheduled r = elim r.scheduled_at [ none ↦ 0 | some t ↦ t ]

-- ORDER BY priority ASC, scheduled_at ASC
abbrev pub sooner : NotificationRow → NotificationRow → Bool
sooner a b =
    ltb a.priority b.priority || (a.priority == b.priority && leb (scheduled a) (scheduled b))

unfoldable pub is_due : Time → NotificationRow → Bool
is_due now r = is_pending r.status && due_at now r.scheduled_at

unfoldable pub list_due_scheduled_notifications : Option ℕ → World → Option (List NotificationRow)
unfolding is_due sort_by
list_due_scheduled_notifications limit w =
    limited limit (sort_by sooner (filter (is_due w.now) w.db.notifications))
