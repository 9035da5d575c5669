-- ===== src/Service/Notifications.antt =====
-- internal/service/notification.go. `is_valid` is the validator's verdict on the request's struct
-- tags, a parameter; spans and metrics are left out.
pub mod Sends
pub mod Idempotence
use notify_hub.Prelude.{
  ℕ, String, Bool, true, false, Option, none, some, List, [], ◌∷◌, ltb, ◌==◌, string_eq,
  if◌then◌else◌,
}
use Prim.Native.String.{◌++◌}
use notify_hub.Domain.Errors.{Err, Result, ok, err, wrapped, new_validation_error}
use notify_hub.Domain.Json.{Payload, put}
use notify_hub.Domain.Notification.{
  Uuid, Time, Channel, Notification, SendRequest, BulkSendRequest, Recipient, queued,
}
use notify_hub.Db.World.{World, Env}
use notify_hub.Db.Io.{Io, pure, fail, continue, ◌>>=◌, ◌>>◌, map_err}
use notify_hub.Queue.Message.{Message, notification, topic_for_channel}
use notify_hub.Queue.Producer.{publish}
use notify_hub.Repository.Notifications

-- The envelope of `enqueue`.
abbrev pub envelope : ℕ → Uuid → Notification → Time → Message
envelope max_retries tenant n now = record {
  notification_id = n.id;
  tenant_id = tenant;
  channel = n.channel;
  recipient_id = n.recipient_id;
  recipient_address = n.recipient_address;
  template_id = n.template_id;
  payload = n.payload;
  priority = n.priority;
  attempt = 1;
  max_attempts = max_retries;
  enqueued_at = now;
}

-- req.ScheduledAt != nil && req.ScheduledAt.After(time.Now())
abbrev pub is_later : Option Time → Time → Bool
is_later none now = false
is_later (some t) now = ltb now t

-- maps.Copy: the second map's entries over the first's.
unfoldable pub copy : Payload → Payload → Payload
copy dst [] = dst
copy dst ((k, v) ∷ src) = copy (put k v dst) src

abbrev pub single : BulkSendRequest → Recipient → SendRequest
single req r = record {
  kind = req.kind;
  channel = req.channel;
  recipient_id = r.recipient_id;
  recipient_address = r.recipient_address;
  template_id = req.template_id;
  payload = copy (copy [] req.payload) r.payload;
  priority = req.priority;
  idempotency_key = none;
  scheduled_at = none;
}

module _ (is_valid : SendRequest → Bool) (max_retries : ℕ) (env : Env) where
  unfoldable pub enqueue : Uuid → Notification → Io (Unit {0})
  enqueue tenant n w =
      publish env (topic_for_channel n.channel) n.recipient_id
        (notification (envelope max_retries tenant n w.now)) w

  -- Persist, publish unless scheduled for later, and mark as queued.
  unfoldable pub create_and_enqueue : Uuid → SendRequest → Io Notification
  create_and_enqueue tenant req = do
    n ← Notifications.create env tenant req
    λ w.
        if is_later req.scheduled_at w.now
        then (ok n, w)
        else (map_err (wrapped "enqueue notification") (enqueue tenant n)
              >> Notifications.update_status env n.id queued)
            w

  abbrev or_create : Uuid → SendRequest → Option Notification → Io Notification
  or_create tenant req none = create_and_enqueue tenant req
  or_create tenant req (some existing) = pure existing

  -- A key is looked up unless it is absent or empty.
  unfoldable pub send_valid : Uuid → SendRequest → Io Notification
  send_valid tenant req = elim req.idempotency_key [
    | none ↦ create_and_enqueue tenant req
    | some key ↦
        if key == ""
        then create_and_enqueue tenant req
        else (Notifications.get_by_idempotency_key env tenant key >>= or_create tenant req)
  ]

  -- Send
  unfoldable pub send : Uuid → SendRequest → Io Notification
  send tenant req w =
      if is_valid req
      then send_valid tenant req w
      else (err (new_validation_error "validation failed"), w)

  abbrev pub collect :
      Result Notification → String → List Notification × List Err → List Notification × List Err
  collect (ok n) recipient (sent, errs) = (n ∷ sent, errs)
  collect (err e) recipient (sent, errs) = (sent, wrapped ("recipient " ++ recipient) e ∷ errs)

  -- The loop of SendBulk over the recipients: results and errors in order.
  unfoldable pub send_each :
      Uuid → BulkSendRequest → List Recipient → World → (List Notification × List Err) × World
  send_each tenant req [] w = (([], []), w)
  send_each tenant req (r ∷ rs) w =
      let first = send tenant (single req r) w in
      let rest = send_each tenant req rs first.1 in (collect first.0 r.recipient_id rest.0, rest.1)

  -- SendBulk
  unfoldable pub send_bulk :
      Bool → Uuid → BulkSendRequest → World → (List Notification × List Err) × World
  send_bulk valid tenant req w =
      if valid
      then send_each tenant req req.recipients w
      else (([], new_validation_error "validation failed" ∷ []), w)
