-- ===== src/Service/Scheduler.antt =====
-- internal/service/scheduler.go: one tick of the polling loop. The envelope is built as the source
-- builds it, without a tenant: the field keeps its zero value, the nil UUID.
pub mod Tenants
use notify_hub.Prelude.{ℕ, String, List, [], ◌∷◌}
use notify_hub.Domain.Errors.{Result, ok, err}
use notify_hub.Domain.Notification.{Uuid, nil_uuid, Time, Notification, queued}
use notify_hub.Db.World.{World, Env}
use notify_hub.Db.Io.{Io}
use notify_hub.Queue.Message.{Message, notification, topic_for_channel}
use notify_hub.Queue.Producer.{publish}
use notify_hub.Repository.Notifications

abbrev pub envelope : ℕ → Notification → Time → Message
envelope max_retries n now = record {
  notification_id = n.id;
  tenant_id = nil_uuid;
  channel = n.channel;
  recipient_id = n.recipient_id;
  recipient_address = n.recipient_address;
  template_id = n.template_id;
  payload = n.payload;
  priority = n.priority;
  attempt = 1;
  max_attempts = max_retries;
  enqueued_at = now;
}

module _ (max_retries : ℕ) (env : Env) where
  unfoldable pub enqueue : Notification → Io (Unit {0})
  enqueue n w =
      publish env (topic_for_channel n.channel) n.recipient_id
        (notification (envelope max_retries n w.now)) w

  -- The body of the loop: an error is logged, and the next notification is taken.
  unfoldable pub enqueue_one : Notification → World → World
  enqueue_one n w =
      let r = enqueue n w in
      elim r.0 [ err e ↦ r.1 | ok u ↦ (Notifications.update_status env n.id queued r.1).1 ]

  unfoldable pub enqueue_all : List Notification → World → World
  enqueue_all [] w = w
  enqueue_all (n ∷ ns) w = enqueue_all ns (enqueue_one n w)

  abbrev pub tick_by : Result (List Notification) → World → World
  tick_by (err e) w = w
  tick_by (ok ns) w = enqueue_all ns w

  unfoldable pub tick : ℕ → World → World
  tick batch_size w = let r = Notifications.list_due_scheduled env batch_size w in tick_by r.0 r.1
