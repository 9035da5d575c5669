-- ===== src/Service/Notifications/Sends.antt =====
-- internal/service/notification.go: what a Send leaves in the database and on Kafka.
use notify_hub.Prelude.{
  ℕ, suc, ◌+◌, String, Bool, true, false, none, List, [], ◌∷◌, ◌≡◌, refl, arith, length, Bool-cases,
  inl, inr, ◌==◌, nat_eq, string_eq, beq_refl, update_where, if◌then◌else◌,
}
use Prim.Native.String.{◌++◌}
use notify_hub.Domain.Errors.{Err, Result, ok, err, wrapped, plain}
use notify_hub.Domain.Notification.{
  Uuid, Time, Notification, SendRequest, BulkSendRequest, Recipient, pending, queued,
}
use notify_hub.Db.Models.{NotificationRow}
use notify_hub.Db.World.{World, Env}
use notify_hub.Db.NotificationQueries.{new_row, with_status, key_taken, is_due}
use notify_hub.Queue.Message.{notification, topic_for_channel}
use notify_hub.Queue.Producer.{publish}
use notify_hub.Repository.Notifications
use notify_hub.Repository.Notifications.{db_notification_to_domain, insert_params}
use notify_hub.Service.Notifications.{
  envelope, is_later, single, collect, enqueue, create_and_enqueue, send, send_each, send_bulk,
}

module _ (is_valid : SendRequest → Bool) (max_retries : ℕ) (env : Env) where
  -- The row that a request becomes, and the row after it is queued.
  abbrev pub fresh_row : Uuid → SendRequest → World → NotificationRow
  fresh_row tenant req w = new_row (insert_params tenant req) (record w { calls = suc w.calls })

  abbrev pub queued_row : Uuid → SendRequest → World → NotificationRow
  queued_row tenant req w = with_status queued w.now (fresh_row tenant req w)

  pub later_lem :
      (tenant : Uuid) (req : SendRequest) (w : World) (n : Notification)
      → is_later req.scheduled_at w.now ≡ true
      → (create_and_enqueue is_valid max_retries env tenant req w).0 ≡ ok n
      → (n ≡ db_notification_to_domain (fresh_row tenant req w))
        × ((create_and_enqueue is_valid max_retries env tenant req w).1.topics ≡ w.topics)
        × ((create_and_enqueue is_valid max_retries env tenant req w).1.db.notifications
            ≡ fresh_row tenant req w ∷ w.db.notifications)
  unfolding create_and_enqueue Notifications.create
  later_lem tenant req w n later h = ground (arith, later, h)

  pub now_lem :
      (tenant : Uuid) (req : SendRequest) (w : World) (n : Notification)
      → is_later req.scheduled_at w.now ≡ false
      → (create_and_enqueue is_valid max_retries env tenant req w).0 ≡ ok n
      → (n ≡ db_notification_to_domain (queued_row tenant req w))
        × ((create_and_enqueue is_valid max_retries env tenant req w).1.topics
            ≡ record {
              topic = topic_for_channel req.channel;
              key = req.recipient_id;
              value = notification (
                  envelope max_retries tenant
                    (db_notification_to_domain (fresh_row tenant req w))
                    w.now);
            }
              ∷ w.topics)
        × ((create_and_enqueue is_valid max_retries env tenant req w).1.db.notifications
            ≡ queued_row tenant req w
              ∷ update_where (λ r. r.id == w.fresh) (with_status queued w.now) w.db.notifications)
  unfolding create_and_enqueue Notifications.create enqueue publish Notifications.update_status
  now_lem tenant req w n now h = ground (arith, now, h, beq_refl w.fresh)

  -- The one record that a Send without delay writes, and the status it leaves.
  abbrev pub Sent : Uuid → SendRequest → World → Notification → World → Type 0
  Sent tenant req w n w' =
      (n.status ≡ queued)
      × (w'.topics
          ≡ record {
            topic = topic_for_channel n.channel;
            key = n.recipient_id;
            value =
                notification (envelope max_retries tenant (record n { status = pending }) w.now);
          }
            ∷ w.topics)

  abbrev pub Kept : World → Notification → World → Type 0
  Kept w n w' = (n.status ≡ pending) × (w'.topics ≡ w.topics)

  -- The notification has every field of the request, the priority 0 read as 5.
  abbrev pub Requested : Uuid → SendRequest → Notification → Type 0
  Requested tenant req n =
      (n.tenant_id ≡ tenant)
      × (n.kind ≡ req.kind)
      × (n.channel ≡ req.channel)
      × (n.recipient_id ≡ req.recipient_id)
      × (n.recipient_address ≡ req.recipient_address)
      × (n.template_id ≡ req.template_id)
      × (n.payload ≡ req.payload)
      × (n.priority ≡ (if req.priority == 0 then 5 else req.priority))
      × (n.idempotency_key ≡ req.idempotency_key)
      × (n.scheduled_at ≡ req.scheduled_at)

  -- A createAndEnqueue that succeeds returns the tenant's notification with every field of the
  -- request, where a priority of 0 becomes 5. Unless the request is scheduled for later, it has written exactly one record, to
  -- the topic of the channel and keyed by the recipient, that names the notification and its
  -- tenant at attempt 1, and the notification is queued; a request for later stays pending
  -- and writes no record.
  pub create_and_enqueue-Sent :
      (tenant : Uuid) (req : SendRequest) (w : World) (n : Notification)
      → (create_and_enqueue is_valid max_retries env tenant req w).0 ≡ ok n
      → Requested tenant req n
        × (if is_later req.scheduled_at w.now
            then Kept w n (create_and_enqueue is_valid max_retries env tenant req w).1
            else Sent tenant req w n (create_and_enqueue is_valid max_retries env tenant req w).1)
  create_and_enqueue-Sent tenant req w n h = elim (Bool-cases (is_later req.scheduled_at w.now)) [
    | inl e ↦
        let (same, topics, _) = later_lem tenant req w n e h in
        rw (e, same) ((refl, refl, refl, refl, refl, refl, refl, refl, refl, refl), (refl, topics))
    | inr e ↦
        let (same, topics, _) = now_lem tenant req w n e h in
        rw (e, same) ((refl, refl, refl, refl, refl, refl, refl, refl, refl, refl), (refl, topics))
  ]

  -- A request without a time whose row is stored and whose publish fails: Send's error leaves the
  -- notification pending in the table, no record is written, and ListDueScheduled's test is false
  -- for it at every time. The scheduler never takes it up.
  pub create_and_enqueue-stranded :
      (tenant : Uuid) (req : SendRequest) (w : World) (t : Time)
      → req.scheduled_at ≡ none
      → key_taken req.idempotency_key w.db.notifications ≡ false
      → env.faults w.calls ≡ false
      → env.faults (suc w.calls) ≡ true
      → ((create_and_enqueue is_valid max_retries env tenant req w).0
          ≡ err (
              wrapped "enqueue notification" (
                wrapped
                  ("kafka publish to " ++ topic_for_channel req.channel)
                  (plain "write failed"))))
        × ((create_and_enqueue is_valid max_retries env tenant req w).1.topics ≡ w.topics)
        × ((create_and_enqueue is_valid max_retries env tenant req w).1.db.notifications
            ≡ fresh_row tenant req w ∷ w.db.notifications)
        × (is_due t (fresh_row tenant req w) ≡ false)
  unfolding create_and_enqueue Notifications.create enqueue publish is_due
  create_and_enqueue-stranded tenant req w t at_once free up down = (
    ground (arith, at_once, free, up, down),
    ground (arith, at_once, free, up, down),
    ground (arith, at_once, free, up, down),
    rw at_once refl,
  )

  collect-length :
      (r : Result Notification) (recipient : String) (acc : List Notification × List Err)
      → length (collect is_valid max_retries env r recipient acc).0
          + length (collect is_valid max_retries env r recipient acc).1
        ≡ suc (length acc.0 + length acc.1)
  collect-length (ok n) recipient acc = omega arith
  collect-length (err e) recipient acc = omega arith

  send_each-length :
      (tenant : Uuid) (req : BulkSendRequest) (rs : List Recipient) (w : World)
      → length (send_each is_valid max_retries env tenant req rs w).0.0
          + length (send_each is_valid max_retries env tenant req rs w).0.1
        ≡ length rs
  unfolding send_each
  send_each-length tenant req [] w = omega arith
  send_each-length tenant req (r ∷ rs) w =
      let first = send is_valid max_retries env tenant (single req r) w in
      omega (
        arith,
        send_each-length tenant req rs first.1,
        collect-length first.0 r.recipient_id
            (send_each is_valid max_retries env tenant req rs first.1).0,
      )

  -- SendBulk of a request that its validator accepts reports on every recipient exactly once: the
  -- notifications that it returns and the errors are together as many as the recipients.
  pub send_bulk-length :
      (tenant : Uuid) (req : BulkSendRequest) (w : World)
      → length (send_bulk is_valid max_retries env true tenant req w).0.0
          + length (send_bulk is_valid max_retries env true tenant req w).0.1
        ≡ length req.recipients
  unfolding send_bulk
  send_bulk-length tenant req w = send_each-length tenant req req.recipients w
