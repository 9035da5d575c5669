-- ===== src/Service/Notifications/Idempotence.antt =====
-- internal/service/notification.go: a Send with an idempotency key, repeated.
use notify_hub.Prelude.{
  ℕ, suc, String, Bool, true, false, none, some, ◌≡◌, ◌≢◌, refl, arith, Bool-cases, Option-cases,
  inl, inr, ◌==◌, nat_eq, string_eq, beq_refl,
}
use notify_hub.Domain.Errors.{ok}
use notify_hub.Domain.Notification.{Uuid, Notification, SendRequest}
use notify_hub.Db.Models.{NotificationRow}
use notify_hub.Db.World.{World, Env}
use notify_hub.Db.NotificationQueries.{get_notification_by_idempotency_key}
use notify_hub.Repository.Notifications
use notify_hub.Repository.Notifications.{db_notification_to_domain}
use notify_hub.Service.Notifications.{create_and_enqueue, is_later, send_valid, send}
use notify_hub.Service.Notifications.Sends.{fresh_row, queued_row, later_lem, now_lem}

-- The table holds the notification under the key, and the lookup finds it.
abbrev pub Stored : Uuid → String → Notification → World → Type 0
Stored tenant key n w =
    (r : NotificationRow) × (get_notification_by_idempotency_key key tenant w ≡ some r)
    × (n ≡ db_notification_to_domain r)

module _ (is_valid : SendRequest → Bool) (max_retries : ℕ) (env : Env) (tenant : Uuid)
    (req : SendRequest) (key : String) (keyed : req.idempotency_key ≡ some key) where
  create_and_enqueue-Stored :
      (w : World) (n : Notification)
      → (create_and_enqueue is_valid max_retries env tenant req w).0 ≡ ok n
      → Stored tenant key n (create_and_enqueue is_valid max_retries env tenant req w).1
  unfolding get_notification_by_idempotency_key
  create_and_enqueue-Stored w n h = elim (Bool-cases (is_later req.scheduled_at w.now)) [
    | inl e ↦
        let (same, _, rows) = later_lem is_valid max_retries env tenant req w n e h in
        (
          fresh_row is_valid max_retries env tenant req w,
          rw (rows, keyed, beq_refl key, beq_refl tenant) refl,
          same,
        )
    | inr e ↦
        let (same, _, rows) = now_lem is_valid max_retries env tenant req w n e h in
        (
          queued_row is_valid max_retries env tenant req w,
          rw (rows, keyed, beq_refl key, beq_refl tenant) refl,
          same,
        )
  ]

  module _ (valid : is_valid req ≡ true) (present : (key == "") ≡ false) where
    send-known :
        (w : World) (r : NotificationRow)
        → env.faults w.calls ≡ false
        → get_notification_by_idempotency_key key tenant w ≡ some r
        → send is_valid max_retries env tenant req w
          ≡ (ok (db_notification_to_domain r), record w { calls = suc w.calls })
    unfolding send send_valid Notifications.get_by_idempotency_key
        get_notification_by_idempotency_key
    send-known w r up found = rw (valid, keyed, present, up, found) refl

    send-unknown :
        (w : World)
        → env.faults w.calls ≡ false
        → get_notification_by_idempotency_key key tenant w ≡ none
        → send is_valid max_retries env tenant req w
          ≡ create_and_enqueue is_valid max_retries env tenant req
              (record w { calls = suc w.calls })
    unfolding send send_valid Notifications.get_by_idempotency_key
        get_notification_by_idempotency_key
    send-unknown w up missing = rw (valid, keyed, present, up, missing) refl

    send-unreachable :
        (w : World) (n : Notification)
        → env.faults w.calls ≡ true
        → (send is_valid max_retries env tenant req w).0 ≢ ok n
    unfolding send send_valid Notifications.get_by_idempotency_key
    send-unreachable w n down = rw (valid, keyed, present, down) (λ h. ground (arith, h))

    send-Stored :
        (w : World) (n : Notification)
        → (send is_valid max_retries env tenant req w).0 ≡ ok n
        → Stored tenant key n (send is_valid max_retries env tenant req w).1
    unfolding get_notification_by_idempotency_key
    send-Stored w n h = elim (Bool-cases (env.faults w.calls)) [
      | inl down ↦ absurd (send-unreachable w n down h)
      | inr up ↦ elim (Option-cases (get_notification_by_idempotency_key key tenant w)) [
        | inl missing ↦
            let same = send-unknown w up missing in
            rw same (create_and_enqueue-Stored (record w { calls = suc w.calls }) n (rw same at h))
        | inr (r, found) ↦
            let same = send-known w r up found in rw same (r, found, ground (arith, rw same at h))
      ]
    ]

    -- A valid request with a non-empty key that was sent with success, sent again for the same
    -- tenant at any later moment at which the notifications table is as the first Send left it
    -- and the lookup does not fail: Send returns the very same notification. It inserts no row,
    -- publishes no message and changes nothing else but the number of calls made.
    pub send-again :
        (w v : World) (n : Notification)
        → (send is_valid max_retries env tenant req w).0 ≡ ok n
        → v.db.notifications ≡ (send is_valid max_retries env tenant req w).1.db.notifications
        → env.faults v.calls ≡ false
        → send is_valid max_retries env tenant req v ≡ (ok n, record v { calls = suc v.calls })
    unfolding get_notification_by_idempotency_key
    send-again w v n h same up =
        let (r, found, n_r) = send-Stored w n h in rw n_r (send-known v r up (rw same found))
