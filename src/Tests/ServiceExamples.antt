-- ===== src/Tests/ServiceExamples.antt =====
-- The theorems on the services and providers at a concrete world.
use notify_hub.Prelude.{
  ◌*◌, ◌+◌, suc, ◌<◌, true, false, none, some, [], ◌∷◌, ◌≡◌, ◌↔◌, refl, arith, All, nat_eq,
  string_eq,
}
use Prim.Native.String.{◌++◌}
use notify_hub.Domain.Errors.{ok, err, wrapped, plain}
use notify_hub.Domain.Notification.{Notification}
use notify_hub.Queue.Message.{topic_for_channel}
use notify_hub.Db.World.{World}
use notify_hub.Db.NotificationQueries.{is_due, key_taken}
use notify_hub.Queue.Producer.{publish}
use notify_hub.Repository.Notifications
use notify_hub.Repository.Notifications.{db_notification_to_domain}
use notify_hub.Repository.ClockText.{
  format_clock, to_null_time_from_time_str, from_null_time_to_time_str,
}
use notify_hub.Repository.ClockText.RoundTrip.{to_null_time-from_null_time}
use notify_hub.Service.QuietHours.{clock, in_quiet_hours}
use notify_hub.Service.QuietHours.Circular.{day, ahead, utc-IsRegular, in_quiet_hours-circular}
use notify_hub.Service.RateLimit.{allow_key, record_attempt}
use notify_hub.Service.RateLimit.Window.{allow_key-window, record_attempt-same_instant}
use notify_hub.Service.Notifications.{enqueue, create_and_enqueue, send_valid, send}
use notify_hub.Service.Notifications.Sends.{
  Requested, fresh_row, queued_row, Sent, create_and_enqueue-Sent, create_and_enqueue-stranded,
}
use notify_hub.Service.Notifications.Idempotence.{send-again}
use notify_hub.Service.Scheduler.{tick}
use notify_hub.Service.Scheduler.Tenants.{Tenantless, tick-Tenantless}
use notify_hub.Service.Webhooks.{dispatch}
use notify_hub.Service.Webhooks.Deliveries.{Backed, dispatch-Backed}
use notify_hub.Tests.Data.{calm, kafka_down, waiting, world, printer, request, always}

abbrev booked : Notification
booked = db_notification_to_domain (queued_row always 3 calm 9 request (record world { calls = 1 }))

-- The world after the first Send, an hour later.
abbrev later : World
later = record (send always 3 calm 9 request world).1 { now = 3600000000100 }

send-again_example :
    send always 3 calm 9 request later ≡ (ok booked, record later { calls = suc later.calls })
unfolding send send_valid Notifications.get_by_idempotency_key create_and_enqueue
    Notifications.create enqueue publish Notifications.update_status
send-again_example =
    send-again always 3 calm 9 request "order-8" refl refl refl world later booked refl refl refl

abbrev first_booked : Notification
first_booked = db_notification_to_domain (queued_row always 3 calm 9 request world)

create_and_enqueue-Sent_example :
    Requested always 3 calm 9 request first_booked
    × Sent always 3 calm 9 request world first_booked
        (create_and_enqueue always 3 calm 9 request world).1
unfolding create_and_enqueue Notifications.create enqueue publish Notifications.update_status
create_and_enqueue-Sent_example =
    create_and_enqueue-Sent always 3 calm 9 request world first_booked refl

create_and_enqueue-stranded_example :
    ((create_and_enqueue always 3 kafka_down 9 request world).0
      ≡ err (
          wrapped "enqueue notification"
            (wrapped ("kafka publish to " ++ topic_for_channel "email") (plain "write failed"))))
    × ((create_and_enqueue always 3 kafka_down 9 request world).1.topics ≡ [])
    × ((create_and_enqueue always 3 kafka_down 9 request world).1.db.notifications
        ≡ fresh_row always 3 kafka_down 9 request world ∷ waiting ∷ [])
    × (is_due 999 (fresh_row always 3 kafka_down 9 request world) ≡ false)
unfolding key_taken
create_and_enqueue-stranded_example =
    create_and_enqueue-stranded always 3 kafka_down 9 request world 999 refl refl refl refl

tick-Tenantless_example : All Tenantless (tick 3 calm 10 world).topics
tick-Tenantless_example = tick-Tenantless 3 calm 10 world refl

dispatch-Backed_example :
    Backed
      (dispatch printer 3 calm (db_notification_to_domain waiting) "notification.delivered" world).1
dispatch-Backed_example =
    dispatch-Backed printer 3 calm (db_notification_to_domain waiting) "notification.delivered"
      world tt

-- Half past midnight, on the third day.
in_quiet_hours-circular_example :
    (in_quiet_hours
        (λ name. none)
        (format_clock 22 0)
        (format_clock 7 0)
        "UTC"
        (2 * day + clock 0 30)
      ≡ true)
    ↔ (ahead (clock 22 0) (clock 0 30) < ahead (clock 22 0) (clock 7 0))
in_quiet_hours-circular_example =
    in_quiet_hours-circular (λ name. none) 22 0 7 0 "UTC" (2 * day) (clock 0 30) (omega arith)
      (omega arith) (omega arith) (omega arith) (omega arith)
      (utc-IsRegular 2 (clock 0 30) (omega arith))

to_null_time-from_null_time_example :
    to_null_time_from_time_str (from_null_time_to_time_str (some 1320)) ≡ some 1320
to_null_time-from_null_time_example = to_null_time-from_null_time 1320 (omega arith)

allow_key-window_example :
    ((allow_key (λ t. t) calm "k" 60 5 world).0 ≡ ok true)
    × ((allow_key (λ t. t) calm "k" 60 5 world).1.sorted_sets "k" ≡ 100 ∷ [])
unfolding record_attempt
allow_key-window_example =
    allow_key-window (λ t. t) 60 (λ s t h. h) calm "k" 5 world [] refl refl (tt, tt)

record_attempt-same_instant_example :
    (record_attempt (λ t. t) 60 100 (record_attempt (λ t. t) 60 100 []).0).0
    ≡ (record_attempt (λ t. t) 60 100 []).0
record_attempt-same_instant_example = record_attempt-same_instant (λ t. t) 60 100 [] (omega arith)
