-- ===== src/Tests/WorkerExamples.antt =====
-- The theorems on the workers at a concrete world.
use notify_hub.Prelude.{◌+◌, none, some, [], ◌∷◌, ◌≡◌, inl, refl, arith}
use notify_hub.Domain.Errors.{ok, err, wrapped, plain, new_not_found_error}
use notify_hub.Domain.Notification.{nil_uuid}
use notify_hub.Queue.Message.{Message}
use notify_hub.Db.NotificationQueries.{get_notification_by_id}
use notify_hub.Repository.Notifications
use notify_hub.Repository.Preferences
use notify_hub.Service.Preferences.{is_allowed}
use notify_hub.Service.RateLimit.{allow}
use notify_hub.Provider.Registry
use notify_hub.Worker.Pool
use notify_hub.Provider.Errors.{is_permanent}
use notify_hub.Repository.Notifications.{db_notification_to_domain}
use notify_hub.Worker.Retry.{send_with_retry}
use notify_hub.Worker.Retry.Bounds.{Ended, waited, send_with_retry_bounds, send_with_retry_lem}
use notify_hub.Worker.Processor.{
  Outcome, process, mark_step, preference_step, rate_step, deliver, send_step, conclude,
}
use notify_hub.Worker.Processor.{dropped_pref}
use notify_hub.Worker.Processor.Blocked.{process_dropped}
use notify_hub.Worker.Processor.Effects.{Unsent, process-error-Unsent}
use notify_hub.Worker.Processor.Settled.{Settled}
use notify_hub.Worker.Processor.Completion.{process-Settled}
use notify_hub.Worker.Processor.Tenantless.{process-tenantless}
use notify_hub.Worker.Pool.{PoolState, run}
use notify_hub.Worker.Pool.Commits.{run-commits_past}
use notify_hub.Worker.WebhookWorker.Settled.{Final, process_lem}
use notify_hub.Worker.WebhookWorker
use notify_hub.Tests.Data.{calm, outage, flaky, waiting, message, hook, world, deps, muted_world}

process-Settled_example :
    (o : Outcome) × ((process deps calm message world).0 ≡ ok o)
    × Settled 1 o world (process deps calm message world).1
unfolding get_notification_by_id
process-Settled_example = process-Settled deps calm message (λ n. refl) world waiting refl

process-error-Unsent_example : Unsent world (process deps outage message world).1
unfolding process Notifications.get_by_id
process-error-Unsent_example = process-error-Unsent deps outage message world _ refl

abbrev stray : Message
stray = record message { tenant_id = nil_uuid }

process-tenantless_example : process deps calm stray world ≡ (
  err (wrapped "fetch notification" (new_not_found_error "notification not found")),
  record world { calls = 1 },
)
process-tenantless_example = process-tenantless deps calm stray world (λ n. refl) refl (refl, tt)

send_with_retry_bounds_example :
    Ended flaky 2 world
      (send_with_retry flaky 1000 message (db_notification_to_domain waiting) world)
send_with_retry_bounds_example =
    send_with_retry_bounds flaky 1000 message (db_notification_to_domain waiting) world

send_with_retry_lem_example :
    ((send_with_retry flaky 1000 message (db_notification_to_domain waiting) world).0 ≡ none)
    × ((send_with_retry flaky 1000 message (db_notification_to_domain waiting) world).1.sends ≡ 2)
    × ((send_with_retry flaky 1000 message (db_notification_to_domain waiting) world).1.now
        ≡ 100 + waited 1000 1 1)
unfolding is_permanent
send_with_retry_lem_example =
    send_with_retry_lem flaky 1000 message (db_notification_to_domain waiting) 1 world (omega arith)
      (plain "timeout", refl, refl, refl, tt) (inl (inl refl))

abbrev fresh_pool : PoolState
fresh_pool = record { committed = 0; world = world }

-- The first message fails for ever, and the second is committed.
run-commits_past_example :
    (run deps calm 0 (some stray ∷ some message ∷ []) fresh_pool).committed ≡ 2
unfolding process run Notifications.get_by_id Pool.handle mark_step Notifications.update_status
    preference_step is_allowed new_not_found_error rate_step allow deliver send_step Registry.get
    conclude send_with_retry
run-commits_past_example =
    run-commits_past deps calm 0 (some stray ∷ []) message fresh_pool Outcome.delivered refl refl

process_lem_example :
    ((WebhookWorker.process (λ s. "status") calm 1000 hook world).0 ≡ ok tt)
    × Final 8 (WebhookWorker.process (λ s. "status") calm 1000 hook world).1
process_lem_example =
    process_lem (λ s. "status") calm 1000 hook (λ n. refl) (λ n. refl) world
      (λ e. ground (arith, e))

process_dropped_example : (process deps calm message muted_world).1.sent ≡ []
unfolding process Notifications.get_by_id mark_step Notifications.update_status preference_step
    is_allowed Preferences.db_preference_to_domain
process_dropped_example = process_dropped deps calm message muted_world dropped_pref refl (inl refl)
