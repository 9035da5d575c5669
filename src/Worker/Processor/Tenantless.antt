-- ===== src/Worker/Processor/Tenantless.antt =====
-- internal/worker/processor.go: Process of a message that names no tenant.
use notify_hub.Prelude.{
  suc, false, ◌≡◌, All, All-impl, find?-none, ◌&&◌, Bool, true, refl, ◌==◌, nat_eq, none,
}
use notify_hub.Domain.Errors.{err, wrapped, new_not_found_error}
use notify_hub.Domain.Notification.{nil_uuid}
use notify_hub.Queue.Message.{Message}
use notify_hub.Db.World.{World, Env}
use notify_hub.Db.Io.{IsHealthy}
use notify_hub.Db.Models.{NotificationRow}
use notify_hub.Db.NotificationQueries.{has_tenant, get_notification_by_id}
use notify_hub.Worker.Processor.{ProcessorDeps, process}
use notify_hub.Worker.Processor.Completion.{process-missing}

&&-false : (a b : Bool) → b ≡ false → a && b ≡ false
&&-false true b h = h
&&-false false b h = refl

-- Every notification belongs to a tenant other than the nil UUID.
abbrev pub AllOwned : World → Type 0
AllOwned w =
    All (λ (r : NotificationRow). has_tenant nil_uuid r.tenant_id ≡ false) w.db.notifications

nil-missing :
    (msg : Message) (w : World)
    → msg.tenant_id ≡ nil_uuid
    → AllOwned w
    → get_notification_by_id msg.notification_id msg.tenant_id w ≡ none
unfolding get_notification_by_id
nil-missing msg w nil owned = rw nil (
    find?-none _ w.db.notifications (
      All-impl (λ (r : NotificationRow). has_tenant nil_uuid r.tenant_id ≡ false) _
        w.db.notifications
        (λ r. &&-false (r.id == msg.notification_id) (has_tenant nil_uuid r.tenant_id)) owned))

-- A message with the nil tenant, which is all that the scheduler publishes, is never delivered:
-- where no call fails and every notification has a tenant, Process returns the not-found error,
-- so that the offset is not committed, and the database, the topics and the providers are as
-- they were.
pub process-tenantless :
    (deps : ProcessorDeps) (env : Env) (msg : Message) (w : World)
    → IsHealthy env
    → msg.tenant_id ≡ nil_uuid
    → AllOwned w
    → process deps env msg w ≡ (
      err (wrapped "fetch notification" (new_not_found_error "notification not found")),
      record w { calls = suc w.calls },
    )
process-tenantless deps env msg w up nil owned =
    process-missing deps env msg up w (nil-missing msg w nil owned)
