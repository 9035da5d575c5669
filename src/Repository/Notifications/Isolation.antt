-- ===== src/Repository/Notifications/Isolation.antt =====
-- internal/repository/notification.go: what GetByID and Cancel return, and whom they serve.
use notify_hub.Prelude.{
  suc, Bool, true, false, Option, none, some, ◌≡◌, ◌≢◌, refl, arith, find?, find?-holds,
  find?-weaken, ◌==◌, nat_eq, nat_beq_iff, ◌&&◌,
}
use notify_hub.Domain.Errors.{ok, err, new_not_found_error}
use notify_hub.Domain.Notification.{Uuid}
use notify_hub.Db.Models.{NotificationRow}
use notify_hub.Db.World.{World, Env}
use notify_hub.Db.Io.{IsHealthy}
use notify_hub.Db.NotificationQueries.{has_tenant, get_notification_by_id}
use notify_hub.Repository.Notifications.{db_notification_to_domain, get_by_id}

pub &&-left : (a b : Bool) → a && b ≡ true → a ≡ true
&&-left true b h = refl
&&-left false b h = h

pub &&-right : (a b : Bool) → a && b ≡ true → b ≡ true
&&-right true b h = h
&&-right false b h = absurd (ground (arith, h))

pub has_tenant_lem : (t : Uuid) (o : Option Uuid) → has_tenant t o ≡ true → o ≡ some t
has_tenant_lem t none h = absurd (ground (arith, h))
has_tenant_lem t (some u) h = ground (arith, h)

-- The row that the query finds has the id and the tenant that were asked for.
pub get_notification_by_id_lem :
    (id tenant : Uuid) (w : World) (r : NotificationRow)
    → get_notification_by_id id tenant w ≡ some r
    → (r.id ≡ id) × (r.tenant_id ≡ some tenant)
unfolding get_notification_by_id
get_notification_by_id_lem id tenant w r h =
    let holds =
      find?-holds (λ r. r.id == id && has_tenant tenant r.tenant_id) w.db.notifications r h in
    (
      (nat_beq_iff r.id id).0 (&&-left (r.id == id) _ holds),
      has_tenant_lem tenant r.tenant_id (&&-right (r.id == id) _ holds),
    )

-- The notification is then known by its id alone.
pub get_notification_by_id-known :
    (id tenant : Uuid) (w : World) (r : NotificationRow)
    → get_notification_by_id id tenant w ≡ some r
    → find? (λ r. r.id == id) w.db.notifications ≢ none
unfolding get_notification_by_id
get_notification_by_id-known id tenant w r h =
    find?-weaken _ _ w.db.notifications r (λ y e. &&-left (y.id == id) _ e) h

module _ (env : Env) (up : IsHealthy env) where
  pub get_by_id-found :
      (id tenant : Uuid) (w : World) (r : NotificationRow)
      → get_notification_by_id id tenant w ≡ some r
      → get_by_id env tenant id w
        ≡ (ok (db_notification_to_domain r), record w { calls = suc w.calls })
  unfolding get_by_id get_notification_by_id
  get_by_id-found id tenant w r h = rw (up w.calls, h) refl

  pub get_by_id-missing :
      (id tenant : Uuid) (w : World)
      → get_notification_by_id id tenant w ≡ none
      → get_by_id env tenant id w
        ≡ (err (new_not_found_error "notification not found"), record w { calls = suc w.calls })
  unfolding get_by_id get_notification_by_id
  get_by_id-missing id tenant w h = rw (up w.calls, h) refl
