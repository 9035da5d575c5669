-- ===== src/Service/Scheduler/Tenants.antt =====
-- internal/service/scheduler.go: the envelopes of the scheduler name no tenant.
use notify_hub.Prelude.{ℕ, List, [], ◌∷◌, ◌≡◌, refl, arith, All, Bool-cases, inl, inr, nat_eq}
use notify_hub.Domain.Errors.{Result, ok, err}
use notify_hub.Domain.Notification.{nil_uuid, Notification}
use notify_hub.Queue.Message.{Record, notification, dead_letter, webhook, garbage}
use notify_hub.Queue.Producer.{publish}
use notify_hub.Db.World.{World, Env}
use notify_hub.Repository.Notifications
use notify_hub.Service.Scheduler.{enqueue, enqueue_one, enqueue_all, tick_by, tick}

-- A delivery message without a tenant.
abbrev pub Tenantless : Record → Type 0
Tenantless r = elim r.value [
  | notification m ↦ m.tenant_id ≡ nil_uuid
  | dead_letter m ↦ ⊥
  | webhook m ↦ ⊥
  | garbage ↦ ⊥
]

module _ (max_retries : ℕ) (env : Env) where
  enqueue-Tenantless :
      (n : Notification) (w : World)
      → All Tenantless w.topics
      → All Tenantless (enqueue max_retries env n w).1.topics
  unfolding enqueue publish
  enqueue-Tenantless n w h = elim (Bool-cases (env.faults w.calls)) [
    | inl e ↦ rw e h
    | inr e ↦ rw e (refl, h)
  ]

  enqueue_one-topics :
      (n : Notification) (w : World)
      → (enqueue_one max_retries env n w).topics ≡ (enqueue max_retries env n w).1.topics
  unfolding enqueue_one Notifications.update_status
  enqueue_one-topics n w = ground arith

  enqueue_all-Tenantless :
      (ns : List Notification) (w : World)
      → All Tenantless w.topics
      → All Tenantless (enqueue_all max_retries env ns w).topics
  unfolding enqueue_all
  enqueue_all-Tenantless [] w h = h
  enqueue_all-Tenantless (n ∷ ns) w h =
      enqueue_all-Tenantless ns (enqueue_one max_retries env n w)
        (rw (enqueue_one-topics n w) (enqueue-Tenantless n w h))

  tick_by-Tenantless :
      (r : Result (List Notification)) (w : World)
      → All Tenantless w.topics
      → All Tenantless (tick_by max_retries env r w).topics
  tick_by-Tenantless (err e) w h = h
  tick_by-Tenantless (ok ns) w h = enqueue_all-Tenantless ns w h

  listed-topics :
      (k : ℕ) (w : World) → (Notifications.list_due_scheduled env k w).1.topics ≡ w.topics
  unfolding Notifications.list_due_scheduled
  listed-topics k w = ground arith

  -- Whatever a tick of the scheduler publishes onto empty topics is a delivery message whose
  -- tenant is the nil UUID.
  pub tick-Tenantless :
      (batch_size : ℕ) (w : World)
      → w.topics ≡ []
      → All Tenantless (tick max_retries env batch_size w).topics
  unfolding tick
  tick-Tenantless k w empty =
      let r = Notifications.list_due_scheduled env k w in
      tick_by-Tenantless r.0 r.1 (rw (listed-topics k w, empty) tt)
