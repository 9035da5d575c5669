-- ===== src/Worker/Processor/Settled.antt =====
-- With the infrastructure up, Process settles a notification: the final status in the database and
-- the delivery log agree with the outcome.
use notify_hub.Prelude.{
  suc, String, Option, none, some, List, ◌∷◌, ◌≡◌, ◌≢◌, refl, ◌∙◌, arith, find?, find?-update_where,
  ◌==◌, nat_eq, if◌then◌else◌,
}
use notify_hub.Domain.Errors.{Err, error_text}
use notify_hub.Provider.Errors.{is_permanent}
use notify_hub.Domain.Notification.{Uuid, Time, Notification, NotificationStatus}
use notify_hub.Domain.Delivery.{DeliveryStatus, DlqReason, permanent_failure, retries_exhausted}
use notify_hub.Queue.Message.{Message}
use notify_hub.Db.Models.{NotificationRow, DeliveryLogRow}
use notify_hub.Db.World.{World, Env}
use notify_hub.Db.Io.{IsHealthy}
use notify_hub.Repository.Notifications
use notify_hub.Repository.Deliveries
use notify_hub.Db.DeliveryQueries.{log_row}
use notify_hub.Worker.Processor.{
  ProcessorDeps, Outcome, dropped_pref, dropped_ratelimit, log_entry, log_delivery, set_status,
  drop, fail_delivery, finish_delivery, conclude,
}
use notify_hub.Worker.Processor.Frames.{
  SameStore, SameStore-refl, dispatch_webhook-SameStore, dead_letter-SameStore,
}

abbrev pub row_status : Option NotificationRow → Option NotificationStatus
row_status none = none
row_status (some r) = some r.status

-- The status that the database holds for a notification.
abbrev pub status_of : Uuid → World → Option NotificationStatus
status_of id w = row_status (find? (λ r. r.id == id) w.db.notifications)

-- The final status of an outcome, and the status of its delivery log.
abbrev pub final_status : Outcome → NotificationStatus
final_status Outcome.delivered = NotificationStatus.delivered
final_status Outcome.failed = NotificationStatus.failed
final_status dropped_pref = NotificationStatus.dropped
final_status dropped_ratelimit = NotificationStatus.dropped

abbrev pub log_status : Outcome → DeliveryStatus
log_status Outcome.delivered = DeliveryStatus.success
log_status _ = DeliveryStatus.failed

-- One log entry about the notification on top of the old ones, of the status given.
abbrev pub Logged : Uuid → DeliveryStatus → List DeliveryLogRow → List DeliveryLogRow → Type 0
Logged id s old new =
    (entry : DeliveryLogRow) × (new ≡ entry ∷ old)
    × (entry.notification_id ≡ id)
    × (entry.status ≡ s)

pub record Settled (id : Uuid) (o : Outcome) (w w' : World) : Type 0 where
  pub status : status_of id w' ≡ some (final_status o)
  pub log : Logged id (log_status o) w.db.delivery_logs w'.db.delivery_logs

module _ (deps : ProcessorDeps) (env : Env) (msg : Message) (up : IsHealthy env) where
  -- The update of a status is read back.
  set_status_lem :
      (id : Uuid) (s : NotificationStatus) (w : World)
      → status_of id w ≢ none
      → status_of id (set_status deps env msg id s w) ≡ some s
  unfolding set_status Notifications.update_status
  set_status_lem id s w h = ground (
    arith,
    up w.calls,
    find?-update_where (λ r. r.id == id) (λ r. record r { status = s; updated_at = w.now })
        w.db.notifications (λ r. refl),
  )

  set_status-logs :
      (id : Uuid) (s : NotificationStatus) (w : World)
      → (set_status deps env msg id s w).db.delivery_logs ≡ w.db.delivery_logs
  unfolding set_status Notifications.update_status
  set_status-logs id s w = ground arith

  log_delivery_lem :
      (n : Notification) (s : DeliveryStatus) (e : Option String) (d : Option Time) (w : World)
      → Logged n.id s w.db.delivery_logs (log_delivery deps env msg n s e d w).db.delivery_logs
  unfolding log_delivery Deliveries.create
  log_delivery_lem n s e d w = (
    log_row (Deliveries.insert_params (log_entry deps msg n s e d w.now))
        (record w { calls = suc w.calls }),
    ground (arith, up w.calls),
    refl,
    refl,
  )

  log_delivery-notifications :
      (n : Notification) (s : DeliveryStatus) (e : Option String) (d : Option Time) (w : World)
      → (log_delivery deps env msg n s e d w).db.notifications ≡ w.db.notifications
  unfolding log_delivery Deliveries.create
  log_delivery-notifications n s e d w = ground arith

  -- A log entry, calls that leave the store alone, a status, and again such calls.
  settle :
      (n : Notification) (s : DeliveryStatus) (t : NotificationStatus) (e : Option String)
      (d : Option Time) (w w2 w4 : World)
      → status_of n.id w ≢ none
      → SameStore (log_delivery deps env msg n s e d w) w2
      → SameStore (set_status deps env msg n.id t w2) w4
      → (status_of n.id w4 ≡ some t) × Logged n.id s w.db.delivery_logs w4.db.delivery_logs
  settle n s t e d w w2 w4 known p q =
      let (entry, l, i, st) = log_delivery_lem n s e d w in
      let same = p.notifications ∙ log_delivery-notifications n s e d w in
      let read = set_status_lem n.id t w2 (rw same known) in
      (rw q.notifications read, (entry, q.logs ∙ set_status-logs n.id t w2 ∙ p.logs ∙ l, i, st))

  pub drop_settled :
      (n : Notification) (reason : String) (w : World)
      → status_of n.id w ≢ none
      → (status_of n.id (drop deps env msg n reason w) ≡ some NotificationStatus.dropped)
        × Logged n.id DeliveryStatus.failed w.db.delivery_logs
            (drop deps env msg n reason w).db.delivery_logs
  unfolding drop
  drop_settled n reason w known =
      settle n DeliveryStatus.failed NotificationStatus.dropped (some reason) none w _ _ known
        (SameStore-refl _) (dispatch_webhook-SameStore deps env msg n _ _)

  pub fail_delivery-Settled :
      (n : Notification) (reason : DlqReason) (e : String) (w : World)
      → status_of n.id w ≢ none
      → Settled n.id Outcome.failed w (fail_delivery deps env msg n reason e w)
  unfolding fail_delivery
  fail_delivery-Settled n reason e w known =
      let r =
        settle n DeliveryStatus.failed NotificationStatus.failed (some e) none w _ _ known
          (dead_letter-SameStore deps env msg reason e _)
          (dispatch_webhook-SameStore deps env msg n _ _) in
      record { status = r.0; log = r.1 }

  finish_delivery-Settled :
      (n : Notification) (w : World)
      → status_of n.id w ≢ none
      → Settled n.id Outcome.delivered w (finish_delivery deps env msg n w)
  unfolding finish_delivery
  finish_delivery-Settled n w known =
      let r =
        settle n DeliveryStatus.success NotificationStatus.delivered none (some w.now) w _ _ known
          (SameStore-refl _) (dispatch_webhook-SameStore deps env msg n _ _) in
      record { status = r.0; log = r.1 }

  -- A settled notification was known, and the steps before leave the store alone.
  pub Settled-after :
      {id : Uuid} {o : Outcome} {u v w : World}
      → SameStore u v
      → Settled id o v w
      → Settled id o u w
  Settled-after {id} {o} {u} {v} {w} p s = record { status = s.status; log = rw (← p.logs) s.log }

  pub conclude-Settled :
      (n : Notification) (answer : Option Err) (w : World)
      → status_of n.id w ≢ none
      → Settled n.id
          (conclude deps env msg n (answer, w)).0
          w
          (conclude deps env msg n (answer, w)).1
  unfolding conclude
  conclude-Settled n none w known = finish_delivery-Settled n w known
  conclude-Settled n (some e) w known =
      fail_delivery-Settled n (if is_permanent e then permanent_failure else retries_exhausted)
        (error_text e) w known
