-- ===== src/Worker/Processor/Completion.antt =====
-- internal/worker/processor.go: Process settles every notification that it finds.
use notify_hub.Prelude.{
  suc, Option, none, some, ◌≡◌, ◌≢◌, refl, arith, find?, find?-update_where, ◌==◌, nat_eq,
}
use notify_hub.Domain.Errors.{Err, Result, ok, err, wrapped, new_not_found_error}
use notify_hub.Domain.Notification.{Uuid, Notification, processing}
use notify_hub.Queue.Message.{Message}
use notify_hub.Db.World.{World, Env}
use notify_hub.Db.Io.{IsHealthy, continue, map_err, on_err}
use notify_hub.Db.NotificationQueries.{get_notification_by_id}
use notify_hub.Repository.Notifications
use notify_hub.Repository.Notifications.{db_notification_to_domain}
use notify_hub.Repository.Notifications.Isolation.{
  get_notification_by_id_lem, get_notification_by_id-known, get_by_id-found, get_by_id-missing,
}
use notify_hub.Db.Models.{NotificationRow}
use notify_hub.Worker.Processor.{ProcessorDeps, Outcome, preference_step, mark_step, process}
use notify_hub.Worker.Processor.Outcomes.{Settles, Settles-after, preference_step_settles}
use notify_hub.Worker.Processor.Settled.{row_status, status_of, Settled}

known_status :
    {id : Uuid} (row_id : Uuid) (w : World)
    → row_id ≡ id
    → find? (λ r. r.id == id) w.db.notifications ≢ none
    → status_of row_id w ≢ none
known_status {id} row_id w e h = rw e (found _ h)
  where
    found : (o : Option NotificationRow) → o ≢ none → row_status o ≢ none
    found none h = absurd (h refl)
    found (some r) h = λ e. ground (arith, e)

module _ (deps : ProcessorDeps) (env : Env) (msg : Message) (up : IsHealthy env) where
  -- Marking as processing succeeds where the notification is known, and writes no log.
  marked : Notification → World → Result Notification × World
  marked n = map_err (wrapped "mark processing") (Notifications.update_status env n.id processing)

  marked_lem :
      (n : Notification) (w : World)
      → status_of n.id w ≢ none
      → ((e : Err) → (marked n w).0 ≢ err e)
        × (status_of n.id (marked n w).1 ≢ none)
        × ((marked n w).1.db.delivery_logs ≡ w.db.delivery_logs)
  unfolding marked Notifications.update_status
  marked_lem n w known =
      let back =
        find?-update_where (λ r. r.id == n.id)
          (λ r. record r { status = processing; updated_at = w.now }) w.db.notifications
          (λ r. refl) in
      (λ e. ground (arith, up w.calls), ground (arith, up w.calls, back), ground arith)

  mark_by_settles :
      (n : Notification) (r : Result Notification) (w : World)
      → ((e : Err) → r ≢ err e)
      → status_of n.id w ≢ none
      → Settles deps env msg up n.id w
          (continue (λ _. preference_step deps env msg n) r w).0
          (continue (λ _. preference_step deps env msg n) r w).1
  mark_by_settles n (err e) w fine known = absurd (fine e refl)
  mark_by_settles n (ok m) w fine known = preference_step_settles deps env msg up n w known

  mark_step_settles :
      (n : Notification) (w : World)
      → status_of n.id w ≢ none
      → Settles deps env msg up n.id w (mark_step deps env msg n w).0 (mark_step deps env msg n w).1
  unfolding mark_step marked
  mark_step_settles n w known =
      let (fine, known', logs) = marked_lem n w known in
      relogged n.id w (marked n w).1 _ _ logs
        (mark_by_settles n (marked n w).0 (marked n w).1 fine known')
    where
      relogged :
          (id : Uuid) (u v w : World) (r : Result Outcome)
          → v.db.delivery_logs ≡ u.db.delivery_logs
          → Settles deps env msg up id v r w
          → Settles deps env msg up id u r w
      relogged id u v w (ok o) e s = record { status = s.status; log = rw (← e) s.log }
      relogged id u v w (err x) e s = s

  outcome_of :
      (id : Uuid) (w w' : World) (r : Result Outcome)
      → Settles deps env msg up id w r w'
      → (o : Outcome) × (r ≡ ok o) × Settled id o w w'
  outcome_of id w w' (ok o) s = (o, refl, s)
  outcome_of id w w' (err e) s = absurd s

  fetched_settles :
      (id : Uuid) (row : NotificationRow) (r : Result Notification × World) (w : World)
      → row.id ≡ id
      → r ≡ (ok (db_notification_to_domain row), record w { calls = suc w.calls })
      → status_of row.id w ≢ none
      → Settles deps env msg up id w
          (continue (mark_step deps env msg) (on_err (wrapped "fetch notification") r.0) r.1).0
          (continue (mark_step deps env msg) (on_err (wrapped "fetch notification") r.0) r.1).1
  fetched_settles id row r w same e known =
      rw (e, ← same)
        (Settles-after deps env msg up row.id _ _ (record { notifications = refl; logs = refl })
          (mark_step_settles (db_notification_to_domain row) (record w { calls = suc w.calls })
            known))

  -- Where no call fails, Process of a message whose notification exists for its tenant returns
  -- an outcome and no error. Afterwards the database holds the final status of that outcome
  -- for the notification, and exactly one more delivery log, about it and of that outcome.
  pub process-Settled :
      (w : World) (row : NotificationRow)
      → get_notification_by_id msg.notification_id msg.tenant_id w ≡ some row
      → (o : Outcome) × ((process deps env msg w).0 ≡ ok o)
        × Settled msg.notification_id o w (process deps env msg w).1
  unfolding process
  process-Settled w row found =
      let (same, _) = get_notification_by_id_lem msg.notification_id msg.tenant_id w row found in
      let known = get_notification_by_id-known msg.notification_id msg.tenant_id w row found in
      outcome_of msg.notification_id w _ _ (
        fetched_settles msg.notification_id row _ w same (get_by_id-found env up _ _ w row found)
          (known_status _ w same known))

  -- Where no call fails, Process of a message whose notification does not exist for its tenant
  -- returns the error of the fetch, and touches nothing but the database.
  pub process-missing :
      (w : World)
      → get_notification_by_id msg.notification_id msg.tenant_id w ≡ none
      → process deps env msg w ≡ (
        err (wrapped "fetch notification" (new_not_found_error "notification not found")),
        record w { calls = suc w.calls },
      )
  unfolding process
  process-missing w missing =
      rw (get_by_id-missing env up msg.notification_id msg.tenant_id w missing) refl
