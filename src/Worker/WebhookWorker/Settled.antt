-- ===== src/Worker/WebhookWorker/Settled.antt =====
-- internal/worker/webhook_worker.go: process ends, and the delivery row says how.
use notify_hub.Prelude.{
  ℕ, zero, suc, ◌+◌, ◌-◌, ◌<◌, String, false, Option, none, some, ◌≡◌, ◌≢◌, ◌⊎◌, inl, inr, refl,
  arith, find?, find?-update_where, Bool-cases, ◌==◌, nat_eq, leb,
}
use notify_hub.Domain.Errors.{Err, Result, ok}
use notify_hub.Domain.Notification.{Uuid}
use notify_hub.Domain.Webhook.{WebhookDelivery, WebhookDeliveryStatus}
use notify_hub.Queue.Message.{WebhookMessage}
use notify_hub.Db.Models.{WebhookDeliveryRow}
use notify_hub.Db.World.{World, Env}
use notify_hub.Db.Io.{IsHealthy}
use notify_hub.Db.WebhookQueries.{settle}
use notify_hub.Repository.Webhooks
use notify_hub.Worker.Retry.{backoff, sleep}
use notify_hub.Worker.WebhookWorker.{
  StatusText, accepted, post, update, mark_delivered, mark_failed, send_error, attempts, process,
}

abbrev pub row_status : Option WebhookDeliveryRow → Option WebhookDeliveryStatus
row_status none = none
row_status (some r) = some r.status

-- The status of a delivery in the database.
abbrev pub status_of : Uuid → World → Option WebhookDeliveryStatus
status_of id w = row_status (find? (λ r. r.id == id) w.db.webhook_deliveries)

-- The delivery is settled one way or the other.
abbrev pub Final : Uuid → World → Type 0
Final id w =
    (status_of id w ≡ some WebhookDeliveryStatus.delivered)
    ⊎ (status_of id w ≡ some WebhookDeliveryStatus.failed)

module _ (text : StatusText) (env : Env) (retry_delay : ℕ) (msg : WebhookMessage)
    (up : IsHealthy env) where
  update_lem :
      (what : String) (d : WebhookDelivery) (w : World)
      → status_of d.id w ≢ none
      → ((update text env retry_delay msg what d w).0 ≡ ok tt)
        × (status_of d.id (update text env retry_delay msg what d w).1 ≡ some d.status)
  unfolding update Webhooks.update_delivery
  update_lem what d w known =
      let back =
        find?-update_where (λ r. r.id == d.id) (settle (Webhooks.update_params d) w.now)
          w.db.webhook_deliveries (λ r. refl) in
      (ground (arith, up w.calls, known), ground (arith, up w.calls, known, back))

  -- A run that ends without an error in a settled delivery.
  abbrev Settles : Result (Unit {0}) × World → Type 0
  Settles r = (r.0 ≡ ok tt) × Final msg.delivery_id r.1

  delivered :
      (attempt status : ℕ) (w : World)
      → status_of msg.delivery_id w ≢ none
      → Settles (mark_delivered text env retry_delay msg attempt status w)
  unfolding mark_delivered
  delivered attempt status w known = let (a, b) = update_lem _ _ w known in (a, inl b)

  failed :
      (status : ℕ) (e : Err) (w : World)
      → status_of msg.delivery_id w ≢ none
      → Settles (mark_failed text env retry_delay msg status e w)
  unfolding mark_failed
  failed status e w known = let (a, b) = update_lem _ _ w known in (a, inr b)

  module _ (patient : (n : ℕ) → env.done n ≡ false) where
    attempts_lem :
        (fuel attempt : ℕ) (w : World)
        → msg.max_attempts < attempt + fuel
        → 0 < fuel
        → status_of msg.delivery_id w ≢ none
        → Settles (attempts text env retry_delay msg fuel attempt w)
    unfolding attempts
    attempts_lem zero attempt w enough some_fuel known = absurd (omega (arith, some_fuel))
    attempts_lem (suc fuel) attempt w enough some_fuel known =
        elim (Bool-cases (accepted (env.responses w.sends))) [
          | inl e ↦ rw e (delivered attempt (env.responses w.sends) (post w) known)
          | inr e ↦ elim (Bool-cases (leb msg.max_attempts attempt)) [
            | inl f ↦
                rw (e, f)
                  (failed (env.responses w.sends) (send_error text (env.responses w.sends)) (post w)
                    known)
            | inr f ↦
                rw (e, f, patient w.waits)
                  (attempts_lem fuel (suc attempt) (sleep (backoff retry_delay attempt) (post w))
                    (omega (arith, enough)) (ground (arith, enough, f)) known)
          ]
        ]

    -- Where no call of the database fails and the context is never done, process of a message
    -- whose delivery row exists returns without an error, with the row delivered or failed.
    pub process_lem :
        (w : World)
        → status_of msg.delivery_id w ≢ none
        → ((process text env retry_delay msg w).0 ≡ ok tt)
          × Final msg.delivery_id (process text env retry_delay msg w).1
    unfolding process
    process_lem w known =
        attempts_lem (suc (msg.max_attempts - msg.attempt)) msg.attempt w (omega arith)
          (omega arith) known
