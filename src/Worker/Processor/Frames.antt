-- ===== src/Worker/Processor/Frames.antt =====
-- internal/worker/processor.go: the calls of Process that leave the notifications and the delivery
-- logs alone.
use notify_hub.Prelude.{
  ℕ, zero, suc, String, Option, none, some, List, [], ◌∷◌, ◌≡◌, refl, ◌∙◌, arith, nat_eq,
}
use notify_hub.Domain.Errors.{Result, ok, err}
use notify_hub.Domain.Json.{Payload}
use notify_hub.Domain.Notification.{Uuid, Notification}
use notify_hub.Domain.Delivery.{DlqReason}
use notify_hub.Domain.Webhook.{WebhookEndpoint}
use notify_hub.Queue.Message.{Message}
use notify_hub.Queue.Producer.{publish, publish_dlq}
use notify_hub.Db.World.{World, Env}
use notify_hub.Repository.Webhooks
use notify_hub.Service.Webhooks.{
  Printer, notify_endpoint, notify_all, fan_out, dispatch, build_event_payload,
}
use notify_hub.Worker.Retry.{retry_loop}
use notify_hub.Worker.Retry.Bounds.{again}
use notify_hub.Repository.Templates
use notify_hub.Service.Templates.{render}
use notify_hub.Worker.Processor.{ProcessorDeps, dead_letter, dispatch_by, dispatch_webhook}

-- What the steps on the way to the final status leave alone.
pub record SameStore (w w' : World) : Type 0 where
  pub notifications : w'.db.notifications ≡ w.db.notifications
  pub logs : w'.db.delivery_logs ≡ w.db.delivery_logs

pub SameStore-refl : (w : World) → SameStore w w
SameStore-refl w = record { notifications = refl; logs = refl }

pub SameStore-trans : {u v w : World} → SameStore u v → SameStore v w → SameStore u w
SameStore-trans p q = record {
  notifications = q.notifications ∙ p.notifications;
  logs = q.logs ∙ p.logs;
}

module _ (printer : Printer) (max_attempts : ℕ) (env : Env) where
  notify_endpoint-SameStore :
      (n : Notification) (event : String) (payload : Payload) (ep : WebhookEndpoint) (w : World)
      → SameStore w (notify_endpoint printer max_attempts env n event payload ep w)
  unfolding notify_endpoint Webhooks.create_delivery publish
  notify_endpoint-SameStore n event payload ep w = ground arith

  notify_all-SameStore :
      (n : Notification) (event : String) (payload : Payload) (eps : List WebhookEndpoint)
      (w : World)
      → SameStore w (notify_all printer max_attempts env n event payload eps w)
  unfolding notify_all
  notify_all-SameStore n event payload [] w = SameStore-refl w
  notify_all-SameStore n event payload (ep ∷ eps) w =
      SameStore-trans (notify_endpoint-SameStore n event payload ep w) (
        notify_all-SameStore n event payload eps
          (notify_endpoint printer max_attempts env n event payload ep w))

  fan_out-SameStore :
      (n : Notification) (event : String) (r : Result (List WebhookEndpoint)) (w : World)
      → SameStore w (fan_out printer max_attempts env n event r w).1
  fan_out-SameStore n event (err e) w = SameStore-refl w
  fan_out-SameStore n event (ok eps) w =
      notify_all-SameStore n event (build_event_payload printer n event w.now) eps w

  endpoints-SameStore :
      (t : Uuid) (event : String) (w : World)
      → SameStore w (Webhooks.list_active_for_event env t event w).1
  unfolding Webhooks.list_active_for_event
  endpoints-SameStore t event w = ground arith

  pub dispatch-SameStore :
      (n : Notification) (event : String) (w : World)
      → SameStore w (dispatch printer max_attempts env n event w).1
  unfolding dispatch
  dispatch-SameStore n event w =
      let r = Webhooks.list_active_for_event env n.tenant_id event w in
      SameStore-trans (endpoints-SameStore n.tenant_id event w) (fan_out-SameStore n event r.0 r.1)

module _ (deps : ProcessorDeps) (env : Env) (msg : Message) where
  dispatch_by-SameStore :
      (d : Option ℕ) (n : Notification) (event : String) (w : World)
      → SameStore w (dispatch_by deps env msg d n event w)
  dispatch_by-SameStore none n event w = SameStore-refl w
  dispatch_by-SameStore (some k) n event w = dispatch-SameStore deps.printer k env n event w

  pub dispatch_webhook-SameStore :
      (n : Notification) (event : String) (w : World)
      → SameStore w (dispatch_webhook deps env msg n event w)
  unfolding dispatch_webhook
  dispatch_webhook-SameStore n event w = dispatch_by-SameStore deps.webhook n event w

  pub dead_letter-SameStore :
      (reason : DlqReason) (e : String) (w : World)
      → SameStore w (dead_letter deps env msg reason e w)
  unfolding dead_letter publish_dlq
  dead_letter-SameStore reason e w = ground arith

  -- The provider's calls and waits leave the database alone.
  pub retry_loop-db :
      (max : ℕ) (n : Notification) (f attempt : ℕ) (w : World)
      → (retry_loop env deps.retry_delay max n f attempt w).1.db ≡ w.db
  unfolding retry_loop
  retry_loop-db max n zero attempt w = refl
  retry_loop-db max n (suc f) attempt w =
      ground
        (arith, retry_loop-db max n f (suc attempt) (again env deps.retry_delay max n attempt w))

  pub render-SameStore :
      (t id : Uuid) (payload : Payload) (w : World)
      → SameStore w (render deps.engine env t id payload w).1
  unfolding render Templates.get_by_id
  render-SameStore t id payload w = ground arith
