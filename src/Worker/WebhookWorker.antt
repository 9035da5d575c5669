-- ===== src/Worker/WebhookWorker.antt =====
-- internal/worker/webhook_worker.go: process of one webhook message. The world decides what a POST
-- answers: a status, or 0 where the request itself fails. The signature is computed by
-- crypto/hmac and is not modelled.
pub mod Settled
use notify_hub.Prelude.{
  ℕ, zero, suc, ◌-◌, String, Bool, Option, none, some, [], leb, ltb, ◌==◌, nat_eq, ◌&&◌, ◌||◌,
  if◌then◌else◌,
}
use Prim.Native.String.{◌++◌}
use notify_hub.Domain.Errors.{Err, Result, ok, err, wrapped, plain, cancelled, error_text}
use notify_hub.Domain.Webhook.{WebhookDelivery, WebhookDeliveryStatus}
use notify_hub.Queue.Message.{WebhookMessage}
use notify_hub.Db.World.{World, Env}
use notify_hub.Db.Io.{Io, ◌>>=◌, map_err}
use notify_hub.Repository.Webhooks
use notify_hub.Worker.Retry.{backoff, sleep}

-- 200 <= status < 300
abbrev pub accepted : ℕ → Bool
accepted status = leb 200 status && ltb status 300

-- The printed status, or for 0 what net/http reports.
abbrev pub StatusText : Type 0
StatusText = ℕ → String

abbrev pub send_error : StatusText → ℕ → Err
send_error text status =
    if status == 0
    then wrapped "http post" (plain (text 0))
    else plain ("non-2xx response: " ++ text status)

abbrev pub post : World → World
post w = record w { sends = suc w.sends }

abbrev pub response : ℕ → Option ℕ
response status = if status == 0 then none else some status

-- The fields that markDelivered and markFailed give; the others are zero.
abbrev pub outcome :
    WebhookMessage → WebhookDeliveryStatus → ℕ → Option String → Option ℕ → WebhookDelivery
outcome msg status attempt last_error response_status = record {
  id = msg.delivery_id;
  endpoint_id = 0;
  notification_id = none;
  event = "";
  payload = [];
  status = status;
  attempt = attempt;
  next_retry_at = none;
  last_error = last_error;
  response_status = response_status;
  created_at = 0;
  updated_at = 0;
}

module _ (text : StatusText) (env : Env) (retry_delay : ℕ) (msg : WebhookMessage) where
  unfoldable pub update : String → WebhookDelivery → Io (Unit {0})
  update what d w =
      let r = map_err (wrapped what) (Webhooks.update_delivery env d) w in
      elim r.0 [ err e ↦ (err e, r.1) | ok saved ↦ (ok tt, r.1) ]

  unfoldable pub mark_delivered : ℕ → ℕ → Io (Unit {0})
  mark_delivered attempt status =
      update "mark delivery delivered"
        (outcome msg WebhookDeliveryStatus.delivered attempt none (some status))

  unfoldable pub mark_failed : ℕ → Err → Io (Unit {0})
  mark_failed status e = update "mark delivery failed" (
      outcome msg WebhookDeliveryStatus.failed msg.max_attempts (some (error_text e))
        (response status))

  -- The loop of process, with fuel for the rounds.
  unfoldable pub attempts : ℕ → ℕ → Io (Unit {0})
  unfolding backoff
  attempts zero attempt w = (err (plain "out of fuel"), w)
  attempts (suc fuel) attempt w =
      let status = env.responses w.sends in
      let again = attempts fuel (suc attempt) (sleep (backoff retry_delay attempt) (post w)) in
      if accepted status
      then mark_delivered attempt status (post w)
      else (if leb msg.max_attempts attempt
          then mark_failed status (send_error text status) (post w)
          else (if env.done w.waits
              then (
                err (wrapped "context cancelled during webhook retry" cancelled),
                record (post w) { waits = suc w.waits },
              )
              else again))

  -- process: the message's payload is a JSON object, whose encoding cannot fail.
  unfoldable pub process : Io (Unit {0})
  process w = attempts (suc (msg.max_attempts - msg.attempt)) msg.attempt w
