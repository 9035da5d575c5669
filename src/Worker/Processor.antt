-- ===== src/Worker/Processor.antt =====
-- internal/worker/processor.go: the delivery pipeline of one message. Metrics, spans and log lines
-- are left out; a call whose error is only logged keeps its effect on the world.
pub mod Frames
pub mod Effects
pub mod Settled
pub mod Outcomes
pub mod Completion
pub mod Tenantless
pub mod Blocked
use notify_hub.Prelude.{
  ℕ, ℤ, pos, negsuc, zero, suc, ◌-◌, String, Bool, true, false, Option, none, some, ltb, ◌&&◌,
  if◌then◌else◌,
}
use notify_hub.Domain.Errors.{Err, Result, ok, err, wrapped, error_text}
use notify_hub.Domain.Json.{Payload, text, put}
use notify_hub.Domain.Notification.{
  Uuid, Time, Channel, Notification, NotificationStatus, processing, dropped,
}
use notify_hub.Domain.Delivery.{
  DeliveryLog, DeliveryStatus, DlqReason, retries_exhausted, permanent_failure, template_render,
  provider_missing,
}
use notify_hub.Domain.Webhook.{event_delivered, event_failed, event_dropped}
use notify_hub.Queue.Message.{Message, DlqMessage, topic_for_channel}
use notify_hub.Queue.Producer.{publish_dlq}
use notify_hub.Db.World.{World, Env}
use notify_hub.Db.Io.{Io, pure, ◌>>=◌, ◌>>◌, map_err}
use notify_hub.Repository.Notifications
use notify_hub.Repository.Deliveries
use notify_hub.Service.QuietHours.{Zones}
use notify_hub.Service.Preferences.{Verdict, is_allowed}
use notify_hub.Service.RateLimit.{allow}
use notify_hub.Service.Templates.{Engine, render}
use notify_hub.Service.Webhooks.{Printer, dispatch}
use notify_hub.Provider.Errors.{is_permanent}
use notify_hub.Provider.Registry
use notify_hub.Provider.Registry.{Registry}
use notify_hub.Worker.Retry.{send_with_retry}

-- ProcessorDeps. `webhook` holds the attempts of a dispatched event, and none is a nil dispatcher.
pub record ProcessorDeps : Type 0 where
  pub zones : Zones
  pub score : ℕ → ℕ
  pub engine : Engine
  pub printer : Printer
  pub registry : Registry
  pub rate_caps : Channel → ℕ
  pub retry_delay : ℕ
  pub dlq_publisher : Bool
  pub dlq_enabled : Bool
  pub webhook : Option ℕ

-- The terminal outcome labels.
pub data Outcome : Type 0 where
  delivered failed dropped_pref dropped_ratelimit : Outcome

abbrev pub hour : ℕ
hour = 3600000000000

abbrev provider_name : Channel → Result Registry.Provider → String
provider_name ch (err e) = ch
provider_name ch (ok p) = p.name

-- msg.Attempt - 1, which is -1 for a message at attempt 0.
abbrev pub retries : ℕ → ℤ
retries zero = negsuc 0
retries (suc k) = pos k

abbrev pub log_entry :
    ProcessorDeps
    → Message
    → Notification
    → DeliveryStatus
    → Option String
    → Option Time
    → Time
    → DeliveryLog
log_entry deps msg n status err_msg delivered_at now = record {
  id = 0;
  notification_id = n.id;
  channel = n.channel;
  provider = provider_name n.channel (Registry.get deps.registry n.channel);
  status = status;
  provider_message_id = none;
  error_message = err_msg;
  error_code = none;
  retry_count = retries msg.attempt;
  attempted_at = now;
  delivered_at = delivered_at;
}

abbrev pub dlq_message : Message → DlqReason → String → Time → DlqMessage
dlq_message msg reason err_msg now = record {
  original = msg;
  original_topic = topic_for_channel msg.channel;
  failure_reason = reason;
  error_message = err_msg;
  last_attempt = msg.attempt;
  dead_lettered_at = now;
}

module _ (deps : ProcessorDeps) (env : Env) (msg : Message) where
  unfoldable pub log_delivery :
      Notification → DeliveryStatus → Option String → Option Time → World → World
  log_delivery n status err_msg delivered_at w =
      (Deliveries.create env (log_entry deps msg n status err_msg delivered_at w.now) w).1

  unfoldable pub set_status : Uuid → NotificationStatus → World → World
  set_status id status w = (Notifications.update_status env id status w).1

  unfoldable pub dead_letter : DlqReason → String → World → World
  dead_letter reason err_msg w =
      if deps.dlq_enabled && deps.dlq_publisher
      then (publish_dlq env (dlq_message msg reason err_msg w.now) w).1
      else w

  -- A nil dispatcher disables the fan-out.
  abbrev pub dispatch_by : Option ℕ → Notification → String → World → World
  dispatch_by none n event w = w
  dispatch_by (some max_attempts) n event w = (dispatch deps.printer max_attempts env n event w).1

  unfoldable pub dispatch_webhook : Notification → String → World → World
  dispatch_webhook n event w = dispatch_by deps.webhook n event w

  unfoldable pub drop : Notification → String → World → World
  drop n reason w =
      let w1 = log_delivery n DeliveryStatus.failed (some reason) none w in
      let w2 = set_status n.id dropped w1 in dispatch_webhook n event_dropped w2

  -- The four calls that every failure of `deliver` makes.
  unfoldable pub fail_delivery : Notification → DlqReason → String → World → World
  fail_delivery n reason err_msg w =
      let w1 = log_delivery n DeliveryStatus.failed (some err_msg) none w in
      let w2 = dead_letter reason err_msg w1 in
      let w3 = set_status n.id NotificationStatus.failed w2 in dispatch_webhook n event_failed w3

  unfoldable pub finish_delivery : Notification → World → World
  finish_delivery n w =
      let w1 = log_delivery n DeliveryStatus.success none (some w.now) w in
      let w2 = set_status n.id NotificationStatus.delivered w1 in
      dispatch_webhook n event_delivered w2

  abbrev with_content : Payload → String × String → Payload
  with_content payload (subject, body) =
      put "_body" (text body) (put "_subject" (text subject) payload)

  -- Step 7: the log, and the final status.
  unfoldable pub conclude : Notification → Option Err × World → Outcome × World
  conclude n (none, w) = (Outcome.delivered, finish_delivery n w)
  conclude n (some e, w) = (
    Outcome.failed,
    fail_delivery n (if is_permanent e then permanent_failure else retries_exhausted) (error_text e)
        w,
  )

  -- Step 6: the provider, if the registry has one.
  abbrev pub send_by : Notification → Payload → Result Registry.Provider → World → Outcome × World
  send_by n payload (err e) w = (Outcome.failed, fail_delivery n provider_missing (error_text e) w)
  send_by n payload (ok p) w =
      conclude n (send_with_retry env deps.retry_delay msg (record n { payload = payload }) w)

  unfoldable pub send_step : Notification → Payload → World → Outcome × World
  send_step n payload w = send_by n payload (Registry.get deps.registry n.channel) w

  -- Step 5: what the template renders, if the notification names one.
  abbrev pub send_rendered : Notification → Result (String × String) → World → Outcome × World
  send_rendered n (err e) w = (Outcome.failed, fail_delivery n template_render (error_text e) w)
  send_rendered n (ok content) w = send_step n (with_content n.payload content) w

  abbrev pub deliver_by : Notification → Option Uuid → World → Outcome × World
  deliver_by n none w = send_step n n.payload w
  deliver_by n (some template) w =
      let r = render deps.engine env msg.tenant_id template n.payload w in send_rendered n r.0 r.1

  -- Steps 5 to 7. Go's deliver also returns an error, which is nil on every path.
  unfoldable pub deliver : Notification → World → Outcome × World
  deliver n w = deliver_by n n.template_id w

  abbrev pub delivered_by : Outcome × World → Result Outcome × World
  delivered_by (outcome, w) = (ok outcome, w)

  -- Step 4: the worker-side rate limit, where the channel has a cap.
  abbrev pub rate_by : Notification → Result Bool → World → Result Outcome × World
  rate_by n (err e) w = (err (wrapped "rate limit check" e), w)
  rate_by n (ok true) w = delivered_by (deliver n w)
  rate_by n (ok false) w = (ok dropped_ratelimit, drop n "rate limit exceeded" w)

  unfoldable pub rate_step : Notification → Io Outcome
  rate_step n w =
      let cap = deps.rate_caps n.channel in
      let r = allow deps.score env n.recipient_id n.channel hour cap w in
      if ltb 0 cap then rate_by n r.0 r.1 else delivered_by (deliver n w)

  -- Step 3: the preferences of the recipient.
  abbrev pub preference_by : Notification → Result Verdict → World → Result Outcome × World
  preference_by n (err e) w = (err (wrapped "preference check" e), w)
  preference_by n (ok none) w = rate_step n w
  preference_by n (ok (some reason)) w = (ok dropped_pref, drop n reason w)

  unfoldable pub preference_step : Notification → Io Outcome
  preference_step n w =
      let r = is_allowed deps.zones env msg.tenant_id n.recipient_id n.channel w in
      preference_by n r.0 r.1

  -- Step 2: mark processing.
  unfoldable pub mark_step : Notification → Io Outcome
  mark_step n =
      map_err (wrapped "mark processing") (Notifications.update_status env n.id processing)
      >> preference_step n

  -- Process: an error means that the pool must not commit the offset.
  unfoldable pub process : Io Outcome
  process =
      map_err (wrapped "fetch notification")
        (Notifications.get_by_id env msg.tenant_id msg.notification_id)
      >>= mark_step
