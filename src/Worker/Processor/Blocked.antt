-- ===== src/Worker/Processor/Blocked.antt =====
-- internal/worker/processor.go: a notification that preferences or the rate limit block.
use notify_hub.Prelude.{
  ℕ, String, Bool, true, false, Option, none, some, List, [], ◌∷◌, ◌≡◌, ◌⊎◌, inl, inr, refl, ◌∙◌,
  arith, ltb, Bool-cases,
}
use mathlib.Core.Path.{subst}
use notify_hub.Domain.Errors.{Err, Result, ok, err, wrapped}
use notify_hub.Domain.Json.{Payload}
use notify_hub.Domain.Notification.{Uuid, Notification, NotificationStatus, processing}
use notify_hub.Domain.Delivery.{DeliveryStatus}
use notify_hub.Domain.Webhook.{WebhookEndpoint}
use notify_hub.Queue.Message.{Message}
use notify_hub.Queue.Producer.{publish}
use notify_hub.Db.World.{World, Env}
use notify_hub.Db.Io.{continue, on_err}
use notify_hub.Repository.Notifications
use notify_hub.Repository.Deliveries
use notify_hub.Repository.Webhooks
use notify_hub.Provider.Registry
use notify_hub.Service.Preferences.{Verdict, is_allowed}
use notify_hub.Service.RateLimit.{allow}
use notify_hub.Service.Webhooks.{
  Printer, notify_endpoint, notify_all, fan_out, dispatch, build_event_payload,
}
use notify_hub.Worker.Retry.{send_with_retry}
use notify_hub.Worker.Processor.{
  ProcessorDeps, Outcome, dropped_pref, dropped_ratelimit, hour, log_delivery, set_status,
  dispatch_by, dispatch_webhook, drop, conclude, send_by, send_step, send_rendered, deliver_by,
  deliver, rate_by, rate_step, preference_by, preference_step, mark_step, process,
}

module _ (printer : Printer) (max_attempts : ℕ) (env : Env) (n : Notification)
    (event : String) where
  notify_endpoint-sent :
      (payload : Payload) (ep : WebhookEndpoint) (w : World)
      → (notify_endpoint printer max_attempts env n event payload ep w).sent ≡ w.sent
  unfolding notify_endpoint Webhooks.create_delivery publish
  notify_endpoint-sent payload ep w = ground arith

  notify_all-sent :
      (payload : Payload) (eps : List WebhookEndpoint) (w : World)
      → (notify_all printer max_attempts env n event payload eps w).sent ≡ w.sent
  unfolding notify_all
  notify_all-sent payload [] w = refl
  notify_all-sent payload (ep ∷ eps) w =
      notify_all-sent payload eps (notify_endpoint printer max_attempts env n event payload ep w)
      ∙ notify_endpoint-sent payload ep w

  fan_out-sent :
      (r : Result (List WebhookEndpoint)) (w : World)
      → (fan_out printer max_attempts env n event r w).1.sent ≡ w.sent
  fan_out-sent (err e) w = refl
  fan_out-sent (ok eps) w = notify_all-sent (build_event_payload printer n event w.now) eps w

  looked_up-sent :
      (t : Uuid) (w : World) → (Webhooks.list_active_for_event env t event w).1.sent ≡ w.sent
  unfolding Webhooks.list_active_for_event
  looked_up-sent t w = ground arith

  dispatch-sent : (w : World) → (dispatch printer max_attempts env n event w).1.sent ≡ w.sent
  unfolding dispatch
  dispatch-sent w =
      let r = Webhooks.list_active_for_event env n.tenant_id event w in
      fan_out-sent r.0 r.1 ∙ looked_up-sent n.tenant_id w

-- What an outcome that blocks a notification promises: no provider was called.
abbrev pub Blocked : World → Result Outcome → World → Type 0
Blocked w (ok dropped_pref) w' = w'.sent ≡ w.sent
Blocked w (ok dropped_ratelimit) w' = w'.sent ≡ w.sent
Blocked w (ok Outcome.delivered) w' = Unit
Blocked w (ok Outcome.failed) w' = Unit
Blocked w (err e) w' = Unit

Blocked-after :
    (u v w : World) (r : Result Outcome) → v.sent ≡ u.sent → Blocked v r w → Blocked u r w
Blocked-after u v w (ok dropped_pref) e b = b ∙ e
Blocked-after u v w (ok dropped_ratelimit) e b = b ∙ e
Blocked-after u v w (ok Outcome.delivered) e b = tt
Blocked-after u v w (ok Outcome.failed) e b = tt
Blocked-after u v w (err x) e b = tt

module _ (deps : ProcessorDeps) (env : Env) (msg : Message) where
  dispatch_by-sent :
      (d : Option ℕ) (n : Notification) (event : String) (w : World)
      → (dispatch_by deps env msg d n event w).sent ≡ w.sent
  dispatch_by-sent none n event w = refl
  dispatch_by-sent (some k) n event w = dispatch-sent deps.printer k env n event w

  settled-sent :
      (n : Notification) (reason : String) (w : World)
      → (set_status deps env msg n.id NotificationStatus.dropped
          (log_delivery deps env msg n DeliveryStatus.failed (some reason) none w)).sent
        ≡ w.sent
  unfolding set_status log_delivery Deliveries.create Notifications.update_status
  settled-sent n reason w = ground arith

  drop-sent :
      (n : Notification) (reason : String) (w : World)
      → (drop deps env msg n reason w).sent ≡ w.sent
  unfolding drop dispatch_webhook
  drop-sent n reason w = dispatch_by-sent deps.webhook n _ _ ∙ settled-sent n reason w

  -- Steps 5 to 7 end in delivered or failed.
  conclude-Blocked :
      (u : World) (n : Notification) (a : Option Err) (w : World)
      → Blocked u (ok (conclude deps env msg n (a, w)).0) (conclude deps env msg n (a, w)).1
  unfolding conclude
  conclude-Blocked u n none w = tt
  conclude-Blocked u n (some e) w = tt

  send_by-Blocked :
      (u : World) (n : Notification) (payload : Payload) (p : Result Registry.Provider) (w : World)
      → Blocked u (ok (send_by deps env msg n payload p w).0) (send_by deps env msg n payload p w).1
  send_by-Blocked u n payload (err e) w = tt
  send_by-Blocked u n payload (ok p) w =
      let r = send_with_retry env deps.retry_delay msg (record n { payload = payload }) w in
      conclude-Blocked u n r.0 r.1

  send_step-Blocked :
      (u : World) (n : Notification) (payload : Payload) (w : World)
      → Blocked u (ok (send_step deps env msg n payload w).0) (send_step deps env msg n payload w).1
  unfolding send_step
  send_step-Blocked u n payload w =
      send_by-Blocked u n payload (Registry.get deps.registry n.channel) w

  send_rendered-Blocked :
      (u : World) (n : Notification) (r : Result (String × String)) (w : World)
      → Blocked u (ok (send_rendered deps env msg n r w).0) (send_rendered deps env msg n r w).1
  send_rendered-Blocked u n (err e) w = tt
  send_rendered-Blocked u n (ok content) w = send_step-Blocked u n _ w

  deliver_by-Blocked :
      (u : World) (n : Notification) (t : Option Uuid) (w : World)
      → Blocked u (ok (deliver_by deps env msg n t w).0) (deliver_by deps env msg n t w).1
  deliver_by-Blocked u n none w = send_step-Blocked u n n.payload w
  deliver_by-Blocked u n (some t) w = send_rendered-Blocked u n _ _

  deliver-Blocked :
      (u : World) (n : Notification) (w : World)
      → Blocked u (ok (deliver deps env msg n w).0) (deliver deps env msg n w).1
  unfolding deliver
  deliver-Blocked u n w = deliver_by-Blocked u n n.template_id w

  rate_by-Blocked :
      (n : Notification) (r : Result Bool) (w : World)
      → Blocked w (rate_by deps env msg n r w).0 (rate_by deps env msg n r w).1
  rate_by-Blocked n (err e) w = tt
  rate_by-Blocked n (ok true) w = deliver-Blocked w n w
  rate_by-Blocked n (ok false) w = drop-sent n "rate limit exceeded" w

  allow-sent :
      (n : Notification) (w : World)
      → (allow deps.score env n.recipient_id n.channel hour (deps.rate_caps n.channel) w).1.sent
        ≡ w.sent
  unfolding allow
  allow-sent n w = ground arith

  rate_step-Blocked :
      (n : Notification) (w : World)
      → Blocked w (rate_step deps env msg n w).0 (rate_step deps env msg n w).1
  unfolding rate_step
  rate_step-Blocked n w = elim (Bool-cases (ltb 0 (deps.rate_caps n.channel))) [
    | inl e ↦
        let r = allow deps.score env n.recipient_id n.channel hour (deps.rate_caps n.channel) w in
        rw e (Blocked-after w r.1 _ _ (allow-sent n w) (rate_by-Blocked n r.0 r.1))
    | inr e ↦ rw e (deliver-Blocked w n w)
  ]

  preference_by-Blocked :
      (n : Notification) (r : Result Verdict) (w : World)
      → Blocked w (preference_by deps env msg n r w).0 (preference_by deps env msg n r w).1
  preference_by-Blocked n (err e) w = tt
  preference_by-Blocked n (ok none) w = rate_step-Blocked n w
  preference_by-Blocked n (ok (some reason)) w = drop-sent n reason w

  is_allowed-sent :
      (n : Notification) (w : World)
      → (is_allowed deps.zones env msg.tenant_id n.recipient_id n.channel w).1.sent ≡ w.sent
  unfolding is_allowed
  is_allowed-sent n w = ground arith

  preference_step-Blocked :
      (n : Notification) (w : World)
      → Blocked w (preference_step deps env msg n w).0 (preference_step deps env msg n w).1
  unfolding preference_step
  preference_step-Blocked n w =
      let r = is_allowed deps.zones env msg.tenant_id n.recipient_id n.channel w in
      Blocked-after w r.1 _ _ (is_allowed-sent n w) (preference_by-Blocked n r.0 r.1)

  marked-Blocked :
      (n m : Notification) (r : Result Notification) (w : World)
      → Blocked w
          (continue (λ _. preference_step deps env msg n) r w).0
          (continue (λ _. preference_step deps env msg n) r w).1
  marked-Blocked n m (err e) w = tt
  marked-Blocked n m (ok x) w = preference_step-Blocked n w

  update-sent :
      (id : Uuid) (w : World) → (Notifications.update_status env id processing w).1.sent ≡ w.sent
  unfolding Notifications.update_status
  update-sent id w = ground arith

  mark_step-Blocked :
      (n : Notification) (w : World)
      → Blocked w (mark_step deps env msg n w).0 (mark_step deps env msg n w).1
  unfolding mark_step
  mark_step-Blocked n w =
      let r = Notifications.update_status env n.id processing w in
      Blocked-after w r.1 _ _ (update-sent n.id w)
        (marked-Blocked n n (on_err (wrapped "mark processing") r.0) r.1)

  fetched-Blocked :
      (r : Result Notification) (w : World)
      → Blocked w
          (continue (mark_step deps env msg) r w).0
          (continue (mark_step deps env msg) r w).1
  fetched-Blocked (err e) w = tt
  fetched-Blocked (ok n) w = mark_step-Blocked n w

  get_by_id-sent : (t id : Uuid) (w : World) → (Notifications.get_by_id env t id w).1.sent ≡ w.sent
  unfolding Notifications.get_by_id
  get_by_id-sent t id w = ground arith

  process-Blocked : (w : World) → Blocked w (process deps env msg w).0 (process deps env msg w).1
  unfolding process
  process-Blocked w =
      let r = Notifications.get_by_id env msg.tenant_id msg.notification_id w in
      Blocked-after w r.1 _ _ (get_by_id-sent msg.tenant_id msg.notification_id w)
        (fetched-Blocked (on_err (wrapped "fetch notification") r.0) r.1)

  blocked_lem :
      (w w' : World) (o : Outcome)
      → (o ≡ dropped_pref) ⊎ (o ≡ dropped_ratelimit)
      → Blocked w (ok o) w'
      → w'.sent ≡ w.sent
  blocked_lem w w' dropped_pref which b = b
  blocked_lem w w' dropped_ratelimit which b = b
  blocked_lem w w' Outcome.delivered which b = absurd (ground (arith, which))
  blocked_lem w w' Outcome.failed which b = absurd (ground (arith, which))

  -- Where Process ends with a notification dropped by a preference or by the rate limit, no
  -- provider has been called in its course, whichever of its calls fail.
  pub process_dropped :
      (w : World) (o : Outcome)
      → (process deps env msg w).0 ≡ ok o
      → (o ≡ dropped_pref) ⊎ (o ≡ dropped_ratelimit)
      → (process deps env msg w).1.sent ≡ w.sent
  process_dropped w o ended which =
      blocked_lem w (process deps env msg w).1 o which
        (subst (λ r. Blocked w r (process deps env msg w).1) ended (process-Blocked w))
