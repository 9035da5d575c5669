-- ===== src/Worker/Processor/Outcomes.antt =====
-- With the infrastructure up, Process ends in an outcome that the database agrees with.
use notify_hub.Prelude.{
  ◌+◌, String, Bool, true, false, Option, none, some, ◌≡◌, ◌≢◌, refl, arith, nat_eq, ltb,
  Bool-cases, inl, inr,
}
use notify_hub.Domain.Errors.{
  Err, Result, ok, err, error_text, new_not_found_error, new_internal_error,
}
use notify_hub.Domain.Json.{Payload}
use notify_hub.Domain.Notification.{Uuid, Notification, NotificationStatus}
use notify_hub.Domain.Delivery.{DeliveryStatus, provider_missing, template_render}
use notify_hub.Queue.Message.{Message}
use notify_hub.Db.World.{World, Env}
use notify_hub.Db.Io.{IsHealthy}
use notify_hub.Service.Preferences.{Verdict, is_allowed}
use notify_hub.Service.RateLimit.{allow}
use notify_hub.Provider.Registry
use notify_hub.Worker.Retry.{send_with_retry}
use notify_hub.Worker.Processor.{
  ProcessorDeps, Outcome, dropped_pref, dropped_ratelimit, hour, drop, send_by, send_step,
  send_rendered, deliver_by, deliver, rate_by, rate_step, preference_by, preference_step,
}
use notify_hub.Worker.Processor.Settled.{
  status_of, final_status, log_status, Settled, Settled-after, conclude-Settled,
  fail_delivery-Settled, drop_settled,
}
use notify_hub.Worker.Processor.Frames.{SameStore, retry_loop-db, render-SameStore}

module _ (deps : ProcessorDeps) (env : Env) (msg : Message) (up : IsHealthy env) where
  sent_same :
      (m : Notification) (w : World) → SameStore w (send_with_retry env deps.retry_delay msg m w).1
  unfolding send_with_retry
  sent_same m w =
      ground
        (arith, retry_loop-db deps env msg msg.max_attempts m (msg.max_attempts + 2) msg.attempt w)

  send_by-Settled :
      (n : Notification) (payload : Payload) (p : Result Registry.Provider) (w : World)
      → status_of n.id w ≢ none
      → Settled n.id (send_by deps env msg n payload p w).0 w (send_by deps env msg n payload p w).1
  send_by-Settled n payload (err e) w known =
      fail_delivery-Settled deps env msg up n provider_missing (error_text e) w known
  send_by-Settled n payload (ok p) w known =
      let m : Notification = record n { payload = payload } in
      let r = send_with_retry env deps.retry_delay msg m w in
      let same = sent_same m w in
      Settled-after deps env msg up same
        (conclude-Settled deps env msg up n r.0 r.1 (rw same.notifications known))

  send_step-Settled :
      (n : Notification) (payload : Payload) (w : World)
      → status_of n.id w ≢ none
      → Settled n.id (send_step deps env msg n payload w).0 w (send_step deps env msg n payload w).1
  unfolding send_step
  send_step-Settled n payload w known = send_by-Settled n payload _ w known

  send_rendered-Settled :
      (n : Notification) (r : Result (String × String)) (w : World)
      → status_of n.id w ≢ none
      → Settled n.id (send_rendered deps env msg n r w).0 w (send_rendered deps env msg n r w).1
  send_rendered-Settled n (err e) w known =
      fail_delivery-Settled deps env msg up n template_render (error_text e) w known
  send_rendered-Settled n (ok content) w known = send_step-Settled n _ w known

  deliver_by-Settled :
      (n : Notification) (t : Option Uuid) (w : World)
      → status_of n.id w ≢ none
      → Settled n.id (deliver_by deps env msg n t w).0 w (deliver_by deps env msg n t w).1
  deliver_by-Settled n none w known = send_step-Settled n n.payload w known
  deliver_by-Settled n (some t) w known =
      let same = render-SameStore deps env msg msg.tenant_id t n.payload w in
      Settled-after deps env msg up same (send_rendered-Settled n _ _ (rw same.notifications known))

  deliver-Settled :
      (n : Notification) (w : World)
      → status_of n.id w ≢ none
      → Settled n.id (deliver deps env msg n w).0 w (deliver deps env msg n w).1
  unfolding deliver
  deliver-Settled n w known = deliver_by-Settled n n.template_id w known

  -- A run that ends in an outcome, with the notification settled.
  abbrev pub Settles : Uuid → World → Result Outcome → World → Type 0
  Settles id w (ok o) w' = Settled id o w w'
  Settles id w (err e) w' = ⊥

  pub Settles-after :
      (id : Uuid) {u v : World} (r : Result Outcome) (w : World)
      → SameStore u v
      → Settles id v r w
      → Settles id u r w
  Settles-after id (ok o) w p s = Settled-after deps env msg up p s
  Settles-after id (err e) w p s = s

  dropped-Settled :
      (o : Outcome) (n : Notification) (reason : String) (w : World)
      → final_status o ≡ NotificationStatus.dropped
      → log_status o ≡ DeliveryStatus.failed
      → status_of n.id w ≢ none
      → Settled n.id o w (drop deps env msg n reason w)
  dropped-Settled o n reason w f l known =
      let r = drop_settled deps env msg up n reason w known in
      record { status = rw f r.0; log = rw l r.1 }

  abbrev allowed : Notification → World → Result Bool × World
  allowed n = allow deps.score env n.recipient_id n.channel hour (deps.rate_caps n.channel)

  abbrev preferred : Notification → World → Result Verdict × World
  preferred n = is_allowed deps.zones env msg.tenant_id n.recipient_id n.channel

  allowed-ok : (n : Notification) (w : World) (e : Err) → (allowed n w).0 ≢ err e
  unfolding allow
  allowed-ok n w e = ground (arith, up w.calls)

  allowed-same : (n : Notification) (w : World) → SameStore w (allowed n w).1
  unfolding allow
  allowed-same n w = ground arith

  preferred-ok : (n : Notification) (w : World) (e : Err) → (preferred n w).0 ≢ err e
  unfolding is_allowed new_not_found_error new_internal_error
  preferred-ok n w e = ground (arith, up w.calls)

  preferred-same : (n : Notification) (w : World) → SameStore w (preferred n w).1
  unfolding is_allowed
  preferred-same n w = ground arith

  rate_by_settles :
      (n : Notification) (r : Result Bool) (w : World)
      → ((e : Err) → r ≢ err e)
      → status_of n.id w ≢ none
      → Settles n.id w (rate_by deps env msg n r w).0 (rate_by deps env msg n r w).1
  rate_by_settles n (err e) w fine known = absurd (fine e refl)
  rate_by_settles n (ok true) w fine known = deliver-Settled n w known
  rate_by_settles n (ok false) w fine known =
      dropped-Settled dropped_ratelimit n "rate limit exceeded" w refl refl known

  rate_step_settles :
      (n : Notification) (w : World)
      → status_of n.id w ≢ none
      → Settles n.id w (rate_step deps env msg n w).0 (rate_step deps env msg n w).1
  unfolding rate_step
  rate_step_settles n w known = elim (Bool-cases (ltb 0 (deps.rate_caps n.channel))) [
    | inl e ↦
        let same = allowed-same n w in
        rw e (
          Settles-after n.id _ _ same (
            rate_by_settles n (allowed n w).0 (allowed n w).1 (allowed-ok n w)
              (rw same.notifications known)))
    | inr e ↦ rw e (deliver-Settled n w known)
  ]

  preference_by_settles :
      (n : Notification) (r : Result Verdict) (w : World)
      → ((e : Err) → r ≢ err e)
      → status_of n.id w ≢ none
      → Settles n.id w (preference_by deps env msg n r w).0 (preference_by deps env msg n r w).1
  preference_by_settles n (err e) w fine known = absurd (fine e refl)
  preference_by_settles n (ok none) w fine known = rate_step_settles n w known
  preference_by_settles n (ok (some reason)) w fine known =
      dropped-Settled dropped_pref n reason w refl refl known

  pub preference_step_settles :
      (n : Notification) (w : World)
      → status_of n.id w ≢ none
      → Settles n.id w (preference_step deps env msg n w).0 (preference_step deps env msg n w).1
  unfolding preference_step
  preference_step_settles n w known =
      let same = preferred-same n w in
      Settles-after n.id _ _ same (
        preference_by_settles n (preferred n w).0 (preferred n w).1 (preferred-ok n w)
          (rw same.notifications known))
