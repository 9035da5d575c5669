-- ===== src/Worker/Processor/Effects.antt =====
-- What a failed call of Process leaves behind.
use notify_hub.Prelude.{◌≡◌, ◌∙◌, arith, ℕ}
use notify_hub.Domain.Errors.{Err, Result, ok, err}
use notify_hub.Domain.Notification.{Notification, NotificationStatus, processing, Uuid}
use notify_hub.Queue.Message.{Message}
use notify_hub.Db.World.{World, Env}
use notify_hub.Db.Io.{Io, ◌>>=◌, continue, map_err}
use notify_hub.Repository.Notifications
use notify_hub.Service.Preferences.{is_allowed}
use notify_hub.Service.RateLimit.{allow}
use notify_hub.Worker.Processor.{
  ProcessorDeps, hour, rate_step, preference_step, mark_step, process,
}

-- Nothing that a redelivery of the message would repeat has been done.
pub record Unsent (w w' : World) : Type 0 where
  pub sent : w'.sent ≡ w.sent
  pub topics : w'.topics ≡ w.topics
  pub logs : w'.db.delivery_logs ≡ w.db.delivery_logs
  pub webhooks : w'.db.webhook_deliveries ≡ w.db.webhook_deliveries

Unsent-trans : {u v w : World} → Unsent u v → Unsent v w → Unsent u w
Unsent-trans p q = record {
  sent = q.sent ∙ p.sent;
  topics = q.topics ∙ p.topics;
  logs = q.logs ∙ p.logs;
  webhooks = q.webhooks ∙ p.webhooks;
}

-- An action that never sends, and one that has sent nothing when it fails.
record Clean {A : Type 0} (m : Io A) : Type 0 where
  at : (w : World) → Unsent w (m w).1

record FailsClean {A : Type 0} (m : Io A) : Type 0 where
  at : (w : World) (e : Err) → (m w).0 ≡ err e → Unsent w (m w).1

Clean-map_err : {A : Type 0} (f : Err → Err) (m : Io A) → Clean m → Clean (map_err f m)
Clean-map_err f m c = record { at = c.at }

module _ {A B : Type 0} where
  continue-FailsClean :
      (f : A → Io B) (r : Result A) (u w : World)
      → Unsent u w
      → ((a : A) → FailsClean (f a))
      → (e : Err) → (continue f r w).0 ≡ err e
      → Unsent u (continue f r w).1
  continue-FailsClean f (ok a) u w p c e h = Unsent-trans p ((c a).at w e h)
  continue-FailsClean f (err x) u w p c e h = p

  bind-FailsClean :
      (m : Io A) (f : A → Io B) → Clean m → ((a : A) → FailsClean (f a)) → FailsClean (m >>= f)
  bind-FailsClean m f cm cf = record {
    at = λ w e h. continue-FailsClean f (m w).0 w (m w).1 (cm.at w) cf e h;
  }

module _ (env : Env) where
  get_by_id-Clean : (t id : Uuid) → Clean (Notifications.get_by_id env t id)
  unfolding Notifications.get_by_id
  get_by_id-Clean t id = record { at = λ w. ground arith }

  update_status-Clean :
      (id : Uuid) (s : NotificationStatus) → Clean (Notifications.update_status env id s)
  unfolding Notifications.update_status
  update_status-Clean id s = record { at = λ w. ground arith }

module _ (deps : ProcessorDeps) (env : Env) (msg : Message) where
  is_allowed-Clean :
      (n : Notification) → Clean (is_allowed deps.zones env msg.tenant_id n.recipient_id n.channel)
  unfolding is_allowed
  is_allowed-Clean n = record { at = λ w. ground arith }

  allow-Clean :
      (n : Notification) (window cap : ℕ)
      → Clean (allow deps.score env n.recipient_id n.channel window cap)
  unfolding allow
  allow-Clean n window cap = record { at = λ w. ground arith }

  rate_step-FailsClean : (n : Notification) → FailsClean (rate_step deps env msg n)
  unfolding rate_step
  rate_step-FailsClean n = record {
    at = λ w e h. ground (arith, (allow-Clean n hour (deps.rate_caps n.channel)).at w);
  }

  preference_step-FailsClean : (n : Notification) → FailsClean (preference_step deps env msg n)
  unfolding preference_step
  preference_step-FailsClean n = record {
    at = λ w e h.
        let w' = (is_allowed deps.zones env msg.tenant_id n.recipient_id n.channel w).1 in
        ground (arith, (is_allowed-Clean n).at w, (rate_step-FailsClean n).at w' e);
  }

  mark_step-FailsClean : (n : Notification) → FailsClean (mark_step deps env msg n)
  unfolding mark_step
  mark_step-FailsClean n =
      bind-FailsClean _ _ (Clean-map_err _ _ (update_status-Clean env n.id processing))
        (λ _. preference_step-FailsClean n)

  -- When Process returns an error, so that the offset is not committed and Kafka redelivers, no
  -- provider was called, nothing was published, and no delivery log or webhook delivery was
  -- written: the redelivery repeats nothing.
  pub process-error-Unsent :
      (w : World) (e : Err)
      → (process deps env msg w).0 ≡ err e
      → Unsent w (process deps env msg w).1
  unfolding process
  process-error-Unsent =
      (bind-FailsClean _ _
        (Clean-map_err _ _ (get_by_id-Clean env msg.tenant_id msg.notification_id))
        mark_step-FailsClean).at
