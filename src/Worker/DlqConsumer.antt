-- ===== src/Worker/DlqConsumer.antt =====
-- internal/worker/dlq_consumer.go: what Run does with one fetched record. `decoded` is what
-- json.Unmarshal makes of its value.
use notify_hub.Prelude.{Bool, true, false, Option, none, some}
use notify_hub.Domain.Errors.{Result, ok, err}
use notify_hub.Domain.DeadLetter.{DeadLetterMessage}
use notify_hub.Queue.Message.{DlqMessage}
use notify_hub.Db.World.{World, Env}
use notify_hub.Repository.DeadLetters

abbrev pub domain_msg : DlqMessage → DeadLetterMessage DlqMessage
domain_msg m = record {
  id = 0;
  tenant_id = m.original.tenant_id;
  notification_id = m.original.notification_id;
  channel = m.original.channel;
  original_topic = m.original_topic;
  payload = m;
  failure_reason = m.failure_reason;
  error_message = m.error_message;
  attempts = m.last_attempt;
  replayed_at = none;
  created_at = 0;
}

-- Whether the insert went through, and so whether Commit is called.
abbrev pub committed_by : Result (DeadLetterMessage DlqMessage) → Bool
committed_by (ok m) = true
committed_by (err e) = false

unfoldable pub consume : Env → Option DlqMessage → World → Bool × World
consume env none w = (true, w)
consume env (some m) w = let r = DeadLetters.create env (domain_msg m) w in (committed_by r.0, r.1)
