-- ===== src/Queue/Producer.antt =====
-- internal/queue/producer.go: Publish and PublishDLQ. A write that Kafka acknowledges appends one
-- record; trace headers carry no data of the program and are left out.
use notify_hub.Prelude.{String, ◌∷◌, if◌then◌else◌, suc}
use Prim.Native.String.{◌++◌}
use notify_hub.Domain.Errors.{wrapped, plain, ok, err}
use notify_hub.Queue.Message.{Value, DlqMessage, dead_letter, dlq_topic_for_channel}
use notify_hub.Db.World.{Env}
use notify_hub.Db.Io.{Io}

module _ (env : Env) where
  unfoldable pub publish : String → String → Value → Io (Unit {0})
  publish topic key value w =
      if env.faults w.calls
      then (
        err (wrapped ("kafka publish to " ++ topic) (plain "write failed")),
        record w { calls = suc w.calls },
      )
      else (
        ok tt,
        record w {
          calls = suc w.calls;
          topics = record { topic = topic; key = key; value = value } ∷ w.topics;
        },
      )

  unfoldable pub publish_dlq : DlqMessage → Io (Unit {0})
  unfolding publish
  publish_dlq msg =
      publish (dlq_topic_for_channel msg.original.channel) msg.original.recipient_id
        (dead_letter msg)
