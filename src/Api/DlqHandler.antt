-- ===== src/Api/DlqHandler.antt =====
-- internal/api/handler/dlq.go, Replay behind the parsing of the header and of the id;
-- internal/api/handler/errors.go.
pub mod Replay
use notify_hub.Prelude.{ℕ, String, Bool, true, false, Option, none, some}
use notify_hub.Domain.Errors.{
  Code, internal, Err, Result, ok, err, new_internal_error, as_app_error,
}
use notify_hub.Domain.Notification.{Uuid, Time}
use notify_hub.Domain.DeadLetter.{DeadLetterMessage}
use notify_hub.Queue.Message.{Message, DlqMessage, notification}
use notify_hub.Queue.Producer.{publish}
use notify_hub.Db.World.{World, Env}
use notify_hub.Db.Io.{Io, ◌>>=◌, ◌>>◌, map_err}
use notify_hub.Repository.DeadLetters

-- toAppError: the code that an error answers with.
abbrev code_or_internal : Option Code → Code
code_or_internal none = internal
code_or_internal (some c) = c

unfoldable pub to_app_error : Err → Code
unfolding as_app_error
to_app_error e = code_or_internal (as_app_error e)

-- The message that is published again: from the first attempt on.
abbrev pub reset : ℕ → Time → Message → Message
reset max_attempts now m = record m { attempt = 1; max_attempts = max_attempts; enqueued_at = now }

-- The body of the answer of a replay: with or without the warning that the mark failed.
pub data ReplayReply : Type 0 where
  replayed replayed_unmarked : ReplayReply

abbrev pub reply_by : Result (Unit {0}) → ReplayReply
reply_by (ok u) = replayed
reply_by (err e) = replayed_unmarked

module _ (max_attempts : ℕ) (env : Env) where
  unfoldable pub mark : Uuid → Uuid → Io ReplayReply
  mark tenant id w = let r = DeadLetters.mark_replayed env tenant id w in (ok (reply_by r.0), r.1)

  unfoldable pub republish : DlqMessage → Io (Unit {0})
  republish m w =
      map_err (new_internal_error "failed to publish replay")
        (publish env m.original_topic m.original.recipient_id
          (notification (reset max_attempts w.now m.original)))
        w

  unfoldable pub replay : Uuid → Uuid → Io ReplayReply
  replay tenant id = do
    m ← DeadLetters.get_by_id env tenant id
    republish m.payload >> mark tenant id
