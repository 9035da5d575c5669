-- ===== src/Repository/DeadLetters.antt =====
-- internal/repository/dead_letter.go. Every error is wrapped, a missing row too.
use notify_hub.Prelude.{ℕ, Bool, false, Option, none, some, List, map, ◌==◌, nat_eq, if◌then◌else◌}
use notify_hub.Domain.Errors.{wrapped}
use notify_hub.Domain.Notification.{Uuid, Channel}
use notify_hub.Domain.DeadLetter.{DeadLetterMessage, DeadLetterListParams}
use notify_hub.Queue.Message.{DlqMessage}
use notify_hub.Db.Models.{DeadLetterRow}
use notify_hub.Db.World.{Env}
use notify_hub.Db.Io.{
  Io, pure, ◌>>=◌, map_err, query_one, query_insert, query_many, query_checked, exec,
}
use notify_hub.Db.Limits.{int32}
use notify_hub.Db.DeadLetterQueries.{
  CreateDeadLetterParams, create_dead_letter, get_dead_letter_by_id, list_dead_letters,
  mark_dead_letter_replayed, delete_dead_letter, count_dead_letters_by_channel,
}

abbrev pub from_db_dead_letter : DeadLetterRow DlqMessage → DeadLetterMessage DlqMessage
from_db_dead_letter r = record {
  id = r.id;
  tenant_id = r.tenant_id;
  notification_id = r.notification_id;
  channel = r.channel;
  original_topic = r.original_topic;
  payload = r.payload;
  failure_reason = r.failure_reason;
  error_message = r.error_message;
  attempts = r.attempts;
  replayed_at = r.replayed_at;
  created_at = r.created_at;
}

-- The counts of attempts fit an int32.
abbrev pub create_params : DeadLetterMessage DlqMessage → CreateDeadLetterParams
create_params m = record {
  tenant_id = m.tenant_id;
  notification_id = m.notification_id;
  channel = m.channel;
  original_topic = m.original_topic;
  payload = m.payload;
  failure_reason = m.failure_reason;
  error_message = m.error_message;
  attempts = m.attempts;
}

-- params.Unreplayed != nil && *params.Unreplayed
abbrev pub is_set : Option Bool → Bool
is_set none = false
is_set (some b) = b

module _ (env : Env) where
  unfoldable pub create : DeadLetterMessage DlqMessage → Io (DeadLetterMessage DlqMessage)
  unfolding query_insert create_dead_letter
  create m = do
    row ←
        map_err (wrapped "create dead letter")
          (query_insert env (create_dead_letter (create_params m)))
    pure (from_db_dead_letter row)

  unfoldable pub get_by_id : Uuid → Uuid → Io (DeadLetterMessage DlqMessage)
  unfolding query_one get_dead_letter_by_id
  get_by_id tenant id = do
    row ←
        map_err (wrapped "get dead letter")
          (query_one env (λ w. (get_dead_letter_by_id id tenant w, w)))
    pure (from_db_dead_letter row)

  unfoldable pub list : DeadLetterListParams → Io (List (DeadLetterMessage DlqMessage))
  unfolding query_checked list_dead_letters
  list params = do
    let limit = if params.limit == 0 then 50 else params.limit
    rows ← map_err (wrapped "list dead letters") (
        query_checked env (
          list_dead_letters params.tenant_id params.channel (is_set params.unreplayed) (int32 limit)
            (int32 params.offset)))
    pure (map from_db_dead_letter rows)

  unfoldable pub mark_replayed : Uuid → Uuid → Io (Unit {0})
  unfolding exec mark_dead_letter_replayed
  mark_replayed tenant id =
      map_err (wrapped "mark dead letter replayed") (exec env (mark_dead_letter_replayed id tenant))

  unfoldable pub delete : Uuid → Uuid → Io (Unit {0})
  unfolding exec delete_dead_letter
  delete tenant id =
      map_err (wrapped "delete dead letter") (exec env (delete_dead_letter id tenant))

  unfoldable pub count_by_channel : Uuid → Io (List (Channel × ℕ))
  unfolding query_many count_dead_letters_by_channel
  count_by_channel tenant =
      map_err (wrapped "count dead letters by channel")
        (query_many env (count_dead_letters_by_channel tenant))
