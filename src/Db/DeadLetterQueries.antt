-- ===== src/Db/DeadLetterQueries.antt =====
-- internal/db/dead_letter.sql.go: the queries over dead_letter_messages. The payload column holds
-- the JSON of the envelope, which stands here for its text.
use notify_hub.Prelude.{
  ℕ, suc, String, Bool, true, Option, none, some, List, [], ◌∷◌, ◌&&◌, ◌||◌, not, ◌==◌, nat_eq,
  string_eq, find?, filter, update_where, leb, sort_by, if◌then◌else◌,
}
use notify_hub.Domain.Notification.{Uuid, Time, Channel}
use notify_hub.Domain.Delivery.{DlqReason}
use notify_hub.Queue.Message.{DlqMessage}
use notify_hub.Db.Models.{DeadLetterRow}
use notify_hub.Db.World.{World}
use notify_hub.Db.Limits.{offset_by}

pub record CreateDeadLetterParams : Type 0 where
  pub tenant_id : Uuid
  pub notification_id : Uuid
  pub channel : Channel
  pub original_topic : String
  pub payload : DlqMessage
  pub failure_reason : DlqReason
  pub error_message : String
  pub attempts : ℕ

abbrev pub dead_letter_row : CreateDeadLetterParams → World → DeadLetterRow DlqMessage
dead_letter_row p w = record {
  id = w.fresh;
  tenant_id = p.tenant_id;
  notification_id = p.notification_id;
  channel = p.channel;
  original_topic = p.original_topic;
  payload = p.payload;
  failure_reason = p.failure_reason;
  error_message = p.error_message;
  attempts = p.attempts;
  replayed_at = none;
  created_at = w.now;
}

unfoldable pub create_dead_letter :
    CreateDeadLetterParams → World → Option (DeadLetterRow DlqMessage) × World
create_dead_letter p w = (
  some (dead_letter_row p w),
  record w {
    fresh = suc w.fresh;
    db = record w.db { dead_letters = dead_letter_row p w ∷ w.db.dead_letters };
  },
)

abbrev pub owned : Uuid → Uuid → DeadLetterRow DlqMessage → Bool
owned id tenant r = r.id == id && r.tenant_id == tenant

unfoldable pub get_dead_letter_by_id : Uuid → Uuid → World → Option (DeadLetterRow DlqMessage)
get_dead_letter_by_id id tenant w = find? (owned id tenant) w.db.dead_letters

abbrev pub is_unreplayed : DeadLetterRow DlqMessage → Bool
is_unreplayed r = elim r.replayed_at [ none ↦ true | some t ↦ not true ]

abbrev pub listed : Uuid → Channel → Bool → DeadLetterRow DlqMessage → Bool
listed tenant channel unreplayed_only r =
    r.tenant_id == tenant
    && ((channel == "" || channel == r.channel) && (not unreplayed_only || is_unreplayed r))

unfoldable pub list_dead_letters :
    Uuid → Channel → Bool → Option ℕ → Option ℕ → World → Option (List (DeadLetterRow DlqMessage))
unfolding sort_by
list_dead_letters tenant channel unreplayed_only limit offset w = offset_by offset limit (
    sort_by (λ a b. leb b.created_at a.created_at)
      (filter (listed tenant channel unreplayed_only) w.db.dead_letters))

abbrev pub replayed : Time → DeadLetterRow DlqMessage → DeadLetterRow DlqMessage
replayed now r = record r { replayed_at = some now }

unfoldable pub mark_dead_letter_replayed : Uuid → Uuid → World → World
mark_dead_letter_replayed id tenant w = record w {
  db = record w.db {
    dead_letters = update_where (owned id tenant) (replayed w.now) w.db.dead_letters;
  };
}

unfoldable pub delete_dead_letter : Uuid → Uuid → World → World
delete_dead_letter id tenant w = record w {
  db = record w.db { dead_letters = filter (λ r. not (owned id tenant r)) w.db.dead_letters };
}

-- GROUP BY channel, with the count of each group.
abbrev pub count_in : Channel → List (Channel × ℕ) → List (Channel × ℕ)
count_in ch [] = (ch, 1) ∷ []
count_in ch ((c, k) ∷ groups) = if c == ch then (c, suc k) ∷ groups else (c, k) ∷ count_in ch groups

abbrev pub count_channels : List (DeadLetterRow DlqMessage) → List (Channel × ℕ)
count_channels [] = []
count_channels (r ∷ rows) = count_in r.channel (count_channels rows)

unfoldable pub count_dead_letters_by_channel : Uuid → World → List (Channel × ℕ)
count_dead_letters_by_channel tenant w =
    count_channels (filter (λ r. r.tenant_id == tenant && is_unreplayed r) w.db.dead_letters)
