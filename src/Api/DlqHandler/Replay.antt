-- ===== src/Api/DlqHandler/Replay.antt =====
-- internal/api/handler/dlq.go: Replay after the DLQ consumer has stored a message.
use notify_hub.Prelude.{
  ℕ, suc, true, some, ◌∷◌, ◌≡◌, refl, ◌∙◌, arith, find?, find?-update_where, length, Bool-cases,
  Option-cases, inl, inr, nat_eq, beq_refl,
}
use notify_hub.Domain.Errors.{internal, Result, ok, err, new_internal_error}
use notify_hub.Domain.Notification.{Uuid}
use notify_hub.Queue.Message.{DlqMessage, Record, notification}
use notify_hub.Queue.Producer.{publish}
use notify_hub.Db.Models.{DeadLetterRow}
use notify_hub.Db.World.{World, Env}
use notify_hub.Db.Io.{IsHealthy}
use notify_hub.Db.DeadLetterQueries.{owned, get_dead_letter_by_id, replayed, dead_letter_row}
use notify_hub.Repository.DeadLetters
use notify_hub.Repository.DeadLetters.{create_params}
use notify_hub.Worker.DlqConsumer.{domain_msg, consume}
use notify_hub.Api.DlqHandler.{to_app_error, ReplayReply, mark, republish, replay}

-- The record that a replay publishes.
abbrev pub replay_record : ℕ → DlqMessage → World → Record
replay_record max_attempts m w = record {
  topic = m.original_topic;
  key = m.original.recipient_id;
  value =
      notification
        (record m.original { attempt = 1; max_attempts = max_attempts; enqueued_at = w.now });
}

module _ (max_attempts : ℕ) (env : Env) (up : IsHealthy env) where
  -- Where no call fails, a Replay of a dead letter that the tenant has writes exactly one record:
  -- the original message, from the first attempt on, to the topic that it came from. The dead
  -- letter is then found as before with the time of the replay.
  pub replay_lem :
      (tenant id : Uuid) (w : World) (r : DeadLetterRow DlqMessage)
      → get_dead_letter_by_id id tenant w ≡ some r
      → ((replay max_attempts env tenant id w).0 ≡ ok ReplayReply.replayed)
        × ((replay max_attempts env tenant id w).1.topics
            ≡ replay_record max_attempts r.payload w ∷ w.topics)
        × (get_dead_letter_by_id id tenant (replay max_attempts env tenant id w).1
            ≡ some (replayed w.now r))
  unfolding replay republish mark publish DeadLetters.get_by_id DeadLetters.mark_replayed
      get_dead_letter_by_id
  replay_lem tenant id w r found =
      let back =
        find?-update_where (owned id tenant) (replayed w.now) w.db.dead_letters (λ x. refl) in
      (
        ground (arith, found, up w.calls, up (suc w.calls), up (suc (suc w.calls))),
        ground (arith, found, up w.calls, up (suc w.calls), up (suc (suc w.calls))),
        ground (arith, found, up w.calls, up (suc w.calls), up (suc (suc w.calls)), back),
      )

  consume_lem :
      (m : DlqMessage) (w : World)
      → ((consume env (some m) w).0 ≡ true)
        × ((consume env (some m) w).1.db.dead_letters
            ≡ dead_letter_row (create_params (domain_msg m)) (record w { calls = suc w.calls })
              ∷ w.db.dead_letters)
        × ((consume env (some m) w).1.topics ≡ w.topics)
        × ((consume env (some m) w).1.now ≡ w.now)
  unfolding consume DeadLetters.create
  consume_lem m w = ground (arith, up w.calls)

  -- Where no call fails, a dead letter that the DLQ consumer takes is committed and stored, and
  -- its Replay by the tenant of the original message, under the id that the database gave it,
  -- writes the original message with its attempts reset to the topic that it came from.
  pub replay-consume :
      (m : DlqMessage) (w : World)
      → let stored = consume env (some m) w in
        (stored.0 ≡ true)
        × ((replay max_attempts env m.original.tenant_id w.fresh stored.1).0
            ≡ ok ReplayReply.replayed)
        × ((replay max_attempts env m.original.tenant_id w.fresh stored.1).1.topics
            ≡ replay_record max_attempts m w ∷ w.topics)
  unfolding get_dead_letter_by_id
  replay-consume m w =
      let (committed, rows, topics, now) = consume_lem m w in
      let (answer, written, _) =
        replay_lem m.original.tenant_id w.fresh (consume env (some m) w).1
          (dead_letter_row (create_params (domain_msg m)) (record w { calls = suc w.calls }))
          (rw (rows, beq_refl w.fresh, beq_refl m.original.tenant_id) refl) in
      (committed, answer, written ∙ rw (topics, now) refl)

-- What the result of a Replay says of the world before it.
abbrev pub Answered : Uuid → Uuid → World → Result ReplayReply × World → Type 0
Answered tenant id w (ok reply, w') =
    (r : DeadLetterRow DlqMessage) × (get_dead_letter_by_id id tenant w ≡ some r)
    × (length w'.topics ≡ suc (length w.topics))
Answered tenant id w (err e, w') =
    (to_app_error e ≡ internal) × (w'.topics ≡ w.topics) × (w'.db ≡ w.db)

-- Whichever calls fail: Replay succeeds only for a dead letter that the tenant has, with one more
-- record on Kafka. Each of its errors answers as an internal one, that of a dead letter which does
-- not exist included, and leaves Kafka and the tables as they were.
pub replay-internal :
    (max_attempts : ℕ) (env : Env) (tenant id : Uuid) (w : World)
    → Answered tenant id w (replay max_attempts env tenant id w)
unfolding replay republish mark publish DeadLetters.get_by_id DeadLetters.mark_replayed
    get_dead_letter_by_id to_app_error new_internal_error
replay-internal max_attempts env tenant id w = elim (Bool-cases (env.faults w.calls)) [
  | inl e ↦ rw e (refl, refl, refl)
  | inr e ↦ elim (Option-cases (find? (owned id tenant) w.db.dead_letters)) [
    | inl f ↦ rw (e, f) (refl, refl, refl)
    | inr (r, f) ↦ elim (Bool-cases (env.faults (suc w.calls))) [
      | inl g ↦ rw (e, f, g) (refl, refl, refl)
      | inr g ↦ elim (Bool-cases (env.faults (suc (suc w.calls)))) [
        | inl h ↦ rw (e, f, g, h) (r, f, refl)
        | inr h ↦ rw (e, f, g, h) (r, f, refl)
      ]
    ]
  ]
]
