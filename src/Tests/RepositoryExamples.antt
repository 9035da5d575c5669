-- ===== src/Tests/RepositoryExamples.antt =====
-- The theorems on the repositories and the dead-letter handler at a concrete world.
use notify_hub.Prelude.{Mem, ◌+◌, ◌≤◌, true, false, some, [], ◌∷◌, ◌≡◌, ◌≢◌, ◌⊎◌, refl, All, after}
use notify_hub.Domain.Errors.{ok}
use notify_hub.Domain.Notification.{Notification, SendRequest, dropped, pending, queued}
use notify_hub.Domain.Template.{Template}
use notify_hub.Db.Models.{NotificationRow, TemplateRow}
use notify_hub.Db.NotificationQueries.{with_status, get_notification_by_id}
use notify_hub.Db.TemplateQueries.{get_template_by_id, get_template_by_name, retire, revise}
use notify_hub.Db.DeadLetterQueries.{get_dead_letter_by_id, replayed}
use notify_hub.Repository.Notifications
use notify_hub.Repository.Notifications.{db_notification_to_domain}
use notify_hub.Repository.Notifications.Lifecycle.{
  cancelled_row, IsDue, get_notification_by_id-cancel, cancel_lem, list_due_scheduled-IsDue,
}
use notify_hub.Repository.Templates
use notify_hub.Repository.Templates.{db_template_to_domain, given, given_option, update_params}
use notify_hub.Repository.Templates.Versions.{update-version, delete-hides}
use notify_hub.Repository.Webhooks
use notify_hub.Repository.Webhooks.{db_webhook_endpoint_to_domain}
use notify_hub.Service.Webhooks.Deliveries.{Serves, list_active_for_event-Serves}
use notify_hub.Worker.DlqConsumer.{consume}
use notify_hub.Api.DlqHandler.{ReplayReply, replay}
use notify_hub.Api.DlqHandler.Replay.{
  Answered, replay_record, replay_lem, replay-consume, replay-internal,
}
use notify_hub.Tests.Data.{
  calm, waiting, welcome, successor, endpoint, buried, dead, world, request, revision,
}

get_notification_by_id-cancel_example :
    get_notification_by_id 1 9 (Notifications.cancel calm 9 1 world).1
    ≡ after (cancelled_row 9 1 100) (get_notification_by_id 1 9 world)
get_notification_by_id-cancel_example = get_notification_by_id-cancel calm (λ n. refl) 9 1 9 1 world

abbrev cancelled : Notification
cancelled = db_notification_to_domain (cancelled_row 9 1 100 waiting)

cancel_lem_example :
    (cancelled.status ≡ dropped)
    × (cancelled.id ≡ 1)
    × (cancelled.tenant_id ≡ 9)
    × ((r : NotificationRow) × Mem r (waiting ∷ [])
        × ((r.status ≡ pending) ⊎ (r.status ≡ queued))
        × (r.id ≡ 1)
        × (r.tenant_id ≡ some 9)
        × (cancelled ≡ db_notification_to_domain (with_status dropped 100 r)))
unfolding Notifications.cancel
cancel_lem_example = cancel_lem calm 9 1 world cancelled refl

list_due_scheduled-IsDue_example :
    (1 ≤ 10) × All (IsDue 100) (db_notification_to_domain waiting ∷ [])
unfolding Notifications.list_due_scheduled
list_due_scheduled-IsDue_example =
    list_due_scheduled-IsDue calm 10 world (db_notification_to_domain waiting ∷ []) refl

-- Tenant 2 asks for a key of tenant 9.
abbrev clash : SendRequest
clash = record request { idempotency_key = some "order-7" }

abbrev revised : Template
revised =
    db_template_to_domain
      (revise (update_params (db_template_to_domain welcome) revision) 100 welcome)

update-version_example :
    (old : TemplateRow) × (get_template_by_id 3 9 world ≡ some old)
    × (revised.version ≡ old.version + 1)
    × (revised.name ≡ old.name)
    × (revised.channel ≡ old.channel)
    × (revised.body_template ≡ given revision.body_template old.body_template)
    × (revised.subject_template ≡ given_option revision.subject_template old.subject_template)
    × (revised.is_active ≡ given revision.is_active old.is_active)
unfolding Templates.update
update-version_example = update-version calm 9 3 revision world revised refl

abbrev gone : Template
gone = db_template_to_domain (retire 100 welcome)

delete-hides_example : (gone.id ≡ 3) × (gone.is_active ≡ false) × (successor.id ≢ 3)
unfolding Templates.delete get_template_by_name
delete-hides_example = delete-hides calm 9 3 world gone "welcome" successor refl refl

list_active_for_event-Serves_example :
    All (Serves 9 "notification.delivered") (db_webhook_endpoint_to_domain endpoint ∷ [])
unfolding Webhooks.list_active_for_event
list_active_for_event-Serves_example =
    list_active_for_event-Serves calm 9 "notification.delivered" world
      (db_webhook_endpoint_to_domain endpoint ∷ []) refl

replay_lem_example :
    ((replay 3 calm 9 4 world).0 ≡ ok ReplayReply.replayed)
    × ((replay 3 calm 9 4 world).1.topics ≡ replay_record 3 dead world ∷ [])
    × (get_dead_letter_by_id 4 9 (replay 3 calm 9 4 world).1 ≡ some (replayed 100 buried))
unfolding get_dead_letter_by_id
replay_lem_example = replay_lem 3 calm (λ n. refl) 9 4 world buried refl

replay-consume_example :
    ((consume calm (some dead) world).0 ≡ true)
    × ((replay 3 calm 9 20 (consume calm (some dead) world).1).0 ≡ ok ReplayReply.replayed)
    × ((replay 3 calm 9 20 (consume calm (some dead) world).1).1.topics
        ≡ replay_record 3 dead world ∷ [])
replay-consume_example = replay-consume 3 calm (λ n. refl) dead world

replay-internal_example : Answered 2 4 world (replay 3 calm 2 4 world)
replay-internal_example = replay-internal 3 calm 2 4 world
