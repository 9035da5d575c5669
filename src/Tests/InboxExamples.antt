-- ===== src/Tests/InboxExamples.antt =====
-- The theorems on the inbox, its provider and the hub at a concrete world.
use notify_hub.Prelude.{
  suc, false, some, [], ◌∷◌, map, take, find?, ◌≡◌, refl, arith, ◌==◌, nat_eq, string_eq,
}
use notify_hub.Domain.Errors.{ok}
use notify_hub.Domain.Json.{text, get}
use notify_hub.Domain.Notification.{Notification}
use notify_hub.Domain.InApp.{InboxQuery}
use notify_hub.Db.Models.{InappMessageRow}
use notify_hub.Db.World.{World}
use notify_hub.Db.InAppQueries.{count_unread, get_in_app_message, inapp_row, read}
use notify_hub.Repository.Notifications.{db_notification_to_domain}
use notify_hub.Repository.InApp
use notify_hub.Repository.InApp.{from_db_in_app, insert_params}
use notify_hub.Repository.InApp.Pages.{inbox, history, list-next_page, list_since-follows}
use notify_hub.Repository.InApp.Marks.{mark_all_read-count_unread}
use notify_hub.Repository.InApp.Steps.{InboxStep, InboxSteps, InboxSteps-read}
use notify_hub.Provider.Content.{extract_title_body}
use notify_hub.Provider.InApp as Provider
use notify_hub.Provider.InApp.{Texts, inapp_message, channel_of}
use notify_hub.Provider.InApp.Persisted.{send-persisted}
use notify_hub.Realtime.Hub.{Hub, members, new_hub, subscribe, publish}
use notify_hub.Realtime.Hub.Delivery.{Delivered}
use notify_hub.Realtime.Hub.Steps.{HubStep, HubSteps, HubSteps-publish}
use notify_hub.Api.Requests.{Request}
use notify_hub.Api.Inbox
use notify_hub.Api.Inbox.Pages.{OwnPage, list-OwnPage}
use notify_hub.Tests.Data.{calm, waiting, unread, tables, world, ada, parsers}

abbrev earlier : InappMessageRow
earlier = record unread { id = 10; created_at = 60 }

abbrev mail : World
mail = record world { db = record tables { inapp_messages = unread ∷ earlier ∷ [] } }

abbrev next_query : InboxQuery
next_query = record {
  tenant_id = 9;
  recipient_id = "ada";
  unread_only = false;
  limit = 2;
  offset = 0;
  after_id = some 11;
}

list-next_page_example :
    InApp.list calm next_query mail
    ≡ (ok (map from_db_in_app (take 2 (earlier ∷ []))), record mail { calls = 2 })
unfolding inbox get_in_app_message
list-next_page_example =
    list-next_page calm (λ n. refl) next_query mail unread [] (earlier ∷ [])
      (((λ e. ground (arith, e)), tt), (tt, tt)) refl refl refl (omega arith)

list_since-follows_example :
    InApp.list_since calm 9 "ada" 10 mail
    ≡ (ok (map from_db_in_app (take 200 (unread ∷ []))), record mail { calls = 2 })
unfolding history get_in_app_message
list_since-follows_example =
    list_since-follows calm (λ n. refl) 9 "ada" mail earlier [] (unread ∷ [])
      (((λ e. ground (arith, e)), tt), (tt, tt)) refl refl

mark_all_read-count_unread_example :
    count_unread 9 "ada" (InApp.mark_all_read calm 9 "ada" mail).1 ≡ 0
mark_all_read-count_unread_example =
    mark_all_read-count_unread calm (λ n. refl) 9 9 "ada" "ada" mail

-- A message that was read at 75, and a later mark of all.
abbrev seen : InappMessageRow
seen = read 75 unread

abbrev seen_mail : World
seen_mail = record world { db = record tables { inapp_messages = seen ∷ earlier ∷ [] } }

InboxSteps-read_example :
    find? (λ s. s.id == 11) (InApp.mark_all_read calm 9 "ada" seen_mail).1.db.inapp_messages
    ≡ some seen
InboxSteps-read_example =
    InboxSteps-read calm seen_mail _ 11 seen
      (InboxSteps.step (InboxStep.marked_all 9 "ada" seen_mail) (InboxSteps.stay _))
      ((((λ e. ground (arith, e)), tt), (tt, tt)), (omega arith, (omega arith, tt))) refl refl

abbrev texts : Texts
texts = record { bytes = λ s. []; uuid_text = λ u. "uuid" }

abbrev greeting : Notification
greeting = record (db_notification_to_domain waiting) {
  payload = ("title", text "Hi") ∷ ("body", text "Hello") ∷ [];
}

send-persisted_example :
    ((Provider.send texts calm greeting world).0 ≡ ok tt)
    × (count_unread 9 "ada" (Provider.send texts calm greeting world).1
        ≡ suc (count_unread 9 "ada" world))
    × ((Provider.send texts calm greeting world).1.published
        ≡ (
          channel_of texts greeting,
          from_db_in_app (
              inapp_row
                (insert_params (inapp_message greeting (extract_title_body greeting.payload)))
                world),
        )
          ∷ [])
unfolding extract_title_body get
send-persisted_example = send-persisted texts calm (λ n. refl) greeting world refl

abbrev request_of : Request
request_of = record { header = λ name. "ada"; query = λ name. ""; param = λ name. "" }

list-OwnPage_example : OwnPage 9 "ada" 200 (from_db_in_app unread ∷ from_db_in_app earlier ∷ [])
unfolding Inbox.list InApp.list_offset
list-OwnPage_example =
    list-OwnPage parsers calm ada request_of mail 200
      (from_db_in_app unread ∷ from_db_in_app earlier ∷ []) refl

-- A subscriber of a key, and what it holds when a message is published.
abbrev listener : Hub
listener = (subscribe (57 ∷ []) (new_hub 1)).1

HubSteps-publish_example :
    (after : Hub) × (publish (57 ∷ []) (from_db_in_app unread) listener ≡ some after)
    × (after.conns ≡ listener.conns)
    × (after.next ≡ listener.next)
    × Delivered (from_db_in_app unread) (members (57 ∷ []) listener.conns) listener after
HubSteps-publish_example =
    HubSteps-publish 1 listener (57 ∷ []) (from_db_in_app unread)
      (HubSteps.step (HubSteps.stay (new_hub 1)) (HubStep.subscribed (57 ∷ []) (new_hub 1)))
