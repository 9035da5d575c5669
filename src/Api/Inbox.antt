-- ===== src/Api/Inbox.antt =====
-- internal/api/handler/inbox.go, without the WebSocket stream.
pub mod Pages
use notify_hub.Prelude.{
  ℕ, String, Bool, true, Option, none, some, List, ◌==◌, string_eq, ◌&&◌, if◌then◌else◌, ltb, leb,
}
use notify_hub.Domain.Errors.{new_validation_error}
use notify_hub.Domain.Notification.{Uuid}
use notify_hub.Domain.InApp.{InAppMessage, InboxQuery}
use notify_hub.Domain.Tenant.{ApiClient}
use notify_hub.Db.World.{World, Env}
use notify_hub.Repository.InApp
use notify_hub.Api.Responses.{Reply, reject, respond, respond_empty}
use notify_hub.Api.Requests.{Request, Parsers, number_param, uuid_param, with_uuid}

-- recipientIDFromHeader, and the early return on its error.
abbrev pub with_recipient :
    {A : Type 0} → Request → (String → World → Reply A × World) → World → Reply A × World
with_recipient req k =
    if req.header "X-Recipient-ID" == ""
    then reject (new_validation_error "X-Recipient-ID header required")
    else k (req.header "X-Recipient-ID")

-- n > 0 && n <= 200
abbrev pub page_size : ℕ → Bool
page_size n = ltb 0 n && leb n 200

abbrev any_number : ℕ → Bool
any_number n = true

-- An offset is read only without a cursor.
abbrev offset_param : Parsers → Request → Option Uuid → ℕ
offset_param p req (some id) = 0
offset_param p req none = number_param p any_number 0 (req.query "offset")

abbrev pub inbox_query : Parsers → Request → Uuid → String → InboxQuery
inbox_query p req tenant recipient = record {
  tenant_id = tenant;
  recipient_id = recipient;
  unread_only = req.query "unread" == "true";
  limit = number_param p page_size 50 (req.query "limit");
  offset = offset_param p req (uuid_param p (req.query "after_id"));
  after_id = uuid_param p (req.query "after_id");
}

module _ (parsers : Parsers) (env : Env) (client : ApiClient) (req : Request) where
  unfoldable pub list : World → Reply (List InAppMessage) × World
  unfolding InApp.list
  list = with_recipient req (λ recipient.
      respond 200 (InApp.list env (inbox_query parsers req client.tenant_id recipient)))

  unfoldable pub unread_count : World → Reply ℕ × World
  unfolding InApp.count_unread_of
  unread_count =
      with_recipient req
        (λ recipient. respond 200 (InApp.count_unread_of env client.tenant_id recipient))

  unfoldable pub mark_read : World → Reply (Unit {0}) × World
  unfolding InApp.mark_read
  mark_read = with_recipient req (λ recipient.
      with_uuid "invalid id" (parsers.parse_uuid (req.param "id"))
        (λ id. respond_empty (InApp.mark_read env client.tenant_id id recipient)))

  unfoldable pub mark_all_read : World → Reply (Unit {0}) × World
  unfolding InApp.mark_all_read
  mark_all_read =
      with_recipient req
        (λ recipient. respond_empty (InApp.mark_all_read env client.tenant_id recipient))
