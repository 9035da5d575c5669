-- ===== src/Api/Handlers/Notifications.antt =====
-- internal/api/handler/notification.go.
use notify_hub.Prelude.{ℕ, String, Bool, List, [], ◌∷◌, map}
use notify_hub.Domain.Errors.{Err, error_text}
use notify_hub.Domain.Notification.{Notification, SendRequest, BulkSendRequest}
use notify_hub.Domain.Tenant.{ApiClient}
use notify_hub.Db.World.{World, Env}
use notify_hub.Db.Io.{pure, ◌>>=◌}
use notify_hub.Repository.Notifications as Repository
use notify_hub.Service.Notifications as Service
use notify_hub.Api.Responses.{Reply, success, Body, json_error, respond}
use notify_hub.Api.Requests.{Request, Parsers, page_param, with_uuid, with_body}

-- The data of a list, and the page, page size and total of its meta.
pub record Listed (A : Type 0) : Type 0 where
  pub items : List A
  pub page : ℕ
  pub per_page : ℕ
  pub total : ℕ

-- The end of SendBulk: where nothing was accepted, the first error.
unfoldable pub bulk_reply : List Notification × List Err → Reply (List Notification × List String)
unfolding json_error error_text
bulk_reply ([], []) = success 202 ([], [])
bulk_reply ([], e ∷ es) = json_error e
bulk_reply (n ∷ ns, es) = success 202 (n ∷ ns, map error_text es)

module _ (parsers : Parsers) (is_valid : SendRequest → Bool) (max_retries : ℕ) (env : Env)
    (client : ApiClient) where
  unfoldable pub send : Body SendRequest → World → Reply Notification × World
  unfolding Service.send
  send body =
      with_body body
        (λ req. respond 202 (Service.send is_valid max_retries env client.tenant_id req))

  unfoldable pub send_bulk :
      (BulkSendRequest → Bool)
      → Body BulkSendRequest
      → World
      → Reply (List Notification × List String) × World
  unfolding Service.send_bulk bulk_reply
  send_bulk valid body = with_body body (λ req w.
      let r = Service.send_bulk is_valid max_retries env (valid req) client.tenant_id req w in
      (bulk_reply r.0, r.1))

  unfoldable pub get_by_id : Request → World → Reply Notification × World
  unfolding Repository.get_by_id
  get_by_id req =
      with_uuid "invalid notification id" (parsers.parse_uuid (req.param "id"))
        (λ id. respond 200 (Repository.get_by_id env client.tenant_id id))

  unfoldable pub list : Request → World → Reply (Listed Notification) × World
  unfolding Repository.list
  list req =
      let page = page_param parsers 1 (req.query "page") in
      let per_page = page_param parsers 20 (req.query "per_page") in
      respond 200 (
        Repository.list env client.tenant_id (req.query "recipient_id") (req.query "channel")
          (req.query "status") page per_page
        >>= λ r. pure (record { items = r.0; page = page; per_page = per_page; total = r.1 }))

  unfoldable pub cancel : Request → World → Reply Notification × World
  unfolding Repository.cancel
  cancel req =
      with_uuid "invalid notification id" (parsers.parse_uuid (req.param "id"))
        (λ id. respond 200 (Repository.cancel env client.tenant_id id))
