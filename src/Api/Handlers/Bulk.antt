-- ===== src/Api/Handlers/Bulk.antt =====
-- internal/api/handler/notification.go: what SendBulk answers.
use notify_hub.Prelude.{
  ℕ, ◌+◌, String, Bool, true, List, [], ◌∷◌, length, length-map, ◌≡◌, sym, ap, arith,
}
use notify_hub.Domain.Errors.{Err, error_text}
use notify_hub.Domain.Notification.{Notification, SendRequest, BulkSendRequest}
use notify_hub.Domain.Tenant.{ApiClient}
use notify_hub.Db.World.{World, Env}
use notify_hub.Service.Notifications.Sends.{send_bulk-length}
use notify_hub.Api.Responses.{Reply, success, json_error, decoded, decode_json}
use notify_hub.Api.Requests.{Parsers}
use notify_hub.Api.Handlers.Notifications.{bulk_reply, send_bulk}

reply_inj :
    {A : Type 0} (s t : ℕ) (a b : A)
    → Path (Reply A) (success s a) (success t b)
    → (s ≡ t) × (a ≡ b)
reply_inj s t a b h = (cc, cc)

-- A success reports on all: 202, with as many entries as results and errors.
bulk_reply-success :
    (r : List Notification × List Err) (status : ℕ) (ns : List Notification) (es : List String)
    → bulk_reply r ≡ success status (ns, es)
    → (status ≡ 202) × (length ns + length es ≡ length r.0 + length r.1)
unfolding bulk_reply json_error
bulk_reply-success ([], []) status ns es h =
    let (p, q) = reply_inj 202 status _ _ h in
    (sym p, omega (arith, ap (λ z. length z.0) q, ap (λ z. length z.1) q))
bulk_reply-success ([], e ∷ errs) status ns es h = absurd (ground (arith, h))
bulk_reply-success (n ∷ sent, errs) status ns es h =
    let (p, q) = reply_inj 202 status _ _ h in
    (
      sym p,
      omega (arith, ap (λ z. length z.0) q, ap (λ z. length z.1) q, length-map error_text errs),
    )

-- Whatever fails: where POST /notifications/bulk answers a request that its validator accepts
-- with a success, the status is 202 and every recipient is accounted for: the accepted
-- notifications and the errors are together as many as the recipients.
pub send_bulk-accounts :
    (parsers : Parsers) (is_valid : SendRequest → Bool) (max_retries : ℕ) (env : Env)
    (client : ApiClient) (valid : BulkSendRequest → Bool) (req : BulkSendRequest) (w : World)
    (status : ℕ) (ns : List Notification) (es : List String)
    → valid req ≡ true
    → (send_bulk parsers is_valid max_retries env client valid (decoded req) w).0
      ≡ success status (ns, es)
    → (status ≡ 202) × (length ns + length es ≡ length req.recipients)
unfolding send_bulk decode_json
send_bulk-accounts parsers is_valid max_retries env client valid req w status ns es v h =
    let all = send_bulk-length is_valid max_retries env client.tenant_id req w in
    let told = bulk_reply-success _ status ns es (rw v at h) in (told.0, omega (arith, told.1, all))
