-- ===== src/Api/Handlers/DeadLetters.antt =====
-- internal/api/handler/dlq.go: the requests, with Replay behind them from Api/DlqHandler.
use notify_hub.Prelude.{
  ℕ, Bool, true, none, some, List, ◌==◌, string_eq, ◌&&◌, ltb, leb, if◌then◌else◌,
}
use notify_hub.Domain.Errors.{new_validation_error}
use notify_hub.Domain.Notification.{Uuid}
use notify_hub.Domain.DeadLetter.{DeadLetterMessage, DeadLetterListParams}
use notify_hub.Queue.Message.{DlqMessage}
use notify_hub.Db.World.{World, Env}
use notify_hub.Repository.DeadLetters as Repository
use notify_hub.Api.Responses.{Reply, reject, respond, respond_empty}
use notify_hub.Api.Requests.{Request, Parsers, number_param, with_uuid}
use notify_hub.Api.DlqHandler as Replays
use notify_hub.Api.DlqHandler.{ReplayReply}

-- tenantIDFromHeader, and the early return on its error.
abbrev pub with_tenant :
    {A : Type 0} → Parsers → Request → (Uuid → World → Reply A × World) → World → Reply A × World
with_tenant parsers req k =
    if req.header "X-Tenant-ID" == ""
    then reject (new_validation_error "X-Tenant-ID header required")
    else with_uuid "invalid X-Tenant-ID" (parsers.parse_uuid (req.header "X-Tenant-ID")) k

-- n > 0 && n <= 500
abbrev page_size : ℕ → Bool
page_size n = ltb 0 n && leb n 500

abbrev any_number : ℕ → Bool
any_number n = true

abbrev pub list_params : Parsers → Request → Uuid → DeadLetterListParams
list_params parsers req tenant = record {
  tenant_id = tenant;
  channel = req.query "channel";
  unreplayed = if req.query "unreplayed" == "true" then some true else none;
  limit = number_param parsers page_size 50 (req.query "limit");
  offset = number_param parsers any_number 0 (req.query "offset");
}

module _ (parsers : Parsers) (env : Env) (req : Request) where
  unfoldable pub list : World → Reply (List (DeadLetterMessage DlqMessage)) × World
  list =
      with_tenant parsers req
        (λ tenant. respond 200 (Repository.list env (list_params parsers req tenant)))

  unfoldable pub get_by_id : World → Reply (DeadLetterMessage DlqMessage) × World
  get_by_id = with_tenant parsers req (λ tenant.
      with_uuid "invalid id" (parsers.parse_uuid (req.param "id"))
        (λ id. respond 200 (Repository.get_by_id env tenant id)))

  unfoldable pub replay : ℕ → World → Reply ReplayReply × World
  replay max_attempts = with_tenant parsers req (λ tenant.
      with_uuid "invalid id" (parsers.parse_uuid (req.param "id"))
        (λ id. respond 200 (Replays.replay max_attempts env tenant id)))

  unfoldable pub delete : World → Reply (Unit {0}) × World
  delete = with_tenant parsers req (λ tenant.
      with_uuid "invalid id" (parsers.parse_uuid (req.param "id"))
        (λ id. respond_empty (Repository.delete env tenant id)))
