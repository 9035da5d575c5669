-- ===== src/Api/Handlers/Templates.antt =====
-- internal/api/handler/template.go. `valid` is the validator's verdict on the request.
use notify_hub.Prelude.{String, Bool}
use notify_hub.Domain.Json.{Payload}
use notify_hub.Domain.Template.{Template, CreateTemplateRequest, UpdateTemplateRequest}
use notify_hub.Domain.Tenant.{ApiClient}
use notify_hub.Db.World.{World, Env}
use notify_hub.Db.Io.{pure, ◌>>=◌}
use notify_hub.Repository.Templates as Repository
use notify_hub.Service.Validation.{validated}
use notify_hub.Service.Templates as Service
use notify_hub.Service.Templates.{Engine}
use notify_hub.Api.Responses.{Reply, Body, respond}
use notify_hub.Api.Requests.{Request, Parsers, page_param, with_uuid, with_body}
use notify_hub.Api.Handlers.Notifications.{Listed}

module _ (parsers : Parsers) (engine : Engine) (env : Env) (client : ApiClient) where
  unfoldable pub create :
      (CreateTemplateRequest → Bool) → Body CreateTemplateRequest → World → Reply Template × World
  create valid body =
      with_body body
        (λ req. respond 201 (Service.create engine env (valid req) client.tenant_id req))

  unfoldable pub list : (String → String → Bool) → Request → World → Reply (Listed Template) × World
  list collate req =
      let page = page_param parsers 1 (req.query "page") in
      let per_page = page_param parsers 20 (req.query "per_page") in
      respond 200 (
        Repository.list env collate client.tenant_id (req.query "channel") page per_page >>= λ r.
        pure (record { items = r.0; page = page; per_page = per_page; total = r.1 }))

  unfoldable pub get_by_id : Request → World → Reply Template × World
  get_by_id req =
      with_uuid "invalid template id" (parsers.parse_uuid (req.param "id"))
        (λ id. respond 200 (Repository.get_by_id env client.tenant_id id))

  unfoldable pub update :
      (UpdateTemplateRequest → Bool)
      → Request
      → Body UpdateTemplateRequest
      → World
      → Reply Template × World
  update valid req body =
      with_uuid "invalid template id" (parsers.parse_uuid (req.param "id")) (λ id.
        with_body body (λ change.
          respond 200 (Service.update engine env (valid change) client.tenant_id id change)))

  unfoldable pub delete : Request → World → Reply Template × World
  delete req =
      with_uuid "invalid template id" (parsers.parse_uuid (req.param "id"))
        (λ id. respond 200 (Repository.delete env client.tenant_id id))

  -- The payload is all that the request of a preview holds.
  unfoldable pub preview :
      (Payload → Bool) → Request → Body Payload → World → Reply (String × String) × World
  preview valid req body =
      with_uuid "invalid template id" (parsers.parse_uuid (req.param "id")) (λ id.
        with_body body (λ payload. respond 200 (
          validated (valid payload) "validation failed"
            (Service.preview engine env client.tenant_id id payload))))
