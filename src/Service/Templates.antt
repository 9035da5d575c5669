-- ===== src/Service/Templates.antt =====
-- internal/service/template.go. The text/template engine is a parameter: `parse` compiles a text,
-- and the compiled template is executed against a payload.
use notify_hub.Prelude.{String, Bool, Option, none, some}
use notify_hub.Domain.Errors.{
  Err, Result, ok, err, wrapped, new_internal_error, new_validation_error,
}
use notify_hub.Domain.Json.{Payload}
use notify_hub.Domain.Notification.{Uuid}
use notify_hub.Domain.Template.{Template, CreateTemplateRequest, UpdateTemplateRequest}
use notify_hub.Db.World.{Env}
use notify_hub.Db.Io.{Io}
use notify_hub.Repository.Templates
use notify_hub.Service.Validation.{validated}

-- text/template: Parse, then Execute.
abbrev pub Engine : Type 0
Engine = String → Result (Payload → Result String)

unfoldable pub render_template : Engine → String → Payload → Result String
render_template engine text payload = elim (engine text) [
  | err e ↦ err (wrapped "parse template" e)
  | ok t ↦ elim (t payload) [ err e ↦ err (wrapped "execute template" e) | ok s ↦ ok s ]
]

-- Body first, then the subject if there is one; `on_fail` makes the error of either.
unfoldable pub render_both :
    Engine → (String → Err → Err) → Template → Payload → Result (Option String × String)
unfolding render_template
render_both engine on_fail t payload = elim (render_template engine t.body_template payload) [
  | err e ↦ err (on_fail "failed to render body template" e)
  | ok body ↦ elim t.subject_template [
    | none ↦ ok (none, body)
    | some text ↦ elim (render_template engine text payload) [
      | err e ↦ err (on_fail "failed to render subject template" e)
      | ok subject ↦ ok (some subject, body)
    ]
  ]
]

abbrev subject_or_empty : Option String → String
subject_or_empty none = ""
subject_or_empty (some s) = s

abbrev flat : Result (Option String × String) → Result (String × String)
flat (err e) = err e
flat (ok (subject, body)) = ok (subject_or_empty subject, body)

abbrev render_found :
    Engine → (String → Err → Err) → Payload → Result Template → Result (String × String)
render_found engine on_fail payload (err e) = err e
render_found engine on_fail payload (ok t) = flat (render_both engine on_fail t payload)

module _ (engine : Engine) (env : Env) where
  -- Render: the subject is empty where the template has none.
  unfoldable pub render : Uuid → Uuid → Payload → Io (String × String)
  unfolding Templates.get_by_id render_both
  render tenant id payload w =
      let r = Templates.get_by_id env tenant id w in
      (render_found engine new_internal_error payload r.0, r.1)

  unfoldable pub create : Bool → Uuid → CreateTemplateRequest → Io Template
  create valid tenant req = validated valid "validation failed" (Templates.create env tenant req)

  unfoldable pub update : Bool → Uuid → Uuid → UpdateTemplateRequest → Io Template
  update valid tenant id req =
      validated valid "validation failed" (Templates.update env tenant id req)

  -- Preview, behind the validation of the request: the errors are the caller's.
  unfoldable pub preview : Uuid → Uuid → Payload → Io (String × String)
  unfolding Templates.get_by_id render_both
  preview tenant id payload w =
      let r = Templates.get_by_id env tenant id w in
      (render_found engine (λ msg _. new_validation_error msg) payload r.0, r.1)
