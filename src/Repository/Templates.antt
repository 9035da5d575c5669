-- ===== src/Repository/Templates.antt =====
-- internal/repository/template.go.
pub mod Versions
use notify_hub.Prelude.{
  ℕ, ◌-◌, ◌*◌, String, Bool, Option, none, some, List, map, ltb, if◌then◌else◌,
}
use notify_hub.Domain.Errors.{new_internal_error, is_no_rows}
use notify_hub.Domain.Notification.{Uuid, Channel}
use notify_hub.Domain.Template.{Template, CreateTemplateRequest, UpdateTemplateRequest}
use notify_hub.Db.Models.{TemplateRow}
use notify_hub.Db.World.{World, Env}
use notify_hub.Db.Limits.{int32}
use notify_hub.Db.Io.{Io, pure, ◌>>=◌, map_err, query_one, query_insert, query_checked}
use notify_hub.Db.TemplateQueries.{
  InsertTemplateParams, UpdateTemplateParams, insert_template, get_template_by_id,
  get_template_by_name, update_template, delete_template, list_templates, count_templates,
}
use notify_hub.Repository.Notifications.{row_error}

-- dbTemplateToDomain
abbrev pub db_template_to_domain : TemplateRow → Template
db_template_to_domain t = record {
  id = t.id;
  name = t.name;
  channel = t.channel;
  subject_template = t.subject_template;
  body_template = t.body_template;
  metadata = t.metadata;
  version = t.version;
  is_active = t.is_active;
  created_at = t.created_at;
  updated_at = t.updated_at;
}

-- `if req.X != nil { x = *req.X }`
abbrev pub given {ℓ} : {A : Type ℓ} → Option A → A → A
given none old = old
given (some a) old = a

abbrev pub given_option {ℓ} : {A : Type ℓ} → Option A → Option A → Option A
given_option none old = old
given_option (some a) old = some a

abbrev pub insert_params : Uuid → CreateTemplateRequest → InsertTemplateParams
insert_params tenant req = record {
  tenant_id = some tenant;
  name = req.name;
  channel = req.channel;
  subject_template = req.subject_template;
  body_template = req.body_template;
  metadata = req.metadata;
}

abbrev pub update_params : Template → UpdateTemplateRequest → UpdateTemplateParams
update_params existing req = record {
  subject_template = given_option req.subject_template existing.subject_template;
  body_template = given req.body_template existing.body_template;
  metadata = given_option req.metadata existing.metadata;
  is_active = given req.is_active existing.is_active;
}

module _ (env : Env) where
  unfoldable pub create : Uuid → CreateTemplateRequest → Io Template
  unfolding query_insert insert_template
  create tenant req = do
    row ←
        map_err (new_internal_error "failed to insert template")
          (query_insert env (insert_template (insert_params tenant req)))
    pure (db_template_to_domain row)

  unfoldable pub get_by_id : Uuid → Uuid → Io Template
  unfolding query_one get_template_by_id is_no_rows
  get_by_id tenant id = do
    row ←
        map_err (row_error "template not found" "failed to get template")
          (query_one env (λ w. (get_template_by_id id tenant w, w)))
    pure (db_template_to_domain row)

  unfoldable pub get_by_name : Uuid → String → Io Template
  unfolding query_one get_template_by_name is_no_rows
  get_by_name tenant name = do
    row ←
        map_err (row_error "template not found" "failed to get template by name")
          (query_one env (λ w. (get_template_by_name name tenant w, w)))
    pure (db_template_to_domain row)

  unfoldable pub update : Uuid → Uuid → UpdateTemplateRequest → Io Template
  unfolding get_by_id query_one update_template is_no_rows
  update tenant id req = do
    existing ← get_by_id tenant id
    row ←
        map_err (row_error "template not found" "failed to update template")
          (query_one env (update_template id tenant (update_params existing req)))
    pure (db_template_to_domain row)

  unfoldable pub delete : Uuid → Uuid → Io Template
  unfolding query_one delete_template is_no_rows
  delete tenant id = do
    row ←
        map_err (row_error "template not found" "failed to delete template")
          (query_one env (delete_template id tenant))
    pure (db_template_to_domain row)

  -- `collate` is the database's order of names. The parameters are cut to int32.
  unfoldable pub list : (String → String → Bool) → Uuid → Channel → ℕ → ℕ → Io (List Template × ℕ)
  unfolding query_checked query_one list_templates count_templates
  list collate tenant channel page per_page = do
    let page' = if ltb page 1 then 1 else page
    let per_page' = if ltb per_page 1 then 20 else per_page
    rows ← map_err (new_internal_error "failed to list templates") (
        query_checked env (
          list_templates collate tenant channel (int32 ((page' - 1) * per_page'))
            (int32 per_page')))
    total ←
        map_err (new_internal_error "failed to count templates")
          (query_one env (λ w. (some (count_templates tenant channel w), w)))
    pure (map db_template_to_domain rows, total)
