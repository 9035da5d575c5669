-- ===== src/Db/TemplateQueries.antt =====
-- internal/db/template.sql.go: the queries over the templates table.
use notify_hub.Prelude.{
  ℕ, suc, ◌+◌, String, Bool, false, List, length, filter, sort_by, ◌||◌, Option, none, some, ◌∷◌,
  ◌&&◌, ◌==◌, nat_eq, string_eq, find?, update_where, true,
}
use notify_hub.Domain.Json.{Payload}
use notify_hub.Domain.Notification.{Uuid, Time, Channel}
use notify_hub.Db.Models.{TemplateRow}
use notify_hub.Db.World.{World}
use notify_hub.Db.Limits.{offset_by}
use notify_hub.Db.NotificationQueries.{has_tenant}

pub record InsertTemplateParams : Type 0 where
  pub tenant_id : Option Uuid
  pub name : String
  pub channel : Channel
  pub subject_template : Option String
  pub body_template : String
  pub metadata : Option Payload

abbrev pub template_row : InsertTemplateParams → World → TemplateRow
template_row p w = record {
  id = w.fresh;
  name = p.name;
  channel = p.channel;
  subject_template = p.subject_template;
  body_template = p.body_template;
  metadata = p.metadata;
  version = 1;
  is_active = true;
  created_at = w.now;
  updated_at = w.now;
  tenant_id = p.tenant_id;
}

-- `none` is the violation of UNIQUE (name), which spans the tenants.
unfoldable pub insert_template : InsertTemplateParams → World → Option TemplateRow × World
insert_template p w = elim (find? (λ r. r.name == p.name) w.db.templates) [
  | some r ↦ (none, w)
  | none ↦ (
    some (template_row p w),
    record w {
      fresh = suc w.fresh;
      db = record w.db { templates = template_row p w ∷ w.db.templates };
    },
  )
]

abbrev pub owned : Uuid → Uuid → TemplateRow → Bool
owned id tenant r = r.id == id && has_tenant tenant r.tenant_id

unfoldable pub get_template_by_id : Uuid → Uuid → World → Option TemplateRow
get_template_by_id id tenant w = find? (owned id tenant) w.db.templates

unfoldable pub get_template_by_name : String → Uuid → World → Option TemplateRow
get_template_by_name name tenant w =
    find? (λ r. r.name == name && (has_tenant tenant r.tenant_id && r.is_active)) w.db.templates

abbrev pub coalesce {ℓ} : {A : Type ℓ} → Option A → Option A → Option A
coalesce none old = old
coalesce (some a) old = some a

pub record UpdateTemplateParams : Type 0 where
  pub subject_template : Option String
  pub body_template : String
  pub metadata : Option Payload
  pub is_active : Bool

abbrev pub revise : UpdateTemplateParams → Time → TemplateRow → TemplateRow
revise p now r = record r {
  subject_template = coalesce p.subject_template r.subject_template;
  body_template = p.body_template;
  metadata = coalesce p.metadata r.metadata;
  is_active = p.is_active;
  version = r.version + 1;
  updated_at = now;
}

unfoldable pub update_template :
    Uuid → Uuid → UpdateTemplateParams → World → Option TemplateRow × World
update_template id tenant p w = elim (find? (owned id tenant) w.db.templates) [
  | none ↦ (none, w)
  | some r ↦ (
    some (revise p w.now r),
    record w {
      db = record w.db {
        templates = update_where (owned id tenant) (revise p w.now) w.db.templates;
      };
    },
  )
]

abbrev pub retire : Time → TemplateRow → TemplateRow
retire now r = record r { is_active = false; updated_at = now }

unfoldable pub delete_template : Uuid → Uuid → World → Option TemplateRow × World
delete_template id tenant w = elim (find? (owned id tenant) w.db.templates) [
  | none ↦ (none, w)
  | some r ↦ (
    some (retire w.now r),
    record w {
      db = record w.db { templates = update_where (owned id tenant) (retire w.now) w.db.templates };
    },
  )
]

-- tenant_id = $1 AND ($2 = '' OR channel = $2)
abbrev pub of_channel : Uuid → Channel → TemplateRow → Bool
of_channel tenant channel r =
    has_tenant tenant r.tenant_id && (channel == "" || r.channel == channel)

-- `collate` is the database's order of texts.
unfoldable pub list_templates :
    (String → String → Bool)
    → Uuid
    → Channel
    → Option ℕ
    → Option ℕ
    → World
    → Option (List TemplateRow)
unfolding sort_by
list_templates collate tenant channel offset limit w =
    offset_by offset limit
      (sort_by (λ a b. collate a.name b.name) (filter (of_channel tenant channel) w.db.templates))

unfoldable pub count_templates : Uuid → Channel → World → ℕ
count_templates tenant channel w = length (filter (of_channel tenant channel) w.db.templates)
