-- ===== src/Repository/Templates/Versions.antt =====
-- internal/repository/template.go: what Update and Delete do to a template.
use notify_hub.Prelude.{
  suc, ◌+◌, String, Bool, true, false, Option, none, some, List, [], ◌∷◌, ◌≡◌, ◌≢◌, refl, ap, ◌∙◌,
  arith, find?, find?-holds, find?-All, beq_refl, update_where, All, Bool-cases, Option-cases, inl,
  inr, ◌==◌, nat_eq, string_eq, ◌&&◌,
}
use notify_hub.Domain.Errors.{ok}
use notify_hub.Domain.Notification.{Uuid, Time}
use notify_hub.Domain.Template.{Template, UpdateTemplateRequest}
use notify_hub.Db.Models.{TemplateRow}
use notify_hub.Db.World.{World, Env}
use notify_hub.Db.NotificationQueries.{has_tenant}
use notify_hub.Db.TemplateQueries.{
  owned, retire, revise, get_template_by_id, get_template_by_name, update_template, delete_template,
}
use notify_hub.Repository.Notifications.Isolation.{&&-left, &&-right}
use notify_hub.Repository.Templates.{
  given, given_option, db_template_to_domain, update_params, get_by_id, update, delete,
}

module _ (env : Env) where
  update_lem :
      (tenant id : Uuid) (req : UpdateTemplateRequest) (w : World) (t : Template)
      → (update env tenant id req w).0 ≡ ok t
      → (old : TemplateRow) × (get_template_by_id id tenant w ≡ some old)
        × (t
            ≡ db_template_to_domain
                (revise (update_params (db_template_to_domain old) req) w.now old))
  unfolding update get_by_id get_template_by_id update_template
  update_lem tenant id req w t h = elim (Bool-cases (env.faults w.calls)) [
    | inl e ↦ absurd (ground (arith, h, e))
    | inr e ↦ elim (Option-cases (find? (owned id tenant) w.db.templates)) [
      | inl f ↦ absurd (ground (arith, h, e, f))
      | inr (r, f) ↦ elim (Bool-cases (env.faults (suc w.calls))) [
        | inl g ↦ absurd (ground (arith, h, e, f, g))
        | inr g ↦ (r, f, ground (arith, h, e, f, g))
      ]
    ]
  ]

  given_option-coalesce :
      (o : Option String) (a : Option String) → given_option (given_option o a) a ≡ given_option o a
  given_option-coalesce none none = refl
  given_option-coalesce none (some a) = refl
  given_option-coalesce (some x) a = refl

  -- An Update that succeeds returns the template that the tenant had under the id, with the
  -- version one higher, the name and the channel unchanged, and each of body, subject and
  -- activity changed exactly if the request gives it.
  pub update-version :
      (tenant id : Uuid) (req : UpdateTemplateRequest) (w : World) (t : Template)
      → (update env tenant id req w).0 ≡ ok t
      → (old : TemplateRow) × (get_template_by_id id tenant w ≡ some old)
        × (t.version ≡ old.version + 1)
        × (t.name ≡ old.name)
        × (t.channel ≡ old.channel)
        × (t.body_template ≡ given req.body_template old.body_template)
        × (t.subject_template ≡ given_option req.subject_template old.subject_template)
        × (t.is_active ≡ given req.is_active old.is_active)
  update-version tenant id req w t h =
      let (old, found, same) = update_lem tenant id req w t h in
      (
        old,
        found,
        ap (λ t. t.version) same,
        ap (λ t. t.name) same,
        ap (λ t. t.channel) same,
        ap (λ t. t.body_template) same,
        ap (λ t. t.subject_template) same
            ∙ given_option-coalesce req.subject_template old.subject_template,
        ap (λ t. t.is_active) same,
      )

  -- No row of a table after Delete is both the template deleted and active.
  retired :
      (tenant id : Uuid) (now : Time) (rows : List TemplateRow)
      → All
          (λ (r : TemplateRow). owned id tenant r ≡ true → r.is_active ≡ false)
          (update_where (owned id tenant) (retire now) rows)
  retired tenant id now [] = tt
  retired tenant id now (r ∷ rows) = elim (Bool-cases (owned id tenant r)) [
    | inl e ↦ rw e ((λ h. refl), retired tenant id now rows)
    | inr e ↦ rw e ((λ h. absurd (ground (arith, e, h))), retired tenant id now rows)
  ]

  delete_lem :
      (tenant id : Uuid) (w : World) (t : Template)
      → (delete env tenant id w).0 ≡ ok t
      → (t.id ≡ id)
        × (t.is_active ≡ false)
        × ((delete env tenant id w).1.db.templates
            ≡ update_where (owned id tenant) (retire w.now) w.db.templates)
  unfolding delete delete_template
  delete_lem tenant id w t h = elim (Bool-cases (env.faults w.calls)) [
    | inl e ↦ absurd (ground (arith, h, e))
    | inr e ↦ elim (Option-cases (find? (owned id tenant) w.db.templates)) [
      | inl f ↦ absurd (ground (arith, h, e, f))
      | inr (r, f) ↦ (
        ground (arith, h, e, f, find?-holds (owned id tenant) w.db.templates r f),
        ground (arith, h, e, f),
        ground (arith, h, e, f),
      )
    ]
  ]

  -- A Delete that succeeds returns the template of the id, as inactive, and what GetByName finds
  -- afterwards for the tenant, under whatever name, is not that template.
  pub delete-hides :
      (tenant id : Uuid) (w : World) (t : Template) (name : String) (r : TemplateRow)
      → (delete env tenant id w).0 ≡ ok t
      → get_template_by_name name tenant (delete env tenant id w).1 ≡ some r
      → (t.id ≡ id) × (t.is_active ≡ false) × (r.id ≢ id)
  unfolding get_template_by_name
  delete-hides tenant id w t name r h found =
      let (a, b, rows) = delete_lem tenant id w t h in
      (a, b, λ same. hidden same (rw rows at found))
    where
      hidden :
          r.id ≡ id
          → find?
              (λ r. r.name == name && (has_tenant tenant r.tenant_id && r.is_active))
              (update_where (owned id tenant) (retire w.now) w.db.templates)
            ≡ some r
          → ⊥
      hidden same found =
          let rows = update_where (owned id tenant) (retire w.now) w.db.templates in
          let test : TemplateRow → Bool =
            λ r. r.name == name && (has_tenant tenant r.tenant_id && r.is_active) in
          let holds = &&-right (r.name == name) _ (find?-holds test rows r found) in
          let inactive =
            find?-All test (λ (r : TemplateRow). owned id tenant r ≡ true → r.is_active ≡ false)
              rows r (retired tenant id w.now w.db.templates) found in
          let mine : owned id tenant r ≡ true =
            rw (same, beq_refl id) (&&-left (has_tenant tenant r.tenant_id) _ holds) in
          let active = &&-right (has_tenant tenant r.tenant_id) _ holds in
          ground (arith, inactive mine, active)
