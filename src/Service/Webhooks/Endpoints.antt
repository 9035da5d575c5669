-- ===== src/Service/Webhooks/Endpoints.antt =====
-- internal/service/webhook.go: an endpoint that is created is served, and an update of it.
use notify_hub.Prelude.{
  suc, String, Bool, true, false, none, some, List, [], ◌∷◌, map, filter, Perm, ◌≡◌, refl, sym,
  subst, ap, ◌∙◌, arith, inl, inr, any, find?, find?-update_where, update_where, after, ◌==◌,
  nat_eq, string_eq, Bool-cases, Option-cases,
}
use mathlib.Core.List.Perm
use notify_hub.Domain.Errors.{ok}
use notify_hub.Domain.Notification.{Uuid}
use notify_hub.Domain.Webhook.{WebhookEndpoint, UpdateWebhookEndpointRequest, all_webhook_events}
use notify_hub.Db.Models.{WebhookEndpointRow}
use notify_hub.Db.World.{World, Env}
use notify_hub.Db.Io.{IsHealthy}
use notify_hub.Db.Frames.{ok_inj}
use notify_hub.Db.WebhookQueries.{
  owned, edit, get_webhook_endpoint, update_webhook_endpoint, subscribed,
}
use notify_hub.Repository.Webhooks
use notify_hub.Repository.Webhooks.{db_webhook_endpoint_to_domain}
use notify_hub.Service.Webhooks.{validate_events}
use notify_hub.Service.Webhooks.Admin.{update}

-- An event that validateEvents lets pass is one of those that the program raises.
pub validate_events-known :
    (events : List String) (event : String)
    → validate_events events ≡ none
    → any (λ e. e == event) events ≡ true
    → any (λ v. v == event) all_webhook_events ≡ true
unfolding validate_events
validate_events-known [] event v h = absurd (ground (arith, h))
validate_events-known (e ∷ es) event v h =
    elim (Bool-cases (any (λ x. x == e) all_webhook_events)) [
      | inr f ↦ absurd (ground (arith, v, f))
      | inl f ↦ elim (Bool-cases (e == event)) [
        | inl g ↦
            subst (λ x. any (λ y. y == x) all_webhook_events ≡ true)
              ((string_eq.same_iff e event).0 g) f
        | inr g ↦ validate_events-known es event (rw f at v) (rw g at h)
      ]
    ]

updated :
    (id tenant : Uuid) (url : String) (events : List String) (active : Bool) (w : World)
    (r : WebhookEndpointRow)
    → find? (owned id tenant) w.db.webhook_endpoints ≡ some r
    → update_webhook_endpoint id tenant url events active w ≡ (
      some (edit url events active w.now r),
      record w {
        db = record w.db {
          webhook_endpoints =
              update_where (owned id tenant) (edit url events active w.now) w.db.webhook_endpoints;
        };
      },
    )
unfolding update_webhook_endpoint
updated id tenant url events active w r g = rw (update_webhook_endpoint, g) refl

unchanged :
    (id tenant : Uuid) (url : String) (events : List String) (active : Bool) (w : World)
    → find? (owned id tenant) w.db.webhook_endpoints ≡ none
    → update_webhook_endpoint id tenant url events active w ≡ (none, w)
unfolding update_webhook_endpoint
unchanged id tenant url events active w g = rw (update_webhook_endpoint, g) refl

-- The endpoints of the table that an event of a tenant is for.
abbrev pub served : Uuid → String → World → List WebhookEndpoint
served tenant event w =
    map db_webhook_endpoint_to_domain (filter (subscribed tenant event) w.db.webhook_endpoints)

module _ (env : Env) (up : IsHealthy env) where
  -- While the database answers: an endpoint that Update returns carries the new url, events and
  -- switch, and the secret, tenant and creation time that it had before.
  pub update-keeps :
      (valid : Bool) (tenant id : Uuid) (req : UpdateWebhookEndpointRequest) (w : World)
      (ep : WebhookEndpoint)
      → (update env valid tenant id req w).0 ≡ ok ep
      → (r : WebhookEndpointRow) × (get_webhook_endpoint id tenant w ≡ some r)
        × (ep ≡ db_webhook_endpoint_to_domain (edit req.url req.events req.is_active w.now r))
        × (get_webhook_endpoint id tenant (update env valid tenant id req w).1
            ≡ some (edit req.url req.events req.is_active w.now r))
  unfolding update Webhooks.update_endpoint get_webhook_endpoint
  update-keeps false tenant id req w ep h = absurd (ground (arith, h))
  update-keeps true tenant id req w ep h = elim (Option-cases (validate_events req.events)) [
    | inr (e, f) ↦ absurd (ground (arith, h, f))
    | inl f ↦ elim (Option-cases (find? (owned id tenant) w.db.webhook_endpoints)) [
      | inl g ↦ absurd (
          ground (
            arith,
            h,
            f,
            up w.calls,
            unchanged id tenant req.url req.events req.is_active (record w { calls = suc w.calls })
                g,
          ))
      | inr (r, g) ↦
          let called = record w { calls = suc w.calls } in
          let ran = updated id tenant req.url req.events req.is_active called r g in
          (
            r,
            g,
            sym (ok_inj _ ep (rw (f, up w.calls, ran) at h)),
            rw (f, up w.calls, ran, ran)
                (find?-update_where (owned id tenant) (edit req.url req.events req.is_active w.now)
                    w.db.webhook_endpoints (λ s. refl)
                  ∙ ap (after _) g),
          )
    ]
  ]
