-- ===== src/Service/Webhooks/Deliveries.antt =====
-- internal/service/webhook.go, Dispatch: the records on the outbound topic and the delivery rows.
use notify_hub.Prelude.{
  ℕ, suc, String, true, false, List, [], ◌∷◌, ◌≡◌, refl, arith, any, All, All-impl, All-filter,
  All-map, All-sort_by, Bool-cases, inl, inr, ◌==◌, nat_eq, string_eq, beq_refl, ◌&&◌, map,
  nat_beq_iff,
}
use notify_hub.Domain.Errors.{Result, ok, err}
use notify_hub.Domain.Json.{Payload}
use notify_hub.Domain.Notification.{Uuid, Notification}
use notify_hub.Domain.Webhook.{WebhookEndpoint}
use notify_hub.Queue.Message.{
  Value, Record, notification, dead_letter, webhook, garbage, webhook_topic,
}
use notify_hub.Queue.Producer.{publish}
use notify_hub.Db.Models.{WebhookEndpointRow, WebhookDeliveryRow}
use notify_hub.Db.World.{World, Env}
use notify_hub.Db.WebhookQueries.{subscribed, delivery_row, list_active_webhook_endpoints_for_event}
use notify_hub.Repository.Webhooks
use notify_hub.Repository.Webhooks.{db_webhook_endpoint_to_domain}
use notify_hub.Repository.Notifications.Isolation.{&&-left, &&-right}
use notify_hub.Service.Webhooks.{
  Printer, pending_delivery, webhook_message, notify_endpoint, notify_all, fan_out, dispatch,
  build_event_payload,
}

-- A webhook record names a delivery row of its endpoint.
abbrev pub HasRow : List WebhookDeliveryRow → Value → Type 0
HasRow rows (webhook m) =
    any (λ d. d.id == m.delivery_id && d.endpoint_id == m.endpoint_id) rows ≡ true
HasRow rows (notification m) = Unit
HasRow rows (dead_letter m) = Unit
HasRow rows garbage = Unit

-- Every webhook record on Kafka has its delivery row in the database.
abbrev pub Backed : World → Type 0
Backed w = All (λ (r : Record). HasRow w.db.webhook_deliveries r.value) w.topics

backed :
    (ts : List Record) (ds : List WebhookDeliveryRow) (w : World)
    → w.topics ≡ ts
    → w.db.webhook_deliveries ≡ ds
    → All (λ (r : Record). HasRow ds r.value) ts
    → Backed w
backed ts ds w t d h = rw (t, d) h

HasRow-more :
    (d : WebhookDeliveryRow) (rows : List WebhookDeliveryRow) (v : Value)
    → HasRow rows v
    → HasRow (d ∷ rows) v
HasRow-more d rows (notification m) h = tt
HasRow-more d rows (dead_letter m) h = tt
HasRow-more d rows garbage h = tt
HasRow-more d rows (webhook m) h =
    elim (Bool-cases (d.id == m.delivery_id && d.endpoint_id == m.endpoint_id)) [
      | inl e ↦ rw e refl
      | inr e ↦ rw e h
    ]

-- What an endpoint has to be for an event of a tenant.
abbrev pub Serves : Uuid → String → WebhookEndpoint → Type 0
Serves tenant event ep =
    (ep.tenant_id ≡ tenant) × (ep.is_active ≡ true) × (any (λ e. e == event) ep.events ≡ true)

module _ (env : Env) where
  serves :
      (tenant : Uuid) (event : String) (r : WebhookEndpointRow)
      → subscribed tenant event r ≡ true
      → Serves tenant event (db_webhook_endpoint_to_domain r)
  serves tenant event r h =
      let rest = &&-right (r.tenant_id == tenant) _ h in
      (
        (nat_beq_iff r.tenant_id tenant).0 (&&-left _ _ h),
        &&-left r.is_active _ rest,
        &&-right r.is_active _ rest,
      )

  listed_lem :
      (tenant : Uuid) (event : String) (w : World) (eps : List WebhookEndpoint)
      → (Webhooks.list_active_for_event env tenant event w).0 ≡ ok eps
      → eps
        ≡ map db_webhook_endpoint_to_domain
            (list_active_webhook_endpoints_for_event env tenant event w)
  unfolding Webhooks.list_active_for_event
  listed_lem tenant event w eps h = ground (arith, h)

  All-serve :
      (tenant : Uuid) (event : String) (w : World)
      → All
          (λ r. Serves tenant event (db_webhook_endpoint_to_domain r))
          (list_active_webhook_endpoints_for_event env tenant event w)
  unfolding list_active_webhook_endpoints_for_event
  All-serve tenant event w =
      All-sort_by (λ a b. env.row_order w.calls a.id b.id)
        (λ r. Serves tenant event (db_webhook_endpoint_to_domain r)) _
        (All-filter (λ r. Serves tenant event (db_webhook_endpoint_to_domain r))
          (subscribed tenant event) w.db.webhook_endpoints (serves tenant event))

  -- The lookup itself writes neither a record nor a delivery row.
  looked_up :
      (tenant : Uuid) (event : String) (w : World)
      → ((Webhooks.list_active_for_event env tenant event w).1.topics ≡ w.topics)
        × ((Webhooks.list_active_for_event env tenant event w).1.db.webhook_deliveries
            ≡ w.db.webhook_deliveries)
  unfolding Webhooks.list_active_for_event
  looked_up tenant event w = ground arith

  -- The endpoints that ListActiveForEvent returns are the tenant's own, are active, and are
  -- subscribed to the event.
  pub list_active_for_event-Serves :
      (tenant : Uuid) (event : String) (w : World) (eps : List WebhookEndpoint)
      → (Webhooks.list_active_for_event env tenant event w).0 ≡ ok eps
      → All (Serves tenant event) eps
  list_active_for_event-Serves tenant event w eps h = rw (listed_lem tenant event w eps h) (
      All-map (Serves tenant event) db_webhook_endpoint_to_domain
        (list_active_webhook_endpoints_for_event env tenant event w) (All-serve tenant event w))

module _ (printer : Printer) (max_attempts : ℕ) (env : Env) (n : Notification)
    (event : String) where
  abbrev notified : Payload → WebhookEndpoint → World → World
  notified = notify_endpoint printer max_attempts env n event

  abbrev row : Payload → WebhookEndpoint → World → WebhookDeliveryRow
  row payload ep w =
      delivery_row (Webhooks.insert_params (pending_delivery ep n event payload))
        (record w { calls = suc w.calls })

  abbrev outbound : Payload → WebhookEndpoint → World → Record
  outbound payload ep w = record {
    topic = webhook_topic;
    key = printer.uuid_text ep.id;
    value = webhook (webhook_message max_attempts ep w.fresh n event payload w.now);
  }

  -- The three ways in which an endpoint is served.
  down_lem :
      (payload : Payload) (ep : WebhookEndpoint) (w : World)
      → env.faults w.calls ≡ true
      → ((notified payload ep w).topics ≡ w.topics)
        × ((notified payload ep w).db.webhook_deliveries ≡ w.db.webhook_deliveries)
  unfolding notify_endpoint Webhooks.create_delivery
  down_lem payload ep w e = ground (arith, e)

  unsent_lem :
      (payload : Payload) (ep : WebhookEndpoint) (w : World)
      → env.faults w.calls ≡ false
      → env.faults (suc w.calls) ≡ true
      → ((notified payload ep w).topics ≡ w.topics)
        × ((notified payload ep w).db.webhook_deliveries
            ≡ row payload ep w ∷ w.db.webhook_deliveries)
  unfolding notify_endpoint Webhooks.create_delivery publish
  unsent_lem payload ep w e f = ground (arith, e, f)

  sent_lem :
      (payload : Payload) (ep : WebhookEndpoint) (w : World)
      → env.faults w.calls ≡ false
      → env.faults (suc w.calls) ≡ false
      → ((notified payload ep w).topics ≡ outbound payload ep w ∷ w.topics)
        × ((notified payload ep w).db.webhook_deliveries
            ≡ row payload ep w ∷ w.db.webhook_deliveries)
  unfolding notify_endpoint Webhooks.create_delivery publish
  sent_lem payload ep w e f = ground (arith, e, f)

  more :
      (payload : Payload) (ep : WebhookEndpoint) (w : World)
      → Backed w
      → All (λ (r : Record). HasRow (row payload ep w ∷ w.db.webhook_deliveries) r.value) w.topics
  more payload ep w h =
      All-impl (λ r. HasRow w.db.webhook_deliveries r.value)
        (λ r. HasRow (row payload ep w ∷ w.db.webhook_deliveries) r.value) w.topics
        (λ r. HasRow-more (row payload ep w) w.db.webhook_deliveries r.value) h

  notify_endpoint-Backed :
      (payload : Payload) (ep : WebhookEndpoint) (w : World)
      → Backed w
      → Backed (notified payload ep w)
  notify_endpoint-Backed payload ep w h = elim (Bool-cases (env.faults w.calls)) [
    | inl e ↦ let (t, d) = down_lem payload ep w e in backed _ _ (notified payload ep w) t d h
    | inr e ↦ elim (Bool-cases (env.faults (suc w.calls))) [
      | inl f ↦
          let (t, d) = unsent_lem payload ep w e f in
          backed _ _ (notified payload ep w) t d (more payload ep w h)
      | inr f ↦
          let (t, d) = sent_lem payload ep w e f in
          backed _ _ (notified payload ep w) t d
            (rw (beq_refl w.fresh, beq_refl ep.id) refl, more payload ep w h)
    ]
  ]

  notify_all-Backed :
      (payload : Payload) (eps : List WebhookEndpoint) (w : World)
      → Backed w
      → Backed (notify_all printer max_attempts env n event payload eps w)
  unfolding notify_all
  notify_all-Backed payload [] w h = h
  notify_all-Backed payload (ep ∷ eps) w h =
      notify_all-Backed payload eps (notified payload ep w) (notify_endpoint-Backed payload ep w h)

  fan_out-Backed :
      (r : Result (List WebhookEndpoint)) (w : World)
      → Backed w
      → Backed (fan_out printer max_attempts env n event r w).1
  fan_out-Backed (err e) w h = h
  fan_out-Backed (ok eps) w h =
      notify_all-Backed (build_event_payload printer n event w.now) eps w h

  looked_up-Backed :
      (t : Uuid) (w : World) → Backed w → Backed (Webhooks.list_active_for_event env t event w).1
  looked_up-Backed t w h = let (a, b) = looked_up env t event w in rw (a, b) h

  -- Dispatch keeps every webhook record on Kafka backed by a delivery row of the same endpoint,
  -- whichever of its calls fail: a record is written only after its row.
  pub dispatch-Backed :
      (w : World) → Backed w → Backed (dispatch printer max_attempts env n event w).1
  unfolding dispatch
  dispatch-Backed w h =
      let r = Webhooks.list_active_for_event env n.tenant_id event w in
      fan_out-Backed r.0 r.1 (looked_up-Backed n.tenant_id w h)
