-- ===== src/Db/WebhookQueries.antt =====
-- internal/db/webhook.sql.go: the queries over webhook_endpoints and webhook_deliveries.
use notify_hub.Prelude.{
  ℕ, suc, String, Bool, Option, none, some, List, ◌∷◌, ◌&&◌, not, ◌==◌, nat_eq, string_eq, find?,
  filter, any, update_where, leb, sort_by,
}
use notify_hub.Domain.Json.{Payload}
use notify_hub.Domain.Notification.{Uuid, Time}
use notify_hub.Domain.Webhook.{WebhookDeliveryStatus}
use notify_hub.Db.Models.{WebhookEndpointRow, WebhookDeliveryRow}
use notify_hub.Db.World.{World, Env}

abbrev pub endpoint_row : Uuid → String → String → List String → Bool → World → WebhookEndpointRow
endpoint_row tenant url secret events active w = record {
  id = w.fresh;
  tenant_id = tenant;
  url = url;
  secret = secret;
  events = events;
  is_active = active;
  created_at = w.now;
  updated_at = w.now;
}

unfoldable pub insert_webhook_endpoint :
    Uuid → String → String → List String → Bool → World → Option WebhookEndpointRow × World
insert_webhook_endpoint tenant url secret events active w = (
  some (endpoint_row tenant url secret events active w),
  record w {
    fresh = suc w.fresh;
    db = record w.db {
      webhook_endpoints = endpoint_row tenant url secret events active w ∷ w.db.webhook_endpoints;
    };
  },
)

abbrev pub owned : Uuid → Uuid → WebhookEndpointRow → Bool
owned id tenant r = r.id == id && r.tenant_id == tenant

unfoldable pub get_webhook_endpoint : Uuid → Uuid → World → Option WebhookEndpointRow
get_webhook_endpoint id tenant w = find? (owned id tenant) w.db.webhook_endpoints

unfoldable pub list_webhook_endpoints : Uuid → World → List WebhookEndpointRow
unfolding sort_by
list_webhook_endpoints tenant w =
    sort_by (λ a b. leb b.created_at a.created_at)
      (filter (λ r. r.tenant_id == tenant) w.db.webhook_endpoints)

abbrev pub edit : String → List String → Bool → Time → WebhookEndpointRow → WebhookEndpointRow
edit url events active now r = record r {
  url = url;
  events = events;
  is_active = active;
  updated_at = now;
}

unfoldable pub update_webhook_endpoint :
    Uuid → Uuid → String → List String → Bool → World → Option WebhookEndpointRow × World
update_webhook_endpoint id tenant url events active w =
    elim (find? (owned id tenant) w.db.webhook_endpoints) [
      | none ↦ (none, w)
      | some r ↦ (
        some (edit url events active w.now r),
        record w {
          db = record w.db {
            webhook_endpoints =
                update_where (owned id tenant) (edit url events active w.now)
                  w.db.webhook_endpoints;
          };
        },
      )
    ]

unfoldable pub delete_webhook_endpoint : Uuid → Uuid → World → World
delete_webhook_endpoint id tenant w = record w {
  db = record w.db {
    webhook_endpoints = filter (λ r. not (owned id tenant r)) w.db.webhook_endpoints;
  };
}

-- There is no ORDER BY. is_active = TRUE AND events @> jsonb_build_array($2)
abbrev pub subscribed : Uuid → String → WebhookEndpointRow → Bool
subscribed tenant event r = r.tenant_id == tenant && (r.is_active && any (λ e. e == event) r.events)

unfoldable pub list_active_webhook_endpoints_for_event :
    Env → Uuid → String → World → List WebhookEndpointRow
unfolding sort_by
list_active_webhook_endpoints_for_event env tenant event w =
    sort_by (λ a b. env.row_order w.calls a.id b.id)
      (filter (subscribed tenant event) w.db.webhook_endpoints)

pub record InsertWebhookDeliveryParams : Type 0 where
  pub endpoint_id : Uuid
  pub notification_id : Option Uuid
  pub event : String
  pub payload : Payload
  pub status : WebhookDeliveryStatus
  pub attempt : ℕ
  pub next_retry_at : Option Time

abbrev pub delivery_row : InsertWebhookDeliveryParams → World → WebhookDeliveryRow
delivery_row p w = record {
  id = w.fresh;
  endpoint_id = p.endpoint_id;
  notification_id = p.notification_id;
  event = p.event;
  payload = p.payload;
  status = p.status;
  attempt = p.attempt;
  next_retry_at = p.next_retry_at;
  last_error = none;
  response_status = none;
  created_at = w.now;
  updated_at = w.now;
}

unfoldable pub insert_webhook_delivery :
    InsertWebhookDeliveryParams → World → Option WebhookDeliveryRow × World
insert_webhook_delivery p w = (
  some (delivery_row p w),
  record w {
    fresh = suc w.fresh;
    db = record w.db { webhook_deliveries = delivery_row p w ∷ w.db.webhook_deliveries };
  },
)

pub record UpdateWebhookDeliveryParams : Type 0 where
  pub id : Uuid
  pub status : WebhookDeliveryStatus
  pub attempt : ℕ
  pub next_retry_at : Option Time
  pub last_error : Option String
  pub response_status : Option ℕ

abbrev pub settle : UpdateWebhookDeliveryParams → Time → WebhookDeliveryRow → WebhookDeliveryRow
settle p now r = record r {
  status = p.status;
  attempt = p.attempt;
  next_retry_at = p.next_retry_at;
  last_error = p.last_error;
  response_status = p.response_status;
  updated_at = now;
}

unfoldable pub update_webhook_delivery :
    UpdateWebhookDeliveryParams → World → Option WebhookDeliveryRow × World
update_webhook_delivery p w = elim (find? (λ r. r.id == p.id) w.db.webhook_deliveries) [
  | none ↦ (none, w)
  | some r ↦ (
    some (settle p w.now r),
    record w {
      db = record w.db {
        webhook_deliveries =
            update_where (λ r. r.id == p.id) (settle p w.now) w.db.webhook_deliveries;
      };
    },
  )
]
