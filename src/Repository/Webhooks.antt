-- ===== src/Repository/Webhooks.antt =====
-- internal/repository/webhook.go.
use notify_hub.Prelude.{String, List, map}
use notify_hub.Domain.Errors.{new_internal_error, is_no_rows}
use notify_hub.Domain.Notification.{Uuid}
use notify_hub.Domain.Webhook.{WebhookEndpoint, WebhookDelivery}
use notify_hub.Db.Models.{WebhookEndpointRow, WebhookDeliveryRow}
use notify_hub.Db.World.{Env}
use notify_hub.Db.Io.{Io, pure, ◌>>=◌, map_err, query_one, query_insert, query_many, exec}
use notify_hub.Db.WebhookQueries.{
  InsertWebhookDeliveryParams, UpdateWebhookDeliveryParams, insert_webhook_endpoint,
  get_webhook_endpoint, list_webhook_endpoints, update_webhook_endpoint, delete_webhook_endpoint,
  list_active_webhook_endpoints_for_event, insert_webhook_delivery, update_webhook_delivery,
}
use notify_hub.Repository.Notifications.{row_error}

abbrev pub db_webhook_endpoint_to_domain : WebhookEndpointRow → WebhookEndpoint
db_webhook_endpoint_to_domain r = record {
  id = r.id;
  tenant_id = r.tenant_id;
  url = r.url;
  secret = r.secret;
  events = r.events;
  is_active = r.is_active;
  created_at = r.created_at;
  updated_at = r.updated_at;
}

abbrev pub db_webhook_delivery_to_domain : WebhookDeliveryRow → WebhookDelivery
db_webhook_delivery_to_domain r = record {
  id = r.id;
  endpoint_id = r.endpoint_id;
  notification_id = r.notification_id;
  event = r.event;
  payload = r.payload;
  status = r.status;
  attempt = r.attempt;
  next_retry_at = r.next_retry_at;
  last_error = r.last_error;
  response_status = r.response_status;
  created_at = r.created_at;
  updated_at = r.updated_at;
}

abbrev pub insert_params : WebhookDelivery → InsertWebhookDeliveryParams
insert_params d = record {
  endpoint_id = d.endpoint_id;
  notification_id = d.notification_id;
  event = d.event;
  payload = d.payload;
  status = d.status;
  attempt = d.attempt;
  next_retry_at = d.next_retry_at;
}

abbrev pub update_params : WebhookDelivery → UpdateWebhookDeliveryParams
update_params d = record {
  id = d.id;
  status = d.status;
  attempt = d.attempt;
  next_retry_at = d.next_retry_at;
  last_error = d.last_error;
  response_status = d.response_status;
}

module _ (env : Env) where
  unfoldable pub create_endpoint : WebhookEndpoint → Io WebhookEndpoint
  unfolding query_insert insert_webhook_endpoint
  create_endpoint ep = do
    row ← map_err (new_internal_error "insert webhook endpoint") (
        query_insert env
          (insert_webhook_endpoint ep.tenant_id ep.url ep.secret ep.events ep.is_active))
    pure (db_webhook_endpoint_to_domain row)

  unfoldable pub get_endpoint : Uuid → Uuid → Io WebhookEndpoint
  unfolding query_one get_webhook_endpoint is_no_rows
  get_endpoint tenant id = do
    row ←
        map_err (row_error "webhook endpoint not found" "get webhook endpoint")
          (query_one env (λ w. (get_webhook_endpoint id tenant w, w)))
    pure (db_webhook_endpoint_to_domain row)

  unfoldable pub list_endpoints : Uuid → Io (List WebhookEndpoint)
  unfolding query_many list_webhook_endpoints
  list_endpoints tenant = do
    rows ←
        map_err (new_internal_error "list webhook endpoints")
          (query_many env (list_webhook_endpoints tenant))
    pure (map db_webhook_endpoint_to_domain rows)

  unfoldable pub update_endpoint : WebhookEndpoint → Io WebhookEndpoint
  unfolding query_one update_webhook_endpoint is_no_rows
  update_endpoint ep = do
    row ←
        map_err (row_error "webhook endpoint not found" "update webhook endpoint")
          (query_one env (update_webhook_endpoint ep.id ep.tenant_id ep.url ep.events ep.is_active))
    pure (db_webhook_endpoint_to_domain row)

  unfoldable pub delete_endpoint : Uuid → Uuid → Io (Unit {0})
  unfolding exec delete_webhook_endpoint
  delete_endpoint tenant id =
      map_err (new_internal_error "delete webhook endpoint")
        (exec env (delete_webhook_endpoint id tenant))

  unfoldable pub list_active_for_event : Uuid → String → Io (List WebhookEndpoint)
  unfolding query_many list_active_webhook_endpoints_for_event
  list_active_for_event tenant event = do
    rows ←
        map_err (new_internal_error "list active webhook endpoints")
          (query_many env (list_active_webhook_endpoints_for_event env tenant event))
    pure (map db_webhook_endpoint_to_domain rows)

  unfoldable pub create_delivery : WebhookDelivery → Io WebhookDelivery
  unfolding query_insert insert_webhook_delivery
  create_delivery d = do
    row ←
        map_err (new_internal_error "insert webhook delivery")
          (query_insert env (insert_webhook_delivery (insert_params d)))
    pure (db_webhook_delivery_to_domain row)

  unfoldable pub update_delivery : WebhookDelivery → Io WebhookDelivery
  unfolding query_one update_webhook_delivery
  update_delivery d = do
    row ←
        map_err (new_internal_error "update webhook delivery")
          (query_one env (update_webhook_delivery (update_params d)))
    pure (db_webhook_delivery_to_domain row)
