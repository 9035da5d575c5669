-- ===== src/Tests/Data.antt =====
-- A small world for the examples: one tenant, one notification, one template, one dead letter.
use notify_hub.Prelude.{ℕ, zero, suc, Bool, true, false, Option, none, some, [], ◌∷◌, pos}
use notify_hub.Domain.Errors.{Err, ok, plain}
use notify_hub.Domain.Notification.{NotificationStatus, SendRequest, BulkSendRequest}
use notify_hub.Domain.Delivery.{DlqReason}
use notify_hub.Domain.Webhook.{WebhookDeliveryStatus}
use notify_hub.Domain.Template.{UpdateTemplateRequest}
use notify_hub.Queue.Message.{Message, DlqMessage, WebhookMessage}
use notify_hub.Db.Models.{
  PreferenceRow, NotificationRow, TemplateRow, WebhookEndpointRow, WebhookDeliveryRow,
  DeadLetterRow, InappMessageRow, DeviceTokenRow, TenantRow, ApiClientRow,
}
use notify_hub.Db.Tables.{Tables}
use notify_hub.Domain.Tenant.{ApiClient}
use notify_hub.Db.World.{World, Env}
use notify_hub.Api.Requests.{Parsers}
use notify_hub.Provider.Registry.{Provider}
use notify_hub.Service.Templates.{Engine}
use notify_hub.Service.Webhooks.{Printer}
use notify_hub.Worker.Processor.{ProcessorDeps}

abbrev pub calm : Env
calm = record {
  faults = λ n. false;
  outcomes = λ n. none;
  responses = λ n. 200;
  done = λ n. false;
  row_order = λ n a b. false;
}

-- Every call fails.
abbrev pub outage : Env
outage = record calm { faults = λ n. true }

-- The second call fails.
abbrev second : ℕ → Bool
second (suc zero) = true
second _ = false

abbrev pub kafka_down : Env
kafka_down = record calm { faults = second }

-- The first answer of the provider is an error that may pass.
abbrev first_fails : ℕ → Option Err
first_fails zero = some (plain "timeout")
first_fails _ = none

abbrev pub flaky : Env
flaky = record calm { outcomes = first_fails }

abbrev pub waiting : NotificationRow
waiting = record {
  id = 1;
  idempotency_key = some "order-7";
  kind = "order_shipped";
  channel = "email";
  recipient_id = "ada";
  recipient_address = some "ada@example.com";
  template_id = none;
  payload = [];
  priority = 5;
  status = NotificationStatus.pending;
  scheduled_at = some 50;
  created_at = 40;
  updated_at = 40;
  tenant_id = some 9;
}

abbrev pub welcome : TemplateRow
welcome = record {
  id = 3;
  name = "welcome";
  channel = "email";
  subject_template = some "Hello";
  body_template = "Welcome";
  metadata = none;
  version = 4;
  is_active = true;
  created_at = 10;
  updated_at = 10;
  tenant_id = some 9;
}

-- A later template that took over the name.
abbrev pub successor : TemplateRow
successor = record welcome { id = 6; version = 1 }

abbrev pub endpoint : WebhookEndpointRow
endpoint = record {
  id = 5;
  tenant_id = 9;
  url = "https://example.com/hook";
  secret = "s3cret";
  events = "notification.delivered" ∷ [];
  is_active = true;
  created_at = 10;
  updated_at = 10;
}

abbrev pub posted : WebhookDeliveryRow
posted = record {
  id = 8;
  endpoint_id = 5;
  notification_id = some 1;
  event = "notification.delivered";
  payload = [];
  status = WebhookDeliveryStatus.pending;
  attempt = 0;
  next_retry_at = none;
  last_error = none;
  response_status = none;
  created_at = 60;
  updated_at = 60;
}

abbrev pub message : Message
message = record {
  notification_id = 1;
  tenant_id = 9;
  channel = "email";
  recipient_id = "ada";
  recipient_address = "ada@example.com";
  template_id = none;
  payload = [];
  priority = 5;
  attempt = 1;
  max_attempts = 3;
  enqueued_at = 60;
}

abbrev pub dead : DlqMessage
dead = record {
  original = message;
  original_topic = "notifyhub.notifications.email";
  failure_reason = DlqReason.retries_exhausted;
  error_message = "timeout";
  last_attempt = 1;
  dead_lettered_at = 70;
}

abbrev pub buried : DeadLetterRow DlqMessage
buried = record {
  id = 4;
  tenant_id = 9;
  notification_id = 1;
  channel = "email";
  original_topic = "notifyhub.notifications.email";
  payload = dead;
  failure_reason = DlqReason.retries_exhausted;
  error_message = "timeout";
  attempts = 1;
  replayed_at = none;
  created_at = 80;
}

abbrev pub hook : WebhookMessage
hook = record {
  tenant_id = 9;
  endpoint_id = 5;
  delivery_id = 8;
  notification_id = some 1;
  event = "notification.delivered";
  payload = [];
  endpoint_url = "https://example.com/hook";
  secret = "s3cret";
  attempt = 1;
  max_attempts = 3;
  enqueued_at = 60;
}

abbrev pub unread : InappMessageRow
unread = record {
  id = 11;
  tenant_id = 9;
  notification_id = some 1;
  recipient_id = "ada";
  title = "Hello";
  body = "Welcome";
  payload = [];
  read_at = none;
  created_at = 70;
}

abbrev pub phone : DeviceTokenRow
phone = record {
  id = 12;
  tenant_id = 9;
  user_id = "ada";
  token = "t0k3n";
  platform = "ios";
  is_active = true;
  created_at = 20;
  updated_at = 20;
}

abbrev pub acme : TenantRow
acme = record { id = 9; name = "acme"; is_active = true; created_at = 1; updated_at = 1 }

abbrev pub client : ApiClientRow
client = record {
  id = 13;
  name = "backend";
  api_key_hash = "hash of s3cret";
  is_active = true;
  created_at = 2;
  updated_at = 2;
  tenant_id = some 9;
}

abbrev pub tables : Tables
tables = record {
  notifications = waiting ∷ [];
  delivery_logs = [];
  preferences = [];
  templates = welcome ∷ successor ∷ [];
  webhook_endpoints = endpoint ∷ [];
  webhook_deliveries = posted ∷ [];
  dead_letters = buried ∷ [];
  inapp_messages = unread ∷ [];
  device_tokens = phone ∷ [];
  tenants = acme ∷ [];
  api_clients = client ∷ [];
}

abbrev pub world : World
world = record {
  db = tables;
  topics = [];
  sorted_sets = λ key. [];
  sent = [];
  published = [];
  slept = [];
  now = 100;
  calls = 0;
  sends = 0;
  waits = 0;
  fresh = 20;
}

abbrev engine : Engine
engine text = ok (λ payload. ok text)

abbrev pub printer : Printer
printer = record { uuid_text = λ u. "uuid"; time_text = λ t. "time" }

abbrev pub mailer : Provider
mailer = record { channel = "email"; name = "ses" }

abbrev pub deps : ProcessorDeps
deps = record {
  zones = λ name. none;
  score = λ t. t;
  engine = engine;
  printer = printer;
  registry = record { providers = ("email", mailer) ∷ [] };
  rate_caps = λ ch. 10;
  retry_delay = 1000;
  dlq_publisher = true;
  dlq_enabled = true;
  webhook = some 3;
}

abbrev pub request : SendRequest
request = record {
  kind = "order_shipped";
  channel = "email";
  recipient_id = "bob";
  recipient_address = "bob@example.com";
  template_id = none;
  payload = [];
  priority = 0;
  idempotency_key = some "order-8";
  scheduled_at = none;
}

abbrev pub bulk : BulkSendRequest
bulk = record {
  kind = "news";
  channel = "email";
  template_id = none;
  payload = [];
  priority = 0;
  recipients =
      record { recipient_id = "ada"; recipient_address = "ada@example.com"; payload = [] }
      ∷ record { recipient_id = "bob"; recipient_address = "bob@example.com"; payload = [] }
      ∷ [];
}

abbrev pub revision : UpdateTemplateRequest
revision = record {
  subject_template = none;
  body_template = some "Welcome back";
  metadata = none;
  is_active = none;
}

abbrev pub always : SendRequest → Bool
always req = true

-- The recipient has switched the channel off.
abbrev muted : PreferenceRow
muted = record {
  id = 2;
  user_id = "ada";
  channel = "email";
  enabled = false;
  quiet_hours_start = none;
  quiet_hours_end = none;
  frequency_cap = none;
  frequency_window_minutes = none;
  timezone = none;
  created_at = 10;
  updated_at = 10;
  tenant_id = some 9;
}

abbrev pub muted_world : World
muted_world = record world { db = record tables { preferences = muted ∷ [] } }

abbrev pub ada : ApiClient
ada = record { id = 13; tenant_id = 9; name = "backend"; is_active = true }

abbrev pub parsers : Parsers
parsers = record { atoi = λ s. (pos 1, false); parse_uuid = λ s. none; uuid_text = λ u. "uuid" }
