-- ===== src/Provider/Backends/Sms.antt =====
-- internal/provider/twilio/twilio.go: Send. An error of the SDK is its code, none for an error of
-- another type, and the error itself.
use notify_hub.Prelude.{ℕ, String, Option, ◌==◌, string_eq, if◌then◌else◌, not}
use notify_hub.Domain.Errors.{Err, Result}
use notify_hub.Domain.Notification.{Notification}
use notify_hub.Provider.Content.{extract_body}
use notify_hub.Provider.Sdk.{Client, guarded}
use notify_hub.Provider.Twilio.{classify}

pub data Origin : Type 0 where
  messaging_service from : String → Origin

pub record MessageParams : Type 0 where
  pub to : String
  pub body : String
  pub origin : Origin

pub record Provider : Type 0 where
  pub from_number : String
  pub messaging_svc_id : String

abbrev pub origin_of : Provider → Origin
origin_of p =
    if not (p.messaging_svc_id == "")
    then messaging_service p.messaging_svc_id
    else from p.from_number

abbrev pub params : Provider → Notification → MessageParams
params p n = record {
  to = n.recipient_address;
  body = extract_body n.payload;
  origin = origin_of p;
}

unfoldable pub send :
    {S : Type 0}
    → Client S MessageParams (Option ℕ × Err)
    → Provider
    → Notification
    → S
    → Result (Unit {0}) × S
unfolding guarded classify extract_body
send client p n s =
    guarded "twilio: empty body" "twilio: missing recipient address" n.recipient_address client
      (λ e. classify e.0 e.1) (extract_body n.payload) (params p n) s
