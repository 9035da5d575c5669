-- ===== src/Provider/Backends/Push.antt =====
-- internal/provider/fcm/fcm.go: Send, flattenPayload and classify. The tests of the messaging
-- package on an error are parameters, and so is fmt's %v of a value that is not a text.
use notify_hub.Prelude.{String, Bool, List, [], ◌∷◌, ◌==◌, string_eq, ◌||◌, if◌then◌else◌}
use notify_hub.Domain.Json.{Value, null, bool, number, text, array, object, Payload}
use notify_hub.Domain.Errors.{Err, temporary, permanent, Result}
use notify_hub.Domain.Notification.{Notification}
use notify_hub.Provider.Content.{extract_content}
use notify_hub.Provider.Sdk.{Client, guarded}

pub record Messaging : Type 0 where
  pub is_registration_token_not_registered : Err → Bool
  pub is_invalid_argument : Err → Bool
  pub is_sender_id_mismatch : Err → Bool
  pub is_unavailable : Err → Bool
  pub is_internal : Err → Bool
  pub is_quota_exceeded : Err → Bool

pub record PushMessage : Type 0 where
  pub token : String
  pub title : String
  pub body : String
  pub data_fields : List (String × String)

unfoldable pub classify : Messaging → Err → Err
classify m e =
    if m.is_registration_token_not_registered e
    then permanent e
    else (if m.is_invalid_argument e
        then permanent e
        else (if m.is_sender_id_mismatch e
            then permanent e
            else (if m.is_unavailable e
                then temporary e
                else (if m.is_internal e
                    then temporary e
                    else (if m.is_quota_exceeded e then temporary e else temporary e)))))

module _ (printed : Value → String) where
  abbrev pub flat_value : Value → String
  flat_value (text s) = s
  flat_value null = printed null
  flat_value (bool b) = printed (bool b)
  flat_value (number t) = printed (number t)
  flat_value (array vs) = printed (array vs)
  flat_value (object fs) = printed (object fs)

  unfoldable pub flatten_payload : Payload → List (String × String)
  flatten_payload [] = []
  flatten_payload ((k, v) ∷ m) =
      let rest = flatten_payload m in
      if k == "_subject" || k == "_body" then rest else (k, flat_value v) ∷ rest

  abbrev pub message : Notification → PushMessage
  unfolding extract_content
  message n = record {
    token = n.recipient_address;
    title = (extract_content n.payload).0;
    body = (extract_content n.payload).1;
    data_fields = flatten_payload n.payload;
  }

  unfoldable pub send :
      {S : Type 0} → Client S PushMessage Err → Messaging → Notification → S → Result (Unit {0}) × S
  unfolding guarded classify extract_content
  send client m n s =
      guarded "fcm: empty body" "fcm: missing recipient address (token)" n.recipient_address client
        (classify m) (extract_content n.payload).1 (message n) s
