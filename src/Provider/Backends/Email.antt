-- ===== src/Provider/Backends/Email.antt =====
-- internal/provider/ses/ses.go: extractContent, buildBody, Send and classify. `bytes` gives the
-- bytes of a text; a smithy.APIError is its code and whether its fault is FaultClient, none for an
-- error of another type. Charset is always UTF-8.
use notify_hub.Prelude.{
  ℕ, String, Bool, true, false, Option, none, some, List, [], ◌∷◌, any, map, leb, ◌==◌, ◌+◌, nat_eq,
  string_eq, ◌&&◌, ◌||◌, if◌then◌else◌,
}
use notify_hub.Domain.Json.{Value, text, Payload, get}
use notify_hub.Domain.Errors.{Err, temporary, permanent, Result}
use notify_hub.Domain.Notification.{Notification}
use notify_hub.Provider.Content.{first_string}
use notify_hub.Provider.Sdk.{Client, guarded}
use notify_hub.Realtime.Channels.{Bytes}

pub record ApiError : Type 0 where
  pub error_code : String
  pub fault_client : Bool

pub data EmailBody : Type 0 where
  html plain_text : String → EmailBody

pub record SendEmailInput : Type 0 where
  pub from_email_address : String
  pub to_addresses : List String
  pub subject : String
  pub body : EmailBody

abbrev pub permanent_error_codes : List String
permanent_error_codes =
    "MessageRejected" ∷ "MailFromDomainNotVerifiedException" ∷ "SendingPausedException"
    ∷ "AccountSuspendedException" ∷ "MailFromDomainNotVerified" ∷ "InvalidParameterValue"
    ∷ "ConfigurationSetDoesNotExist" ∷ []

unfoldable pub classify : Option ApiError × Err → Err
classify (none, e) = temporary e
classify (some a, e) =
    if any (λ c. c == a.error_code) permanent_error_codes
    then permanent e
    else (if a.fault_client then permanent e else temporary e)

-- strings.HasPrefix and strings.Contains
abbrev has_prefix : Bytes → Bytes → Bool
has_prefix [] s = true
has_prefix (p ∷ ps) [] = false
has_prefix (p ∷ ps) (c ∷ s) = let rest = has_prefix ps s in p == c && rest

unfoldable pub contains : Bytes → Bytes → Bool
contains part [] = has_prefix part []
contains part (c ∷ s) = let rest = contains part s in has_prefix part (c ∷ s) || rest

-- strings.ToLower on the letters that "<html" holds.
abbrev lower : ℕ → ℕ
lower c = if leb 65 c && leb c 90 then c + 32 else c

-- "<html"
abbrev html_tag : Bytes
html_tag = 60 ∷ 104 ∷ 116 ∷ 109 ∷ 108 ∷ []

-- "<!DOCTYPE"
abbrev doctype : Bytes
doctype = 60 ∷ 33 ∷ 68 ∷ 79 ∷ 67 ∷ 84 ∷ 89 ∷ 80 ∷ 69 ∷ []

-- body == payload["html"], where the key is there.
abbrev is_text : String → Option Value → Bool
is_text body (some (text s)) = body == s
is_text body _ = false

abbrev pub subject_of : Payload → String
subject_of m = first_string m ("_subject" ∷ "subject" ∷ [])

abbrev pub body_of : Payload → String
body_of m = first_string m ("_body" ∷ "body" ∷ "html" ∷ "text" ∷ [])

unfoldable pub build_body : String → Bool → EmailBody
build_body body true = html body
build_body body false = plain_text body

module _ (bytes : String → Bytes) where
  abbrev pub is_html : Payload → Bool
  is_html m =
      contains html_tag (map lower (bytes (body_of m)))
      || contains doctype (bytes (body_of m))
      || is_text (body_of m) (get "html" m)

  -- subject, body, isHTML
  unfoldable pub extract_content : Payload → String × String × Bool
  unfolding first_string get contains
  extract_content m = (subject_of m, body_of m, is_html m)

  abbrev pub input : String → Notification → SendEmailInput
  unfolding build_body
  input from_email n = record {
    from_email_address = from_email;
    to_addresses = n.recipient_address ∷ [];
    subject = subject_of n.payload;
    body = build_body (body_of n.payload) (is_html n.payload);
  }

  unfoldable pub send :
      {S : Type 0}
      → Client S SendEmailInput (Option ApiError × Err)
      → String
      → Notification
      → S
      → Result (Unit {0}) × S
  unfolding guarded classify
  send client from_email n s =
      guarded "ses: empty body" "ses: missing recipient address" n.recipient_address client classify
        (body_of n.payload) (input from_email n) s
