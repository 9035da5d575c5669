-- ===== src/Provider/Backends/Outcomes.antt =====
-- internal/provider/{twilio,fcm,ses}: what Send answers, whatever its client does.
use notify_hub.Prelude.{
  ℕ, String, Bool, true, false, Option, none, some, ◌≡◌, refl, arith, inl, inr, ◌||◌, ◌==◌,
  string_eq, Bool-cases, nat_eq,
}
use notify_hub.Domain.Json.{Value}
use notify_hub.Domain.Errors.{Err, Result, ok, err}
use notify_hub.Domain.Notification.{Notification}
use notify_hub.Provider.Errors.{is_temporary, is_permanent}
use notify_hub.Provider.Content.{extract_body, extract_content}
use notify_hub.Provider.Sdk.{Client, answer, guarded}
use notify_hub.Provider.Twilio
use notify_hub.Provider.Backends.Sms
use notify_hub.Provider.Backends.Push
use notify_hub.Provider.Backends.Push.{Messaging}
use notify_hub.Provider.Backends.Email
use notify_hub.Realtime.Channels.{Bytes}

abbrev classified : Err → Bool
classified e = is_permanent e || is_temporary e

-- A worker can tell whether to retry: an error is one of the two delivery errors.
abbrev Told : Result (Unit {0}) → Type 0
Told (ok u) = Unit
Told (err e) = classified e ≡ true

-- An error that a retry does not mend.
abbrev Final : Result (Unit {0}) → Type 0
Final (ok u) = ⊥
Final (err e) = (is_permanent e ≡ true) × (is_temporary e ≡ false)

module _ {S R E : Type 0} (client : Client S R E) (classify : E → Err) where
  answer-Told :
      ((e : E) → classified (classify e) ≡ true) → (r : Option E × S) → Told (answer classify r).0
  answer-Told all_told (none, s) = tt
  answer-Told all_told (some e, s) = all_told e

  guarded-Told :
      ((e : E) → classified (classify e) ≡ true)
      → (x y address body : String) (request : R) (s : S)
      → Told (guarded x y address client classify body request s).0
  unfolding guarded is_permanent is_temporary
  guarded-Told all_told x y address body request s = elim (Bool-cases (body == "")) [
    | inl h ↦ rw h refl
    | inr h ↦ elim (Bool-cases (address == "")) [
      | inl g ↦ rw (h, g) refl
      | inr g ↦ rw (h, g) (answer-Told all_told (client request s))
    ]
  ]

  -- No body or no address: the client is not called.
  guarded-Final :
      (x y address body : String) (request : R) (s : S)
      → (body == "" || address == "") ≡ true
      → Final (guarded x y address client classify body request s).0
        × ((guarded x y address client classify body request s).1 ≡ s)
  unfolding guarded is_permanent is_temporary
  guarded-Final x y address body request s h = elim (Bool-cases (body == "")) [
    | inl f ↦ rw f ((refl, refl), refl)
    | inr f ↦ elim (Bool-cases (address == "")) [
      | inl g ↦ rw (f, g) ((refl, refl), refl)
      | inr g ↦ absurd (ground (arith, h, f, g))
    ]
  ]

sms_classified : (e : Option ℕ × Err) → classified (Twilio.classify e.0 e.1) ≡ true
unfolding Twilio.classify is_permanent is_temporary
sms_classified (none, e) = ground arith
sms_classified (some c, e) = ground arith

push_classified : (m : Messaging) (e : Err) → classified (Push.classify m e) ≡ true
unfolding Push.classify is_permanent is_temporary
push_classified m e = ground arith

email_classified : (e : Option Email.ApiError × Err) → classified (Email.classify e) ≡ true
unfolding Email.classify is_permanent is_temporary
email_classified (none, e) = ground arith
email_classified (some a, e) = ground arith

-- Whatever Twilio answers, an error of Send is a temporary or a permanent delivery error.
sms_send-Told :
    {S : Type 0} (client : Client S Sms.MessageParams (Option ℕ × Err)) (p : Sms.Provider)
    (n : Notification) (s : S)
    → Told (Sms.send client p n s).0
unfolding Sms.send
sms_send-Told client p n s =
    search (guarded-Told client (λ e. Twilio.classify e.0 e.1) sms_classified)

push_send-Told :
    (printed : Value → String) {S : Type 0} (client : Client S Push.PushMessage Err) (m : Messaging)
    (n : Notification) (s : S)
    → Told (Push.send printed client m n s).0
unfolding Push.send
push_send-Told printed client m n s =
    search (guarded-Told client (Push.classify m) (push_classified m))

email_send-Told :
    (bytes : String → Bytes) {S : Type 0}
    (client : Client S Email.SendEmailInput (Option Email.ApiError × Err)) (from_email : String)
    (n : Notification) (s : S)
    → Told (Email.send bytes client from_email n s).0
unfolding Email.send
email_send-Told bytes client from_email n s =
    search (guarded-Told client Email.classify email_classified)

-- A notification without a body or an address never reaches the SDK, and its error is permanent.
email_send-Final :
    (bytes : String → Bytes) {S : Type 0}
    (client : Client S Email.SendEmailInput (Option Email.ApiError × Err)) (from_email : String)
    (n : Notification) (s : S)
    → (Email.body_of n.payload == "" || n.recipient_address == "") ≡ true
    → Final (Email.send bytes client from_email n s).0
      × ((Email.send bytes client from_email n s).1 ≡ s)
unfolding Email.send
email_send-Final bytes client from_email n s h = search (guarded-Final client Email.classify, h)

push_send-Final :
    (printed : Value → String) {S : Type 0} (client : Client S Push.PushMessage Err) (m : Messaging)
    (n : Notification) (s : S)
    → ((extract_content n.payload).1 == "" || n.recipient_address == "") ≡ true
    → Final (Push.send printed client m n s).0 × ((Push.send printed client m n s).1 ≡ s)
unfolding Push.send
push_send-Final printed client m n s h = search (guarded-Final client (Push.classify m), h)

sms_send-Final :
    {S : Type 0} (client : Client S Sms.MessageParams (Option ℕ × Err)) (p : Sms.Provider)
    (n : Notification) (s : S)
    → (extract_body n.payload == "" || n.recipient_address == "") ≡ true
    → Final (Sms.send client p n s).0 × ((Sms.send client p n s).1 ≡ s)
unfolding Sms.send
sms_send-Final client p n s h = search (guarded-Final client (λ e. Twilio.classify e.0 e.1), h)
