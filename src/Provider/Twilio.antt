-- ===== src/Provider/Twilio.antt =====
-- internal/provider/twilio/twilio.go: classify. The SDK's error is its code, or none for an error
-- of another type.
use notify_hub.Prelude.{
  ℕ, Option, none, some, List, [], ◌∷◌, any, leb, ltb, ◌==◌, nat_eq, ◌&&◌, ◌||◌, if◌then◌else◌,
}
use notify_hub.Domain.Errors.{Err, temporary, permanent}

abbrev pub permanent_error_codes : List ℕ
permanent_error_codes = 21211 ∷ 21610 ∷ 21614 ∷ 20003 ∷ 21401 ∷ 21602 ∷ 21608 ∷ 21609 ∷ []

unfoldable pub classify : Option ℕ → Err → Err
classify none e = temporary e
classify (some code) e =
    if any (λ c. c == code) permanent_error_codes
    then permanent e
    else (if code == 20429 || code == 20003
        then temporary e
        else (if leb 400 code && ltb code 500 then permanent e else temporary e))
