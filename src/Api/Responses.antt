-- ===== src/Api/Responses.antt =====
-- internal/api/response/response.go and internal/api/handler/errors.go: what a handler answers. The
-- details of an error and the request id are left out.
use notify_hub.Prelude.{ℕ, String, Option, none, some}
use Prim.Native.String.{◌++◌}
use notify_hub.Domain.Errors.{
  Code, not_found, conflict, validation, unauthorized, forbidden, rate_limited, internal, Err, app,
  app_cause, wrapped, temporary, permanent, plain, no_rows, no_provider, cancelled, Result, ok, err,
  new_validation_error,
}
use notify_hub.Db.World.{World}
use notify_hub.Db.Io.{Io}

-- A status with data, the bare 204, or a status with the code and the message of an error.
pub data Reply (A : Type 0) : Type 0 where
  success : ℕ → A → Reply A
  no_content : Reply A
  failure : ℕ → Code → String → Reply A

abbrev pub code_to_status : Code → ℕ
code_to_status not_found = 404
code_to_status conflict = 409
code_to_status validation = 422
code_to_status unauthorized = 401
code_to_status forbidden = 403
code_to_status rate_limited = 429
code_to_status internal = 500

-- errors.As, with the message.
unfoldable pub found_app : Err → Option (Code × String)
found_app (app c m) = some (c, m)
found_app (app_cause c m e) = some (c, m)
found_app (wrapped t e) = found_app e
found_app (temporary e) = found_app e
found_app (permanent e) = found_app e
found_app (plain t) = none
found_app no_rows = none
found_app (no_provider ch) = none
found_app cancelled = none

-- toAppError
abbrev or_unexpected : Option (Code × String) → Code × String
or_unexpected none = (internal, "an unexpected error occurred")
or_unexpected (some a) = a

unfoldable pub app_error : Err → Code × String
unfolding found_app
app_error e = or_unexpected (found_app e)

-- JSONError of toAppError
unfoldable pub json_error : {A : Type 0} → Err → Reply A
unfolding app_error
json_error e = let a = app_error e in failure (code_to_status a.0) a.0 a.1

abbrev pub reply_by : {A : Type 0} → ℕ → Result A → Reply A
reply_by status (ok a) = success status a
reply_by status (err e) = json_error e

abbrev pub empty_by : Result (Unit {0}) → Reply (Unit {0})
empty_by (ok u) = no_content
empty_by (err e) = json_error e

-- Call, then JSONError or JSON.
abbrev pub respond : {A : Type 0} → ℕ → Io A → World → Reply A × World
respond status m w = let r = m w in (reply_by status r.0, r.1)

-- Call, then JSONError or 204.
abbrev pub respond_empty : Io (Unit {0}) → World → Reply (Unit {0}) × World
respond_empty m w = let r = m w in (empty_by r.0, r.1)

abbrev pub reject : {A : Type 0} → Err → World → Reply A × World
reject e w = (json_error e, w)

-- What encoding/json makes of a body, unknown fields refused, at most a megabyte read.
pub data Body (A : Type 0) : Type 0 where
  decoded : A → Body A
  nothing : Body A
  malformed : String → Body A

-- DecodeJSON
unfoldable pub decode_json : {A : Type 0} → Body A → Result A
decode_json (decoded a) = ok a
decode_json nothing = err (new_validation_error "request body is required")
decode_json (malformed t) = err (new_validation_error ("invalid JSON: " ++ t))
