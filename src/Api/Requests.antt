-- ===== src/Api/Requests.antt =====
-- What a handler reads from a request: headers, query and route parameters, "" for none. The texts
-- are parsed by strconv.Atoi, whose value counts also where the code drops its error, and by
-- uuid.Parse; both are of the Go library.
use notify_hub.Prelude.{
  ℕ, String, Bool, true, false, Option, none, some, ◌==◌, string_eq, if◌then◌else◌, ltb, ℤ, pos,
  negsuc,
}
use notify_hub.Domain.Errors.{Result, ok, err, new_validation_error}
use notify_hub.Domain.Notification.{Uuid}
use notify_hub.Db.World.{World}
use notify_hub.Api.Responses.{Reply, Body, decode_json, reject}

pub record Request : Type 0 where
  pub header : String → String
  pub query : String → String
  pub param : String → String

pub record Parsers : Type 0 where
  pub atoi : String → ℤ × Bool
  pub parse_uuid : String → Option Uuid
  pub uuid_text : Uuid → String

-- `if n, err := strconv.Atoi(v); err == nil && test(n) { x = n }`, for a test of no negative number
abbrev pub accepted : (ℕ → Bool) → ℕ → ℤ × Bool → ℕ
accepted test default (pos n, true) = if test n then n else default
accepted test default (pos n, false) = default
accepted test default (negsuc n, b) = default

-- `if v := r.URL.Query().Get(name); v != "" { … }`
abbrev pub number_param : Parsers → (ℕ → Bool) → ℕ → String → ℕ
number_param p test default v = if v == "" then default else accepted test default (p.atoi v)

abbrev pub uuid_param : Parsers → String → Option Uuid
uuid_param p v = if v == "" then none else p.parse_uuid v

-- `n, _ := strconv.Atoi(v); if n < 1 { n = default }`
abbrev at_least_one : ℕ → ℤ → ℕ
at_least_one default (pos n) = if ltb n 1 then default else n
at_least_one default (negsuc n) = default

abbrev pub page_param : Parsers → ℕ → String → ℕ
page_param p default v = at_least_one default (p.atoi v).0

-- `if err != nil { response.JSONError(w, NewValidationError(msg, nil), reqID); return }`
abbrev pub with_uuid :
    {A : Type 0} → String → Option Uuid → (Uuid → World → Reply A × World) → World → Reply A × World
with_uuid msg none k = reject (new_validation_error msg)
with_uuid msg (some id) k = k id

abbrev pub with_decoded :
    {A B : Type 0} → Result A → (A → World → Reply B × World) → World → Reply B × World
with_decoded (ok a) k = k a
with_decoded (err e) k = reject e

abbrev pub with_body :
    {A B : Type 0} → Body A → (A → World → Reply B × World) → World → Reply B × World
with_body b k = with_decoded (decode_json b) k
