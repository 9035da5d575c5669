-- ===== src/Api/Middleware.antt =====
-- internal/api/middleware: auth.go, ratelimit.go and admin.go, and the order in which router.go puts
-- them before a handler. `hash` is SHA-256 in hexadecimal. Recovery, request ids, logs and metrics
-- are left out.
pub mod Guards
pub mod Issued
use notify_hub.Prelude.{
  ℕ, String, Bool, true, false, Option, none, some, ◌==◌, string_eq, ◌||◌, not, if◌then◌else◌,
}
use Prim.Native.String.{◌++◌}
use notify_hub.Domain.Errors.{
  Err, app, app_cause, Result, ok, err, new_unauthorized_error, new_forbidden_error,
  new_rate_limited_error,
}
use notify_hub.Domain.Tenant.{ApiClient}
use notify_hub.Db.World.{World, Env}
use notify_hub.Repository.Tenants
use notify_hub.Service.RateLimit.{allow_key}
use notify_hub.Api.Responses.{Reply, json_error, reject}
use notify_hub.Api.Requests.{Request, Parsers}

-- isAppError: a type assertion, which unwraps nothing.
abbrev pub auth_error : Err → Err
auth_error (app c m) = app c m
auth_error (app_cause c m e) = app_cause c m e
auth_error _ = new_unauthorized_error "invalid API key"

-- time.Minute
abbrev minute : ℕ
minute = 60000000000

module _ {A : Type 0} where
  abbrev pub admit :
      (ApiClient → World → Reply A × World) → Result ApiClient → World → Reply A × World
  admit next (err e) = reject (auth_error e)
  admit next (ok client) =
      if client.is_active then next client else reject (new_forbidden_error "API key is inactive")

  unfoldable pub auth :
      (String → String)
      → Env
      → Request
      → (ApiClient → World → Reply A × World)
      → World
      → Reply A × World
  unfolding Tenants.get_by_key_hash
  auth hash env req next w =
      let r = Tenants.get_by_key_hash env (hash (req.header "X-API-Key")) w in
      if req.header "X-API-Key" == ""
      then (json_error (new_unauthorized_error "X-API-Key header is required"), w)
      else admit next r.0 r.1

  -- An error lets the request through.
  abbrev pub pass_by : (World → Reply A × World) → Result Bool → World → Reply A × World
  pass_by next (err e) = next
  pass_by next (ok true) = next
  pass_by next (ok false) = reject (new_rate_limited_error "API rate limit exceeded")

  -- The client of the context; without one the request goes on.
  unfoldable pub rate_limit :
      Parsers
      → (ℕ → ℕ)
      → ℕ
      → Env
      → Option ApiClient
      → (World → Reply A × World)
      → World
      → Reply A × World
  unfolding allow_key
  rate_limit parsers score rpm env none next w = next w
  rate_limit parsers score rpm env (some client) next w =
      let r = allow_key score env ("ratelimit:api:" ++ parsers.uuid_text client.id) minute rpm w in
      pass_by next r.0 r.1

  unfoldable pub admin_auth : String → Request → (World → Reply A × World) → World → Reply A × World
  admin_auth token req next =
      if req.header "X-Admin-Token" == ""
      then reject (new_unauthorized_error "X-Admin-Token header is required")
      else (if token == "" || not (req.header "X-Admin-Token" == token)
          then reject (new_forbidden_error "invalid admin token")
          else next)

  -- The group of the authenticated routes: Auth, then RateLimit, then the handler.
  unfoldable pub api_route :
      (String → String)
      → Parsers
      → (ℕ → ℕ)
      → ℕ
      → Env
      → Request
      → (ApiClient → World → Reply A × World)
      → World
      → Reply A × World
  unfolding auth rate_limit
  api_route hash parsers score rpm env req next =
      auth hash env req (λ client. rate_limit parsers score rpm env (some client) (next client))
