-- ===== src/Api/Middleware/Guards.antt =====
-- internal/api/middleware: who gets past the guards of a route.
use notify_hub.Prelude.{
  ℕ, suc, String, Bool, true, false, some, ◌≡◌, refl, sym, subst, ◌∙◌, arith, ◌⊎◌, inl, inr, find?,
  find?-holds, ◌==◌, string_eq, Bool-cases, Option-cases,
}
use notify_hub.Domain.Errors.{
  Code, Result, ok, err, new_rate_limited_error, new_unauthorized_error, new_internal_error,
}
use notify_hub.Domain.Tenant.{ApiClient}
use notify_hub.Db.Models.{ApiClientRow}
use notify_hub.Db.World.{World, Env}
use notify_hub.Db.TenantQueries.{usable, get_api_client_by_key_hash}
use notify_hub.Repository.Notifications.Isolation.{&&-right}
use notify_hub.Repository.Tenants
use notify_hub.Repository.Tenants.{found_client}
use notify_hub.Service.RateLimit.{allow_key}
use notify_hub.Api.Responses.{Reply, failure, json_error}
use notify_hub.Api.Requests.{Request, Parsers}
use notify_hub.Api.Middleware.{auth, pass_by, rate_limit, api_route}

allow_key-db :
    (score : ℕ → ℕ) (env : Env) (key : String) (window cap : ℕ) (w : World)
    → (allow_key score env key window cap w).1.db ≡ w.db
unfolding allow_key
allow_key-db score env key window cap w = ground arith

module _ {A : Type 0} where
  -- The request was turned away with 401, 429 or 500, and the tables are as they were.
  abbrev pub TurnedAway : World → Reply A × World → Type 0
  TurnedAway w r =
      (status : ℕ) × (code : Code) × (msg : String) × (r.0 ≡ failure status code msg)
      × ((status ≡ 401) ⊎ ((status ≡ 429) ⊎ (status ≡ 500)))
      × (r.1.db ≡ w.db)

  -- The handler answered, for the client that the key of the request belongs to, on the tables as
  -- they were.
  abbrev pub Admitted :
      (String → String)
      → Request
      → (ApiClient → World → Reply A × World)
      → World
      → Reply A × World
      → Type 0
  Admitted hash req next w r =
      (row : ApiClientRow) × (v : World) × (get_api_client_by_key_hash
          (hash (req.header "X-API-Key")) w
        ≡ some row)
      × (v.db ≡ w.db)
      × (r ≡ next (found_client row) v)

  -- A key that is known gets its client past Auth.
  pub auth-known :
      (hash : String → String) (env : Env) (req : Request)
      (next : ApiClient → World → Reply A × World) (w : World) (row : ApiClientRow)
      → (req.header "X-API-Key" == "") ≡ false
      → env.faults w.calls ≡ false
      → get_api_client_by_key_hash (hash (req.header "X-API-Key")) w ≡ some row
      → auth hash env req next w ≡ next (found_client row) (record w { calls = suc w.calls })
  unfolding auth Tenants.get_by_key_hash get_api_client_by_key_hash
  auth-known hash env req next w row e f g =
      let test = usable (hash (req.header "X-API-Key")) in
      let active =
        &&-right (row.api_key_hash == hash (req.header "X-API-Key")) _
          (find?-holds test w.db.api_clients row g) in
      rw (e, f, g, active) refl

  pass_by-next :
      (next : World → Reply A × World) (b : Result Bool) (v w : World)
      → v.db ≡ w.db
      → ((u : World) × (u.db ≡ w.db) × (pass_by next b v ≡ next u))
        ⊎ TurnedAway w (pass_by next b v)
  unfolding json_error new_rate_limited_error
  pass_by-next next (err e) v w h = inl (v, h, refl)
  pass_by-next next (ok true) v w h = inl (v, h, refl)
  pass_by-next next (ok false) v w h = inr (429, _, _, refl, inr (inl refl), h)

  module _ (hash : String → String) (parsers : Parsers) (score : ℕ → ℕ) (rpm : ℕ) (env : Env) where
    -- The rate limit calls the handler, or turns the request away.
    rate_limit-next :
        (client : ApiClient) (next : World → Reply A × World) (v w : World)
        → v.db ≡ w.db
        → ((u : World) × (u.db ≡ w.db)
            × (rate_limit parsers score rpm env (some client) next v ≡ next u))
          ⊎ TurnedAway w (rate_limit parsers score rpm env (some client) next v)
    unfolding rate_limit
    rate_limit-next client next v w h =
        pass_by-next next _ _ w (allow_key-db score env _ _ rpm v ∙ h)

    route_by :
        (req : Request) (next : ApiClient → World → Reply A × World) (w : World)
        (row : ApiClientRow) (v : World)
        → get_api_client_by_key_hash (hash (req.header "X-API-Key")) w ≡ some row
        → api_route hash parsers score rpm env req next w
          ≡ rate_limit parsers score rpm env (some (found_client row)) (next (found_client row)) v
        → ((u : World) × (u.db ≡ w.db)
            × (rate_limit parsers score rpm env
                  (some (found_client row))
                  (next (found_client row))
                  v
                ≡ next (found_client row) u))
          ⊎ TurnedAway w (
              rate_limit parsers score rpm env
                (some (found_client row))
                (next (found_client row))
                v)
        → Admitted hash req next w (api_route hash parsers score rpm env req next w)
          ⊎ TurnedAway w (api_route hash parsers score rpm env req next w)
    route_by req next w row v g run (inl (u, d, q)) = inl (row, u, g, d, run ∙ q)
    route_by req next w row v g run (inr t) = inr (subst (TurnedAway w) (sym run) t)

    -- Whatever fails: behind Auth and RateLimit a handler runs only for the client whose active
    -- key the request carries, on unchanged tables; any other request is answered with 401, 429
    -- or 500 and changes no table. Never with 403: the inactive branch of Auth is not reached.
    pub api_route-guards :
        (req : Request) (next : ApiClient → World → Reply A × World) (w : World)
        → Admitted hash req next w (api_route hash parsers score rpm env req next w)
          ⊎ TurnedAway w (api_route hash parsers score rpm env req next w)
    unfolding api_route auth Tenants.get_by_key_hash get_api_client_by_key_hash json_error
        new_unauthorized_error new_internal_error
    api_route-guards req next w = elim (Bool-cases (req.header "X-API-Key" == "")) [
      | inl e ↦ rw e (inr (401, _, _, refl, inl refl, refl))
      | inr e ↦ elim (Bool-cases (env.faults w.calls)) [
        | inl f ↦ rw (e, f) (inr (500, _, _, refl, inr (inr refl), refl))
        | inr f ↦
            elim (Option-cases (find? (usable (hash (req.header "X-API-Key"))) w.db.api_clients)) [
              | inl g ↦ rw (e, f, g) (inr (401, _, _, refl, inl refl, refl))
              | inr (row, g) ↦
                  route_by req next w row _ g (auth-known hash env req _ w row e f g)
                    (rate_limit-next (found_client row) (next (found_client row)) _ w refl)
            ]
      ]
    ]
