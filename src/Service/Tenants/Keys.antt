-- ===== src/Service/Tenants/Keys.antt =====
-- internal/service/tenant.go with internal/repository/api_client.go: whom an issued key stands for.
use notify_hub.Prelude.{
  suc, String, Bool, true, false, Option, none, some, List, [], ◌∷◌, ◌≡◌, refl, subst, arith, ◌⊎◌,
  inl, inr, find?, find?-weaken, ◌==◌, nat_eq, string_eq, beq_refl, Bool-cases, Option-cases,
}
use notify_hub.Domain.Errors.{Err, Result, ok, err}
use notify_hub.Domain.Notification.{Uuid}
use notify_hub.Domain.Tenant.{CreateApiKeyRequest, CreateApiKeyResponse, ApiClient}
use notify_hub.Db.Models.{TenantRow, ApiClientRow}
use notify_hub.Db.World.{World, Env}
use notify_hub.Db.Io.{IsHealthy}
use notify_hub.Db.Frames.{ok_inj}
use notify_hub.Db.TenantQueries.{
  usable, client_row, get_tenant_by_id, get_api_client_by_key_hash, insert_api_client,
}
use notify_hub.Repository.Notifications.Isolation.{&&-left}
use notify_hub.Repository.Tenants
use notify_hub.Repository.Tenants.{found_client, get_by_key_hash}
use notify_hub.Service.Tenants.{Crypto, key_response, generate_key, issue_key, create_api_key}

-- What a response to CreateAPIKey promises: the client that its key stands for.
abbrev pub promised : CreateApiKeyResponse → ApiClient
promised resp = record {
  id = resp.id;
  tenant_id = resp.tenant_id;
  name = resp.name;
  is_active = true;
}

Result-cases : {A : Type 0} (r : Result A) → ((a : A) × (r ≡ ok a)) ⊎ ((e : Err) × (r ≡ err e))
Result-cases (ok a) = inl (a, refl)
Result-cases (err e) = inr (e, refl)

inserted :
    (tenant : Option Uuid) (name hash : String) (w : World)
    → find? (λ r. r.api_key_hash == hash) w.db.api_clients ≡ none
    → insert_api_client tenant name hash w ≡ (
      some (client_row tenant name hash w),
      record w {
        fresh = suc w.fresh;
        db = record w.db { api_clients = client_row tenant name hash w ∷ w.db.api_clients };
      },
    )
unfolding insert_api_client
inserted tenant name hash w g = rw g refl

-- A hash that is known is not one that the table does not hold.
unlike :
    (hash other : String) (w : World) (r : ApiClientRow)
    → find? (usable hash) w.db.api_clients ≡ some r
    → find? (λ r. r.api_key_hash == other) w.db.api_clients ≡ none
    → (other == hash) ≡ false
unlike hash other w r h g = elim (Bool-cases (other == hash)) [
  | inl e ↦
      let same = (string_eq.same_iff other hash).0 e in
      absurd (
        find?-weaken (usable hash) (λ r. r.api_key_hash == other) w.db.api_clients r
          (λ y u. rw same (&&-left (y.api_key_hash == hash) _ u)) h g)
  | inr e ↦ e
]

-- The world of the INSERT of a key.
abbrev at_insert : World → World
at_insert w = record w { calls = suc (suc w.calls) }

module _ (crypto : Crypto) (env : Env) (up : IsHealthy env) where
  abbrev new_client : Uuid → CreateApiKeyRequest → String → World → ApiClientRow
  new_client tenant req raw w = client_row (some tenant) req.name (crypto.hash raw) (at_insert w)

  issue_key-runs :
      (tenant : Uuid) (req : CreateApiKeyRequest) (w : World) (t : TenantRow) (raw : String)
      → get_tenant_by_id tenant w ≡ some t
      → crypto.draw (record w { calls = suc w.calls }) ≡ ok raw
      → find? (λ r. r.api_key_hash == crypto.hash raw) w.db.api_clients ≡ none
      → issue_key crypto env tenant req w ≡ (
        ok (
            key_response tenant raw
              (record { id = w.fresh; tenant_id = tenant; name = req.name; is_active = true })),
        record (at_insert w) {
          fresh = suc w.fresh;
          db = record w.db { api_clients = new_client tenant req raw w ∷ w.db.api_clients };
        },
      )
  unfolding issue_key generate_key Tenants.get_by_id Tenants.create_for_tenant get_tenant_by_id
  issue_key-runs tenant req w t raw e f g =
      let ins = inserted (some tenant) req.name (crypto.hash raw) (at_insert w) g in
      rw (up w.calls, e, f, up (suc w.calls), ins, ins) refl

  -- An issue that succeeds has taken the one way through.
  issue_key-way :
      (tenant : Uuid) (req : CreateApiKeyRequest) (w : World) (resp : CreateApiKeyResponse)
      → (issue_key crypto env tenant req w).0 ≡ ok resp
      → (t : TenantRow) × (raw : String) × (get_tenant_by_id tenant w ≡ some t)
        × (crypto.draw (record w { calls = suc w.calls }) ≡ ok raw)
        × (find? (λ r. r.api_key_hash == crypto.hash raw) w.db.api_clients ≡ none)
  unfolding issue_key generate_key Tenants.get_by_id Tenants.create_for_tenant get_tenant_by_id
      insert_api_client
  issue_key-way tenant req w resp h = elim (Option-cases (get_tenant_by_id tenant w)) [
    | inl e ↦ absurd (ground (arith, h, e, up w.calls))
    | inr (t, e) ↦ elim (Result-cases (crypto.draw (record w { calls = suc w.calls }))) [
      | inr (x, f) ↦ absurd (ground (arith, h, e, f, up w.calls))
      | inl (raw, f) ↦
          elim (Option-cases (find? (λ r. r.api_key_hash == crypto.hash raw) w.db.api_clients)) [
            | inr (r, g) ↦ absurd (ground (arith, h, e, f, g, up w.calls, up (suc w.calls)))
            | inl g ↦ (t, raw, e, f, g)
          ]
    ]
  ]

  -- The key of a response is stored, hashed, for the client that the response promises.
  pub create_api_key-known :
      (valid : Bool) (tenant : Uuid) (req : CreateApiKeyRequest) (w : World)
      (resp : CreateApiKeyResponse)
      → (create_api_key crypto env valid tenant req w).0 ≡ ok resp
      → (r : ApiClientRow) × (get_api_client_by_key_hash
            (crypto.hash resp.api_key)
            (create_api_key crypto env valid tenant req w).1
          ≡ some r)
        × (found_client r ≡ promised resp)
        × (resp.tenant_id ≡ tenant)
        × (resp.name ≡ req.name)
  unfolding create_api_key get_api_client_by_key_hash
  create_api_key-known true tenant req w resp h =
      let (t, raw, e, f, g) = issue_key-way tenant req w resp h in
      let run = issue_key-runs tenant req w t raw e f g in
      let is = ok_inj _ resp (rw run at h) in
      subst
        (λ x.
          (r : ApiClientRow) × (get_api_client_by_key_hash (crypto.hash x.api_key)
              (issue_key crypto env tenant req w).1
            ≡ some r)
          × (found_client r ≡ promised x)
          × (x.tenant_id ≡ tenant)
          × (x.name ≡ req.name))
        is
        (new_client tenant req raw w, rw (run, beq_refl (crypto.hash raw)) refl, refl, refl, refl)
  create_api_key-known false tenant req w resp h = absurd (ground (arith, h))

-- A request for a key of a tenant, and whether the validator accepts it.
abbrev pub KeyCall : Type 0
KeyCall = Bool × Uuid × CreateApiKeyRequest

module _ (crypto : Crypto) (env : Env) where
  issue_key-keeps :
      (tenant : Uuid) (req : CreateApiKeyRequest) (w : World) (hash : String) (r : ApiClientRow)
      → get_api_client_by_key_hash hash w ≡ some r
      → get_api_client_by_key_hash hash (issue_key crypto env tenant req w).1 ≡ some r
  unfolding issue_key generate_key Tenants.get_by_id Tenants.create_for_tenant get_tenant_by_id
      insert_api_client get_api_client_by_key_hash
  issue_key-keeps tenant req w hash r h = elim (Bool-cases (env.faults w.calls)) [
    | inl down ↦ rw down h
    | inr up ↦ elim (Option-cases (get_tenant_by_id tenant w)) [
      | inl e ↦ rw (up, e) h
      | inr (t, e) ↦ elim (Result-cases (crypto.draw (record w { calls = suc w.calls }))) [
        | inr (x, f) ↦ rw (up, e, f) h
        | inl (raw, f) ↦ elim (Bool-cases (env.faults (suc w.calls))) [
          | inl down ↦ rw (up, e, f, down) h
          | inr up' ↦
              elim (Option-cases
                (find? (λ r. r.api_key_hash == crypto.hash raw) w.db.api_clients)) [
                  | inr (r', g) ↦ rw (up, e, f, up', g, g) h
                  | inl g ↦
                      let ins = inserted (some tenant) req.name (crypto.hash raw) (at_insert w) g in
                      rw (up, e, f, up', ins, ins, unlike hash (crypto.hash raw) w r h g) h
                ]
        ]
      ]
    ]
  ]

  create_api_key-keeps_one :
      (valid : Bool) (tenant : Uuid) (req : CreateApiKeyRequest) (w : World) (hash : String)
      (r : ApiClientRow)
      → get_api_client_by_key_hash hash w ≡ some r
      → get_api_client_by_key_hash hash (create_api_key crypto env valid tenant req w).1 ≡ some r
  unfolding create_api_key
  create_api_key-keeps_one false tenant req w hash r h = h
  create_api_key-keeps_one true tenant req w hash r h = issue_key-keeps tenant req w hash r h

  -- The world after a sequence of calls of CreateAPIKey.
  abbrev pub create_api_keys : List KeyCall → World → World
  create_api_keys [] w = w
  create_api_keys ((valid, tenant, req) ∷ calls) w =
      create_api_keys calls (create_api_key crypto env valid tenant req w).1

  -- A key that is known stays known, as the same client, after any sequence of calls of
  -- CreateAPIKey, by whatever tenants, whether they succeed or fail.
  pub create_api_key-keeps :
      (calls : List KeyCall) (w : World) (hash : String) (r : ApiClientRow)
      → get_api_client_by_key_hash hash w ≡ some r
      → get_api_client_by_key_hash hash (create_api_keys calls w) ≡ some r
  create_api_key-keeps [] w hash r h = h
  create_api_key-keeps ((valid, tenant, req) ∷ calls) w hash r h =
      create_api_key-keeps calls (create_api_key crypto env valid tenant req w).1 hash r
        (create_api_key-keeps_one valid tenant req w hash r h)
