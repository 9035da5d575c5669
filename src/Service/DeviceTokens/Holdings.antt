-- ===== src/Service/DeviceTokens/Holdings.antt =====
-- internal/service/device_token.go against an abstract registry: a function from a tenant and a
-- token to who holds the token.
use notify_hub.Prelude.{
  suc, String, Bool, true, false, Option, none, some, List, [], ◌∷◌, ◌≡◌, refl, ap, ◌∙◌, arith, inl,
  inr, find?, find?-holds, find?-update_where, find?-update_in, update_where, after, ◌==◌, nat_eq,
  string_eq, nat_beq_iff, ◌&&◌, Bool-cases, Option-cases, if◌then◌else◌,
}
use notify_hub.Domain.Notification.{Uuid, Time}
use notify_hub.Domain.DeviceToken.{RegisterDeviceTokenRequest}
use notify_hub.Db.Models.{DeviceTokenRow}
use notify_hub.Db.World.{World, Env}
use notify_hub.Db.Io.{IsHealthy, query_one}
use notify_hub.Db.Frames.{pure-world, query_one-world}
use notify_hub.Db.DeviceTokenQueries.{
  of_token, switch_off, upsert_by, upsert_device_token, deactivate_device_token,
}
use notify_hub.Repository.Notifications.Isolation.{&&-left, &&-right}
use notify_hub.Repository.DeviceTokens
use notify_hub.Repository.DeviceTokens.{upsert_params, to_device_token}
use notify_hub.Service.DeviceTokens.{register, deregister}

pub record Holding : Type 0 where
  pub user : String
  pub platform : String
  pub active : Bool

abbrev pub Holdings : Type 0
Holdings = Uuid → String → Option Holding

abbrev pub holding : DeviceTokenRow → Holding
holding r = record { user = r.user_id; platform = r.platform; active = r.is_active }

abbrev pub held : Option DeviceTokenRow → Option Holding
held none = none
held (some r) = some (holding r)

-- What the table says of a token.
abbrev pub holdings : World → Holdings
holdings w tenant token = held (find? (of_token tenant token) w.db.device_tokens)

-- The abstract registry: to register is to hold the token, whoever held it before.
abbrev pub hold : Uuid → RegisterDeviceTokenRequest → Holdings → Holdings
hold tenant req h t k =
    if tenant == t && req.token == k
    then some (record { user = req.user_id; platform = req.platform; active = true })
    else h t k

abbrev pub released : Option Holding → Option Holding
released none = none
released (some x) = some (record x { active = false })

abbrev pub release : Uuid → String → Holdings → Holdings
release tenant token h t k = if tenant == t && token == k then released (h t k) else h t k

pub data TokenCall : Type 0 where
  registering : Uuid → RegisterDeviceTokenRequest → TokenCall
  deregistering : Uuid → String → TokenCall

abbrev pub Agrees : World → Holdings → Type 0
Agrees w h = (t : Uuid) (k : String) → holdings w t k ≡ h t k

hold-ext :
    (tenant : Uuid) (req : RegisterDeviceTokenRequest) (t : Uuid) (k : String) (g h : Holdings)
    → g t k ≡ h t k
    → hold tenant req g t k ≡ hold tenant req h t k
hold-ext tenant req t k g h e = rw e refl

release-ext :
    (tenant : Uuid) (token : String) (t : Uuid) (k : String) (g h : Holdings)
    → g t k ≡ h t k
    → release tenant token g t k ≡ release tenant token h t k
release-ext tenant token t k g h e = rw e refl

same_key :
    (t u : Uuid) (k l : String) (r : DeviceTokenRow)
    → of_token t k r ≡ true
    → of_token u l r ≡ (t == u && k == l)
same_key t u k l r h =
    let a = (nat_beq_iff r.tenant_id t).0 (&&-left (r.tenant_id == t) _ h) in
    let b = (string_eq.same_iff r.token k).0 (&&-right (r.tenant_id == t) _ h) in rw (a, b) refl

-- A write to one token that keeps the keys is not seen through another.
find?-other :
    (tenant t : Uuid) (token k : String) (f : DeviceTokenRow → DeviceTokenRow)
    (rs : List DeviceTokenRow)
    → ((r : DeviceTokenRow) → of_token t k (f r) ≡ of_token t k r)
    → (tenant == t && token == k) ≡ false
    → find? (of_token t k) (update_where (of_token tenant token) f rs) ≡ find? (of_token t k) rs
find?-other tenant t token k f rs keep d =
    find?-update_in (of_token t k) (of_token tenant token) f rs keep
    ∙ elim (Option-cases (find? (of_token t k) rs)) [
      | inl e ↦ rw e refl
      | inr (r, e) ↦
          let own = find?-holds (of_token t k) rs r e in
          rw e (elim (Bool-cases (of_token tenant token r)) [
            | inl g ↦ absurd (ground (arith, own, d, same_key tenant t token k r g))
            | inr g ↦ rw g refl
          ])
    ]

-- A write to a token is seen through it.
find?-same :
    (tenant t : Uuid) (token k : String) (f : DeviceTokenRow → DeviceTokenRow)
    (rs : List DeviceTokenRow)
    → ((r : DeviceTokenRow) → of_token t k (f r) ≡ of_token t k r)
    → (tenant == t && token == k) ≡ true
    → find? (of_token t k) (update_where (of_token tenant token) f rs)
      ≡ after f (find? (of_token tenant token) rs)
find?-same tenant t token k f rs keep e =
    let a = (nat_beq_iff tenant t).0 (&&-left (tenant == t) _ e) in
    let b = (string_eq.same_iff token k).0 (&&-right (tenant == t) _ e) in
    rw (a, b) (find?-update_where (of_token t k) f rs keep)

find?-key :
    (tenant t : Uuid) (token k : String) (rs : List DeviceTokenRow)
    → (tenant == t && token == k) ≡ true
    → find? (of_token tenant token) rs ≡ find? (of_token t k) rs
find?-key tenant t token k rs e =
    let a = (nat_beq_iff tenant t).0 (&&-left (tenant == t) _ e) in
    let b = (string_eq.same_iff token k).0 (&&-right (tenant == t) _ e) in rw (a, b) refl

held-switch_off :
    (now : Time) (o : Option DeviceTokenRow) → held (after (switch_off now) o) ≡ released (held o)
held-switch_off now none = refl
held-switch_off now (some r) = refl

upsert_by-holdings :
    (tenant : Uuid) (req : RegisterDeviceTokenRequest) (w : World) (o : Option DeviceTokenRow)
    (t : Uuid) (k : String)
    → find? (of_token tenant req.token) w.db.device_tokens ≡ o
    → holdings (upsert_by (upsert_params tenant req) w o).1 t k ≡ hold tenant req (holdings w) t k
upsert_by-holdings tenant req w none t k e = elim (Bool-cases (tenant == t && req.token == k)) [
  | inl g ↦ rw g refl
  | inr g ↦ rw g refl
]
upsert_by-holdings tenant req w (some r) t k e = elim (Bool-cases (tenant == t && req.token == k)) [
  | inl g ↦ rw g (
      ap held (find?-same tenant t req.token k _ w.db.device_tokens (λ s. refl) g ∙ ap (after _) e))
  | inr g ↦ rw g (ap held (find?-other tenant t req.token k _ w.db.device_tokens (λ s. refl) g))
]

module _ (is_valid : RegisterDeviceTokenRequest → Bool) (env : Env) where
  abbrev pub call_token : TokenCall → World → World
  unfolding register deregister
  call_token (registering tenant req) w = (register is_valid env tenant req w).1
  call_token (deregistering tenant token) w = (deregister is_valid env tenant token w).1

  abbrev pub call_tokens : List TokenCall → World → World
  call_tokens [] w = w
  call_tokens (c ∷ cs) w = call_tokens cs (call_token c w)

  -- What the abstract registry does at a call.
  abbrev pub holdings_after : TokenCall → Holdings → Holdings
  holdings_after (registering tenant req) h = if is_valid req then hold tenant req h else h
  holdings_after (deregistering tenant token) h = if token == "" then h else release tenant token h

  abbrev pub holdings_after_all : List TokenCall → Holdings → Holdings
  holdings_after_all [] h = h
  holdings_after_all (c ∷ cs) h = holdings_after_all cs (holdings_after c h)

  module _ (up : IsHealthy env) where
    upsert-holdings :
        (tenant : Uuid) (req : RegisterDeviceTokenRequest) (w : World) (t : Uuid) (k : String)
        → holdings (DeviceTokens.upsert env tenant req w).1 t k ≡ hold tenant req (holdings w) t k
    unfolding DeviceTokens.upsert upsert_device_token
    upsert-holdings tenant req w t k =
        let q = upsert_device_token (upsert_params tenant req) in
        ap (λ v. holdings v t k)
          (pure-world to_device_token (query_one env q) w ∙ query_one-world env q w (up w.calls))
        ∙ upsert_by-holdings tenant req (record w { calls = suc w.calls }) _ t k refl

    deactivate-holdings :
        (tenant : Uuid) (token : String) (w : World) (t : Uuid) (k : String)
        → holdings (DeviceTokens.deactivate env tenant token w).1 t k
          ≡ release tenant token (holdings w) t k
    unfolding DeviceTokens.deactivate deactivate_device_token
    deactivate-holdings tenant token w t k = elim (Bool-cases (tenant == t && token == k)) [
      | inl g ↦
          rw (up w.calls, g)
            (ap held (find?-same tenant t token k _ w.db.device_tokens (λ s. refl) g)
              ∙ held-switch_off w.now (find? (of_token tenant token) w.db.device_tokens)
              ∙ ap (λ o. released (held o)) (find?-key tenant t token k w.db.device_tokens g))
      | inr g ↦
          rw (up w.calls, g)
            (ap held (find?-other tenant t token k _ w.db.device_tokens (λ s. refl) g))
    ]

    call_token-Agrees :
        (c : TokenCall) (w : World) (h : Holdings)
        → Agrees w h
        → Agrees (call_token c w) (holdings_after c h)
    unfolding register deregister
    call_token-Agrees (registering tenant req) w h a t k = elim (Bool-cases (is_valid req)) [
      | inl e ↦
          rw (e, call_token, register)
            (upsert-holdings tenant req w t k ∙ hold-ext tenant req t k (holdings w) h (a t k))
      | inr e ↦ rw (e, call_token, register) (a t k)
    ]
    call_token-Agrees (deregistering tenant token) w h a t k = elim (Bool-cases (token == "")) [
      | inl e ↦ rw (e, call_token, deregister) (a t k)
      | inr e ↦
          rw (e, call_token, deregister)
            (deactivate-holdings tenant token w t k
              ∙ release-ext tenant token t k (holdings w) h (a t k))
    ]

    -- While the database answers, any sequence of registrations and deregistrations leaves the
    -- table as the abstract registry says: a token is held by the last user who registered it
    -- for its tenant with a valid request, and is active unless it was deregistered since.
    pub call_tokens-Agrees :
        (cs : List TokenCall) (w : World) (h : Holdings)
        → Agrees w h
        → Agrees (call_tokens cs w) (holdings_after_all cs h)
    call_tokens-Agrees [] w h a = a
    call_tokens-Agrees (c ∷ cs) w h a =
        call_tokens-Agrees cs (call_token c w) (holdings_after c h) (call_token-Agrees c w h a)
