-- ===== src/Provider/Laws.antt =====
-- internal/provider: the registry as a map, and the classification of Twilio's codes.
use notify_hub.Prelude.{
  ℕ, Bool, true, false, some, List, [], ◌∷◌, ◌≡◌, ◌⊎◌, refl, arith, any, Bool-cases, inl, inr, ◌==◌,
  nat_eq, string_eq, beq_refl, if◌then◌else◌, leb, ltb, ◌&&◌, ◌||◌,
}
use notify_hub.Domain.Errors.{Err, ok}
use notify_hub.Domain.Notification.{Channel}
use notify_hub.Provider.Errors.{is_permanent}
use notify_hub.Provider.Registry.{Provider, Registry, lookup, assign, register, get}
use notify_hub.Provider.Twilio.{classify, permanent_error_codes}

lookup-assign :
    (ch : Channel) (p : Provider) (c : Channel) (ps : List (Channel × Provider))
    → lookup c (assign ch p ps) ≡ (if ch == c then some p else lookup c ps)
lookup-assign ch p c [] = refl
lookup-assign ch p c ((d, q) ∷ ps) = elim (Bool-cases (d == ch)) [
  | inl e ↦
      let same = (string_eq.same_iff d ch).0 e in rw same (rw (beq_refl ch) (merged (ch == c)))
  | inr e ↦ rw (e, lookup-assign ch p c ps) (swapped e (Bool-cases (d == c)) (Bool-cases (ch == c)))
]
  where
    merged :
        (b : Bool)
        → (if b then some p else lookup c ps)
          ≡ (if b then some p else (if b then some q else lookup c ps))
    merged true = refl
    merged false = refl

    swapped :
        (d == ch) ≡ false
        → ((d == c) ≡ true) ⊎ ((d == c) ≡ false)
        → ((ch == c) ≡ true) ⊎ ((ch == c) ≡ false)
        → (if d == c then some q else (if ch == c then some p else lookup c ps))
          ≡ (if ch == c then some p else (if d == c then some q else lookup c ps))
    swapped e (inl f) (inl g) = absurd (
        ground (
          arith,
          e,
          (string_eq.same_iff d ch).1
              (rw ((string_eq.same_iff d c).0 f, (string_eq.same_iff ch c).0 g) refl),
        ))
    swapped e (inl f) (inr g) = rw (f, g) refl
    swapped e (inr f) (inl g) = rw (f, g) refl
    swapped e (inr f) (inr g) = rw (f, g) refl

-- Register makes the provider the one of its channel, replacing an earlier one, and leaves every
-- other channel as it was.
pub get-register :
    (p : Provider) (r : Registry) (ch : Channel)
    → get (register p r) ch ≡ (if p.channel == ch then ok p else get r ch)
unfolding get register
get-register p r ch = elim (Bool-cases (p.channel == ch)) [
  | inl e ↦ rw (get, lookup-assign p.channel p ch r.providers, e) refl
  | inr e ↦ rw (get, lookup-assign p.channel p ch r.providers, e) refl
]

-- For an SDK error that is not permanent by itself, what classify makes of its code is permanent
-- exactly when the code is in the list of permanent codes or is a 4xx status; 20003 is in the
-- list, so its test further down never makes it temporary.
pub classify-permanent :
    (code : ℕ) (e : Err)
    → is_permanent e ≡ false
    → is_permanent (classify (some code) e)
      ≡ (any (λ c. c == code) permanent_error_codes || (leb 400 code && ltb code 500))
unfolding classify is_permanent
classify-permanent code e h = ground (arith, h)
