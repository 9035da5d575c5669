-- ===== src/Service/RateLimit/Window.antt =====
-- The sliding window log against the history of attempts.
use notify_hub.Prelude.{
  ℕ, ◌+◌, ◌-◌, ◌≤◌, ◌<◌, ◌≡◌, refl, String, Bool, true, false, List, [], ◌∷◌, All, filter, any,
  length, ltb, lt→ltb, arith, Bool-cases, inl, inr, ◌==◌, string_eq, nat_eq, beq_refl,
}
use notify_hub.Domain.Errors.{ok}
use notify_hub.Domain.Notification.{Time}
use notify_hub.Db.World.{World, Env}
use notify_hub.Service.RateLimit.{evict, zadd, record_attempt, allow_key}

filter-filter :
    (b c : ℕ) (l : List ℕ)
    → c ≤ b
    → filter (λ s. ltb b s) (filter (λ s. ltb c s) l) ≡ filter (λ s. ltb b s) l
filter-filter b c [] h = refl
filter-filter b c (x ∷ l) h = elim (Bool-cases (ltb c x)) [
  | inl e ↦ ground (arith, filter-filter b c l h)
  | inr e ↦ ground (arith, filter-filter b c l h)
]

All-filter :
    (p : ℕ → Bool) (k : ℕ) (l : List ℕ) → All (λ s. s < k) l → All (λ s. s < k) (filter p l)
All-filter p k [] h = tt
All-filter p k (x ∷ l) h = elim (Bool-cases (p x)) [
  | inl e ↦ ground (arith, All-filter p k l h.1)
  | inr e ↦ ground (arith, All-filter p k l h.1)
]

absent_above : (k : ℕ) (l : List ℕ) → All (λ s. s < k) l → any (λ s. s == k) l ≡ false
absent_above k [] h = refl
absent_above k (x ∷ l) h = ground (arith, absent_above k l h.1)

module _ (score : ℕ → ℕ) (window : ℕ) where
  -- The set after a history of attempts, newest first.
  abbrev pub log : List Time → List ℕ
  log [] = []
  log (t ∷ ts) = (record_attempt score window t (log ts)).0

  -- How many attempts of a history score above a bound.
  abbrev pub above : ℕ → List Time → ℕ
  above b [] = 0
  above b (t ∷ ts) = length (filter (λ s. ltb b s) (score t ∷ [])) + above b ts

-- Attempts come in the order of time, and no two have one score.
abbrev pub Increasing : (ℕ → ℕ) → List Time → Type 0
Increasing score [] = Unit
Increasing score (t ∷ ts) = All (λ s. (s ≤ t) × (score s < score t)) ts × Increasing score ts

-- Rounding keeps the order.
abbrev pub Monotone : (ℕ → ℕ) → Type 0
Monotone score = (a b : ℕ) → a ≤ b → score a ≤ score b

module _ (score : ℕ → ℕ) (window : ℕ) (mono : Monotone score) where
  log-below :
      (k : ℕ) (ts : List Time)
      → Increasing score ts
      → All (λ s. score s < k) ts
      → All (λ s. s < k) (log score window ts)
  unfolding record_attempt
  log-below k [] inc h = tt
  log-below k (t ∷ ts) inc h =
      elim (Bool-cases
        (any (λ s. s == score t) (evict (score (t - window)) (log score window ts)))) [
          | inl e ↦ rw e (
              All-filter (λ s. ltb (score (t - window)) s) k (log score window ts)
                (log-below k ts inc.1 h.1))
          | inr e ↦ rw e (
            h.0,
            All-filter (λ s. ltb (score (t - window)) s) k (log score window ts)
                (log-below k ts inc.1 h.1),
          )
        ]

  All-score :
      (t : ℕ) (ts : List Time)
      → All (λ s. (s ≤ t) × (score s < score t)) ts
      → All (λ s. score s < score t) ts
  All-score t [] h = tt
  All-score t (s ∷ ts) h = (h.0.1, All-score t ts h.1)

  log-cons :
      (t : Time) (ts : List Time)
      → Increasing score (t ∷ ts)
      → log score window (t ∷ ts) ≡ score t ∷ evict (score (t - window)) (log score window ts)
  unfolding record_attempt
  log-cons t ts inc = rw (
      absent_above (score t) _ (
        All-filter (λ s. ltb (score (t - window)) s) (score t) (log score window ts)
          (log-below (score t) ts inc.1 (All-score t ts inc.0))))

  -- Every attempt of the history was made by the time `t`.
  abbrev By : Time → List Time → Type 0
  By t ts = All (λ s. s ≤ t) ts

  By-of : (t u : ℕ) (ts : List Time) → t ≤ u → All (λ s. (s ≤ t) × (score s < score t)) ts → By u ts
  By-of t u [] le h = tt
  By-of t u (s ∷ ts) le h = (omega arith, By-of t u ts le h.1)

  count_above :
      (t : Time) (ts : List Time)
      → Increasing score ts
      → By t ts
      → length (filter (λ s. ltb (score (t - window)) s) (log score window ts))
        ≡ above score window (score (t - window)) ts
  count_above t [] inc by = refl
  count_above t (s ∷ ts) inc by =
      let older = mono (s - window) (t - window) (omega arith) in
      let ih = count_above t ts inc.1 (By-of s t ts by.0 inc.0) in
      rw (log-cons s ts inc) (
        ground (
          arith,
          ih,
          filter-filter (score (t - window)) (score (s - window)) (log score window ts) older,
        ))

  -- Where the rounding to a score is monotone, and the attempts, given newest first, have distinct
  -- increasing scores: the count that an attempt is judged by is the number of the earlier
  -- attempts whose score lies above the start of its window.
  pub record_attempt-counts :
      (t : Time) (ts : List Time)
      → Increasing score (t ∷ ts)
      → (record_attempt score window t (log score window ts)).1
        ≡ above score window (score (t - window)) ts
  unfolding record_attempt
  record_attempt-counts t ts inc = count_above t ts inc.1 (By-of t t ts (omega arith) inc.0)

  -- Where Redis is up, the rounding is monotone, the set is the log of attempts with distinct
  -- increasing scores and the new one is later: the attempt is allowed exactly when fewer than
  -- `cap` earlier attempts, allowed or not, fall in its window, and it is recorded either way.
  pub allow_key-window :
      (env : Env) (key : String) (cap : ℕ) (w : World) (ts : List Time)
      → env.faults w.calls ≡ false
      → w.sorted_sets key ≡ log score window ts
      → Increasing score (w.now ∷ ts)
      → let r = allow_key score env key window cap w in
        (r.0 ≡ ok (ltb (above score window (score (w.now - window)) ts) cap))
        × (r.1.sorted_sets key ≡ log score window (w.now ∷ ts))
  unfolding allow_key
  allow_key-window env key cap w ts up e inc =
      let n = record_attempt-counts w.now ts inc in rw (up, e, n, beq_refl key) (refl, refl)

module _ (score : ℕ → ℕ) (window : ℕ) where
  again_same :
      (b s : ℕ) (kept : List ℕ) (seen : Bool)
      → any (λ t. t == s) kept ≡ seen
      → b < s
      → filter (λ x. ltb b x) kept ≡ kept
      → zadd s (filter (λ x. ltb b x) (zadd s kept)) ≡ zadd s kept
  again_same b s kept true e h f = rw (e, f) (rw e)
  again_same b s kept false e h f = rw (e, lt→ltb b s h, f, beq_refl s)

  -- Where the start of the window has a lower score than its end, a second attempt at the same
  -- instant leaves the set as the first one left it: it is not counted against the cap.
  pub record_attempt-same_instant :
      (t : Time) (set : List ℕ)
      → score (t - window) < score t
      → let after = (record_attempt score window t set).0 in
        (record_attempt score window t after).0 ≡ after
  unfolding record_attempt
  record_attempt-same_instant t set h =
      again_same (score (t - window)) (score t) (evict (score (t - window)) set) _ refl h
        (filter-filter (score (t - window)) (score (t - window)) set (omega arith))
