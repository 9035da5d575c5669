-- ===== src/Worker/Retry/Bounds.antt =====
-- The retry loop: enough fuel, the number of calls, and where it stops.
use native.Mathlib.Nat.{two-pow-succ, zero-add, mul-add, add-zero, add-suc, suc-add}
use notify_hub.Prelude.{
  ℕ, zero, suc, ◌+◌, ◌-◌, ◌*◌, ◌^◌, ◌≤◌, ◌<◌, ◌≡◌, ◌⊎◌, true, false, Option, none, some, arith, ap,
}
use notify_hub.Domain.Errors.{Err, wrapped, cancelled}
use notify_hub.Domain.Notification.{Notification}
use notify_hub.Queue.Message.{Message}
use notify_hub.Db.World.{World, Env}
use notify_hub.Provider.Errors.{is_permanent}
use notify_hub.Worker.Retry.{retry_loop, send_with_retry, backoff, send, sleep}

module _ (env : Env) (retry_delay : ℕ) (max : ℕ) (n : Notification) where
  -- The world after a call that is to be retried, and its wait.
  abbrev pub again : ℕ → World → World
  again attempt w = sleep (backoff retry_delay attempt) (send env n w).1

  -- Any two amounts of fuel above the number of retries left give the same run of the loop, so
  -- the fuel is never what ends it.
  pub retry_loop-fuel :
      (f g attempt : ℕ) (w : World)
      → max - attempt < f
      → max - attempt < g
      → retry_loop env retry_delay max n f attempt w ≡ retry_loop env retry_delay max n g attempt w
  unfolding retry_loop
  retry_loop-fuel zero g attempt w p q = elim p [ ]
  retry_loop-fuel (suc f) zero attempt w p q = elim q [ ]
  retry_loop-fuel (suc f) (suc g) attempt w p q =
      ground (arith, retry_loop-fuel f g (suc attempt) (again attempt w))

-- A run of the loop ends with the answer of its last call, or because the context is done. It calls
-- the provider once or more, and at most once for each attempt that is left.
abbrev pub Ended : Env → ℕ → World → Option Err × World → Type 0
Ended env left w r =
    (suc w.sends ≤ r.1.sends)
    × (r.1.sends ≤ w.sends + suc left)
    × ((r.0 ≡ env.outcomes (r.1.sends - 1))
        ⊎ (r.0 ≡ some (wrapped "context cancelled during retry" cancelled)))

module _ (env : Env) (retry_delay : ℕ) (max : ℕ) (n : Notification) where
  retry_loop-Ended :
      (f attempt : ℕ) (w : World)
      → max - attempt < f
      → Ended env (max - attempt) w (retry_loop env retry_delay max n f attempt w)
  unfolding retry_loop
  retry_loop-Ended zero attempt w p = elim p [ ]
  retry_loop-Ended (suc f) attempt w p =
      ground (arith, retry_loop-Ended f (suc attempt) (again env retry_delay max n attempt w))

-- k calls in a row, from the s-th on, fail in a way that is not permanent, and the context lives
-- through the k waits from the v-th on.
abbrev pub Retried : Env → ℕ → ℕ → ℕ → Type 0
Retried env zero s v = Unit
Retried env (suc k) s v =
    (e : Err) × (env.outcomes s ≡ some e)
    × (is_permanent e ≡ false)
    × (env.done v ≡ false)
    × Retried env k (suc s) (suc v)

-- The loop stops at an answer that is a success or a permanent error.
abbrev pub Decisive : Option Err → Type 0
Decisive o = (o ≡ none) ⊎ ((e : Err) × (o ≡ some e) × (is_permanent e ≡ true))

-- The time that k waits take, the first after the given attempt.
abbrev pub waited : ℕ → ℕ → ℕ → ℕ
waited retry_delay zero attempt = 0
waited retry_delay (suc k) attempt =
    backoff retry_delay attempt + waited retry_delay k (suc attempt)

module _ (env : Env) (retry_delay : ℕ) (max : ℕ) (n : Notification) where
  retry_loop_lem :
      (k f attempt : ℕ) (w : World)
      → k < f
      → attempt + k ≤ max
      → Retried env k w.sends w.waits
      → Decisive (env.outcomes (w.sends + k)) ⊎ (attempt + k ≡ max)
      → let r = retry_loop env retry_delay max n f attempt w in
        (r.0 ≡ env.outcomes (w.sends + k))
        × (r.1.sends ≡ w.sends + suc k)
        × (r.1.now ≡ w.now + waited retry_delay k attempt)
  unfolding retry_loop
  retry_loop_lem k zero attempt w p q h stop = elim p [ ]
  retry_loop_lem zero (suc f) attempt w p q h stop =
      ground (arith, ap env.outcomes (add-zero w.sends))
  retry_loop_lem (suc k) (suc f) attempt w p q (e, o, t, d, h) stop = ground (
    arith,
    ap env.outcomes (add-suc w.sends k),
    ap env.outcomes (suc-add w.sends k),
    retry_loop_lem k f (suc attempt) (again env retry_delay max n attempt w),
  )

backoff_exact : (d b : ℕ) → d * 2 ^ b < 2 ^ 63 → backoff d (suc b) ≡ d * 2 ^ b
unfolding backoff
backoff_exact d b h =
    let e : d * 2 ^ (suc b - 1) ≡ d * 2 ^ b = ap (λ (t : ℕ). d * 2 ^ t) (omega arith) in
    ground (arith, e)

-- Where d * 2^(b + k) stays below 2^63, the waits add up as a geometric series: k waits with the
-- delay d, from the attempt b + 1 on, take d * 2^b * (2^k - 1).
pub waited-geometric :
    (d k b : ℕ) → d * 2 ^ (b + k) < 2 ^ 63 → waited d k (suc b) + d * 2 ^ b ≡ d * 2 ^ (b + k)
waited-geometric d zero b h = rw (add-zero, zero-add)
waited-geometric d (suc k) b h =
    let shift : d * 2 ^ (b + suc k) ≡ d * 2 ^ (suc b + k) =
      ap (λ (t : ℕ). d * 2 ^ t) (omega arith) in
    let twice : d * 2 ^ suc b ≡ d * 2 ^ b + d * 2 ^ b =
      rw two-pow-succ (mul-add d (2 ^ b) (2 ^ b)) in
    let ih = waited-geometric d k (suc b) (omega arith) in
    let first = backoff_exact d b (omega arith) in omega arith

module _ (env : Env) (retry_delay : ℕ) (msg : Message) (n : Notification) where
  -- The retries end: the result is the answer of the last call of the provider, or the error that
  -- the context was cancelled during a wait. The provider is called at least once, and at most
  -- once for the attempt of the message and each one after it up to the maximum.
  pub send_with_retry_bounds :
      (w : World)
      → Ended env (msg.max_attempts - msg.attempt) w (send_with_retry env retry_delay msg n w)
  unfolding send_with_retry
  send_with_retry_bounds w =
      retry_loop-Ended env retry_delay msg.max_attempts n (msg.max_attempts + 2) msg.attempt w
        (omega arith)

  -- If k calls in a row fail in a way that is not permanent, with the context alive, and the next
  -- answer is a success, a permanent error, or that of the last attempt, then that answer is the
  -- result, after exactly k + 1 calls and the k waits.
  pub send_with_retry_lem :
      (k : ℕ) (w : World)
      → msg.attempt + k ≤ msg.max_attempts
      → Retried env k w.sends w.waits
      → Decisive (env.outcomes (w.sends + k)) ⊎ (msg.attempt + k ≡ msg.max_attempts)
      → let r = send_with_retry env retry_delay msg n w in
        (r.0 ≡ env.outcomes (w.sends + k))
        × (r.1.sends ≡ w.sends + suc k)
        × (r.1.now ≡ w.now + waited retry_delay k msg.attempt)
  unfolding send_with_retry
  send_with_retry_lem k w p =
      retry_loop_lem env retry_delay msg.max_attempts n k (msg.max_attempts + 2) msg.attempt w
        (omega arith) p
