-- ===== src/Worker/Retry.antt =====
-- internal/worker/processor.go, sendWithRetry. A delay is an int64 of nanoseconds: the product
-- wraps, and a timer of a negative duration fires at once. `math.Pow(2, attempt-1)` is exact up to
-- 2 ^ 62, and below 1, so 0 as a Duration, for attempt 0.
pub mod Bounds
use notify_hub.Prelude.{
  ℕ, zero, suc, ◌+◌, ◌-◌, ◌*◌, ◌%◌, ◌^◌, Bool, true, false, Option, none, some, ◌∷◌, leb, ltb, ◌==◌,
  nat_eq, ◌||◌, if◌then◌else◌,
}
use notify_hub.Domain.Errors.{Err, wrapped, plain, cancelled}
use notify_hub.Domain.Notification.{Notification}
use notify_hub.Queue.Message.{Message}
use notify_hub.Db.World.{World, Env}
use notify_hub.Provider.Errors.{is_permanent}

abbrev pub int64_mod : ℕ
int64_mod = 2 ^ 64

-- The time that a timer of `p` nanoseconds waits, `p` taken as an int64.
abbrev pub timer : ℕ → ℕ
timer p = let q = p % int64_mod in if ltb q (2 ^ 63) then q else 0

-- p.deps.RetryDelay * time.Duration(math.Pow(2, float64(attempt-1)))
unfoldable pub backoff : ℕ → ℕ → ℕ
backoff retry_delay attempt = if attempt == 0 then 0 else timer (retry_delay * 2 ^ (attempt - 1))

-- prov.Send: the world decides the answer.
abbrev pub send : Env → Notification → World → Option Err × World
send env n w = (env.outcomes w.sends, record w { sends = suc w.sends; sent = n ∷ w.sent })

-- <-time.After(delay)
abbrev pub sleep : ℕ → World → World
sleep delay w = record w { waits = suc w.waits; slept = delay ∷ w.slept; now = w.now + delay }

abbrev pub gave_up : Env → World → Bool
gave_up env w = env.done w.waits

-- Whether the loop returns this error: it is permanent, or no attempt is left.
abbrev pub last_error : ℕ → ℕ → Err → Bool
last_error max attempt e = is_permanent e || leb max attempt

module _ (env : Env) (retry_delay : ℕ) (max : ℕ) (n : Notification) where
  -- The loop, with fuel for the rounds; more than the retries that are left is enough.
  unfoldable pub retry_loop : ℕ → ℕ → World → Option Err × World
  unfolding backoff is_permanent
  retry_loop zero attempt w = (some (plain "out of fuel"), w)
  retry_loop (suc fuel) attempt w =
      let (answer, w') = send env n w in
      let again = retry_loop fuel (suc attempt) (sleep (backoff retry_delay attempt) w') in
      elim answer [
        | none ↦ (none, w')
        | some e ↦
            if last_error max attempt e
            then (some e, w')
            else (if gave_up env w'
                then (
                  some (wrapped "context cancelled during retry" cancelled),
                  record w' { waits = suc w'.waits },
                )
                else again)
      ]

-- sendWithRetry, with fuel for more rounds than there are attempts: it is the test of the attempt
-- that ends the loop.
unfoldable pub send_with_retry : Env → ℕ → Message → Notification → World → Option Err × World
unfolding retry_loop
send_with_retry env retry_delay msg n w =
    retry_loop env retry_delay msg.max_attempts n (msg.max_attempts + 2) msg.attempt w
